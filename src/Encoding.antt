-- ===== src/Encoding.antt =====
-- cxk/util/hash_util.cpp: base64 and hexadecimal text, and splitting. A string is the list of its bytes.
pub mod Base64
pub mod Base64Trip
pub mod Hex
pub mod Split
mod Tests
