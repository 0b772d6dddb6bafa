-- ===== src/Encoding/Tests.antt =====
-- Runs of the codecs on concrete texts, and the theorems at concrete inputs.
use cxkframework.Prelude.{◌≡◌, refl, [], ◌∷◌, arith}
use cxkframework.Encoding.Hex.{ok, throws, odd_length, hexstring_from_data, data_from_hexstring}
use cxkframework.Encoding.Base64.{base64encode, base64decode}
use cxkframework.Encoding.Base64Trip.{base64decode-base64encode}
use cxkframework.Encoding.Split.{split, rejoin, rejoin-split}

hex_run : hexstring_from_data (0x1f ∷ 0xa0 ∷ []) ≡ b'1' ∷ b'f' ∷ b'a' ∷ b'0' ∷ []
unfolding hexstring_from_data
hex_run = refl

odd_run : data_from_hexstring (b'1' ∷ b'f' ∷ b'a' ∷ []) ≡ throws odd_length
unfolding data_from_hexstring
odd_run = refl

base64_run : base64encode (b'M' ∷ b'a' ∷ []) ≡ b'T' ∷ b'W' ∷ b'E' ∷ b'=' ∷ []
unfolding base64encode
base64_run = refl

upper_run : data_from_hexstring (b'1' ∷ b'F' ∷ []) ≡ ok (0x1f ∷ [])
unfolding data_from_hexstring
upper_run = refl

base64decode-base64encode_example :
    base64decode (base64encode (b'M' ∷ b'a' ∷ b'n' ∷ 255 ∷ [])) ≡ b'M' ∷ b'a' ∷ b'n' ∷ 255 ∷ []
base64decode-base64encode_example =
    base64decode-base64encode (b'M' ∷ b'a' ∷ b'n' ∷ 255 ∷ [])
      (omega arith, (omega arith, (omega arith, (omega arith, tt))))

rejoin-split_example :
    rejoin b',' (split (b'a' ∷ b',' ∷ b'b' ∷ b',' ∷ b'c' ∷ []) b',' 2)
    ≡ b'a' ∷ b',' ∷ b'b' ∷ b',' ∷ b'c' ∷ []
rejoin-split_example = rejoin-split (b'a' ∷ b',' ∷ b'b' ∷ b',' ∷ b'c' ∷ []) b',' 2

split_run :
    split (b'a' ∷ b',' ∷ b'b' ∷ b',' ∷ b'c' ∷ []) b',' 2
    ≡ (b'a' ∷ []) ∷ (b'b' ∷ b',' ∷ b'c' ∷ []) ∷ []
unfolding split
split_run = refl

-- A limit of 1 is no limit: the counter passes 1 before it is tested.
split_one_run : split (b'a' ∷ b',' ∷ b'b' ∷ []) b',' 1 ≡ (b'a' ∷ []) ∷ (b'b' ∷ []) ∷ []
unfolding split
split_one_run = refl
