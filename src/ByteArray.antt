-- ===== src/ByteArray.antt =====
-- cxk/bytearray.h and cxk/bytearray.cpp: the growable byte buffer, a linked list of nodes of
-- `base_size` bytes. The list from `m_root` on is `before ++ after`; `m_cur` is the head of `after`,
-- and the null pointer where `after` is empty. A byte is a number below 256. The bytes of a new node
-- are indeterminate in C++; the model writes 0 there.
-- `size_t` values are plain numbers: the differences that the code forms (`m_capacity - m_position`,
-- `m_size - m_position`, `m_cur->size - npos`) are exact under `IsValid` of ByteArray/Invariant.antt.
pub mod Fixed
pub mod Varint
pub mod Text
pub mod Buffers
pub mod Invariant
mod Splice
mod WriteLoop
mod ReadLoop
pub mod Grow
pub mod Write
pub mod Read
mod Steps
pub mod FixedTrip
pub mod VarintTrip
mod VarintRounds
pub mod Zigzag
pub mod IntTrip
pub mod Seek
pub mod RoundTrip
mod Tests
use cxkframework.Prelude.{
  ℕ, zero, suc, ◌+◌, ◌-◌, ◌*◌, ◌/◌, ◌%◌, ◌≤◌, Bool, true, false, Option, none, some, List, [], ◌∷◌,
  ◌++◌, ltb, leb, ◌==◌, if◌then◌else◌, length, take, drop, replicate,
}

abbrev pub Node : Type 0
Node = List ℕ

-- `Node(size_t s)`: `new char[s]`
unfoldable pub new_node : ℕ → Node
new_node s = replicate s 0

pub data Endian : Type 0 where
  little big : Endian

pub record ByteArray : Type 0 where
  pub base_size : ℕ
  pub position : ℕ
  pub capacity : ℕ
  pub size : ℕ
  pub endian : Endian
  pub before : List Node
  pub after : List Node

-- What a method does: it returns, it throws `std::out_of_range`, or it reads or writes through a
-- null node pointer. The state that an exception leaves behind is kept.
pub data Outcome {ℓ} (A : Type ℓ) : Type ℓ where
  ok : A → ByteArray → Outcome A
  throws : ByteArray → Outcome A
  fault : Outcome A

abbrev pub M : Type 0 → Type 0
M A = ByteArray → Outcome A

infixl 5 ◌>>=◌ ◌>>◌
abbrev pub ◌>>=◌ : {A B : Type 0} → M A → (A → M B) → M B
◌>>=◌ m f s = elim (m s) [ ok a s' ↦ f a s' | throws s' ↦ throws s' | fault ↦ fault ]

abbrev pub ◌>>◌ : {B : Type 0} → M (Unit {0}) → M B → M B
m >> k = m >>= λ _. k

abbrev pub return : {A : Type 0} → A → M A
return a s = ok a s

-- `ByteArray(size_t base_size)`
unfoldable pub create : ℕ → ByteArray
unfolding new_node
create base_size = record {
  base_size = base_size;
  position = 0;
  capacity = base_size;
  size = 0;
  endian = big;
  before = [];
  after = new_node base_size ∷ [];
}

unfoldable pub is_little_endian : ByteArray → Bool
is_little_endian s = elim s.endian [ little ↦ true | big ↦ false ]

unfoldable pub set_is_little_endian : Bool → ByteArray → ByteArray
set_is_little_endian val s = record s { endian = if val then little else big }

-- `getReadSize()` and the private `getCapacity()`
unfoldable pub get_read_size : ByteArray → ℕ
get_read_size s = s.size - s.position

unfoldable pub get_capacity : ByteArray → ℕ
get_capacity s = s.capacity - s.position

-- the nodes that `addCapacity` appends when `size` bytes are asked for and `old_cap` are left
unfoldable pub node_count : ℕ → ℕ → ℕ → ℕ
node_count base size old_cap =
    let missing = size - old_cap in missing / base + (if ltb old_cap (missing % base) then 1 else 0)

unfoldable pub add_nodes : ℕ → ByteArray → ByteArray
unfolding get_capacity new_node
add_nodes count s =
    let fresh = replicate count (new_node s.base_size) in
    if get_capacity s == 0
    then record s {
      capacity = s.capacity + count * s.base_size;
      before = s.before ++ s.after;
      after = fresh;
    }
    else record s { capacity = s.capacity + count * s.base_size; after = s.after ++ fresh }

unfoldable pub add_capacity : ℕ → ByteArray → ByteArray
unfolding get_capacity node_count add_nodes
add_capacity size s =
    if size == 0
    then s
    else (if leb size (get_capacity s)
        then s
        else add_nodes (node_count s.base_size size (get_capacity s)) s)

-- `memcpy(node->ptr + npos, bytes, size)`
unfoldable pub overwrite : List ℕ → ℕ → List ℕ → List ℕ
overwrite node npos bytes = take npos node ++ (bytes ++ drop (npos + length bytes) node)

-- the bytes of a node that `memcpy(buf, node->ptr + npos, size)` reads
unfoldable pub slice : List ℕ → ℕ → ℕ → List ℕ
slice node npos size = take size (drop npos node)

-- `m_cur->size`, where `m_cur` is not null
abbrev pub node_size : List Node → ℕ
node_size [] = 0
node_size (n ∷ rest) = length n

-- A walk over the nodes: what was read, the nodes left behind, and those from `m_cur` on.
pub record Walk : Type 0 where
  pub bytes : List ℕ
  pub passed : List Node
  pub rest : List Node

abbrev pass : Node → List ℕ → Option Walk → Option Walk
pass n bs none = none
pass n bs (some w) = some (record w { bytes = bs ++ w.bytes; passed = n ∷ w.passed })

abbrev last_node : Bool → Node → List ℕ → List Node → Walk
last_node true n bs rest = record { bytes = bs; passed = n ∷ []; rest = rest }
last_node false n bs rest = record { bytes = bs; passed = []; rest = n ∷ rest }

-- the loop of `write(buf, size)`; `none` is an access through the null pointer
unfoldable pub write_loop : List Node → ℕ → ℕ → List ℕ → Option Walk
unfolding overwrite
write_loop nodes npos ncap [] = some (record { bytes = []; passed = []; rest = nodes })
write_loop [] npos ncap (b ∷ bs) = none
write_loop (n ∷ rest) npos ncap (b ∷ bs) =
    let size = length (b ∷ bs) in
    let later =
      pass (overwrite n npos (take ncap (b ∷ bs))) []
        (write_loop rest 0 (node_size rest) (drop ncap (b ∷ bs))) in
    if leb size ncap
    then some (last_node (length n == npos + size) (overwrite n npos (b ∷ bs)) [] rest)
    else later

unfoldable pub after_write : ℕ → ByteArray → Option Walk → Outcome (Unit {0})
after_write size s none = fault
after_write size s (some w) =
    let position = s.position + size in
    ok tt (record s {
      position = position;
      size = if ltb s.size position then position else s.size;
      before = s.before ++ w.passed;
      after = w.rest;
    })

unfoldable pub write_from : List ℕ → ByteArray → Outcome (Unit {0})
unfolding after_write
write_from bytes s =
    let npos = s.position % s.base_size in
    after_write (length bytes) s (write_loop s.after npos (node_size s.after - npos) bytes)

-- `write(const void* buf, size_t size)`
unfoldable pub write : List ℕ → M (Unit {0})
unfolding add_capacity write_from
write bytes s =
    if length bytes == 0 then ok tt s else write_from bytes (add_capacity (length bytes) s)

-- The loop of `read(buf, size)`. Where a node is used up, the source goes on with the next node and
-- leaves `ncap` as it was.
unfoldable pub read_loop : List Node → ℕ → ℕ → ℕ → Option Walk
unfolding slice
read_loop nodes npos ncap zero = some (record { bytes = []; passed = []; rest = nodes })
read_loop [] npos ncap (suc k) = none
read_loop (n ∷ rest) npos ncap (suc k) =
    let later = pass n (slice n npos ncap) (read_loop rest 0 ncap (suc k - ncap)) in
    if leb (suc k) ncap
    then some (last_node (length n == npos + suc k) n (slice n npos (suc k)) rest)
    else later

unfoldable pub after_read : ℕ → ByteArray → Option Walk → Outcome (List ℕ)
after_read size s none = fault
after_read size s (some w) =
    ok w.bytes
      (record s { position = s.position + size; before = s.before ++ w.passed; after = w.rest })

-- `read` from the nodes under `m_cur` on. With none left the code reads `m_cur->size` through the
-- null pointer, also when `size` is 0.
unfoldable pub read_from : ℕ → ByteArray → List Node → Outcome (List ℕ)
unfolding after_read
read_from size s [] = fault
read_from size s (n ∷ rest) =
    let npos = s.position % s.base_size in
    after_read size s (read_loop (n ∷ rest) npos (length n - npos) size)

-- `read(void* buf, size_t size)`
unfoldable pub read : ℕ → M (List ℕ)
unfolding get_read_size read_from
read size s = if ltb (get_read_size s) size then throws s else read_from size s s.after

abbrev copied : ByteArray → Option Walk → Outcome (List ℕ)
copied s none = fault
copied s (some w) = ok w.bytes s

unfoldable pub read_at_from : ℕ → ℕ → ByteArray → List Node → Outcome (List ℕ)
read_at_from size position s [] = fault
read_at_from size position s (n ∷ rest) =
    let npos = position % s.base_size in copied s (read_loop (n ∷ rest) npos (length n - npos) size)

-- `read(void* buf, size_t size, size_t position) const`: it starts at `m_cur`, at `position` modulo
-- the node size, and leaves the state alone.
unfoldable pub read_at : ℕ → ℕ → M (List ℕ)
unfolding get_read_size read_at_from
read_at size position s =
    if ltb (get_read_size s) size then throws s else read_at_from size position s s.after

-- the walk of `setPosition` from `m_root`: `v` bytes in, past a node that ends there
unfoldable pub seek_loop : List Node → ℕ → Option Walk
seek_loop [] v = none
seek_loop (n ∷ rest) v =
    let later = pass n [] (seek_loop rest (v - length n)) in
    if ltb (length n) v then later else some (last_node (v == length n) n [] rest)

abbrev sought : ℕ → ByteArray → Option Walk → Outcome (Unit {0})
sought v s none = fault
sought v s (some w) = ok tt (record s {
  position = v;
  size = if ltb s.size v then v else s.size;
  before = w.passed;
  after = w.rest;
})

-- `setPosition(size_t v)`
unfoldable pub set_position : ℕ → M (Unit {0})
set_position v s =
    if ltb s.capacity v then throws s else sought v s (seek_loop (s.before ++ s.after) v)

-- `clear()`: every node but the root is freed. `m_size` keeps its value.
unfoldable pub clear : ByteArray → ByteArray
clear s = record s {
  position = 0;
  capacity = s.base_size;
  before = [];
  after = take 1 (s.before ++ s.after);
}
