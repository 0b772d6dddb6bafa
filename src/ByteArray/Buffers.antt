-- ===== src/ByteArray/Buffers.antt =====
-- The scatter lists of cxk/bytearray.cpp. An `iovec` is the index of its node, counted from `m_root`,
-- the offset in the node and the length.
use cxkframework.Prelude.{
  ℕ, zero, suc, ◌+◌, ◌-◌, ◌/◌, ◌%◌, Option, none, some, List, [], ◌∷◌, ◌++◌, leb, ltb, ◌==◌,
  if◌then◌else◌, length, drop,
}
use cxkframework.ByteArray.{
  ByteArray, Outcome, ok, fault, M, Node, node_size, get_read_size, add_capacity,
}

pub record Iovec : Type 0 where
  pub node : ℕ
  pub offset : ℕ
  pub len : ℕ

abbrev pub push : Iovec → Option (List Iovec) → Option (List Iovec)
push v none = none
push v (some vs) = some (v ∷ vs)

-- The loop that the three methods share, over the nodes from `cur` on, of which the first has the
-- index `i`; `none` is an access through the null pointer.
unfoldable pub iovec_loop : List Node → ℕ → ℕ → ℕ → ℕ → Option (List Iovec)
iovec_loop nodes i npos ncap zero = some []
iovec_loop [] i npos ncap (suc k) = none
iovec_loop (n ∷ rest) i npos ncap (suc k) =
    let more =
      push (record { node = i; offset = npos; len = ncap })
        (iovec_loop rest (i + 1) 0 (node_size rest) (suc k - ncap)) in
    if leb (suc k) ncap then some (record { node = i; offset = npos; len = suc k } ∷ []) else more

abbrev iovecs : ℕ → ByteArray → Option (List Iovec) → Outcome (ℕ × List Iovec)
iovecs len s none = fault
iovecs len s (some vs) = ok (len, vs) s

abbrev at_most : ℕ → ℕ → ℕ
at_most limit len = if ltb limit len then limit else len

-- `getReadBuffers(buffers, len)`: what it returns, and what it appends to `buffers`
unfoldable pub get_read_buffers : ℕ → M (ℕ × List Iovec)
unfolding get_read_size iovec_loop
get_read_buffers asked s =
    let len = at_most (get_read_size s) asked in
    let npos = s.position % s.base_size in
    if len == 0
    then ok (0, []) s
    else iovecs len s (iovec_loop s.after (length s.before) npos (node_size s.after - npos) len)

-- `getReadBuffers(buffers, len, position) const`: the nodes are those from `position` on, but the
-- length is cut by `m_position`, and `ncap` comes from `m_cur`.
abbrev from_node : List Node → ℕ → ℕ → ByteArray → ℕ → Outcome (ℕ × List Iovec)
from_node [] npos len s count = fault
from_node (cur ∷ rest) npos len s count =
    iovecs len s (iovec_loop (drop count (s.before ++ s.after)) count npos (length cur - npos) len)

unfoldable pub get_read_buffers_at : ℕ → ℕ → M (ℕ × List Iovec)
unfolding get_read_size iovec_loop
get_read_buffers_at asked position s =
    let len = at_most (get_read_size s) asked in
    if len == 0
    then ok (0, []) s
    else from_node s.after (position % s.base_size) len s (position / s.base_size)

-- `getWriteBuffers(buffers, len)`: the nodes grow, the position stays
unfoldable pub get_write_buffers : ℕ → M (ℕ × List Iovec)
unfolding add_capacity iovec_loop
get_write_buffers len s =
    let t = add_capacity len s in
    let npos = t.position % t.base_size in
    if len == 0
    then ok (0, []) s
    else iovecs len t (iovec_loop t.after (length t.before) npos (node_size t.after - npos) len)
