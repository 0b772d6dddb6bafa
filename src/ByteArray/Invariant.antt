-- ===== src/ByteArray/Invariant.antt =====
-- What the fields of a `ByteArray` promise one another, and the bytes that the buffer holds.
use cxkframework.Prelude.{ℕ, ◌+◌, ◌*◌, ◌≤◌, ◌<◌, ◌≡◌, List, ◌++◌, length, take, concat, All}
use cxkframework.ByteArray.{ByteArray, Node}

abbrev pub IsFull : ℕ → Node → Type 0
IsFull base n = length n ≡ base

-- `m_cur` is the node that holds `m_position`, and the null pointer at the end of the last node.
pub record IsValid (s : ByteArray) : Type 0 where
  pub positive : 0 < s.base_size
  pub full_before : All (IsFull s.base_size) s.before
  pub full_after : All (IsFull s.base_size) s.after
  pub nodes : s.capacity ≡ s.base_size * (length s.before + length s.after)
  pub rooted : 0 < length s.before + length s.after
  pub cur_from : s.base_size * length s.before ≤ s.position
  pub cur_to : s.position < s.base_size * length s.before + s.base_size
  pub read_from : s.position ≤ s.size
  pub read_to : s.size ≤ s.capacity

-- every byte of the nodes, and the bytes below `m_size`
abbrev pub memory : ByteArray → List ℕ
memory s = concat (s.before ++ s.after)

abbrev pub contents : ByteArray → List ℕ
contents s = take s.size (memory s)
