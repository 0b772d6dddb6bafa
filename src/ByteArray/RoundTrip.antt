-- ===== src/ByteArray/RoundTrip.antt =====
-- What `read` returns of what `write` stored (cxk/bytearray.cpp).
use cxkframework.Prelude.{
  ℕ, ◌+◌, ◌≤◌, ◌<◌, ◌≡◌, ap, ◌∙◌, List, ◌++◌, max, arith, length, take, drop, length-take,
  drop-append, take-append, append-nil,
}
use cxkframework.ByteArray.{ByteArray, ok, ◌>>◌, overwrite, slice, write, read, set_position}
use cxkframework.ByteArray.Invariant.{IsValid, contents}
use cxkframework.ByteArray.Grow.{RoundsUp, length-memory}
use cxkframework.ByteArray.Write.{Wrote, write_lem}
use cxkframework.ByteArray.Steps.{then_ok}
use cxkframework.ByteArray.Seek.{Moved, set_position_lem}
use cxkframework.ByteArray.Read.{InReach, DidRead, read_lem}

pub length-contents : (s : ByteArray) → IsValid s → length (contents s) ≡ s.size
length-contents s v = rw length-take (omega (arith, length-memory s v, v.read_to))

-- The written bytes stand where they were written.
pub slice-overwrite :
    (c bs : List ℕ) (p : ℕ) → p ≤ length c → slice (overwrite c p bs) p (length bs) ≡ bs
unfolding slice overwrite
slice-overwrite c bs p h =
    let len : length (take p c) ≡ p = rw length-take (omega arith) in
    let tail : List ℕ = drop (p + length bs) c in
    ap (λ (t : List ℕ). take (length bs) t)
      (drop-append p 0 (take p c) (bs ++ tail) (omega (arith, len)))
    ∙ take-append (length bs) 0 bs tail (omega arith)
    ∙ append-nil bs

-- `write` and `setPosition` back to where it began: the buffer, ready to be read.
pub record Rewound (bytes : List ℕ) (s u : ByteArray) : Type 0 where
  pub valid : IsValid u
  pub base : u.base_size ≡ s.base_size
  pub position : u.position ≡ s.position
  pub size : u.size ≡ max s.size (s.position + length bytes)
  pub endian : u.endian ≡ s.endian
  pub same_contents : contents u ≡ overwrite (contents s) s.position bytes

pub write_back :
    (bytes : List ℕ) (s : ByteArray)
    → IsValid s
    → RoundsUp (length bytes) s
    → (u : ByteArray) × ((write bytes >> set_position s.position) s ≡ ok tt u) × Rewound bytes s u
write_back bytes s v r = rewind (write_lem bytes s v r)
  where
    rewound : (t u : ByteArray) → Wrote bytes s t → Moved s.position t u → Rewound bytes s u
    rewound t u wr mv =
        let same_size : u.size ≡ t.size = omega (arith, mv.size, wr.size) in
        record {
          valid = mv.valid;
          base = mv.base ∙ wr.base;
          position = mv.position;
          size = same_size ∙ wr.size;
          endian = mv.endian ∙ wr.endian;
          same_contents = rw (same_size, mv.same_memory) wr.same_contents;
        }

    rewind :
        ((t : ByteArray) × (write bytes s ≡ ok tt t) × Wrote bytes s t)
        → (u : ByteArray) × ((write bytes >> set_position s.position) s ≡ ok tt u)
          × Rewound bytes s u
    rewind (t, e, wr) =
        let (u, f, mv) =
          set_position_lem s.position t wr.valid
            (omega (arith, wr.valid.read_from, wr.valid.read_to, wr.position)) in
        (u, then_ok (write bytes) (set_position s.position) e ∙ f, rewound t u wr mv)

pub read_back :
    (bytes : List ℕ) (s u : ByteArray)
    → IsValid s
    → 0 < length bytes
    → InReach (length bytes) s
    → Rewound bytes s u
    → (t : ByteArray) × (read (length bytes) u ≡ ok bytes t) × DidRead (length bytes) u t
read_back bytes s u v pos reach b =
    let (t, f, d) =
      read_lem (length bytes) u b.valid pos (omega (arith, b.position, b.size))
        (rw (b.position, b.base) reach) in
    let found : slice (contents u) u.position (length bytes) ≡ bytes =
      rw (b.same_contents, b.position)
        (slice-overwrite (contents s) bytes s.position
          (omega (arith, length-contents s v, v.read_from))) in
    (t, f ∙ ap (λ (bs : List ℕ). ok bs t) found, d)

-- On a valid buffer, for a non-empty list of bytes for which addCapacity rounds up and which the
-- loop of read reaches, write, setPosition back to the old position and read return exactly the
-- bytes written; the position is then behind them, and the readable bytes are the old ones
-- overwritten there.
pub read-write :
    (bytes : List ℕ) (s : ByteArray)
    → IsValid s
    → 0 < length bytes
    → RoundsUp (length bytes) s
    → InReach (length bytes) s
    → (t : ByteArray) × (((write bytes >> set_position s.position) >> read (length bytes)) s
        ≡ ok bytes t)
      × (t.position ≡ s.position + length bytes)
      × (contents t ≡ overwrite (contents s) s.position bytes)
read-write bytes s v pos r reach = finish (write_back bytes s v r)
  where
    finish :
        ((u : ByteArray) × ((write bytes >> set_position s.position) s ≡ ok tt u)
          × Rewound bytes s u)
        → (t : ByteArray) × (((write bytes >> set_position s.position) >> read (length bytes)) s
            ≡ ok bytes t)
          × (t.position ≡ s.position + length bytes)
          × (contents t ≡ overwrite (contents s) s.position bytes)
    finish (u, e, b) =
        let (t, f, d) = read_back bytes s u v pos reach b in
        (
          t,
          then_ok (write bytes >> set_position s.position) (read (length bytes)) e ∙ f,
          omega (arith, d.position, b.position),
          d.same_contents ∙ b.same_contents,
        )
