-- ===== src/Hash/Quick.antt =====
-- The quick hash of memory of cxk/util/hash_util.cpp.
use cxkframework.Prelude.{ℕ, zero, suc, ◌+◌, ◌*◌, ◌%◌, ◌^◌, ◌≡◌, refl, ◌∷◌, List}
use cxkframework.Hash.{quick_memory, char_value}

-- The hash of memory depends on its first byte and its size only.
pub quick_memory_first :
    (size h c : ℕ) (cs ds : List ℕ) → quick_memory h (c ∷ cs) size ≡ quick_memory h (c ∷ ds) size
unfolding quick_memory
quick_memory_first zero h c cs ds = refl
quick_memory_first (suc size) h c cs ds =
    quick_memory_first size ((31 * h + char_value c) % 2 ^ 32) c cs ds
