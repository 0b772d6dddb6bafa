-- ===== src/Stream/Tests.antt =====
-- The loops of cxk/stream.cpp on concrete streams.
use cxkframework.Prelude.{
  ℕ, zero, suc, ◌≡◌, ◌+◌, ◌-◌, refl, none, some, ltb, if◌then◌else◌, arith, List, [], ◌∷◌,
}
use cxkframework.Stream.{Written, wrote, refused, write_fix_size, write_loop}
use cxkframework.Stream.Refused.{write_loop-refused}

-- A stream that moves two bytes, fails once, and is then closed.
flaky : List ℕ → ℕ → Written × ℕ
flaky bs zero = (wrote 2, 1)
flaky bs (suc zero) = (refused 1, 2)
flaky bs (suc (suc n)) = (wrote 0, 3)

flaky_run : write_fix_size flaky 9 (5 ∷ 6 ∷ 7 ∷ []) 0 ≡ some (0, 3)
unfolding flaky write_fix_size write_loop
flaky_run = refl

-- The third byte fails, and the second is sent again.
write_loop-refused_example :
    write_loop flaky 5 (5 ∷ 6 ∷ 7 ∷ []) 2 1 1
    ≡ (if ltb 2 1 then none else write_loop flaky 4 (5 ∷ 6 ∷ 7 ∷ []) (2 - 1) (1 + 1) 2)
unfolding flaky
write_loop-refused_example =
    write_loop-refused flaky 3 (5 ∷ 6 ∷ 7 ∷ []) 2 1 1 1 2 refl (omega arith) (omega arith)
      (omega arith) (omega arith) refl
