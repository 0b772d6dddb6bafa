-- ===== src/ByteArray/Steps.antt =====
-- One step of a chain of calls on a `ByteArray`.
use cxkframework.Prelude.{◌≡◌}
use cxkframework.ByteArray.{ByteArray, ok, M, ◌>>=◌, ◌>>◌}

pub bind_ok :
    {A B : Type 0} (m : M A) (f : A → M B) {s t : ByteArray} {a : A}
    → m s ≡ ok a t
    → (m >>= f) s ≡ f a t
bind_ok m f h = rw (h, ◌>>=◌)

pub then_ok :
    {B : Type 0} (m : M (Unit {0})) (k : M B) {s t : ByteArray} → m s ≡ ok tt t → (m >> k) s ≡ k t
then_ok m k h = bind_ok m (λ _. k) h
