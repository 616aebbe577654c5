-- ===== src/Run.antt =====
-- Code that may end the process: the check macros of config.h call `abort`, an assertion fails,
-- and an access outside an array or through a null pointer is undefined behaviour.
use javaprofiler.Base.{◌≡◌, refl}

-- How the process ends.
pub data Fault : Type 0 where
  check_failed : Fault
  assertion_failed : Fault
  out_of_bounds : Fault
  killed_by_signal : Fault

-- What a call does: it ends the process, or it returns.
pub data Run {ℓ} (Result : Type ℓ) : Type ℓ where
  fault : Fault → Run Result
  ok : Result → Run Result

-- The call returns, in a value that satisfies the postcondition.
abbrev pub Returns {ℓ κ} : {Result : Type ℓ} → Run Result → (Result → Type κ) → Type (ℓ ⊔ κ)
Returns {Result} call post = (x : Result) × (call ≡ ok x) × post x

-- Goes on with the result, if the first call returns.
infixl 5 ◌>>=◌
abbrev pub ◌>>=◌ {ℓ κ} :
    {Before : Type ℓ} {After : Type κ} → Run Before → (Before → Run After) → Run After
fault cause >>= next = fault cause
ok x >>= next = next x

-- Two ways to go on from one call.
pub same_chain :
    {A B C D : Type 0} (m : Run A) (f : A → Run B) (g : B → Run D) (h : A → Run C) (k : C → Run D)
    → ((x : A) → (f x >>= g) ≡ (h x >>= k))
    → ((m >>= f) >>= g) ≡ ((m >>= h) >>= k)
same_chain (fault c) f g h k e = refl
same_chain (ok x) f g h k e = e x
