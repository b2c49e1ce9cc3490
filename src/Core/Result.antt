-- ===== src/Core/Result.antt =====
-- packages/core/src/result.ts: typed results for expected failures.
-- A chain of early returns `return err(…)` is a `do` block.
use campus_os.Common.{◌≡◌, refl, ◌⊎◌, inl, inr, Bool, true, false, not, Option, none, some}

pub data Result (A : Type 0) (E : Type 0) : Type 0 where
  ok : A → Result A E
  err : E → Result A E

abbrev pub is_ok : {A E : Type 0} → Result A E → Bool
is_ok (ok a) = true
is_ok (err e) = false

abbrev pub is_err : {A E : Type 0} → Result A E → Bool
is_err r = not (is_ok r)

-- `none` is the exception of `unwrap`.
abbrev pub unwrap : {A E : Type 0} → Result A E → Option A
unwrap (ok a) = some a
unwrap (err e) = none

infixl 5 ◌>>=◌ ◌>>◌
abbrev pub ◌>>=◌ : {A B E : Type 0} → Result A E → (A → Result B E) → Result B E
ok a >>= k = k a
err e >>= k = err e

abbrev pub ◌>>◌ : {B E : Type 0} → Result (Unit {0}) E → Result B E → Result B E
m >> k = m >>= λ _. k

-- `if (!test) return err(e)`.
abbrev pub require : {E : Type 0} → Bool → E → Result (Unit {0}) E
require true e = ok tt
require false e = err e

-- `if (!row) return err(e)`.
abbrev pub found : {A E : Type 0} → Option A → E → Result A E
found none e = err e
found (some a) e = ok a

pub Result-cases :
    {A E : Type 0} (r : Result A E) → ((e : E) × (r ≡ err e)) ⊎ ((a : A) × (r ≡ ok a))
Result-cases (ok a) = inr (a, refl)
Result-cases (err e) = inl (e, refl)
