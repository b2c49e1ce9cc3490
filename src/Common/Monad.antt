-- ===== src/Common/Monad.antt =====
-- A computation that may throw, as an option: `none` is the exception.
use mathlib.Core.Option.{Option, none, some}
use mathlib.Core.List.{List, [], ◌∷◌}

infixl 5 ◌>>=◌
abbrev pub ◌>>=◌ {ℓ κ} : {A : Type ℓ} {B : Type κ} → Option A → (A → Option B) → Option B
none >>= k = none
some a >>= k = k a

module _ {ℓ κ} {A : Type ℓ} {B : Type κ} where
  -- `map` with a function that may throw: the first exception ends it.
  abbrev pub traverse : (A → Option B) → List A → Option (List B)
  traverse f [] = some []
  traverse f (x ∷ xs) = do y ← f x; ys ← traverse f xs; some (y ∷ ys)
