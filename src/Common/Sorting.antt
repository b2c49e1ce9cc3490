-- ===== src/Common/Sorting.antt =====
-- A stable insertion sort by a test, for `order by` and the source's `sort`, and the first rows of it.
use Prim.Native.Nat.{ℕ, zero, suc, ◌≤◌}
use mathlib.Core.Path.{◌≡◌, refl, ap, ◌∙◌}
use mathlib.Core.Logic.{inl, inr}
use mathlib.Core.Bool.{Bool, true}
use mathlib.Core.List.{List, [], ◌∷◌, ◌++◌}
use native.Mathlib.Omega.{arith}
use campus_os.Common.Tests.{if◌then◌else◌, Bool-cases}
use campus_os.Common.Lists.{length, any, All}

module _ {ℓ} {A : Type ℓ} where
  abbrev pub take : ℕ → List A → List A
  take zero xs = []
  take (suc n) [] = []
  take (suc n) (x ∷ xs) = x ∷ take n xs

  pub take-nil : (n : ℕ) → take n [] ≡ []
  take-nil zero = refl
  take-nil (suc n) = refl

  pub take-append : (n : ℕ) (xs ys : List A) → n ≤ length xs → take n (xs ++ ys) ≡ take n xs
  take-append zero xs ys h = refl
  take-append (suc n) [] ys h = absurd (omega arith)
  take-append (suc n) (x ∷ xs) ys h = ap (λ t. x ∷ t) (take-append n xs ys (omega arith))

  -- `before x y` when x may stand in front of y.
  abbrev pub insert_by : (A → A → Bool) → A → List A → List A
  insert_by before x [] = x ∷ []
  insert_by before x (y ∷ ys) =
      let rest = insert_by before x ys in if before x y then x ∷ y ∷ ys else y ∷ rest

  abbrev pub sort_by : (A → A → Bool) → List A → List A
  sort_by before [] = []
  sort_by before (x ∷ xs) = insert_by before x (sort_by before xs)

  module _ {κ} (P : A → Type κ) where
    pub All-take : (n : ℕ) (xs : List A) → All P xs → All P (take n xs)
    All-take zero xs h = tt
    All-take (suc n) [] h = tt
    All-take (suc n) (x ∷ xs) (a, h) = (a, All-take n xs h)

    All-insert_by :
        (before : A → A → Bool) (x : A) (xs : List A)
        → P x
        → All P xs
        → All P (insert_by before x xs)
    All-insert_by before x [] a h = (a, tt)
    All-insert_by before x (y ∷ ys) a (b, h) = elim (Bool-cases (before x y)) [
      | inl e ↦ rw e (a, (b, h))
      | inr e ↦ rw e (b, All-insert_by before x ys a h)
    ]

    pub All-sort_by : (before : A → A → Bool) (xs : List A) → All P xs → All P (sort_by before xs)
    All-sort_by before [] h = tt
    All-sort_by before (x ∷ xs) (a, h) =
        All-insert_by before x (sort_by before xs) a (All-sort_by before xs h)

  module _ (before : A → A → Bool) where
    any-insert_by :
        (q : A → Bool) (x : A) (xs : List A) → any q (insert_by before x xs) ≡ any q (x ∷ xs)
    any-insert_by q x [] = refl
    any-insert_by q x (y ∷ ys) = ground (arith, any-insert_by q x ys)

    pub any-sort_by : (q : A → Bool) (xs : List A) → any q (sort_by before xs) ≡ any q xs
    any-sort_by q [] = refl
    any-sort_by q (x ∷ xs) = ground (arith, any-insert_by q x (sort_by before xs), any-sort_by q xs)

    length-insert_by : (x : A) (xs : List A) → length (insert_by before x xs) ≡ suc (length xs)
    length-insert_by x [] = refl
    length-insert_by x (y ∷ ys) = ground (arith, length-insert_by x ys)

    pub length-sort_by : (xs : List A) → length (sort_by before xs) ≡ length xs
    length-sort_by [] = refl
    length-sort_by (x ∷ xs) =
        ground (arith, length-insert_by x (sort_by before xs), length-sort_by xs)

    insert_by-snoc :
        (x a : A) (xs : List A)
        → before x a ≡ true
        → insert_by before x (xs ++ a ∷ []) ≡ insert_by before x xs ++ a ∷ []
    insert_by-snoc x a [] h = rw h
    insert_by-snoc x a (y ∷ ys) h = elim (Bool-cases (before x y)) [
      | inl e ↦ rw e
      | inr e ↦ rw (e, insert_by-snoc x a ys h)
    ]

    -- What comes after everything else stands last.
    pub sort_by-snoc :
        (xs : List A) (a : A)
        → All (λ x. before x a ≡ true) xs
        → sort_by before (xs ++ a ∷ []) ≡ sort_by before xs ++ a ∷ []
    sort_by-snoc [] a h = refl
    sort_by-snoc (x ∷ xs) a (h, r) =
        ap (insert_by before x) (sort_by-snoc xs a r) ∙ insert_by-snoc x a (sort_by before xs) h
