-- ===== src/Common/Table.antt =====
-- Tables as lists of rows: `update … set … where …` and what it leaves alone.
use Prim.Native.Nat.{ℕ, suc, ◌+◌, ◌≤◌}
use mathlib.Core.Path.{◌≡◌, refl, ap, subst, sym}
use mathlib.Core.Logic.{inl, inr}
use mathlib.Core.Bool.{Bool, true, false, ◌||◌}
use mathlib.Core.Option.{some}
use mathlib.Core.List.{List, [], ◌∷◌, ◌++◌, map}
use native.Mathlib.Omega.{arith}
use campus_os.Common.Tests.{if◌then◌else◌, Bool-cases, ◌==◌}
use campus_os.Common.Lists.{length, any, filter, All, find, count, includes, In, Distinct}

module _ {ℓ} {A : Type ℓ} where
  abbrev pub update_where : (A → Bool) → (A → A) → List A → List A
  update_where p f [] = []
  update_where p f (x ∷ xs) = (if p x then f x else x) ∷ update_where p f xs

  pub length-update_where :
      (p : A → Bool) (f : A → A) (xs : List A) → length (update_where p f xs) ≡ length xs
  length-update_where p f [] = refl
  length-update_where p f (x ∷ xs) = ap suc (length-update_where p f xs)

  -- An update that no row meets changes nothing.
  pub update_where_none :
      (p : A → Bool) (f : A → A) (xs : List A) → any p xs ≡ false → update_where p f xs ≡ xs
  update_where_none p f [] h = refl
  update_where_none p f (x ∷ xs) h = ground (arith, update_where_none p f xs)

  -- A key that the update keeps is the same column afterwards.
  pub map-update_where {κ} :
      {K : Type κ} (key : A → K) (p : A → Bool) (f : A → A) (xs : List A)
      → ((x : A) → key (f x) ≡ key x)
      → map key (update_where p f xs) ≡ map key xs
  map-update_where key p f [] h = refl
  map-update_where key p f (x ∷ xs) h = elim (Bool-cases (p x)) [
    | inl e ↦ rw (e, h x, map-update_where key p f xs h)
    | inr e ↦ rw (e, map-update_where key p f xs h)
  ]

  -- A predicate of rows that the update keeps holds of every row afterwards.
  pub All-update_where {κ} :
      (P : A → Type κ) (p : A → Bool) (f : A → A) (xs : List A)
      → ((x : A) → p x ≡ true → P x → P (f x))
      → All P xs
      → All P (update_where p f xs)
  All-update_where P p f [] h a = tt
  All-update_where P p f (x ∷ xs) h (a, r) = elim (Bool-cases (p x)) [
    | inl e ↦ rw e (h x e a, All-update_where P p f xs h r)
    | inr e ↦ rw e (a, All-update_where P p f xs h r)
  ]

  pub All-map {κ μ} :
      (P : A → Type κ) (Q : A → Type μ) (xs : List A) → ((x : A) → P x → Q x) → All P xs → All Q xs
  All-map P Q [] h a = tt
  All-map P Q (x ∷ xs) h (a, r) = (h x a, All-map P Q xs h r)

  -- Two tests that agree on every row select the same rows.
  pub update_where-cong :
      (p q : A → Bool) (f : A → A) (xs : List A)
      → All (λ x. p x ≡ q x) xs
      → update_where p f xs ≡ update_where q f xs
  update_where-cong p q f [] h = refl
  update_where-cong p q f (x ∷ xs) (e, h) = rw (e, update_where-cong p q f xs h)

  pub filter_none : (p : A → Bool) (xs : List A) → any p xs ≡ false → filter p xs ≡ []
  filter_none p [] h = refl
  filter_none p (x ∷ xs) h = ground (arith, filter_none p xs)

abbrev pub one_if : Bool → ℕ
one_if true = 1
one_if false = 0

module _ {A : Type 0} where
  pub find-In : (p : A → Bool) (xs : List A) {a : A} → find p xs ≡ some a → In a xs
  find-In p [] h = cc
  find-In p (x ∷ xs) {a} h = elim (Bool-cases (p x)) [
    | inl e ↦ inl (ground arith)
    | inr e ↦ inr (find-In p xs (ground arith))
  ]

  pub All_In {κ} : (P : A → Type κ) (xs : List A) (a : A) → All P xs → In a xs → P a
  All_In P [] a h m = elim m [ ]
  All_In P (x ∷ xs) a (p, h) (inl e) = subst P (sym e) p
  All_In P (x ∷ xs) a (p, h) (inr m) = All_In P xs a h m

  pub All-tabulate {κ} : (P : A → Type κ) (xs : List A) → ((x : A) → In x xs → P x) → All P xs
  All-tabulate P [] h = tt
  All-tabulate P (x ∷ xs) h = (h x (inl refl), All-tabulate P xs (λ y i. h y (inr i)))

  module _ (key : A → ℕ) where
    pub key_absent :
        (xs : List A) (a : A) (k : ℕ)
        → includes (map key xs) k ≡ false
        → In a xs
        → (key a == k) ≡ false
    key_absent [] a k h m = elim m [ ]
    key_absent (x ∷ xs) a k h (inl e) = rw e (ground arith)
    key_absent (x ∷ xs) a k h (inr m) = key_absent xs a k (ground arith) m

    module _ (p : A → Bool) (f : A → A) (q : A → Bool) (k : ℕ) where
      count-update_absent :
          (xs : List A)
          → ((x : A) → p x ≡ true → (key x == k) ≡ true)
          → includes (map key xs) k ≡ false
          → count q (update_where p f xs) ≡ count q xs
      count-update_absent [] h a = refl
      count-update_absent (x ∷ xs) h a = ground (arith, count-update_absent xs h, h x)

      -- An update of the row with a unique key moves a count by what that row contributes.
      pub count-update_where :
          (xs : List A) (r : A)
          → ((x : A) → p x ≡ true → (key x == k) ≡ true)
          → Distinct (map key xs)
          → In r xs
          → (key r == k) ≡ true
          → count q (update_where p f xs) + one_if (q r)
            ≡ count q xs + one_if (q (if p r then f r else r))
      count-update_where [] r h d i m = elim i [ ]
      count-update_where (x ∷ xs) r h (a, d) (inl e) m =
          rw e (ground (arith, count-update_absent xs h, subst (λ z. (key z == k) ≡ true) e m))
      count-update_where (x ∷ xs) r h (a, d) (inr i) m =
          ground (arith, count-update_where xs r h d i m, key_absent xs r (key x) a i, h x)

    -- Rows of one table with one key are one row, where the keys are distinct.
    pub row_unique :
        (xs : List A) (a b : A)
        → Distinct (map key xs)
        → In a xs
        → In b xs
        → (key a == key b) ≡ true
        → a ≡ b
    row_unique [] a b d i j e = elim i [ ]
    row_unique (x ∷ xs) a b (h, d) (inl u) (inl v) e = cc
    row_unique (x ∷ xs) a b (h, d) (inl u) (inr v) e =
        ground (arith, key_absent xs b (key x) h v, ap key u)
    row_unique (x ∷ xs) a b (h, d) (inr u) (inl v) e =
        ground (arith, key_absent xs a (key x) h u, ap key v)
    row_unique (x ∷ xs) a b (h, d) (inr u) (inr v) e = row_unique xs a b d u v e

  -- A test that an update turns on nowhere counts no more rows afterwards.
  pub count-update_le :
      (q p : A → Bool) (f : A → A) (xs : List A)
      → ((x : A) → p x ≡ true → q (f x) ≡ true → q x ≡ true)
      → count q (update_where p f xs) ≤ count q xs
  count-update_le q p f [] h = omega arith
  count-update_le q p f (x ∷ xs) h = ground (arith, count-update_le q p f xs h, h x)

  -- A test that an update leaves as it was counts the same rows afterwards.
  pub count-update_same :
      (q p : A → Bool) (f : A → A) (xs : List A)
      → ((x : A) → p x ≡ true → q (f x) ≡ q x)
      → count q (update_where p f xs) ≡ count q xs
  count-update_same q p f [] h = refl
  count-update_same q p f (x ∷ xs) h = elim (Bool-cases (p x)) [
    | inl e ↦ rw (e, h x e, count-update_same q p f xs h)
    | inr e ↦ rw (e, count-update_same q p f xs h)
  ]

  -- What an update leaves of the row that a test finds, where the update keeps the test.
  pub find-update_where :
      (q p : A → Bool) (f : A → A) (xs : List A) (a : A)
      → ((x : A) → q (f x) ≡ q x)
      → find q xs ≡ some a
      → find q (update_where p f xs) ≡ some (if p a then f a else a)
  find-update_where q p f [] a h e = cc
  find-update_where q p f (x ∷ xs) a h e = elim (Bool-cases (q x)) [
    | inl t ↦ let same : x ≡ a = ground arith in rw (← same) (ground (arith, h x, t))
    | inr n ↦ ground (arith, h x, n, find-update_where q p f xs a h)
  ]

  pub any-update_same :
      (q p : A → Bool) (f : A → A) (xs : List A)
      → ((x : A) → p x ≡ true → q (f x) ≡ q x)
      → any q (update_where p f xs) ≡ any q xs
  any-update_same q p f [] h = refl
  any-update_same q p f (x ∷ xs) h = elim (Bool-cases (p x)) [
    | inl e ↦ rw (e, h x e, any-update_same q p f xs h)
    | inr e ↦ rw (e, any-update_same q p f xs h)
  ]

  pub any-update_where :
      (q p : A → Bool) (f : A → A) (xs : List A)
      → ((x : A) → q (f x) ≡ q x)
      → any q (update_where p f xs) ≡ any q xs
  any-update_where q p f [] h = refl
  any-update_where q p f (x ∷ xs) h = elim (Bool-cases (p x)) [
    | inl e ↦ rw (e, h x, any-update_where q p f xs h)
    | inr e ↦ rw (e, any-update_where q p f xs h)
  ]

  -- A row that a test finds is still found where the update leaves the test on at it.
  pub any-update_In :
      (q p : A → Bool) (f : A → A) (xs : List A)
      → ((x : A) → In x xs → p x ≡ true → q x ≡ true → q (f x) ≡ true)
      → any q xs ≡ true
      → any q (update_where p f xs) ≡ true
  any-update_In q p f [] h e = e
  any-update_In q p f (x ∷ xs) h e = elim (Bool-cases (q x)) [
    | inl t ↦ elim (Bool-cases (p x)) [
      | inl u ↦ rw (u, h x (inl refl) u t) refl
      | inr u ↦ rw (u, t) refl
    ]
    | inr n ↦ ground (arith, any-update_In q p f xs (λ y i. h y (inr i)), n)
  ]

  pub any_mono :
      (p q : A → Bool) (xs : List A)
      → ((x : A) → p x ≡ true → q x ≡ true)
      → any p xs ≡ true
      → any q xs ≡ true
  any_mono p q [] h e = e
  any_mono p q (x ∷ xs) h e = ground (arith, any_mono p q xs h, h x)

  -- A predicate of the rows after an update, from what each row was before.
  pub All-update_where-In {κ} :
      (P : A → Type κ) (p : A → Bool) (f : A → A) (xs : List A)
      → ((x : A) → In x xs → p x ≡ true → P (f x))
      → ((x : A) → In x xs → p x ≡ false → P x)
      → All P (update_where p f xs)
  All-update_where-In P p f [] h k = tt
  All-update_where-In P p f (x ∷ xs) h k = (
    elim (Bool-cases (p x)) [ inl e ↦ rw e (h x (inl refl) e) | inr e ↦ rw e (k x (inl refl) e) ],
    All-update_where-In P p f xs (λ y i. h y (inr i)) (λ y i. k y (inr i)),
  )

  pub All-map_In {κ μ} :
      (P : A → Type κ) (Q : A → Type μ) (xs : List A)
      → ((x : A) → In x xs → P x → Q x)
      → All P xs
      → All Q xs
  All-map_In P Q [] h a = tt
  All-map_In P Q (x ∷ xs) h (a, r) = (h x (inl refl) a, All-map_In P Q xs (λ y i. h y (inr i)) r)

  -- A new row with a key that no row has.
  pub Distinct-snoc :
      (key : A → ℕ) (xs : List A) (a : A)
      → Distinct (map key xs)
      → includes (map key xs) (key a) ≡ false
      → Distinct (map key (xs ++ a ∷ []))
  Distinct-snoc key [] a d h = (refl, tt)
  Distinct-snoc key (x ∷ xs) a (k, d) h =
      (ground (arith, absent_snoc xs), Distinct-snoc key xs a d (ground arith))
    where
      absent_snoc :
          (ys : List A)
          → includes (map key (ys ++ a ∷ [])) (key x)
            ≡ (includes (map key ys) (key x) || (key a == key x))
      absent_snoc [] = ground arith
      absent_snoc (y ∷ ys) = ground (arith, absent_snoc ys)

pub any-In :
    {A : Type 0} → (p : A → Bool) (xs : List A) (a : A) → In a xs → p a ≡ true → any p xs ≡ true
any-In p [] a m h = elim m [ ]
any-In p (x ∷ xs) a (inl e) h = rw (← e, h) refl
any-In p (x ∷ xs) a (inr m) h = ground (arith, any-In p xs a m h)
