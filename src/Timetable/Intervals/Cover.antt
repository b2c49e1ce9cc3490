-- ===== src/Timetable/Intervals/Cover.antt =====
-- Which minutes a list of intervals covers, and that merging covers the same ones.
use campus_os.Common.{
  ℕ, ◌≤◌, ◌<◌, max, ◌≡◌, refl, Bool, false, ◌&&◌, ◌||◌, List, [], ◌∷◌, ltb, leb, any, filter,
  Bool-cases, arith, inl, inr, ◌∙◌,
}
use campus_os.Timetable.Intervals.{
  Interval, insert, sort, merge_from, merge_sorted, is_proper, merge_intervals,
}

abbrev pub within : ℕ → Interval → Bool
within t i = leb i.start t && ltb t i.end

abbrev pub covers : List Interval → ℕ → Bool
covers xs t = any (within t) xs

covers-insert :
    (t : ℕ) (x : Interval) (ys : List Interval) → covers (insert x ys) t ≡ within t x || covers ys t
unfolding insert
covers-insert t x [] = refl
covers-insert t x (y ∷ ys) = ground (arith, covers-insert t x ys)

covers-sort : (t : ℕ) (xs : List Interval) → covers (sort xs) t ≡ covers xs t
unfolding sort
covers-sort t [] = refl
covers-sort t (x ∷ xs) = ground (arith, covers-insert t x (sort xs), covers-sort t xs)

covers-filter : (t : ℕ) (xs : List Interval) → covers (filter is_proper xs) t ≡ covers xs t
covers-filter t [] = refl
covers-filter t (x ∷ xs) = ground (arith, covers-filter t xs)

-- Each interval starts no earlier than the one before it, and is not empty.
abbrev pub StartsFrom : ℕ → List Interval → Type 0
StartsFrom s [] = Unit
StartsFrom s (x ∷ xs) = (s ≤ x.start) × (x.start < x.end) × StartsFrom x.start xs

pub StartsFrom-mono : (r s : ℕ) (xs : List Interval) → r ≤ s → StartsFrom s xs → StartsFrom r xs
StartsFrom-mono r s [] h k = tt
StartsFrom-mono r s (x ∷ xs) h (a, b, c) = (omega arith, b, c)

insert-StartsFrom :
    (s : ℕ) (x : Interval) (ys : List Interval)
    → s ≤ x.start
    → x.start < x.end
    → StartsFrom s ys
    → StartsFrom s (insert x ys)
unfolding insert
insert-StartsFrom s x [] h p k = (h, p, tt)
insert-StartsFrom s x (y ∷ ys) h p (a, b, c) =
    ground (arith, insert-StartsFrom y.start x ys, StartsFrom-mono x.start y.start ys)

pub sort-StartsFrom : (xs : List Interval) → StartsFrom 0 (sort (filter is_proper xs))
unfolding sort
sort-StartsFrom [] = tt
sort-StartsFrom (x ∷ xs) = elim (Bool-cases (is_proper x)) [
  | inl e ↦ rw e (
      insert-StartsFrom 0 x (sort (filter is_proper xs)) (omega arith) (ground arith)
        (sort-StartsFrom xs))
  | inr e ↦ rw e (sort-StartsFrom xs)
]

covers-merge_from :
    (t : ℕ) (last : Interval) (xs : List Interval)
    → last.start < last.end
    → StartsFrom last.start xs
    → covers (merge_from last xs) t ≡ within t last || covers xs t
unfolding merge_from
covers-merge_from t last [] h k = refl
covers-merge_from t last (x ∷ xs) h (a, b, c) = ground (
  arith,
  covers-merge_from t (record last { end = max last.end x.end }) xs,
  covers-merge_from t x xs b c,
  StartsFrom-mono last.start x.start xs a c,
)

covers-merge_sorted :
    (t : ℕ) (xs : List Interval) → StartsFrom 0 xs → covers (merge_sorted xs) t ≡ covers xs t
unfolding merge_sorted
covers-merge_sorted t [] h = refl
covers-merge_sorted t (x ∷ xs) (a, b, c) = covers-merge_from t x xs b c

-- Merging keeps exactly the minutes that the given intervals cover.
pub covers-merge_intervals :
    (t : ℕ) (xs : List Interval) → covers (merge_intervals xs) t ≡ covers xs t
unfolding merge_intervals
covers-merge_intervals t xs =
    covers-merge_sorted t (sort (filter is_proper xs)) (sort-StartsFrom xs)
    ∙ covers-sort t (filter is_proper xs)
    ∙ covers-filter t xs

-- The intervals of a merged list are proper and stand apart: each begins after the one before ends.
abbrev pub ApartFrom : ℕ → List Interval → Type 0
ApartFrom e [] = Unit
ApartFrom e (x ∷ xs) = (e < x.start) × (x.start < x.end) × ApartFrom x.end xs

abbrev pub IsMerged : List Interval → Type 0
IsMerged [] = Unit
IsMerged (x ∷ xs) = (x.start < x.end) × ApartFrom x.end xs

merge_from-shape :
    (last : Interval) (xs : List Interval) (e : ℕ)
    → last.start < last.end
    → StartsFrom last.start xs
    → e < last.start
    → ApartFrom e (merge_from last xs)
unfolding merge_from
merge_from-shape last [] e h k l = (l, h, tt)
merge_from-shape last (x ∷ xs) e h (a, b, c) l = elim (Bool-cases (leb x.start last.end)) [
  | inl t ↦ rw t (
      merge_from-shape (record last { end = max last.end x.end }) xs e (ground arith)
        (StartsFrom-mono last.start x.start xs a c) l)
  | inr f ↦ rw f (l, h, merge_from-shape x xs last.end b c (ground arith))
]

merge_from-IsMerged :
    (last : Interval) (xs : List Interval)
    → last.start < last.end
    → StartsFrom last.start xs
    → IsMerged (merge_from last xs)
unfolding merge_from
merge_from-IsMerged last [] h k = (h, tt)
merge_from-IsMerged last (x ∷ xs) h (a, b, c) = elim (Bool-cases (leb x.start last.end)) [
  | inl t ↦ rw t (
      merge_from-IsMerged (record last { end = max last.end x.end }) xs (ground arith)
        (StartsFrom-mono last.start x.start xs a c))
  | inr f ↦ rw f (h, merge_from-shape x xs last.end b c (ground arith))
]

merge_sorted-IsMerged : (xs : List Interval) → StartsFrom 0 xs → IsMerged (merge_sorted xs)
unfolding merge_sorted
merge_sorted-IsMerged [] h = tt
merge_sorted-IsMerged (x ∷ xs) (a, b, c) = merge_from-IsMerged x xs b c

-- The result is in canonical form.
pub merge_intervals-IsMerged : (xs : List Interval) → IsMerged (merge_intervals xs)
unfolding merge_intervals
merge_intervals-IsMerged xs =
    merge_sorted-IsMerged (sort (filter is_proper xs)) (sort-StartsFrom xs)

-- A merged list is left as it is.
filter-ApartFrom : (e : ℕ) (xs : List Interval) → ApartFrom e xs → filter is_proper xs ≡ xs
filter-ApartFrom e [] h = refl
filter-ApartFrom e (x ∷ xs) (a, b, c) = ground (arith, filter-ApartFrom x.end xs c)

filter-IsMerged : (xs : List Interval) → IsMerged xs → filter is_proper xs ≡ xs
filter-IsMerged [] h = refl
filter-IsMerged (x ∷ xs) (b, c) = ground (arith, filter-ApartFrom x.end xs c)

insert-ApartFrom :
    (x : Interval) (xs : List Interval)
    → x.start < x.end
    → ApartFrom x.end xs
    → insert x xs ≡ x ∷ xs
unfolding insert
insert-ApartFrom x [] p h = refl
insert-ApartFrom x (y ∷ ys) p (a, b, c) = ground arith

sort-ApartFrom : (e : ℕ) (xs : List Interval) → ApartFrom e xs → sort xs ≡ xs
unfolding sort
sort-ApartFrom e [] h = refl
sort-ApartFrom e (x ∷ xs) (a, b, c) = rw (sort-ApartFrom x.end xs c) (insert-ApartFrom x xs b c)

sort-IsMerged : (xs : List Interval) → IsMerged xs → sort xs ≡ xs
unfolding sort
sort-IsMerged [] h = refl
sort-IsMerged (x ∷ xs) (b, c) = rw (sort-ApartFrom x.end xs c) (insert-ApartFrom x xs b c)

merge_from-ApartFrom :
    (x : Interval) (xs : List Interval) → ApartFrom x.end xs → merge_from x xs ≡ x ∷ xs
unfolding merge_from
merge_from-ApartFrom x [] h = refl
merge_from-ApartFrom x (y ∷ ys) (a, b, c) = ground (arith, merge_from-ApartFrom y ys c)

-- Merging changes nothing on a list that is merged already.
pub merge_intervals_of_IsMerged : (xs : List Interval) → IsMerged xs → merge_intervals xs ≡ xs
unfolding merge_intervals merge_sorted sort
merge_intervals_of_IsMerged [] h = refl
merge_intervals_of_IsMerged (x ∷ xs) (b, c) =
    rw (filter-IsMerged (x ∷ xs) (b, c), sort-IsMerged (x ∷ xs) (b, c))
      (merge_from-ApartFrom x xs c)

-- Merging twice is merging once.
pub merge_intervals_idempotent :
    (xs : List Interval) → merge_intervals (merge_intervals xs) ≡ merge_intervals xs
merge_intervals_idempotent xs =
    merge_intervals_of_IsMerged (merge_intervals xs) (merge_intervals-IsMerged xs)

-- What the readers of a merged list need: proper intervals, each from the end of the one before on.
abbrev pub SpacedFrom : ℕ → List Interval → Type 0
SpacedFrom e [] = Unit
SpacedFrom e (x ∷ xs) = (e ≤ x.start) × (x.start < x.end) × SpacedFrom x.end xs

SpacedFrom-of_ApartFrom : (e : ℕ) (xs : List Interval) → ApartFrom e xs → SpacedFrom e xs
SpacedFrom-of_ApartFrom e [] h = tt
SpacedFrom-of_ApartFrom e (x ∷ xs) (a, b, c) = (omega arith, b, SpacedFrom-of_ApartFrom x.end xs c)

SpacedFrom-of_IsMerged : (xs : List Interval) → IsMerged xs → SpacedFrom 0 xs
SpacedFrom-of_IsMerged [] h = tt
SpacedFrom-of_IsMerged (x ∷ xs) (b, c) = (omega arith, b, SpacedFrom-of_ApartFrom x.end xs c)

pub merge_intervals-SpacedFrom : (xs : List Interval) → SpacedFrom 0 (merge_intervals xs)
merge_intervals-SpacedFrom xs =
    SpacedFrom-of_IsMerged (merge_intervals xs) (merge_intervals-IsMerged xs)

pub covers_below : (t e : ℕ) (xs : List Interval) → SpacedFrom e xs → t < e → covers xs t ≡ false
covers_below t e [] h l = refl
covers_below t e (x ∷ xs) (a, b, c) l = ground (arith, covers_below t x.end xs c)
