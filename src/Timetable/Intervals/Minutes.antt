-- ===== src/Timetable/Intervals/Minutes.antt =====
-- `totalMinutes` counts each covered minute once.
use campus_os.Common.{
  ℕ, zero, suc, ◌+◌, ◌-◌, ◌≤◌, min, max, ◌≡◌, refl, Bool, false, ◌&&◌, ◌||◌, List, [], ◌∷◌,
  if◌then◌else◌, filter, Bool-cases, arith, inl, inr, All, ◌∙◌,
}
use campus_os.Timetable.Intervals.{
  Interval, merge_intervals, sum_lengths, total_minutes, insert, sort, merge_from, merge_sorted,
  is_proper,
}
use campus_os.Timetable.Intervals.Cover.{
  within, covers, covers-merge_intervals, SpacedFrom, merge_intervals-SpacedFrom, covers_below,
}

-- How many of the minutes 0, …, n - 1 pass a test.
pub count_minutes : ℕ → (ℕ → Bool) → ℕ
count_minutes zero p = 0
count_minutes (suc n) p = (if p n then 1 else 0) + count_minutes n p

count_minutes-cong :
    (n : ℕ) (p q : ℕ → Bool) → ((t : ℕ) → p t ≡ q t) → count_minutes n p ≡ count_minutes n q
unfolding count_minutes
count_minutes-cong zero p q h = refl
count_minutes-cong (suc n) p q h = ground (arith, count_minutes-cong n p q h, h n)

count_minutes_none : (n : ℕ) → count_minutes n (λ t. false) ≡ 0
unfolding count_minutes
count_minutes_none zero = refl
count_minutes_none (suc n) = omega (arith, count_minutes_none n)

count_minutes_or :
    (n : ℕ) (p q : ℕ → Bool)
    → ((t : ℕ) → (p t && q t) ≡ false)
    → count_minutes n (λ t. p t || q t) ≡ count_minutes n p + count_minutes n q
unfolding count_minutes
count_minutes_or zero p q h = omega arith
count_minutes_or (suc n) p q h = ground (arith, count_minutes_or n p q h, h n)

count_minutes-within :
    (n : ℕ) (x : Interval) → count_minutes n (λ t. within t x) ≡ min n x.end - x.start
unfolding count_minutes
count_minutes-within zero x = omega arith
count_minutes-within (suc n) x = ground (arith, count_minutes-within n x)

abbrev pub EndsBy : ℕ → List Interval → Type 0
EndsBy n xs = All (λ i. i.end ≤ n) xs

apart :
    (x : Interval) (xs : List Interval) (t : ℕ)
    → SpacedFrom x.end xs
    → (within t x && covers xs t) ≡ false
apart x xs t h = ground (arith, covers_below t x.end xs h)

sum_lengths-SpacedFrom :
    (n e : ℕ) (xs : List Interval)
    → SpacedFrom e xs
    → EndsBy n xs
    → sum_lengths xs ≡ count_minutes n (covers xs)
sum_lengths-SpacedFrom n e [] h k = omega (arith, count_minutes_none n)
sum_lengths-SpacedFrom n e (x ∷ xs) (a, b, c) (d, k) = omega (
  arith,
  sum_lengths-SpacedFrom n x.end xs c k,
  count_minutes_or n (λ t. within t x) (covers xs) (λ t. apart x xs t c),
  count_minutes-within n x,
)

-- Where a merged list reaches is where the given one does.
insert-EndsBy :
    (n : ℕ) (x : Interval) (ys : List Interval) → x.end ≤ n → EndsBy n ys → EndsBy n (insert x ys)
unfolding insert
insert-EndsBy n x [] h k = (h, tt)
insert-EndsBy n x (y ∷ ys) h (a, k) = ground (arith, insert-EndsBy n x ys h k)

sort-EndsBy : (n : ℕ) (xs : List Interval) → EndsBy n xs → EndsBy n (sort (filter is_proper xs))
unfolding sort
sort-EndsBy n [] k = tt
sort-EndsBy n (x ∷ xs) (a, k) = elim (Bool-cases (is_proper x)) [
  | inl e ↦ rw e (insert-EndsBy n x (sort (filter is_proper xs)) a (sort-EndsBy n xs k))
  | inr e ↦ rw e (sort-EndsBy n xs k)
]

merge_from-EndsBy :
    (n : ℕ) (x : Interval) (xs : List Interval)
    → x.end ≤ n
    → EndsBy n xs
    → EndsBy n (merge_from x xs)
unfolding merge_from
merge_from-EndsBy n x [] h k = (h, tt)
merge_from-EndsBy n x (y ∷ ys) h (a, k) = ground (
  arith,
  merge_from-EndsBy n (record x { end = max x.end y.end }) ys,
  merge_from-EndsBy n y ys a k,
)

merge_sorted-EndsBy : (n : ℕ) (xs : List Interval) → EndsBy n xs → EndsBy n (merge_sorted xs)
unfolding merge_sorted
merge_sorted-EndsBy n [] k = tt
merge_sorted-EndsBy n (x ∷ xs) (a, k) = merge_from-EndsBy n x xs a k

merge_intervals-EndsBy : (n : ℕ) (xs : List Interval) → EndsBy n xs → EndsBy n (merge_intervals xs)
unfolding merge_intervals
merge_intervals-EndsBy n xs k =
    merge_sorted-EndsBy n (sort (filter is_proper xs)) (sort-EndsBy n xs k)

-- For intervals that end by minute n the total is the number of minutes below n that some interval
-- covers: an overlap counts once.
pub total_minutes-count :
    (n : ℕ) (xs : List Interval) → EndsBy n xs → total_minutes xs ≡ count_minutes n (covers xs)
unfolding total_minutes
total_minutes-count n xs k =
    sum_lengths-SpacedFrom n 0 (merge_intervals xs) (merge_intervals-SpacedFrom xs)
      (merge_intervals-EndsBy n xs k)
    ∙ count_minutes-cong n (covers (merge_intervals xs)) (covers xs)
        (λ t. covers-merge_intervals t xs)
