-- ===== src/Timetable/Intervals.antt =====
-- packages/modules/timetable/src/domain/intervals.ts: half-open intervals of minutes.
-- Minutes are natural numbers; `sort` is the language's stable sort, as an insertion sort.
pub mod Cover
pub mod Gaps
pub mod Minutes
use campus_os.Common.{
  ℕ, ◌+◌, ◌-◌, ◌*◌, ◌≤◌, ◌<◌, min, max, ◌≡◌, refl, Bool, true, false, not, ◌&&◌, ◌||◌, Option, none,
  some, List, [], ◌∷◌, ◌++◌, map, ltb, leb, ◌==◌, if◌then◌else◌, any, all, filter,
}

pub record Interval : Type 0 where
  pub start : ℕ
  pub end : ℕ

-- The comparator `a.start - b.start || a.end - b.end`, as "a may stand before b".
abbrev pub before : Interval → Interval → Bool
before a b = if a.start == b.start then leb a.end b.end else ltb a.start b.start

pub insert : Interval → List Interval → List Interval
insert x [] = x ∷ []
insert x (y ∷ ys) = if before x y then x ∷ y ∷ ys else y ∷ insert x ys

pub sort : List Interval → List Interval
sort [] = []
sort (x ∷ xs) = insert x (sort xs)

-- The loop of `mergeIntervals` from its first element on: `last` is the last interval of `out`.
pub merge_from : Interval → List Interval → List Interval
merge_from last [] = last ∷ []
merge_from last (it ∷ rest) =
    let grown = merge_from (record last { end = max last.end it.end }) rest in
    let fresh = last ∷ merge_from it rest in if leb it.start last.end then grown else fresh

pub merge_sorted : List Interval → List Interval
merge_sorted [] = []
merge_sorted (x ∷ xs) = merge_from x xs

abbrev pub is_proper : Interval → Bool
is_proper i = ltb i.start i.end

pub merge_intervals : List Interval → List Interval
merge_intervals xs = merge_sorted (sort (filter is_proper xs))

unfoldable pub is_busy : List Interval → Interval → Bool
is_busy busy window = any (λ b. ltb b.start window.end && ltb window.start b.end) busy

-- The loop of `freeGaps`, and what follows it once the loop ends or breaks.
pub last_gap : Interval → ℕ → List Interval
last_gap window cursor =
    if ltb cursor window.end then record { start = cursor; end = window.end } ∷ [] else []

pub gaps_from : Interval → ℕ → List Interval → List Interval
gaps_from window cursor [] = last_gap window cursor
gaps_from window cursor (b ∷ rest) =
    let skipped = gaps_from window cursor rest in
    let later = gaps_from window (max cursor b.end) rest in
    if leb b.end window.start
    then skipped
    else (if leb window.end b.start
        then last_gap window cursor
        else (if ltb cursor b.start
            then record { start = cursor; end = b.start } ∷ later
            else later))

pub free_gaps : List Interval → Interval → List Interval
free_gaps busy window = gaps_from window window.start (merge_intervals busy)

abbrev pub sum_lengths : List Interval → ℕ
sum_lengths [] = 0
sum_lengths (i ∷ is) = (i.end - i.start) + sum_lengths is

pub total_minutes : List Interval → ℕ
total_minutes xs = sum_lengths (merge_intervals xs)
