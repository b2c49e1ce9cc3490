-- ===== src/Timetable/Slots.antt =====
-- Slots of the week: `Slot` and `busyIntervals` of
-- packages/modules/timetable/src/domain/intervals.ts, over the texts that `toMinutes` reads.
use campus_os.Common.{
  Text, ℕ, ◌<◌, min, max, ◌≡◌, refl, ◌&&◌, Option, none, some, List, [], ◌∷◌, map, ltb, ◌==◌,
  filter, ◌>>=◌, traverse, arith, ap,
}
use campus_os.Timetable.Time.{to_minutes, overlaps}
use campus_os.Timetable.Intervals.{Interval, merge_intervals}

pub record Slot : Type 0 where
  pub day_of_week : ℕ
  pub starts_at : Text
  pub ends_at : Text

-- The object `{ start: toMinutes(s.startsAt), end: toMinutes(s.endsAt) }`.
unfoldable pub span : Slot → Option Interval
span s = do
  b ← to_minutes s.starts_at
  e ← to_minutes s.ends_at
  some (record { start = b; end = e })

abbrev pub clip_to : Option Interval → Interval → Interval
clip_to none i = i
clip_to (some c) i = record { start = max c.start i.start; end = min c.end i.end }

unfoldable pub busy_intervals : List Slot → ℕ → Option Interval → Option (List Interval)
busy_intervals slots day clip = do
  raw ← traverse span (filter (λ s. s.day_of_week == day) slots)
  some (merge_intervals (map (clip_to clip) raw))

-- The times of a slot are minutes of the day, the end behind the start.
abbrev pub HasSpan : Slot → Interval → Type 0
HasSpan s i = (span s ≡ some i) × (i.start < i.end)

-- Two slots with times: the text comparison is that of the spans.
pub overlaps_spans :
    (a b : Slot) {i j : Interval}
    → span a ≡ some i
    → span b ≡ some j
    → overlaps a.starts_at a.ends_at b.starts_at b.ends_at
      ≡ some (ltb i.start j.end && ltb j.start i.end)
unfolding span overlaps
overlaps_spans a b e f = ground arith

pub map-clip_to-none : (raw : List Interval) → map (clip_to none) raw ≡ raw
map-clip_to-none [] = refl
map-clip_to-none (i ∷ is) = ap (λ r. i ∷ r) (map-clip_to-none is)
