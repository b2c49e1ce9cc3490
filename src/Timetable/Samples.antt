-- ===== src/Timetable/Samples.antt =====
-- Times, intervals, conflicts and free rooms at concrete inputs.
use campus_os.Common.{
  Text, ℕ, ◌≡◌, refl, not, ◌&&◌, none, some, List, [], ◌∷◌, includes, In, arith, ◌↔◌,
}
use campus_os.Timetable.Time.{split_from, split, to_minutes, normalize_time}
use campus_os.Timetable.Number.{number}
use campus_os.Timetable.Time.Laws.{to_minutes-normalize_time}
use campus_os.Timetable.Intervals.{Interval, is_busy, free_gaps}
use campus_os.Timetable.Intervals.Cover.{covers, within}
use campus_os.Timetable.Intervals.Gaps.{covers-free_gaps}
use campus_os.Timetable.Slots.{Slot, span, HasSpan, busy_intervals}
use campus_os.Timetable.Conflicts.{ConflictEntry, Conflict, detect_conflicts}
use campus_os.Timetable.Conflicts.Laws.{IsClashIn, detect_conflicts_iff}
use campus_os.Timetable.FreeRooms.{OccupiedSlot, free_rooms}
use campus_os.Timetable.FreeRooms.Laws.{slots_of, free_rooms-agrees}

abbrev from_to : ℕ → ℕ → Interval
from_to b e = record { start = b; end = e }

abbrev lectures : List Interval
lectures = from_to 600 660 ∷ from_to 540 610 ∷ from_to 700 700 ∷ []

abbrev merged : List Interval
merged = from_to 540 660 ∷ []

covers-free_gaps_example :
    covers (free_gaps lectures (from_to 500 700)) 520
    ≡ within 520 (from_to 500 700) && not (covers lectures 520)
covers-free_gaps_example = covers-free_gaps lectures (from_to 500 700) 520

abbrev nine : Text
nine = b'9' ∷ b':' ∷ b'5' ∷ []

to_minutes-normalize_time_example : to_minutes (normalize_time nine) ≡ some 545
unfolding to_minutes split split_from number
to_minutes-normalize_time_example = to_minutes-normalize_time nine 545 refl

-- A point alone is no number, though the padded text is one; other ways to write a number are read.
point_refused : number (b'.' ∷ []) ≡ none
unfolding number
point_refused = refl

point_padded : number (b'0' ∷ b'.' ∷ []) ≡ some 0
unfolding number
point_padded = refl

half_of_ten : number (b' ' ∷ b'+' ∷ b'0' ∷ b'.' ∷ b'5' ∷ b'e' ∷ b'1' ∷ []) ≡ some 5
unfolding number
half_of_ten = refl

hexadecimal : number (b'0' ∷ b'x' ∷ b'1' ∷ b'F' ∷ []) ≡ some 31
unfolding number
hexadecimal = refl

abbrev at : Text → Text → Slot
at b e = record { day_of_week = 1; starts_at = b; ends_at = e }

abbrev o_clock : ℕ → Text
o_clock d = d ∷ b':' ∷ b'0' ∷ b'0' ∷ []

abbrev nine_to_ten : Slot
nine_to_ten = at (o_clock b'8') (o_clock b'9')

nine_to_ten_span : HasSpan nine_to_ten (from_to 480 540)
unfolding span to_minutes split split_from number
nine_to_ten_span = (refl, omega arith)

abbrev booked : ℕ → ConflictEntry
booked id = record { id = id; teacher_id = some 3; room_id = some 4; slot = nine_to_ten }

detect_conflicts_iff_example :
    (cs : List Conflict) × (detect_conflicts (booked 1 ∷ booked 2 ∷ []) ≡ some cs)
    × ((c : Conflict) → In c cs ↔ IsClashIn c (booked 1 ∷ booked 2 ∷ []))
detect_conflicts_iff_example =
    detect_conflicts_iff (booked 1 ∷ booked 2 ∷ [])
      ((from_to 480 540, nine_to_ten_span), ((from_to 480 540, nine_to_ten_span), tt))

abbrev taken : List OccupiedSlot
taken = record { room_id = 4; slot = nine_to_ten } ∷ []

free_rooms-agrees_example :
    (free : List ℕ) × (busy : List Interval) × (free_rooms (4 ∷ 5 ∷ []) taken nine_to_ten
      ≡ some free)
    × (busy_intervals (slots_of 4 taken) 1 none ≡ some busy)
    × (includes free 4 ≡ includes (4 ∷ 5 ∷ []) 4 && not (is_busy busy (from_to 480 540)))
free_rooms-agrees_example =
    free_rooms-agrees (4 ∷ 5 ∷ []) taken nine_to_ten (from_to 480 540)
      ((from_to 480 540, nine_to_ten_span), tt) nine_to_ten_span 4
