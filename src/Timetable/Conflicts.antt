-- ===== src/Timetable/Conflicts.antt =====
-- packages/modules/timetable/src/domain/conflicts.ts: double bookings among current entries.
pub mod Laws
use campus_os.Common.{
  Text, ℕ, Bool, true, false, Option, none, some, List, [], ◌∷◌, ◌++◌, ◌==◌, if◌then◌else◌, ◌>>=◌,
}
use campus_os.Timetable.Time.{overlaps}
use campus_os.Timetable.Slots.{Slot}

pub record ConflictEntry : Type 0 where
  pub id : ℕ
  pub teacher_id : Option ℕ
  pub room_id : Option ℕ
  pub slot : Slot
  pub open slot use *

pub data ConflictType : Type 0 where
  teacher room : ConflictType

pub record Conflict : Type 0 where
  pub type : ConflictType
  pub resource_id : ℕ
  pub day_of_week : ℕ
  pub a : ℕ
  pub b : ℕ

-- `x && y && x === y`, and the conflict that it pushes.
abbrev pub shared :
    ConflictType → ConflictEntry → ConflictEntry → Option ℕ → Option ℕ → List Conflict
shared k a b none y = []
shared k a b (some x) none = []
shared k a b (some x) (some y) =
    if x == y
    then record { type = k; resource_id = x; day_of_week = a.day_of_week; a = a.id; b = b.id } ∷ []
    else []

-- What the body of the two loops pushes for two entries of one day.
abbrev pub same_day_conflicts : ConflictEntry → ConflictEntry → Option (List Conflict)
same_day_conflicts a b = do
  clash ← overlaps a.starts_at a.ends_at b.starts_at b.ends_at
  some (
      if clash
      then shared teacher a b a.teacher_id b.teacher_id ++ shared room a b a.room_id b.room_id
      else [])

pub conflicts_of : ConflictEntry → ConflictEntry → Option (List Conflict)
conflicts_of a b = if a.day_of_week == b.day_of_week then same_day_conflicts a b else some []

pub conflicts_with : ConflictEntry → List ConflictEntry → Option (List Conflict)
conflicts_with a [] = some []
conflicts_with a (b ∷ bs) = do
  here ← conflicts_of a b
  later ← conflicts_with a bs
  some (here ++ later)

pub detect_conflicts : List ConflictEntry → Option (List Conflict)
detect_conflicts [] = some []
detect_conflicts (a ∷ rest) = do
  here ← conflicts_with a rest
  later ← detect_conflicts rest
  some (here ++ later)
