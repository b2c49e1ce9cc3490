-- ===== src/Timetable/FreeRooms.antt =====
-- packages/modules/timetable/src/domain/free-rooms.ts: the rooms with nothing in a window.
pub mod Laws
use campus_os.Common.{
  ℕ, Bool, true, false, not, ◌&&◌, Option, none, some, List, [], ◌∷◌, map, ◌==◌, if◌then◌else◌,
  filter, includes, ◌>>=◌,
}
use campus_os.Timetable.Time.{overlaps}
use campus_os.Timetable.Slots.{Slot}

pub record OccupiedSlot : Type 0 where
  pub room_id : ℕ
  pub slot : Slot
  pub open slot use *

-- The test of the filter; the times are read only on the day of the window.
pub occupies : Slot → OccupiedSlot → Option Bool
occupies window slot =
    if slot.day_of_week == window.day_of_week
    then overlaps slot.starts_at slot.ends_at window.starts_at window.ends_at
    else some false

pub busy_rooms : Slot → List OccupiedSlot → Option (List ℕ)
busy_rooms window [] = some []
busy_rooms window (slot ∷ slots) = do
  here ← occupies window slot
  later ← busy_rooms window slots
  some (if here then slot.room_id ∷ later else later)

pub free_rooms : List ℕ → List OccupiedSlot → Slot → Option (List ℕ)
free_rooms room_ids occupied window = do
  busy ← busy_rooms window occupied
  some (filter (λ id. not (includes busy id)) room_ids)
