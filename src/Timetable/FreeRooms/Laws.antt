-- ===== src/Timetable/FreeRooms/Laws.antt =====
-- The free-rooms list agrees with the busy stretches that the room pages show.
use campus_os.Common.{
  ℕ, ◌≡◌, refl, Bool, not, ◌&&◌, none, some, List, [], ◌∷◌, ltb, ◌==◌, if◌then◌else◌, filter,
  includes, traverse, arith, All, Bool-cases, Bool-ext, inl, inr, ◌∙◌, ==_iff, sym,
}
use campus_os.Timetable.Intervals.{Interval, merge_intervals, is_busy}
use campus_os.Timetable.Intervals.Cover.{covers-merge_intervals}
use campus_os.Timetable.Intervals.Gaps.{IsProper, is_busy_iff, merge_intervals-IsProper}
use campus_os.Timetable.Slots.{
  Slot, span, HasSpan, overlaps_spans, busy_intervals, map-clip_to-none,
}
use campus_os.Timetable.FreeRooms.{OccupiedSlot, occupies, busy_rooms, free_rooms}

is_busy-merge_intervals :
    (raw : List Interval) (w : Interval)
    → All IsProper raw
    → IsProper w
    → is_busy (merge_intervals raw) w ≡ is_busy raw w
is_busy-merge_intervals raw w h p =
    let merged = is_busy_iff (merge_intervals raw) w (merge_intervals-IsProper raw) p in
    let given = is_busy_iff raw w h p in
    Bool-ext (is_busy (merge_intervals raw) w) (is_busy raw w)
      (λ e. let (t, x, y) = merged.0 e in given.1 (t, x, sym (covers-merge_intervals t raw) ∙ y))
      (λ e. let (t, x, y) = given.0 e in merged.1 (t, x, covers-merge_intervals t raw ∙ y))

-- The slots of one room, as its page reads them.
abbrev pub slots_of : ℕ → List OccupiedSlot → List Slot
slots_of r [] = []
slots_of r (o ∷ os) = if o.room_id == r then o.slot ∷ slots_of r os else slots_of r os

abbrev pub IsTimed : Slot → Type 0
IsTimed s = (i : Interval) × HasSpan s i

module _ (window : Slot) (w : Interval) (at : HasSpan window w) (r : ℕ) where
  abbrev RoomAgrees : List OccupiedSlot → Type 0
  RoomAgrees os =
      (busy : List ℕ) × (raw : List Interval) × (busy_rooms window os ≡ some busy)
      × (traverse span (filter (λ s. s.day_of_week == window.day_of_week) (slots_of r os))
          ≡ some raw)
      × All IsProper raw
      × (includes busy r ≡ is_busy raw w)

  occupies_lem :
      (o : OccupiedSlot) (i : Interval)
      → HasSpan o.slot i
      → occupies window o
        ≡ some ((o.day_of_week == window.day_of_week) && (ltb i.start w.end && ltb w.start i.end))
  unfolding occupies
  occupies_lem o i t = ground (arith, overlaps_spans o.slot window t.0 at.0)

  abbrev grown : OccupiedSlot → Interval → List Interval → List Interval
  grown o i raw = if o.room_id == r && o.day_of_week == window.day_of_week then i ∷ raw else raw

  abbrev busier : OccupiedSlot → Interval → List ℕ → List ℕ
  busier o i busy =
      if (o.day_of_week == window.day_of_week) && (ltb i.start w.end && ltb w.start i.end)
      then o.room_id ∷ busy
      else busy

  RoomAgrees-cons :
      (o : OccupiedSlot) (os : List OccupiedSlot)
      → IsTimed o.slot
      → RoomAgrees os
      → RoomAgrees (o ∷ os)
  unfolding busy_rooms is_busy
  RoomAgrees-cons o os (i, t) (busy, raw, e, f, p, g) = (
    busier o i busy,
    grown o i raw,
    ground (arith, occupies_lem o i t),
    ground arith,
    ground arith,
    ground arith,
  )

  rooms_agree : (os : List OccupiedSlot) → All (λ o. IsTimed o.slot) os → RoomAgrees os
  unfolding busy_rooms is_busy
  rooms_agree [] ts = ([], [], refl, refl, tt, refl)
  rooms_agree (o ∷ os) (t, ts) = RoomAgrees-cons o os t (rooms_agree os ts)

includes-filter :
    (p : ℕ → Bool) (xs : List ℕ) (r : ℕ) → includes (filter p xs) r ≡ includes xs r && p r
includes-filter p [] r = refl
includes-filter p (x ∷ xs) r = elim (Bool-cases (x == r)) [
  | inl e ↦ rw (← (==_iff x r).0 e) (ground (arith, includes-filter p xs x))
  | inr f ↦ ground (arith, includes-filter p xs r)
]

-- Where the occupied slots and the window have times that can be read, each with its end after its
-- start, the search ends without an exception, and a room is in the result exactly when it is among
-- the candidates and its merged busy stretches of that day, as `busyIntervals` computes them, leave
-- the window free.
pub free_rooms-agrees :
    (rooms : List ℕ) (occupied : List OccupiedSlot) (window : Slot) (w : Interval)
    → All (λ o. IsTimed o.slot) occupied
    → HasSpan window w
    → (r : ℕ)
    → (free : List ℕ) × (busy : List Interval) × (free_rooms rooms occupied window ≡ some free)
      × (busy_intervals (slots_of r occupied) window.day_of_week none ≡ some busy)
      × (includes free r ≡ includes rooms r && not (is_busy busy w))
unfolding free_rooms busy_intervals
free_rooms-agrees rooms occupied window w ts at r =
    let (busy, raw, e, f, p, g) = rooms_agree window w at r occupied ts in
    (
      filter (λ id. not (includes busy id)) rooms,
      merge_intervals raw,
      rw e,
      rw (f, map-clip_to-none raw),
      includes-filter (λ id. not (includes busy id)) rooms r
          ∙ rw (g, is_busy-merge_intervals raw w p at.1),
    )
