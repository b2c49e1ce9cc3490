-- ===== src/Timetable/Conflicts/Laws.antt =====
-- The conflicts found are the pairs that share a teacher or a room in some minute of the same day.
use mathlib.Core.Path.{subst₂}
use campus_os.Common.{
  sym, ℕ, ◌<◌, max, ◌≡◌, refl, true, ◌&&◌, Option, none, some, List, [], ◌∷◌, ◌++◌, ltb, ◌==◌,
  if◌then◌else◌, ◌>>=◌, arith, ◌⊎◌, inl, inr, All, ◌↔◌, In, In-append_iff,
}
use campus_os.Timetable.Intervals.{Interval}
use campus_os.Timetable.Intervals.Cover.{within}
use campus_os.Timetable.Slots.{span, HasSpan, overlaps_spans}
use campus_os.Timetable.Conflicts.{
  ConflictEntry, ConflictType, teacher, room, Conflict, shared, conflicts_of, conflicts_with,
  detect_conflicts,
}

-- A conflict that the pair accounts for, on the day, at a minute and over the resource they share.
pub record IsClash (c : Conflict) (a b : ConflictEntry) (i j : Interval) : Type 0 where
  pub same_day : a.day_of_week ≡ b.day_of_week
  pub minute : (t : ℕ) × (within t i ≡ true) × (within t j ≡ true)
  pub resource :
      ((c.type ≡ teacher)
        × (a.teacher_id ≡ some c.resource_id)
        × (b.teacher_id ≡ some c.resource_id))
      ⊎ ((c.type ≡ room) × (a.room_id ≡ some c.resource_id) × (b.room_id ≡ some c.resource_id))
  pub day : c.day_of_week ≡ a.day_of_week
  pub first : c.a ≡ a.id
  pub second : c.b ≡ b.id

abbrev Named : ConflictType → Conflict → ConflictEntry → ConflictEntry → Type 0
Named k c a b = (c.type ≡ k) × (c.day_of_week ≡ a.day_of_week) × (c.a ≡ a.id) × (c.b ≡ b.id)

In-shared :
    (k : ConflictType) (c : Conflict) (a b : ConflictEntry) (x y : Option ℕ)
    → In c (shared k a b x y)
    → Named k c a b × (x ≡ some c.resource_id) × (y ≡ some c.resource_id)
In-shared k c a b none y h = ground arith
In-shared k c a b (some x) none h = ground arith
In-shared k c a b (some x) (some y) h = ground arith

shared-In :
    (k : ConflictType) (c : Conflict) (a b : ConflictEntry) (x y : Option ℕ)
    → Named k c a b
    → x ≡ some c.resource_id
    → y ≡ some c.resource_id
    → In c (shared k a b x y)
shared-In k c a b none y n e f = ground arith
shared-In k c a b (some x) none n e f = ground arith
shared-In k c a b (some x) (some y) n e f = ground arith

within_max :
    (i j : Interval)
    → i.start < i.end
    → j.start < j.end
    → (ltb i.start j.end && ltb j.start i.end) ≡ true
    → (t : ℕ) × (within t i ≡ true) × (within t j ≡ true)
within_max i j p q h = (max i.start j.start, ground arith, ground arith)

minute_overlaps :
    (i j : Interval) (t : ℕ)
    → within t i ≡ true
    → within t j ≡ true
    → (ltb i.start j.end && ltb j.start i.end) ≡ true
minute_overlaps i j t p q = ground arith

module _ (a b : ConflictEntry) (i j : Interval) (p : HasSpan a.slot i) (q : HasSpan b.slot j) where
  -- What the two loops push for the pair, with its times read.
  pair_conflicts : List Conflict
  pair_conflicts =
      if a.day_of_week == b.day_of_week && (ltb i.start j.end && ltb j.start i.end)
      then shared teacher a b a.teacher_id b.teacher_id ++ shared room a b a.room_id b.room_id
      else []

  conflicts_of-pair : conflicts_of a b ≡ some pair_conflicts
  unfolding conflicts_of pair_conflicts
  conflicts_of-pair = ground (arith, overlaps_spans a.slot b.slot p.0 q.0)

  teachers : List Conflict
  teachers = shared teacher a b a.teacher_id b.teacher_id

  rooms : List Conflict
  rooms = shared room a b a.room_id b.room_id

  pair_cases :
      (c : Conflict)
      → In c pair_conflicts
      → ((a.day_of_week == b.day_of_week && (ltb i.start j.end && ltb j.start i.end)) ≡ true)
        × (In c teachers ⊎ In c rooms)
  unfolding pair_conflicts teachers rooms
  pair_cases c h = ground (arith, In-append_iff c teachers rooms)

  IsClash-of :
      (c : Conflict)
      → (a.day_of_week == b.day_of_week && (ltb i.start j.end && ltb j.start i.end)) ≡ true
      → In c teachers ⊎ In c rooms
      → IsClash c a b i j
  unfolding teachers rooms
  IsClash-of c t (inl k) =
      let (n, x, y) = In-shared teacher c a b a.teacher_id b.teacher_id k in
      record {
        same_day = ground arith;
        minute = within_max i j p.1 q.1 (ground arith);
        resource = inl (n.0, x, y);
        day = n.1;
        first = n.2;
        second = n.3;
      }
  IsClash-of c t (inr k) =
      let (n, x, y) = In-shared room c a b a.room_id b.room_id k in
      record {
        same_day = ground arith;
        minute = within_max i j p.1 q.1 (ground arith);
        resource = inr (n.0, x, y);
        day = n.1;
        first = n.2;
        second = n.3;
      }

  pair_sound : (c : Conflict) → In c pair_conflicts → IsClash c a b i j
  pair_sound c h = let (t, k) = pair_cases c h in IsClash-of c t k

  pair_complete : (c : Conflict) → IsClash c a b i j → In c pair_conflicts
  unfolding pair_conflicts
  pair_complete c h =
      let (t, x, y) = h.minute in
      let over = minute_overlaps i j t x y in
      let test : (a.day_of_week == b.day_of_week && (ltb i.start j.end && ltb j.start i.end))
          ≡ true =
        ground arith in
      rw test (
        (In-append_iff c (shared teacher a b a.teacher_id b.teacher_id)
            (shared room a b a.room_id b.room_id)).1
          (elim h.resource [
            | inl (k, r, r') ↦ inl (
                shared-In teacher c a b a.teacher_id b.teacher_id (k, h.day, h.first, h.second) r
                  r')
            | inr (k, r, r') ↦
                inr (shared-In room c a b a.room_id b.room_id (k, h.day, h.first, h.second) r r')
          ]))

-- Every entry of the list has times: minutes of a day, the end behind the start.
abbrev pub Timed : ConflictEntry → Type 0
Timed e = (i : Interval) × HasSpan e.slot i

-- The conflict stands for some pair of the list, the first of the two listed earlier.
abbrev pub ClashWith : Conflict → ConflictEntry → List ConflictEntry → Type 0
ClashWith c a [] = ⊥
ClashWith c a (b ∷ bs) =
    ((i j : Interval) × HasSpan a.slot i × HasSpan b.slot j × IsClash c a b i j) ⊎ ClashWith c a bs

abbrev pub IsClashIn : Conflict → List ConflictEntry → Type 0
IsClashIn c [] = ⊥
IsClashIn c (a ∷ rest) = ClashWith c a rest ⊎ IsClashIn c rest

span_unique : (s : ConflictEntry) (i j : Interval) → HasSpan s.slot i → span s.slot ≡ some j → i ≡ j
span_unique s i j p q = ground arith

abbrev Finds : (Conflict → Type 0) → Option (List Conflict) → Type 0
Finds P r = (cs : List Conflict) × (r ≡ some cs) × ((c : Conflict) → In c cs ↔ P c)

conflicts_of-Finds :
    (a b : ConflictEntry) (i j : Interval) (p : HasSpan a.slot i) (q : HasSpan b.slot j)
    → Finds
        (λ c. (i j : Interval) × HasSpan a.slot i × HasSpan b.slot j × IsClash c a b i j)
        (conflicts_of a b)
conflicts_of-Finds a b i j p q = (
  pair_conflicts a b i j p q,
  conflicts_of-pair a b i j p q,
  λ c. (
    λ h. (i, j, p, q, pair_sound a b i j p q c h),
    λ (i', j', p', q', k). pair_complete a b i j p q c (
        subst₂ (IsClash c a b) (sym (span_unique a i i' p p'.0)) (sym (span_unique b j j' q q'.0))
          k),
  ),
)

-- Two searches in a row find what either finds.
both_searches : Option (List Conflict) → Option (List Conflict) → Option (List Conflict)
both_searches m n = do here ← m; later ← n; some (here ++ later)

both_searches-Finds :
    (P Q : Conflict → Type 0) (m n : Option (List Conflict))
    → Finds P m
    → Finds Q n
    → Finds (λ c. P c ⊎ Q c) (both_searches m n)
unfolding both_searches
both_searches-Finds P Q m n (xs, e, f) (ys, g, h) = (
  xs ++ ys,
  rw (e, g),
  λ c. (
    λ k. elim ((In-append_iff c xs ys).0 k) [ inl x ↦ inl ((f c).0 x) | inr y ↦ inr ((h c).0 y) ],
    λ k. (In-append_iff c xs ys).1 (elim k [ inl x ↦ inl ((f c).1 x) | inr y ↦ inr ((h c).1 y) ]),
  ),
)

conflicts_with-Finds :
    (a : ConflictEntry) (bs : List ConflictEntry)
    → Timed a
    → All Timed bs
    → Finds (λ c. ClashWith c a bs) (conflicts_with a bs)
unfolding conflicts_with both_searches
conflicts_with-Finds a [] t ts = ([], refl, λ c. (λ h. h, λ h. h))
conflicts_with-Finds a (b ∷ bs) t (u, us) =
    both_searches-Finds _ (λ c. ClashWith c a bs) (conflicts_of a b) (conflicts_with a bs)
      (conflicts_of-Finds a b t.0 u.0 t.1 u.1) (conflicts_with-Finds a bs t us)

detect_conflicts-Finds :
    (es : List ConflictEntry) → All Timed es → Finds (λ c. IsClashIn c es) (detect_conflicts es)
unfolding detect_conflicts both_searches
detect_conflicts-Finds [] ts = ([], refl, λ c. (λ h. h, λ h. h))
detect_conflicts-Finds (a ∷ rest) (t, ts) =
    both_searches-Finds (λ c. ClashWith c a rest) (λ c. IsClashIn c rest) (conflicts_with a rest)
      (detect_conflicts rest) (conflicts_with-Finds a rest t ts) (detect_conflicts-Finds rest ts)

-- On entries whose times can be read, conflict detection ends without an exception, and a conflict
-- is in its result exactly when it names an earlier and a later entry of one day that occupy a
-- common minute and share the teacher or the room that it names.
pub detect_conflicts_iff :
    (es : List ConflictEntry)
    → All Timed es
    → (cs : List Conflict) × (detect_conflicts es ≡ some cs)
      × ((c : Conflict) → In c cs ↔ IsClashIn c es)
detect_conflicts_iff es ts = detect_conflicts-Finds es ts
