-- ===== src/Timetable/Intervals/Gaps.antt =====
-- The gaps of a window are its minutes that no busy interval covers; when a window is busy.
use campus_os.Common.{
  ℕ, ◌≤◌, ◌<◌, max, ◌≡◌, ◌↔◌, true, false, not, ◌&&◌, ◌||◌, List, [], ◌∷◌, ltb, leb, Bool-cases,
  arith, inl, inr, All, ◌∙◌, ◌≢◌, ap,
}
use campus_os.Timetable.Intervals.{
  Interval, merge_intervals, is_busy, last_gap, gaps_from, free_gaps,
}
use campus_os.Timetable.Intervals.Cover.{
  within, covers, covers-merge_intervals, SpacedFrom, merge_intervals-SpacedFrom, covers_below,
}

covers-last_gap : (t c : ℕ) (w : Interval) → covers (last_gap w c) t ≡ leb c t && ltb t w.end
unfolding last_gap
covers-last_gap t c w = ground arith

module _ (w : Interval) (t : ℕ) where
  gaps_from_step :
      (c : ℕ) (b : Interval) (xs : List Interval)
      → leb b.end w.start ≡ false
      → leb w.end b.start ≡ false
      → covers (gaps_from w c (b ∷ xs)) t
        ≡ within t (record { start = c; end = b.start }) || covers (gaps_from w (max c b.end) xs) t
  unfolding gaps_from
  gaps_from_step c b xs h k = rw (h, k) (ground arith)

  covers-gaps_from :
      (c e : ℕ) (xs : List Interval)
      → w.start ≤ c
      → SpacedFrom e xs
      → covers (gaps_from w c xs) t ≡ (leb c t && ltb t w.end) && not (covers xs t)
  unfolding gaps_from
  covers-gaps_from c e [] h k = ground (arith, covers-last_gap t c w)
  covers-gaps_from c e (b ∷ xs) h (k, p, m) = elim (Bool-cases (leb b.end w.start)) [
    | inl skip ↦ rw skip (ground (arith, covers-gaps_from c b.end xs h m))
    | inr on ↦ elim (Bool-cases (leb w.end b.start)) [
      | inl over ↦ rw (on, over) (ground (arith, covers-last_gap t c w, covers_below t b.end xs m))
      | inr more ↦
          gaps_from_step c b xs on more
          ∙ ground (
            arith,
            covers-gaps_from (max c b.end) b.end xs (omega arith) m,
            covers_below t b.end xs m,
          )
    ]
  ]

-- The free gaps of a window cover exactly the minutes of the window that no busy interval covers,
-- whether or not the busy intervals come merged.
pub covers-free_gaps :
    (busy : List Interval) (w : Interval) (t : ℕ)
    → covers (free_gaps busy w) t ≡ within t w && not (covers busy t)
unfolding free_gaps
covers-free_gaps busy w t = ground (
  arith,
  covers-gaps_from w t w.start 0 (merge_intervals busy) (omega arith)
      (merge_intervals-SpacedFrom busy),
  covers-merge_intervals t busy,
)

-- Every gap is a proper interval inside the window.
abbrev pub IsInside : Interval → Interval → Type 0
IsInside w g = (w.start ≤ g.start) × (g.start < g.end) × (g.end ≤ w.end)

gaps_from-IsInside :
    (w : Interval) (c : ℕ) (xs : List Interval) → w.start ≤ c → All (IsInside w) (gaps_from w c xs)
unfolding gaps_from last_gap
gaps_from-IsInside w c [] h = ground arith
gaps_from-IsInside w c (b ∷ xs) h =
    ground (arith, gaps_from-IsInside w c xs h, gaps_from-IsInside w (max c b.end) xs)

-- Each gap of a window is a non-empty interval that lies inside it.
pub free_gaps-IsInside : (busy : List Interval) (w : Interval) → All (IsInside w) (free_gaps busy w)
unfolding free_gaps
free_gaps-IsInside busy w = gaps_from-IsInside w w.start (merge_intervals busy) (omega arith)

abbrev pub IsProper : Interval → Type 0
IsProper i = i.start < i.end

is_busy_witness :
    (busy : List Interval) (w : Interval)
    → All IsProper busy
    → IsProper w
    → is_busy busy w ≡ true
    → (t : ℕ) × (within t w ≡ true) × (covers busy t ≡ true)
unfolding is_busy
is_busy_witness [] w h p e = cc
is_busy_witness (b ∷ bs) w (q, h) p e = elim (Bool-cases (ltb b.start w.end && ltb w.start b.end)) [
  | inl here ↦ (max b.start w.start, ground arith, ground arith)
  | inr there ↦
      let (t, inside, covered) = is_busy_witness bs w h p (ground arith) in
      (t, inside, ground arith)
]

is_busy_of_minute :
    (busy : List Interval) (w : Interval) (t : ℕ)
    → within t w ≡ true
    → covers busy t ≡ true
    → is_busy busy w ≡ true
unfolding is_busy
is_busy_of_minute [] w t e f = cc
is_busy_of_minute (b ∷ bs) w t e f = ground (arith, is_busy_of_minute bs w t e)

-- For proper intervals a window is busy exactly when some minute of it is covered: abutting does
-- not count.
pub is_busy_iff :
    (busy : List Interval) (w : Interval)
    → All IsProper busy
    → IsProper w
    → (is_busy busy w ≡ true) ↔ ((t : ℕ) × (within t w ≡ true) × (covers busy t ≡ true))
is_busy_iff busy w h p = (is_busy_witness busy w h p, λ m. is_busy_of_minute busy w m.0 m.1 m.2)

not_busy_SpacedFrom :
    (w : Interval) (e : ℕ) (xs : List Interval)
    → IsProper w
    → SpacedFrom e xs
    → is_busy xs w ≡ false
    → gaps_from w w.start xs ≡ w ∷ []
unfolding gaps_from is_busy last_gap
not_busy_SpacedFrom w e [] p h f = ground arith
not_busy_SpacedFrom w e (b ∷ xs) p (k, q, m) f = ground (arith, not_busy_SpacedFrom w b.end xs p m)

All-IsProper_of_SpacedFrom : (e : ℕ) (xs : List Interval) → SpacedFrom e xs → All IsProper xs
All-IsProper_of_SpacedFrom e [] h = tt
All-IsProper_of_SpacedFrom e (x ∷ xs) (a, b, c) = (b, All-IsProper_of_SpacedFrom x.end xs c)

pub merge_intervals-IsProper : (xs : List Interval) → All IsProper (merge_intervals xs)
merge_intervals-IsProper xs =
    All-IsProper_of_SpacedFrom 0 (merge_intervals xs) (merge_intervals-SpacedFrom xs)

-- A busy minute of the window is in no gap, so the window is not among the gaps.
busy_window_no_gap :
    (busy : List Interval) (w : Interval)
    → IsProper w
    → is_busy (merge_intervals busy) w ≡ true
    → free_gaps busy w ≢ w ∷ []
busy_window_no_gap busy w p h e =
    let proper = merge_intervals-IsProper busy in
    let (t, inside, covered) = is_busy_witness (merge_intervals busy) w proper p h in
    ground
      (arith, ap (λ gs. covers gs t) e, covers-free_gaps busy w t, covers-merge_intervals t busy)

-- The predicate and the list of gaps agree: a proper window is free of merged busy time exactly
-- when it is its own only gap.
pub not_is_busy_iff-free_gaps :
    (busy : List Interval) (w : Interval)
    → IsProper w
    → (is_busy (merge_intervals busy) w ≡ false) ↔ (free_gaps busy w ≡ w ∷ [])
unfolding free_gaps
not_is_busy_iff-free_gaps busy w p =
    let spaced = merge_intervals-SpacedFrom busy in
    (
      λ f. not_busy_SpacedFrom w 0 (merge_intervals busy) p spaced f,
      λ e. elim (Bool-cases (is_busy (merge_intervals busy) w)) [
        | inl t ↦ absurd (busy_window_no_gap busy w p t e)
        | inr f ↦ f
      ],
    )
