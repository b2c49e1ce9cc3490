-- ===== src/Timetable/Hash/Laws.antt =====
-- The text under the hash determines the slot: equal hashes mean the same slot, if SHA-256 does not
-- collide on the two texts.
use campus_os.Common.{
  Text, ℕ, zero, suc, ◌≡◌, refl, sym, ap, ◌≢◌, ◌↔◌, false, Option, none, some, List, [], ◌∷◌, ◌++◌,
  arith, includes, any-append, Bool-cases, inl, inr, ◌==◌, All, length,
}
use campus_os.Timetable.Time.{colon, split_from, split, part_or, zero_text, pad, normalize_time}
use campus_os.Timetable.Hash.{
  TimetableEntryInput, TimetableEntryKind, lecture, lab, tutorial, exam, sep, kind_text, or_empty,
  content_parts, join, compute_content_hash,
}
use campus_os.Timetable.Hash.Decimal.{decimal-injective, decimal-avoids}

abbrev pub HasNoSep : Text → Type 0
HasNoSep t = includes t sep ≡ false

-- Where two texts are cut at their first separator, the parts agree.
cut :
    (p q r s : Text) → HasNoSep p → HasNoSep q → p ++ (sep ∷ r) ≡ q ++ (sep ∷ s) → (p ≡ q) × (r ≡ s)
cut [] [] r s h k e = ground arith
cut [] (d ∷ q) r s h k e = ground arith
cut (c ∷ p) [] r s h k e = ground arith
cut (c ∷ p) (d ∷ q) r s h k e = ground (arith, cut p q r s)

join_injective :
    (ps qs : List Text)
    → All HasNoSep ps
    → All HasNoSep qs
    → length ps ≡ length qs
    → join ps ≡ join qs
    → ps ≡ qs
unfolding join
join_injective [] [] h k l e = refl
join_injective [] (q ∷ qs) h k l e = absurd (omega arith)
join_injective (p ∷ ps) [] h k l e = absurd (omega arith)
join_injective (p ∷ []) (q ∷ []) h k l e = ap (λ t. t ∷ []) e
join_injective (p ∷ []) (q ∷ q' ∷ qs) h k l e = absurd (omega arith)
join_injective (p ∷ p' ∷ ps) (q ∷ []) h k l e = absurd (omega arith)
join_injective (p ∷ p' ∷ ps) (q ∷ q' ∷ qs) (a, h) (b, k) l e =
    let (x, y) = cut p q (join (p' ∷ ps)) (join (q' ∷ qs)) a b e in
    ground (arith, join_injective (p' ∷ ps) (q' ∷ qs) h k (omega arith) y)

-- Normalising a time brings no separator in.
snoc-HasNoSep : (p : Text) (c : ℕ) → HasNoSep p → (c == sep) ≡ false → HasNoSep (p ++ c ∷ [])
snoc-HasNoSep [] c h f = ground arith
snoc-HasNoSep (d ∷ p) c h f = ground (arith, snoc-HasNoSep p c)

split_from-HasNoSep :
    (part t : Text) → HasNoSep part → HasNoSep t → All HasNoSep (split_from part t)
unfolding split_from
split_from-HasNoSep part [] h k = (h, tt)
split_from-HasNoSep part (c ∷ cs) h k = elim (Bool-cases (c == colon)) [
  | inl e ↦ rw e (h, split_from-HasNoSep [] cs refl (ground arith))
  | inr f ↦ rw f (
      split_from-HasNoSep (part ++ c ∷ []) cs (snoc-HasNoSep part c h (ground arith))
        (ground arith))
]

padded_part-HasNoSep :
    (ps : List Text) (i : ℕ) → All HasNoSep ps → HasNoSep (pad (part_or ps i zero_text))
unfolding pad
padded_part-HasNoSep [] i h = refl
padded_part-HasNoSep (p ∷ ps) (suc i) h = padded_part-HasNoSep ps i h.1
padded_part-HasNoSep ([] ∷ ps) zero h = refl
padded_part-HasNoSep ((c ∷ []) ∷ ps) zero h = ground arith
padded_part-HasNoSep ((c ∷ d ∷ v) ∷ ps) zero h = h.0

normalize_time-HasNoSep : (t : Text) → HasNoSep t → HasNoSep (normalize_time t)
unfolding normalize_time
normalize_time-HasNoSep t h =
    let parts = split t in
    let clean = split_from-HasNoSep [] t refl h in
    ground (
      arith,
      any-append (λ x. x == sep) (pad (part_or parts 0 zero_text))
          (colon ∷ (pad (part_or parts 1 zero_text) ++ (colon ∷ pad (part_or parts 2 zero_text)))),
      any-append (λ x. x == sep) (pad (part_or parts 1 zero_text))
          (colon ∷ pad (part_or parts 2 zero_text)),
      padded_part-HasNoSep parts 0 clean,
      padded_part-HasNoSep parts 1 clean,
      padded_part-HasNoSep parts 2 clean,
    )

kind_text-HasNoSep : (k : TimetableEntryKind) → HasNoSep (kind_text k)
kind_text-HasNoSep lecture = refl
kind_text-HasNoSep lab = refl
kind_text-HasNoSep tutorial = refl
kind_text-HasNoSep exam = refl

kind_text-injective : (k l : TimetableEntryKind) → kind_text k ≡ kind_text l → k ≡ l
kind_text-injective k l e = ground arith

-- Ids and times hold no separator, and an id that is there is not empty.
abbrev pub IsId : Option Text → Type 0
IsId none = Unit
IsId (some t) = HasNoSep t × (t ≢ [])

pub record IsClean (e : TimetableEntryInput) : Type 0 where
  pub term : HasNoSep e.term_id
  pub section : HasNoSep e.section_id
  pub course : HasNoSep e.course_id
  pub teacher : IsId e.teacher_id
  pub room : IsId e.room_id
  pub starts : HasNoSep e.starts_at
  pub ends : HasNoSep e.ends_at

or_empty-HasNoSep : (o : Option Text) → IsId o → HasNoSep (or_empty o)
or_empty-HasNoSep none h = refl
or_empty-HasNoSep (some t) h = h.0

or_empty-injective : (o p : Option Text) → IsId o → IsId p → or_empty o ≡ or_empty p → o ≡ p
or_empty-injective none none h k e = refl
or_empty-injective none (some t) h k e = absurd (k.1 (sym e))
or_empty-injective (some s) none h k e = absurd (h.1 e)
or_empty-injective (some s) (some t) h k e = ap some e

-- The same slot: every hashed field, the times up to their normal form. Provenance is left out.
pub record SameSlot (e f : TimetableEntryInput) : Type 0 where
  pub term : e.term_id ≡ f.term_id
  pub section : e.section_id ≡ f.section_id
  pub course : e.course_id ≡ f.course_id
  pub teacher : e.teacher_id ≡ f.teacher_id
  pub room : e.room_id ≡ f.room_id
  pub day : e.day_of_week ≡ f.day_of_week
  pub starts : normalize_time e.starts_at ≡ normalize_time f.starts_at
  pub ends : normalize_time e.ends_at ≡ normalize_time f.ends_at
  pub kind : e.kind ≡ f.kind

parts-HasNoSep : (e : TimetableEntryInput) → IsClean e → All HasNoSep (content_parts e)
unfolding content_parts
parts-HasNoSep e c = (
  c.term,
  (
    c.section,
    (
      c.course,
      (
        or_empty-HasNoSep e.teacher_id c.teacher,
        (
          or_empty-HasNoSep e.room_id c.room,
          (
            decimal-avoids e.day_of_week sep (omega arith),
            (
              normalize_time-HasNoSep e.starts_at c.starts,
              (normalize_time-HasNoSep e.ends_at c.ends, (kind_text-HasNoSep e.kind, tt)),
            ),
          ),
        ),
      ),
    ),
  ),
)

parts-length : (e f : TimetableEntryInput) → length (content_parts e) ≡ length (content_parts f)
unfolding content_parts
parts-length e f = refl

same_parts :
    (e f : TimetableEntryInput)
    → IsClean e
    → IsClean f
    → content_parts e ≡ content_parts f
    → SameSlot e f
unfolding content_parts
same_parts e f c d p = record {
  term = cc;
  section = cc;
  course = cc;
  teacher = or_empty-injective e.teacher_id f.teacher_id c.teacher d.teacher (cc);
  room = or_empty-injective e.room_id f.room_id c.room d.room (cc);
  day = decimal-injective e.day_of_week f.day_of_week (cc);
  starts = cc;
  ends = cc;
  kind = kind_text-injective e.kind f.kind (cc);
}

parts_of_same : (e f : TimetableEntryInput) → SameSlot e f → content_parts e ≡ content_parts f
unfolding content_parts
parts_of_same e f s =
    cc (s.term, s.section, s.course, s.teacher, s.room, s.day, s.starts, s.ends, s.kind)

-- Two clean entries have one content hash exactly when they are the same slot, provided that
-- SHA-256 does not collide on their two texts.
pub compute_content_hash_iff :
    (sha256 : Text → ℕ) (e f : TimetableEntryInput)
    → (sha256 (join (content_parts e)) ≡ sha256 (join (content_parts f))
        → join (content_parts e) ≡ join (content_parts f))
    → IsClean e
    → IsClean f
    → (compute_content_hash sha256 e ≡ compute_content_hash sha256 f) ↔ SameSlot e f
unfolding compute_content_hash
compute_content_hash_iff sha256 e f no_collision c d = (
  λ h. same_parts e f c d (
      join_injective (content_parts e) (content_parts f) (parts-HasNoSep e c) (parts-HasNoSep f d)
        (parts-length e f) (no_collision h)),
  λ s. ap (λ ps. sha256 (join ps)) (parts_of_same e f s),
)
