-- ===== src/Timetable/Hash.antt =====
-- packages/modules/timetable/src/domain/hash.ts and types.ts: the content hash of a slot.
-- SHA-256 is `node:crypto`'s, a parameter; a digest is the number that its hex digits spell.
pub mod Decimal
pub mod Laws
use campus_os.Common.{
  Text, ℕ, zero, suc, ◌+◌, ◌/◌, ◌%◌, Bool, true, false, Option, none, some, List, [], ◌∷◌, ◌++◌,
  ltb, if◌then◌else◌, ◌==◌, ◌&&◌,
}
use campus_os.Timetable.Number.{digit_zero}
use campus_os.Timetable.Time.{normalize_time}

pub data TimetableEntryKind : Type 0 where
  lecture lab tutorial exam : TimetableEntryKind

pub record TimetableEntryInput : Type 0 where
  pub term_id : Text
  pub section_id : Text
  pub course_id : Text
  pub teacher_id : Option Text
  pub room_id : Option Text
  pub day_of_week : ℕ
  pub starts_at : Text
  pub ends_at : Text
  pub kind : TimetableEntryKind
  pub source_ref : Option Text
  pub room_source : Option Text

pub record HashedEntry : Type 0 where
  pub entry : TimetableEntryInput
  pub open entry use *
  pub content_hash : ℕ

-- The unit separator U+241F.
abbrev pub sep : ℕ
sep = 0x241f

abbrev pub kind_text : TimetableEntryKind → Text
kind_text lecture = b'l' ∷ b'e' ∷ b'c' ∷ b't' ∷ b'u' ∷ b'r' ∷ b'e' ∷ []
kind_text lab = b'l' ∷ b'a' ∷ b'b' ∷ []
kind_text tutorial = b't' ∷ b'u' ∷ b't' ∷ b'o' ∷ b'r' ∷ b'i' ∷ b'a' ∷ b'l' ∷ []
kind_text exam = b'e' ∷ b'x' ∷ b'a' ∷ b'm' ∷ []

-- `String(n)`: one round for each digit, on fuel.
pub decimal_from : ℕ → ℕ → Text → Text
decimal_from zero n acc = acc
decimal_from (suc f) n acc =
    let rest = decimal_from f (n / 10) ((digit_zero + n % 10) ∷ acc) in
    if ltb n 10 then (digit_zero + n) ∷ acc else rest

unfoldable pub decimal : ℕ → Text
unfolding decimal_from
decimal n = decimal_from (suc n) n []

abbrev pub or_empty : Option Text → Text
or_empty none = []
or_empty (some t) = t

unfoldable pub content_parts : TimetableEntryInput → List Text
content_parts e =
    e.term_id
    ∷ e.section_id
    ∷ e.course_id
    ∷ or_empty e.teacher_id
    ∷ or_empty e.room_id
    ∷ decimal e.day_of_week
    ∷ normalize_time e.starts_at
    ∷ normalize_time e.ends_at
    ∷ kind_text e.kind
    ∷ []

-- `parts.join(SEP)`.
unfoldable pub join : List Text → Text
join [] = []
join (p ∷ []) = p
join (p ∷ q ∷ ps) = p ++ (sep ∷ join (q ∷ ps))

module _ (sha256 : Text → ℕ) where
  unfoldable pub compute_content_hash : TimetableEntryInput → ℕ
  compute_content_hash entry = sha256 (join (content_parts entry))

  unfoldable pub with_hash : TimetableEntryInput → HashedEntry
  with_hash entry = record { entry = entry; content_hash = compute_content_hash entry }
