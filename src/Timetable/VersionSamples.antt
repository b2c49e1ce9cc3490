-- ===== src/Timetable/VersionSamples.antt =====
-- Content hashes, plans and versioned writes at concrete inputs.
use campus_os.Common.{
  Text, ◌≡◌, refl, none, some, List, [], ◌∷◌, ◌++◌, map, if◌then◌else◌, not, ◌&&◌, In, Distinct,
  length, ℕ, includes, All, ◌↔◌,
}
use campus_os.Timetable.Hash.Decimal.{digits_value}
use campus_os.Timetable.Hash.{
  TimetableEntryKind, TimetableEntryInput, content_parts, join, compute_content_hash, with_hash,
}
use campus_os.Timetable.Hash.Laws.{IsClean, SameSlot, compute_content_hash_iff}
use campus_os.Timetable.Diff.{CurrentEntryRef}
use campus_os.Timetable.Repository.{EntryRow, apply_diff}
use campus_os.Timetable.Repository.Laws.{row_ids, InTerm, snapshot, disappeared, current_hashes}
use campus_os.Timetable.Repository.Rows.{ids_from, row_hashes, apply_diff_splits}
use campus_os.Timetable.Repository.Repeat.{after, current_hashes-apply_diff, apply_diff_idempotent}

abbrev o_clock : ℕ → Text
o_clock d = d ∷ b':' ∷ b'0' ∷ b'0' ∷ []

abbrev entry_of : Text → TimetableEntryInput
entry_of course = record {
  term_id = b't' ∷ [];
  section_id = b's' ∷ [];
  course_id = course;
  teacher_id = none;
  room_id = some (b'r' ∷ []);
  day_of_week = 1;
  starts_at = o_clock b'8';
  ends_at = o_clock b'9';
  kind = TimetableEntryKind.lecture;
  source_ref = none;
  room_source = none;
}

abbrev algebra : TimetableEntryInput
algebra = entry_of (b'a' ∷ [])

abbrev relisted : TimetableEntryInput
relisted = record algebra { source_ref = some (b'x' ∷ []) }

abbrev digest : Text → ℕ
digest text = digits_value 0 text

algebra-IsClean : IsClean algebra
algebra-IsClean = record {
  term = refl;
  section = refl;
  course = refl;
  teacher = tt;
  room = (refl, λ h. cc);
  starts = refl;
  ends = refl;
}

relisted-IsClean : IsClean relisted
relisted-IsClean = record {
  term = refl;
  section = refl;
  course = refl;
  teacher = tt;
  room = (refl, λ h. cc);
  starts = refl;
  ends = refl;
}

same_texts : join (content_parts algebra) ≡ join (content_parts relisted)
unfolding content_parts
same_texts = refl

compute_content_hash_iff_example :
    (compute_content_hash digest algebra ≡ compute_content_hash digest relisted)
    ↔ SameSlot algebra relisted
compute_content_hash_iff_example =
    compute_content_hash_iff digest algebra relisted (λ h. same_texts) algebra-IsClean
      relisted-IsClean

abbrev current : List CurrentEntryRef
current = record { id = 1; content_hash = 77 } ∷ []

abbrev a_row : EntryRow
a_row = record {
  id = 1;
  tenant_id = 5;
  hashed = record { entry = entry_of (b'b' ∷ []); content_hash = 77 };
  valid_to = none;
}

abbrev term : Text
term = b't' ∷ []

apply_diff_splits_example :
    (added : List EntryRow) × ((apply_diff digest 5 100 2 (a_row ∷ []) term (algebra ∷ [])).0
      ≡ map
          (λ r.
            if disappeared digest 5 term (algebra ∷ []) r
            then record r { valid_to = some 100 }
            else r)
          (a_row ∷ [])
        ++ added)
    × All
        (λ r.
          (r.tenant_id ≡ 5)
          × (r.valid_to ≡ none)
          × In r.hashed (map (with_hash digest) (algebra ∷ [])))
        added
    × (row_ids added ≡ ids_from 2 (length added))
    × Distinct (row_hashes added)
    × ((h : ℕ)
        → includes (row_hashes added) h ≡ (
            includes (snapshot digest 5 term (algebra ∷ [])) h
            && not (includes (current_hashes 5 term (a_row ∷ [])) h)))
apply_diff_splits_example =
    apply_diff_splits digest 5 term (algebra ∷ []) (a_row ∷ []) 100 2 (refl, tt)

in_term : All (InTerm term) (map (with_hash digest) (algebra ∷ []))
unfolding with_hash
in_term = (refl, tt)

current_hashes-apply_diff_example :
    includes
      (current_hashes 5 term (after digest 5 term (algebra ∷ []) (a_row ∷ []) 100 2 (refl, tt)))
      5
    ≡ includes (snapshot digest 5 term (algebra ∷ [])) 5
current_hashes-apply_diff_example =
    current_hashes-apply_diff digest 5 term (algebra ∷ []) (a_row ∷ []) 100 2 (refl, tt) in_term 5

abbrev later_rows : List EntryRow
later_rows = after digest 5 term (algebra ∷ []) (a_row ∷ []) 100 2 (refl, tt)

apply_diff_idempotent_example :
    ((apply_diff digest 5 200 9 later_rows term (algebra ∷ [])).0 ≡ later_rows)
    × ((apply_diff digest 5 200 9 later_rows term (algebra ∷ [])).1.inserted ≡ 0)
    × ((apply_diff digest 5 200 9 later_rows term (algebra ∷ [])).1.closed ≡ 0)
apply_diff_idempotent_example =
    apply_diff_idempotent digest 5 term (algebra ∷ []) (a_row ∷ []) 100 2 (refl, tt) 200 9 in_term
