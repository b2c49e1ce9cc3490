-- ===== src/Timetable/Repository.antt =====
-- packages/modules/timetable/src/repositories/timetable.ts: versioned writes of the entries.
-- The table is the list of its rows; row-level security lets a transaction see and change the
-- rows of its own tenant only. Fresh ids count up from a number, `now` is an argument.
pub mod Laws
pub mod Repeat
pub mod Rows
use campus_os.Common.{
  Text, same_text, ℕ, suc, ◌+◌, Bool, true, false, not, ◌&&◌, ◌||◌, Option, none, some, List, [],
  ◌∷◌, ◌++◌, map, ◌==◌, if◌then◌else◌, filter, includes, length, update_where,
}
use campus_os.Timetable.Hash.{TimetableEntryInput, HashedEntry}
use campus_os.Timetable.Diff.{CurrentEntryRef, DiffPlan, plan_timetable_diff}

pub record EntryRow : Type 0 where
  pub id : ℕ
  pub tenant_id : ℕ
  pub hashed : HashedEntry
  pub open hashed use *
  pub valid_to : Option ℕ

abbrev pub is_current : EntryRow → Bool
is_current r = elim r.valid_to [ none ↦ true | some t ↦ false ]

pub record ApplyDiffStats : Type 0 where
  pub inserted : ℕ
  pub closed : ℕ
  pub unchanged : ℕ

-- `where termId = … and validTo is null`, on the rows that the tenant sees.
abbrev pub in_scope : ℕ → Text → EntryRow → Bool
in_scope tenant term r = (r.tenant_id == tenant) && (same_text r.term_id term && is_current r)

abbrev pub current_by_term : ℕ → List EntryRow → Text → List EntryRow
current_by_term tenant rows term = filter (in_scope tenant term) rows

abbrev pub ref_of : EntryRow → CurrentEntryRef
ref_of r = record { id = r.id; content_hash = r.content_hash }

abbrev pub close_row : ℕ → EntryRow → EntryRow
close_row now r = record r { valid_to = some now }

unfoldable pub new_rows : ℕ → ℕ → List HashedEntry → List EntryRow
new_rows tenant next [] = []
new_rows tenant next (e ∷ es) =
    record { id = next; tenant_id = tenant; hashed = e; valid_to = none }
    ∷ new_rows tenant (suc next) es

module _ (sha256 : Text → ℕ) where
  unfoldable pub apply_diff :
      ℕ → ℕ → ℕ → List EntryRow → Text → List TimetableEntryInput → List EntryRow × ApplyDiffStats
  apply_diff tenant now next rows term incoming =
      let plan =
        plan_timetable_diff sha256 (map ref_of (current_by_term tenant rows term)) incoming in
      let closed =
        update_where (λ r. (r.tenant_id == tenant) && includes plan.to_close_ids r.id)
          (close_row now) rows in
      (
        closed ++ new_rows tenant next plan.to_insert,
        record {
          inserted = length plan.to_insert;
          closed = length plan.to_close_ids;
          unchanged = plan.unchanged;
        },
      )
