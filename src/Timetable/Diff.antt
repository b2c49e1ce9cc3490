-- ===== src/Timetable/Diff.antt =====
-- packages/modules/timetable/src/domain/diff.ts: the plan from the current entries to a snapshot.
-- A `Set` of hashes is the list of what was added to it.
pub mod Laws
use campus_os.Common.{
  Text, ℕ, Bool, true, false, not, ◌&&◌, List, [], ◌∷◌, map, if◌then◌else◌, filter, includes, count,
}
use campus_os.Timetable.Hash.{TimetableEntryInput, HashedEntry, with_hash}

pub record CurrentEntryRef : Type 0 where
  pub id : ℕ
  pub content_hash : ℕ

pub record DiffPlan : Type 0 where
  pub to_insert : List HashedEntry
  pub to_close_ids : List ℕ
  pub unchanged : ℕ

abbrev pub ref_hashes : List CurrentEntryRef → List ℕ
ref_hashes = map (λ c. c.content_hash)

abbrev pub entry_hashes : List HashedEntry → List ℕ
entry_hashes = map (λ e. e.content_hash)

-- The loop that fills `toInsert`, with the hashes seen so far.
unfoldable pub inserts_from : List ℕ → List ℕ → List HashedEntry → List HashedEntry
inserts_from current seen [] = []
inserts_from current seen (e ∷ es) =
    let rest = inserts_from current (e.content_hash ∷ seen) es in
    if not (includes current e.content_hash) && not (includes seen e.content_hash)
    then e ∷ rest
    else rest

module _ (sha256 : Text → ℕ) where
  unfoldable pub plan_timetable_diff : List CurrentEntryRef → List TimetableEntryInput → DiffPlan
  plan_timetable_diff current incoming =
      let hashed = map (with_hash sha256) incoming in
      let incoming_hashes = entry_hashes hashed in
      record {
        to_insert = inserts_from (ref_hashes current) [] hashed;
        to_close_ids =
            map (λ c. c.id) (filter (λ c. not (includes incoming_hashes c.content_hash)) current);
        unchanged = count (λ c. includes incoming_hashes c.content_hash) current;
      }
