-- ===== src/Timetable/Repository/Laws.antt =====
-- Applying a snapshot closes exactly the rows that disappeared and leaves the snapshot current.
use mathlib.Core.Path.{ap₂}
use campus_os.Common.{
  Text, same_text, ℕ, ◌≡◌, refl, ap, ◌∙◌, Bool, true, false, not, ◌&&◌, List, [], ◌∷◌, ◌++◌, map,
  ◌==◌, filter, includes, update_where, update_where-cong, All, All-map, Distinct, arith,
}
use campus_os.Timetable.Hash.{TimetableEntryInput, HashedEntry, with_hash}
use campus_os.Timetable.Diff.{CurrentEntryRef, plan_timetable_diff, entry_hashes}
use campus_os.Timetable.Repository.{
  EntryRow, in_scope, current_by_term, ref_of, close_row, new_rows, apply_diff,
}

abbrev pub row_ids : List EntryRow → List ℕ
row_ids = map (λ r. r.id)

abbrev pub ids_where : (EntryRow → Bool) → List EntryRow → List ℕ
ids_where p rows = row_ids (filter p rows)

ids_where_absent :
    (p : EntryRow → Bool) (rows : List EntryRow) (a : ℕ)
    → includes (row_ids rows) a ≡ false
    → includes (ids_where p rows) a ≡ false
ids_where_absent p [] a h = refl
ids_where_absent p (r ∷ rs) a h = ground (arith, ids_where_absent p rs a)

ids_where_here :
    (p : EntryRow → Bool) (r : EntryRow) (rs : List EntryRow)
    → includes (row_ids rs) r.id ≡ false
    → includes (ids_where p (r ∷ rs)) r.id ≡ p r
ids_where_here p r rs h = ground (arith, ids_where_absent p rs r.id h)

ids_where_later :
    (p : EntryRow → Bool) (r x : EntryRow) (rs : List EntryRow)
    → (r.id == x.id) ≡ false
    → includes (ids_where p (r ∷ rs)) x.id ≡ includes (ids_where p rs) x.id
ids_where_later p r x rs h = ground arith

others :
    (a : ℕ) (rows : List EntryRow)
    → includes (row_ids rows) a ≡ false
    → All (λ x. (a == x.id) ≡ false) rows
others a [] h = tt
others a (r ∷ rs) h = (ground arith, others a rs (ground arith))

-- With distinct ids an update by the collected ids is the update by the test that collected them.
update_by_ids :
    (t p : EntryRow → Bool) (f : EntryRow → EntryRow) (rows : List EntryRow)
    → ((r : EntryRow) → p r ≡ true → t r ≡ true)
    → Distinct (row_ids rows)
    → update_where (λ r. t r && includes (ids_where p rows) r.id) f rows ≡ update_where p f rows
update_by_ids t p f [] h d = refl
update_by_ids t p f (r ∷ rs) h (a, d) =
    ap₂ (λ x xs. x ∷ xs) (rw head)
      (update_where-cong _ _ f rs (
          All-map _ _ rs (λ x e. ap (λ b. t x && b) (ids_where_later p r x rs e))
            (others r.id rs a))
        ∙ update_by_ids t p f rs h d)
  where
    head : (t r && includes (ids_where p (r ∷ rs)) r.id) ≡ p r
    head = ground (arith, ids_where_here p r rs a, h r)

module _ (sha256 : Text → ℕ) (tenant : ℕ) (term : Text) (incoming : List TimetableEntryInput) where
  abbrev pub snapshot : List ℕ
  snapshot = entry_hashes (map (with_hash sha256) incoming)

  -- A current row of the term whose content is not in the snapshot.
  abbrev pub disappeared : EntryRow → Bool
  disappeared r = in_scope tenant term r && not (includes snapshot r.content_hash)

  module _ (rows : List EntryRow) where
    abbrev pub refs : List CurrentEntryRef
    refs = map ref_of (current_by_term tenant rows term)

    abbrev pub inserts : List HashedEntry
    inserts = (plan_timetable_diff sha256 refs incoming).to_insert

    pub close_ids_lem :
        (plan_timetable_diff sha256 refs incoming).to_close_ids ≡ ids_where disappeared rows
    unfolding plan_timetable_diff
    close_ids_lem = go rows
      where
        go :
            (rs : List EntryRow)
            → map
                (λ (c : CurrentEntryRef). c.id)
                (filter
                  (λ c. not (includes snapshot c.content_hash))
                  (map ref_of (filter (in_scope tenant term) rs)))
              ≡ ids_where disappeared rs
        go [] = refl
        go (r ∷ rs) = ground (arith, go rs)

    -- Where row ids are distinct, applying a snapshot closes exactly the current rows of the term
    -- whose content is not in the snapshot, leaves every other row as it is, and appends the
    -- plan's new rows.
    pub apply_diff-rows :
        (now next : ℕ)
        → Distinct (row_ids rows)
        → (apply_diff sha256 tenant now next rows term incoming).0
          ≡ update_where disappeared (close_row now) rows ++ new_rows tenant next inserts
    unfolding apply_diff
    apply_diff-rows now next d =
        ap (λ xs. xs ++ new_rows tenant next inserts)
          (ap
              (λ ids.
                update_where (λ r. (r.tenant_id == tenant) && includes ids r.id) (close_row now)
                  rows)
              close_ids_lem
            ∙ update_by_ids (λ r. r.tenant_id == tenant) disappeared (close_row now) rows
                (λ r h. ground arith) d)

abbrev pub current_hashes : ℕ → Text → List EntryRow → List ℕ
current_hashes tenant term rows = map (λ r. r.content_hash) (current_by_term tenant rows term)

-- The entries of the snapshot belong to the term.
abbrev pub InTerm : Text → HashedEntry → Type 0
InTerm term e = same_text e.term_id term ≡ true
