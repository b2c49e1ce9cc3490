-- ===== src/Timetable/Repository/Rows.antt =====
-- The rows of the table after applyDiff of packages/modules/timetable/src/repositories/timetable.ts, said
-- without the plan and its helpers.
use campus_os.Common.{
  Text, ℕ, zero, suc, ◌≡◌, refl, ap, ◌∙◌, Bool, not, ◌&&◌, none, some, List, [], ◌∷◌, ◌++◌, map,
  if◌then◌else◌, includes, update_where, All, All-tabulate, In, Distinct, length,
}
use campus_os.Timetable.Hash.{TimetableEntryInput, HashedEntry, with_hash}
use campus_os.Timetable.Diff.{entry_hashes}
use campus_os.Timetable.Diff.Laws.{includes-to_insert, to_insert-All, to_insert-Distinct}
use campus_os.Timetable.Repository.{EntryRow, close_row, new_rows, apply_diff}
use campus_os.Timetable.Repository.Laws.{
  row_ids, snapshot, disappeared, refs, inserts, apply_diff-rows, current_hashes,
}
use campus_os.Timetable.Repository.Repeat.{current-refs}

-- So many ids from one on.
abbrev pub ids_from : ℕ → ℕ → List ℕ
ids_from next zero = []
ids_from next (suc n) = next ∷ ids_from (suc next) n

abbrev pub row_hashes : List EntryRow → List ℕ
row_hashes = map (λ r. r.content_hash)

new_rows-hashes :
    (tenant next : ℕ) (es : List HashedEntry)
    → row_hashes (new_rows tenant next es) ≡ entry_hashes es
unfolding new_rows
new_rows-hashes tenant next [] = refl
new_rows-hashes tenant next (e ∷ es) =
    ap (λ hs. e.content_hash ∷ hs) (new_rows-hashes tenant (suc next) es)

new_rows-ids :
    (tenant next : ℕ) (es : List HashedEntry)
    → row_ids (new_rows tenant next es) ≡ ids_from next (length (new_rows tenant next es))
unfolding new_rows
new_rows-ids tenant next [] = refl
new_rows-ids tenant next (e ∷ es) = ap (λ is. next ∷ is) (new_rows-ids tenant (suc next) es)

new_rows-All :
    (P : HashedEntry → Type 0) (tenant next : ℕ) (es : List HashedEntry)
    → All P es
    → All (λ r. (r.tenant_id ≡ tenant) × (r.valid_to ≡ none) × P r.hashed) (new_rows tenant next es)
unfolding new_rows
new_rows-All P tenant next [] h = tt
new_rows-All P tenant next (e ∷ es) (a, h) =
    ((refl, refl, a), new_rows-All P tenant (suc next) es h)

closed_rows :
    (p : EntryRow → Bool) (now : ℕ) (rows : List EntryRow)
    → update_where p (close_row now) rows
      ≡ map (λ r. if p r then record r { valid_to = some now } else r) rows
closed_rows p now [] = refl
closed_rows p now (r ∷ rs) =
    ap (λ xs. (if p r then record r { valid_to = some now } else r) ∷ xs) (closed_rows p now rs)

module _ (sha256 : Text → ℕ) (tenant : ℕ) (term : Text) (incoming : List TimetableEntryInput)
    (rows : List EntryRow) (now next : ℕ) where
  -- Where row ids are distinct, after a snapshot is applied the rows that stood are in place, and
  -- exactly the tenant's current ones of the term whose content is not in the snapshot have the end
  -- `now`; behind them stand rows of the tenant without an end, under the ids from `next` on, each an
  -- entry of the snapshot, that hold each content of the snapshot that was not current exactly once
  -- and no other content.
  pub apply_diff_splits :
      Distinct (row_ids rows)
      → (added : List EntryRow) × ((apply_diff sha256 tenant now next rows term incoming).0
          ≡ map
              (λ r.
                if disappeared sha256 tenant term incoming r
                then record r { valid_to = some now }
                else r)
              rows
            ++ added)
        × All
            (λ r.
              (r.tenant_id ≡ tenant)
              × (r.valid_to ≡ none)
              × In r.hashed (map (with_hash sha256) incoming))
            added
        × (row_ids added ≡ ids_from next (length added))
        × Distinct (row_hashes added)
        × ((h : ℕ)
            → includes (row_hashes added) h ≡ (
                includes (snapshot sha256 tenant term incoming) h
                && not (includes (current_hashes tenant term rows) h)))
  apply_diff_splits ids =
      let es = inserts sha256 tenant term incoming rows in
      let entries = map (with_hash sha256) incoming in
      let now_current = refs sha256 tenant term incoming rows in
      (
        new_rows tenant next es,
        apply_diff-rows sha256 tenant term incoming rows now next ids
            ∙ ap (λ xs. xs ++ new_rows tenant next es)
                (closed_rows (disappeared sha256 tenant term incoming) now rows),
        new_rows-All (λ e. In e entries) tenant next es
            (to_insert-All (λ e. In e entries) sha256 now_current incoming
              (All-tabulate (λ e. In e entries) entries (λ e i. i))),
        new_rows-ids tenant next es,
        rw (new_rows-hashes tenant next es) (to_insert-Distinct sha256 now_current incoming),
        λ h.
            ap (λ hs. includes hs h) (new_rows-hashes tenant next es)
            ∙ includes-to_insert sha256 now_current incoming h
            ∙ ap (λ hs. includes (snapshot sha256 tenant term incoming) h && not (includes hs h))
                (current-refs sha256 tenant term incoming rows),
      )
