-- ===== src/Timetable/Repository/Repeat.antt =====
-- What is current after a snapshot is applied, and that applying it again changes nothing.
use mathlib.Core.List.{append-nil}
use campus_os.Common.{
  Text, ℕ, suc, ◌≡◌, refl, ap, ◌∙◌, Bool, true, false, ◌&&◌, ◌||◌, List, [], ◌∷◌, ◌++◌, map, ◌==◌,
  includes, any, any-append, update_where, update_where_none, filter_none, All, Distinct, arith,
  Bool-cases, inl, inr, ==_refl, filter_none,
}
use campus_os.Timetable.Hash.{TimetableEntryInput, HashedEntry, with_hash}
use campus_os.Timetable.Diff.{plan_timetable_diff, entry_hashes, ref_hashes}
use campus_os.Timetable.Diff.Laws.{includes-to_insert, to_insert-All, includes_eq}
use campus_os.Timetable.Repository.{EntryRow, close_row, new_rows, apply_diff}
use campus_os.Timetable.Repository.Laws.{
  row_ids, snapshot, disappeared, refs, inserts, close_ids_lem, apply_diff-rows, current_hashes,
  InTerm,
}

module _ (sha256 : Text → ℕ) (tenant : ℕ) (term : Text) (incoming : List TimetableEntryInput) where
  abbrev gone : EntryRow → Bool
  gone = disappeared sha256 tenant term incoming

  abbrev wanted : ℕ → Bool
  wanted = includes (snapshot sha256 tenant term incoming)

  current_of_closed :
      (now : ℕ) (rows : List EntryRow) (h : ℕ)
      → includes (current_hashes tenant term (update_where gone (close_row now) rows)) h
        ≡ (includes (current_hashes tenant term rows) h && wanted h)
  current_of_closed now [] h = refl
  current_of_closed now (r ∷ rs) h = elim (Bool-cases (r.content_hash == h)) [
    | inl same ↦ ground (
      arith,
      current_of_closed now rs h,
      includes_eq (snapshot sha256 tenant term incoming) r.content_hash h same,
    )
    | inr other ↦ ground (arith, current_of_closed now rs h)
  ]

  current_of_new :
      (next : ℕ) (es : List HashedEntry) (h : ℕ)
      → All (InTerm term) es
      → includes (current_hashes tenant term (new_rows tenant next es)) h
        ≡ includes (entry_hashes es) h
  unfolding new_rows
  current_of_new next [] h k = refl
  current_of_new next (e ∷ es) h (a, k) =
      ground (arith, current_of_new (suc next) es h k, ==_refl tenant)

  includes-current_append :
      (xs ys : List EntryRow) (h : ℕ)
      → includes (current_hashes tenant term (xs ++ ys)) h
        ≡ (includes (current_hashes tenant term xs) h || includes (current_hashes tenant term ys) h)
  includes-current_append [] ys h = refl
  includes-current_append (x ∷ xs) ys h = ground (arith, includes-current_append xs ys h)

  pub current-refs :
      (rows : List EntryRow)
      → ref_hashes (refs sha256 tenant term incoming rows) ≡ current_hashes tenant term rows
  current-refs [] = refl
  current-refs (r ∷ rs) = ground (arith, current-refs rs)

  no_hashes : (es : List HashedEntry) → ((h : ℕ) → includes (entry_hashes es) h ≡ false) → es ≡ []
  no_hashes [] h = refl
  no_hashes (e ∷ es) h = ground (arith, h e.content_hash, ==_refl e.content_hash)

  All-wanted :
      (es : List HashedEntry)
      → ((h : ℕ) → includes (entry_hashes es) h ≡ true → wanted h ≡ true)
      → All (λ e. wanted e.content_hash ≡ true) es
  All-wanted [] f = tt
  All-wanted (e ∷ es) f = (
    f e.content_hash (ground (arith, ==_refl e.content_hash)),
    All-wanted es (λ h k. f h (ground arith)),
  )

  gone_of_closed :
      (now : ℕ) (rows : List EntryRow) → any gone (update_where gone (close_row now) rows) ≡ false
  gone_of_closed now [] = refl
  gone_of_closed now (r ∷ rs) = ground (arith, gone_of_closed now rs)

  gone_of_new :
      (next : ℕ) (es : List HashedEntry)
      → All (λ e. wanted e.content_hash ≡ true) es
      → any gone (new_rows tenant next es) ≡ false
  unfolding new_rows
  gone_of_new next [] h = refl
  gone_of_new next (e ∷ es) (a, h) = ground (arith, gone_of_new (suc next) es h)

  -- A plan with nothing in it changes nothing.
  apply_diff_of_empty :
      (now next : ℕ) (rows : List EntryRow)
      → inserts sha256 tenant term incoming rows ≡ []
      → (plan_timetable_diff sha256 (refs sha256 tenant term incoming rows) incoming).to_close_ids
        ≡ []
      → ((apply_diff sha256 tenant now next rows term incoming).0 ≡ rows)
        × ((apply_diff sha256 tenant now next rows term incoming).1.inserted ≡ 0)
        × ((apply_diff sha256 tenant now next rows term incoming).1.closed ≡ 0)
  unfolding apply_diff new_rows
  apply_diff_of_empty now next rows e f =
      (rw (e, f) (append-nil _ ∙ update_where_none _ (close_row now) rows (never rows)), rw e, rw f)
    where
      never : (rs : List EntryRow) → any (λ r. (r.tenant_id == tenant) && false) rs ≡ false
      never [] = refl
      never (r ∷ rs) = ground (arith, never rs)

  module _ (rows : List EntryRow) (now next : ℕ) (ids : Distinct (row_ids rows)) where
    abbrev pub after : List EntryRow
    after = (apply_diff sha256 tenant now next rows term incoming).0

    -- Where row ids are distinct and the snapshot belongs to the term, the hashes that are current
    -- for the tenant's term afterwards are exactly those of the snapshot.
    pub current_hashes-apply_diff :
        All (InTerm term) (map (with_hash sha256) incoming)
        → (h : ℕ)
        → includes (current_hashes tenant term after) h
          ≡ includes (snapshot sha256 tenant term incoming) h
    current_hashes-apply_diff k h =
        let es = inserts sha256 tenant term incoming rows in
        rw (apply_diff-rows sha256 tenant term incoming rows now next ids) (
          ground (
            arith,
            includes-current_append (update_where gone (close_row now) rows)
                (new_rows tenant next es) h,
            current_of_closed now rows h,
            current_of_new next es h (
                to_insert-All (InTerm term) sha256 (refs sha256 tenant term incoming rows) incoming
                  k),
            includes-to_insert sha256 (refs sha256 tenant term incoming rows) incoming h,
            ap (λ hs. includes hs h) (current-refs rows),
          ))

    second_inserts :
        All (InTerm term) (map (with_hash sha256) incoming)
        → inserts sha256 tenant term incoming after ≡ []
    second_inserts k = no_hashes (inserts sha256 tenant term incoming after) λ h. ground (
      arith,
      includes-to_insert sha256 (refs sha256 tenant term incoming after) incoming h,
      ap (λ hs. includes hs h) (current-refs after),
      current_hashes-apply_diff k h,
    )

    none_gone : any gone after ≡ false
    none_gone =
        let es = inserts sha256 tenant term incoming rows in
        rw (apply_diff-rows sha256 tenant term incoming rows now next ids) (
          ground (
            arith,
            any-append gone (update_where gone (close_row now) rows) (new_rows tenant next es),
            gone_of_closed now rows,
            gone_of_new next es (
                All-wanted es λ h e. ground (
                  arith,
                  includes-to_insert sha256 (refs sha256 tenant term incoming rows) incoming h,
                )),
          ))

    -- Applying the same snapshot again, at any later time, changes no row, and reports that nothing
    -- was inserted or closed.
    pub apply_diff_idempotent :
        (later fresh : ℕ)
        → All (InTerm term) (map (with_hash sha256) incoming)
        → ((apply_diff sha256 tenant later fresh after term incoming).0 ≡ after)
          × ((apply_diff sha256 tenant later fresh after term incoming).1.inserted ≡ 0)
          × ((apply_diff sha256 tenant later fresh after term incoming).1.closed ≡ 0)
    apply_diff_idempotent later fresh k = apply_diff_of_empty later fresh after (second_inserts k) (
        close_ids_lem sha256 tenant term incoming after
        ∙ ap row_ids (filter_none gone after none_gone))
