-- ===== src/Timetable/Diff/Laws.antt =====
-- What the plan inserts and closes, and what is current once it is applied.
use campus_os.Common.{
  Text, ℕ, ◌+◌, ◌≡◌, refl, ap, Bool, true, not, ◌&&◌, List, [], ◌∷◌, ◌++◌, map, filter, includes,
  count, arith, Distinct, All, length, ◌==◌, Bool-cases, inl, inr, ==_iff, any-append,
}
use campus_os.Timetable.Hash.{TimetableEntryInput, HashedEntry, with_hash}
use campus_os.Timetable.Diff.{
  CurrentEntryRef, DiffPlan, ref_hashes, entry_hashes, inserts_from, plan_timetable_diff,
}

pub includes_eq : (xs : List ℕ) (a b : ℕ) → (a == b) ≡ true → includes xs a ≡ includes xs b
includes_eq xs a b h = ap (includes xs) ((==_iff a b).0 h)

includes-inserts_from :
    (current seen : List ℕ) (es : List HashedEntry) (h : ℕ)
    → includes (entry_hashes (inserts_from current seen es)) h
      ≡ (includes (entry_hashes es) h && (not (includes current h) && not (includes seen h)))
unfolding inserts_from
includes-inserts_from current seen [] h = refl
includes-inserts_from current seen (e ∷ es) h = elim (Bool-cases (e.content_hash == h)) [
  | inl same ↦ ground (
    arith,
    includes-inserts_from current (e.content_hash ∷ seen) es h,
    includes_eq current e.content_hash h same,
    includes_eq seen e.content_hash h same,
  )
  | inr other ↦ ground (arith, includes-inserts_from current (e.content_hash ∷ seen) es h)
]

inserts_from-Distinct :
    (current seen : List ℕ) (es : List HashedEntry)
    → Distinct (entry_hashes (inserts_from current seen es))
unfolding inserts_from
inserts_from-Distinct current seen [] = tt
inserts_from-Distinct current seen (e ∷ es) = ground (
  arith,
  inserts_from-Distinct current (e.content_hash ∷ seen) es,
  includes-inserts_from current (e.content_hash ∷ seen) es e.content_hash,
)

-- The hashes that stay current: those of the references that the plan does not close.
abbrev pub kept_hashes : List ℕ → List CurrentEntryRef → List ℕ
kept_hashes incoming current = ref_hashes (filter (λ c. includes incoming c.content_hash) current)

includes-kept_hashes :
    (incoming : List ℕ) (current : List CurrentEntryRef) (h : ℕ)
    → includes (kept_hashes incoming current) h
      ≡ (includes (ref_hashes current) h && includes incoming h)
includes-kept_hashes incoming [] h = refl
includes-kept_hashes incoming (c ∷ cs) h = elim (Bool-cases (c.content_hash == h)) [
  | inl same ↦
      ground (arith, includes-kept_hashes incoming cs h, includes_eq incoming c.content_hash h same)
  | inr other ↦ ground (arith, includes-kept_hashes incoming cs h)
]

module _ (sha256 : Text → ℕ) (current : List CurrentEntryRef)
    (incoming : List TimetableEntryInput) where
  abbrev pub plan : DiffPlan
  plan = plan_timetable_diff sha256 current incoming

  abbrev pub incoming_hashes : List ℕ
  incoming_hashes = entry_hashes (map (with_hash sha256) incoming)

  -- The plan inserts each hash of the snapshot that is not current, once.
  pub includes-to_insert :
      (h : ℕ)
      → includes (entry_hashes plan.to_insert) h
        ≡ (includes incoming_hashes h && not (includes (ref_hashes current) h))
  unfolding plan_timetable_diff
  includes-to_insert h =
      ground
        (arith, includes-inserts_from (ref_hashes current) [] (map (with_hash sha256) incoming) h)

  -- No hash is inserted twice.
  pub to_insert-Distinct : Distinct (entry_hashes plan.to_insert)
  unfolding plan_timetable_diff
  to_insert-Distinct =
      inserts_from-Distinct (ref_hashes current) [] (map (with_hash sha256) incoming)

  -- What is current after the plan, kept and inserted together, is exactly the snapshot.
  pub includes-planned :
      (h : ℕ)
      → includes (kept_hashes incoming_hashes current ++ entry_hashes plan.to_insert) h
        ≡ includes incoming_hashes h
  includes-planned h = ground (
    arith,
    any-append (λ x. x == h) (kept_hashes incoming_hashes current) (entry_hashes plan.to_insert),
    includes-kept_hashes incoming_hashes current h,
    includes-to_insert h,
  )

closed_and_kept :
    (p : ℕ → Bool) (cs : List CurrentEntryRef)
    → length (map (λ c. c.id) (filter (λ c. not (p c.content_hash)) cs))
        + count (λ c. p c.content_hash) cs
      ≡ length cs
closed_and_kept p [] = refl
closed_and_kept p (c ∷ cs) = ground (arith, closed_and_kept p cs)

-- The statistics of a plan account for every current entry: closed or unchanged.
pub closed-plus-unchanged :
    (sha256 : Text → ℕ) (current : List CurrentEntryRef) (incoming : List TimetableEntryInput)
    → length (plan sha256 current incoming).to_close_ids + (plan sha256 current incoming).unchanged
      ≡ length current
unfolding plan_timetable_diff
closed-plus-unchanged sha256 current incoming =
    closed_and_kept (includes (incoming_hashes sha256 current incoming)) current

inserts_from-All :
    (P : HashedEntry → Type 0) (current seen : List ℕ) (es : List HashedEntry)
    → All P es
    → All P (inserts_from current seen es)
unfolding inserts_from
inserts_from-All P current seen [] h = tt
inserts_from-All P current seen (e ∷ es) (a, h) =
    ground (arith, inserts_from-All P current (e.content_hash ∷ seen) es h)

-- What holds of every hashed entry of the snapshot holds of every inserted one.
pub to_insert-All :
    (P : HashedEntry → Type 0) (sha256 : Text → ℕ) (current : List CurrentEntryRef)
    (incoming : List TimetableEntryInput)
    → All P (map (with_hash sha256) incoming)
    → All P (plan_timetable_diff sha256 current incoming).to_insert
unfolding plan_timetable_diff
to_insert-All P sha256 current incoming h =
    inserts_from-All P (ref_hashes current) [] (map (with_hash sha256) incoming) h
