-- ===== src/Core/Ingestion/Runs.antt =====
-- What runIngestion of packages/core/src/ingestion/pipeline.ts leaves of a run and of the stored data.
use campus_os.Common.{
  Text, ℕ, ◌≡◌, ◌≢◌, refl, sym, ◌∙◌, ap, Bool, true, Option, none, some, ◌⊎◌, inl, inr,
}
use campus_os.Core.Result.{Result, ok, err}
use campus_os.Core.Ingestion.Tracked.{IsTracked, attempt-Keeps}
use campus_os.Core.Ingestion.{
  IngestionRunStatus, success, failed, IngestionError, fetch_failed, normalize_failed,
  ingestion_crashed, RunResult, Action, resume, rescue, TimetableSource, IngestionSink, fail,
  persisted, after_normalize, normalized, after_fetch, attempt, run_ingestion,
}

abbrev pub outcome : Result RunResult IngestionError → IngestionRunStatus
outcome (ok r) = success
outcome (err e) = failed

resume_ok :
    {S A B : Type 0} (o : Result A Text × S) (k : A → Action S B) (b : B) (s' : S)
    → resume o k ≡ (ok b, s')
    → (a : A) × (t : S) × (o ≡ (ok a, t)) × (k a t ≡ (ok b, s'))
resume_ok (ok a, t) k b s' h = (a, t, refl, h)
resume_ok (err e, t) k b s' h = cc

rescue_ok :
    {S A : Type 0} (o : Result A Text × S) (k : Text → Action S A) (a : A) (s' : S)
    → rescue o k ≡ (ok a, s')
    → (o ≡ (ok a, s')) ⊎ ((e : Text) × (t : S) × (o ≡ (err e, t)) × (k e t ≡ (ok a, s')))
rescue_ok (ok b, t) k a s' h = inl h
rescue_ok (err m, t) k a s' h = inr (m, t, refl, h)

module _ {S Raw Batch D : Type 0} (source : TimetableSource Raw Batch)
    (sink : IngestionSink S Raw Batch) (begun : S → ℕ → Bool)
    (status : S → ℕ → Option IngestionRunStatus) (stored : S → D)
    (tracked : IsTracked sink begun status stored) where
  fail_marks :
      (run : ℕ) (message : Text) (e : IngestionError) (s s' : S)
      (r : Result RunResult IngestionError)
      → begun s run ≡ true
      → fail source sink run message e s ≡ (ok r, s')
      → (status s' run ≡ some (outcome r)) × (r ≡ err e) × (stored s' ≡ stored s)
  unfolding fail
  fail_marks run message e s s' r was h =
      let (u, t, f, k) = resume_ok (sink.finish_run run failed none (some message) s) _ r s' h in
      let left : r ≡ err e = cc in
      let there : t ≡ s' = cc in
      (
        rw (left, ← there) (tracked.finished run failed none (some message) s t was f),
        left,
        rw (← there) (
            ap stored (sym (ap (λ o. o.1) f))
            ∙ tracked.finish_keeps run failed none (some message) s),
      )

  persisted_ok :
      (run : ℕ) (batch : Batch) (s s' : S) (r : Result RunResult IngestionError)
      → begun s run ≡ true
      → persisted source sink run batch s ≡ (ok r, s')
      → (status s' run ≡ some (outcome r))
        × ((e : IngestionError) → r ≡ err e → stored s' ≡ stored s)
  unfolding persisted
  persisted_ok run batch s s' r was h =
      let (stats, t, f, k) = resume_ok (sink.persist batch run source.id s) _ r s' h in
      let (u, v, g, l) = resume_ok (sink.finish_run run success (some stats) none t) _ r s' k in
      let still : begun t run ≡ true =
        ap (λ o. begun o.1 run) (sym f) ∙ tracked.persist_begun batch run source.id s was in
      let left : r ≡ ok (record { run_id = run; status = success; stats = stats }) = cc in
      let there : v ≡ s' = cc in
      (rw (left, ← there) (tracked.finished run success (some stats) none t v still g), λ e q. cc)

  normalized_ok :
      (run : ℕ) (raw : Raw) (s s' : S) (r : Result RunResult IngestionError)
      → begun s run ≡ true
      → normalized source sink run raw s ≡ (ok r, s')
      → (status s' run ≡ some (outcome r))
        × ((e : IngestionError) → r ≡ err e → stored s' ≡ stored s)
  unfolding normalized after_normalize
  normalized_ok run raw s s' r was h =
      let (u, t, f, k) = resume_ok (sink.record_snapshot run raw s) _ r s' h in
      let (batch, v, g, l) = resume_ok (source.normalize raw, t) _ r s' k in
      let here : v ≡ t = cc in
      let kept : stored v ≡ stored s =
        ap stored here ∙ ap stored (sym (ap (λ o. o.1) f)) ∙ tracked.snapshot_keeps run raw s in
      let still : begun v run ≡ true =
        ap (λ u. begun u run) here
        ∙ ap (λ o. begun o.1 run) (sym f)
        ∙ tracked.snapshot_begun run raw s was in
      after batch v still kept l
    where
      after :
          (b : Result Batch Text) (v : S)
          → begun v run ≡ true
          → stored v ≡ stored s
          → after_normalize source sink run b v ≡ (ok r, s')
          → (status s' run ≡ some (outcome r))
            × ((e : IngestionError) → r ≡ err e → stored s' ≡ stored s)
      after (ok batch) v still kept l =
          let (a, b) = persisted_ok run batch v s' r still l in (a, λ e q. b e q ∙ kept)
      after (err message) v still kept l =
          let (a, q, b) = fail_marks run message (normalize_failed message) v s' r still l in
          (a, λ e p. b ∙ kept)

  attempt_ok :
      (run : ℕ) (s s' : S) (r : Result RunResult IngestionError)
      → begun s run ≡ true
      → attempt source sink run s ≡ (ok r, s')
      → (status s' run ≡ some (outcome r))
        × ((e : IngestionError) → r ≡ err e → stored s' ≡ stored s)
  unfolding attempt after_fetch
  attempt_ok run s s' r was h =
      let (raw, t, f, k) = resume_ok (source.fetch_raw, s) _ r s' h in
      let here : t ≡ s = cc in after raw t (ap (λ u. begun u run) here ∙ was) (ap stored here) k
    where
      after :
          (b : Result Raw Text) (v : S)
          → begun v run ≡ true
          → stored v ≡ stored s
          → after_fetch source sink run b v ≡ (ok r, s')
          → (status s' run ≡ some (outcome r))
            × ((e : IngestionError) → r ≡ err e → stored s' ≡ stored s)
      after (ok raw) v still kept l =
          let (a, b) = normalized_ok run raw v s' r still l in (a, λ e q. b e q ∙ kept)
      after (err message) v still kept l =
          let (a, q, b) = fail_marks run message (fetch_failed message) v s' r still l in
          (a, λ e p. b ∙ kept)

  -- With a sink that keeps started runs in its records, gives a started run that it finishes the
  -- status asked for, and changes data only where `persist` returns: when a started run returns, it is
  -- marked as a success or as failed just as the result says, and when it returns a failure to fetch or
  -- to normalize, the stored data is what it was.
  pub run_ingestion_finishes :
      (s t s' : S) (run : ℕ) (r : Result RunResult IngestionError)
      → sink.start_run source.id s ≡ (ok run, t)
      → run_ingestion source sink s ≡ (ok r, s')
      → (status s' run ≡ some (outcome r))
        × ((e : IngestionError)
            → r ≡ err e
            → ((m : Text) → e ≢ ingestion_crashed m)
            → stored s' ≡ stored s)
  unfolding run_ingestion
  run_ingestion_finishes s t s' run r f h =
      let (run', t', f', k) = resume_ok (sink.start_run source.id s) _ r s' h in
      let same : run' ≡ run = cc in
      let here : t' ≡ t = cc in
      let at_start : stored t ≡ stored s =
        ap stored (sym (ap (λ o. o.1) f)) ∙ tracked.start_keeps source.id s in
      let was : begun t' run' ≡ true = rw (here, same) (tracked.start_begins run source.id s t f) in
      elim (rescue_ok (attempt source sink run' t') _ r s' k) [
        | inl a ↦
            let (marked, kept) = attempt_ok run' t' s' r was a in
            (rw (← same) marked, λ e q n. kept e q ∙ ap stored here ∙ at_start)
        | inr (m, v, a, l) ↦
            let still : begun v run' ≡ true =
              ap (λ o. begun o.1 run') (sym a)
              ∙ attempt-Keeps source sink begun status stored tracked run' t' was in
            let (marked, q, kept) = fail_marks run' m (ingestion_crashed m) v s' r still l in
            (rw (← same) marked, λ e p n. absurd (n m (cc)))
      ]
