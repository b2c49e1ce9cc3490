-- ===== src/Core/Ingestion/Tracked.antt =====
-- What runIngestion of packages/core/src/ingestion/pipeline.ts asks of a sink, and that its steps leave a
-- started run in the records of such a sink.
use campus_os.Common.{Text, ℕ, ◌≡◌, Bool, true, Option, none, some}
use campus_os.Core.Result.{Result, ok, err}
use campus_os.Core.Ingestion.{
  IngestionRunStatus, success, failed, IngestionStats, IngestionError, fetch_failed,
  normalize_failed, Action, resume, TimetableSource, IngestionSink, fail, persisted,
  after_normalize, normalized, after_fetch, attempt,
}

-- A sink that tracks its runs: a run that was started stays in its records, a started run that is
-- finished has the status given, and the data changes only where `persist` returns.
pub record IsTracked {S Raw Batch D : Type 0} (sink : IngestionSink S Raw Batch)
    (begun : S → ℕ → Bool) (status : S → ℕ → Option IngestionRunStatus) (stored : S → D)
    : Type 0 where
  pub start_begins :
      (run : ℕ) (id : Text) (s t : S) → sink.start_run id s ≡ (ok run, t) → begun t run ≡ true
  pub snapshot_begun :
      (run : ℕ) (raw : Raw) (s : S)
      → begun s run ≡ true
      → begun (sink.record_snapshot run raw s).1 run ≡ true
  pub persist_begun :
      (batch : Batch) (run : ℕ) (id : Text) (s : S)
      → begun s run ≡ true
      → begun (sink.persist batch run id s).1 run ≡ true
  pub finish_begun :
      (run : ℕ) (st : IngestionRunStatus) (stats : Option IngestionStats) (error : Option Text)
      (s : S)
      → begun s run ≡ true
      → begun (sink.finish_run run st stats error s).1 run ≡ true
  pub finished :
      (run : ℕ) (st : IngestionRunStatus) (stats : Option IngestionStats) (error : Option Text)
      (s s' : S)
      → begun s run ≡ true
      → sink.finish_run run st stats error s ≡ (ok tt, s')
      → status s' run ≡ some st
  pub finish_keeps :
      (run : ℕ) (st : IngestionRunStatus) (stats : Option IngestionStats) (error : Option Text)
      (s : S)
      → stored (sink.finish_run run st stats error s).1 ≡ stored s
  pub start_keeps : (id : Text) (s : S) → stored (sink.start_run id s).1 ≡ stored s
  pub snapshot_keeps :
      (run : ℕ) (raw : Raw) (s : S) → stored (sink.record_snapshot run raw s).1 ≡ stored s
  pub persist_throws :
      (batch : Batch) (run : ℕ) (id : Text) (s s' : S) (e : Text)
      → sink.persist batch run id s ≡ (err e, s')
      → stored s' ≡ stored s

module _ {S Raw Batch D : Type 0} (source : TimetableSource Raw Batch)
    (sink : IngestionSink S Raw Batch) (begun : S → ℕ → Bool)
    (status : S → ℕ → Option IngestionRunStatus) (stored : S → D)
    (tracked : IsTracked sink begun status stored) where
  -- An action that leaves the started run in the records, whatever it answers.
  abbrev pub Keeps : {A : Type 0} → ℕ → Action S A → Type 0
  Keeps run m = (s : S) → begun s run ≡ true → begun (m s).1 run ≡ true

  resume-Keeps :
      {A B : Type 0} (run : ℕ) (o : Result A Text × S) (k : A → Action S B)
      → begun o.1 run ≡ true
      → ((a : A) → Keeps run (k a))
      → begun (resume o k).1 run ≡ true
  resume-Keeps run (ok a, t) k h f = f a t h
  resume-Keeps run (err e, t) k h f = h

  fail-Keeps :
      (run : ℕ) (message : Text) (e : IngestionError) → Keeps run (fail source sink run message e)
  unfolding fail
  fail-Keeps run message e s h =
      resume-Keeps run (sink.finish_run run failed none (some message) s) _
        (tracked.finish_begun run failed none (some message) s h) (λ a t k. k)

  persisted-Keeps : (run : ℕ) (batch : Batch) → Keeps run (persisted source sink run batch)
  unfolding persisted
  persisted-Keeps run batch s h =
      resume-Keeps run (sink.persist batch run source.id s) _
        (tracked.persist_begun batch run source.id s h)
        (λ stats t k.
          resume-Keeps run (sink.finish_run run success (some stats) none t) _
            (tracked.finish_begun run success (some stats) none t k) (λ a u l. l))

  after_normalize-Keeps :
      (run : ℕ) (b : Result Batch Text) → Keeps run (after_normalize source sink run b)
  unfolding after_normalize
  after_normalize-Keeps run (ok batch) = persisted-Keeps run batch
  after_normalize-Keeps run (err message) = fail-Keeps run message (normalize_failed message)

  normalized-Keeps : (run : ℕ) (raw : Raw) → Keeps run (normalized source sink run raw)
  unfolding normalized
  normalized-Keeps run raw s h =
      resume-Keeps run (sink.record_snapshot run raw s) _ (tracked.snapshot_begun run raw s h)
        (λ a t k. resume-Keeps run (source.normalize raw, t) _ k (λ b. after_normalize-Keeps run b))

  after_fetch-Keeps : (run : ℕ) (b : Result Raw Text) → Keeps run (after_fetch source sink run b)
  unfolding after_fetch
  after_fetch-Keeps run (ok raw) = normalized-Keeps run raw
  after_fetch-Keeps run (err message) = fail-Keeps run message (fetch_failed message)

  pub attempt-Keeps : (run : ℕ) → Keeps run (attempt source sink run)
  unfolding attempt
  attempt-Keeps run s h = resume-Keeps run (source.fetch_raw, s) _ h (λ b. after_fetch-Keeps run b)
