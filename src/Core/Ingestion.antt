-- ===== src/Core/Ingestion.antt =====
-- packages/core/src/ingestion: the port of a sink (`IngestionSink`), a source (`TimetableSource`),
-- and `runIngestion` over them. The sink works on a world of its own; an operation of either may
-- throw, and a thrown error is its message. The logger, which only prints, is left out.
pub mod Tracked
pub mod Runs
use campus_os.Common.{Text, ℕ, Option, none, some}
use campus_os.Core.Result.{Result, ok, err}

pub data IngestionRunStatus : Type 0 where
  success failed : IngestionRunStatus

pub record IngestionStats : Type 0 where
  pub inserted : ℕ
  pub closed : ℕ
  pub unchanged : ℕ
  pub unknowns : ℕ

-- What went wrong, with the message of its cause.
pub data IngestionError : Type 0 where
  fetch_failed normalize_failed ingestion_crashed : Text → IngestionError

pub record RunResult : Type 0 where
  pub run_id : ℕ
  pub status : IngestionRunStatus
  pub stats : IngestionStats

-- A computation on the world of the sink, which may throw.
abbrev pub Action : Type 0 → Type 0 → Type 0
Action S A = S → Result A Text × S

abbrev pub return : {S A : Type 0} → A → Action S A
return a s = (ok a, s)

abbrev pub resume : {S A B : Type 0} → Result A Text × S → (A → Action S B) → Result B Text × S
resume (ok a, t) k = k a t
resume (err e, t) k = (err e, t)

abbrev pub and_then : {S A B : Type 0} → Action S A → (A → Action S B) → Action S B
and_then m k s = resume (m s) k

abbrev pub rescue : {S A : Type 0} → Result A Text × S → (Text → Action S A) → Result A Text × S
rescue (ok a, t) h = (ok a, t)
rescue (err e, t) h = h e t

-- `try { … } catch (error) { … }`.
abbrev pub try_catch : {S A : Type 0} → Action S A → (Text → Action S A) → Action S A
try_catch m h s = rescue (m s) h

abbrev pub thrown : {S A : Type 0} → Result A Text → Action S A
thrown r s = (r, s)

pub record TimetableSource (Raw Batch : Type 0) : Type 0 where
  pub id : Text
  pub fetch_raw : Result (Result Raw Text) Text
  pub normalize : Raw → Result (Result Batch Text) Text

pub record IngestionSink (S Raw Batch : Type 0) : Type 0 where
  pub start_run : Text → Action S ℕ
  pub record_snapshot : ℕ → Raw → Action S (Unit {0})
  pub persist : Batch → ℕ → Text → Action S IngestionStats
  pub finish_run :
      ℕ → IngestionRunStatus → Option IngestionStats → Option Text → Action S (Unit {0})

module _ {S Raw Batch : Type 0} (source : TimetableSource Raw Batch)
    (sink : IngestionSink S Raw Batch) where
  -- `finishRun(runId, 'failed', null, message)`, and the error that is returned.
  unfoldable pub fail : ℕ → Text → IngestionError → Action S (Result RunResult IngestionError)
  fail run message e =
      and_then (sink.finish_run run failed none (some message)) (λ done. return (err e))

  unfoldable pub persisted : ℕ → Batch → Action S (Result RunResult IngestionError)
  persisted run batch = and_then (sink.persist batch run source.id) (λ stats.
      and_then (sink.finish_run run success (some stats) none)
        (λ done. return (ok (record { run_id = run; status = success; stats = stats }))))

  -- `if (!normalized.ok) … `, and what follows it.
  unfoldable pub after_normalize :
      ℕ → Result Batch Text → Action S (Result RunResult IngestionError)
  after_normalize run (ok batch) = persisted run batch
  after_normalize run (err message) = fail run message (normalize_failed message)

  unfoldable pub normalized : ℕ → Raw → Action S (Result RunResult IngestionError)
  normalized run raw =
      and_then (sink.record_snapshot run raw)
        (λ archived. and_then (thrown (source.normalize raw)) (λ batch. after_normalize run batch))

  -- `if (!raw.ok) … `, and what follows it.
  unfoldable pub after_fetch : ℕ → Result Raw Text → Action S (Result RunResult IngestionError)
  after_fetch run (ok raw) = normalized run raw
  after_fetch run (err message) = fail run message (fetch_failed message)

  unfoldable pub attempt : ℕ → Action S (Result RunResult IngestionError)
  attempt run = and_then (thrown source.fetch_raw) (λ raw. after_fetch run raw)

  unfoldable pub run_ingestion : Action S (Result RunResult IngestionError)
  run_ingestion =
      and_then (sink.start_run source.id)
        (λ run. try_catch (attempt run) (λ message. fail run message (ingestion_crashed message)))
