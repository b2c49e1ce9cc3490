-- ===== src/Core/Samples.antt =====
-- The core at concrete inputs.
use campus_os.Common.{
  Text, ℕ, ◌+◌, ◌*◌, ◌≤◌, ◌<◌, ◌≡◌, ◌≢◌, refl, ap, sym, ◌∙◌, Bool, true, any, update_where,
  any-update_same, map, Option, none, some, List, [], ◌∷◌, ◌==◌, if◌then◌else◌, arith,
}
use campus_os.Core.Result.{Result, ok, err}
use campus_os.Core.Rbac.{
  communities_vote, post, known, permission_set, PermissionSet, has, to_array,
}
use campus_os.Core.Rbac.Laws.{has-to_array}
use campus_os.Core.Payments.{
  whole, exact, Currency, ChargeStatus, ChargeRequest, Charge, gain, fee_paisa, net_paisa, fake_id,
  fake_provider,
}
use campus_os.Core.Payments.Fees.{fee_plus_net}
use campus_os.Core.Ingestion.{
  IngestionRunStatus, failed, IngestionStats, IngestionError, fetch_failed, ingestion_crashed,
  RunResult, TimetableSource, IngestionSink, fail, after_fetch, attempt, run_ingestion,
}
use campus_os.Core.Ingestion.Tracked.{IsTracked}
use campus_os.Core.Ingestion.Runs.{run_ingestion_finishes}

abbrev held : PermissionSet
held = permission_set (known post ∷ known post ∷ [])

has-to_array_example :
    has (permission_set (map known (to_array held))) communities_vote ≡ has held communities_vote
has-to_array_example = has-to_array held communities_vote

fee : fee_paisa (whole 12345) 1000 ≡ some (exact 1234)
unfolding fee_paisa
fee = refl

fee_plus_net_example :
    (fee net : ℕ) × (fee_paisa (whole 12345) 1000 ≡ some (exact fee))
    × (fee * 10000 ≤ 12345 * 1000)
    × (12345 * 1000 < (fee + 1) * 10000)
    × (net_paisa (whole 12345) 1000 ≡ some (gain net))
    × (fee + net ≡ 12345)
fee_plus_net_example = fee_plus_net 12345 1000 (omega arith) (omega arith) (omega arith)

abbrev order_charge : ChargeRequest
order_charge = record { amount_paisa = whole 500; currency = Currency.pkr; reference = b'o' ∷ [] }

abbrev settled_charge : Charge
settled_charge = record {
  provider_id = fake_id;
  provider_ref = b'o' ∷ [];
  amount_paisa = whole 500;
  currency = Currency.pkr;
  status = ChargeStatus.settled;
  instructions = none;
}

charged : fake_provider.create_charge order_charge [] ≡ some (settled_charge, settled_charge ∷ [])
unfolding fake_provider
charged = refl

-- A sink that keeps a row for each started run and a count of what was stored; finishing a run
-- updates its row.
abbrev RunRow : Type 0
RunRow = ℕ × Option IngestionRunStatus

abbrev World : Type 0
World = List RunRow × ℕ

abbrev status_in : List RunRow → ℕ → Option IngestionRunStatus
status_in [] run = none
status_in ((r, st) ∷ rs) run = if r == run then st else status_in rs run

abbrev is_run : ℕ → RunRow → Bool
is_run run row = row.0 == run

abbrev ended : IngestionRunStatus → RunRow → RunRow
ended st row = (row.0, some st)

abbrev run_begun : World → ℕ → Bool
run_begun w run = any (is_run run) w.0

abbrev run_status : World → ℕ → Option IngestionRunStatus
run_status w run = status_in w.0 run

abbrev stored_count : World → ℕ
stored_count w = w.1

abbrev no_stats : IngestionStats
no_stats = record { inserted = 1; closed = 0; unchanged = 0; unknowns = 0 }

abbrev memory_sink : IngestionSink World ℕ ℕ
memory_sink = record {
  start_run = λ id w. (ok 7, ((7, none) ∷ w.0, w.1));
  record_snapshot = λ run raw w. (ok tt, w);
  persist = λ batch run id w. (ok no_stats, (w.0, w.1 + batch));
  finish_run = λ run st stats error w. (ok tt, (update_where (is_run run) (ended st) w.0, w.1));
}

abbrev broken_source : TimetableSource ℕ ℕ
broken_source = record { id = []; fetch_raw = ok (err (b'x' ∷ [])); normalize = λ raw. ok (ok raw) }

ended_status :
    (run : ℕ) (st : IngestionRunStatus) (rs : List RunRow)
    → any (is_run run) rs ≡ true
    → status_in (update_where (is_run run) (ended st) rs) run ≡ some st
ended_status run st [] h = cc
ended_status run st ((r, x) ∷ rs) h = ground (arith, ended_status run st rs)

memory_sink-IsTracked : IsTracked memory_sink run_begun run_status stored_count
memory_sink-IsTracked = record {
  start_begins = λ run id s t e. ground arith;
  snapshot_begun = λ run raw s h. h;
  persist_begun = λ batch run id s h. h;
  finish_begun = λ run st stats error s h.
      (any-update_same (is_run run) (is_run run) (ended st) s.0 (λ x e. refl) ∙ h);
  finished = λ run st stats error s s' was h.
      (sym (ap (λ o. run_status o.1 run) h) ∙ ended_status run st s.0 was);
  finish_keeps = λ run st stats error s. refl;
  start_keeps = λ id s. refl;
  snapshot_keeps = λ run raw s. refl;
  persist_throws = λ batch run id s s' e h. cc;
}

abbrev failed_run : Result RunResult IngestionError
failed_run = err (fetch_failed (b'x' ∷ []))

ran : run_ingestion broken_source memory_sink ([], 3) ≡ (ok failed_run, ((7, some failed) ∷ [], 3))
unfolding run_ingestion attempt after_fetch fail
ran = refl

run_ingestion_finishes_example :
    (some failed ≡ some failed)
    × ((e : IngestionError)
        → failed_run ≡ err e
        → ((m : Text) → e ≢ ingestion_crashed m)
        → stored_count ((7, some failed) ∷ [], 3) ≡ stored_count ([], 3))
run_ingestion_finishes_example =
    run_ingestion_finishes broken_source memory_sink run_begun run_status stored_count
      memory_sink-IsTracked ([], 3) ((7, none) ∷ [], 3) ((7, some failed) ∷ [], 3) 7 failed_run refl
      ran
