-- ===== src/Run/Tests.antt =====
-- One run from the first lease to its completion, and the theorems at it.
use lineageguard.Base.{
  ℕ, ◌≡◌, refl, ◌≢◌, ◌↔◌, ◌≤◌, String, true, none, List, [], ◌∷◌, ◌++◌, length, Pairwise,
}
use lineageguard.Base.Results.{returns}
use lineageguard.Run.Sample.{ticks, read, digits}
use lineageguard.Run.Status.{
  RunStatus, created, change_parsed, baseline_assessed, context_collecting, context_collected,
  risk_decided, migration_planned, patch_generated, validating, validated, review_artifact_created,
  writeback_pending, completed, is_adjacent,
}
use lineageguard.Run.Graph.{Chain, success_path}
use lineageguard.Run.Events.{
  Fence, RunEvent, datahub_read, status_changed, lease_acquired, lease_renewed, lease_expired,
  retry_scheduled, fence, event_shape,
}
use lineageguard.Run.Stream.{
  start, advance, replay, event_issues, scan, stream_issues, is_stream, authorize_run_event,
}
use lineageguard.Run.Fencing.{IsFencedBy, is_stream-IsFencedBy}
use lineageguard.Run.Progress.{statuses, final_status, is_stream-Chain, completed-success_path}
use lineageguard.Run.Retries.{retries, retries-le}
use lineageguard.Run.Authorize.{authorize_run_event_iff, authorize_run_event-terminal}
use lineageguard.Run.Ownership.{Owns, status_changed-Owns}

abbrev by : String → ℕ → String → String → ℕ → Fence
by event n at lease generation = record {
  event_id = event;
  run_id = "run_0123456789abcdef01234567";
  sequence = n;
  occurred_at = at;
  lease_id = lease;
  worker_id = "worker-1";
  generation = generation;
}

abbrev lease_1 : String
lease_1 = "lease_00000000000000000000000a"

abbrev lease_2 : String
lease_2 = "lease_00000000000000000000000b"

-- A run that reads the context twice and then is completed.
abbrev first_half : List RunEvent
first_half =
    lease_acquired (by "evt_000000000000000000000000" 0 "100" lease_1 1) "9000"
    ∷ status_changed (by "evt_000000000000000000000001" 1 "110" lease_1 1) created change_parsed
        none
    ∷ status_changed (by "evt_000000000000000000000002" 2 "120" lease_1 1) change_parsed
        baseline_assessed none
    ∷ status_changed (by "evt_000000000000000000000003" 3 "130" lease_1 1) baseline_assessed
        context_collecting none
    ∷ lease_renewed (by "evt_000000000000000000000004" 4 "140" lease_1 1) "9000" "9500"
    ∷ retry_scheduled (by "evt_000000000000000000000005" 5 "150" lease_1 1) datahub_read 1 "1150"
        "timeout"
    ∷ lease_expired (by "evt_000000000000000000000006" 6 "9500" lease_1 1) "9500"
    ∷ lease_acquired (by "evt_000000000000000000000007" 7 "9600" lease_2 2) "20000"
    ∷ []

abbrev change : String → ℕ → RunStatus → RunStatus → RunEvent
change id n from to = status_changed (by id n "9700" lease_2 2) from to none

abbrev middle : List RunEvent
middle =
    change "evt_000000000000000000000008" 8 context_collecting context_collected
    ∷ change "evt_000000000000000000000009" 9 context_collected risk_decided
    ∷ change "evt_00000000000000000000000a" 10 risk_decided migration_planned
    ∷ change "evt_00000000000000000000000b" 11 migration_planned patch_generated
    ∷ change "evt_00000000000000000000000c" 12 patch_generated validating
    ∷ change "evt_00000000000000000000000d" 13 validating validated
    ∷ change "evt_00000000000000000000000e" 14 validated review_artifact_created
    ∷ change "evt_00000000000000000000000f" 15 review_artifact_created writeback_pending
    ∷ []

abbrev last : RunEvent
last = change "evt_000000000000000000000010" 16 writeback_pending completed

abbrev whole : List RunEvent
whole = first_half ++ middle ++ last ∷ []

run : Unit {0}
unfolding is_stream stream_issues scan event_issues advance event_shape start replay is_adjacent
    final_status authorize_run_event read digits
run = tt

whole-is_stream : is_stream ticks whole ≡ true
unfolding run
whole-is_stream = refl

whole-completed : final_status whole ≡ completed
unfolding run
whole-completed = refl

is_stream-IsFencedBy_example : Pairwise (λ d e. IsFencedBy (fence d) (fence e)) whole
is_stream-IsFencedBy_example = is_stream-IsFencedBy ticks whole whole-is_stream

is_stream-Chain_example : Chain created (statuses whole) × (length (statuses whole) ≤ 12)
is_stream-Chain_example = is_stream-Chain ticks whole whole-is_stream

completed-success_path_example : statuses whole ≡ success_path 12 created
completed-success_path_example = completed-success_path ticks whole whole-is_stream whole-completed

retries-le_example : retries datahub_read whole ≤ 3
retries-le_example = retries-le ticks datahub_read whole whole-is_stream

authorize_run_event_iff_example :
    (authorize_run_event ticks (first_half ++ middle) last "9700" ≡ returns whole) ↔ (
      (ticks.is_datetime "9700" ≡ true)
      × ((fence last).occurred_at ≡ "9700")
      × (is_stream ticks ((first_half ++ middle) ++ last ∷ []) ≡ true)
      × (whole ≡ (first_half ++ middle) ++ last ∷ []))
authorize_run_event_iff_example =
    authorize_run_event_iff ticks (first_half ++ middle) last "9700" whole

authorize_run_event-terminal_example : authorize_run_event ticks whole last "9700" ≢ returns whole
unfolding run
authorize_run_event-terminal_example =
    authorize_run_event-terminal ticks whole last "9700" whole whole-is_stream refl

status_changed-Owns_example : Owns lease_2 "worker-1" (first_half ++ middle)
status_changed-Owns_example =
    status_changed-Owns ticks (first_half ++ middle) []
      (by "evt_000000000000000000000010" 16 "9700" lease_2 2) writeback_pending completed none
      whole-is_stream
