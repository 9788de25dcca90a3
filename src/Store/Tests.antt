-- ===== src/Store/Tests.antt =====
-- packages/db/src/store.ts: the theorems on the store at the sample run.
use lineageguard.Base.{
  ◌+◌, ◌≡◌, refl, true, false, not, ◌||◌, none, some, [], ◌∷◌, All, ◌↔◌, ◌⊎◌, all,
}
use lineageguard.Base.Results.{returns, throws}
use lineageguard.Run.Sample.{read, digits}
use lineageguard.Run.Status.{
  RunStatus, created, change_parsed, baseline_assessed, context_collecting, context_collected,
  risk_decided, migration_planned, patch_generated, validating, validated, review_artifact_created,
  writeback_pending, completed,
}
use lineageguard.Run.Graph.{success_path}
use lineageguard.Run.Progress.{statuses}
use lineageguard.Run.Events.{RunEvent, status_changed}
use lineageguard.Store.Rows.{RunRow, Database, LeaseGuard, events_of}
use lineageguard.Store.Claims.{due_le, claim_due}
use lineageguard.Store.Replay.{payloads, IsFaithful, IsAccepted, authorized_events_iff}
use lineageguard.Store.Sound.{Preserves, Extends-refl}
use lineageguard.Store.Queue.{IsClaimOf, is_open, claim_due-returns}
use lineageguard.Store.Agree.{Agrees}
use lineageguard.Store.History.{
  Command, create, claim, release, move, append, collect, decide, sign, intend, renew, retry,
  Timely, execute, History, founded, committed, elsewhere, execute-Preserves,
}
use lineageguard.Store.Reached.{
  reached, History-Agrees, History-completed, History-authorized_events,
}
use mathlib.Core.List.{Memᴰ}
use lineageguard.Store.Events.{authorized_events}
use lineageguard.Store.Versions.{lock_run_for_lease-unchanged}
use lineageguard.Store.Rows.{evidence_bundles, lease_conflict}
use lineageguard.Store.Leases.{lock_run_for_lease}
use lineageguard.Store.Records.{Appended, bumped, append_positioned}
use lineageguard.Store.Appending.{with_fence, append_positioned-fence}
use lineageguard.Store.Sample.{
  desk, run_id, lease_id, nothing, step, last_state, past_states, run_at, opening, leased_state,
  before_lease, whole, leased,
}

finished : (run_at last_state).status ≡ completed
unfolding last_state step
finished = refl

stored : Memᴰ (run_at last_state) last_state.runs
unfolding last_state step
stored = Memᴰ.head refl

History-Agrees_example : All (λ r. Agrees desk r (events_of last_state r.id)) last_state.runs
History-Agrees_example = History-Agrees desk last_state past_states whole

History-completed_example :
    statuses (payloads (events_of last_state (run_at last_state).id)) ≡ success_path 12 created
History-completed_example =
    History-completed desk last_state past_states (run_at last_state) whole stored finished

History-authorized_events_example :
    authorized_events desk last_state (run_at last_state).id
    ≡ returns (events_of last_state (run_at last_state).id)
History-authorized_events_example =
    History-authorized_events desk last_state past_states (run_at last_state) whole stored

abbrev guard : LeaseGuard
guard = record { lease_id = lease_id; worker_id = "worker-1"; generation = 1; fencing_version = 1 }

lock_run_for_lease-unchanged_example : run_at leased_state ≡ run_at leased_state
unfolding leased_state step desk
lock_run_for_lease-unchanged_example =
    lock_run_for_lease-unchanged desk leased_state (leased_state ∷ before_lease) leased_state run_id
      guard 110 8_000 (run_at leased_state) (run_at leased_state)
      (elsewhere leased_state leased_state before_lease leased refl refl)
      (Memᴰ.tail (Memᴰ.head refl)) refl refl

abbrev claim_again : Command
claim_again = step "evt_000000000000000000000001" 1 1 created change_parsed

abbrev moved_state : Database
unfolding leased_state step desk lineageguard.Store.History.execute
    lineageguard.Run.Events.event_shape lineageguard.Run.Stream.is_stream
    lineageguard.Run.Stream.stream_issues lineageguard.Run.Stream.event_issues
    lineageguard.Run.Stream.start lineageguard.Run.Status.is_adjacent
    lineageguard.Run.Stream.advance
moved_state = elim (execute desk leased_state leased_state claim_again) [
  | returns d ↦ d
  | throws e ↦ nothing
]

execute-Preserves_example : Preserves desk leased_state moved_state
unfolding desk step leased_state read digits
execute-Preserves_example =
    execute-Preserves desk leased_state leased_state moved_state claim_again
      (Extends-refl leased_state) (reached desk leased_state before_lease leased).0 refl refl

abbrev created_state : Database
unfolding before_lease opening
created_state = elim before_lease [ [] ↦ nothing | d ∷ ds ↦ d ]

claim_due-returns_example :
    ((some (run_at leased_state) ≡ none)
      × (leased_state ≡ created_state)
      × (all (λ r. not (is_open created_state (λ _. false) 100 r)) created_state.runs ≡ true))
    ⊎ ((row : RunRow) × (result : RunRow) × (some (run_at leased_state) ≡ some result)
        × IsClaimOf row result lease_id "worker-1" (100 + 8_900)
        × Memᴰ row created_state.runs
        × (is_open created_state (λ _. false) 100 row ≡ true)
        × (all
              (λ r. not (is_open created_state (λ _. false) 100 r) || due_le row r)
              created_state.runs
            ≡ true))
unfolding claim_due created_state desk lineageguard.Run.Events.event_shape
    lineageguard.Run.Stream.is_stream lineageguard.Run.Stream.stream_issues
    lineageguard.Run.Stream.event_issues lineageguard.Run.Stream.start leased_state
claim_due-returns_example =
    claim_due-returns desk created_state leased_state (λ _. false) "evt_0000000000000000000000ff"
      "evt_000000000000000000000000" lease_id "worker-1" 8_900 100 100 100
      (some (run_at leased_state)) refl

authorized_events_iff_example :
    (authorized_events desk leased_state run_id ≡ returns (events_of leased_state run_id)) ↔ (
      All (IsFaithful desk) (events_of leased_state run_id)
      × IsAccepted desk (payloads (events_of leased_state run_id))
      × (events_of leased_state run_id ≡ events_of leased_state run_id))
authorized_events_iff_example =
    authorized_events_iff desk leased_state run_id (events_of leased_state run_id)

abbrev appended : Database × Appended
unfolding leased_state step desk append_positioned
appended =
    elim (append_positioned desk (λ s. some s) 1_048_576 leased_state evidence_bundles "bundle_0"
      run_id guard "{}" 110 110) [
        | returns x ↦ x
        | throws e ↦ (nothing, record { id = ""; position = 0; version = 0 })
      ]

append_positioned-fence_example :
    (lock_run_for_lease desk appended.0 run_id (with_fence guard appended.1.version) 8_000
      ≡ returns (bumped 110 (run_at leased_state)))
    × (lock_run_for_lease desk appended.0 run_id guard 8_000 ≡ throws lease_conflict)
unfolding leased_state step desk appended append_positioned lock_run_for_lease
append_positioned-fence_example =
    append_positioned-fence desk (λ s. some s) 1_048_576 leased_state appended.0 evidence_bundles
      "bundle_0" run_id guard "{}" 110 110 8_000 appended.1 (run_at leased_state) refl refl refl
