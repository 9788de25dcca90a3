-- ===== src/Store/Transition.antt =====
-- packages/db/src/store.ts: `transition`, with the SQL function `transition_run` of migrations.ts
-- that it calls. Like `scheduleRetry` it reads the events in `seen`, before it locks the run in
-- `db`. What the target status demands of the stored validations and effects is checked by code
-- that only reads and throws; it is the argument `prerequisites`.
use lineageguard.Base.{
  ℕ, ◌*◌, suc, String, Bool, false, not, ◌&&◌, ◌||◌, none, some, List, [], ◌∷◌, ◌==◌, ◌===◌, ltb,
  leb, any, all, if◌then◌else◌,
}
use lineageguard.Base.Results.{Outcome, returns, throws, ensure, ◌>>=◌, ◌>>◌}
use lineageguard.Run.Status.{
  RunStatus, created, change_parsed, baseline_assessed, context_collecting, context_collected,
  risk_decided, migration_planned, patch_generated, validating, validated, review_artifact_created,
  writeback_pending, completed, failed_context, failed_generation, failed_validation, failed_github,
  failed_writeback, cancelled, status_eq, is_terminal,
}
use lineageguard.Run.Events.{
  Fence, RunEvent, status_changed, lease_acquired, lease_renewed, lease_released, lease_expired,
  retry_scheduled, fence,
}
use lineageguard.Store.Rows.{
  Host, RunRow, EventRow, Database, StoreError, type_error, state_conflict, check_violation,
  LeaseGuard, EffectKind, kind_eq, github_review, datahub_writeback, has_run,
}
use lineageguard.Base.Text.{tagged_hex}
use lineageguard.Store.Events.{next_sequence, event_from_row, authorize_event, row_of, insert_event}
use lineageguard.Store.Leases.{
  max_safe_integer, require_run_id, update_run, Committed, run_from_row, iso_string,
  lock_run_for_lease,
}

-- `{ ...untrustedEvent, occurredAt }`.
abbrev pub timed : String → Fence → Fence
timed at f = record f { occurred_at = at }

abbrev pub restamped : String → RunEvent → RunEvent
restamped at (status_changed f from to detail) = status_changed (timed at f) from to detail
restamped at (lease_acquired f until) = lease_acquired (timed at f) until
restamped at (lease_renewed f previous until) = lease_renewed (timed at f) previous until
restamped at (lease_released f) = lease_released (timed at f)
restamped at (lease_expired f expired_at) = lease_expired (timed at f) expired_at
restamped at (retry_scheduled f o n retry_at why) = retry_scheduled (timed at f) o n retry_at why

-- The pairs that `transition_run` lists.
abbrev pub sql_transitions : List (RunStatus × RunStatus)
sql_transitions =
    (created, change_parsed)
    ∷ (change_parsed, baseline_assessed)
    ∷ (baseline_assessed, context_collecting)
    ∷ (context_collecting, context_collected)
    ∷ (context_collecting, failed_context)
    ∷ (context_collected, risk_decided)
    ∷ (context_collected, failed_context)
    ∷ (risk_decided, migration_planned)
    ∷ (risk_decided, failed_generation)
    ∷ (migration_planned, patch_generated)
    ∷ (migration_planned, failed_generation)
    ∷ (patch_generated, validating)
    ∷ (patch_generated, failed_generation)
    ∷ (validating, validated)
    ∷ (validating, failed_validation)
    ∷ (validated, review_artifact_created)
    ∷ (validated, failed_github)
    ∷ (review_artifact_created, writeback_pending)
    ∷ (review_artifact_created, failed_github)
    ∷ (writeback_pending, completed)
    ∷ (writeback_pending, failed_writeback)
    ∷ []

abbrev pub sql_allows : RunStatus → RunStatus → Bool
sql_allows from to =
    any (λ edge. status_eq from edge.0 && status_eq to edge.1) sql_transitions
    || status_eq to cancelled

-- The row with this key satisfies a condition; `id` is the primary key, so it is the only one.
abbrev pub row_with : String → (RunRow → Bool) → List RunRow → Bool
row_with id test runs = has_run runs id && all (λ r. not (r.id === id) || test r) runs

-- The `WHERE` of the update.
abbrev pub fence_matches : Fence → RunStatus → ℕ → RunRow → Bool
fence_matches f from at r = elim r.tenure [
  | none ↦ false
  | some t ↦
      status_eq r.status from
      && t.lease_id === f.lease_id
      && t.worker_id === f.worker_id
      && r.lease_generation == f.generation
      && ltb at t.lease_expires_at
]

-- Its `SET`.
abbrev pub moved : RunStatus → ℕ → RunRow → RunRow
moved to now r = record r {
  status = to;
  version = suc r.version;
  updated_at = now * 1_000;
  tenure = if is_terminal to then none else r.tenure;
}

-- What the two functions need of their arguments.
pub record Move : Type 0 where
  pub origin : RunStatus
  pub target : RunStatus
  pub expected_version : ℕ
  pub sql_at : ℕ
  pub set_at : ℕ
  pub now : ℕ

module _ (host : Host) where
  abbrev pub moved_row : RunEvent → ℕ → EventRow
  moved_row event now = record (row_of host event) { created_at = now }

  -- `EXISTS` a validation of the run that is authentic and passed.
  abbrev pub has_validation : Database → String → Bool
  has_validation db run_id =
      any (λ v. v.run_id === run_id && tagged_hex "val_" 24 v.id && host.is_live_pass v.payload)
        db.validation_receipts

  -- `EXISTS` an intent of the run with its receipt and its validation.
  abbrev pub has_receipt : Database → String → EffectKind → Bool
  has_receipt db run_id kind =
      any
        (λ i.
          i.run_id === run_id
          && kind_eq i.kind kind
          && any (λ v. v.id === i.validation_receipt_id) db.validation_receipts
          && any
              (λ r.
                r.intent_id === i.id
                && r.validation_receipt_id === i.validation_receipt_id
                && r.candidate_fingerprint === i.candidate_fingerprint
                && r.artifact_set_fingerprint === i.artifact_set_fingerprint)
              db.effect_receipts)
        db.effect_intents

  unfoldable pub has_prerequisites : Database → String → RunStatus → Bool
  unfolding tagged_hex
  has_prerequisites db run_id target =
      (not (status_eq target validated || status_eq target completed) || has_validation db run_id)
      && (not (status_eq target review_artifact_created) || has_receipt db run_id github_review)
      && (not (status_eq target completed)
          || (has_receipt db run_id github_review && has_receipt db run_id datahub_writeback))

  unfoldable pub transition_run : Database → RunEvent → Move → Outcome StoreError Database
  unfolding next_sequence update_run insert_event has_prerequisites
  transition_run db event m = do
    let f = fence event
    ensure (row_with f.run_id (λ r. r.version == m.expected_version) db.runs) check_violation
    ensure (sql_allows m.origin m.target) check_violation
    ensure (has_prerequisites db f.run_id m.target) check_violation
    ensure (f.sequence == next_sequence db f.run_id) check_violation
    ensure (row_with f.run_id (fence_matches f m.origin m.sql_at) db.runs) check_violation
    updated ← update_run db m.set_at f.run_id (moved m.target m.now)
    insert_event host updated (moved_row event m.now)

  -- `transition` from the authorized event on.
  unfoldable pub apply_event :
      (prerequisites : Database → RunStatus → Outcome StoreError (Unit {0}))
      → Database
      → RunEvent
      → (version locked_at sql_at set_at now : ℕ) → Committed (RunRow × EventRow)
  unfolding lock_run_for_lease next_sequence transition_run run_from_row event_from_row
  apply_event prerequisites db (status_changed f from to detail) version locked_at sql_at set_at
        now =
      do
        let event = status_changed f from to detail
        let guard : LeaseGuard = record {
          lease_id = f.lease_id;
          worker_id = f.worker_id;
          generation = f.generation;
          fencing_version = version;
        }
        row ← lock_run_for_lease host db f.run_id guard locked_at
        ensure (status_eq row.status from) state_conflict
        ensure (f.sequence == next_sequence db f.run_id) state_conflict
        prerequisites db to
        changed ← transition_run db event (record {
          origin = from;
          target = to;
          expected_version = version;
          sql_at = sql_at;
          set_at = set_at;
          now = now;
        })
        persisted ← event_from_row host (moved_row event now) event
        result ← run_from_row host (moved to now row)
        returns (changed, (result, persisted))
  apply_event prerequisites db _ version locked_at sql_at set_at now = throws state_conflict

  unfoldable pub transition :
      (prerequisites : Database → RunStatus → Outcome StoreError (Unit {0}))
      → (seen db : Database) → RunEvent
      → (version locked_at sql_at set_at now : ℕ) → Committed (RunRow × EventRow)
  unfolding require_run_id authorize_event apply_event
  transition prerequisites seen db request version locked_at sql_at set_at now = do
    run_id ← require_run_id (fence request).run_id
    ensure (leb version max_safe_integer) type_error
    at ← iso_string host now
    event ← authorize_event host seen (fence request).run_id (restamped at request) now
    apply_event prerequisites db event version locked_at sql_at set_at now
