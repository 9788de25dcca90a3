-- ===== src/Store/Retry.antt =====
-- packages/db/src/store.ts: `scheduleRetry`. It reads the events before it locks the run, so `seen`
-- is the database at that time; the rest of the transaction finds `db`.
use lineageguard.Base.{
  ℕ, ◌*◌, suc, ◌+◌, String, not, ◌&&◌, ◌||◌, none, some, [], ◌∷◌, ◌++◌, ◌==◌, ◌===◌, leb, any,
}
use lineageguard.Base.Results.{Outcome, returns, ensure, demand, ◌>>=◌, ◌>>◌}
use lineageguard.Run.Status.{status_eq}
use lineageguard.Run.Events.{
  RetryOperation, Fence, RunEvent, lease_released, retry_scheduled, retry_delay, is_delayed,
}
use lineageguard.Run.Stream.{operation_eq, retry_states}
use lineageguard.Store.Rows.{
  Host, RunRow, RetryRow, Database, StoreError, type_error, not_found, state_conflict,
  unique_violation, check_violation, LeaseGuard, find_row,
}
use lineageguard.Store.Events.{authorize_event, append_event}
use lineageguard.Store.Leases.{
  max_safe_integer, require_run_id, update_run, Committed, run_from_row, iso_string,
  lock_run_for_lease,
}
use lineageguard.Store.Claims.{stamp}

-- What the caller proposes: an event without the times that the store sets.
pub record RetryRequest : Type 0 where
  pub event_id : String
  pub run_id : String
  pub sequence : ℕ
  pub lease_id : String
  pub worker_id : String
  pub generation : ℕ
  pub operation : RetryOperation
  pub attempt : ℕ
  pub reason : String

abbrev pub requested : RetryRequest → (at retry_at : String) → RunEvent
requested q at retry_at =
    retry_scheduled (stamp q.event_id q.run_id q.sequence at q.lease_id q.worker_id q.generation)
      q.operation q.attempt retry_at q.reason

-- `delays[attempt - 1] ?? 0`.
abbrev pub delay_of : ℕ → ℕ
delay_of attempt = elim (retry_delay attempt) [ none ↦ 0 | some delay ↦ delay ]

abbrev pub current_version : Database → String → Outcome StoreError ℕ
current_version db run_id = do
  row ← demand (find_row run_id db.runs) not_found
  ensure (leb row.version max_safe_integer) state_conflict
  returns row.version

-- `INSERT INTO retry_attempts`, with the trigger `authorize_retry_attempt` and the constraints.
unfoldable pub insert_retry : Database → RetryRow → Outcome StoreError Database
insert_retry db row = do
  run ← demand (find_row row.run_id db.runs) check_violation
  ensure (any (status_eq run.status) (retry_states row.operation)) check_violation
  ensure (is_delayed row.created_at (retry_delay row.attempt) row.retry_at) check_violation
  ensure
      (not (
        any
          (λ r.
            r.id === row.id
            || (r.run_id === row.run_id
                && operation_eq r.operation row.operation
                && r.attempt == row.attempt))
          db.retry_attempts))
      unique_violation
  returns (record db { retry_attempts = db.retry_attempts ++ row ∷ [] })

-- The `UPDATE` of `scheduleRetry`.
abbrev pub postponed : ℕ → ℕ → RunRow → RunRow
postponed retry_at now r = record r {
  next_attempt_at = retry_at;
  tenure = none;
  version = suc r.version;
  updated_at = now * 1_000;
}

module _ (host : Host) where
  -- The end of `scheduleRetry`: the attempt, its event, the release of the lease and the update.
  unfoldable pub store_retry :
      Database
      → RetryRow
      → RunEvent
      → (released : Fence) → RunRow
      → (now set_at : ℕ) → Committed (RunRow × RetryRow)
  unfolding authorize_event append_event insert_retry update_run run_from_row
  store_retry db retry event f row now set_at = do
    with_retry ← insert_retry db retry
    noted ← append_event host with_retry event
    released ← authorize_event host noted retry.run_id (lease_released f) now
    appended ← append_event host noted released
    updated ← update_run appended set_at retry.run_id (postponed retry.retry_at now)
    result ← run_from_row host (postponed retry.retry_at now row)
    returns (updated, (result, retry))

  abbrev pub retry_row : RetryRequest → String → ℕ → ℕ → RetryRow
  retry_row q retry_id retry_at now = record {
    id = retry_id;
    run_id = q.run_id;
    operation = q.operation;
    attempt = q.attempt;
    retry_at = retry_at;
    created_at = now;
  }

  unfoldable pub schedule_retry :
      (seen db : Database)
      → RetryRequest
      → (retry_id release_id : String) → (locked_at now set_at : ℕ) → Committed (RunRow × RetryRow)
  unfolding require_run_id lock_run_for_lease authorize_event store_retry
  schedule_retry seen db q retry_id release_id locked_at now set_at = do
    run_id ← require_run_id q.run_id
    ensure (leb 1 q.attempt && leb q.attempt 3) type_error
    let retry_at = now + delay_of q.attempt
    at ← iso_string host now
    retry_text ← iso_string host retry_at
    event ← authorize_event host seen q.run_id (requested q at retry_text) now
    version ← current_version db q.run_id
    let guard : LeaseGuard = record {
      lease_id = q.lease_id;
      worker_id = q.worker_id;
      generation = q.generation;
      fencing_version = version;
    }
    row ← lock_run_for_lease host db q.run_id guard locked_at
    let f = stamp release_id q.run_id (suc q.sequence) at q.lease_id q.worker_id q.generation
    store_retry db (retry_row q retry_id retry_at now) event f row now set_at
