-- ===== src/Store/Rows.antt =====
-- packages/db/src/store.ts and migrations.ts: the rows of the tables that the lease operations
-- read and write, and the errors. A database is the list of rows of each table, in the order of
-- their insertion. A `timestamptz` is its instant in milliseconds, like `Date`. The three lease
-- columns of a run are null together (a CHECK of the table), so they are one optional record.
-- What is not code of the repository is a field of `Host`: the timestamps, `Date.toISOString`, the
-- size of an event's JSON, and the codec that the caller gives for the payload of a run.
use lineageguard.Base.{
  ℕ, String, Bool, true, false, ◌&&◌, ◌||◌, Option, none, some, List, [], ◌∷◌, ◌==◌, ◌===◌, ltb,
  if◌then◌else◌, map, any, select,
}
use lineageguard.Base.Sort.{sort, string_le}
use lineageguard.Run.Status.{RunStatus}
use lineageguard.Run.Events.{
  IsoTime, RetryOperation, RunEvent, status_changed, lease_acquired, lease_renewed, lease_released,
  lease_expired, retry_scheduled,
}
use lineageguard.Run.Stream.{AuthError}

pub record Host : Type 0 where
  pub iso : IsoTime
  pub to_iso : ℕ → String
  pub last_date : ℕ
  pub json_bytes : RunEvent → ℕ
  pub parse_payload : String → Option String
  pub payload_bytes : String → ℕ
  pub is_object : String → Bool
  pub column_size : String → ℕ
  pub is_live_pass : String → Bool

pub data ExecutionMode : Type 0 where
  live verified_replay : ExecutionMode

abbrev pub mode_eq : ExecutionMode → ExecutionMode → Bool
mode_eq live live = true
mode_eq verified_replay verified_replay = true
mode_eq _ _ = false

pub record Tenure : Type 0 where
  pub lease_id : String
  pub worker_id : String
  pub lease_expires_at : ℕ

-- `created_at` and `updated_at` are in microseconds, the other times in milliseconds.
pub record RunRow : Type 0 where
  pub id : String
  pub request_key : String
  pub input_fingerprint : String
  pub execution_mode : ExecutionMode
  pub status : RunStatus
  pub payload : String
  pub version : ℕ
  pub lease_generation : ℕ
  pub next_attempt_at : ℕ
  pub tenure : Option Tenure
  pub created_at : ℕ
  pub updated_at : ℕ

pub data EventType : Type 0 where
  run_status_changed run_lease_acquired run_lease_renewed : EventType
  run_lease_released run_lease_expired run_retry_scheduled : EventType

abbrev pub type_ordinal : EventType → ℕ
type_ordinal run_status_changed = 0
type_ordinal run_lease_acquired = 1
type_ordinal run_lease_renewed = 2
type_ordinal run_lease_released = 3
type_ordinal run_lease_expired = 4
type_ordinal run_retry_scheduled = 5

abbrev pub event_type : RunEvent → EventType
event_type (status_changed _ _ _ _) = run_status_changed
event_type (lease_acquired _ _) = run_lease_acquired
event_type (lease_renewed _ _ _) = run_lease_renewed
event_type (lease_released _) = run_lease_released
event_type (lease_expired _ _) = run_lease_expired
event_type (retry_scheduled _ _ _ _ _) = run_retry_scheduled

-- A row of an event; `EventRecord` has the same fields but for the columns that only constraints
-- read.
pub record EventRow : Type 0 where
  pub id : String
  pub run_id : String
  pub sequence : ℕ
  pub type : EventType
  pub payload : RunEvent
  pub created_at : ℕ

pub record LeaseRow : Type 0 where
  pub lease_id : String
  pub run_id : String
  pub worker_id : String
  pub generation : ℕ
  pub acquired_at : ℕ
  pub expires_at : ℕ

pub record RetryRow : Type 0 where
  pub id : String
  pub run_id : String
  pub operation : RetryOperation
  pub attempt : ℕ
  pub retry_at : ℕ
  pub created_at : ℕ

pub data ReservationState : Type 0 where
  reserved consumed : ReservationState

-- The columns of a reservation that the trigger on a run reads.
pub record Reservation : Type 0 where
  pub run_id : String
  pub intent_id : String
  pub attempt_id : Option String
  pub state : ReservationState
  pub invoke_by : ℕ

pub record Reconciliation : Type 0 where
  pub attempt_id : String
  pub is_not_applied : Bool

-- The tables of what an operation appends to a run: the two kinds of `run_bundles`,
-- `migration_candidates`, and the two scopes of `run_decisions`.
pub data RecordTable : Type 0 where
  evidence_bundles context_bundles migration_candidates : RecordTable
  baseline_decisions grounded_decisions : RecordTable

pub record RecordRow : Type 0 where
  pub table : RecordTable
  pub id : String
  pub run_id : String
  pub position : ℕ
  pub payload : String

pub record ValidationRow : Type 0 where
  pub id : String
  pub run_id : String
  pub position : ℕ
  pub payload : String

pub data EffectKind : Type 0 where
  github_review datahub_writeback : EffectKind

abbrev pub kind_eq : EffectKind → EffectKind → Bool
kind_eq github_review github_review = true
kind_eq datahub_writeback datahub_writeback = true
kind_eq _ _ = false

pub record IntentRow : Type 0 where
  pub id : String
  pub run_id : String
  pub kind : EffectKind
  pub target : String
  pub idempotency_key : String
  pub input_fingerprint : String
  pub input : String
  pub validation_receipt_id : String
  pub candidate_fingerprint : String
  pub artifact_set_fingerprint : String

-- The columns of a receipt that the statements on a run read.
pub record ReceiptRow : Type 0 where
  pub intent_id : String
  pub validation_receipt_id : String
  pub candidate_fingerprint : String
  pub artifact_set_fingerprint : String

pub record Database : Type 0 where
  pub runs : List RunRow
  pub run_events : List EventRow
  pub run_leases : List LeaseRow
  pub retry_attempts : List RetryRow
  pub effect_reservations : List Reservation
  pub effect_receipts : List ReceiptRow
  pub reconciliations : List Reconciliation
  pub run_records : List RecordRow
  pub validation_receipts : List ValidationRow
  pub effect_intents : List IntentRow

pub data StoreError : Type 0 where
  type_error range_error not_found lease_conflict state_conflict : StoreError
  idempotency_conflict corrupt_data : StoreError
  unique_violation check_violation foreign_key_violation : StoreError
  refused : AuthError → StoreError

pub record LeaseGuard : Type 0 where
  pub lease_id : String
  pub worker_id : String
  pub generation : ℕ
  pub fencing_version : ℕ

-- `ORDER BY sequence,id`.
abbrev pub sequence_le : EventRow → EventRow → Bool
sequence_le x y = ltb x.sequence y.sequence || (x.sequence == y.sequence && string_le x.id y.id)

abbrev pub stored_for : String → EventRow → Bool
stored_for run_id e = e.run_id === run_id

-- `SELECT * FROM run_events WHERE run_id=$1 ORDER BY sequence,id`.
unfoldable pub events_of : Database → String → List EventRow
unfolding sort string_le
events_of db run_id = sort sequence_le (select (stored_for run_id) db.run_events)

-- `SELECT * FROM runs WHERE id=$1`.
abbrev pub find_row : String → List RunRow → Option RunRow
find_row id [] = none
find_row id (r ∷ rs) = let rest = find_row id rs in if r.id === id then some r else rest

abbrev pub has_run : List RunRow → String → Bool
has_run runs id = any (λ r. r.id === id) runs

-- `UPDATE runs SET … WHERE id=$1`.
abbrev pub update_rows : String → (RunRow → RunRow) → List RunRow → List RunRow
update_rows id change = map λ r. if r.id === id then change r else r
