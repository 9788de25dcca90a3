-- ===== src/Store/Records.antt =====
-- packages/db/src/store.ts: the operations that append records to a run and raise its version.
-- `appendPositioned`, `appendImpactCollectionResult` and `saveDecision` are whole transactions. Of
-- the transactions that store a validation and an intent, the SQL functions of migrations.ts that
-- change a run are here: what goes before them only reads and throws. What the payloads of those
-- two are compared with is an argument, `is_bound`, which only reads.
use lineageguard.Base.{
  ℕ, suc, ◌+◌, String, Bool, not, ◌&&◌, ◌||◌, Option, List, [], ◌∷◌, ◌++◌, ◌==◌, ◌===◌, leb, any,
  if◌then◌else◌,
}
use lineageguard.Base.Results.{Outcome, returns, ensure, demand, ◌>>=◌, ◌>>◌}
use lineageguard.Run.Status.{status_eq, validating, validated, writeback_pending}
use lineageguard.Store.Rows.{
  Host, ExecutionMode, live, mode_eq, RunRow, RecordTable, evidence_bundles, context_bundles,
  migration_candidates, baseline_decisions, grounded_decisions, RecordRow, ValidationRow, kind_eq,
  github_review, IntentRow, Database, StoreError, type_error, state_conflict, check_violation,
  unique_violation, foreign_key_violation, LeaseGuard, update_rows,
}
use lineageguard.Store.Leases.{Committed, holds_guard, lock_run_for_lease}
use lineageguard.Store.Transition.{row_with}

-- `SET version=version+1,updated_at=clock_timestamp()`, with a reading in microseconds, and `SET version=version+1`.
abbrev pub bumped : ℕ → RunRow → RunRow
bumped now r = record r { version = suc r.version; updated_at = now }

abbrev pub raised : RunRow → RunRow
raised r = record r { version = suc r.version }

-- These updates set no column that a trigger or a constraint on a run reads.
abbrev pub set_run : Database → String → (RunRow → RunRow) → Database
set_run db run_id change = record db { runs = update_rows run_id change db.runs }

-- The tables of the rows: the first component tells the table, the second the kind or the scope.
abbrev pub table_code : RecordTable → ℕ × ℕ
table_code evidence_bundles = (0, 0)
table_code context_bundles = (0, 1)
table_code migration_candidates = (1, 0)
table_code baseline_decisions = (2, 0)
table_code grounded_decisions = (2, 1)

abbrev pub same_kind : RecordTable → RecordTable → Bool
same_kind s t = (table_code s).0 == (table_code t).0 && (table_code s).1 == (table_code t).1

abbrev pub last_position : ℕ → List ℕ → ℕ
last_position top [] = top
last_position top (n ∷ ns) = last_position (if leb top n then n else top) ns

abbrev positions : RecordTable → String → List RecordRow → List ℕ
positions table run_id [] = []
positions table run_id (r ∷ rs) =
    let rest = positions table run_id rs in
    if same_kind r.table table && r.run_id === run_id then r.position ∷ rest else rest

-- `COALESCE(MAX(position),0)+1`.
unfoldable pub next_position : Database → RecordTable → String → ℕ
next_position db table run_id = suc (last_position 0 (positions table run_id db.run_records))

-- What an operation gives back; a decision has position 1 and does not give it back.
pub record Appended : Type 0 where
  pub id : String
  pub position : ℕ
  pub version : ℕ

module _ (host : Host) where
  open host use {payload_bytes, is_object, column_size}

  -- The checks of a row.
  abbrev pub record_allowed : RecordTable → ℕ → String → Bool
  record_allowed evidence_bundles position payload =
      leb position 200 && leb (column_size payload) 1_048_576
  record_allowed context_bundles position payload =
      leb position 200 && leb (column_size payload) 1_048_576
  record_allowed migration_candidates position payload =
      leb position 20 && leb (column_size payload) 2_097_152
  record_allowed baseline_decisions position payload = position == 1
  record_allowed grounded_decisions position payload = position == 1

  unfoldable pub insert_record : Database → RecordRow → Outcome StoreError Database
  insert_record db row = do
    ensure (is_object row.payload && record_allowed row.table row.position row.payload)
        check_violation
    ensure
        (not (
          any
            (λ r.
              ((table_code r.table).0 == (table_code row.table).0 && r.id === row.id)
              || (same_kind r.table row.table
                  && r.run_id === row.run_id
                  && r.position == row.position))
            db.run_records))
        unique_violation
    returns (record db { run_records = db.run_records ++ row ∷ [] })

  -- `canonical(codec, input, maxBytes, …)`.
  abbrev pub canonical_record :
      (parse : String → Option String) (max_bytes : ℕ) → String → Outcome StoreError String
  canonical_record parse max_bytes input = do
    parsed ← demand (parse input) type_error
    ensure (leb (payload_bytes parsed) max_bytes) type_error
    returns parsed

  -- The row, the update of the run, and what is given back.
  unfoldable pub append_record :
      Database
      → RecordTable
      → (id run_id : String) → LeaseGuard
      → (position : ℕ) → (payload : String) → (RunRow → RunRow)
      → Committed Appended
  unfolding insert_record
  append_record db table id run_id guard position payload change = do
    stored ←
        insert_record db (record {
          table = table;
          id = id;
          run_id = run_id;
          position = position;
          payload = payload;
        })
    returns (
      set_run stored run_id change,
      record { id = id; position = position; version = guard.fencing_version + 1 },
    )

  unfoldable pub append_positioned :
      (parse : String → Option String) (max_bytes : ℕ)
      → Database
      → RecordTable
      → (id run_id : String) → LeaseGuard
      → (input : String) → (locked_at now : ℕ) → Committed Appended
  unfolding lock_run_for_lease next_position append_record
  append_positioned parse max_bytes db table id run_id guard input locked_at now = do
    payload ← canonical_record parse max_bytes input
    row ← lock_run_for_lease host db run_id guard locked_at
    append_record db table id run_id guard (next_position db table run_id) payload (bumped now)

  -- `collection_mode` is `collectionMode`; the trigger `run_bundles_execution_mode` repeats its test.
  unfoldable pub append_impact_collection_result :
      (parse : String → Option String) (collection_mode : String → ExecutionMode)
      → Database
      → (id run_id : String) → LeaseGuard
      → (input : String) → (locked_at now : ℕ) → Committed Appended
  unfolding lock_run_for_lease next_position append_record
  append_impact_collection_result parse collection_mode db id run_id guard input locked_at now = do
    payload ← canonical_record parse 1_048_576 input
    row ← lock_run_for_lease host db run_id guard locked_at
    ensure (mode_eq row.execution_mode (collection_mode payload)) state_conflict
    append_record db context_bundles id run_id guard (next_position db context_bundles run_id)
        payload (bumped now)

  unfoldable pub save_decision :
      (parse : String → Option String)
      → Database
      → (scope : RecordTable) → (id run_id : String) → LeaseGuard
      → (input : String) → (locked_at : ℕ) → Committed Appended
  unfolding lock_run_for_lease append_record
  save_decision parse db scope id run_id guard input locked_at = do
    payload ← canonical_record parse 1_048_576 input
    row ← lock_run_for_lease host db run_id guard locked_at
    append_record db scope id run_id guard 1 payload raised

  unfoldable pub next_validation : Database → String → ℕ
  next_validation db run_id = suc (last_position 0 (of_run db.validation_receipts))
    where
      of_run : List ValidationRow → List ℕ
      of_run [] = []
      of_run (v ∷ vs) =
          let rest = of_run vs in if v.run_id === run_id then v.position ∷ rest else rest

  -- The checks and the keys of a row of `validation_receipts`.
  abbrev pub validation_allowed : Database → ValidationRow → Bool
  validation_allowed db row =
      leb row.position 20
      && is_object row.payload
      && leb (column_size row.payload) 1_048_576
      && not (
          any (λ v. v.id === row.id || (v.run_id === row.run_id && v.position == row.position))
            db.validation_receipts)

  -- The SQL function `signer_insert_validation_receipt`.
  unfoldable pub insert_validation_receipt :
      (is_bound : Database → String → Bool)
      → Database
      → (id run_id payload : String) → LeaseGuard
      → (locked_at now : ℕ) → Outcome StoreError Database
  unfolding next_validation
  insert_validation_receipt is_bound db id run_id payload guard locked_at now = do
    let row : ValidationRow = record {
      id = id;
      run_id = run_id;
      position = next_validation db run_id;
      payload = payload;
    }
    ensure
        (row_with run_id
          (λ r.
            mode_eq r.execution_mode live
            && status_eq r.status validating
            && holds_guard host guard locked_at r)
          db.runs)
        check_violation
    ensure (is_bound db payload) check_violation
    ensure (validation_allowed db row) check_violation
    returns (
        set_run (record db { validation_receipts = db.validation_receipts ++ row ∷ [] }) run_id
          (bumped now))

  -- The SQL function `effect_insert_intent`.
  unfoldable pub insert_intent :
      (is_bound : Database → IntentRow → Bool)
      → Database
      → IntentRow
      → LeaseGuard
      → (locked_at now : ℕ) → Outcome StoreError Database
  insert_intent is_bound db row guard locked_at now = do
    ensure
        (row_with row.run_id
          (λ r.
            mode_eq r.execution_mode live
            && status_eq r.status
                (if kind_eq row.kind github_review then validated else writeback_pending)
            && holds_guard host guard locked_at r)
          db.runs)
        check_violation
    ensure (is_object row.input && is_bound db row) check_violation
    ensure
        (not (
          any
            (λ i.
              i.id === row.id
              || (kind_eq i.kind row.kind
                  && i.target === row.target
                  && i.idempotency_key === row.idempotency_key))
            db.effect_intents))
        unique_violation
    ensure (any (λ v. v.id === row.validation_receipt_id) db.validation_receipts)
        foreign_key_violation
    returns (
        set_run (record db { effect_intents = db.effect_intents ++ row ∷ [] }) row.run_id
          (bumped now))
