-- ===== src/Store/Leases.antt =====
-- packages/db/src/store.ts: `createRun`, and taking, renewing and giving up the lease of a run. An
-- operation is a transaction: it gives the database that it commits and what it returns, or it
-- throws and the database stays. Times are the readings of the database's clock, and the random
-- identifiers are arguments. Rows that other transactions lock are given by `is_locked`.
use lineageguard.Base.{
  ℕ, String, Bool, true, false, not, ◌&&◌, ◌||◌, Option, none, some, List, [], ◌∷◌, ◌++◌, ◌==◌,
  ◌===◌, ltb, leb, if◌then◌else◌, any, all,
}
use lineageguard.Base.Results.{Outcome, returns, throws, ensure, demand, ◌>>=◌, ◌>>◌}
use lineageguard.Base.Text.{is_between, hex_run, tagged_hex}
use lineageguard.Run.Status.{created, status_eq}
use lineageguard.Store.Rows.{
  Host, ExecutionMode, mode_eq, Tenure, RunRow, reserved, consumed, Reservation, Database,
  StoreError, type_error, range_error, not_found, lease_conflict, state_conflict,
  idempotency_conflict, corrupt_data, unique_violation, check_violation, LeaseGuard, find_row,
  has_run, update_rows,
}

-- `Number.MAX_SAFE_INTEGER`.
abbrev pub max_safe_integer : ℕ
max_safe_integer = 9_007_199_254_740_991

unfoldable pub require_run_id : String → Outcome StoreError String
unfolding tagged_hex
require_run_id id = ensure (tagged_hex "run_" 24 id) type_error >> returns id

abbrev pub require_fingerprint : String → Outcome StoreError String
require_fingerprint value = ensure (hex_run 64 value) type_error >> returns value

abbrev pub same_tenure : Option Tenure → Option Tenure → Bool
same_tenure none none = true
same_tenure (some a) (some b) = a.lease_id === b.lease_id && a.worker_id === b.worker_id
same_tenure _ _ = false

-- A reservation that can still be used, or that was used with an outcome not yet known.
abbrev pub is_active_invocation : Database → ℕ → Reservation → Bool
is_active_invocation db at r = elim r.state [
  | reserved ↦ ltb at r.invoke_by
  | consumed ↦
      not (any (λ x. x.intent_id === r.intent_id) db.effect_receipts)
      && not (
          any
            (λ c. elim r.attempt_id [
              | none ↦ false
              | some attempt ↦ c.attempt_id === attempt && c.is_not_applied
            ])
            db.reconciliations)
]

unfoldable pub is_invoking : Database → ℕ → String → Bool
is_invoking db at run_id =
    any (λ r. r.run_id === run_id && is_active_invocation db at r) db.effect_reservations

-- The constraints of a row of `runs` that an update of a lease can meet.
abbrev pub row_allowed : RunRow → Bool
unfolding is_between
row_allowed r =
    leb r.lease_generation 1_000_000
    && elim r.tenure [ none ↦ true | some t ↦ is_between 1 256 t.worker_id ]

-- The trigger `runs_active_effect_invocation`.
abbrev pub unblocked : Database → ℕ → RunRow → RunRow → Bool
unblocked db at old new =
    not (is_invoking db at old.id)
    || (status_eq new.status old.status
        && same_tenure new.tenure old.tenure
        && new.lease_generation == old.lease_generation)

-- `UPDATE runs SET … WHERE id=$1`, with the constraints and the trigger, which reads the clock at
-- `at`.
unfoldable pub update_run : Database → ℕ → String → (RunRow → RunRow) → Outcome StoreError Database
unfolding is_invoking
update_run db at id change = do
  ensure
      (all (λ r. not (r.id === id) || (unblocked db at r (change r) && row_allowed (change r)))
        db.runs)
      check_violation
  returns (record db { runs = update_rows id change db.runs })

-- `mapPostgresError`.
abbrev pub map_postgres_error : StoreError → StoreError
map_postgres_error unique_violation = idempotency_conflict
map_postgres_error check_violation = state_conflict
map_postgres_error error = error

-- `catch (error) { throw mapPostgresError(error); }`.
abbrev pub caught {ℓ} : {A : Type ℓ} → Outcome StoreError A → Outcome StoreError A
caught (returns a) = returns a
caught (throws error) = throws (map_postgres_error error)

-- What a transaction commits, and what it returns.
abbrev pub Committed {ℓ} : Type ℓ → Type ℓ
Committed A = Outcome StoreError (Database × A)

module _ (host : Host) where
  open host use {iso, to_iso, last_date, parse_payload, payload_bytes, is_object, column_size}

  -- `codec.parse(payload)` for the payload of a row.
  unfoldable pub run_from_row : RunRow → Outcome StoreError RunRow
  unfolding require_run_id
  run_from_row row = do
    id ← require_run_id row.id
    payload ← demand (parse_payload row.payload) corrupt_data
    ensure (leb row.version max_safe_integer) state_conflict
    returns (record row { id = id; payload = payload })

  abbrev pub iso_string : ℕ → Outcome StoreError String
  iso_string at = ensure (leb at last_date) range_error >> returns (to_iso at)

  -- `at` is the reading of the clock in microseconds.
  abbrev pub new_row : String → String → String → ExecutionMode → String → ℕ → ℕ → RunRow
  new_row id request_key fingerprint mode payload next_attempt_at at = record {
    id = id;
    request_key = request_key;
    input_fingerprint = fingerprint;
    execution_mode = mode;
    status = created;
    payload = payload;
    version = 0;
    lease_generation = 0;
    next_attempt_at = next_attempt_at;
    tenure = none;
    created_at = at;
    updated_at = at;
  }

  abbrev pub find_request : String → List RunRow → Option RunRow
  find_request key [] = none
  find_request key (r ∷ rs) =
      let rest = find_request key rs in if r.request_key === key then some r else rest

  -- `canonical(codec, input, 1_048_576, "run payload")`.
  abbrev pub canonical_payload : String → Outcome StoreError String
  canonical_payload input = do
    parsed ← demand (parse_payload input) type_error
    ensure (leb (payload_bytes parsed) 1_048_576) type_error
    returns parsed

  abbrev pub same_request : RunRow → String → ExecutionMode → Bool
  same_request row fingerprint mode =
      row.input_fingerprint === fingerprint && mode_eq row.execution_mode mode

  -- The transaction of `createRun`: a stored run with the request key, or a new row.
  unfoldable pub insert_run : Database → RunRow → Option RunRow → Committed RunRow
  unfolding run_from_row is_between
  insert_run db row none = do
    ensure (is_between 1 512 row.request_key) check_violation
    ensure (is_object row.payload && leb (column_size row.payload) 1_048_576) check_violation
    ensure (not (has_run db.runs row.id)) unique_violation
    result ← run_from_row row
    returns (record db { runs = db.runs ++ row ∷ [] }, result)
  insert_run db row (some existing) = do
    ensure (same_request existing row.input_fingerprint row.execution_mode) idempotency_conflict
    result ← run_from_row existing
    returns (db, result)

  unfoldable pub create_run :
      Database
      → (id request_key fingerprint : String) → ExecutionMode
      → (payload : String) → (next_attempt_at at : ℕ) → Committed RunRow
  unfolding insert_run require_run_id hex_run
  create_run db id request_key fingerprint mode input next_attempt_at at = do
    checked ← require_fingerprint fingerprint
    run_id ← require_run_id id
    payload ← canonical_payload input
    caught (
        insert_run db (new_row run_id request_key fingerprint mode payload next_attempt_at at)
          (find_request request_key db.runs))

  abbrev pub holds_guard : LeaseGuard → ℕ → RunRow → Bool
  holds_guard guard at row = elim row.tenure [
    | none ↦ false
    | some t ↦
        t.lease_id === guard.lease_id
        && t.worker_id === guard.worker_id
        && row.lease_generation == guard.generation
        && row.version == guard.fencing_version
        && ltb at t.lease_expires_at
  ]

  unfoldable pub lock_run_for_lease : Database → String → LeaseGuard → ℕ → Outcome StoreError RunRow
  unfolding run_from_row
  lock_run_for_lease db run_id guard at = do
    row ← demand (find_row run_id db.runs) not_found
    parsed ← run_from_row row
    ensure (holds_guard guard at row) lease_conflict
    returns row
