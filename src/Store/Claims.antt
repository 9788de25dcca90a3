-- ===== src/Store/Claims.antt =====
-- packages/db/src/store.ts: `claimDue`, `renewLease` and `releaseLease`.
use lineageguard.Base.{
  ℕ, ◌*◌, suc, ◌+◌, String, Bool, true, not, ◌&&◌, ◌||◌, Option, none, some, List, [], ◌∷◌, ◌++◌,
  ◌==◌, ◌===◌, ltb, leb, if◌then◌else◌, any, select,
}
use lineageguard.Base.Results.{Outcome, returns, ensure, demand, ◌>>=◌, ◌>>◌}
use lineageguard.Base.Sort.{sort, string_le}
use lineageguard.Base.Text.{has_length}
use lineageguard.Run.Status.{is_terminal}
use lineageguard.Run.Events.{
  RunEvent, Fence, lease_acquired, lease_renewed, lease_released, lease_expired,
}
use lineageguard.Store.Rows.{
  Host, Tenure, RunRow, LeaseRow, Database, StoreError, type_error, lease_conflict,
  unique_violation, LeaseGuard,
}
use lineageguard.Store.Events.{next_sequence, authorize_event, append_event}
use lineageguard.Store.Leases.{
  max_safe_integer, update_run, Committed, run_from_row, iso_string, lock_run_for_lease,
}

-- The rows that the first query of `claimDue` looks for.
abbrev pub is_due : ℕ → RunRow → Bool
is_due at r =
    leb r.next_attempt_at at
    && not (is_terminal r.status)
    && elim r.tenure [ none ↦ true | some t ↦ leb t.lease_expires_at at ]

-- `ORDER BY next_attempt_at,created_at,id`.
abbrev pub due_le : RunRow → RunRow → Bool
due_le x y =
    ltb x.next_attempt_at y.next_attempt_at
    || (x.next_attempt_at == y.next_attempt_at
        && (ltb x.created_at y.created_at || (x.created_at == y.created_at && string_le x.id y.id)))

abbrev pub first_of {ℓ} : {A : Type ℓ} → List A → Option A
first_of [] = none
first_of (x ∷ xs) = some x

unfoldable pub next_due : Database → (String → Bool) → ℕ → Option RunRow
unfolding sort string_le
next_due db is_locked at =
    first_of (select (λ r. not (is_locked r.id)) (sort due_le (select (is_due at) db.runs)))

-- The fields that every event of the store has.
abbrev pub stamp : String → String → ℕ → String → String → String → ℕ → Fence
stamp event_id run_id sequence at lease_id worker_id generation = record {
  event_id = event_id;
  run_id = run_id;
  sequence = sequence;
  occurred_at = at;
  lease_id = lease_id;
  worker_id = worker_id;
  generation = generation;
}

-- The `UPDATE` of each operation.
abbrev pub claimed : String → String → ℕ → ℕ → ℕ → RunRow → RunRow
claimed lease_id worker_id generation expires_at now r = record r {
  tenure =
      some (record { lease_id = lease_id; worker_id = worker_id; lease_expires_at = expires_at });
  lease_generation = generation;
  version = suc r.version;
  updated_at = now * 1_000;
}

abbrev pub renewed : ℕ → ℕ → RunRow → RunRow
renewed expires_at now r = record r {
  tenure = elim r.tenure [
    | none ↦ none
    | some t ↦ some (record t { lease_expires_at = expires_at })
  ];
  version = suc r.version;
  updated_at = now * 1_000;
}

abbrev pub freed : ℕ → RunRow → RunRow
freed now r = record r { tenure = none; version = suc r.version; updated_at = now * 1_000 }

-- `INSERT INTO run_leases`.
unfoldable pub insert_lease : Database → LeaseRow → Outcome StoreError Database
insert_lease db row = do
  ensure (not (any (λ l. l.lease_id === row.lease_id) db.run_leases)) unique_violation
  returns (record db { run_leases = db.run_leases ++ row ∷ [] })

module _ (host : Host) where
  -- The end of each operation: the update of the run, the event, and the run as it then is.
  unfoldable pub conclude :
      Database → ℕ → String → (RunRow → RunRow) → RunEvent → RunRow → Committed RunRow
  unfolding update_run append_event run_from_row
  conclude db set_at run_id change event row = do
    updated ← update_run db set_at run_id change
    appended ← append_event host updated event
    result ← run_from_row host (change row)
    returns (appended, result)

  -- The expired lease of a claimed run is closed by an event; the next number is given back.
  unfoldable pub expire :
      Database → RunRow → Option Tenure → String → ℕ → ℕ → Outcome StoreError (Database × ℕ)
  unfolding authorize_event append_event
  expire db row none event_id sequence now = returns (db, sequence)
  expire db row (some t) event_id sequence now = do
    at ← iso_string host now
    let f = stamp event_id row.id sequence at t.lease_id t.worker_id row.lease_generation
    event ← authorize_event host db row.id (lease_expired f at) now
    closed ← append_event host db event
    returns (closed, suc sequence)

  -- The rest of `claimDue` for the run that it has found.
  unfoldable pub claim :
      Database
      → RunRow
      → (expiry_id event_id lease_id worker_id : String) → (lease_millis now set_at : ℕ)
      → Committed (Option RunRow)
  unfolding expire authorize_event next_sequence insert_lease conclude run_from_row
  claim db row expiry_id event_id lease_id worker_id lease_millis now set_at = do
    checked ← run_from_row host row
    (closed, sequence) ← expire db row row.tenure expiry_id (next_sequence db row.id) now
    let generation = suc row.lease_generation
    let expires_at = now + lease_millis
    at ← iso_string host now
    until ← iso_string host expires_at
    let f = stamp event_id row.id sequence at lease_id worker_id generation
    acquired ← authorize_event host closed row.id (lease_acquired f until) now
    leased ← insert_lease closed (record {
      lease_id = lease_id;
      run_id = row.id;
      worker_id = worker_id;
      generation = generation;
      acquired_at = now;
      expires_at = expires_at;
    })
    (concluded, result) ←
        conclude leased set_at row.id (claimed lease_id worker_id generation expires_at now)
          acquired row
    returns (concluded, some result)

  unfoldable pub claim_due :
      Database
      → (is_locked : String → Bool) → (expiry_id event_id lease_id worker_id : String)
      → (lease_millis due now set_at : ℕ) → Committed (Option RunRow)
  unfolding claim next_due has_length
  claim_due db is_locked expiry_id event_id lease_id worker_id lease_millis due now set_at = do
    ensure (has_length 1 160 worker_id) type_error
    ensure (leb lease_millis max_safe_integer && ltb 0 lease_millis) type_error
    elim (next_due db is_locked due) [
      | none ↦ returns (db, none)
      | some row ↦ claim db row expiry_id event_id lease_id worker_id lease_millis now set_at
    ]

  -- `Math.max(now, expiry) + leaseMillis`.
  abbrev pub renewal : ℕ → ℕ → ℕ → ℕ
  renewal now expiry lease_millis = (if leb now expiry then expiry else now) + lease_millis

  unfoldable pub renew_lease :
      Database
      → (run_id : String) → LeaseGuard
      → (event_id : String) → (lease_millis locked_at now set_at : ℕ) → Committed RunRow
  unfolding lock_run_for_lease authorize_event next_sequence conclude
  renew_lease db run_id guard event_id lease_millis locked_at now set_at = do
    ensure (leb lease_millis max_safe_integer && ltb 0 lease_millis) type_error
    row ← lock_run_for_lease host db run_id guard locked_at
    held ← demand row.tenure lease_conflict
    let expires_at = renewal now held.lease_expires_at lease_millis
    at ← iso_string host now
    previous ← iso_string host held.lease_expires_at
    until ← iso_string host expires_at
    let f =
        stamp event_id run_id (next_sequence db run_id) at guard.lease_id guard.worker_id
          guard.generation
    event ← authorize_event host db run_id (lease_renewed f previous until) now
    conclude db set_at run_id (renewed expires_at now) event row

  unfoldable pub release_lease :
      Database
      → (run_id : String) → LeaseGuard
      → (event_id : String) → (locked_at now set_at : ℕ) → Committed RunRow
  unfolding lock_run_for_lease authorize_event next_sequence conclude
  release_lease db run_id guard event_id locked_at now set_at = do
    row ← lock_run_for_lease host db run_id guard locked_at
    at ← iso_string host now
    let f =
        stamp event_id run_id (next_sequence db run_id) at guard.lease_id guard.worker_id
          guard.generation
    event ← authorize_event host db run_id (lease_released f) now
    conclude db set_at run_id (freed now) event row
