-- ===== src/Store/History.antt =====
-- packages/db/src/store.ts: sequences of transactions on the runs. A history is the list of the
-- databases that were committed, the latest first; an operation that authorizes before it locks
-- may have read any earlier one. Operations that throw commit nothing.
use lineageguard.Base.{ℕ, ◌≡◌, ap, String, Bool, Option, List, [], ◌∷◌}
use lineageguard.Base.Results.{Outcome, returns, throws}
use mathlib.Core.List.{Memᴰ}
use lineageguard.Run.Status.{RunStatus}
use lineageguard.Run.Events.{RunEvent}
use lineageguard.Store.Rows.{
  Host, ExecutionMode, RecordTable, IntentRow, Database, StoreError, LeaseGuard,
}
use lineageguard.Store.Leases.{Committed, create_run}
use lineageguard.Store.Claims.{claim_due, renew_lease, release_lease}
use lineageguard.Store.Retry.{RetryRequest, schedule_retry}
use lineageguard.Store.Transition.{transition}
use lineageguard.Store.Records.{
  append_positioned, append_impact_collection_result, save_decision, insert_validation_receipt,
  insert_intent,
}
use lineageguard.Store.Agree.{Extends}
use lineageguard.Store.Sound.{Preserves, IsSound}
use lineageguard.Store.Preserve.{renew_lease-Preserves, release_lease-Preserves}
use lineageguard.Store.Claiming.{claim_due-Preserves}
use lineageguard.Store.Retrying.{schedule_retry-Preserves}
use lineageguard.Store.Creating.{create_run-Preserves}
use lineageguard.Store.Transiting.{transition-Preserves}
use lineageguard.Store.Recording.{
  append_positioned-Preserves, append_impact_collection_result-Preserves, save_decision-Preserves,
  insert_validation_receipt-Preserves, insert_intent-Preserves,
}

-- The transactions that write a run or an event, with the random identifiers and the clock
-- readings.
pub data Command : Type 0 where
  create :
      (id key fingerprint : String) → ExecutionMode → (payload : String) → (next at : ℕ) → Command
  claim :
      (is_locked : String → Bool)
      → (expiry_id event_id lease_id worker_id : String) → (lease_millis due now set_at : ℕ)
      → Command
  renew :
      (run_id : String)
      → LeaseGuard
      → (event_id : String) → (lease_millis locked_at now set_at : ℕ) → Command
  release :
      (run_id : String) → LeaseGuard → (event_id : String) → (locked_at now set_at : ℕ) → Command
  retry : RetryRequest → (retry_id release_id : String) → (locked_at now set_at : ℕ) → Command
  move :
      (prerequisites : Database → RunStatus → Outcome StoreError (Unit {0}))
      → RunEvent
      → (version locked_at sql_at set_at now : ℕ) → Command
  append :
      (parse : String → Option String) (max_bytes : ℕ)
      → RecordTable
      → (id run_id : String) → LeaseGuard
      → (input : String) → (locked_at now : ℕ) → Command
  collect :
      (parse : String → Option String) (collection_mode : String → ExecutionMode)
      → (id run_id : String) → LeaseGuard
      → (input : String) → (locked_at now : ℕ) → Command
  decide :
      (parse : String → Option String)
      → (scope : RecordTable) → (id run_id : String) → LeaseGuard
      → (input : String) → (locked_at : ℕ) → Command
  sign :
      (is_bound : Database → String → Bool)
      → (id run_id payload : String) → LeaseGuard
      → (locked_at now : ℕ) → Command
  intend :
      (is_bound : Database → IntentRow → Bool)
      → IntentRow
      → LeaseGuard
      → (locked_at now : ℕ) → Command

-- A command that writes an event does so at a time that its timestamp gives back.
abbrev pub Timely : Host → Command → Type 0
Timely host (create _ _ _ _ _ _ _) = Unit
Timely host (claim _ _ _ _ _ _ _ now _) = host.iso.millis (host.to_iso now) ≡ now
Timely host (renew _ _ _ _ _ now _) = host.iso.millis (host.to_iso now) ≡ now
Timely host (release _ _ _ _ now _) = host.iso.millis (host.to_iso now) ≡ now
Timely host (retry _ _ _ _ now _) = host.iso.millis (host.to_iso now) ≡ now
Timely host (move _ _ _ _ _ _ now) = host.iso.millis (host.to_iso now) ≡ now
Timely host (append _ _ _ _ _ _ _ _ _) = Unit
Timely host (collect _ _ _ _ _ _ _ _) = Unit
Timely host (decide _ _ _ _ _ _ _) = Unit
Timely host (sign _ _ _ _ _ _ _) = Unit
Timely host (intend _ _ _ _ _) = Unit

-- The database that an operation commits.
abbrev pub database {ℓ} : {A : Type ℓ} → Committed A → Outcome StoreError Database
database (returns x) = returns x.0
database (throws e) = throws e

unfoldable pub execute : Host → (seen db : Database) → Command → Outcome StoreError Database
unfolding create_run claim_due renew_lease release_lease schedule_retry transition append_positioned
    append_impact_collection_result save_decision insert_validation_receipt insert_intent
execute host seen db (create id key fingerprint mode payload next at) =
    database (create_run host db id key fingerprint mode payload next at)
execute host seen db
      (claim is_locked expiry_id event_id lease_id worker_id lease_millis due now set_at) =
    database (
      claim_due host db is_locked expiry_id event_id lease_id worker_id lease_millis due now set_at)
execute host seen db (renew run_id guard event_id lease_millis locked_at now set_at) =
    database (renew_lease host db run_id guard event_id lease_millis locked_at now set_at)
execute host seen db (release run_id guard event_id locked_at now set_at) =
    database (release_lease host db run_id guard event_id locked_at now set_at)
execute host seen db (retry q retry_id release_id locked_at now set_at) =
    database (schedule_retry host seen db q retry_id release_id locked_at now set_at)
execute host seen db (move prerequisites e version locked_at sql_at set_at now) =
    database (transition host prerequisites seen db e version locked_at sql_at set_at now)
execute host seen db (append parse max_bytes table id run_id guard input locked_at now) =
    database (append_positioned host parse max_bytes db table id run_id guard input locked_at now)
execute host seen db (collect parse collection_mode id run_id guard input locked_at now) =
    database (
      append_impact_collection_result host parse collection_mode db id run_id guard input locked_at
        now)
execute host seen db (decide parse scope id run_id guard input locked_at) =
    database (save_decision host parse db scope id run_id guard input locked_at)
execute host seen db (sign is_bound id run_id payload guard locked_at now) =
    insert_validation_receipt host is_bound db id run_id payload guard locked_at now
execute host seen db (intend is_bound row guard locked_at now) =
    insert_intent host is_bound db row guard locked_at now

database-returns {ℓ} :
    {A : Type ℓ} (o : Committed A) (after : Database)
    → database o ≡ returns after
    → (a : A) × (o ≡ returns (after, a))
database-returns (returns (d, a)) after h =
    (a, ap (λ x. elim x [ throws e ↦ returns (d, a) | returns y ↦ returns (y, a) ]) h)
database-returns (throws e) after h = cc

-- A command that commits keeps the invariant (stored runs agree with their events, and no event is
-- without its run), only adds events, and touches at most one run, whose version it raises by one.
-- What it read before its lock may be any earlier database, and when it writes events, its clock
-- reading is one that its timestamp gives back.
pub execute-Preserves :
    (host : Host) (seen db after : Database) (c : Command)
    → Extends seen db
    → IsSound host db.runs db.run_events
    → Timely host c
    → execute host seen db c ≡ returns after
    → Preserves host db after
unfolding execute
execute-Preserves host seen db after (create id key fingerprint mode payload next at) ext sound trip
      h =
    let (r, h1) =
      database-returns (create_run host db id key fingerprint mode payload next at) after h in
    create_run-Preserves host db after id key fingerprint mode payload next at r sound h1
execute-Preserves host seen db after
      (claim is_locked expiry_id event_id lease_id worker_id lease_millis due now set_at) ext sound
      trip h =
    let (r, h1) =
      database-returns
        (claim_due host db is_locked expiry_id event_id lease_id worker_id lease_millis due now
          set_at)
        after h in
    claim_due-Preserves host db after is_locked expiry_id event_id lease_id worker_id lease_millis
      due now set_at r sound trip h1
execute-Preserves host seen db after (renew run_id guard event_id lease_millis locked_at now set_at)
      ext sound trip h =
    let (r, h1) =
      database-returns (renew_lease host db run_id guard event_id lease_millis locked_at now set_at)
        after h in
    renew_lease-Preserves host db after run_id guard event_id lease_millis locked_at now set_at r
      sound trip h1
execute-Preserves host seen db after (release run_id guard event_id locked_at now set_at) ext sound
      trip h =
    let (r, h1) =
      database-returns (release_lease host db run_id guard event_id locked_at now set_at) after h in
    release_lease-Preserves host db after run_id guard event_id locked_at now set_at r sound trip h1
execute-Preserves host seen db after (retry q retry_id release_id locked_at now set_at) ext sound
      trip h =
    let (r, h1) =
      database-returns (schedule_retry host seen db q retry_id release_id locked_at now set_at)
        after h in
    schedule_retry-Preserves host seen db after q retry_id release_id locked_at now set_at r ext
      sound trip h1
execute-Preserves host seen db after (move prerequisites e version locked_at sql_at set_at now) ext
      sound trip h =
    let (r, h1) =
      database-returns (transition host prerequisites seen db e version locked_at sql_at set_at now)
        after h in
    transition-Preserves host prerequisites seen db after version locked_at sql_at set_at now r ext
      sound trip e h1
execute-Preserves host seen db after
      (append parse max_bytes table id run_id guard input locked_at now) ext sound trip h =
    let (r, h1) =
      database-returns
        (append_positioned host parse max_bytes db table id run_id guard input locked_at now) after
        h in
    append_positioned-Preserves host db after sound parse max_bytes table id run_id guard input
      locked_at now r h1
execute-Preserves host seen db after
      (collect parse collection_mode id run_id guard input locked_at now) ext sound trip h =
    let (r, h1) =
      database-returns
        (append_impact_collection_result host parse collection_mode db id run_id guard input
          locked_at now)
        after h in
    append_impact_collection_result-Preserves host db after sound parse collection_mode id run_id
      guard input locked_at now r h1
execute-Preserves host seen db after (decide parse scope id run_id guard input locked_at) ext sound
      trip h =
    let (r, h1) =
      database-returns (save_decision host parse db scope id run_id guard input locked_at) after
        h in
    save_decision-Preserves host db after sound parse scope id run_id guard input locked_at r h1
execute-Preserves host seen db after (sign is_bound id run_id payload guard locked_at now) ext sound
      trip h =
    insert_validation_receipt-Preserves host db after sound is_bound id run_id payload guard
      locked_at now h
execute-Preserves host seen db after (intend is_bound row guard locked_at now) ext sound trip h =
    insert_intent-Preserves host db after sound is_bound row guard locked_at now h

pub data History (host : Host) : List Database → Type 0 where
  -- Nothing is stored yet.
  founded : (db : Database) → db.runs ≡ [] → db.run_events ≡ [] → History host (db ∷ [])
  -- A command commits; what it read before its lock is any database committed before.
  committed :
      (c : Command) (seen after db : Database) (past : List Database)
      → History host (db ∷ past)
      → Memᴰ seen (db ∷ past)
      → Timely host c
      → execute host seen db c ≡ returns after
      → History host (after ∷ db ∷ past)
  -- Any other transaction commits: none of them changes a run or an event.
  elsewhere :
      (after db : Database) (past : List Database)
      → History host (db ∷ past)
      → after.runs ≡ db.runs
      → after.run_events ≡ db.run_events
      → History host (after ∷ db ∷ past)
