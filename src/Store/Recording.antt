-- ===== src/Store/Recording.antt =====
-- packages/db/src/store.ts: the operations that append records keep the invariant.
use lineageguard.Base.{
  ℕ, suc, ◌≡◌, refl, sym, ap, ◌∙◌, String, Bool, true, ◌&&◌, Option, [], ◌∷◌, ◌++◌, arith,
  if◌then◌else◌,
}
use lineageguard.Base.Results.{returns, through, passed, returns-injective}
use mathlib.Core.List.{append-nil}
use mathlib.Core.Path.{subst, subst₂}
use lineageguard.Run.Status.{status_eq, validating, validated, writeback_pending}
use lineageguard.Run.Stream.{StreamState}
use lineageguard.Store.Rows.{
  Host, ExecutionMode, live, mode_eq, RunRow, RecordTable, context_bundles, RecordRow, kind_eq,
  github_review, IntentRow, Database, state_conflict, check_violation, unique_violation,
  foreign_key_violation, LeaseGuard, has_run, update_rows,
}
use lineageguard.Store.Leases.{holds_guard, lock_run_for_lease}
use lineageguard.Store.Transition.{row_with}
use lineageguard.Store.Records.{
  bumped, raised, set_run, next_position, Appended, insert_record, canonical_record, append_record,
  append_positioned, append_impact_collection_result, save_decision, insert_validation_receipt,
  insert_intent,
}
use lineageguard.Store.Agree.{kept, Agrees, Mirrors}
use lineageguard.Store.Sound.{updated, Preserves, Rekeys, IsSound, IsSound-extend}
use lineageguard.Store.Effects.{find_row-has_run, lock_run_for_lease-returns}

-- An update of a run that leaves what its events determine.
pub record Recounts (host : Host) (change : RunRow → RunRow) : Type 0 where
  pub rekeys : Rekeys change
  pub bump : (r : RunRow) → (change r).version ≡ suc r.version
  pub same : (r : RunRow) (s : StreamState) → Mirrors host r s → Mirrors host (change r) s

Recounts-bumped : (host : Host) (now : ℕ) → Recounts host (bumped now)
Recounts-bumped host now = record {
  rekeys = λ r. refl;
  bump = λ r. refl;
  same = λ r s m. record {
    same_status = m.same_status;
    same_lease = m.same_lease;
    same_generation = m.same_generation;
  };
}

Recounts-raised : (host : Host) → Recounts host raised
Recounts-raised host = record {
  rekeys = λ r. refl;
  bump = λ r. refl;
  same = λ r s m. record {
    same_status = m.same_status;
    same_lease = m.same_lease;
    same_generation = m.same_generation;
  };
}

-- A transaction that only makes such an update in the tables of runs and events.
set_run-Preserves :
    (host : Host) (db stored : Database) (id : String) (change : RunRow → RunRow)
    → Recounts host change
    → IsSound host db.runs db.run_events
    → has_run db.runs id ≡ true
    → stored.runs ≡ db.runs
    → stored.run_events ≡ db.run_events
    → Preserves host db (set_run stored id change)
set_run-Preserves host db stored id change c sound known runs_are events_are =
    let updates : update_rows id change stored.runs ≡ update_rows id change db.runs =
      ap (update_rows id change) runs_are in
    let no_more : db.run_events ++ [] ≡ stored.run_events =
      append-nil db.run_events ∙ sym events_are in
    record {
      touches = updated id change c.rekeys c.bump updates;
      sound = subst₂ (IsSound host) (sym updates) no_more (
          IsSound-extend host db.run_events [] id change refl c.rekeys db.runs sound known (λ r _ a.
            subst (Agrees host (change r)) (sym (append-nil (kept db.run_events r.id))) (record {
              faithful = a.faithful;
              accepted = a.accepted;
              mirrors = c.same r _ a.mirrors;
            })));
      extends = record { more = []; grown = sym no_more };
    }

pub insert_record-returns :
    (host : Host) (db after : Database) (row : RecordRow)
    → insert_record host db row ≡ returns after
    → after ≡ record db { run_records = db.run_records ++ row ∷ [] }
unfolding insert_record
insert_record-returns host db after row h =
    let (_, h1) = passed _ check_violation h in
    let (_, h2) = passed _ unique_violation h1 in sym (returns-injective h2)

append_record-Preserves :
    (host : Host) (db after : Database) (table : RecordTable) (id run_id : String)
    (guard : LeaseGuard) (position : ℕ) (payload : String) (change : RunRow → RunRow)
    (result : Appended)
    → Recounts host change
    → IsSound host db.runs db.run_events
    → has_run db.runs run_id ≡ true
    → append_record host db table id run_id guard position payload change ≡ returns (after, result)
    → Preserves host db after
unfolding append_record
append_record-Preserves host db after table id run_id guard position payload change result c sound
      known h =
    let row : RecordRow = record {
      table = table;
      id = id;
      run_id = run_id;
      position = position;
      payload = payload;
    } in
    let (stored, s, h1) = through (insert_record host db row) h in
    let is_stored = insert_record-returns host db stored row s in
    subst (Preserves host db) (ap (λ x. x.0) (returns-injective h1)) (
      set_run-Preserves host db stored run_id change c sound known (ap (λ d. d.runs) is_stored)
        (ap (λ d. d.run_events) is_stored))

locked-has_run :
    (host : Host) (db : Database) (run_id : String) (guard : LeaseGuard) (at : ℕ) (row : RunRow)
    → lock_run_for_lease host db run_id guard at ≡ returns row
    → has_run db.runs run_id ≡ true
locked-has_run host db run_id guard at row l =
    (find_row-has_run run_id db.runs row
      (lock_run_for_lease-returns host db run_id guard at row l).0).1

module _ (host : Host) (db after : Database) (sound : IsSound host db.runs db.run_events) where
  pub append_positioned-Preserves :
      (parse : String → Option String) (max_bytes : ℕ) (table : RecordTable) (id run_id : String)
      (guard : LeaseGuard) (input : String) (locked_at now : ℕ) (result : Appended)
      → append_positioned host parse max_bytes db table id run_id guard input locked_at now
        ≡ returns (after, result)
      → Preserves host db after
  unfolding append_positioned
  append_positioned-Preserves parse max_bytes table id run_id guard input locked_at now result h =
      let (payload, _, h1) = through (canonical_record host parse max_bytes input) h in
      let (row, l, h2) = through (lock_run_for_lease host db run_id guard locked_at) h1 in
      append_record-Preserves host db after table id run_id guard (next_position db table run_id)
        payload (bumped now) result (Recounts-bumped host now) sound
        (locked-has_run host db run_id guard locked_at row l) h2

  pub append_impact_collection_result-Preserves :
      (parse : String → Option String) (collection_mode : String → ExecutionMode)
      (id run_id : String) (guard : LeaseGuard) (input : String) (locked_at now : ℕ)
      (result : Appended)
      → append_impact_collection_result host parse collection_mode db id run_id guard input
          locked_at now
        ≡ returns (after, result)
      → Preserves host db after
  unfolding append_impact_collection_result
  append_impact_collection_result-Preserves parse collection_mode id run_id guard input locked_at
        now result h =
      let (payload, _, h1) = through (canonical_record host parse 1_048_576 input) h in
      let (row, l, h2) = through (lock_run_for_lease host db run_id guard locked_at) h1 in
      let (_, h3) =
        passed (mode_eq row.execution_mode (collection_mode payload)) state_conflict h2 in
      append_record-Preserves host db after context_bundles id run_id guard
        (next_position db context_bundles run_id) payload (bumped now) result
        (Recounts-bumped host now) sound (locked-has_run host db run_id guard locked_at row l) h3

  pub save_decision-Preserves :
      (parse : String → Option String) (scope : RecordTable) (id run_id : String)
      (guard : LeaseGuard) (input : String) (locked_at : ℕ) (result : Appended)
      → save_decision host parse db scope id run_id guard input locked_at ≡ returns (after, result)
      → Preserves host db after
  unfolding save_decision
  save_decision-Preserves parse scope id run_id guard input locked_at result h =
      let (payload, _, h1) = through (canonical_record host parse 1_048_576 input) h in
      let (row, l, h2) = through (lock_run_for_lease host db run_id guard locked_at) h1 in
      append_record-Preserves host db after scope id run_id guard 1 payload raised result
        (Recounts-raised host) sound (locked-has_run host db run_id guard locked_at row l) h2

  pub insert_validation_receipt-Preserves :
      (is_bound : Database → String → Bool) (id run_id payload : String) (guard : LeaseGuard)
      (locked_at now : ℕ)
      → insert_validation_receipt host is_bound db id run_id payload guard locked_at now
        ≡ returns after
      → Preserves host db after
  unfolding insert_validation_receipt
  insert_validation_receipt-Preserves is_bound id run_id payload guard locked_at now h =
      let (current, h1) =
        passed
          (row_with run_id
            (λ r.
              mode_eq r.execution_mode live
              && status_eq r.status validating
              && holds_guard host guard locked_at r)
            db.runs)
          check_violation h in
      let known : has_run db.runs run_id ≡ true = ground (arith, current) in
      let (_, h2) = passed (is_bound db payload) check_violation h1 in
      let (_, h3) = passed _ check_violation h2 in
      subst (Preserves host db) (returns-injective h3) (
        set_run-Preserves host db _ run_id (bumped now) (Recounts-bumped host now) sound known refl
          refl)

  pub insert_intent-Preserves :
      (is_bound : Database → IntentRow → Bool) (row : IntentRow) (guard : LeaseGuard)
      (locked_at now : ℕ)
      → insert_intent host is_bound db row guard locked_at now ≡ returns after
      → Preserves host db after
  unfolding insert_intent
  insert_intent-Preserves is_bound row guard locked_at now h =
      let (current, h1) =
        passed
          (row_with row.run_id
            (λ r.
              mode_eq r.execution_mode live
              && status_eq r.status
                  (if kind_eq row.kind github_review then validated else writeback_pending)
              && holds_guard host guard locked_at r)
            db.runs)
          check_violation h in
      let known : has_run db.runs row.run_id ≡ true = ground (arith, current) in
      let (_, h2) = passed _ check_violation h1 in
      let (_, h3) = passed _ unique_violation h2 in
      let (_, h4) = passed _ foreign_key_violation h3 in
      subst (Preserves host db) (returns-injective h4) (
        set_run-Preserves host db _ row.run_id (bumped now) (Recounts-bumped host now) sound known
          refl refl)
