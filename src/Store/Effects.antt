-- ===== src/Store/Effects.antt =====
-- packages/db/src/store.ts: what each statement of a transaction leaves behind, when it succeeds.
use lineageguard.Base.{
  ℕ, ◌≡◌, sym, ap, ◌∙◌, String, true, not, ◌&&◌, ◌||◌, Option, none, some, List, [], ◌∷◌, ◌++◌,
  ◌==◌, ◌===◌, leb, any, all, arith, eq_iff, ==_iff, Bool-cases, inl, inr,
}
use lineageguard.Base.Results.{returns, demand, through, passed, returns-injective}
use lineageguard.Run.Events.{RunEvent, fence}
use lineageguard.Store.Rows.{
  Host, RunRow, EventRow, LeaseRow, Database, StoreError, type_error, check_violation,
  unique_violation, foreign_key_violation, not_found, lease_conflict, LeaseGuard, find_row, has_run,
  update_rows,
}
use lineageguard.Store.Events.{next_sequence, event_from_row, row_of, insert_event, append_event}
use lineageguard.Store.Leases.{
  update_run, unblocked, row_allowed, run_from_row, holds_guard, lock_run_for_lease,
}
use lineageguard.Store.Claims.{insert_lease, conclude}

-- A row that the query finds is stored under its key.
pub find_row-has_run :
    (id : String) (runs : List RunRow) (row : RunRow)
    → find_row id runs ≡ some row
    → (row.id ≡ id) × (has_run runs id ≡ true)
find_row-has_run id [] row h = cc
find_row-has_run id (r ∷ rs) row h = elim (Bool-cases (r.id === id)) [
  | inl e ↦
      let found : some r ≡ some row = rw e at h in
      (
        ap (λ o. elim o [ none ↦ id | some x ↦ x.id ]) (sym found) ∙ (eq_iff r.id id).0 e,
        ground arith,
      )
  | inr e ↦
      let later : find_row id rs ≡ some row = rw e at h in
      let (same, known) = find_row-has_run id rs row later in (same, ground arith)
]

pub demand-returns {ℓ} :
    {A : Type ℓ} (o : Option A) (problem : StoreError) (a : A)
    → demand o problem ≡ returns a
    → o ≡ some a
demand-returns none problem a h = cc
demand-returns (some b) problem a h = ap some (returns-injective h)

pub update_run-returns :
    (db after : Database) (at : ℕ) (id : String) (change : RunRow → RunRow)
    → update_run db at id change ≡ returns after
    → (after ≡ record db { runs = update_rows id change db.runs })
      × (all
            (λ r. not (r.id === id) || (unblocked db at r (change r) && row_allowed (change r)))
            db.runs
          ≡ true)
unfolding update_run
update_run-returns db after at id change h =
    let (t, e) =
      passed
        (all (λ r. not (r.id === id) || (unblocked db at r (change r) && row_allowed (change r)))
          db.runs)
        check_violation h in
    (sym (returns-injective e), t)

pub insert_lease-returns :
    (db after : Database) (row : LeaseRow)
    → insert_lease db row ≡ returns after
    → after ≡ record db { run_leases = db.run_leases ++ row ∷ [] }
unfolding insert_lease
insert_lease-returns db after row h = sym (
    returns-injective
      (passed (not (any (λ l. l.lease_id === row.lease_id) db.run_leases)) unique_violation h).1)

-- An inserted event has the next number, its run is stored, and its row comes last.
pub insert_event-returns :
    (host : Host) (db after : Database) (row : EventRow)
    → insert_event host db row ≡ returns after
    → (after ≡ record db { run_events = db.run_events ++ row ∷ [] })
      × (row.sequence ≡ next_sequence db row.run_id)
      × (has_run db.runs row.run_id ≡ true)
unfolding insert_event
insert_event-returns host db after row h =
    let (next, h1) = passed (row.sequence == next_sequence db row.run_id) check_violation h in
    let (_, h2) = passed (leb row.sequence 299) check_violation h1 in
    let (_, h3) = passed (not (any (λ x. x.id === row.id) db.run_events)) unique_violation h2 in
    let (known, h4) = passed (has_run db.runs row.run_id) foreign_key_violation h3 in
    (sym (returns-injective h4), (==_iff _ _).0 next, known)

pub append_event-returns :
    (host : Host) (db after : Database) (e : RunEvent)
    → append_event host db e ≡ returns after
    → (after ≡ record db { run_events = db.run_events ++ row_of host e ∷ [] })
      × ((fence e).sequence ≡ next_sequence db (fence e).run_id)
      × (has_run db.runs (fence e).run_id ≡ true)
unfolding append_event
append_event-returns host db after e h =
    let (_, h1) = passed (leb (host.json_bytes e) 131_072) type_error h in
    let (inserted, i, h2) = through (insert_event host db (row_of host e)) h1 in
    let (_, _, h3) = through (event_from_row host (row_of host e) e) h2 in
    insert_event-returns host db after (row_of host e) (i ∙ h3)

-- A locked run is stored, and the guard is that of its lease, which has not run out.
pub lock_run_for_lease-returns :
    (host : Host) (db : Database) (run_id : String) (guard : LeaseGuard) (at : ℕ) (row : RunRow)
    → lock_run_for_lease host db run_id guard at ≡ returns row
    → (find_row run_id db.runs ≡ some row) × (holds_guard host guard at row ≡ true)
unfolding lock_run_for_lease
lock_run_for_lease-returns host db run_id guard at row h =
    let (found, f, h1) = through (demand (find_row run_id db.runs) not_found) h in
    let (parsed, p, h2) = through (run_from_row host found) h1 in
    let (held, h3) = passed (holds_guard host guard at found) lease_conflict h2 in
    let same = returns-injective h3 in
    (
      demand-returns _ not_found found f ∙ ap some same,
      ap (holds_guard host guard at) (sym same) ∙ held,
    )

-- What the end of an operation leaves behind.
pub record Concluded (host : Host) (db : Database) (run_id : String) (change : RunRow → RunRow)
    (e : RunEvent) (row : RunRow) (after : Database) (result : RunRow) : Type 0 where
  pub same_runs : after.runs ≡ update_rows run_id change db.runs
  pub same_events : after.run_events ≡ db.run_events ++ row_of host e ∷ []
  pub next_number : (fence e).sequence ≡ next_sequence db (fence e).run_id
  pub same_result : run_from_row host (change row) ≡ returns result

pub conclude-Concluded :
    (host : Host) (db : Database) (now : ℕ) (run_id : String) (change : RunRow → RunRow)
    (e : RunEvent) (row : RunRow) (after : Database) (result : RunRow)
    → conclude host db now run_id change e row ≡ returns (after, result)
    → Concluded host db run_id change e row after result
unfolding conclude next_sequence
conclude-Concluded host db now run_id change e row after result h =
    let (updated, u, h1) = through (update_run db now run_id change) h in
    let (appended, p, h2) = through (append_event host updated e) h1 in
    let (parsed, q, h3) = through (run_from_row host (change row)) h2 in
    let (is_updated, _) = update_run-returns db updated now run_id change u in
    let (is_appended, next, _) = append_event-returns host updated appended e p in
    let both = returns-injective h3 in
    let whole : after ≡ record db {
      runs = update_rows run_id change db.runs;
      run_events = db.run_events ++ row_of host e ∷ [];
    } =
      ap (λ x. x.0) (sym both)
      ∙ is_appended
      ∙ ap {A = Database} {B = Database}
          (λ d. record d { run_events = d.run_events ++ row_of host e ∷ [] }) is_updated in
    record {
      same_runs = ap (λ d. d.runs) whole;
      same_events = ap (λ d. d.run_events) whole;
      next_number = next ∙ ap (λ d. next_sequence d (fence e).run_id) is_updated;
      same_result = q ∙ ap (λ x. returns x.1) both;
    }
