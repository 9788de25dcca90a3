-- ===== src/Store/Transiting.antt =====
-- packages/db/src/store.ts: `transition` keeps the invariant, also when other transactions ran
-- between its reading of the events and its lock.
use lineageguard.Base.{
  ℕ, ◌≡◌, refl, sym, ap, ◌∙◌, String, Bool, true, false, Option, none, [], ◌∷◌, ◌++◌, ◌==◌, leb,
  arith, ==_iff, if◌then◌else◌,
}
use lineageguard.Base.Results.{Outcome, returns, through, passed, returns-injective}
use mathlib.Core.Path.{subst, subst₂}
use lineageguard.Run.Status.{RunStatus, status_eq, is_terminal}
use lineageguard.Run.Events.{
  RunEvent, Fence, fence, status_changed, lease_acquired, lease_renewed, lease_released,
  lease_expired, retry_scheduled,
}
use lineageguard.Run.Stream.{StreamState, advance}
use lineageguard.Store.Rows.{
  Host, RunRow, EventRow, Database, StoreError, LeaseGuard, type_error, state_conflict,
  check_violation, update_rows,
}
use lineageguard.Store.Events.{next_sequence, row_of, event_from_row, authorize_event}
use lineageguard.Store.Leases.{
  max_safe_integer, require_run_id, update_run, iso_string, run_from_row, lock_run_for_lease,
}
use lineageguard.Store.Transition.{
  restamped, sql_allows, row_with, fence_matches, moved, Move, moved_row, has_prerequisites,
  transition_run, apply_event, transition,
}
use lineageguard.Store.Agree.{Mirrors, lease_of, Extends}
use lineageguard.Store.Replay.{authorize_event_sound}
use lineageguard.Store.Sound.{updated, Preserves, IsSound}
use lineageguard.Store.Effects.{
  update_run-returns, insert_event-returns, lock_run_for_lease-returns,
}
use lineageguard.Store.Preserve.{found-IsStored, IsSound-event}
use lineageguard.Store.Stale.{authorize_event-stale}

Mirrors-moved :
    (host : Host) (now : ℕ) (f : Fence) (from to : RunStatus) (d : Option String) (r : RunRow)
    (s : StreamState)
    → Mirrors host r s
    → Mirrors host (moved to now r) (advance s (status_changed f from to d))
unfolding advance
Mirrors-moved host now f from to d r s m = record {
  same_status = refl;
  same_lease = after (is_terminal to);
  same_generation = m.same_generation;
}
  where
    after :
        (b : Bool)
        → (if b then none else s.active_lease)
          ≡ lease_of host (if b then none else r.tenure) r.lease_generation
    after true = refl
    after false = m.same_lease

-- What `transition_run` leaves behind.
transition_run-returns :
    (host : Host) (db after : Database) (event : RunEvent) (m : Move)
    → transition_run host db event m ≡ returns after
    → (after.runs ≡ update_rows (fence event).run_id (moved m.target m.now) db.runs)
      × (after.run_events ≡ db.run_events ++ moved_row host event m.now ∷ [])
      × (row_with (fence event).run_id (λ r. r.version == m.expected_version) db.runs ≡ true)
unfolding transition_run
transition_run-returns host db after event m h =
    let f = fence event in
    let (v, h1) =
      passed (row_with f.run_id (λ r. r.version == m.expected_version) db.runs) check_violation h in
    let (_, h2) = passed (sql_allows m.origin m.target) check_violation h1 in
    let (_, h2p) = passed (has_prerequisites host db f.run_id m.target) check_violation h2 in
    let (_, h3) = passed (f.sequence == next_sequence db f.run_id) check_violation h2p in
    let (_, h4) =
      passed (row_with f.run_id (fence_matches f m.origin m.sql_at) db.runs) check_violation h3 in
    let (changed, u, h5) = through (update_run db m.set_at f.run_id (moved m.target m.now)) h4 in
    let (is_updated, _) =
      update_run-returns db changed m.set_at f.run_id (moved m.target m.now) u in
    let (is_after, _, _) =
      insert_event-returns host changed after (moved_row host event m.now) h5 in
    (
      ap (λ d. d.runs) is_after ∙ ap (λ d. d.runs) is_updated,
      ap (λ d. d.run_events) is_after
          ∙ ap (λ d. d.run_events ++ moved_row host event m.now ∷ []) is_updated,
      v,
    )

module _ (host : Host) (prerequisites : Database → RunStatus → Outcome StoreError (Unit {0}))
    (seen db after : Database) (version locked_at sql_at set_at now : ℕ)
    (result : RunRow × EventRow) (ext : Extends seen db)
    (sound : IsSound host db.runs db.run_events)
    (trip : host.iso.millis (host.to_iso now) ≡ now) where
  moved_row-row_of :
      (e event : RunEvent)
      → authorize_event host seen (fence e).run_id e now ≡ returns event
      → moved_row host e now ≡ row_of host e
  moved_row-row_of e event auth =
      let (_, _, text, _) = authorize_event_sound host seen (fence e).run_id e event now auth in
      ap (λ t. record (row_of host e) { created_at = t }) (sym (ap host.iso.millis text ∙ trip))

  apply_event-Preserves :
      (e : RunEvent)
      → authorize_event host seen (fence e).run_id e now ≡ returns e
      → apply_event host prerequisites db e version locked_at sql_at set_at now
        ≡ returns (after, result)
      → Preserves host db after
  unfolding apply_event
  apply_event-Preserves (status_changed f from to d) auth h =
      let e = status_changed f from to d in
      let guard : LeaseGuard = record {
        lease_id = f.lease_id;
        worker_id = f.worker_id;
        generation = f.generation;
        fencing_version = version;
      } in
      let (row, l, h1) = through (lock_run_for_lease host db f.run_id guard locked_at) h in
      let (_, h2) = passed (status_eq row.status from) state_conflict h1 in
      let (next, h3) = passed (f.sequence == next_sequence db f.run_id) state_conflict h2 in
      let (_, _, h4) = through (prerequisites db to) h3 in
      let move : Move = record {
        origin = from;
        target = to;
        expected_version = version;
        sql_at = sql_at;
        set_at = set_at;
        now = now;
      } in
      let (changed, c, h5) = through (transition_run host db e move) h4 in
      let (_, _, h6) = through (event_from_row host (moved_row host e now) e) h5 in
      let (_, _, h7) = through (run_from_row host (moved to now row)) h6 in
      let same : changed ≡ after = ap (λ x. x.0) (returns-injective h7) in
      let (runs_are, events_are, _) = transition_run-returns host db changed e move c in
      let stored =
        found-IsStored host db.runs db.run_events f.run_id row sound
          (lock_run_for_lease-returns host db f.run_id guard locked_at row l).0 in
      let current =
        authorize_event-stale host seen db f.run_id row e e now ext stored.agreed auth
          ((==_iff _ _).0 next) in
      subst (Preserves host db) same (record {
        touches = updated f.run_id (moved to now) (λ r. refl) (λ r. refl) runs_are;
        sound =
            subst₂ (IsSound host) (sym runs_are)
              (sym (events_are ∙ ap (λ r. db.run_events ++ r ∷ []) (moved_row-row_of e e auth)))
              (IsSound-event host db f.run_id row (moved to now) e e now stored current refl trip
                (λ r s _. Mirrors-moved host now f from to d r s) sound (λ r. refl));
        extends = record { more = moved_row host e now ∷ []; grown = events_are };
      })
  apply_event-Preserves (lease_acquired f until) auth h = cc
  apply_event-Preserves (lease_renewed f previous until) auth h = cc
  apply_event-Preserves (lease_released f) auth h = cc
  apply_event-Preserves (lease_expired f at) auth h = cc
  apply_event-Preserves (retry_scheduled f o n at why) auth h = cc

  pub transition-Preserves :
      (request : RunEvent)
      → transition host prerequisites seen db request version locked_at sql_at set_at now
        ≡ returns (after, result)
      → Preserves host db after
  unfolding transition
  transition-Preserves request h =
      let id = (fence request).run_id in
      let (_, _, h1) = through (require_run_id id) h in
      let (_, h2) = passed (leb version max_safe_integer) type_error h1 in
      let (at, _, h3) = through (iso_string host now) h2 in
      let (event, auth, h4) =
        through (authorize_event host seen id (restamped at request) now) h3 in
      let (same, _, _, _) =
        authorize_event_sound host seen id (restamped at request) event now auth in
      let run_id : (fence event).run_id ≡ id =
        ap (λ e. (fence e).run_id) same ∙ restamped-run_id at request in
      apply_event-Preserves event
        (subst₂ (λ i e. authorize_event host seen i e now ≡ returns event) (sym run_id) (sym same)
          auth)
        h4
    where
      restamped-run_id :
          (at : String) (e : RunEvent) → (fence (restamped at e)).run_id ≡ (fence e).run_id
      restamped-run_id at e = ground arith
