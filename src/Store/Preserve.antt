-- ===== src/Store/Preserve.antt =====
-- packages/db/src/store.ts: `renewLease`, `releaseLease` and `claimDue` keep the invariant.
use lineageguard.Base.{
  ℕ, suc, ◌≡◌, refl, sym, String, true, ◌&&◌, none, some, List, [], ◌∷◌, ◌++◌, ◌===◌, ltb, leb, All,
  arith, eq_iff, Bool-cases, inl, inr,
}
use lineageguard.Base.Results.{returns, demand, through, passed, returns-injective}
use mathlib.Core.Path.{subst}
use lineageguard.Run.Events.{RunEvent, fence, lease_renewed, lease_released}
use lineageguard.Run.Stream.{StreamState, advance, is_stream}
use lineageguard.Run.Admission.{Admits}
use lineageguard.Store.Rows.{
  Host, RunRow, EventRow, Database, LeaseGuard, lease_conflict, type_error, range_error, find_row,
  has_run, update_rows,
}
use lineageguard.Store.Events.{next_sequence, row_of, authorize_event}
use lineageguard.Store.Leases.{max_safe_integer, iso_string, lock_run_for_lease}
use lineageguard.Store.Claims.{stamp, renewed, freed, renewal, conclude, renew_lease, release_lease}
use lineageguard.Store.Replay.{payloads, authorize_event_sound}
use lineageguard.Store.Agree.{kept, Agrees, Mirrors, events_of-kept}
use lineageguard.Store.Sound.{updated, Preserves, Rekeys, IsSound, IsSound-extend, Agrees-snoc}
use lineageguard.Store.Mirror.{Mirrors-freed, Mirrors-renewed}
use lineageguard.Store.Effects.{find_row-has_run, conclude-Concluded, lock_run_for_lease-returns}

found-Agrees :
    (host : Host) (events : List EventRow) (id : String) (runs : List RunRow) (row : RunRow)
    → All (λ r. Agrees host r (kept events r.id)) runs
    → find_row id runs ≡ some row
    → Agrees host row (kept events row.id)
found-Agrees host events id [] row a h = cc
found-Agrees host events id (r ∷ rs) row (a, rest) h = elim (Bool-cases (r.id === id)) [
  | inl e ↦
      let found : some r ≡ some row = rw e at h in
      subst (λ o. elim o [ none ↦ Unit {0} | some x ↦ Agrees host x (kept events x.id) ]) found a
  | inr e ↦ found-Agrees host events id rs row rest (rw e at h)
]

-- A row that is in the table, and that agrees with its events.
pub record IsStored (host : Host) (runs : List RunRow) (events : List EventRow) (id : String)
    (row : RunRow) : Type 0 where
  pub agreed : Agrees host row (kept events id)
  pub known : has_run runs id ≡ true

pub found-IsStored :
    (host : Host) (runs : List RunRow) (events : List EventRow) (id : String) (row : RunRow)
    → IsSound host runs events
    → find_row id runs ≡ some row
    → IsStored host runs events id row
found-IsStored host runs events id row sound f =
    let (same, known) = find_row-has_run id runs row f in
    record {
      agreed =
          subst (λ i. Agrees host row (kept events i)) same
            (found-Agrees host events id runs row sound.agree f);
      known = known;
    }

module _ (host : Host) (db : Database) (id : String) (row : RunRow) (change : RunRow → RunRow)
    (e event : RunEvent) (now : ℕ) (stored : IsStored host db.runs db.run_events id row)
    (auth : authorize_event host db id e now ≡ returns event) (own : (fence e).run_id ≡ id)
    (trip : host.iso.millis (host.to_iso now) ≡ now)
    (next : (r : RunRow) (s : StreamState)
      → Admits host.iso s e
      → Mirrors host r s
      → Mirrors host (change r) (advance s e)) where
  -- The row that mirrors the state behind the authorized event agrees with the longer stream.
  pub Agrees-event :
      (r : RunRow)
      → Agrees host r (kept db.run_events id)
      → Agrees host (change r) (kept db.run_events id ++ row_of host e ∷ [])
  Agrees-event r a =
      let (_, accepted, text, time) = authorize_event_sound host db id e event now auth in
      let read = events_of-kept host db row id stored.agreed in
      let longer : is_stream host.iso (payloads (kept db.run_events id) ++ e ∷ []) ≡ true =
        subst (λ es. is_stream host.iso (payloads es ++ e ∷ []) ≡ true) read accepted in
      Agrees-snoc host r (change r) (kept db.run_events id) e now a longer text time trip (next r _)

  -- An update that goes with one authorized event keeps the invariant.
  pub IsSound-event :
      IsSound host db.runs db.run_events
      → Rekeys change
      → IsSound host (update_rows id change db.runs) (db.run_events ++ row_of host e ∷ [])
  IsSound-event sound rekeys =
      IsSound-extend host db.run_events (row_of host e ∷ []) id change
        (ground (arith, eq_iff (fence e).run_id id)) rekeys db.runs sound stored.known
        (λ r key a.
          subst (λ i. Agrees host (change r) (kept db.run_events i ++ row_of host e ∷ [])) (sym key)
            (Agrees-event r (subst (λ i. Agrees host r (kept db.run_events i)) key a)))

pub iso_string-returns :
    (host : Host) (at : ℕ) (text : String)
    → iso_string host at ≡ returns text
    → text ≡ host.to_iso at
iso_string-returns host at text h =
    sym (returns-injective (passed (leb at host.last_date) range_error h).1)

-- An operation that ends with the event that it has authorized.
pub conclude-Preserves :
    (host : Host) (db after : Database) (now set_at : ℕ) (id : String) (change : RunRow → RunRow)
    (e event : RunEvent) (row result : RunRow)
    → IsSound host db.runs db.run_events
    → IsStored host db.runs db.run_events id row
    → (fence e).run_id ≡ id
    → host.iso.millis (host.to_iso now) ≡ now
    → Rekeys change
    → ((r : RunRow) → (change r).version ≡ suc r.version)
    → ((r : RunRow) (s : StreamState)
        → Admits host.iso s e
        → Mirrors host r s
        → Mirrors host (change r) (advance s e))
    → authorize_event host db id e now ≡ returns event
    → conclude host db set_at id change event row ≡ returns (after, result)
    → Preserves host db after
conclude-Preserves host db after now set_at id change e event row result sound stored own trip
      rekeys bump next auth h =
    let done = conclude-Concluded host db set_at id change event row after result h in
    let (same, _, _, _) = authorize_event_sound host db id e event now auth in
    record {
      touches = updated id change rekeys bump done.same_runs;
      sound =
          rw (done.same_runs, done.same_events, same)
            (IsSound-event host db id row change e event now stored auth own trip next sound
              rekeys);
      extends = record { more = row_of host event ∷ []; grown = done.same_events };
    }

pub release_lease-Preserves :
    (host : Host) (db after : Database) (run_id : String) (guard : LeaseGuard) (event_id : String)
    (locked_at now set_at : ℕ) (result : RunRow)
    → IsSound host db.runs db.run_events
    → host.iso.millis (host.to_iso now) ≡ now
    → release_lease host db run_id guard event_id locked_at now set_at ≡ returns (after, result)
    → Preserves host db after
unfolding release_lease
release_lease-Preserves host db after run_id guard event_id locked_at now set_at result sound trip
      h =
    let (row, l, h1) = through (lock_run_for_lease host db run_id guard locked_at) h in
    let (at, a, h2) = through (iso_string host now) h1 in
    let f =
      stamp event_id run_id (next_sequence db run_id) at guard.lease_id guard.worker_id
        guard.generation in
    let (event, auth, h3) = through (authorize_event host db run_id (lease_released f) now) h2 in
    conclude-Preserves host db after now set_at run_id (freed now) (lease_released f) event row
      result sound
      (found-IsStored host db.runs db.run_events run_id row sound
        (lock_run_for_lease-returns host db run_id guard locked_at row l).0)
      refl trip (λ r. refl) (λ r. refl) (λ r s _. Mirrors-freed host now f r s) auth h3

pub renew_lease-Preserves :
    (host : Host) (db after : Database) (run_id : String) (guard : LeaseGuard) (event_id : String)
    (lease_millis locked_at now set_at : ℕ) (result : RunRow)
    → IsSound host db.runs db.run_events
    → host.iso.millis (host.to_iso now) ≡ now
    → renew_lease host db run_id guard event_id lease_millis locked_at now set_at
      ≡ returns (after, result)
    → Preserves host db after
unfolding renew_lease
renew_lease-Preserves host db after run_id guard event_id lease_millis locked_at now set_at result
      sound trip h =
    let (_, h0) = passed (leb lease_millis max_safe_integer && ltb 0 lease_millis) type_error h in
    let (row, l, h1) = through (lock_run_for_lease host db run_id guard locked_at) h0 in
    let (held, _, h2) = through (demand row.tenure lease_conflict) h1 in
    let expires_at = renewal host now held.lease_expires_at lease_millis in
    let (at, _, h3) = through (iso_string host now) h2 in
    let (previous, _, h4) = through (iso_string host held.lease_expires_at) h3 in
    let (until, u, h5) = through (iso_string host expires_at) h4 in
    let f =
      stamp event_id run_id (next_sequence db run_id) at guard.lease_id guard.worker_id
        guard.generation in
    let (event, auth, h6) =
      through (authorize_event host db run_id (lease_renewed f previous until) now) h5 in
    conclude-Preserves host db after now set_at run_id (renewed expires_at now)
      (lease_renewed f previous until) event row result sound
      (found-IsStored host db.runs db.run_events run_id row sound
        (lock_run_for_lease-returns host db run_id guard locked_at row l).0)
      refl trip (λ r. refl) (λ r. refl)
      (λ r s.
        Mirrors-renewed host now expires_at until f previous r s
          (iso_string-returns host expires_at until u))
      auth h6
