-- ===== src/Store/Retrying.antt =====
-- packages/db/src/store.ts: `scheduleRetry` keeps the invariant, also when other transactions ran
-- between its reading of the events and its lock.
use lineageguard.Base.{
  ℕ, ◌+◌, ◌≡◌, refl, sym, ap, ◌∙◌, String, not, ◌&&◌, ◌||◌, [], ◌∷◌, ◌++◌, ◌==◌, ◌===◌, leb, any,
}
use lineageguard.Base.Results.{returns, demand, through, passed, returns-injective}
use mathlib.Core.Path.{subst, subst₂}
use lineageguard.Run.Status.{status_eq}
use lineageguard.Run.Events.{
  RunEvent, Fence, fence, RetryOperation, lease_released, retry_scheduled, retry_delay, is_delayed,
}
use lineageguard.Run.Stream.{StreamState, advance, operation_eq, retry_states}
use lineageguard.Run.Admission.{Admits}
use lineageguard.Store.Rows.{
  Host, RunRow, RetryRow, Database, LeaseGuard, type_error, check_violation, unique_violation,
  find_row, update_rows,
}
use lineageguard.Store.Events.{next_sequence, row_of, authorize_event, append_event}
use lineageguard.Store.Leases.{
  require_run_id, update_run, iso_string, run_from_row, lock_run_for_lease,
}
use lineageguard.Store.Retry.{
  RetryRequest, requested, delay_of, current_version, insert_retry, postponed, store_retry,
  retry_row, schedule_retry,
}
use lineageguard.Store.Agree.{kept, Agrees, Mirrors, Extends}
use lineageguard.Store.Replay.{authorize_event_sound}
use lineageguard.Store.Sound.{updated, Preserves, Extends-trans, has_run-update, kept-snoc, IsSound}
use lineageguard.Store.Effects.{
  append_event-returns, update_run-returns, lock_run_for_lease-returns,
}
use lineageguard.Store.Preserve.{IsStored, found-IsStored, Agrees-event, IsSound-event}
use lineageguard.Store.Expiring.{update_rows-twice, authorize_event-events}
use lineageguard.Store.Stale.{authorize_event-stale}

abbrev same_row : RunRow → RunRow
same_row r = r

Mirrors-retried :
    (host : Host) (f : Fence) (o : RetryOperation) (n : ℕ) (at why : String) (r : RunRow)
    (s : StreamState)
    → Mirrors host r s
    → Mirrors host r (advance s (retry_scheduled f o n at why))
unfolding advance
Mirrors-retried host f o n at why r s m = record {
  same_status = m.same_status;
  same_lease = m.same_lease;
  same_generation = m.same_generation;
}

Mirrors-postponed :
    (host : Host) (retry_at now : ℕ) (f : Fence) (r : RunRow) (s : StreamState)
    → Mirrors host r s
    → Mirrors host (postponed retry_at now r) (advance s (lease_released f))
unfolding advance
Mirrors-postponed host retry_at now f r s m = record {
  same_status = m.same_status;
  same_lease = refl;
  same_generation = m.same_generation;
}

insert_retry-returns :
    (db after : Database) (row : RetryRow)
    → insert_retry db row ≡ returns after
    → after ≡ record db { retry_attempts = db.retry_attempts ++ row ∷ [] }
unfolding insert_retry
insert_retry-returns db after row h =
    let (run, _, h1) = through (demand (find_row row.run_id db.runs) check_violation) h in
    let (_, h2) =
      passed (any (status_eq run.status) (retry_states row.operation)) check_violation h1 in
    let (_, h3) =
      passed (is_delayed row.created_at (retry_delay row.attempt) row.retry_at) check_violation
        h2 in
    let (_, h4) =
      passed
        (not (
          any
            (λ r.
              r.id === row.id
              || (r.run_id === row.run_id
                  && operation_eq r.operation row.operation
                  && r.attempt == row.attempt))
            db.retry_attempts))
        unique_violation h3 in
    sym (returns-injective h4)

retry_noted :
    (host : Host) (db with_retry noted : Database) (retry : RetryRow) (e event : RunEvent)
    → event ≡ e
    → insert_retry db retry ≡ returns with_retry
    → append_event host with_retry event ≡ returns noted
    → (noted.runs ≡ db.runs)
      × (noted.run_events ≡ db.run_events ++ row_of host e ∷ [])
      × ((fence e).sequence ≡ next_sequence db (fence e).run_id)
unfolding next_sequence
retry_noted host db with_retry noted retry e event same i p =
    let (is_noted, next, _) = append_event-returns host with_retry noted event p in
    let inserted = insert_retry-returns db with_retry retry i in
    (
      ap (λ d. d.runs) is_noted ∙ ap (λ d. d.runs) inserted,
      ap (λ d. d.run_events) is_noted
          ∙ ap (λ d. d.run_events ++ row_of host event ∷ []) inserted
          ∙ ap (λ x. db.run_events ++ row_of host x ∷ []) same,
      subst (λ x. (fence x).sequence ≡ next_sequence db (fence x).run_id) same
          (next ∙ ap (λ d. next_sequence d (fence event).run_id) inserted),
    )

-- A retry and the release behind it, both authorized where they stand.
module _ (host : Host) (db noted appended after : Database) (row : RunRow) (id : String)
    (f g : Fence) (o : RetryOperation) (n : ℕ) (at why : String) (event released : RunEvent)
    (retry_at now set_at : ℕ) (sound : IsSound host db.runs db.run_events)
    (stored : IsStored host db.runs db.run_events id row)
    (trip : host.iso.millis (host.to_iso now) ≡ now) (own : f.run_id ≡ id) (own' : g.run_id ≡ id)
    (auth : authorize_event host db id (retry_scheduled f o n at why) now ≡ returns event)
    (same_runs : noted.runs ≡ db.runs)
    (same_events : noted.run_events
      ≡ db.run_events ++ row_of host (retry_scheduled f o n at why) ∷ [])
    (auth' : authorize_event host noted id (lease_released g) now ≡ returns released)
    (appended_is : append_event host noted released ≡ returns appended)
    (after_is : update_run appended set_at id (postponed retry_at now) ≡ returns after) where
  retry-Preserves : Preserves host db after
  retry-Preserves =
      let e = retry_scheduled f o n at why in
      let first : (r : RunRow) (s : StreamState)
          → Admits host.iso s e
          → Mirrors host r s
          → Mirrors host (same_row r) (advance s e) =
        λ r s _. Mirrors-retried host f o n at why r s in
      let between = record noted { runs = update_rows id same_row db.runs } in
      let sound1 =
        IsSound-event host db id row same_row e event now stored auth own trip first sound
          (λ r. refl) in
      let agreed1 =
        Agrees-event host db id row same_row e event now stored auth own trip first row
          stored.agreed in
      let sound2 : IsSound host between.runs between.run_events =
        subst (IsSound host (update_rows id same_row db.runs)) (sym same_events) sound1 in
      let stored2 : IsStored host between.runs between.run_events id row = record {
        agreed =
            subst (λ es. Agrees host row (kept es id)) (sym same_events)
              (subst (Agrees host row) (sym (kept-snoc db.run_events (row_of host e) id own))
                agreed1);
        known = has_run-update id same_row db.runs id (λ r. refl) ∙ stored.known;
      } in
      let auth2 : authorize_event host between id (lease_released g) now ≡ returns released =
        authorize_event-events host noted (update_rows id same_row db.runs) id (lease_released g)
          now
        ∙ auth' in
      let whole =
        IsSound-event host between id row (postponed retry_at now) (lease_released g) released now
          stored2 auth2 own' trip (λ r s _. Mirrors-postponed host retry_at now g r s) sound2
          (λ r. refl) in
      let (released_is, _, _, _) =
        authorize_event_sound host noted id (lease_released g) released now auth' in
      let (is_appended, _, _) = append_event-returns host noted appended released appended_is in
      let (is_after, _) =
        update_run-returns appended after set_at id (postponed retry_at now) after_is in
      let once : after.runs ≡ update_rows id (postponed retry_at now) db.runs =
        ap (λ d. d.runs) is_after
        ∙ ap (λ d. update_rows id (postponed retry_at now) d.runs) is_appended
        ∙ ap (update_rows id (postponed retry_at now)) same_runs in
      let runs_are : after.runs
          ≡ update_rows id (postponed retry_at now) (update_rows id same_row db.runs) =
        once
        ∙ sym (
            update_rows-twice id (postponed retry_at now) same_row (λ r. refl) (λ r. refl)
              db.runs) in
      let events_are : after.run_events ≡ noted.run_events ++ row_of host (lease_released g) ∷ [] =
        ap (λ d. d.run_events) is_after
        ∙ ap (λ d. d.run_events) is_appended
        ∙ ap (λ x. noted.run_events ++ row_of host x ∷ []) released_is in
      record {
        touches = updated id (postponed retry_at now) (λ r. refl) (λ r. refl) once;
        sound = subst₂ (IsSound host) (sym runs_are) (sym events_are) whole;
        extends =
            Extends-trans db noted after (record { more = row_of host e ∷ []; grown = same_events })
              (record { more = row_of host (lease_released g) ∷ []; grown = events_are });
      }

store_retry-Preserves :
    (host : Host) (seen db after : Database) (retry : RetryRow) (f g : Fence) (o : RetryOperation)
    (n : ℕ) (text why : String) (event : RunEvent) (row : RunRow) (now set_at : ℕ)
    (result : RunRow × RetryRow)
    → Extends seen db
    → IsSound host db.runs db.run_events
    → IsStored host db.runs db.run_events retry.run_id row
    → host.iso.millis (host.to_iso now) ≡ now
    → f.run_id ≡ retry.run_id
    → g.run_id ≡ retry.run_id
    → authorize_event host seen retry.run_id (retry_scheduled f o n text why) now ≡ returns event
    → store_retry host db retry event g row now set_at ≡ returns (after, result)
    → Preserves host db after
unfolding store_retry
store_retry-Preserves host seen db after retry f g o n text why event row now set_at result ext
      sound stored trip own own' auth h =
    let (with_retry, i, h1) = through (insert_retry db retry) h in
    let (noted, p, h2) = through (append_event host with_retry event) h1 in
    let (released, auth', h3) =
      through (authorize_event host noted retry.run_id (lease_released g) now) h2 in
    let (appended, p', h4) = through (append_event host noted released) h3 in
    let (ended, u, h5) =
      through (update_run appended set_at retry.run_id (postponed retry.retry_at now)) h4 in
    let (parsed, _, h6) = through (run_from_row host (postponed retry.retry_at now row)) h5 in
    let same : ended ≡ after = ap (λ x. x.0) (returns-injective h6) in
    let (is_event, _, _, _) =
      authorize_event_sound host seen retry.run_id (retry_scheduled f o n text why) event now
        auth in
    let noted_is =
      retry_noted host db with_retry noted retry (retry_scheduled f o n text why) event is_event i
        p in
    let current =
      authorize_event-stale host seen db retry.run_id row (retry_scheduled f o n text why) event now
        ext stored.agreed auth (noted_is.2 ∙ ap (next_sequence db) own) in
    subst (Preserves host db) same (
      retry-Preserves host db noted appended ended row retry.run_id f g o n text why event released
        retry.retry_at now set_at sound stored trip own own' current noted_is.0 noted_is.1 auth' p'
        u)

pub schedule_retry-Preserves :
    (host : Host) (seen db after : Database) (q : RetryRequest) (retry_id release_id : String)
    (locked_at now set_at : ℕ) (result : RunRow × RetryRow)
    → Extends seen db
    → IsSound host db.runs db.run_events
    → host.iso.millis (host.to_iso now) ≡ now
    → schedule_retry host seen db q retry_id release_id locked_at now set_at
      ≡ returns (after, result)
    → Preserves host db after
unfolding schedule_retry
schedule_retry-Preserves host seen db after q retry_id release_id locked_at now set_at result ext
      sound trip h =
    let (run_id, _, h1) = through (require_run_id q.run_id) h in
    let (_, h2) = passed (leb 1 q.attempt && leb q.attempt 3) type_error h1 in
    let retry_at = now + delay_of q.attempt in
    let (at, _, h3) = through (iso_string host now) h2 in
    let (text, _, h4) = through (iso_string host retry_at) h3 in
    let (event, auth, h5) =
      through (authorize_event host seen q.run_id (requested q at text) now) h4 in
    let (version, _, h6) = through (current_version db q.run_id) h5 in
    let guard : LeaseGuard = record {
      lease_id = q.lease_id;
      worker_id = q.worker_id;
      generation = q.generation;
      fencing_version = version;
    } in
    let (row, l, h7) = through (lock_run_for_lease host db q.run_id guard locked_at) h6 in
    store_retry-Preserves host seen db after (retry_row host q retry_id retry_at now) _ _
      q.operation q.attempt text q.reason event row now set_at result ext sound
      (found-IsStored host db.runs db.run_events q.run_id row sound
        (lock_run_for_lease-returns host db q.run_id guard locked_at row l).0)
      trip refl refl auth h7
