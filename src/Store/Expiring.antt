-- ===== src/Store/Expiring.antt =====
-- packages/db/src/store.ts: the first half of `claimDue`, which closes the lease that has run out.
use lineageguard.Base.{
  ℕ, ◌≡◌, refl, sym, ap, ◌∙◌, String, Bool, true, false, Option, none, some, List, [], ◌∷◌, ◌++◌,
  ◌===◌, if◌then◌else◌,
}
use lineageguard.Base.Results.{returns, through, returns-injective}
use mathlib.Core.Path.{subst}
use mathlib.Core.List.{append-nil}
use lineageguard.Run.Events.{RunEvent, Fence, lease_expired}
use lineageguard.Run.Stream.{StreamState, advance}
use lineageguard.Run.Admission.{Admits}
use lineageguard.Store.Rows.{Host, Tenure, RunRow, EventRow, Database, update_rows, events_of}
use lineageguard.Store.Events.{row_of, authorize_event, append_event, authorized_events}
use lineageguard.Store.Leases.{iso_string}
use lineageguard.Store.Claims.{stamp, expire}
use lineageguard.Store.Agree.{Extends, kept, lease_of, Agrees, Mirrors}
use lineageguard.Store.Replay.{authorize_event_sound}
use lineageguard.Store.Sound.{Extends-refl, Rekeys, IsSound, IsSound-extend, kept-snoc}
use lineageguard.Store.Effects.{append_event-returns}
use lineageguard.Store.Preserve.{IsStored, Agrees-event, IsSound-event}

-- The row between the event that closes an expired lease and the new lease.
abbrev pub vacant : RunRow → RunRow
vacant r = record r { tenure = none }

Mirrors-vacant :
    (host : Host) (f : Fence) (at : String) (r : RunRow) (s : StreamState)
    → Mirrors host r s
    → Mirrors host (vacant r) (advance s (lease_expired f at))
unfolding advance
Mirrors-vacant host f at r s m = record {
  same_status = m.same_status;
  same_lease = refl;
  same_generation = m.same_generation;
}

module _ (id : String) (f g : RunRow → RunRow) (k : Rekeys g)
    (h : (r : RunRow) → f (g r) ≡ f r) where
  update-twice :
      (r : RunRow) (b : Bool)
      → (r.id === id) ≡ b
      → (if (if b then g r else r).id === id
          then f (if b then g r else r)
          else (if b then g r else r))
        ≡ (if b then f r else r)
  update-twice r true e =
      ap (λ i. if i === id then f (g r) else g r) (k r)
      ∙ ap (λ c. if c then f (g r) else g r) e
      ∙ h r
  update-twice r false e = ap (λ c. if c then f r else r) e

  -- The second of two updates of a run decides what stays.
  pub update_rows-twice :
      (runs : List RunRow) → update_rows id f (update_rows id g runs) ≡ update_rows id f runs
  update_rows-twice [] = refl
  update_rows-twice (r ∷ rs) =
      let first = update-twice r (r.id === id) refl in let rest = update_rows-twice rs in cc

-- The closed lease leaves a sound database, with the run vacant.
pub record Closed (host : Host) (db closed : Database) (row : RunRow) : Type 0 where
  pub same_runs : closed.runs ≡ db.runs
  pub sound : IsSound host (update_rows row.id vacant db.runs) closed.run_events
  pub agreed : Agrees host (vacant row) (kept closed.run_events row.id)
  pub grown : Extends db closed

Agrees-vacant :
    (host : Host) (row r : RunRow) (events : List EventRow)
    → row.tenure ≡ none
    → Agrees host row events
    → Agrees host r events
    → Agrees host (vacant r) events
Agrees-vacant host row r events e a b = record {
  faithful = b.faithful;
  accepted = b.accepted;
  mirrors = record {
    same_status = b.mirrors.same_status;
    same_lease = a.mirrors.same_lease ∙ ap (λ t. lease_of host t row.lease_generation) e;
    same_generation = b.mirrors.same_generation;
  };
}

module _ (host : Host) (db : Database) (row : RunRow) (event_id : String) (sequence now : ℕ)
    (sound : IsSound host db.runs db.run_events)
    (stored : IsStored host db.runs db.run_events row.id row)
    (trip : host.iso.millis (host.to_iso now) ≡ now) where
  expire-vacant : row.tenure ≡ none → Closed host db db row
  expire-vacant e = record {
    same_runs = refl;
    sound = subst (IsSound host (update_rows row.id vacant db.runs)) (append-nil db.run_events) (
        IsSound-extend host db.run_events [] row.id vacant refl (λ r. refl) db.runs sound
          stored.known
          (λ r key a. subst (Agrees host (vacant r)) (sym (append-nil (kept db.run_events r.id))) (
            Agrees-vacant host row r (kept db.run_events r.id) e
              (subst (λ i. Agrees host row (kept db.run_events i)) (sym key) stored.agreed) a)));
    agreed = Agrees-vacant host row row (kept db.run_events row.id) e stored.agreed stored.agreed;
    grown = Extends-refl db;
  }

  expire-held :
      (closed : Database) (f : Fence) (at : String) (event : RunEvent)
      → f.run_id ≡ row.id
      → authorize_event host db row.id (lease_expired f at) now ≡ returns event
      → append_event host db event ≡ returns closed
      → Closed host db closed row
  expire-held closed f at event own auth p =
      let (same, _, _, _) =
        authorize_event_sound host db row.id (lease_expired f at) event now auth in
      let (is, _, _) = append_event-returns host db closed event p in
      let runs_is : closed.runs ≡ db.runs = ap (λ d. d.runs) is in
      let events_is : closed.run_events ≡ db.run_events ++ row_of host (lease_expired f at) ∷ [] =
        ap (λ d. d.run_events) is ∙ ap (λ e. db.run_events ++ row_of host e ∷ []) same in
      let next : (r : RunRow) (s : StreamState)
          → Admits host.iso s (lease_expired f at)
          → Mirrors host r s
          → Mirrors host (vacant r) (advance s (lease_expired f at)) =
        λ r s _. Mirrors-vacant host f at r s in
      record {
        same_runs = runs_is;
        sound = subst (IsSound host (update_rows row.id vacant db.runs)) (sym events_is) (
            IsSound-event host db row.id row vacant (lease_expired f at) event now stored auth own
              trip next sound (λ r. refl));
        agreed =
            subst (λ es. Agrees host (vacant row) (kept es row.id)) (sym events_is)
              (subst (Agrees host (vacant row))
                (sym (kept-snoc db.run_events (row_of host (lease_expired f at)) row.id own))
                (Agrees-event host db row.id row vacant (lease_expired f at) event now stored auth
                  own trip next row stored.agreed));
        grown = record { more = row_of host (lease_expired f at) ∷ []; grown = events_is };
      }

  pub expire-Closed :
      (tenure : Option Tenure) (closed : Database) (next : ℕ)
      → row.tenure ≡ tenure
      → expire host db row tenure event_id sequence now ≡ returns (closed, next)
      → Closed host db closed row
  unfolding expire
  expire-Closed none closed next e h =
      let same : db ≡ closed = ap (λ x. x.0) (returns-injective h) in
      subst (λ d. Closed host db d row) same (expire-vacant e)
  expire-Closed (some t) closed next e h =
      let (at, _, h1) = through (iso_string host now) h in
      let f = stamp event_id row.id sequence at t.lease_id t.worker_id row.lease_generation in
      let (event, auth, h2) =
        through (authorize_event host db row.id (lease_expired f at) now) h1 in
      let (appended, p, h3) = through (append_event host db event) h2 in
      let same : appended ≡ closed = ap (λ x. x.0) (returns-injective h3) in
      subst (λ d. Closed host db d row) same (expire-held appended f at event refl auth p)

-- The gate reads only the events.
pub authorize_event-events :
    (host : Host) (db : Database) (runs : List RunRow) (id : String) (e : RunEvent) (now : ℕ)
    → authorize_event host (record db { runs = runs }) id e now ≡ authorize_event host db id e now
unfolding authorize_event authorized_events events_of
authorize_event-events host db runs id e now = refl
