-- ===== src/Store/Replay.antt =====
-- packages/db/src/store.ts: reading a stored stream back. The loop of `authorizedEvents` passes the
-- gate once for each row; it gives back exactly what is stored when the stored stream is accepted.
use lineageguard.Base.{
  ℕ, ◌≡◌, refl, sym, ap, ◌∙◌, ◌↔◌, String, true, ◌||◌, some, List, [], ◌∷◌, ◌++◌, ◌==◌, map, All,
  arith, eq_iff, ==_iff,
}
use lineageguard.Base.Results.{Outcome, returns, throws, demand, through, passed, returns-injective}
use mathlib.Core.List.{append_assoc, append-nil}
use lineageguard.Run.Events.{RunEvent, fence}
use lineageguard.Run.Stream.{AuthError, is_none, is_stream, authorize_run_event}
use lineageguard.Run.Authorize.{authorize_run_event_iff, is_stream-prefix}
use lineageguard.Store.Rows.{
  Host, EventType, EventRow, type_ordinal, event_type, Database, StoreError, state_conflict,
  corrupt_data, refused, events_of,
}
use lineageguard.Store.Events.{
  last_of, rethrow, has_columns, event_from_row, authorize_rows, authorized_events, authorize_event,
}

abbrev pub payloads : List EventRow → List RunEvent
payloads = map λ e. e.payload

last_of-snoc {ℓ} : {A : Type ℓ} (xs : List A) (x : A) → last_of (xs ++ x ∷ []) ≡ some x
last_of-snoc [] x = refl
last_of-snoc (y ∷ []) x = refl
last_of-snoc (y ∷ z ∷ zs) x = last_of-snoc (z ∷ zs) x

rethrow-returns {ℓ} :
    {A : Type ℓ} (error : AuthError → StoreError) (o : Outcome AuthError A) (a : A)
    → rethrow error o ≡ returns a
    → o ≡ returns a
rethrow-returns error (returns b) a e = let same = returns-injective e in rw same refl
rethrow-returns error (throws p) a e = cc

module _ (host : Host) where
  open host use {iso, to_iso}
  open iso use {is_datetime, millis}

  -- The columns of a row say what its payload says, and its time is the one that the payload has.
  pub record IsFaithful (row : EventRow) : Type 0 where
    pub same_id : (fence row.payload).event_id ≡ row.id
    pub same_run : (fence row.payload).run_id ≡ row.run_id
    pub same_sequence : (fence row.payload).sequence ≡ row.sequence
    pub same_type : event_type row.payload ≡ row.type
    pub same_time : millis (fence row.payload).occurred_at ≡ row.created_at
    pub same_text : (fence row.payload).occurred_at ≡ to_iso row.created_at
    pub is_time : is_datetime (to_iso row.created_at) ≡ true

  type_ordinal-injective :
      (e : RunEvent) (t : EventType)
      → (type_ordinal (event_type e) == type_ordinal t) ≡ true
      → event_type e ≡ t
  type_ordinal-injective e t h = ground arith

  -- What the columns' check lets through.
  event_from_row-returns :
      (row event : EventRow) (p : RunEvent)
      → event_from_row host row p ≡ returns event
      → (has_columns host row p ≡ true) × (record row { payload = p } ≡ event)
  unfolding event_from_row
  event_from_row-returns row event p h =
      let (t, e) = passed (has_columns host row p) corrupt_data h in (t, returns-injective e)

  has_columns-IsFaithful :
      (row : EventRow)
      → has_columns host row row.payload ≡ true
      → (fence row.payload).occurred_at ≡ to_iso row.created_at
      → is_datetime (to_iso row.created_at) ≡ true
      → IsFaithful row
  has_columns-IsFaithful row h text time = record {
    same_id = ground (arith, eq_iff (fence row.payload).event_id row.id);
    same_run = ground (arith, eq_iff (fence row.payload).run_id row.run_id);
    same_sequence = ground arith;
    same_type = ground (arith, type_ordinal-injective row.payload row.type);
    same_time = ground arith;
    same_text = text;
    is_time = time;
  }

  pub event_from_row_complete :
      (row : EventRow) → IsFaithful row → event_from_row host row row.payload ≡ returns row
  unfolding event_from_row
  event_from_row_complete row f =
      rw
        (
          (eq_iff _ _).1 f.same_id,
          (eq_iff _ _).1 f.same_run,
          (==_iff _ _).1 f.same_sequence,
          (==_iff _ _).1 (ap type_ordinal f.same_type),
          (==_iff _ _).1 f.same_time,
        )
        refl

  -- The gate and the columns pass a row: it is faithful, and the stream with its event is accepted.
  row_passes :
      (stream authorized : List RunEvent) (row event : EventRow) (payload : RunEvent)
      → rethrow
          (λ _. corrupt_data)
          (authorize_run_event iso stream row.payload (to_iso row.created_at))
        ≡ returns authorized
      → demand (last_of authorized) corrupt_data ≡ returns payload
      → event_from_row host row payload ≡ returns event
      → IsFaithful row
        × (payload ≡ row.payload)
        × (event ≡ row)
        × (is_stream iso (stream ++ row.payload ∷ []) ≡ true)
  row_passes stream authorized row event payload g l e =
      let (time, text, accepted, whole) =
        (authorize_run_event_iff iso stream row.payload (to_iso row.created_at) authorized).0
          (rethrow-returns (λ _. corrupt_data) _ authorized g) in
      let last : demand (last_of (stream ++ row.payload ∷ [])) corrupt_data ≡ returns payload =
        rw (← whole) l in
      let same : row.payload ≡ payload =
        returns-injective (rw (last_of-snoc stream row.payload) at last) in
      let (columns, event_is) = event_from_row-returns row event payload e in
      (
        has_columns-IsFaithful row (rw same columns) text time,
        sym same,
        sym event_is ∙ ap (λ p. record row { payload = p }) (sym same),
        accepted,
      )

  abbrev pub IsAccepted : List RunEvent → Type 0
  IsAccepted events = (is_none events || is_stream iso events) ≡ true

  is_accepted :
      (xs : List RunEvent) (y : RunEvent) (ys : List RunEvent)
      → IsAccepted (xs ++ y ∷ ys)
      → is_stream iso (xs ++ y ∷ ys) ≡ true
  is_accepted [] y ys h = h
  is_accepted (x ∷ xs) y ys h = h

  pub accept : (xs : List RunEvent) → is_stream iso xs ≡ true → IsAccepted xs
  accept [] h = refl
  accept (x ∷ xs) h = h

  accept-prefix :
      (xs : List RunEvent) (y : RunEvent) (ys : List RunEvent)
      → is_stream iso (xs ++ y ∷ ys) ≡ true
      → is_stream iso (xs ++ y ∷ []) ≡ true
  accept-prefix [] y ys h = is_stream-prefix iso y [] ys h
  accept-prefix (x ∷ xs) y ys h =
      is_stream-prefix iso x (xs ++ y ∷ []) ys (rw (append_assoc xs (y ∷ []) ys) h)

  authorize_rows_sound :
      (stream : List RunEvent) (rows events : List EventRow)
      → IsAccepted stream
      → authorize_rows host stream rows ≡ returns events
      → (events ≡ rows) × All IsFaithful rows × IsAccepted (stream ++ payloads rows)
  unfolding authorize_rows
  authorize_rows_sound stream [] events a h = (sym (returns-injective h), tt, rw (append-nil) a)
  authorize_rows_sound stream (row ∷ rows) events a h =
      let (authorized, g, h1) =
        through
          (rethrow (λ _. corrupt_data)
            (authorize_run_event iso stream row.payload (to_iso row.created_at)))
          h in
      let (payload, l, h2) = through (demand (last_of authorized) corrupt_data) h1 in
      let (event, e, h3) = through (event_from_row host row payload) h2 in
      let (rest, r, h4) = through (authorize_rows host (stream ++ payload ∷ []) rows) h3 in
      let (faithful, same, kept, accepted) = row_passes stream authorized row event payload g l e in
      let r' : authorize_rows host (stream ++ row.payload ∷ []) rows ≡ returns rest =
        ap (λ p. authorize_rows host (stream ++ p ∷ []) rows) (sym same) ∙ r in
      let (rest_is, all_faithful, whole) =
        authorize_rows_sound (stream ++ row.payload ∷ []) rows rest (accept _ accepted) r' in
      (
        let joined : event ∷ rest ≡ events = returns-injective h4 in cc,
        (faithful, all_faithful),
        rw (← append_assoc stream (row.payload ∷ []) (payloads rows)) whole,
      )

  authorize_rows_complete :
      (stream : List RunEvent) (rows : List EventRow)
      → All IsFaithful rows
      → IsAccepted (stream ++ payloads rows)
      → authorize_rows host stream rows ≡ returns rows
  unfolding authorize_rows
  authorize_rows_complete stream [] f a = refl
  authorize_rows_complete stream (row ∷ rows) (f, fs) a =
      let whole = is_accepted stream row.payload (payloads rows) a in
      let own = accept-prefix stream row.payload (payloads rows) whole in
      rw
        (
          (authorize_run_event_iff iso stream row.payload (to_iso row.created_at)
                (stream ++ row.payload ∷ [])).1
              (f.is_time, f.same_text, own, refl),
          last_of-snoc stream row.payload,
          event_from_row_complete row f,
          authorize_rows_complete (stream ++ row.payload ∷ []) rows fs
              (rw (append_assoc stream (row.payload ∷ []) (payloads rows)) (accept _ whole)),
        )
        refl

-- `authorizedEvents` gives back what is stored, and it does so exactly when every row says what its
-- payload says at the time that the payload has, and the stored events are none or an accepted
-- stream.
pub authorized_events_iff :
    (host : Host) (db : Database) (run_id : String) (events : List EventRow)
    → (authorized_events host db run_id ≡ returns events) ↔ (
        All (IsFaithful host) (events_of db run_id)
        × IsAccepted host (payloads (events_of db run_id))
        × (events ≡ events_of db run_id))
unfolding authorized_events
authorized_events_iff host db run_id events = (
  λ h.
      let (same, faithful, accepted) =
        authorize_rows_sound host [] (events_of db run_id) events refl h in
      (faithful, accepted, same),
  λ (faithful, accepted, same).
      rw same (authorize_rows_complete host [] (events_of db run_id) faithful accepted),
)

-- What `authorizeEvent` returns is the proposed event, with which the stored stream is accepted, at
-- the trusted time.
pub authorize_event_sound :
    (host : Host) (db : Database) (run_id : String) (proposed event : RunEvent) (now : ℕ)
    → authorize_event host db run_id proposed now ≡ returns event
    → (event ≡ proposed)
      × (is_stream host.iso (payloads (events_of db run_id) ++ proposed ∷ []) ≡ true)
      × ((fence proposed).occurred_at ≡ host.to_iso now)
      × (host.iso.is_datetime (host.to_iso now) ≡ true)
unfolding authorize_event
authorize_event_sound host db run_id proposed event now h =
    let (current, c, h1) = through (authorized_events host db run_id) h in
    let (faithful, accepted, same) = (authorized_events_iff host db run_id current).0 c in
    let (stream, g, l) =
      through
        (rethrow refused
          (authorize_run_event host.iso (payloads current) proposed (host.to_iso now)))
        h1 in
    let (time, text, longer, whole) =
      (authorize_run_event_iff host.iso (payloads current) proposed (host.to_iso now) stream).0
        (rethrow-returns refused _ stream g) in
    let last : demand (last_of (payloads current ++ proposed ∷ [])) state_conflict ≡ returns event =
      rw (← whole) l in
    let is : proposed ≡ event =
      returns-injective (rw (last_of-snoc (payloads current) proposed) at last) in
    (sym is, rw (← same) longer, text, time)
