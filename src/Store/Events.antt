-- ===== src/Store/Events.antt =====
-- packages/db/src/store.ts: reading the events of a run, which authorizes each of them again, and
-- appending one. The trigger `enforce_contiguous_event` and the constraints of the table that an
-- insertion can meet are in `append_event`.
use lineageguard.Base.{
  ℕ, suc, String, Bool, not, ◌&&◌, Option, none, some, List, [], ◌∷◌, ◌++◌, ◌==◌, ◌===◌, leb,
  if◌then◌else◌, map, any, select,
}
use lineageguard.Base.Results.{Outcome, returns, throws, ensure, demand, ◌>>=◌, ◌>>◌}
use lineageguard.Run.Events.{RunEvent, fence}
use lineageguard.Run.Stream.{AuthError, authorize_run_event}
use lineageguard.Store.Rows.{
  Host, EventRow, type_ordinal, event_type, Database, StoreError, type_error, state_conflict,
  corrupt_data, unique_violation, check_violation, foreign_key_violation, refused, stored_for,
  events_of, has_run,
}

-- `COALESCE(MAX(sequence), -1) + 1`.
abbrev pub after_last : List EventRow → ℕ
after_last [] = 0
after_last (e ∷ es) =
    let rest = after_last es in if leb rest (suc e.sequence) then suc e.sequence else rest

unfoldable pub next_sequence : Database → String → ℕ
next_sequence db run_id = after_last (select (stored_for run_id) db.run_events)

-- `xs.at(-1)`.
abbrev pub last_of {ℓ} : {A : Type ℓ} → List A → Option A
last_of [] = none
last_of (x ∷ []) = some x
last_of (x ∷ y ∷ ys) = last_of (y ∷ ys)

-- What is thrown instead of an error of the gate.
abbrev pub rethrow {ℓ} :
    {A : Type ℓ} → (AuthError → StoreError) → Outcome AuthError A → Outcome StoreError A
rethrow error (returns a) = returns a
rethrow error (throws e) = throws (error e)

module _ (host : Host) where
  open host use {iso, to_iso, json_bytes}
  open iso use {millis}

  abbrev pub has_columns : EventRow → RunEvent → Bool
  has_columns row payload =
      (fence payload).event_id === row.id
      && (fence payload).run_id === row.run_id
      && (fence payload).sequence == row.sequence
      && type_ordinal (event_type payload) == type_ordinal row.type
      && millis (fence payload).occurred_at == row.created_at

  unfoldable pub event_from_row : EventRow → RunEvent → Outcome StoreError EventRow
  event_from_row row payload = do
    ensure (has_columns row payload) corrupt_data
    returns (record row { payload = payload })

  unfoldable pub authorize_rows : List RunEvent → List EventRow → Outcome StoreError (List EventRow)
  unfolding authorize_run_event event_from_row
  authorize_rows stream [] = returns []
  authorize_rows stream (row ∷ rows) = do
    authorized ←
        rethrow (λ _. corrupt_data)
          (authorize_run_event iso stream row.payload (to_iso row.created_at))
    payload ← demand (last_of authorized) corrupt_data
    event ← event_from_row row payload
    rest ← authorize_rows (stream ++ payload ∷ []) rows
    returns (event ∷ rest)

  unfoldable pub authorized_events : Database → String → Outcome StoreError (List EventRow)
  unfolding authorize_rows events_of
  authorized_events db run_id = authorize_rows [] (events_of db run_id)

  unfoldable pub authorize_event : Database → String → RunEvent → ℕ → Outcome StoreError RunEvent
  unfolding authorized_events authorize_run_event
  authorize_event db run_id proposed trusted_time = do
    current ← authorized_events db run_id
    stream ←
        rethrow refused
          (authorize_run_event iso (map (λ e. e.payload) current) proposed (to_iso trusted_time))
    demand (last_of stream) state_conflict

  abbrev pub row_of : RunEvent → EventRow
  row_of event = record {
    id = (fence event).event_id;
    run_id = (fence event).run_id;
    sequence = (fence event).sequence;
    type = event_type event;
    payload = event;
    created_at = millis (fence event).occurred_at;
  }

  -- `INSERT INTO run_events`.
  unfoldable pub insert_event : Database → EventRow → Outcome StoreError Database
  unfolding next_sequence
  insert_event db row = do
    ensure (row.sequence == next_sequence db row.run_id) check_violation
    ensure (leb row.sequence 299) check_violation
    ensure (not (any (λ e. e.id === row.id) db.run_events)) unique_violation
    ensure (has_run db.runs row.run_id) foreign_key_violation
    returns (record db { run_events = db.run_events ++ row ∷ [] })

  unfoldable pub append_event : Database → RunEvent → Outcome StoreError Database
  unfolding insert_event event_from_row
  append_event db event = do
    ensure (leb (json_bytes event) 131_072) type_error
    after ← insert_event db (row_of event)
    stored ← event_from_row (row_of event) event
    returns after
