-- ===== src/Store/Stale.antt =====
-- packages/db/src/store.ts: `transition` and `scheduleRetry` authorize their event before they lock
-- the run. When the event then has the next number, no other event has come between.
use lineageguard.Base.{
  ℕ, suc, ◌≡◌, refl, sym, ap, ◌∙◌, String, true, List, [], ◌∷◌, ◌++◌, arith, length, length-append,
}
use lineageguard.Base.Results.{returns, demand, ◌>>=◌}
use mathlib.Core.Path.{subst}
use mathlib.Core.List.{append-nil}
use lineageguard.Run.Events.{RunEvent, fence}
use lineageguard.Run.Stream.{start, is_stream, authorize_run_event}
use lineageguard.Run.Authorize.{replay-index}
use lineageguard.Store.Rows.{Host, RunRow, EventRow, Database, state_conflict, refused, events_of}
use lineageguard.Store.Events.{
  next_sequence, last_of, rethrow, authorize_rows, authorized_events, authorize_event,
}
use lineageguard.Store.Replay.{payloads, authorize_event_sound}
use lineageguard.Store.Agree.{
  kept, Agrees, Extends, events_of-kept, events_of-seen, after_last-Agrees, admitted_last,
}
use lineageguard.Store.Sound.{kept-append}

length-payloads : (es : List EventRow) → length (payloads es) ≡ length es
length-payloads [] = refl
length-payloads (e ∷ es) = ap suc (length-payloads es)

nothing_more : (xs ys : List EventRow) → length (xs ++ ys) ≡ length xs → ys ≡ []
nothing_more xs [] h = refl
nothing_more xs (y ∷ ys) h = absurd (omega (arith, length-append xs (y ∷ ys)))

authorize_event-same :
    (host : Host) (a b : Database) (id : String) (e : RunEvent) (now : ℕ)
    → events_of a id ≡ events_of b id
    → authorize_event host a id e now ≡ authorize_event host b id e now
unfolding authorize_event authorized_events
authorize_event-same host a b id e now same =
    ap
      (λ es. authorize_rows host [] es >>= λ current.
        rethrow refused (authorize_run_event host.iso (payloads current) e (host.to_iso now))
        >>= λ stream. demand (last_of stream) state_conflict)
      same

module _ (host : Host) (seen db : Database) (id : String) (row : RunRow) (e event : RunEvent)
    (now : ℕ) (ext : Extends seen db) (agreed : Agrees host row (kept db.run_events id))
    (auth : authorize_event host seen id e now ≡ returns event)
    (next : (fence e).sequence ≡ next_sequence db id) where
  split : kept db.run_events id ≡ kept seen.run_events id ++ kept ext.more id
  split = ap (λ es. kept es id) ext.grown ∙ kept-append seen.run_events ext.more id

  read : events_of seen id ≡ kept seen.run_events id
  read = events_of-seen host seen db row id (kept ext.more id) split agreed

  number : (fence e).sequence ≡ length (kept seen.run_events id)
  unfolding start
  number =
      let (_, longer, _, _) = authorize_event_sound host seen id e event now auth in
      let accepted : is_stream host.iso (payloads (kept seen.run_events id) ++ e ∷ []) ≡ true =
        subst (λ es. is_stream host.iso (payloads es ++ e ∷ []) ≡ true) read longer in
      let (_, regular, _) = admitted_last host (payloads (kept seen.run_events id)) e accepted in
      regular.contiguous
      ∙ omega (
        arith,
        replay-index start (payloads (kept seen.run_events id)),
        length-payloads (kept seen.run_events id),
      )

  same_length : length (kept db.run_events id) ≡ length (kept seen.run_events id)
  unfolding next_sequence
  same_length = sym (after_last-Agrees host row (kept db.run_events id) agreed) ∙ sym next ∙ number

  same_kept : kept db.run_events id ≡ kept seen.run_events id
  same_kept =
      let none_more =
        nothing_more (kept seen.run_events id) (kept ext.more id)
          (ap length (sym split) ∙ same_length) in
      split
      ∙ ap (λ z. kept seen.run_events id ++ z) none_more
      ∙ append-nil (kept seen.run_events id)

  -- The event that was authorized at the earlier database is authorized at the present one.
  pub authorize_event-stale : authorize_event host db id e now ≡ returns event
  authorize_event-stale =
      authorize_event-same host db seen id e now
        (events_of-kept host db row id agreed ∙ same_kept ∙ sym read)
      ∙ auth
