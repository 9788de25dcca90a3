-- ===== src/Store/Agree.antt =====
-- packages/db/src/store.ts: what the row of a run and its stored events have to do with each other.
-- The row is what the events leave behind, so the invariant says that replaying the events gives
-- the status, the lease and the generation of the row.
use lineageguard.Base.{
  ℕ, suc, ◌+◌, ◌≡◌, refl, sym, ◌∙◌, ◌≤◌, String, true, Option, none, some, List, [], ◌∷◌, ◌++◌, all,
  select, All, arith, length,
}
use lineageguard.Base.Order.{ordered, sort-ordered}
use mathlib.Core.Path.{subst}
use lineageguard.Run.Events.{RunEvent, fence}
use lineageguard.Run.Stream.{Lease, StreamState, start, advance, replay, is_stream}
use lineageguard.Run.Admission.{IsRegular, Admits, Trace}
use lineageguard.Run.Life.{is_stream_sound, Trace-append}
use lineageguard.Store.Rows.{
  Host, Tenure, RunRow, EventRow, Database, stored_for, sequence_le, events_of,
}
use lineageguard.Store.Events.{after_last}
use lineageguard.Store.Replay.{payloads, IsFaithful, IsAccepted}

-- The rows of the events of a run, in the order of their insertion.
abbrev pub kept : List EventRow → String → List EventRow
kept events run_id = select (stored_for run_id) events

abbrev Numbered : ℕ → List EventRow → Type 0
Numbered n [] = Unit
Numbered n (e ∷ es) = (e.sequence ≡ n) × Numbered (suc n) es

all-Numbered :
    (x : EventRow) (n : ℕ) (es : List EventRow)
    → suc x.sequence ≤ n
    → Numbered n es
    → all (sequence_le x) es ≡ true
all-Numbered x n [] h k = refl
all-Numbered x n (e ∷ es) h (k, ks) = ground (arith, all-Numbered x (suc n) es)

ordered-Numbered : (n : ℕ) (es : List EventRow) → Numbered n es → ordered sequence_le es ≡ true
ordered-Numbered n [] k = refl
ordered-Numbered n (e ∷ es) (k, ks) =
    ground (arith, all-Numbered e (suc n) es, ordered-Numbered (suc n) es ks)

after_last-Numbered :
    (n : ℕ) (e : EventRow) (es : List EventRow)
    → Numbered n (e ∷ es)
    → after_last (e ∷ es) ≡ n + length (e ∷ es)
after_last-Numbered n e [] (k, ks) = ground arith
after_last-Numbered n e (f ∷ fs) (k, ks) = ground (arith, after_last-Numbered (suc n) f fs ks)

pub replay-append :
    (s : StreamState) (xs ys : List RunEvent) → replay s (xs ++ ys) ≡ replay (replay s xs) ys
unfolding replay
replay-append s [] ys = refl
replay-append s (x ∷ xs) ys = replay-append (advance s x) xs ys

advance-index : (s : StreamState) (e : RunEvent) → (advance s e).index ≡ suc s.index
unfolding advance
advance-index s e = ground arith

module _ (host : Host) where
  open host use {iso, to_iso}
  open iso use {is_datetime, millis}

  -- The lease that a row stands for.
  abbrev pub lease_of : Option Tenure → ℕ → Option Lease
  lease_of none generation = none
  lease_of (some t) generation = some (record {
    id = t.lease_id;
    worker_id = t.worker_id;
    generation = generation;
    expires_at = to_iso t.lease_expires_at;
  })

  -- The row says what the replay of the events gives.
  pub record Mirrors (row : RunRow) (s : StreamState) : Type 0 where
    pub same_status : row.status ≡ s.current_status
    pub same_lease : s.active_lease ≡ lease_of row.tenure row.lease_generation
    pub same_generation : row.lease_generation ≡ s.highest_lease_generation

  pub record Agrees (row : RunRow) (events : List EventRow) : Type 0 where
    pub faithful : All (IsFaithful host) events
    pub accepted : IsAccepted host (payloads events)
    pub mirrors : Mirrors row (replay start (payloads events))

  Numbered-Trace :
      (run_id : String) (s : StreamState) (es : List EventRow)
      → All (IsFaithful host) es
      → Trace iso run_id s (payloads es)
      → Numbered s.index es
  Numbered-Trace run_id s [] f t = tt
  Numbered-Trace run_id s (e ∷ es) (f, fs) (regular, admitted, t) = (
    sym f.same_sequence ∙ regular.contiguous,
    let rest = Numbered-Trace run_id (advance s e.payload) es fs t in
        rw (advance-index s e.payload) at rest,
  )

  Agrees-Numbered : (row : RunRow) (es : List EventRow) → Agrees row es → Numbered 0 es
  unfolding start
  Agrees-Numbered row [] a = tt
  Agrees-Numbered row (e ∷ es) a =
      let (_, _, trace) = is_stream_sound iso (payloads (e ∷ es)) a.accepted in
      Numbered-Trace (fence e.payload).run_id start (e ∷ es) a.faithful trace

  pub after_last-Agrees :
      (row : RunRow) (es : List EventRow) → Agrees row es → after_last es ≡ length es
  after_last-Agrees row [] a = refl
  after_last-Agrees row (e ∷ es) a =
      omega (arith, after_last-Numbered 0 e es (Agrees-Numbered row (e ∷ es) a))

  -- the last event of an accepted stream, where the events before it leave the run
  pub admitted_last :
      (before : List RunEvent) (e : RunEvent)
      → is_stream iso (before ++ e ∷ []) ≡ true
      → (run_id : String) × IsRegular iso run_id (replay start before) (fence e)
        × Admits iso (replay start before) e
  unfolding replay
  admitted_last [] e h =
      let (_, _, trace) = is_stream_sound iso (e ∷ []) h in ((fence e).run_id, trace.0, trace.1)
  admitted_last (x ∷ xs) e h =
      let (_, _, trace) = is_stream_sound iso (x ∷ xs ++ e ∷ []) h in
      let (_, last) = (Trace-append iso (fence x).run_id start (x ∷ xs) (e ∷ [])).0 trace in
      ((fence x).run_id, last.0, last.1)

Numbered-prefix : (n : ℕ) (xs ys : List EventRow) → Numbered n (xs ++ ys) → Numbered n xs
Numbered-prefix n [] ys k = tt
Numbered-prefix n (x ∷ xs) ys (k, ks) = (k, Numbered-prefix (suc n) xs ys ks)

-- A database from which another one came by insertions: no event is ever changed or removed.
pub record Extends (seen db : Database) : Type 0 where
  pub more : List EventRow
  pub grown : db.run_events ≡ seen.run_events ++ more

-- An earlier database gives the events of a run in the order of their insertion too.
pub events_of-seen :
    (host : Host) (seen db : Database) (row : RunRow) (run_id : String) (later : List EventRow)
    → kept db.run_events run_id ≡ kept seen.run_events run_id ++ later
    → Agrees host row (kept db.run_events run_id)
    → events_of seen run_id ≡ kept seen.run_events run_id
unfolding events_of
events_of-seen host seen db row run_id later e a =
    sort-ordered sequence_le (kept seen.run_events run_id) (
      ordered-Numbered 0 (kept seen.run_events run_id) (
        Numbered-prefix 0 (kept seen.run_events run_id) later
          (subst (Numbered 0) e (Agrees-Numbered host row (kept db.run_events run_id) a))))

-- In the order of the query, the events of a run stand as they were inserted.
pub events_of-kept :
    (host : Host) (db : Database) (row : RunRow) (run_id : String)
    → Agrees host row (kept db.run_events run_id)
    → events_of db run_id ≡ kept db.run_events run_id
unfolding events_of
events_of-kept host db row run_id a = sort-ordered sequence_le (kept db.run_events run_id) (
    ordered-Numbered 0 (kept db.run_events run_id)
      (Agrees-Numbered host row (kept db.run_events run_id) a))
