-- ===== src/Run/Authorize.antt =====
-- packages/domain/src/run.ts: `authorizeRunEvent`, the only gate through which a stream grows.
use lineageguard.Base.{
  suc, ◌+◌, ◌≡◌, refl, sym, ◌∙◌, ◌≢◌, ◌↔◌, String, true, ◌||◌, List, [], ◌∷◌, ◌++◌, arith, leb,
  le→leb, length, length-append, all, all-append, and-eq-true_iff, eq_iff,
}
use lineageguard.Base.Results.{returns}
use lineageguard.Run.Status.{is_terminal}
use lineageguard.Run.Events.{IsoTime, RunEvent, fence, event_shape}
use lineageguard.Run.Stream.{
  StreamState, start, advance, replay, is_none, is_stream, authorize_run_event,
}
use lineageguard.Run.Life.{IsLife, is_stream_sound, is_stream_complete, Trace-append}
use lineageguard.Run.Progress.{final_status}

advance-index : (s : StreamState) (e : RunEvent) → (advance s e).index ≡ suc s.index
unfolding advance
advance-index s e = ground arith

pub replay-index :
    (s : StreamState) (es : List RunEvent) → (replay s es).index ≡ length es + s.index
unfolding replay
replay-index s [] = omega arith
replay-index s (e ∷ es) = omega (arith, replay-index (advance s e) es, advance-index s e)

module _ (iso : IsoTime) where
  IsLife-prefix :
      (x : RunEvent) (xs ys : List RunEvent) → IsLife iso (x ∷ xs ++ ys) → IsLife iso (x ∷ xs)
  IsLife-prefix x xs ys (short, shape, trace) = (
    omega (arith, length-append {0} xs ys),
    ((and-eq-true_iff _ _).0 (sym (all-append (event_shape iso) (x ∷ xs) ys) ∙ shape)).0,
    ((Trace-append iso (fence x).run_id start (x ∷ xs) ys).0 trace).0,
  )

  -- What an accepted stream begins with is accepted.
  pub is_stream-prefix :
      (x : RunEvent) (xs ys : List RunEvent)
      → is_stream iso (x ∷ xs ++ ys) ≡ true
      → is_stream iso (x ∷ xs) ≡ true
  is_stream-prefix x xs ys h =
      is_stream_complete iso (x ∷ xs) (IsLife-prefix x xs ys (is_stream_sound iso (x ∷ xs ++ ys) h))

  -- the proposed event and the stream before it, when the longer stream is accepted
  is_stream-snoc :
      (current : List RunEvent) (p : RunEvent)
      → is_stream iso (current ++ p ∷ []) ≡ true
      → (leb (length current) 300 ≡ true)
        × (all (event_shape iso) current ≡ true)
        × ((is_none current || is_stream iso current) ≡ true)
        × (event_shape iso p ≡ true)
  is_stream-snoc [] p h =
      let (_, shape, _) = is_stream_sound iso (p ∷ []) h in
      (refl, refl, refl, ((and-eq-true_iff _ _).0 shape).0)
  is_stream-snoc (x ∷ xs) p h =
      let life = is_stream_sound iso (x ∷ xs ++ p ∷ []) h in
      let before = IsLife-prefix x xs (p ∷ []) life in
      let shapes = sym (all-append (event_shape iso) (x ∷ xs) (p ∷ [])) ∙ life.1 in
      let own = ((and-eq-true_iff _ _).0 shapes).1 in
      (
        le→leb (length (x ∷ xs)) 300 before.0,
        before.1,
        is_stream_complete iso (x ∷ xs) before,
        ((and-eq-true_iff _ _).0 own).0,
      )

-- The gate authorizes an event exactly when the trusted time is a timestamp, the event occurs at
-- that time and the stream with the event behind it is accepted; it returns that stream. So its
-- own checks of the current stream refuse nothing more.
pub authorize_run_event_iff :
    (iso : IsoTime) (current : List RunEvent) (proposed : RunEvent) (now : String)
    (stream : List RunEvent)
    → (authorize_run_event iso current proposed now ≡ returns stream) ↔ (
        (iso.is_datetime now ≡ true)
        × ((fence proposed).occurred_at ≡ now)
        × (is_stream iso (current ++ proposed ∷ []) ≡ true)
        × (stream ≡ current ++ proposed ∷ []))
unfolding authorize_run_event
authorize_run_event_iff iso current proposed now stream = (
  λ h. ground (arith, eq_iff (fence proposed).occurred_at now),
  λ h.
      let (short, shape, before, own) = is_stream-snoc iso current proposed h.2 in
      ground (arith, eq_iff (fence proposed).occurred_at now, short, shape, before, own),
)

-- After a terminal status the gate authorizes no event at all.
pub authorize_run_event-terminal :
    (iso : IsoTime) (current : List RunEvent) (proposed : RunEvent) (now : String)
    (stream : List RunEvent)
    → is_stream iso current ≡ true
    → is_terminal (final_status current) ≡ true
    → authorize_run_event iso current proposed now ≢ returns stream
unfolding final_status
authorize_run_event-terminal iso [] proposed now stream h t a = absurd (is_stream_sound iso [] h)
authorize_run_event-terminal iso (x ∷ xs) proposed now stream h t a =
    let (_, _, longer, _) = (authorize_run_event_iff iso (x ∷ xs) proposed now stream).0 a in
    let (_, _, trace) = is_stream_sound iso (x ∷ xs ++ proposed ∷ []) longer in
    let (regular, _, _) =
      ((Trace-append iso (fence x).run_id start (x ∷ xs) (proposed ∷ [])).0 trace).1 in
    ground (arith, regular.unfinished, replay-index start (x ∷ xs))
