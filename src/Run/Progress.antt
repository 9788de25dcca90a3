-- ===== src/Run/Progress.antt =====
-- packages/domain/src/run.ts: the statuses that an accepted stream goes through.
use lineageguard.Base.{
  ◌≡◌, refl, sym, ◌∙◌, ◌≤◌, String, true, List, [], ◌∷◌, arith, length, all, and-eq-true_iff,
}
use lineageguard.Run.Status.{RunStatus, created, completed}
use lineageguard.Run.Graph.{Chain, last_status, success_path, length-Chain, Chain-completed}
use lineageguard.Run.Events.{
  IsoTime, RunEvent, status_changed, lease_acquired, lease_renewed, lease_released, lease_expired,
  retry_scheduled, fence, event_shape,
}
use lineageguard.Run.Stream.{StreamState, start, advance, replay, is_stream}
use lineageguard.Run.Admission.{Trace}
use lineageguard.Run.Life.{is_stream_sound}

-- The statuses that the events change to, in order.
abbrev pub statuses : List RunEvent → List RunStatus
statuses [] = []
statuses (status_changed _ _ to _ ∷ es) = to ∷ statuses es
statuses (lease_acquired _ _ ∷ es) = statuses es
statuses (lease_renewed _ _ _ ∷ es) = statuses es
statuses (lease_released _ ∷ es) = statuses es
statuses (lease_expired _ _ ∷ es) = statuses es
statuses (retry_scheduled _ _ _ _ _ ∷ es) = statuses es

-- The status in which a stream leaves the run.
unfoldable pub final_status : List RunEvent → RunStatus
final_status es = (replay start es).current_status

pub replay-last_status :
    (s : StreamState) (es : List RunEvent)
    → (replay s es).current_status ≡ last_status s.current_status (statuses es)
unfolding replay advance
replay-last_status s [] = refl
replay-last_status s (status_changed f from to d ∷ es) =
    replay-last_status (advance s (status_changed f from to d)) es
replay-last_status s (lease_acquired f x ∷ es) =
    replay-last_status (advance s (lease_acquired f x)) es
replay-last_status s (lease_renewed f p x ∷ es) =
    replay-last_status (advance s (lease_renewed f p x)) es
replay-last_status s (lease_released f ∷ es) = replay-last_status (advance s (lease_released f)) es
replay-last_status s (lease_expired f x ∷ es) =
    replay-last_status (advance s (lease_expired f x)) es
replay-last_status s (retry_scheduled f o n a r ∷ es) =
    replay-last_status (advance s (retry_scheduled f o n a r)) es

module _ (iso : IsoTime) (run_id : String) where
  adjacent :
      (s : StreamState) (e : RunEvent) (es : List RunEvent)
      → all (event_shape iso) (e ∷ es) ≡ true
      → Trace iso run_id s (e ∷ es)
      → Chain (advance s e).current_status (statuses es)
      → Chain s.current_status (statuses (e ∷ es))
  unfolding event_shape advance
  adjacent s (status_changed f from to d) es h (_, (l, _, _, _, same), _) c =
      (rw (← same) (ground arith), c)
  adjacent s (lease_acquired f x) es h t c = c
  adjacent s (lease_renewed f p x) es h t c = c
  adjacent s (lease_released f) es h t c = c
  adjacent s (lease_expired f x) es h t c = c
  adjacent s (retry_scheduled f o n a r) es h t c = c

  Trace-Chain :
      (s : StreamState) (es : List RunEvent)
      → all (event_shape iso) es ≡ true
      → Trace iso run_id s es
      → Chain s.current_status (statuses es)
  Trace-Chain s [] h t = tt
  Trace-Chain s (e ∷ es) h t =
      adjacent s e es h t (Trace-Chain (advance s e) es ((and-eq-true_iff _ _).0 h).1 t.2)

-- In an accepted stream every change of status follows an edge of the graph from the status before
-- it, and there are at most 12 changes.
pub is_stream-Chain :
    (iso : IsoTime) (es : List RunEvent)
    → is_stream iso es ≡ true
    → Chain created (statuses es) × (length (statuses es) ≤ 12)
unfolding start
is_stream-Chain iso [] h = (tt, omega arith)
is_stream-Chain iso (e ∷ es) h =
    let (_, shape, trace) = is_stream_sound iso (e ∷ es) h in
    let chain = Trace-Chain iso (fence e).run_id start (e ∷ es) shape trace in
    (chain, length-Chain created (statuses (e ∷ es)) chain)

-- A run that an accepted stream completes went through all twelve steps in their order: no gate
-- (validation, review artifact, write-back) can be left out.
pub completed-success_path :
    (iso : IsoTime) (es : List RunEvent)
    → is_stream iso es ≡ true
    → final_status es ≡ completed
    → statuses es ≡ success_path 12 created
unfolding final_status start
completed-success_path iso es h e =
    Chain-completed created (statuses es) (is_stream-Chain iso es h).0
      (sym (replay-last_status start es) ∙ e)
