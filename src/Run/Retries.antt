-- ===== src/Run/Retries.antt =====
-- packages/domain/src/run.ts: the retry policy.
use lineageguard.Base.{
  ℕ, ◌+◌, ◌≡◌, ◌≤◌, String, true, List, [], ◌∷◌, arith, all, and-eq-true_iff, if◌then◌else◌, Bool,
  false,
}
use lineageguard.Run.Events.{
  IsoTime, RetryOperation, datahub_read, generation, github_write, datahub_write, RunEvent,
  status_changed, lease_acquired, lease_renewed, lease_released, lease_expired, retry_scheduled,
  fence, event_shape,
}
use lineageguard.Run.Stream.{StreamState, operation_eq, start, advance, is_stream}
use lineageguard.Run.Admission.{Trace, Admits}
use lineageguard.Run.Life.{is_stream_sound}

abbrev pub is_retry : RetryOperation → RunEvent → Bool
is_retry operation (retry_scheduled _ o _ _ _) = operation_eq o operation
is_retry operation (status_changed _ _ _ _) = false
is_retry operation (lease_acquired _ _) = false
is_retry operation (lease_renewed _ _ _) = false
is_retry operation (lease_released _) = false
is_retry operation (lease_expired _ _) = false

-- How often an operation is retried.
abbrev pub retries : RetryOperation → List RunEvent → ℕ
retries operation [] = 0
retries operation (e ∷ es) = (if is_retry operation e then 1 else 0) + retries operation es

module _ (iso : IsoTime) (run_id : String) (o : RetryOperation) where
  attempts-advance :
      (s : StreamState) (e : RunEvent)
      → event_shape iso e ≡ true
      → Admits iso s e
      → s.retry_attempts o ≤ 3
      → ((advance s e).retry_attempts o ≡ (if is_retry o e then 1 else 0) + s.retry_attempts o)
        × ((advance s e).retry_attempts o ≤ 3)
  unfolding advance event_shape
  attempts-advance s (retry_scheduled f datahub_read n a r) h p b = ground arith
  attempts-advance s (retry_scheduled f generation n a r) h p b = ground arith
  attempts-advance s (retry_scheduled f github_write n a r) h p b = ground arith
  attempts-advance s (retry_scheduled f datahub_write n a r) h p b = ground arith
  attempts-advance s (status_changed f from to d) h p b = omega arith
  attempts-advance s (lease_acquired f x) h p b = omega arith
  attempts-advance s (lease_renewed f q x) h p b = omega arith
  attempts-advance s (lease_released f) h p b = omega arith
  attempts-advance s (lease_expired f x) h p b = omega arith

  attempts-Trace :
      (s : StreamState) (es : List RunEvent)
      → all (event_shape iso) es ≡ true
      → Trace iso run_id s es
      → s.retry_attempts o ≤ 3
      → retries o es + s.retry_attempts o ≤ 3
  attempts-Trace s [] h t b = omega arith
  attempts-Trace s (e ∷ es) h (_, a, t) b =
      let (shape, rest) = (and-eq-true_iff _ _).0 h in
      let (next, bound) = attempts-advance s e shape a b in
      omega (arith, attempts-Trace (advance s e) es rest t bound)

-- In an accepted stream no operation is retried more than three times.
pub retries-le :
    (iso : IsoTime) (o : RetryOperation) (es : List RunEvent)
    → is_stream iso es ≡ true
    → retries o es ≤ 3
unfolding start
retries-le iso o [] h = omega arith
retries-le iso o (e ∷ es) h =
    let (_, shape, trace) = is_stream_sound iso (e ∷ es) h in
    omega (arith, attempts-Trace iso (fence e).run_id o start (e ∷ es) shape trace (omega arith))
