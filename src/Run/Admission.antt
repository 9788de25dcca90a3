-- ===== src/Run/Admission.antt =====
-- packages/domain/src/run.ts: when the pass over a stream has nothing to say about an event, in
-- terms of the lease and the status, without the tests of the code.
use mathlib.Core.List.{append-eq-nil_iff}
use lineageguard.Base.{
  ◌+◌, ◌≤◌, ◌<◌, ◌≡◌, refl, ◌↔◌, ◌⊎◌, inl, inr, String, true, false, Option, none, some, List, [],
  ◌∷◌, arith, eq_iff, any, contains, Option-cases,
}
use lineageguard.Run.Status.{is_terminal, status_eq, status_eq_iff}
use lineageguard.Run.Events.{
  IsoTime, Fence, RunEvent, status_changed, lease_acquired, lease_renewed, lease_released,
  lease_expired, retry_scheduled, fence,
}
use lineageguard.Run.Stream.{
  Lease, StreamState, retry_states, is_held, common_issues, kind_issues, event_issues, advance,
  scan,
}

-- The lease that an event names.
pub record Holds (l : Lease) (f : Fence) : Type 0 where
  pub same_id : l.id ≡ f.lease_id
  pub same_worker : l.worker_id ≡ f.worker_id
  pub same_generation : l.generation ≡ f.generation

module _ (iso : IsoTime) where
  open iso use {millis}

  abbrev pub NotBefore : Option Fence → Fence → Type 0
  NotBefore none f = Unit
  NotBefore (some p) f = millis p.occurred_at ≤ millis f.occurred_at

  pub record IsRegular (run_id : String) (s : StreamState) (f : Fence) : Type 0 where
    pub same_run : f.run_id ≡ run_id
    pub fresh : contains s.event_ids f.event_id ≡ false
    pub contiguous : f.sequence ≡ s.index
    pub monotonic : NotBefore s.previous f
    pub unfinished : (s.index ≡ 0) ⊎ (is_terminal s.current_status ≡ false)

  abbrev pub Admits : StreamState → RunEvent → Type 0
  Admits s (status_changed f from to _) =
      (l : Lease) × (s.active_lease ≡ some l)
      × Holds l f
      × (millis f.occurred_at < millis l.expires_at)
      × (from ≡ s.current_status)
  Admits s (lease_acquired f expires_at) =
      (s.active_lease ≡ none)
      × (contains s.used_lease_ids f.lease_id ≡ false)
      × (s.highest_lease_generation < f.generation)
  Admits s (lease_renewed f previous_expires_at expires_at) =
      (l : Lease) × (s.active_lease ≡ some l)
      × Holds l f
      × (millis f.occurred_at < millis l.expires_at)
      × (previous_expires_at ≡ l.expires_at)
  Admits s (lease_released f) =
      (l : Lease) × (s.active_lease ≡ some l)
      × Holds l f
      × (millis f.occurred_at < millis l.expires_at)
  Admits s (lease_expired f expired_at) =
      (l : Lease) × (s.active_lease ≡ some l)
      × Holds l f
      × (millis l.expires_at ≤ millis expired_at)
  Admits s (retry_scheduled f operation attempt _ _) =
      (l : Lease) × (s.active_lease ≡ some l)
      × Holds l f
      × (millis f.occurred_at < millis l.expires_at)
      × (any (status_eq s.current_status) (retry_states operation) ≡ true)
      × (attempt ≡ s.retry_attempts operation + 1)

  common_issues-IsRegular :
      (run_id : String) (s : StreamState) (f : Fence)
      → common_issues iso run_id s f ≡ []
      → IsRegular run_id s f
  unfolding common_issues
  common_issues-IsRegular run_id s f h = ground (arith, eq_iff f.run_id run_id)

  IsRegular-common_issues :
      (run_id : String) (s : StreamState) (f : Fence)
      → IsRegular run_id s f
      → common_issues iso run_id s f ≡ []
  unfolding common_issues
  IsRegular-common_issues run_id s f h = ground (arith, eq_iff f.run_id run_id)

  is_held-Holds : (l : Lease) (f : Fence) → is_held (some l) f ≡ true → Holds l f
  is_held-Holds l f h = ground (arith, eq_iff l.id f.lease_id, eq_iff l.worker_id f.worker_id)

  Holds-is_held : (l : Lease) (f : Fence) → Holds l f → is_held (some l) f ≡ true
  Holds-is_held l f h = ground (arith, eq_iff l.id f.lease_id, eq_iff l.worker_id f.worker_id)

  kind_issues-Admits : (s : StreamState) (e : RunEvent) → kind_issues iso s e ≡ [] → Admits s e
  unfolding kind_issues
  kind_issues-Admits s (status_changed f from to _) h = elim (Option-cases s.active_lease) [
    | inl e ↦ absurd (ground arith)
    | inr (l, e) ↦ (
      l,
      e,
      ground (arith, is_held-Holds l f),
      ground arith,
      (status_eq_iff _ _).0 (ground arith),
    )
  ]
  kind_issues-Admits s (lease_acquired f expires_at) h = ground arith
  kind_issues-Admits s (lease_renewed f p x) h = elim (Option-cases s.active_lease) [
    | inl e ↦ absurd (ground arith)
    | inr (l, e) ↦ (
      l,
      e,
      ground (arith, is_held-Holds l f),
      ground arith,
      ground (arith, eq_iff l.expires_at p),
    )
  ]
  kind_issues-Admits s (lease_released f) h = elim (Option-cases s.active_lease) [
    | inl e ↦ absurd (ground arith)
    | inr (l, e) ↦ (l, e, ground (arith, is_held-Holds l f), ground arith)
  ]
  kind_issues-Admits s (lease_expired f x) h = elim (Option-cases s.active_lease) [
    | inl e ↦ absurd (ground arith)
    | inr (l, e) ↦ (l, e, ground (arith, is_held-Holds l f), ground arith)
  ]
  kind_issues-Admits s (retry_scheduled f operation attempt _ _) h =
      elim (Option-cases s.active_lease) [
        | inl e ↦ absurd (ground arith)
        | inr (l, e) ↦
            (l, e, ground (arith, is_held-Holds l f), ground arith, ground arith, ground arith)
      ]

  Admits-kind_issues : (s : StreamState) (e : RunEvent) → Admits s e → kind_issues iso s e ≡ []
  unfolding kind_issues
  Admits-kind_issues s (status_changed f from to _) (l, e, h, live, same) =
      ground (arith, Holds-is_held l f h, (status_eq_iff from s.current_status).1 same)
  Admits-kind_issues s (lease_acquired f expires_at) h = ground arith
  Admits-kind_issues s (lease_renewed f p x) (l, e, h, live, same) =
      ground (arith, Holds-is_held l f h, eq_iff l.expires_at p)
  Admits-kind_issues s (lease_released f) (l, e, h, live) = ground (arith, Holds-is_held l f h)
  Admits-kind_issues s (lease_expired f x) (l, e, h, over) = ground (arith, Holds-is_held l f h)
  Admits-kind_issues s (retry_scheduled f operation attempt _ _) (l, e, h, live, right, next) =
      ground (arith, Holds-is_held l f h)

  -- A trace: every event is regular and admitted where it stands.
  abbrev pub Trace : String → StreamState → List RunEvent → Type 0
  Trace run_id s [] = Unit
  Trace run_id s (e ∷ es) =
      IsRegular run_id s (fence e) × Admits s e × Trace run_id (advance s e) es

  pub scan_iff :
      (run_id : String) (s : StreamState) (es : List RunEvent)
      → (scan iso run_id s es ≡ []) ↔ Trace run_id s es
  unfolding scan event_issues
  scan_iff run_id s [] = (λ _. tt, λ _. refl)
  scan_iff run_id s (e ∷ es) = (
    λ h.
        let (now, later) = append-eq-nil_iff.0 h in
        let (common, kind) = append-eq-nil_iff.0 now in
        (
          common_issues-IsRegular run_id s (fence e) common,
          kind_issues-Admits s e kind,
          (scan_iff run_id (advance s e) es).0 later,
        ),
    λ t.
        rw (IsRegular-common_issues run_id s (fence e) t.0, Admits-kind_issues s e t.1)
          ((scan_iff run_id (advance s e) es).1 t.2),
  )
