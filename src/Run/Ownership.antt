-- ===== src/Run/Ownership.antt =====
-- packages/domain/src/run.ts: what holding a lease means, in terms of the events before.
use lineageguard.Base.{
  ◌≡◌, refl, ap, ◌∙◌, String, true, Option, none, some, List, [], ◌∷◌, ◌++◌, All, Bool-cases, inl,
  inr,
}
use mathlib.Core.List.{append_assoc, append-nil}
use mathlib.Core.Path.{subst, subst₂}
use lineageguard.Run.Status.{RunStatus, is_terminal}
use lineageguard.Run.Events.{
  IsoTime, Fence, RunEvent, status_changed, lease_acquired, lease_renewed, lease_released,
  lease_expired, retry_scheduled, fence,
}
use lineageguard.Run.Stream.{Lease, StreamState, start, advance, replay, is_stream}
use lineageguard.Run.Admission.{Holds, Admits, Trace}
use lineageguard.Run.Life.{is_stream_sound, Trace-append}

-- Events that leave the lease with its holder.
abbrev pub Keeps : RunEvent → Type 0
Keeps (status_changed _ _ _ _) = Unit
Keeps (lease_acquired _ _) = ⊥
Keeps (lease_renewed _ _ _) = Unit
Keeps (lease_released _) = ⊥
Keeps (lease_expired _ _) = ⊥
Keeps (retry_scheduled _ _ _ _ _) = Unit

-- The holder acquired the lease, and no event since then released it, let it expire or gave
-- another lease.
pub record Owns (id worker_id : String) (before : List RunEvent) : Type 0 where
  pub earlier : List RunEvent
  pub acquisition : Fence
  pub expires_at : String
  pub since : List RunEvent
  pub split : before ≡ earlier ++ lease_acquired acquisition expires_at ∷ since
  pub same_id : acquisition.lease_id ≡ id
  pub same_worker : acquisition.worker_id ≡ worker_id
  pub kept : All Keeps since

abbrev Owned : Option Lease → List RunEvent → Type 0
Owned none before = Unit
Owned (some l) before = Owns l.id l.worker_id before

All-snoc : (es : List RunEvent) (e : RunEvent) → All Keeps es → Keeps e → All Keeps (es ++ e ∷ [])
All-snoc [] e h k = (k, tt)
All-snoc (x ∷ xs) e h k = (h.0, All-snoc xs e h.1 k)

Owns-keep :
    (id worker_id : String) (before : List RunEvent) (e : RunEvent)
    → Keeps e
    → Owns id worker_id before
    → Owns id worker_id (before ++ e ∷ [])
Owns-keep id worker_id before e k o = record {
  earlier = o.earlier;
  acquisition = o.acquisition;
  expires_at = o.expires_at;
  since = o.since ++ e ∷ [];
  split = ap (λ b. b ++ e ∷ []) o.split ∙ append_assoc o.earlier _ _;
  same_id = o.same_id;
  same_worker = o.same_worker;
  kept = All-snoc o.since e o.kept k;
}

Owns-acquired :
    (f : Fence) (x : String) (before : List RunEvent)
    → Owns f.lease_id f.worker_id (before ++ lease_acquired f x ∷ [])
Owns-acquired f x before = record {
  earlier = before;
  acquisition = f;
  expires_at = x;
  since = [];
  split = refl;
  same_id = refl;
  same_worker = refl;
  kept = tt;
}

Owned-keep :
    (o : Option Lease) (before : List RunEvent) (e : RunEvent)
    → Keeps e
    → Owned o before
    → Owned o (before ++ e ∷ [])
Owned-keep none before e k own = tt
Owned-keep (some l) before e k own = Owns-keep l.id l.worker_id before e k own

-- the event that names the active lease speaks for its holder
Owns-held :
    (o : Option Lease) (l : Lease) (f : Fence) (before : List RunEvent)
    → o ≡ some l
    → Holds l f
    → Owned o before
    → Owns f.lease_id f.worker_id before
Owns-held o l f before e h own =
    let held : Owned (some l) before = subst (λ a. Owned a before) e own in
    subst₂ (λ i w. Owns i w before) h.same_id h.same_worker held

module _ (iso : IsoTime) where
  Owned-advance :
      (s : StreamState) (e : RunEvent) (before : List RunEvent)
      → Admits iso s e
      → Owned s.active_lease before
      → Owned (advance s e).active_lease (before ++ e ∷ [])
  unfolding advance
  Owned-advance s (status_changed f from to d) before a own = elim (Bool-cases (is_terminal to)) [
    | inl ended ↦ rw ended tt
    | inr going ↦ rw going (Owned-keep s.active_lease before (status_changed f from to d) tt own)
  ]
  Owned-advance s (lease_acquired f x) before a own = Owns-acquired f x before
  Owned-advance s (lease_renewed f p x) before (l, e, h, _, _) own =
      Owns-keep f.lease_id f.worker_id before (lease_renewed f p x) tt
        (Owns-held s.active_lease l f before e h own)
  Owned-advance s (lease_released f) before a own = tt
  Owned-advance s (lease_expired f x) before a own = tt
  Owned-advance s (retry_scheduled f o n at why) before a own =
      Owned-keep s.active_lease before (retry_scheduled f o n at why) tt own

  Owned-replay :
      (run_id : String) (s : StreamState) (before es : List RunEvent)
      → Trace iso run_id s es
      → Owned s.active_lease before
      → Owned (replay s es).active_lease (before ++ es)
  unfolding replay
  Owned-replay run_id s before [] t own = rw append-nil own
  Owned-replay run_id s before (e ∷ es) (_, a, t) own =
      subst (Owned (replay (advance s e) es).active_lease) (append_assoc before (e ∷ []) es)
        (Owned-replay run_id (advance s e) (before ++ e ∷ []) es t (Owned-advance s e before a own))

  owner-admitted :
      (s : StreamState) (before : List RunEvent) (f : Fence) (from to : RunStatus)
      (d : Option String)
      → Admits iso s (status_changed f from to d)
      → Owned s.active_lease before
      → Owns f.lease_id f.worker_id before
  owner-admitted s before f from to d (l, e, h, _, _) own =
      Owns-held s.active_lease l f before e h own

-- In an accepted stream a status changes only by the worker and under the lease that an earlier
-- event acquired and that no event between released, let expire or followed by another lease.
pub status_changed-Owns :
    (iso : IsoTime) (before after : List RunEvent) (f : Fence) (from to : RunStatus)
    (d : Option String)
    → is_stream iso (before ++ status_changed f from to d ∷ after) ≡ true
    → Owns f.lease_id f.worker_id before
unfolding start
status_changed-Owns iso [] after f from to d h =
    let (_, _, trace) = is_stream_sound iso (status_changed f from to d ∷ after) h in
    owner-admitted iso start [] f from to d trace.1 tt
status_changed-Owns iso (x ∷ xs) after f from to d h =
    let rest = status_changed f from to d ∷ after in
    let (_, _, trace) = is_stream_sound iso (x ∷ xs ++ rest) h in
    let (first, later) = (Trace-append iso (fence x).run_id start (x ∷ xs) rest).0 trace in
    owner-admitted iso (replay start (x ∷ xs)) (x ∷ xs) f from to d later.1
      (Owned-replay iso (fence x).run_id start [] (x ∷ xs) first tt)
