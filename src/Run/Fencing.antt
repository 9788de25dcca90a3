-- ===== src/Run/Fencing.antt =====
-- packages/domain/src/run.ts: the generation of the lease is a fencing token.
use lineageguard.Base.{
  ℕ, ◌≡◌, ◌≤◌, String, true, Option, none, some, List, [], ◌∷◌, arith, All, Pairwise,
}
use lineageguard.Run.Events.{
  IsoTime, Fence, RunEvent, status_changed, lease_acquired, lease_renewed, lease_released,
  lease_expired, retry_scheduled, fence,
}
use lineageguard.Run.Stream.{Lease, StreamState, start, advance, is_stream}
use lineageguard.Run.Admission.{Admits, Trace}
use lineageguard.Run.Life.{is_stream_sound}

-- The later event has no lower generation, and with the same generation it has the same lease.
pub record IsFencedBy (f g : Fence) : Type 0 where
  pub no_lower : f.generation ≤ g.generation
  pub same_lease : f.generation ≡ g.generation → f.lease_id ≡ g.lease_id
  pub same_worker : f.generation ≡ g.generation → f.worker_id ≡ g.worker_id

abbrev Past : Option Lease → Fence → Type 0
Past none f = Unit
Past (some l) f =
    (f.generation ≡ l.generation → f.lease_id ≡ l.id)
    × (f.generation ≡ l.generation → f.worker_id ≡ l.worker_id)

-- What the loop's variables remember of an earlier event.
record Remembers (s : StreamState) (f : Fence) : Type 0 where
  bounded : f.generation ≤ s.highest_lease_generation
  past : Past s.active_lease f

-- The active lease has the highest generation.
abbrev IsNewest : ℕ → Option Lease → Type 0
IsNewest highest none = Unit
IsNewest highest (some l) = l.generation ≡ highest

IsNewest-advance :
    (iso : IsoTime) (s : StreamState) (e : RunEvent)
    → IsNewest s.highest_lease_generation s.active_lease
    → Admits iso s e
    → IsNewest (advance s e).highest_lease_generation (advance s e).active_lease
unfolding advance
IsNewest-advance iso s (status_changed f from to _) n a = ground arith
IsNewest-advance iso s (lease_acquired f _) n a = ground arith
IsNewest-advance iso s (lease_renewed f _ _) n a = ground arith
IsNewest-advance iso s (lease_released f) n a = ground arith
IsNewest-advance iso s (lease_expired f _) n a = ground arith
IsNewest-advance iso s (retry_scheduled f _ _ _ _) n a = ground arith

Remembers-advance :
    (iso : IsoTime) (s : StreamState) (e : RunEvent) (p : Fence)
    → IsNewest s.highest_lease_generation s.active_lease
    → Admits iso s e
    → Remembers s p
    → Remembers (advance s e) p
unfolding advance
Remembers-advance iso s (status_changed f from to _) p n a r = ground arith
Remembers-advance iso s (lease_acquired f _) p n a r = ground arith
Remembers-advance iso s (lease_renewed f _ _) p n a r = ground arith
Remembers-advance iso s (lease_released f) p n a r = ground arith
Remembers-advance iso s (lease_expired f _) p n a r = ground arith
Remembers-advance iso s (retry_scheduled f _ _ _ _) p n a r = ground arith

Remembers-fence :
    (iso : IsoTime) (s : StreamState) (e : RunEvent)
    → IsNewest s.highest_lease_generation s.active_lease
    → Admits iso s e
    → Remembers (advance s e) (fence e)
unfolding advance
Remembers-fence iso s (status_changed f from to _) n a = ground arith
Remembers-fence iso s (lease_acquired f _) n a = ground arith
Remembers-fence iso s (lease_renewed f _ _) n a = ground arith
Remembers-fence iso s (lease_released f) n a = ground arith
Remembers-fence iso s (lease_expired f _) n a = ground arith
Remembers-fence iso s (retry_scheduled f _ _ _ _) n a = ground arith

IsFencedBy-admitted :
    (iso : IsoTime) (s : StreamState) (e : RunEvent) (p : Fence)
    → IsNewest s.highest_lease_generation s.active_lease
    → Admits iso s e
    → Remembers s p
    → IsFencedBy p (fence e)
IsFencedBy-admitted iso s (status_changed f from to _) p n a r = ground arith
IsFencedBy-admitted iso s (lease_acquired f _) p n a r = ground arith
IsFencedBy-admitted iso s (lease_renewed f _ _) p n a r = ground arith
IsFencedBy-admitted iso s (lease_released f) p n a r = ground arith
IsFencedBy-admitted iso s (lease_expired f _) p n a r = ground arith
IsFencedBy-admitted iso s (retry_scheduled f _ _ _ _) p n a r = ground arith

module _ (iso : IsoTime) (run_id : String) where
  All-Remembers :
      (s : StreamState) (p : Fence) (es : List RunEvent)
      → IsNewest s.highest_lease_generation s.active_lease
      → Remembers s p
      → Trace iso run_id s es
      → All (λ e. IsFencedBy p (fence e)) es
  All-Remembers s p [] n r t = tt
  All-Remembers s p (e ∷ es) n r (_, a, t) = (
    IsFencedBy-admitted iso s e p n a r,
    All-Remembers (advance s e) p es (IsNewest-advance iso s e n a)
        (Remembers-advance iso s e p n a r) t,
  )

  Trace-Pairwise :
      (s : StreamState) (es : List RunEvent)
      → IsNewest s.highest_lease_generation s.active_lease
      → Trace iso run_id s es
      → Pairwise (λ d e. IsFencedBy (fence d) (fence e)) es
  Trace-Pairwise s [] n t = tt
  Trace-Pairwise s (e ∷ es) n (_, a, t) =
      let newest = IsNewest-advance iso s e n a in
      (
        All-Remembers (advance s e) (fence e) es newest (Remembers-fence iso s e n a) t,
        Trace-Pairwise (advance s e) es newest t,
      )

-- In an accepted stream the lease generations never fall, and two events with the same generation
-- have the same lease and the same worker.
pub is_stream-IsFencedBy :
    (iso : IsoTime) (es : List RunEvent)
    → is_stream iso es ≡ true
    → Pairwise (λ d e. IsFencedBy (fence d) (fence e)) es
unfolding start
is_stream-IsFencedBy iso [] h = tt
is_stream-IsFencedBy iso (e ∷ es) h =
    let (_, _, trace) = is_stream_sound iso (e ∷ es) h in
    Trace-Pairwise iso (fence e).run_id start (e ∷ es) tt trace
