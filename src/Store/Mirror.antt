-- ===== src/Store/Mirror.antt =====
-- packages/db/src/store.ts: the updates of `claimDue`, `renewLease` and `releaseLease` follow the
-- events that they store.
use lineageguard.Base.{ℕ, ◌≡◌, refl, sym, ap, ◌∙◌, String, Option, none, some, arith}
use lineageguard.Run.Events.{Fence, lease_acquired, lease_renewed, lease_released}
use lineageguard.Run.Stream.{StreamState, advance}
use lineageguard.Run.Admission.{Admits}
use lineageguard.Store.Rows.{Host, Tenure, RunRow}
use lineageguard.Store.Claims.{renewed, freed, claimed}
use lineageguard.Store.Agree.{Mirrors, lease_of}

pub Mirrors-freed :
    (host : Host) (now : ℕ) (f : Fence) (r : RunRow) (s : StreamState)
    → Mirrors host r s
    → Mirrors host (freed now r) (advance s (lease_released f))
unfolding advance
Mirrors-freed host now f r s m = record {
  same_status = m.same_status;
  same_lease = refl;
  same_generation = m.same_generation;
}

pub Mirrors-renewed :
    (host : Host) (now expires_at : ℕ) (until : String) (f : Fence) (previous : String) (r : RunRow)
    (s : StreamState)
    → until ≡ host.to_iso expires_at
    → Admits host.iso s (lease_renewed f previous until)
    → Mirrors host r s
    → Mirrors host (renewed expires_at now r) (advance s (lease_renewed f previous until))
unfolding advance
Mirrors-renewed host now expires_at until f previous r s x (l, e, h, _, _) m = record {
  same_status = m.same_status;
  same_lease = held r.tenure (sym e ∙ m.same_lease);
  same_generation = m.same_generation;
}
  where
    held :
        (t : Option Tenure)
        → some l ≡ lease_of host t r.lease_generation
        → some (record {
          id = f.lease_id;
          worker_id = f.worker_id;
          generation = f.generation;
          expires_at = until;
        })
          ≡ lease_of host
              (elim t [ none ↦ none | some t ↦ some (record t { lease_expires_at = expires_at }) ])
              r.lease_generation
    held none q = cc
    held (some t) q =
        let same : l ≡ _ = ap (λ o. elim o [ none ↦ l | some x ↦ x ]) q in
        rw
          (
            x,
            ← h.same_id,
            ← h.same_worker,
            ← h.same_generation,
            ap (λ x. x.id) same,
            ap (λ x. x.worker_id) same,
            ap (λ x. x.generation) same,
          )
          refl

pub Mirrors-claimed :
    (host : Host) (lease_id worker_id : String) (generation now expires_at : ℕ) (until : String)
    (f : Fence) (r : RunRow) (s : StreamState)
    → until ≡ host.to_iso expires_at
    → f.lease_id ≡ lease_id
    → f.worker_id ≡ worker_id
    → f.generation ≡ generation
    → Admits host.iso s (lease_acquired f until)
    → Mirrors host r s
    → Mirrors host
        (claimed lease_id worker_id generation expires_at now r)
        (advance s (lease_acquired f until))
unfolding advance
Mirrors-claimed host lease_id worker_id generation now expires_at until f r s x i w g (_, _, higher)
      m =
    record {
      same_status = m.same_status;
      same_lease = rw (x, i, w, g) refl;
      same_generation = ground arith;
    }
