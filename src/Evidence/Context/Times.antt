-- ===== src/Evidence/Context/Times.antt =====
-- packages/domain/src/evidence.ts: no evidence of an accepted context is retrieved after its
-- collection.
use lineageguard.Base.{
  ℕ, true, false, ◌≡◌, refl, Option, none, some, List, [], ◌∷◌, arith, leb, ltb, all, any,
}
use lineageguard.Run.Events.{IsoTime}
use lineageguard.Evidence.Items.{Provenance, EvidenceItem, ImpactContext}
use lineageguard.Evidence.Context.{chronological, item_history, context_history, last_time}

module _ (iso : IsoTime) (collected later : ℕ) (h : leb collected later ≡ true) where
  chronological_lem :
      (before : Option ℕ) (es : List Provenance)
      → chronological iso collected before es ≡ true
      → any (λ e. ltb later (iso.millis e.retrieved_at)) es ≡ false
  unfolding chronological
  chronological_lem before [] k = refl
  chronological_lem before (e ∷ es) k =
      ground (arith, chronological_lem (some (iso.millis e.retrieved_at)) es)

  item_history_lem :
      (resolved : Option ℕ) (items : List EvidenceItem)
      → all (item_history iso collected resolved) items ≡ true
      → any (λ i. any (λ e. ltb later (iso.millis e.retrieved_at)) i.provenance) items ≡ false
  unfolding item_history
  item_history_lem resolved [] k = refl
  item_history_lem resolved (i ∷ items) k =
      let first = chronological_lem resolved i.provenance (ground arith) in
      let rest = item_history_lem resolved items (ground arith) in rw (first, rest) refl

pub context_history_lem :
    (iso : IsoTime) (c : ImpactContext) (later : ℕ)
    → leb (iso.millis c.collected_at) later ≡ true
    → context_history iso c ≡ true
    → any (λ i. any (λ e. ltb later (iso.millis e.retrieved_at)) i.provenance) c.evidence ≡ false
unfolding context_history
context_history_lem iso c later h k =
    item_history_lem iso (iso.millis c.collected_at) later h
      (last_time iso none c.resolution.provenance) c.evidence (ground arith)
