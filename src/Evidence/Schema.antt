-- ===== src/Evidence/Schema.antt =====
-- packages/domain/src/evidence.ts: `impactContextSchema` as a whole.
use lineageguard.Base.{Bool, ◌&&◌, all}
use lineageguard.Hash.{Platform}
use lineageguard.Run.Events.{IsoTime}
use lineageguard.Evidence.Items.{ImpactContext}
use lineageguard.Evidence.Identity.{is_identified}
use lineageguard.Evidence.Shapes.{context_shape}
use lineageguard.Evidence.Context.{context_identity, context_history, evidence_order, failure_order}
use lineageguard.Evidence.Bindings.{item_binding}
use lineageguard.Evidence.Complete.{status_fits}

module _ (platform : Platform) (iso : IsoTime) where
  -- `impactContextSchema.parse` returns.
  unfoldable pub is_impact_context : ImpactContext → Bool
  is_impact_context c =
      context_shape iso c
      && all (is_identified platform) c.evidence
      && context_identity platform c
      && context_history iso c
      && evidence_order c.evidence
      && failure_order c.failures
      && all (item_binding c) c.evidence
      && status_fits c.collection_status c
