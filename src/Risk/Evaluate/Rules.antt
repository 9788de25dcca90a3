-- ===== src/Risk/Evaluate/Rules.antt =====
-- packages/domain/src/risk.ts: the rules, with what triggers each of them.
use lineageguard.Base.{
  ℕ, String, Bool, true, false, not, ◌&&◌, ◌||◌, List, [], ◌∷◌, ◌++◌, map, ltb, any, select,
  contains,
}
use lineageguard.Evidence.Items.{
  Payload, ownership, lineage_path, ml_model, dashboard, query_usage, schema_field, glossary_term,
  Lifecycle, Provenance, EvidenceItem, ImpactContext,
}
use lineageguard.Evidence.Canonical.{canonical_field_path}
use lineageguard.Evidence.Bindings.{is_text}
use lineageguard.Evidence.Complete.{is_critical}
use lineageguard.Evidence.Items
use lineageguard.Risk.Policy.{RuleId, lg001, lg002, lg003, lg004, lg005, RiskLevel, high, critical}

abbrev pub is_owner : EvidenceItem → Bool
is_owner i = kind i.payload
  where
    kind : Payload → Bool
    kind (ownership _) = true
    kind _ = false

-- Evidence other than an owner at the renamed field.
abbrev pub is_connected : EvidenceItem → Bool
is_connected i = not (is_owner i) && is_text i.field_path canonical_field_path

abbrev pub connected_ids : List EvidenceItem → List String
connected_ids evidence = map (λ i. i.id) (select is_connected evidence)

-- Connected evidence, and what refers to connected evidence.
abbrev pub is_relevant : List String → EvidenceItem → Bool
is_relevant connected i = contains connected i.id || any (contains connected) i.related_evidence_ids

abbrev pub is_path : Payload → Bool
is_path (lineage_path _) = true
is_path _ = false

abbrev is_production : Lifecycle → Bool
is_production Items.Lifecycle.production = true
is_production _ = false

abbrev pub is_production_model : Payload → Bool
is_production_model (ml_model p) = is_production p.lifecycle
is_production_model _ = false

abbrev pub is_dashboard : Payload → Bool
is_dashboard (dashboard _) = true
is_dashboard _ = false

abbrev pub is_query : Payload → Bool
is_query (query_usage _) = true
is_query _ = false

abbrev pub owned_asset : Payload → List String
owned_asset (ownership p) = p.asset_urn ∷ []
owned_asset _ = []

-- `ownerAssetUrns`.
abbrev pub owner_assets : List EvidenceItem → List String
owner_assets [] = []
owner_assets (i ∷ items) = owned_asset i.payload ++ owner_assets items

abbrev pub lacks_owner : List String → Payload → Bool
lacks_owner owned (dashboard p) = not (contains owned p.dashboard_urn)
lacks_owner owned (ml_model p) = not (contains owned p.model_urn)
lacks_owner owned _ = false

-- A critical dashboard or model without an owner.
abbrev pub is_unowned : List String → EvidenceItem → Bool
is_unowned owned i = is_critical i.criticality && lacks_owner owned i.payload

abbrev pub message_of : RuleId → String
message_of lg001 = "The incompatible field rename has downstream field-level lineage."
message_of lg002 = "A production ML model depends on the renamed field."
message_of lg003 = "An observed system query references the renamed field."
message_of lg004 = "A critical dashboard depends on the incompatible field change."
message_of lg005 = "An affected critical asset has no recorded owner."

abbrev pub level_of : RuleId → RiskLevel
level_of lg001 = critical
level_of lg002 = critical
level_of lg003 = high
level_of lg004 = critical
level_of lg005 = high

-- The evidence that triggers each rule, among the relevant evidence.
abbrev pub triggers : RuleId → List EvidenceItem → List EvidenceItem
triggers lg001 evidence = select (λ i. is_path i.payload) evidence
triggers lg002 evidence = select (λ i. is_production_model i.payload) evidence
triggers lg003 evidence = select (λ i. is_query i.payload) evidence
triggers lg004 evidence = select (λ i. is_dashboard i.payload && is_critical i.criticality) evidence
triggers lg005 evidence = select (is_unowned (owner_assets evidence)) evidence

abbrev pub rule_order : List RuleId
rule_order = lg001 ∷ lg002 ∷ lg003 ∷ lg004 ∷ lg005 ∷ []

abbrev pub retrieved_after : (String → ℕ) → ℕ → EvidenceItem → Bool
retrieved_after millis assessed i = any (λ e. ltb assessed (millis e.retrieved_at)) i.provenance
