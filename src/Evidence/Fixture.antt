-- ===== src/Evidence/Fixture.antt =====
-- packages/domain/src/evidence.ts: `createEvidence` of each item of the canonical scenario and
-- `createCanonicalImpactContextFixture`, the complete context that stands for a replay of it.
mod Scenario
unfoldable pub use Scenario.*
use lineageguard.Base.{String, false, none, some, List, [], ◌∷◌}
use lineageguard.Base.Sort.{sort, sort_strings, concat_texts}
use lineageguard.Hash.{Platform, str, obj, end, field, sha256}
use lineageguard.Evidence.Items.{
  high, critical, production, Role, resolution, schema, lineage_discovery, field_path, entity_path,
  entity_details, query_discovery, query_details, owner, glossary_binding, glossary_details, Tool,
  search, get_entities, list_schema_fields, get_lineage, get_lineage_paths_between,
  get_dataset_queries, Provenance, technical_owner, business_owner, schema_field, lineage_path,
  dashboard, ml_model, query_usage, ownership, glossary_term, EvidenceItem, Origin, live,
  verified_replay, complete, Resolution, ContextData, ImpactContext,
}
use lineageguard.Evidence.Canonical
use lineageguard.Evidence.Identity.{
  identified_item, compute_impact_context_fingerprint, compute_impact_collection_fingerprint,
}

module _ (platform : Platform) where
  open platform use {locale_le}

  unfoldable pub canonical_items : List EvidenceItem
  unfolding schema_item analytics_path dashboard_item fraud_path fraud_model query_item
      finance_owner risk_owner revenue_owner glossary_item sort
  canonical_items =
      sort (λ l r. locale_le l.id r.id)
        (schema_item platform
          ∷ analytics_path platform
          ∷ dashboard_item platform
          ∷ fraud_path platform
          ∷ fraud_model platform
          ∷ query_item platform
          ∷ finance_owner platform
          ∷ risk_owner platform
          ∷ revenue_owner platform
          ∷ glossary_item platform
          ∷ [])

  -- `commonContext` with an origin.
  unfoldable pub fixture_data : String → Origin → ContextData
  unfolding canonical_items canonical_resolution
  fixture_data change_id origin = record {
    change_id = change_id;
    dataset_urn = Canonical.canonical_dataset_urn;
    field_path = Canonical.canonical_field_path;
    collection_origin = origin;
    resolution = canonical_resolution platform;
    collected_at = retrieved_at;
    collection_status = complete;
    evidence = canonical_items;
    failures = [];
  }

  unfoldable pub fixture_origin : String → Origin
  unfolding fixture_data compute_impact_context_fingerprint compute_impact_collection_fingerprint
      sha256
  fixture_origin change_id =
      let source = compute_impact_context_fingerprint platform (fixture_data change_id live) in
      let collection =
        compute_impact_collection_fingerprint platform (fixture_data change_id live) in
      verified_replay
        (sha256 platform (
          obj (
            field "purpose" (str "LINEAGEGUARD_DOMAIN_TEST_REPLAY_MANIFEST") (
              field "sourceLiveCollectionFingerprint" (str collection)
                (field "sourceImpactContextFingerprint" (str source) end)))))
        collection source

  -- The context that `createCanonicalImpactContextFixture` gives to the schema.
  unfoldable pub canonical_fixture : String → ImpactContext
  unfolding fixture_data fixture_origin compute_impact_context_fingerprint
      compute_impact_collection_fingerprint
  canonical_fixture change_id = record {
    impact_context_fingerprint =
        compute_impact_context_fingerprint platform (fixture_data change_id live);
    collection_fingerprint =
        compute_impact_collection_fingerprint platform
          (fixture_data change_id (fixture_origin change_id));
    context_data = fixture_data change_id (fixture_origin change_id);
  }
