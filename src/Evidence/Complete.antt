-- ===== src/Evidence/Complete.antt =====
-- packages/domain/src/evidence.ts: what `impactContextSchema` asks of a complete context, and of a
-- partial one.
pub mod Present
use lineageguard.Base.{
  String, Bool, true, false, not, ◌&&◌, ◌||◌, Option, none, some, List, [], ◌∷◌, ◌++◌, map, ◌===◌,
  ◌==◌, leb, all, any, length,
}
use lineageguard.Base.Sort.{same_texts, sort_strings, string_le}
use lineageguard.Evidence.Items.{
  Criticality, low, medium, high, critical, Lifecycle, production, segment_eq, Segment,
  SchemaPayload, PathPayload, DashboardPayload, ModelPayload, QueryPayload, OwnerPayload,
  GlossaryPayload, Payload, schema_field, lineage_path, dashboard, ml_model, query_usage, ownership,
  glossary_term, EvidenceItem, CollectionFailure, CollectionStatus, complete, partial,
  ImpactContext,
}
use lineageguard.Evidence.Canonical
use lineageguard.Evidence.Bindings.{is_text}

pub data Kind : Type 0 where
  schemas paths dashboards models queries owners glossaries : Kind

abbrev pub is_kind : Kind → Payload → Bool
is_kind schemas (schema_field _) = true
is_kind paths (lineage_path _) = true
is_kind dashboards (dashboard _) = true
is_kind models (ml_model _) = true
is_kind queries (query_usage _) = true
is_kind owners (ownership _) = true
is_kind glossaries (glossary_term _) = true
is_kind _ _ = false

-- `context.evidence.filter((item) => item.kind === kind)`.
abbrev pub of_kind : Kind → List EvidenceItem → List EvidenceItem
of_kind k [] = []
of_kind k (i ∷ items) =
    let rest = of_kind k items in elim (is_kind k i.payload) [ true ↦ i ∷ rest | false ↦ rest ]

abbrev pub is_critical : Criticality → Bool
is_critical critical = true
is_critical low = false
is_critical medium = false
is_critical high = false

abbrev is_high : Criticality → Bool
is_high high = true
is_high low = false
is_high medium = false
is_high critical = false

abbrev is_production : Lifecycle → Bool
is_production production = true
is_production _ = false

abbrev pub same_segments : List Segment → List Segment → Bool
same_segments [] [] = true
same_segments [] (y ∷ ys) = false
same_segments (x ∷ xs) [] = false
same_segments (x ∷ xs) (y ∷ ys) = segment_eq x y && same_segments xs ys

canonical_schema : Payload → Bool
canonical_schema (schema_field p) =
    p.schema_field_urn === Canonical.canonical_schema_field_urn
    && p.native_field_path === Canonical.canonical_native_field_path
    && p.native_type === "uuid"
    && not p.nullable
canonical_schema _ = false

canonical_path : List String → List Segment → Payload → Bool
canonical_path nodes segments (lineage_path p) =
    same_texts p.nodes nodes && same_segments p.segments segments
canonical_path nodes segments _ = false

-- `paths.find((path) => path.targetUrn === urn)`, with the canonical nodes and segments.
path_to : String → List String → List Segment → List EvidenceItem → Bool
unfolding canonical_path
path_to urn nodes segments [] = false
path_to urn nodes segments (i ∷ items) = elim (is_text i.target_urn urn) [
  | true ↦ canonical_path nodes segments i.payload
  | false ↦ path_to urn nodes segments items
]

tags : List String
unfolding sort_strings
tags =
    sort_strings
      (Canonical.canonical_critical_tag_urn ∷ Canonical.canonical_production_tag_urn ∷ [])

-- `[[], [owner]]` has the list.
abbrev pub none_or : String → List String → Bool
none_or owner urns = same_texts urns [] || same_texts urns (owner ∷ [])

canonical_dashboard : Payload → Bool
unfolding tags
canonical_dashboard (dashboard p) =
    p.dashboard_urn === Canonical.canonical_dashboard_urn
    && p.downstream_dataset_urn === Canonical.canonical_analytics_revenue_urn
    && p.downstream_field === "analytics.customer_revenue.customer_id"
    && p.platform_name === "looker"
    && same_texts p.classification_urns tags
    && none_or Canonical.canonical_finance_owner_urn p.owner_urns
canonical_dashboard _ = false

canonical_model : Payload → Bool
unfolding tags
canonical_model (ml_model p) =
    p.model_urn === Canonical.canonical_fraud_model_urn
    && p.feature_dataset_urn === Canonical.canonical_fraud_features_urn
    && p.feature_field === "fraud.customer_features.customer_id"
    && is_production p.lifecycle
    && same_texts p.classification_urns tags
    && none_or Canonical.canonical_risk_owner_urn p.owner_urns
    && p.training_data_receipt.model_urn === Canonical.canonical_fraud_model_urn
    && p.training_data_receipt.proven_dataset_urn === Canonical.canonical_fraud_features_urn
canonical_model _ = false

canonical_query : Payload → Bool
canonical_query (query_usage p) =
    p.query_urn === Canonical.canonical_query_urn
    && p.subject_dataset_urn === Canonical.canonical_analytics_revenue_urn
    && p.subject_schema_field_urn === Canonical.canonical_query_subject_field_urn
    && p.subject_field_path === Canonical.canonical_native_field_path
    && p.normalized_statement_fingerprint === Canonical.canonical_query_statement_fingerprint
canonical_query _ = false

canonical_glossary : Payload → Bool
canonical_glossary (glossary_term p) =
    p.term_urn === Canonical.canonical_glossary_term_urn
    && p.schema_field_urn === Canonical.canonical_schema_field_urn
    && p.name === "Customer Identifier"
canonical_glossary _ = false

canonical_owner : Payload → Bool
canonical_owner (ownership p) =
    (p.asset_urn === Canonical.canonical_dashboard_urn
      && p.owner_urn === Canonical.canonical_finance_owner_urn
      && p.display_name === "Finance Analytics")
    || (p.asset_urn === Canonical.canonical_fraud_model_urn
        && p.owner_urn === Canonical.canonical_risk_owner_urn
        && p.display_name === "Risk ML")
    || (p.asset_urn === Canonical.canonical_analytics_revenue_urn
        && p.owner_urn === Canonical.canonical_finance_owner_urn
        && p.display_name === "Finance Analytics")
canonical_owner _ = false

-- `${assetUrn}\u0000${ownerUrn}` as a pair: the two agree where the owners are canonical, which
-- the schema checks too, since no canonical URN holds the separator.
abbrev pub Key : Type 0
Key = String × String

abbrev pub has_key : List Key → Key → Bool
has_key [] k = false
has_key ((a, o) ∷ keys) (b, p) = (a === b && o === p) || has_key keys (b, p)

abbrev pub add_key : Key → List Key → List Key
add_key k keys = elim (has_key keys k) [ true ↦ keys | false ↦ k ∷ keys ]

abbrev pub key_set : List Key → List Key
key_set [] = []
key_set (k ∷ ks) = add_key k (key_set ks)

owner_key : Payload → Key
owner_key (ownership p) = (p.asset_urn, p.owner_urn)
owner_key _ = ("", "")

declared_owners : Payload → List String
declared_owners (dashboard p) = p.owner_urns
declared_owners (ml_model p) = p.owner_urns
declared_owners _ = []

unfoldable pub declared_by : String → List EvidenceItem → List Key
unfolding declared_owners
declared_by urn [] = []
declared_by urn (i ∷ items) = map (λ o. (urn, o)) (declared_owners i.payload)

revenue_keys : List EvidenceItem → List Key
unfolding owner_key
revenue_keys [] = []
revenue_keys (i ∷ items) =
    let rest = revenue_keys items in
    elim ((owner_key i.payload).0 === Canonical.canonical_analytics_revenue_urn) [
      | true ↦ (Canonical.canonical_analytics_revenue_urn, (owner_key i.payload).1) ∷ rest
      | false ↦ rest
    ]

abbrev pub sole : (EvidenceItem → Bool) → List EvidenceItem → Bool
sole test [] = false
sole test (i ∷ []) = test i
sole test (i ∷ j ∷ items) = false

owner_evidence : List EvidenceItem → Bool
unfolding canonical_owner owner_key revenue_keys declared_by
owner_evidence evidence =
    let found = of_kind owners evidence in
    let keys = key_set (map (λ i. owner_key i.payload) found) in
    let declared = key_set (
      declared_by Canonical.canonical_dashboard_urn (of_kind dashboards evidence)
      ++ declared_by Canonical.canonical_fraud_model_urn (of_kind models evidence)
      ++ revenue_keys found) in
    leb (length found) 3
    && length keys == length found
    && length keys == length declared
    && all (has_key declared) keys
    && all (λ i. canonical_owner i.payload) found

-- The evidence of the canonical scenario, all of it and nothing else.
unfoldable pub canonical_evidence : List EvidenceItem → Bool
unfolding canonical_schema path_to canonical_dashboard canonical_model canonical_query
    canonical_glossary owner_evidence
canonical_evidence evidence =
    sole (λ i. canonical_schema i.payload) (of_kind schemas evidence)
    && length (of_kind paths evidence) == 2
    && path_to Canonical.canonical_dashboard_urn Canonical.dashboard_nodes
        Canonical.dashboard_segments (of_kind paths evidence)
    && path_to Canonical.canonical_fraud_model_urn Canonical.model_nodes Canonical.model_segments
        (of_kind paths evidence)
    && sole (λ i. canonical_dashboard i.payload && is_critical i.criticality)
        (of_kind dashboards evidence)
    && sole (λ i. canonical_model i.payload && is_critical i.criticality) (of_kind models evidence)
    && sole (λ i. canonical_query i.payload && is_high i.criticality) (of_kind queries evidence)
    && sole (λ i. canonical_glossary i.payload && is_high i.criticality)
        (of_kind glossaries evidence)
    && owner_evidence evidence

abbrev no_failures : List CollectionFailure → Bool
no_failures [] = true
no_failures (f ∷ fs) = false

abbrev pub is_complete : CollectionStatus → Bool
is_complete complete = true
is_complete partial = false

-- A complete context has no failures and the canonical evidence, a partial one has a failure.
unfoldable pub status_fits : CollectionStatus → ImpactContext → Bool
unfolding canonical_evidence
status_fits complete c = no_failures c.failures && canonical_evidence c.evidence
status_fits partial c = not (no_failures c.failures)
