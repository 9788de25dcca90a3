-- ===== src/Evidence/Fixture/Scenario.antt =====
-- packages/domain/src/evidence.ts: the evidence of the canonical scenario, item by item.
use lineageguard.Base.{String, false, none, some, [], ◌∷◌}
use lineageguard.Base.Sort.{sort_strings, concat_texts}
use lineageguard.Hash.{Platform, str, sha256}
use lineageguard.Evidence.Items.{
  high, critical, production, Role, resolution, schema, lineage_discovery, field_path, entity_path,
  entity_details, query_discovery, query_details, owner, glossary_binding, glossary_details, Tool,
  search, get_entities, list_schema_fields, get_lineage, get_lineage_paths_between,
  get_dataset_queries, Provenance, technical_owner, business_owner, schema_field, lineage_path,
  dashboard, ml_model, query_usage, ownership, glossary_term, EvidenceItem, Resolution,
}
use lineageguard.Evidence.Canonical
use lineageguard.Evidence.Identity.{identified_item}

abbrev pub retrieved_at : String
retrieved_at = "2026-08-04T08:00:00.000Z"

-- With `encodeURIComponent` of the model's URN written out.
abbrev receipt_endpoint : String
receipt_endpoint =
    "http://127.0.0.1:8080/openapi/v3/entity/mlModel/urn%3Ali%3AmlModel%3A(urn%3Ali%3AdataPlatform%3Amlflow%2Clineageguard-canonical.fraud-model-v3%2CPROD)/mlModelTrainingData"

module _ (platform : Platform) where
  open platform use {sha256_hex, locale_le}

  unfoldable pub provenance_of : Role → Tool → String → Provenance
  unfolding sha256
  provenance_of role tool invocation_id = record {
    role = role;
    tool = tool;
    invocation_id = invocation_id;
    retrieved_at = retrieved_at;
    response_fingerprint =
        sha256 platform (str (concat_texts ("recorded-mcp-response:" ∷ invocation_id ∷ [])));
  }

  unfoldable pub canonical_resolution : Resolution
  unfolding provenance_of
  canonical_resolution = record {
    dataset_urn = Canonical.canonical_dataset_urn;
    schema_field_urn = Canonical.canonical_schema_field_urn;
    native_field_path = Canonical.canonical_native_field_path;
    provenance = provenance_of resolution search "canonical-resolution" ∷ [];
  }

  unfoldable pub schema_item : EvidenceItem
  unfolding provenance_of identified_item
  schema_item = identified_item platform (record {
    source_urn = Canonical.canonical_dataset_urn;
    target_urn = none;
    field_path = some Canonical.canonical_field_path;
    title = "orders.customer_id schema";
    summary = "The source field is a non-null uuid in PostgreSQL.";
    criticality = high;
    provenance = provenance_of schema list_schema_fields "canonical-schema" ∷ [];
    related_evidence_ids = [];
    payload = schema_field (record {
      schema_field_urn = Canonical.canonical_schema_field_urn;
      native_field_path = Canonical.canonical_native_field_path;
      native_type = "uuid";
      nullable = false;
    });
  })

  unfoldable pub analytics_path : EvidenceItem
  unfolding provenance_of identified_item
  analytics_path = identified_item platform (record {
    source_urn = Canonical.canonical_dataset_urn;
    target_urn = some Canonical.canonical_dashboard_urn;
    field_path = some Canonical.canonical_field_path;
    title = "Finance dashboard lineage path";
    summary = "customer_id flows through the revenue datasets into the Finance dashboard.";
    criticality = critical;
    provenance =
        provenance_of lineage_discovery get_lineage "canonical-lineage-discovery"
        ∷ provenance_of field_path get_lineage_paths_between "canonical-lineage-revenue-field"
        ∷ provenance_of entity_path get_lineage_paths_between "canonical-lineage-revenue-entity"
        ∷ [];
    related_evidence_ids = [];
    payload =
        lineage_path
          (record { nodes = Canonical.dashboard_nodes; segments = Canonical.dashboard_segments });
  })

  unfoldable pub dashboard_item : EvidenceItem
  unfolding provenance_of identified_item analytics_path sort_strings
  dashboard_item = identified_item platform (record {
    source_urn = Canonical.canonical_dataset_urn;
    target_urn = some Canonical.canonical_dashboard_urn;
    field_path = some Canonical.canonical_field_path;
    title = "Finance Revenue Dashboard";
    summary = "A critical Finance dashboard consumes the revenue lineage path.";
    criticality = critical;
    provenance = provenance_of entity_details get_entities "canonical-dashboard" ∷ [];
    related_evidence_ids = analytics_path.id ∷ [];
    payload = dashboard (record {
      dashboard_urn = Canonical.canonical_dashboard_urn;
      platform_name = "looker";
      lifecycle = production;
      classification_urns =
          sort_strings
            (Canonical.canonical_critical_tag_urn ∷ Canonical.canonical_production_tag_urn ∷ []);
      owner_urns = Canonical.canonical_finance_owner_urn ∷ [];
      downstream_dataset_urn = Canonical.canonical_analytics_revenue_urn;
      downstream_field = "analytics.customer_revenue.customer_id";
    });
  })

  unfoldable pub fraud_path : EvidenceItem
  unfolding provenance_of identified_item
  fraud_path = identified_item platform (record {
    source_urn = Canonical.canonical_dataset_urn;
    target_urn = some Canonical.canonical_fraud_model_urn;
    field_path = some Canonical.canonical_field_path;
    title = "Fraud model lineage path";
    summary = "customer_id flows through the fraud feature set into the production model.";
    criticality = critical;
    provenance =
        provenance_of lineage_discovery get_lineage "canonical-lineage-discovery"
        ∷ provenance_of field_path get_lineage_paths_between "canonical-lineage-fraud-field"
        ∷ provenance_of entity_path get_lineage_paths_between "canonical-lineage-fraud-entity"
        ∷ [];
    related_evidence_ids = [];
    payload =
        lineage_path
          (record { nodes = Canonical.model_nodes; segments = Canonical.model_segments });
  })

  unfoldable pub fraud_model : EvidenceItem
  unfolding provenance_of identified_item fraud_path sort_strings sha256
  fraud_model = identified_item platform (record {
    source_urn = Canonical.canonical_dataset_urn;
    target_urn = some Canonical.canonical_fraud_model_urn;
    field_path = some Canonical.canonical_field_path;
    title = "Fraud Model v3";
    summary = "The production fraud model consumes customer_features.customer_id.";
    criticality = critical;
    provenance = provenance_of entity_details get_entities "canonical-fraud-model" ∷ [];
    related_evidence_ids = fraud_path.id ∷ [];
    payload = ml_model (record {
      model_urn = Canonical.canonical_fraud_model_urn;
      lifecycle = production;
      classification_urns =
          sort_strings
            (Canonical.canonical_critical_tag_urn ∷ Canonical.canonical_production_tag_urn ∷ []);
      owner_urns = Canonical.canonical_risk_owner_urn ∷ [];
      feature_dataset_urn = Canonical.canonical_fraud_features_urn;
      feature_field = "fraud.customer_features.customer_id";
      training_data_receipt = record {
        endpoint = receipt_endpoint;
        model_urn = Canonical.canonical_fraud_model_urn;
        proven_dataset_urn = Canonical.canonical_fraud_features_urn;
        response_sha256 = sha256 platform (str "canonical-training-data-response");
        retrieved_at = retrieved_at;
      };
    });
  })

  unfoldable pub query_item : EvidenceItem
  unfolding provenance_of identified_item analytics_path
  query_item = identified_item platform (record {
    source_urn = Canonical.canonical_dataset_urn;
    target_urn = some Canonical.canonical_query_urn;
    field_path = some Canonical.canonical_field_path;
    title = "Finance close SYSTEM query";
    summary =
        "A cataloged PostgreSQL query subject references analytics.customer_revenue.customer_id.";
    criticality = high;
    provenance =
        provenance_of query_discovery get_dataset_queries "canonical-finance-query-discovery"
        ∷ provenance_of query_details get_entities "canonical-finance-query-details"
        ∷ [];
    related_evidence_ids = analytics_path.id ∷ [];
    payload = query_usage (record {
      query_urn = Canonical.canonical_query_urn;
      subject_dataset_urn = Canonical.canonical_analytics_revenue_urn;
      subject_schema_field_urn = Canonical.canonical_query_subject_field_urn;
      subject_field_path = Canonical.canonical_native_field_path;
      normalized_statement_fingerprint = Canonical.canonical_query_statement_fingerprint;
    });
  })

  unfoldable pub finance_owner : EvidenceItem
  unfolding provenance_of identified_item dashboard_item
  finance_owner = identified_item platform (record {
    source_urn = Canonical.canonical_dashboard_urn;
    target_urn = some Canonical.canonical_finance_owner_urn;
    field_path = none;
    title = "Finance Analytics owner";
    summary = "Finance Analytics owns the revenue dashboard.";
    criticality = high;
    provenance = provenance_of owner get_entities "canonical-finance-owner" ∷ [];
    related_evidence_ids = dashboard_item.id ∷ [];
    payload = ownership (record {
      asset_urn = Canonical.canonical_dashboard_urn;
      owner_urn = Canonical.canonical_finance_owner_urn;
      display_name = "Finance Analytics";
      ownership_type = business_owner;
    });
  })

  unfoldable pub risk_owner : EvidenceItem
  unfolding provenance_of identified_item fraud_model
  risk_owner = identified_item platform (record {
    source_urn = Canonical.canonical_fraud_model_urn;
    target_urn = some Canonical.canonical_risk_owner_urn;
    field_path = none;
    title = "Risk ML owner";
    summary = "Risk ML owns Fraud Model v3.";
    criticality = high;
    provenance = provenance_of owner get_entities "canonical-risk-owner" ∷ [];
    related_evidence_ids = fraud_model.id ∷ [];
    payload = ownership (record {
      asset_urn = Canonical.canonical_fraud_model_urn;
      owner_urn = Canonical.canonical_risk_owner_urn;
      display_name = "Risk ML";
      ownership_type = technical_owner;
    });
  })

  unfoldable pub revenue_owner : EvidenceItem
  unfolding provenance_of identified_item query_item
  revenue_owner = identified_item platform (record {
    source_urn = Canonical.canonical_analytics_revenue_urn;
    target_urn = some Canonical.canonical_finance_owner_urn;
    field_path = none;
    title = "Finance Analytics owner";
    summary =
        "Finance Analytics owns analytics.customer_revenue, the dataset the unmanaged Finance query reads from. Review for that query routes through this owner rather than an owner on the Query entity itself.";
    criticality = high;
    provenance = provenance_of owner get_entities "canonical-revenue-owner" ∷ [];
    related_evidence_ids = query_item.id ∷ [];
    payload = ownership (record {
      asset_urn = Canonical.canonical_analytics_revenue_urn;
      owner_urn = Canonical.canonical_finance_owner_urn;
      display_name = "Finance Analytics";
      ownership_type = technical_owner;
    });
  })

  unfoldable pub glossary_item : EvidenceItem
  unfolding provenance_of identified_item
  glossary_item = identified_item platform (record {
    source_urn = Canonical.canonical_dataset_urn;
    target_urn = some Canonical.canonical_glossary_term_urn;
    field_path = some Canonical.canonical_field_path;
    title = "Customer Identifier";
    summary = "customer_id is governed by the Customer Identifier glossary term.";
    criticality = high;
    provenance =
        provenance_of glossary_binding list_schema_fields "canonical-glossary-binding"
        ∷ provenance_of glossary_details get_entities "canonical-glossary-details"
        ∷ [];
    related_evidence_ids = [];
    payload = glossary_term (record {
      term_urn = Canonical.canonical_glossary_term_urn;
      name = "Customer Identifier";
      schema_field_urn = Canonical.canonical_schema_field_urn;
      field_path = Canonical.canonical_field_path;
    });
  })
