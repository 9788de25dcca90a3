-- ===== src/Evidence/Canonical.antt =====
-- packages/domain/src/evidence.ts: the constants of the one supported scenario.
use lineageguard.Base.{String, List, [], ◌∷◌}
use lineageguard.Evidence.Items.{Segment, field_segment, entity_segment}

abbrev pub canonical_dataset_urn : String
canonical_dataset_urn =
    "urn:li:dataset:(urn:li:dataPlatform:postgres,lineageguard-canonical.lineageguard.commerce.orders,PROD)"

abbrev pub canonical_field_path : String
canonical_field_path = "commerce.orders.customer_id"

abbrev pub canonical_native_field_path : String
canonical_native_field_path = "customer_id"

abbrev pub canonical_schema_field_urn : String
canonical_schema_field_urn =
    "urn:li:schemaField:(urn:li:dataset:(urn:li:dataPlatform:postgres,lineageguard-canonical.lineageguard.commerce.orders,PROD),customer_id)"

abbrev pub canonical_analytics_staging_urn : String
canonical_analytics_staging_urn =
    "urn:li:dataset:(urn:li:dataPlatform:postgres,lineageguard-canonical.lineageguard.analytics.stg_orders,PROD)"

abbrev pub canonical_analytics_revenue_urn : String
canonical_analytics_revenue_urn =
    "urn:li:dataset:(urn:li:dataPlatform:postgres,lineageguard-canonical.lineageguard.analytics.customer_revenue,PROD)"

abbrev pub canonical_fraud_features_urn : String
canonical_fraud_features_urn =
    "urn:li:dataset:(urn:li:dataPlatform:postgres,lineageguard-canonical.lineageguard.fraud.customer_features,PROD)"

abbrev pub canonical_dashboard_urn : String
canonical_dashboard_urn =
    "urn:li:dashboard:(looker,lineageguard-canonical.finance-revenue-dashboard)"

abbrev pub canonical_fraud_model_urn : String
canonical_fraud_model_urn =
    "urn:li:mlModel:(urn:li:dataPlatform:mlflow,lineageguard-canonical.fraud-model-v3,PROD)"

abbrev pub canonical_finance_owner_urn : String
canonical_finance_owner_urn = "urn:li:corpGroup:lineageguard-canonical.finance-analytics"

abbrev pub canonical_risk_owner_urn : String
canonical_risk_owner_urn = "urn:li:corpGroup:lineageguard-canonical.risk-ml"

abbrev pub canonical_critical_tag_urn : String
canonical_critical_tag_urn = "urn:li:tag:lineageguard-canonical.Critical"

abbrev pub canonical_production_tag_urn : String
canonical_production_tag_urn = "urn:li:tag:lineageguard-canonical.Production"

abbrev pub canonical_glossary_term_urn : String
canonical_glossary_term_urn = "urn:li:glossaryTerm:lineageguard-canonical.CustomerIdentifier"

abbrev pub canonical_query_urn : String
canonical_query_urn =
    "urn:li:query:lineageguard-canonical.system.e4bbe7075754d05de68f76ff0a9b127532e044da8ab0a357bce7e0d41f7ad22c"

abbrev pub canonical_query_subject_field_urn : String
canonical_query_subject_field_urn =
    "urn:li:schemaField:(urn:li:dataset:(urn:li:dataPlatform:postgres,lineageguard-canonical.lineageguard.analytics.customer_revenue,PROD),customer_id)"

abbrev pub canonical_query_statement_fingerprint : String
canonical_query_statement_fingerprint =
    "64e7b3dc02cac7ee25acb65562fa7c075f08abc48310bf8dd16d0c9f6ef45638"

abbrev path_nodes : String → String → List String
path_nodes consumer_dataset consumer =
    canonical_dataset_urn ∷ canonical_analytics_staging_urn ∷ consumer_dataset ∷ consumer ∷ []

abbrev path_segments : String → String → List Segment
path_segments consumer_dataset consumer =
    field_segment canonical_dataset_urn canonical_analytics_staging_urn canonical_native_field_path
      canonical_native_field_path
    ∷ field_segment canonical_analytics_staging_urn consumer_dataset canonical_native_field_path
        canonical_native_field_path
    ∷ entity_segment consumer_dataset consumer
    ∷ []

-- `canonicalDashboardPath`.
abbrev pub dashboard_nodes : List String
dashboard_nodes = path_nodes canonical_analytics_revenue_urn canonical_dashboard_urn

abbrev pub dashboard_segments : List Segment
dashboard_segments = path_segments canonical_analytics_revenue_urn canonical_dashboard_urn

-- `canonicalModelPath`.
abbrev pub model_nodes : List String
model_nodes = path_nodes canonical_fraud_features_urn canonical_fraud_model_urn

abbrev pub model_segments : List Segment
model_segments = path_segments canonical_fraud_features_urn canonical_fraud_model_urn
