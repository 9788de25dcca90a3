-- ===== src/Evidence/Items.antt =====
-- packages/domain/src/evidence.ts: the data of evidence items and of an impact context.
-- A key whose schema is a single literal (`source`, `direction`, `fieldLevel`, `aspectName`, …)
-- holds no information and is not a field.
use lineageguard.Base.{String, Bool, true, false, ◌&&◌, Option, List, ◌===◌}

pub data Criticality : Type 0 where
  low medium high critical : Criticality

pub data Lifecycle : Type 0 where
  development production retired : Lifecycle

pub data Role : Type 0 where
  resolution schema lineage_discovery field_path entity_path entity_details : Role
  query_discovery query_details owner glossary_binding glossary_details : Role

pub data Tool : Type 0 where
  search get_entities list_schema_fields get_lineage : Tool
  get_lineage_paths_between get_dataset_queries : Tool

abbrev pub criticality_name : Criticality → String
criticality_name low = "LOW"
criticality_name medium = "MEDIUM"
criticality_name high = "HIGH"
criticality_name critical = "CRITICAL"

abbrev pub lifecycle_name : Lifecycle → String
lifecycle_name development = "DEVELOPMENT"
lifecycle_name production = "PRODUCTION"
lifecycle_name retired = "RETIRED"

abbrev pub role_name : Role → String
role_name resolution = "RESOLUTION"
role_name schema = "SCHEMA"
role_name lineage_discovery = "LINEAGE_DISCOVERY"
role_name field_path = "FIELD_PATH"
role_name entity_path = "ENTITY_PATH"
role_name entity_details = "ENTITY_DETAILS"
role_name query_discovery = "QUERY_DISCOVERY"
role_name query_details = "QUERY_DETAILS"
role_name owner = "OWNER"
role_name glossary_binding = "GLOSSARY_BINDING"
role_name glossary_details = "GLOSSARY_DETAILS"

abbrev pub tool_name : Tool → String
tool_name search = "search"
tool_name get_entities = "get_entities"
tool_name list_schema_fields = "list_schema_fields"
tool_name get_lineage = "get_lineage"
tool_name get_lineage_paths_between = "get_lineage_paths_between"
tool_name get_dataset_queries = "get_dataset_queries"

pub record Provenance : Type 0 where
  pub role : Role
  pub tool : Tool
  pub invocation_id : String
  pub retrieved_at : String
  pub response_fingerprint : String

pub data Segment : Type 0 where
  field_segment : (source_urn target_urn source_field_path target_field_path : String) → Segment
  entity_segment : (source_urn target_urn : String) → Segment

abbrev pub segment_source : Segment → String
segment_source (field_segment s t _ _) = s
segment_source (entity_segment s t) = s

abbrev pub segment_target : Segment → String
segment_target (field_segment s t _ _) = t
segment_target (entity_segment s t) = t

abbrev pub is_field_segment : Segment → Bool
is_field_segment (field_segment _ _ _ _) = true
is_field_segment (entity_segment _ _) = false

abbrev pub segment_eq : Segment → Segment → Bool
segment_eq (field_segment s t p q) (field_segment s' t' p' q') =
    s === s' && t === t' && p === p' && q === q'
segment_eq (entity_segment s t) (entity_segment s' t') = s === s' && t === t'
segment_eq (field_segment _ _ _ _) (entity_segment _ _) = false
segment_eq (entity_segment _ _) (field_segment _ _ _ _) = false

pub record SchemaPayload : Type 0 where
  pub schema_field_urn : String
  pub native_field_path : String
  pub native_type : String
  pub nullable : Bool

pub record PathPayload : Type 0 where
  pub nodes : List String
  pub segments : List Segment

pub record DashboardPayload : Type 0 where
  pub dashboard_urn : String
  pub platform_name : String
  pub lifecycle : Lifecycle
  pub classification_urns : List String
  pub owner_urns : List String
  pub downstream_dataset_urn : String
  pub downstream_field : String

pub record TrainingDataReceipt : Type 0 where
  pub endpoint : String
  pub model_urn : String
  pub proven_dataset_urn : String
  pub response_sha256 : String
  pub retrieved_at : String

pub record ModelPayload : Type 0 where
  pub model_urn : String
  pub lifecycle : Lifecycle
  pub classification_urns : List String
  pub owner_urns : List String
  pub feature_dataset_urn : String
  pub feature_field : String
  pub training_data_receipt : TrainingDataReceipt

pub record QueryPayload : Type 0 where
  pub query_urn : String
  pub subject_dataset_urn : String
  pub subject_schema_field_urn : String
  pub subject_field_path : String
  pub normalized_statement_fingerprint : String

pub data OwnershipType : Type 0 where
  technical_owner business_owner : OwnershipType

pub record OwnerPayload : Type 0 where
  pub asset_urn : String
  pub owner_urn : String
  pub display_name : String
  pub ownership_type : OwnershipType

pub record GlossaryPayload : Type 0 where
  pub term_urn : String
  pub name : String
  pub schema_field_urn : String
  pub field_path : String

-- `kind` and `payload`.
pub data Payload : Type 0 where
  schema_field : SchemaPayload → Payload
  lineage_path : PathPayload → Payload
  dashboard : DashboardPayload → Payload
  ml_model : ModelPayload → Payload
  query_usage : QueryPayload → Payload
  ownership : OwnerPayload → Payload
  glossary_term : GlossaryPayload → Payload

-- An item without its `id` and `fingerprint`.
pub record Draft : Type 0 where
  pub source_urn : String
  pub target_urn : Option String
  pub field_path : Option String
  pub title : String
  pub summary : String
  pub criticality : Criticality
  pub provenance : List Provenance
  pub related_evidence_ids : List String
  pub payload : Payload

pub record EvidenceItem : Type 0 where
  pub id : String
  pub fingerprint : String
  pub draft : Draft
  pub open draft use *

pub data FailureCode : Type 0 where
  timeout not_found ambiguous malformed_response unavailable tool_missing policy_violation :
      FailureCode
  response_limit pagination_limit cursor_cycle terminated schema_drift : FailureCode

abbrev pub failure_name : FailureCode → String
failure_name timeout = "TIMEOUT"
failure_name not_found = "NOT_FOUND"
failure_name ambiguous = "AMBIGUOUS"
failure_name malformed_response = "MALFORMED_RESPONSE"
failure_name unavailable = "UNAVAILABLE"
failure_name tool_missing = "TOOL_MISSING"
failure_name policy_violation = "POLICY_VIOLATION"
failure_name response_limit = "RESPONSE_LIMIT"
failure_name pagination_limit = "PAGINATION_LIMIT"
failure_name cursor_cycle = "CURSOR_CYCLE"
failure_name terminated = "TERMINATED"
failure_name schema_drift = "SCHEMA_DRIFT"

pub record CollectionFailure : Type 0 where
  pub tool : Tool
  pub invocation_id : String
  pub code : FailureCode
  pub message : String

pub data Origin : Type 0 where
  live : Origin
  verified_replay :
      (manifest_fingerprint source_live_collection_fingerprint
        source_impact_context_fingerprint : String)
      → Origin

pub data CollectionStatus : Type 0 where
  complete partial : CollectionStatus

-- The requested platform, instance, environment, database, schema, dataset and field are literals.
pub record Resolution : Type 0 where
  pub dataset_urn : String
  pub schema_field_urn : String
  pub native_field_path : String
  pub provenance : List Provenance

-- A context without its two fingerprints.
pub record ContextData : Type 0 where
  pub change_id : String
  pub dataset_urn : String
  pub field_path : String
  pub collection_origin : Origin
  pub resolution : Resolution
  pub collected_at : String
  pub collection_status : CollectionStatus
  pub evidence : List EvidenceItem
  pub failures : List CollectionFailure

pub record ImpactContext : Type 0 where
  pub impact_context_fingerprint : String
  pub collection_fingerprint : String
  pub context_data : ContextData
  pub open context_data use *
