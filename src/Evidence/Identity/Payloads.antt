-- ===== src/Evidence/Identity/Payloads.antt =====
-- packages/domain/src/evidence.ts: the payloads of evidence as JSON.
use lineageguard.Base.{String, true, Option, none, some, List, map}
use lineageguard.Hash.{Json, null, bool, str, arr, obj, Fields, end, field, items, texts}
use lineageguard.Evidence.Items.{
  lifecycle_name, Segment, field_segment, entity_segment, TrainingDataReceipt, OwnershipType,
  technical_owner, business_owner, Payload, schema_field, lineage_path, dashboard, ml_model,
  query_usage, ownership, glossary_term, ModelPayload,
}

infixr 60 ◌∶◌⨾◌
abbrev pub ◌∶◌⨾◌ : String → Json → Fields → Fields
◌∶◌⨾◌ = field

-- `undefined ?? null`.
abbrev pub or_null : Option String → Json
or_null none = null
or_null (some s) = str s

abbrev pub text_array : List String → Json
text_array ss = arr (texts ss)

abbrev pub segment_json : Segment → Json
segment_json (field_segment s t p q) = obj (
    "granularity"
    ∶ str "FIELD" ⨾ "sourceUrn"
    ∶ str s ⨾ "targetUrn"
    ∶ str t ⨾ "sourceFieldPath"
    ∶ str p ⨾ "targetFieldPath"
    ∶ str q ⨾ end)
segment_json (entity_segment s t) =
    obj ("granularity" ∶ str "ENTITY" ⨾ "sourceUrn" ∶ str s ⨾ "targetUrn" ∶ str t ⨾ end)

abbrev pub receipt_json : TrainingDataReceipt → Json
receipt_json r = obj (
    "aspectName"
    ∶ str "mlModelTrainingData" ⨾ "credentialClass"
    ∶ str "READ" ⨾ "endpoint"
    ∶ str r.endpoint ⨾ "modelUrn"
    ∶ str r.model_urn ⨾ "provenDatasetUrn"
    ∶ str r.proven_dataset_urn ⨾ "responseSha256"
    ∶ str r.response_sha256 ⨾ "retrievedAt"
    ∶ str r.retrieved_at ⨾ end)

-- The receipt without what is particular to one retrieval.
abbrev pub proof_json : TrainingDataReceipt → Json
proof_json r = obj (
    "aspectName"
    ∶ str "mlModelTrainingData" ⨾ "credentialClass"
    ∶ str "READ" ⨾ "modelUrn"
    ∶ str r.model_urn ⨾ "provenDatasetUrn"
    ∶ str r.proven_dataset_urn ⨾ end)

abbrev pub ownership_name : OwnershipType → String
ownership_name technical_owner = "TECHNICAL_OWNER"
ownership_name business_owner = "BUSINESS_OWNER"

abbrev pub model_fields : ModelPayload → Fields → Fields
model_fields p rest =
    "modelUrn"
    ∶ str p.model_urn ⨾ "lifecycle"
    ∶ str (lifecycle_name p.lifecycle) ⨾ "classificationUrns"
    ∶ text_array p.classification_urns ⨾ "ownershipObserved"
    ∶ bool true ⨾ "ownerUrns"
    ∶ text_array p.owner_urns ⨾ "featureDatasetUrn"
    ∶ str p.feature_dataset_urn ⨾ "featureField"
    ∶ str p.feature_field ⨾ rest

abbrev pub payload_json : Payload → Json
payload_json (schema_field p) = obj (
    "schemaFieldUrn"
    ∶ str p.schema_field_urn ⨾ "nativeFieldPath"
    ∶ str p.native_field_path ⨾ "nativeType"
    ∶ str p.native_type ⨾ "nullable"
    ∶ bool p.nullable ⨾ end)
payload_json (lineage_path p) = obj (
    "direction"
    ∶ str "DOWNSTREAM" ⨾ "nodes"
    ∶ text_array p.nodes ⨾ "segments"
    ∶ arr (items (map segment_json p.segments)) ⨾ "fieldLevel"
    ∶ bool true ⨾ end)
payload_json (dashboard p) = obj (
    "dashboardUrn"
    ∶ str p.dashboard_urn ⨾ "platform"
    ∶ str p.platform_name ⨾ "lifecycle"
    ∶ str (lifecycle_name p.lifecycle) ⨾ "classificationUrns"
    ∶ text_array p.classification_urns ⨾ "ownershipObserved"
    ∶ bool true ⨾ "ownerUrns"
    ∶ text_array p.owner_urns ⨾ "downstreamDatasetUrn"
    ∶ str p.downstream_dataset_urn ⨾ "downstreamField"
    ∶ str p.downstream_field ⨾ end)
payload_json (ml_model p) =
    obj (model_fields p ("trainingDataReceipt" ∶ receipt_json p.training_data_receipt ⨾ end))
payload_json (query_usage p) = obj (
    "queryUrn"
    ∶ str p.query_urn ⨾ "source"
    ∶ str "SYSTEM" ⨾ "observationBasis"
    ∶ str "DATAHUB_QUERY_ENTITY" ⨾ "subjectDatasetUrn"
    ∶ str p.subject_dataset_urn ⨾ "subjectSchemaFieldUrn"
    ∶ str p.subject_schema_field_urn ⨾ "subjectFieldPath"
    ∶ str p.subject_field_path ⨾ "normalizedStatementFingerprint"
    ∶ str p.normalized_statement_fingerprint ⨾ end)
payload_json (ownership p) = obj (
    "assetUrn"
    ∶ str p.asset_urn ⨾ "ownerUrn"
    ∶ str p.owner_urn ⨾ "displayName"
    ∶ str p.display_name ⨾ "ownershipType"
    ∶ str (ownership_name p.ownership_type) ⨾ end)
payload_json (glossary_term p) = obj (
    "termUrn"
    ∶ str p.term_urn ⨾ "name"
    ∶ str p.name ⨾ "schemaFieldUrn"
    ∶ str p.schema_field_urn ⨾ "fieldPath"
    ∶ str p.field_path ⨾ end)

-- `semanticPayload`.
unfoldable pub semantic_payload : Payload → Json
semantic_payload (ml_model p) =
    obj (model_fields p ("trainingDataProof" ∶ proof_json p.training_data_receipt ⨾ end))
semantic_payload p = payload_json p

abbrev pub kind_name : Payload → String
kind_name (schema_field _) = "SCHEMA"
kind_name (lineage_path _) = "LINEAGE_PATH"
kind_name (dashboard _) = "DASHBOARD"
kind_name (ml_model _) = "ML_MODEL"
kind_name (query_usage _) = "QUERY_USAGE"
kind_name (ownership _) = "OWNER"
kind_name (glossary_term _) = "GLOSSARY_TERM"
