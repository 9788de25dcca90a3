-- ===== src/Evidence/Identity.antt =====
-- packages/domain/src/evidence.ts: the JSON values whose hashes identify evidence and contexts.
mod Payloads
unfoldable pub use Payloads.*
use lineageguard.Base.{
  String, Bool, true, ◌&&◌, Option, none, some, List, [], ◌∷◌, map, ◌===◌, if◌then◌else◌,
}
use lineageguard.Base.Sort.{sort_strings}
use lineageguard.Hash.{
  Json, null, bool, str, arr, obj, Fields, end, field, Platform, items, texts, optional, sha256,
  stable_id,
}
use lineageguard.Evidence.Items.{
  criticality_name, lifecycle_name, role_name, tool_name, failure_name, Provenance, Segment,
  field_segment, entity_segment, TrainingDataReceipt, OwnershipType, technical_owner,
  business_owner, Payload, schema_field, lineage_path, dashboard, ml_model, query_usage, ownership,
  glossary_term, ModelPayload, Draft, EvidenceItem, CollectionFailure, Origin, live,
  verified_replay, CollectionStatus, complete, partial, Resolution, ContextData,
}

abbrev same_step : Provenance → Provenance → Bool
same_step p q = tool_name p.tool === tool_name q.tool && role_name p.role === role_name q.role

-- The provenance without repeated steps: a step equal to the one before it is dropped.
abbrev distinct_steps : Option Provenance → List Provenance → List Provenance
distinct_steps none [] = []
distinct_steps (some p) [] = []
distinct_steps none (e ∷ es) = e ∷ distinct_steps (some e) es
distinct_steps (some p) (e ∷ es) =
    let rest = distinct_steps (some e) es in if same_step p e then rest else e ∷ rest

abbrev step_json : Provenance → Json
step_json e = obj (
    "source"
    ∶ str "DATAHUB_MCP" ⨾ "tool"
    ∶ str (tool_name e.tool) ⨾ "role"
    ∶ str (role_name e.role) ⨾ end)

-- `normalizedEvidenceIdentity`.
unfoldable pub normalized_evidence_identity : Draft → Json
unfolding semantic_payload sort_strings
normalized_evidence_identity d = obj (
    "kind"
    ∶ str (kind_name d.payload) ⨾ "sourceUrn"
    ∶ str d.source_urn ⨾ "targetUrn"
    ∶ or_null d.target_urn ⨾ "fieldPath"
    ∶ or_null d.field_path ⨾ "title"
    ∶ str d.title ⨾ "summary"
    ∶ str d.summary ⨾ "criticality"
    ∶ str (criticality_name d.criticality) ⨾ "payload"
    ∶ semantic_payload d.payload ⨾ "relatedEvidenceIds"
    ∶ text_array (sort_strings d.related_evidence_ids) ⨾ "provenance"
    ∶ arr (items (map step_json (distinct_steps none d.provenance))) ⨾ end)

abbrev provenance_json : Provenance → Json
provenance_json e = obj (
    "source"
    ∶ str "DATAHUB_MCP" ⨾ "role"
    ∶ str (role_name e.role) ⨾ "tool"
    ∶ str (tool_name e.tool) ⨾ "invocationId"
    ∶ str e.invocation_id ⨾ "retrievedAt"
    ∶ str e.retrieved_at ⨾ "responseFingerprint"
    ∶ str e.response_fingerprint ⨾ end)

abbrev item_json : EvidenceItem → Json
item_json i = obj (
    "id"
    ∶ str i.id ⨾ "fingerprint"
    ∶ str i.fingerprint ⨾ "sourceUrn"
    ∶ str i.source_urn ⨾
      optional "targetUrn" (or_absent i.target_urn) (
        optional "fieldPath" (or_absent i.field_path) (
          "title"
          ∶ str i.title ⨾ "summary"
          ∶ str i.summary ⨾ "criticality"
          ∶ str (criticality_name i.criticality) ⨾ "provenance"
          ∶ arr (items (map provenance_json i.provenance)) ⨾ "relatedEvidenceIds"
          ∶ text_array i.related_evidence_ids ⨾ "kind"
          ∶ str (kind_name i.payload) ⨾ "payload"
          ∶ payload_json i.payload ⨾ end)))
  where
    or_absent : Option String → Option Json
    or_absent none = none
    or_absent (some s) = some (str s)

abbrev requested_json : Json
requested_json = obj (
    "platform"
    ∶ str "postgres" ⨾ "platformInstance"
    ∶ str "lineageguard-canonical" ⨾ "environment"
    ∶ str "PROD" ⨾ "database"
    ∶ str "lineageguard" ⨾ "schema"
    ∶ str "commerce" ⨾ "dataset"
    ∶ str "orders" ⨾ "field"
    ∶ str "customer_id" ⨾ end)

abbrev failure_json : CollectionFailure → Json
failure_json f = obj (
    "tool"
    ∶ str (tool_name f.tool) ⨾ "invocationId"
    ∶ str f.invocation_id ⨾ "code"
    ∶ str (failure_name f.code) ⨾ "message"
    ∶ str f.message ⨾ end)

abbrev origin_json : Origin → Json
origin_json live = obj ("mode" ∶ str "LIVE" ⨾ end)
origin_json (verified_replay m l c) = obj (
    "mode"
    ∶ str "VERIFIED_REPLAY" ⨾ "manifestFingerprint"
    ∶ str m ⨾ "sourceLiveCollectionFingerprint"
    ∶ str l ⨾ "sourceImpactContextFingerprint"
    ∶ str c ⨾ end)

abbrev status_name : CollectionStatus → String
status_name complete = "COMPLETE"
status_name partial = "PARTIAL"

abbrev resolution_fields : Resolution → Fields → Fields
resolution_fields r rest =
    "requested"
    ∶ requested_json ⨾ "datasetUrn"
    ∶ str r.dataset_urn ⨾ "schemaFieldUrn"
    ∶ str r.schema_field_urn ⨾ "nativeFieldPath"
    ∶ str r.native_field_path ⨾ rest

abbrev context_json : ContextData → Json
context_json c = obj (
    "changeId"
    ∶ str c.change_id ⨾ "datasetUrn"
    ∶ str c.dataset_urn ⨾ "fieldPath"
    ∶ str c.field_path ⨾ "collectionOrigin"
    ∶ origin_json c.collection_origin ⨾ "resolution"
    ∶ obj (
        resolution_fields c.resolution
          ("provenance" ∶ arr (items (map provenance_json c.resolution.provenance)) ⨾ end)) ⨾
      "collectedAt"
    ∶ str c.collected_at ⨾ "collectionStatus"
    ∶ str (status_name c.collection_status) ⨾ "evidence"
    ∶ arr (items (map item_json c.evidence)) ⨾ "failures"
    ∶ arr (items (map failure_json c.failures)) ⨾ end)

-- `impactContextSemanticIdentity`: what the decision depends on, whatever the mode of collection.
unfoldable pub impact_context_semantic_identity : ContextData → Json
impact_context_semantic_identity c = obj (
    "changeId"
    ∶ str c.change_id ⨾ "datasetUrn"
    ∶ str c.dataset_urn ⨾ "fieldPath"
    ∶ str c.field_path ⨾ "resolution"
    ∶ obj (resolution_fields c.resolution end) ⨾ "collectionStatus"
    ∶ str (status_name c.collection_status) ⨾ "evidence"
    ∶ arr (items (map identified c.evidence)) ⨾ "failures"
    ∶ arr (items (map coded c.failures)) ⨾ end)
  where
    identified : EvidenceItem → Json
    identified i = obj ("id" ∶ str i.id ⨾ "fingerprint" ∶ str i.fingerprint ⨾ end)

    coded : CollectionFailure → Json
    coded f = obj ("tool" ∶ str (tool_name f.tool) ⨾ "code" ∶ str (failure_name f.code) ⨾ end)

module _ (platform : Platform) where
  unfoldable pub compute_impact_context_fingerprint : ContextData → String
  compute_impact_context_fingerprint c = sha256 platform (impact_context_semantic_identity c)

  unfoldable pub compute_impact_collection_fingerprint : ContextData → String
  compute_impact_collection_fingerprint c = sha256 platform (context_json c)

  -- `evidenceItemSchema` beyond the shape of the item.
  unfoldable pub is_identified : EvidenceItem → Bool
  is_identified i =
      i.fingerprint === sha256 platform (normalized_evidence_identity i.draft)
      && i.id === stable_id platform "ev" (normalized_evidence_identity i.draft)

  -- `createEvidence`, before the schema is applied.
  unfoldable pub identified_item : Draft → EvidenceItem
  identified_item d = record {
    id = stable_id platform "ev" (normalized_evidence_identity d);
    fingerprint = sha256 platform (normalized_evidence_identity d);
    draft = d;
  }
