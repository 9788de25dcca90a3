-- ===== src/Evidence/Shapes.antt =====
-- packages/domain/src/evidence.ts: the shapes that the schemas ask of each field: lengths, URNs,
-- identifiers, timestamps, and how many items a list has.
use Prim.Native.Char.{code}
use lineageguard.Base.{
  ℕ, String, Bool, true, false, ◌&&◌, Option, none, some, List, leb, ◌==◌, ◌===◌, all, length,
}
use lineageguard.Base.Text.{has_length, tagged_hex}
use lineageguard.Base.Sort.{is_distinct}
use lineageguard.Run.Events.{IsoTime}
use lineageguard.Evidence.Items.{
  Provenance, Role, resolution, Tool, search, Segment, field_segment, entity_segment,
  TrainingDataReceipt, Payload, schema_field, lineage_path, dashboard, ml_model, query_usage,
  ownership, glossary_term, EvidenceItem, CollectionFailure, Origin, live, verified_replay,
  Resolution, ImpactContext,
}
use lineageguard.Evidence.Canonical.{
  canonical_dataset_urn, canonical_field_path, canonical_native_field_path,
  canonical_schema_field_urn,
}

-- `z.string().startsWith(prefix)`.
unfoldable pub begins_with : String → String → Bool
begins_with String.[] s = true
begins_with (String.◌∷◌ p ps) String.[] = false
begins_with (String.◌∷◌ p ps) (String.◌∷◌ c s) = code p == code c && begins_with ps s

unfoldable pub is_urn : String → Bool
unfolding begins_with has_length
is_urn s = has_length 8 1000 s && begins_with "urn:li:" s

unfoldable pub is_fingerprint : String → Bool
unfolding tagged_hex
is_fingerprint s = tagged_hex "" 64 s

unfoldable pub is_evidence_id : String → Bool
unfolding tagged_hex
is_evidence_id s = tagged_hex "ev_" 24 s

abbrev sized {ℓ} : {A : Type ℓ} → ℕ → ℕ → List A → Bool
sized low high xs = leb low (length xs) && leb (length xs) high

abbrev maybe : (String → Bool) → Option String → Bool
maybe test none = true
maybe test (some s) = test s

segment_shape : Segment → Bool
unfolding is_urn has_length
segment_shape (field_segment s t p q) =
    is_urn s && is_urn t && has_length 1 500 p && has_length 1 500 q
segment_shape (entity_segment s t) = is_urn s && is_urn t

abbrev is_resolution_step : Provenance → Bool
is_resolution_step e = kind e.role e.tool
  where
    kind : Role → Tool → Bool
    kind resolution search = true
    kind _ _ = false

failure_shape : CollectionFailure → Bool
unfolding has_length
failure_shape f = has_length 1 160 f.invocation_id && has_length 1 500 f.message

origin_shape : Origin → Bool
unfolding is_fingerprint
origin_shape live = true
origin_shape (verified_replay m l c) = is_fingerprint m && is_fingerprint l && is_fingerprint c

module _ (iso : IsoTime) where
  open iso use {is_datetime}

  provenance_shape : Provenance → Bool
  unfolding has_length is_fingerprint
  provenance_shape e =
      has_length 1 160 e.invocation_id
      && is_datetime e.retrieved_at
      && is_fingerprint e.response_fingerprint

  receipt_shape : TrainingDataReceipt → Bool
  unfolding has_length is_urn is_fingerprint
  receipt_shape r =
      has_length 1 2048 r.endpoint
      && is_urn r.model_urn
      && is_urn r.proven_dataset_urn
      && is_fingerprint r.response_sha256
      && is_datetime r.retrieved_at

  payload_shape : Payload → Bool
  unfolding has_length is_urn is_fingerprint segment_shape receipt_shape
  payload_shape (schema_field p) =
      is_urn p.schema_field_urn
      && has_length 1 500 p.native_field_path
      && has_length 1 80 p.native_type
  payload_shape (lineage_path p) =
      sized 2 20 p.nodes
      && all is_urn p.nodes
      && sized 1 19 p.segments
      && all segment_shape p.segments
  payload_shape (dashboard p) =
      is_urn p.dashboard_urn
      && has_length 1 80 p.platform_name
      && sized 1 20 p.classification_urns
      && all is_urn p.classification_urns
      && sized 0 20 p.owner_urns
      && all is_urn p.owner_urns
      && is_urn p.downstream_dataset_urn
      && has_length 1 500 p.downstream_field
  payload_shape (ml_model p) =
      is_urn p.model_urn
      && sized 1 20 p.classification_urns
      && all is_urn p.classification_urns
      && sized 0 20 p.owner_urns
      && all is_urn p.owner_urns
      && is_urn p.feature_dataset_urn
      && has_length 1 500 p.feature_field
      && receipt_shape p.training_data_receipt
  payload_shape (query_usage p) =
      is_urn p.query_urn
      && is_urn p.subject_dataset_urn
      && is_urn p.subject_schema_field_urn
      && has_length 1 500 p.subject_field_path
      && is_fingerprint p.normalized_statement_fingerprint
  payload_shape (ownership p) =
      is_urn p.asset_urn && is_urn p.owner_urn && has_length 1 240 p.display_name
  payload_shape (glossary_term p) =
      is_urn p.term_urn
      && has_length 1 240 p.name
      && is_urn p.schema_field_urn
      && has_length 1 500 p.field_path

  -- `evidenceUnionSchema`.
  unfoldable pub item_shape : EvidenceItem → Bool
  unfolding has_length is_urn is_fingerprint is_evidence_id provenance_shape payload_shape
  item_shape i =
      is_evidence_id i.id
      && is_fingerprint i.fingerprint
      && is_urn i.source_urn
      && maybe is_urn i.target_urn
      && maybe (has_length 1 500) i.field_path
      && has_length 1 240 i.title
      && has_length 1 1000 i.summary
      && sized 1 8 i.provenance
      && all provenance_shape i.provenance
      && sized 0 20 i.related_evidence_ids
      && all is_evidence_id i.related_evidence_ids
      && is_distinct i.related_evidence_ids
      && payload_shape i.payload

  resolution_shape : Resolution → Bool
  unfolding provenance_shape
  resolution_shape r =
      r.dataset_urn === canonical_dataset_urn
      && r.schema_field_urn === canonical_schema_field_urn
      && r.native_field_path === canonical_native_field_path
      && sized 1 8 r.provenance
      && all provenance_shape r.provenance
      && all is_resolution_step r.provenance

  -- The fields of `impactContextSchema`, the evidence items apart from their hashes.
  unfoldable pub context_shape : ImpactContext → Bool
  unfolding is_fingerprint item_shape resolution_shape origin_shape failure_shape tagged_hex
  context_shape c =
      is_fingerprint c.impact_context_fingerprint
      && is_fingerprint c.collection_fingerprint
      && tagged_hex "chg_" 24 c.change_id
      && c.dataset_urn === canonical_dataset_urn
      && c.field_path === canonical_field_path
      && origin_shape c.collection_origin
      && resolution_shape c.resolution
      && is_datetime c.collected_at
      && leb (length c.evidence) 200
      && all item_shape c.evidence
      && leb (length c.failures) 20
      && all failure_shape c.failures
