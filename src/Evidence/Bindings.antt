-- ===== src/Evidence/Bindings.antt =====
-- packages/domain/src/evidence.ts: how each kind of evidence must fit the resolved field and the
-- evidence that it refers to.
pub mod Assets
use lineageguard.Base.{
  String, Bool, true, false, not, ◌&&◌, ◌||◌, Option, none, some, List, [], ◌∷◌, ◌===◌, ◌==◌, all,
  any, contains, length, suc, if◌then◌else◌,
}
use lineageguard.Base.Sort.{is_sorted, is_distinct, concat_texts}
use lineageguard.Evidence.Items.{
  Lifecycle, development, production, retired, Segment, field_segment, entity_segment,
  segment_source, segment_target, is_field_segment, SchemaPayload, PathPayload, DashboardPayload,
  ModelPayload, QueryPayload, OwnerPayload, GlossaryPayload, Payload, schema_field, lineage_path,
  dashboard, ml_model, query_usage, ownership, glossary_term, EvidenceItem, ImpactContext,
}
use lineageguard.Evidence.Canonical.{
  canonical_native_field_path, canonical_critical_tag_urn, canonical_production_tag_urn,
}
use lineageguard.Evidence.Shapes.{begins_with}
use lineageguard.Evidence.Context.{find_item}

-- `optional === text`.
abbrev pub is_text : Option String → String → Bool
is_text none s = false
is_text (some t) s = t === s

-- `!optional`: absent or empty.
abbrev is_falsy : Option String → Bool
is_falsy none = true
is_falsy (some s) = s === ""

abbrev is_production : Lifecycle → Bool
is_production development = false
is_production production = true
is_production retired = false

abbrev no_texts : List String → Bool
no_texts [] = true
no_texts (x ∷ xs) = false

-- `s.endsWith(suffix)`, on the reversed code points.
abbrev reversed : String → String → String
reversed acc String.[] = acc
reversed acc (String.◌∷◌ c s) = reversed (String.◌∷◌ c acc) s

ends_with : String → String → Bool
unfolding begins_with
ends_with s suffix = begins_with (reversed "" suffix) (reversed "" s)

-- The path that the only related ID names, if it is a lineage path.
related_item : List EvidenceItem → List String → Option EvidenceItem
related_item evidence [] = none
related_item evidence (id ∷ []) = find_item evidence id
related_item evidence (id ∷ other ∷ ids) = none

abbrev as_path : EvidenceItem → Payload → Option (EvidenceItem × PathPayload)
as_path i (lineage_path p) = some (i, p)
as_path i (schema_field _) = none
as_path i (dashboard _) = none
as_path i (ml_model _) = none
as_path i (query_usage _) = none
as_path i (ownership _) = none
as_path i (glossary_term _) = none

related_path : List EvidenceItem → List String → Option (EvidenceItem × PathPayload)
unfolding related_item
related_path evidence ids = elim (related_item evidence ids) [
  | none ↦ none
  | some i ↦ as_path i i.payload
]

abbrev is_field_into : String → String → Segment → Bool
is_field_into dataset path (field_segment _ t _ q) = t === dataset && q === path
is_field_into dataset path (entity_segment _ _) = false

abbrev is_entity_link : String → String → Segment → Bool
is_entity_link source target (field_segment _ _ _ _) = false
is_entity_link source target (entity_segment s t) = s === source && t === target

-- Segment `k` joins node `k` to node `k + 1`, and there is one node more than segments.
abbrev joined : List String → List Segment → Bool
joined [] segments = false
joined (n ∷ []) [] = true
joined (n ∷ m ∷ nodes) [] = false
joined (n ∷ []) (s ∷ segments) = false
joined (n ∷ m ∷ nodes) (s ∷ segments) =
    segment_source s === n && segment_target s === m && joined (m ∷ nodes) segments

-- No field segment stands behind an entity segment.
abbrev fields_first : List Segment → Bool
fields_first [] = true
fields_first (field_segment _ _ _ _ ∷ segments) = fields_first segments
fields_first (entity_segment _ _ ∷ segments) = not (any is_field_segment segments)

abbrev first_field_from : String → String → List Segment → Bool
first_field_from dataset path [] = false
first_field_from dataset path (field_segment s _ p _ ∷ segments) = s === dataset && p === path
first_field_from dataset path (entity_segment _ _ ∷ segments) =
    first_field_from dataset path segments

abbrev first_node : List String → Option String
first_node [] = none
first_node (n ∷ nodes) = some n

abbrev last_node : List String → Option String
last_node [] = none
last_node (n ∷ []) = some n
last_node (n ∷ m ∷ nodes) = last_node (m ∷ nodes)

abbrev same_optional : Option String → Option String → Bool
same_optional none none = true
same_optional none (some t) = false
same_optional (some s) none = false
same_optional (some s) (some t) = s === t

-- What a dashboard or a model must show of its classification, owners and lineage path.
consumer_binding :
    List EvidenceItem
    → EvidenceItem
    → String
    → Lifecycle
    → List String
    → List String
    → String
    → String
    → Bool
unfolding is_sorted ends_with related_path
consumer_binding evidence i urn lifecycle classifications owners dataset field =
    is_text i.target_urn urn
    && is_production lifecycle
    && is_distinct classifications
    && is_sorted classifications
    && contains classifications canonical_critical_tag_urn
    && contains classifications canonical_production_tag_urn
    && is_distinct owners
    && is_sorted owners
    && ends_with field ".customer_id"
    && elim (related_path evidence i.related_evidence_ids) [
      | none ↦ false
      | some (path, p) ↦
          is_text path.target_urn urn
          && any (is_field_into dataset canonical_native_field_path) p.segments
          && any (is_entity_link dataset urn) p.segments
    ]

schema_binding : ImpactContext → EvidenceItem → SchemaPayload → Bool
schema_binding c i p =
    is_falsy i.target_urn
    && no_texts i.related_evidence_ids
    && p.schema_field_urn === c.resolution.schema_field_urn
    && p.native_field_path === c.resolution.native_field_path

path_binding : ImpactContext → EvidenceItem → PathPayload → Bool
path_binding c i p =
    is_text (first_node p.nodes) c.dataset_urn
    && same_optional (last_node p.nodes) i.target_urn
    && joined p.nodes p.segments
    && first_field_from c.dataset_urn c.resolution.native_field_path p.segments
    && fields_first p.segments
    && no_texts i.related_evidence_ids

query_binding : ImpactContext → EvidenceItem → QueryPayload → Bool
unfolding related_path
query_binding c i p =
    is_text i.target_urn p.query_urn
    && p.subject_schema_field_urn
      === concat_texts
          ("urn:li:schemaField:(" ∷ p.subject_dataset_urn ∷ "," ∷ p.subject_field_path ∷ ")" ∷ [])
    && elim (related_path c.evidence i.related_evidence_ids) [
      | none ↦ false
      | some (path, q) ↦ any (is_field_into p.subject_dataset_urn p.subject_field_path) q.segments
    ]

glossary_binding : ImpactContext → EvidenceItem → GlossaryPayload → Bool
glossary_binding c i p =
    is_text i.target_urn p.term_urn
    && p.schema_field_urn === c.resolution.schema_field_urn
    && p.field_path === c.field_path
    && no_texts i.related_evidence_ids

unfoldable pub owns_asset : OwnerPayload → Payload → Bool
owns_asset o (dashboard p) = p.dashboard_urn === o.asset_urn && contains p.owner_urns o.owner_urn
owns_asset o (ml_model p) = p.model_urn === o.asset_urn && contains p.owner_urns o.owner_urn
owns_asset o (query_usage p) = p.subject_dataset_urn === o.asset_urn
owns_asset o (schema_field _) = false
owns_asset o (lineage_path _) = false
owns_asset o (ownership _) = false
owns_asset o (glossary_term _) = false

owner_binding : ImpactContext → EvidenceItem → OwnerPayload → Bool
unfolding related_item owns_asset
owner_binding c i o =
    i.source_urn === o.asset_urn
    && is_text i.target_urn o.owner_urn
    && elim (related_item c.evidence i.related_evidence_ids) [
      | none ↦ false
      | some asset ↦ owns_asset o asset.payload
    ]

-- Evidence other than an owner is bound to the dataset and the field of the context.
abbrev pub field_binding : ImpactContext → EvidenceItem → Bool
field_binding c i = i.source_urn === c.dataset_urn && is_text i.field_path c.field_path

payload_binding : ImpactContext → EvidenceItem → Payload → Bool
unfolding schema_binding path_binding consumer_binding query_binding owner_binding glossary_binding
payload_binding c i (schema_field p) = field_binding c i && schema_binding c i p
payload_binding c i (lineage_path p) = field_binding c i && path_binding c i p
payload_binding c i (dashboard p) =
    field_binding c i
    && consumer_binding c.evidence i p.dashboard_urn p.lifecycle p.classification_urns p.owner_urns
        p.downstream_dataset_urn p.downstream_field
payload_binding c i (ml_model p) =
    field_binding c i
    && consumer_binding c.evidence i p.model_urn p.lifecycle p.classification_urns p.owner_urns
        p.feature_dataset_urn p.feature_field
    && p.training_data_receipt.model_urn === p.model_urn
    && p.training_data_receipt.proven_dataset_urn === p.feature_dataset_urn
payload_binding c i (query_usage p) = field_binding c i && query_binding c i p
payload_binding c i (ownership p) = owner_binding c i p
payload_binding c i (glossary_term p) = field_binding c i && glossary_binding c i p

unfoldable pub item_binding : ImpactContext → EvidenceItem → Bool
unfolding payload_binding
item_binding c i = payload_binding c i i.payload
