-- ===== src/Evidence/Context.antt =====
-- packages/domain/src/evidence.ts: the checks of `impactContextSchema` on a context as a whole:
-- fingerprints, chronology, order, uniqueness and the identity of invocations.
pub mod Times
use lineageguard.Base.{
  ℕ, String, Bool, true, false, ◌&&◌, ◌||◌, Option, none, some, List, [], ◌∷◌, map, leb, ◌===◌, all,
  contains, if◌then◌else◌,
}
use lineageguard.Base.Sort.{is_sorted, is_distinct, concat_texts}
use lineageguard.Hash.{Platform}
use lineageguard.Run.Events.{IsoTime}
use lineageguard.Evidence.Items.{
  Role, schema, lineage_discovery, field_path, entity_path, entity_details, query_discovery,
  query_details, owner, glossary_binding, glossary_details, Tool, get_entities, list_schema_fields,
  get_lineage, get_lineage_paths_between, get_dataset_queries, role_name, tool_name, failure_name,
  Provenance, Payload, schema_field, lineage_path, dashboard, ml_model, query_usage, ownership,
  glossary_term, EvidenceItem, CollectionFailure, Origin, live, verified_replay, ImpactContext,
}
use lineageguard.Evidence.Identity.{
  compute_impact_context_fingerprint, compute_impact_collection_fingerprint,
}

abbrev pub evidence_ids : List EvidenceItem → List String
evidence_ids items = map (λ i. i.id) items

-- `byId.get`; the last of equal IDs counts, but the IDs are checked to be distinct.
abbrev pub find_item : List EvidenceItem → String → Option EvidenceItem
find_item [] id = none
find_item (i ∷ items) id =
    let later = find_item items id in
    elim later [ some j ↦ some j | none ↦ if i.id === id then some i else none ]

replay_bound : String → Origin → Bool
replay_bound fingerprint live = true
replay_bound fingerprint (verified_replay _ _ source) = source === fingerprint

-- `${tool}\u0000${invocationId}`.
abbrev invocation_key : Provenance → String
invocation_key e = concat_texts (tool_name e.tool ∷ "\0" ∷ e.invocation_id ∷ [])

abbrev failure_key : CollectionFailure → String
failure_key f =
    concat_texts (
      tool_name f.tool
      ∷ "\0"
      ∷ f.invocation_id
      ∷ "\0"
      ∷ failure_name f.code
      ∷ "\0"
      ∷ f.message
      ∷ [])

-- What an invocation ID stands for.
pub record Response : Type 0 where
  pub tool : Tool
  pub retrieved_at : String
  pub response_fingerprint : String

abbrev response : Provenance → Response
response e = record {
  tool = e.tool;
  retrieved_at = e.retrieved_at;
  response_fingerprint = e.response_fingerprint;
}

abbrev same_response : Response → Response → Bool
same_response r q =
    tool_name r.tool === tool_name q.tool
    && r.retrieved_at === q.retrieved_at
    && r.response_fingerprint === q.response_fingerprint

abbrev pub Responses : Type 0
Responses = List (String × Response)

unfoldable pub response_of : String → Responses → Option Response
response_of id [] = none
response_of id ((k, r) ∷ known) = if k === id then some r else response_of id known

-- The resolution's entries are set, a later one over an earlier one.
resolution_responses : Responses → List Provenance → Responses
resolution_responses known [] = known
resolution_responses known (e ∷ es) =
    resolution_responses ((e.invocation_id, response e) ∷ known) es

-- The entries of an item are set where they contradict nothing; `none` stands for the issue.
step_responses : Responses → Provenance → Option Responses
unfolding response_of
step_responses known e = elim (response_of e.invocation_id known) [
  | none ↦ some ((e.invocation_id, response e) ∷ known)
  | some r ↦
      if same_response r (response e) then some ((e.invocation_id, response e) ∷ known) else none
]

abbrev entry_responses : Option Responses → List Provenance → Option Responses
entry_responses none es = none
entry_responses (some known) [] = some known
entry_responses (some known) (e ∷ es) = entry_responses (step_responses known e) es

unfoldable pub item_responses : Option Responses → List EvidenceItem → Option Responses
unfolding step_responses
item_responses none items = none
item_responses (some known) [] = some known
item_responses (some known) (i ∷ items) =
    item_responses (entry_responses (some known) i.provenance) items

-- No failure has an ID that stands for a response.
abbrev apart_from : Option Responses → List CollectionFailure → Bool
apart_from none failures = false
apart_from (some known) failures = all free failures
  where
    free : CollectionFailure → Bool
    free f = elim (response_of f.invocation_id known) [ none ↦ true | some _ ↦ false ]

-- The semantic steps of collection, `${role}:${tool}`, that each kind of evidence must show.
abbrev Step : Type 0
Step = Role × Tool

abbrev is_step : Step → Provenance → Bool
is_step (r, t) e = role_name r === role_name e.role && tool_name t === tool_name e.tool

abbrev matches_exact : List Step → List Provenance → Bool
matches_exact [] [] = true
matches_exact [] (e ∷ es) = false
matches_exact (s ∷ ss) [] = false
matches_exact (s ∷ ss) (e ∷ es) = is_step s e && matches_exact ss es

-- One prefix step or more, and then the suffix: at each entry the rest is the suffix, or the entry
-- is one more prefix step.
abbrev repeated_then : Step → List Step → List Provenance → Bool
repeated_then prefix suffix [] = false
repeated_then prefix suffix (e ∷ es) =
    is_step prefix e && (matches_exact suffix es || repeated_then prefix suffix es)

unfoldable pub provenance_matches : Payload → List Provenance → Bool
provenance_matches (schema_field _) es = repeated_then (schema, list_schema_fields) [] es
provenance_matches (lineage_path _) es =
    repeated_then (lineage_discovery, get_lineage)
      ((field_path, get_lineage_paths_between) ∷ (entity_path, get_lineage_paths_between) ∷ []) es
provenance_matches (dashboard _) es = matches_exact ((entity_details, get_entities) ∷ []) es
provenance_matches (ml_model _) es = matches_exact ((entity_details, get_entities) ∷ []) es
provenance_matches (query_usage _) es =
    repeated_then (query_discovery, get_dataset_queries) ((query_details, get_entities) ∷ []) es
provenance_matches (ownership _) es = matches_exact ((owner, get_entities) ∷ []) es
provenance_matches (glossary_term _) es =
    repeated_then (glossary_binding, list_schema_fields) ((glossary_details, get_entities) ∷ []) es

module _ (iso : IsoTime) where
  open iso use {millis}

  abbrev pub from_time : Option ℕ → ℕ → Bool
  from_time none t = true
  from_time (some before) t = leb before t

  -- Each entry is retrieved no earlier than the one before it and no later than the collection.
  unfoldable pub chronological : ℕ → Option ℕ → List Provenance → Bool
  chronological collected before [] = true
  chronological collected before (e ∷ es) =
      from_time before (millis e.retrieved_at)
      && leb (millis e.retrieved_at) collected
      && chronological collected (some (millis e.retrieved_at)) es

  -- The time of the last entry.
  unfoldable pub last_time : Option ℕ → List Provenance → Option ℕ
  last_time before [] = before
  last_time before (e ∷ es) = last_time (some (millis e.retrieved_at)) es

  item_history : ℕ → Option ℕ → EvidenceItem → Bool
  unfolding chronological provenance_matches
  item_history collected resolved i =
      is_distinct (map (λ e. e.invocation_id) i.provenance)
      && chronological collected resolved i.provenance
      && provenance_matches i.payload i.provenance

  unfoldable pub context_history : ImpactContext → Bool
  unfolding chronological last_time item_history item_responses resolution_responses
  context_history c =
      is_distinct (map invocation_key c.resolution.provenance)
      && chronological (millis c.collected_at) none c.resolution.provenance
      && all (item_history (millis c.collected_at) (last_time none c.resolution.provenance))
          c.evidence
      && apart_from
          (item_responses (some (resolution_responses [] c.resolution.provenance)) c.evidence)
          c.failures

-- The evidence is in the order of its IDs, without repetition, and refers only to itself.
unfoldable pub evidence_order : List EvidenceItem → Bool
unfolding is_sorted
evidence_order evidence =
    is_sorted (evidence_ids evidence)
    && is_distinct (evidence_ids evidence)
    && all (λ i. is_sorted i.related_evidence_ids) evidence
    && all (λ i. all (contains (evidence_ids evidence)) i.related_evidence_ids) evidence

unfoldable pub failure_order : List CollectionFailure → Bool
unfolding is_sorted
failure_order failures =
    is_distinct (map (λ f. f.invocation_id) failures) && is_sorted (map failure_key failures)

module _ (platform : Platform) where
  unfoldable pub context_identity : ImpactContext → Bool
  unfolding compute_impact_context_fingerprint compute_impact_collection_fingerprint replay_bound
  context_identity c =
      c.impact_context_fingerprint === compute_impact_context_fingerprint platform c.context_data
      && c.collection_fingerprint === compute_impact_collection_fingerprint platform c.context_data
      && replay_bound c.impact_context_fingerprint c.collection_origin
      && c.resolution.dataset_urn === c.dataset_urn
