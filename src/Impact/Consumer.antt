-- ===== src/Impact/Consumer.antt =====
-- packages/domain/src/impact-consumer.ts: `deriveImpactConsumers` and `assertExactlyFourConsumers`.
-- The optional keys of the kinds of consumers are the data type `Detail`. The regular expression of
-- `extractDatasetName` demands three last parts between commas: it is read from the parts.
use Prim.Native.Char.{Char, code}
use lineageguard.Base.{
  ℕ, String, Bool, true, false, not, ◌&&◌, ◌||◌, List, [], ◌∷◌, ◌++◌, map, ◌==◌, ◌===◌, leb,
  if◌then◌else◌, any, length, contains,
}
use lineageguard.Base.Results.{Outcome, returns, ensure, ◌>>◌}
use lineageguard.Base.Sort.{is_distinct}
use lineageguard.Evidence.Items.{
  Payload, lineage_path, dashboard, ml_model, query_usage, EvidenceItem, ImpactContext,
}

pub data ConsumerKind : Type 0 where
  data_model dashboard_group ml_consumer unmanaged_query : ConsumerKind

abbrev pub kind_ordinal : ConsumerKind → ℕ
kind_ordinal data_model = 0
kind_ordinal dashboard_group = 1
kind_ordinal ml_consumer = 2
kind_ordinal unmanaged_query = 3

abbrev pub canonical_consumer_kinds : List ConsumerKind
canonical_consumer_kinds = data_model ∷ dashboard_group ∷ ml_consumer ∷ unmanaged_query ∷ []

pub data Detail : Type 0 where
  plain : Detail
  along : (lineage_path : List String) → Detail
  reading : (feature_dataset_urn : String) → Detail

pub record Consumer : Type 0 where
  pub kind : ConsumerKind
  pub title : String
  pub entity_urn : String
  pub evidence_ids : List String
  pub owners : List String
  pub detail : Detail

-- `s.startsWith(p)` and `s.includes(p)`.
abbrev pub starts_with : String → String → Bool
starts_with String.[] s = true
starts_with (String.◌∷◌ p ps) String.[] = false
starts_with (String.◌∷◌ p ps) (String.◌∷◌ c s) = code p == code c && starts_with ps s

unfoldable pub includes : String → String → Bool
includes String.[] p = starts_with p String.[]
includes (String.◌∷◌ c s) p = starts_with p (String.◌∷◌ c s) || includes s p

abbrev prepend : Char → List String → List String
prepend c [] = String.◌∷◌ c String.[] ∷ []
prepend c (p ∷ ps) = String.◌∷◌ c p ∷ ps

-- The parts between commas.
abbrev parts : String → List String
parts String.[] = "" ∷ []
parts (String.◌∷◌ c s) = let rest = parts s in if code c == b',' then "" ∷ rest else prepend c rest

-- `\w`.
abbrev is_word : ℕ → Bool
is_word c =
    (leb b'0' c && leb c b'9')
    || (leb b'A' c && leb c b'Z')
    || (leb b'a' c && leb c b'z')
    || c == b'_'

-- `^\w+\)$`, from the second character on, behind a word character.
abbrev closes : String → Bool
closes String.[] = false
closes (String.◌∷◌ c String.[]) = code c == b')'
closes (String.◌∷◌ c s) = is_word (code c) && closes s

abbrev ends_word : String → Bool
ends_word String.[] = false
ends_word (String.◌∷◌ c s) = is_word (code c) && closes s

-- The part before the last one, when there are three parts at least.
abbrev name_in : List String → String → String
name_in [] urn = urn
name_in (p ∷ []) urn = urn
name_in (p ∷ name ∷ []) urn = urn
name_in (p ∷ name ∷ end ∷ []) urn = if not (name === "") && ends_word end then name else urn
name_in (p ∷ q ∷ r ∷ s ∷ ps) urn = name_in (q ∷ r ∷ s ∷ ps) urn

unfoldable pub extract_dataset_name : String → String
extract_dataset_name urn = name_in (parts urn) urn

unfoldable pub is_intermediate_node : String → Bool
unfolding includes
is_intermediate_node urn = includes urn "stg_orders" || includes urn ".stg_"

-- `consumers` and `seenUrns`.
pub record Derivation : Type 0 where
  pub consumers : List Consumer
  pub seen_urns : List String

-- A consumer is added unless its URN was seen; `also` is marked with it.
abbrev pub add_consumer : Consumer → (also : List String) → Derivation → Derivation
add_consumer c also d = if contains d.seen_urns c.entity_urn then d else record {
  consumers = d.consumers ++ c ∷ [];
  seen_urns = also ++ c.entity_urn ∷ d.seen_urns;
}

abbrev pub feature_dataset_urns : List EvidenceItem → List String
feature_dataset_urns [] = []
feature_dataset_urns (item ∷ items) =
    let rest = feature_dataset_urns items in
    elim item.payload [ ml_model m ↦ m.feature_dataset_urn ∷ rest | _ ↦ rest ]

module _ (context : ImpactContext) where
  -- The tests of a node before `seenUrns` is asked.
  unfoldable pub is_consumer_node : String → Bool
  unfolding includes is_intermediate_node
  is_consumer_node urn =
      not (urn === "")
      && includes urn "urn:li:dataset:"
      && not (urn === context.dataset_urn)
      && not (is_intermediate_node urn)
      && not (contains (feature_dataset_urns context.evidence) urn)

  abbrev pub model_node : EvidenceItem → (nodes : List String) → String → Consumer
  unfolding extract_dataset_name
  model_node item nodes urn = record {
    kind = data_model;
    title = extract_dataset_name urn;
    entity_urn = urn;
    evidence_ids = item.id ∷ [];
    owners = [];
    detail = along nodes;
  }

  unfoldable pub add_nodes : EvidenceItem → (nodes urns : List String) → Derivation → Derivation
  unfolding model_node is_consumer_node
  add_nodes item nodes [] d = d
  add_nodes item nodes (urn ∷ urns) d =
      add_nodes item nodes urns
        (if is_consumer_node urn then add_consumer (model_node item nodes urn) [] d else d)

  -- `nodes[1], nodes[2], …`.
  abbrev pub after_first : List String → List String
  after_first [] = []
  after_first (n ∷ ns) = ns

  unfoldable pub add_path : EvidenceItem → Payload → Derivation → Derivation
  unfolding add_nodes
  add_path item (lineage_path p) d = add_nodes item p.nodes (after_first p.nodes) d
  add_path item _ d = d

abbrev pub grouped : ConsumerKind → EvidenceItem → String → List String → Detail → Consumer
grouped kind item urn owners detail = record {
  kind = kind;
  title = item.title;
  entity_urn = urn;
  evidence_ids = item.id ∷ [];
  owners = owners;
  detail = detail;
}

-- The consumer of one item in the round of its kind.
unfoldable pub add_dashboard : EvidenceItem → Payload → Derivation → Derivation
add_dashboard item (dashboard p) d =
    add_consumer (grouped dashboard_group item p.dashboard_urn p.owner_urns plain) [] d
add_dashboard item _ d = d

unfoldable pub add_model : EvidenceItem → Payload → Derivation → Derivation
add_model item (ml_model p) d =
    add_consumer (grouped ml_consumer item p.model_urn p.owner_urns (reading p.feature_dataset_urn))
      (p.feature_dataset_urn ∷ []) d
add_model item _ d = d

unfoldable pub add_query : EvidenceItem → Payload → Derivation → Derivation
add_query item (query_usage p) d =
    add_consumer (grouped unmanaged_query item p.query_urn [] plain) [] d
add_query item _ d = d

-- `for (const item of context.evidence)`.
abbrev pub for_each :
    (EvidenceItem → Payload → Derivation → Derivation) → List EvidenceItem → Derivation → Derivation
for_each add [] d = d
for_each add (item ∷ items) d = for_each add items (add item item.payload d)

unfoldable pub derive_impact_consumers : ImpactContext → List Consumer
unfolding add_path add_dashboard add_model add_query
derive_impact_consumers context =
    (for_each add_query context.evidence (
      for_each add_model context.evidence (
        for_each add_dashboard context.evidence (
          for_each (add_path context) context.evidence
            (record { consumers = []; seen_urns = [] }))))).consumers

pub data CardError : Type 0 where
  count_mismatch order_mismatch duplicate_urn without_evidence : CardError

abbrev pub same_kinds : List ConsumerKind → List ConsumerKind → Bool
same_kinds [] ks = true
same_kinds (k ∷ ks) [] = false
same_kinds (k ∷ ks) (l ∷ ls) = kind_ordinal k == kind_ordinal l && same_kinds ks ls

unfoldable pub assert_exactly_four_consumers : List Consumer → Outcome CardError (Unit {0})
assert_exactly_four_consumers consumers = do
  ensure (length consumers == length canonical_consumer_kinds) count_mismatch
  ensure (same_kinds (map (λ c. c.kind) consumers) canonical_consumer_kinds) order_mismatch
  ensure (is_distinct (map (λ c. c.entity_urn) consumers)) duplicate_urn
  ensure (not (any (λ c. length c.evidence_ids == 0) consumers)) without_evidence
  returns tt
