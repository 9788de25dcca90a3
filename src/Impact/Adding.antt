-- ===== src/Impact/Adding.antt =====
-- packages/domain/src/impact-consumer.ts: what each step of a derivation keeps.
use lineageguard.Base.{
  ℕ, ◌≡◌, refl, ◌∙◌, ◌≤◌, String, Bool, true, false, List, [], ◌∷◌, ◌++◌, leb, if◌then◌else◌, all,
  contains, arith, eq_iff, Bool-cases, inl, inr, all-append,
}
use lineageguard.Base.Sort.{is_distinct}
use lineageguard.Evidence.Items.{
  schema_field, lineage_path, dashboard, ml_model, query_usage, ownership, glossary_term, Payload,
  EvidenceItem, ImpactContext,
}
use lineageguard.Impact.Consumer.{
  ConsumerKind, dashboard_group, ml_consumer, unmanaged_query, kind_ordinal, Detail, plain, reading,
  Consumer, Derivation, add_consumer, is_consumer_node, model_node, add_nodes, after_first,
  add_path, grouped, add_dashboard, add_model, add_query, for_each,
}
use lineageguard.Impact.Kinds.{
  urns, in_order, contains-append, distinct-snoc, in_order-snoc, unseen, more_seen,
}

-- One item of evidence, of the context.
abbrev pub cites_one : List String → Consumer → Bool
cites_one ids c = elim c.evidence_ids [ [] ↦ false | i ∷ [] ↦ contains ids i | i ∷ j ∷ js ↦ false ]

-- What holds of a derivation in the round of a kind.
pub record IsDerived (ids : List String) (k : ℕ) (d : Derivation) : Type 0 where
  pub distinct : is_distinct (urns d.consumers) ≡ true
  pub seen : all (λ c. contains d.seen_urns c.entity_urn) d.consumers ≡ true
  pub ordered : in_order d.consumers ≡ true
  pub up_to : all (λ c. leb (kind_ordinal c.kind) k) d.consumers ≡ true
  pub cited : all (cites_one ids) d.consumers ≡ true

module _ (ids : List String) where
  IsDerived-new :
      (c : Consumer) (also : List String) (d : Derivation)
      → contains d.seen_urns c.entity_urn ≡ false
      → cites_one ids c ≡ true
      → IsDerived ids (kind_ordinal c.kind) d
      → IsDerived ids (kind_ordinal c.kind) (record {
        consumers = d.consumers ++ c ∷ [];
        seen_urns = also ++ c.entity_urn ∷ d.seen_urns;
      })
  IsDerived-new c also d e h i = record {
    distinct =
        distinct-snoc d.consumers c i.distinct
          (unseen d.consumers d.seen_urns c.entity_urn i.seen e);
    seen =
        all-append _ d.consumers (c ∷ [])
        ∙ ground (
          arith,
          more_seen d.consumers (c.entity_urn ∷ d.seen_urns) also
              (more_seen d.consumers d.seen_urns (c.entity_urn ∷ []) i.seen),
          contains-append also (c.entity_urn ∷ d.seen_urns) c.entity_urn,
          (eq_iff c.entity_urn c.entity_urn).1 refl,
        );
    ordered = in_order-snoc d.consumers c i.ordered i.up_to;
    up_to = all-append _ d.consumers (c ∷ []) ∙ ground (arith, i.up_to);
    cited = all-append _ d.consumers (c ∷ []) ∙ ground (arith, i.cited);
  }

  IsDerived-add :
      (c : Consumer) (also : List String) (d : Derivation)
      → cites_one ids c ≡ true
      → IsDerived ids (kind_ordinal c.kind) d
      → IsDerived ids (kind_ordinal c.kind) (add_consumer c also d)
  IsDerived-add c also d h i = elim (Bool-cases (contains d.seen_urns c.entity_urn)) [
    | inl e ↦ rw e i
    | inr e ↦ rw e (IsDerived-new c also d e h i)
  ]

  pub later_kind : (k l : ℕ) (d : Derivation) → k ≤ l → IsDerived ids k d → IsDerived ids l d
  later_kind k l d h i = record {
    distinct = i.distinct;
    seen = i.seen;
    ordered = i.ordered;
    up_to = up d.consumers i.up_to;
    cited = i.cited;
  }
    where
      up :
          (cs : List Consumer)
          → all (λ c. leb (kind_ordinal c.kind) k) cs ≡ true
          → all (λ c. leb (kind_ordinal c.kind) l) cs ≡ true
      up [] a = refl
      up (c ∷ cs) a = ground (arith, up cs)

  pub IsDerived-for_each :
      (k : ℕ) (add : EvidenceItem → Payload → Derivation → Derivation)
      → ((item : EvidenceItem) (payload : Payload) (d : Derivation)
          → contains ids item.id ≡ true
          → IsDerived ids k d
          → IsDerived ids k (add item payload d))
      → (items : List EvidenceItem) (d : Derivation) → all (λ i. contains ids i.id) items ≡ true
      → IsDerived ids k d
      → IsDerived ids k (for_each add items d)
  IsDerived-for_each k add step [] d h i = i
  IsDerived-for_each k add step (item ∷ items) d h i =
      IsDerived-for_each k add step items (add item item.payload d) (ground arith)
        (step item item.payload d (ground arith) i)

  IsDerived-grouped :
      (kind : ConsumerKind) (item : EvidenceItem) (urn : String) (owners also : List String)
      (detail : Detail) (d : Derivation)
      → contains ids item.id ≡ true
      → IsDerived ids (kind_ordinal kind) d
      → IsDerived ids
          (kind_ordinal kind)
          (add_consumer (grouped kind item urn owners detail) also d)
  IsDerived-grouped kind item urn owners also detail d h i =
      IsDerived-add (grouped kind item urn owners detail) also d h i

  pub IsDerived-dashboard :
      (item : EvidenceItem) (payload : Payload) (d : Derivation)
      → contains ids item.id ≡ true
      → IsDerived ids 1 d
      → IsDerived ids 1 (add_dashboard item payload d)
  unfolding add_dashboard
  IsDerived-dashboard item (dashboard p) d h i =
      IsDerived-grouped dashboard_group item p.dashboard_urn p.owner_urns [] plain d h i
  IsDerived-dashboard item (schema_field p) d h i = i
  IsDerived-dashboard item (lineage_path p) d h i = i
  IsDerived-dashboard item (ml_model p) d h i = i
  IsDerived-dashboard item (query_usage p) d h i = i
  IsDerived-dashboard item (ownership p) d h i = i
  IsDerived-dashboard item (glossary_term p) d h i = i

  pub IsDerived-model :
      (item : EvidenceItem) (payload : Payload) (d : Derivation)
      → contains ids item.id ≡ true
      → IsDerived ids 2 d
      → IsDerived ids 2 (add_model item payload d)
  unfolding add_model
  IsDerived-model item (ml_model p) d h i =
      IsDerived-grouped ml_consumer item p.model_urn p.owner_urns (p.feature_dataset_urn ∷ [])
        (reading p.feature_dataset_urn) d h i
  IsDerived-model item (schema_field p) d h i = i
  IsDerived-model item (lineage_path p) d h i = i
  IsDerived-model item (dashboard p) d h i = i
  IsDerived-model item (query_usage p) d h i = i
  IsDerived-model item (ownership p) d h i = i
  IsDerived-model item (glossary_term p) d h i = i

  pub IsDerived-query :
      (item : EvidenceItem) (payload : Payload) (d : Derivation)
      → contains ids item.id ≡ true
      → IsDerived ids 3 d
      → IsDerived ids 3 (add_query item payload d)
  unfolding add_query
  IsDerived-query item (query_usage p) d h i =
      IsDerived-grouped unmanaged_query item p.query_urn [] [] plain d h i
  IsDerived-query item (schema_field p) d h i = i
  IsDerived-query item (lineage_path p) d h i = i
  IsDerived-query item (dashboard p) d h i = i
  IsDerived-query item (ml_model p) d h i = i
  IsDerived-query item (ownership p) d h i = i
  IsDerived-query item (glossary_term p) d h i = i

  IsDerived-nodes :
      (context : ImpactContext) (item : EvidenceItem) (nodes urns : List String) (d : Derivation)
      → contains ids item.id ≡ true
      → IsDerived ids 0 d
      → IsDerived ids 0 (add_nodes context item nodes urns d)
  unfolding add_nodes
  IsDerived-nodes context item nodes [] d h i = i
  IsDerived-nodes context item nodes (urn ∷ us) d h i =
      IsDerived-nodes context item nodes us _ h (one (is_consumer_node context urn))
    where
      one :
          (b : Bool)
          → IsDerived ids 0 (if b then add_consumer (model_node context item nodes urn) [] d else d)
      one true = IsDerived-add (model_node context item nodes urn) [] d h i
      one false = i

  pub IsDerived-path :
      (context : ImpactContext) (item : EvidenceItem) (payload : Payload) (d : Derivation)
      → contains ids item.id ≡ true
      → IsDerived ids 0 d
      → IsDerived ids 0 (add_path context item payload d)
  unfolding add_path
  IsDerived-path context item (lineage_path p) d h i =
      IsDerived-nodes context item p.nodes (after_first context p.nodes) d h i
  IsDerived-path context item (schema_field p) d h i = i
  IsDerived-path context item (dashboard p) d h i = i
  IsDerived-path context item (ml_model p) d h i = i
  IsDerived-path context item (query_usage p) d h i = i
  IsDerived-path context item (ownership p) d h i = i
  IsDerived-path context item (glossary_term p) d h i = i
