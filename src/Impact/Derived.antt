-- ===== src/Impact/Derived.antt =====
-- packages/domain/src/impact-consumer.ts: what every derivation gives, and what is left for
-- `assertExactlyFourConsumers` to check.
use lineageguard.Base.{
  suc, ◌≡◌, refl, sym, ap, ◌∙◌, ==_iff, ◌↔◌, String, true, false, List, [], ◌∷◌, map, ◌==◌, any,
  all, length, contains, arith, eq_iff,
}
use lineageguard.Base.Results.{returns, passed}
use lineageguard.Base.Sort.{is_distinct}
use lineageguard.Evidence.Items.{EvidenceItem, ImpactContext}
use lineageguard.Impact.Consumer.{
  ConsumerKind, data_model, dashboard_group, ml_consumer, unmanaged_query, kind_ordinal,
  canonical_consumer_kinds, Consumer, Derivation, add_path, add_dashboard, add_model, add_query,
  for_each, derive_impact_consumers, same_kinds, assert_exactly_four_consumers,
}
use lineageguard.Impact.Kinds.{in_order}
use lineageguard.Impact.Adding.{
  cites_one, IsDerived, later_kind, IsDerived-for_each, IsDerived-dashboard, IsDerived-model,
  IsDerived-query, IsDerived-path,
}

abbrev pub item_ids : List EvidenceItem → List String
item_ids = map λ i. i.id

more_ids :
    (x : String) (ids : List String) (xs : List EvidenceItem)
    → all (λ i. contains ids i.id) xs ≡ true
    → all (λ i. contains (x ∷ ids) i.id) xs ≡ true
more_ids x ids [] h = refl
more_ids x ids (y ∷ ys) h = ground (arith, more_ids x ids ys)

all_ids : (items : List EvidenceItem) → all (λ i. contains (item_ids items) i.id) items ≡ true
all_ids [] = refl
all_ids (x ∷ xs) =
    ground (arith, (eq_iff x.id x.id).1 refl, more_ids x.id (item_ids xs) xs (all_ids xs))

derived :
    (context : ImpactContext)
    → (d : Derivation) × (derive_impact_consumers context ≡ d.consumers)
      × IsDerived (item_ids context.evidence) 3 d
unfolding derive_impact_consumers
derived context =
    let ids = item_ids context.evidence in
    let all_in = all_ids context.evidence in
    let d0 : Derivation = record { consumers = []; seen_urns = [] } in
    let d1 = for_each (add_path context) context.evidence d0 in
    let d2 = for_each add_dashboard context.evidence d1 in
    let d3 = for_each add_model context.evidence d2 in
    let i0 : IsDerived ids 0 d0 = record {
      distinct = refl;
      seen = refl;
      ordered = refl;
      up_to = refl;
      cited = refl;
    } in
    let i1 =
      IsDerived-for_each ids 0 (add_path context) (IsDerived-path ids context) context.evidence d0
        all_in i0 in
    let i2 =
      IsDerived-for_each ids 1 add_dashboard (IsDerived-dashboard ids) context.evidence d1 all_in
        (later_kind ids 0 1 d1 (omega arith) i1) in
    let i3 =
      IsDerived-for_each ids 2 add_model (IsDerived-model ids) context.evidence d2 all_in
        (later_kind ids 1 2 d2 (omega arith) i2) in
    (
      for_each add_query context.evidence d3,
      refl,
      IsDerived-for_each ids 3 add_query (IsDerived-query ids) context.evidence d3 all_in
          (later_kind ids 2 3 d3 (omega arith) i3),
    )

-- The derived consumers have distinct URNs, stand in the canonical order of their kinds, and each
-- of them cites one item, which is of the context.
pub derive_impact_consumers-distinct :
    (context : ImpactContext)
    → (is_distinct (map (λ c. c.entity_urn) (derive_impact_consumers context)) ≡ true)
      × (in_order (derive_impact_consumers context) ≡ true)
      × (all (cites_one (item_ids context.evidence)) (derive_impact_consumers context) ≡ true)
derive_impact_consumers-distinct context =
    let (d, e, i) = derived context in rw e (i.distinct, i.ordered, i.cited)

cited_some :
    (ids : List String) (cs : List Consumer)
    → all (cites_one ids) cs ≡ true
    → any (λ c. length c.evidence_ids == 0) cs ≡ false
cited_some ids [] h = refl
cited_some ids (c ∷ cs) h = ground (arith, cited_some ids cs)

kind_ordinal-injective : (k l : ConsumerKind) → kind_ordinal k ≡ kind_ordinal l → k ≡ l
kind_ordinal-injective data_model data_model e = refl
kind_ordinal-injective data_model dashboard_group e = absurd (omega arith)
kind_ordinal-injective data_model ml_consumer e = absurd (omega arith)
kind_ordinal-injective data_model unmanaged_query e = absurd (omega arith)
kind_ordinal-injective dashboard_group data_model e = absurd (omega arith)
kind_ordinal-injective dashboard_group dashboard_group e = refl
kind_ordinal-injective dashboard_group ml_consumer e = absurd (omega arith)
kind_ordinal-injective dashboard_group unmanaged_query e = absurd (omega arith)
kind_ordinal-injective ml_consumer data_model e = absurd (omega arith)
kind_ordinal-injective ml_consumer dashboard_group e = absurd (omega arith)
kind_ordinal-injective ml_consumer ml_consumer e = refl
kind_ordinal-injective ml_consumer unmanaged_query e = absurd (omega arith)
kind_ordinal-injective unmanaged_query data_model e = absurd (omega arith)
kind_ordinal-injective unmanaged_query dashboard_group e = absurd (omega arith)
kind_ordinal-injective unmanaged_query ml_consumer e = absurd (omega arith)
kind_ordinal-injective unmanaged_query unmanaged_query e = refl

same_kinds_sound :
    (ks ls : List ConsumerKind) → same_kinds ks ls ≡ true → length ks ≡ length ls → ks ≡ ls
same_kinds_sound [] [] h e = refl
same_kinds_sound [] (l ∷ ls) h e = absurd (omega arith)
same_kinds_sound (k ∷ ks) [] h e = absurd (omega arith)
same_kinds_sound (k ∷ ks) (l ∷ ls) h e =
    ap (λ k. k ∷ ks) (kind_ordinal-injective k l (ground arith))
    ∙ ap (λ ks. l ∷ ks) (same_kinds_sound ks ls (ground arith) (ground arith))

length-kinds : (cs : List Consumer) → length (map (λ c. c.kind) cs) ≡ length cs
length-kinds [] = refl
length-kinds (c ∷ cs) = ap suc (length-kinds cs)

exactly :
    (cs : List Consumer)
    → is_distinct (map (λ c. c.entity_urn) cs) ≡ true
    → any (λ c. length c.evidence_ids == 0) cs ≡ false
    → (assert_exactly_four_consumers cs ≡ returns tt)
      ↔ (map (λ c. c.kind) cs ≡ canonical_consumer_kinds)
unfolding assert_exactly_four_consumers
exactly cs h k = (forth, back)
  where
    forth :
        assert_exactly_four_consumers cs ≡ returns tt
        → map (λ c. c.kind) cs ≡ canonical_consumer_kinds
    forth e =
        let (counted, e) = passed _ _ e in
        let (ordered, e) = passed _ _ e in
        same_kinds_sound (map (λ c. c.kind) cs) canonical_consumer_kinds ordered
          (length-kinds cs ∙ (==_iff (length cs) 4).0 counted)

    back :
        map (λ c. c.kind) cs ≡ canonical_consumer_kinds
        → assert_exactly_four_consumers cs ≡ returns tt
    back e =
        let four : length cs ≡ 4 = sym (length-kinds cs) ∙ ap length e in rw (four, e, h, k) refl

-- A derivation passes the assertion exactly when there are four consumers of the four kinds in
-- order: the assertion's checks of URNs and of evidence never refuse one.
pub assert_exactly_four_consumers-derived :
    (context : ImpactContext)
    → (assert_exactly_four_consumers (derive_impact_consumers context) ≡ returns tt)
      ↔ (map (λ c. c.kind) (derive_impact_consumers context) ≡ canonical_consumer_kinds)
assert_exactly_four_consumers-derived context =
    let (distinct, _, cited) = derive_impact_consumers-distinct context in
    exactly (derive_impact_consumers context) distinct
      (cited_some (item_ids context.evidence) (derive_impact_consumers context) cited)
