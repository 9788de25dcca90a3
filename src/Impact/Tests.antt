-- ===== src/Impact/Tests.antt =====
-- The consumers of the canonical fixture, and the theorems at it.
use lineageguard.Base.{◌≡◌, refl, ◌↔◌, true, map, all}
use lineageguard.Base.Results.{returns}
use lineageguard.Base.Sort.{is_distinct}
use lineageguard.Evidence.Sample.{fixture, small_platform}
use lineageguard.Evidence.Identity.{normalized_evidence_identity}
use lineageguard.Hash.{stable_id}
use lineageguard.Impact.Consumer.{
  canonical_consumer_kinds, derive_impact_consumers, assert_exactly_four_consumers,
}
use lineageguard.Impact.Kinds.{in_order}
use lineageguard.Impact.Adding.{cites_one}
use lineageguard.Impact.Derived.{
  item_ids, derive_impact_consumers-distinct, assert_exactly_four_consumers-derived,
}

four_kinds : map (λ c. c.kind) (derive_impact_consumers fixture) ≡ canonical_consumer_kinds
unfolding derive_impact_consumers fixture small_platform stable_id normalized_evidence_identity
four_kinds = refl

derive_impact_consumers-distinct_example :
    (is_distinct (map (λ c. c.entity_urn) (derive_impact_consumers fixture)) ≡ true)
    × (in_order (derive_impact_consumers fixture) ≡ true)
    × (all (cites_one (item_ids fixture.evidence)) (derive_impact_consumers fixture) ≡ true)
derive_impact_consumers-distinct_example = derive_impact_consumers-distinct fixture

assert_exactly_four_consumers-derived_example :
    (assert_exactly_four_consumers (derive_impact_consumers fixture) ≡ returns tt)
    ↔ (map (λ c. c.kind) (derive_impact_consumers fixture) ≡ canonical_consumer_kinds)
assert_exactly_four_consumers-derived_example = assert_exactly_four_consumers-derived fixture
