-- ===== src/Impact/Kinds.antt =====
-- packages/domain/src/impact-consumer.ts: the order of kinds, distinct URNs, and URNs seen.
use lineageguard.Base.{
  ◌≡◌, refl, ap, String, Bool, true, false, ◌&&◌, ◌||◌, List, [], ◌∷◌, ◌++◌, map, ◌===◌, leb, all,
  contains, arith, eq_iff, Bool-cases, inl, inr, all-append,
}
use lineageguard.Base.Sort.{is_distinct}
use lineageguard.Impact.Consumer.{kind_ordinal, Consumer}

abbrev pub urns : List Consumer → List String
urns = map λ c. c.entity_urn

-- Kinds in their order.
abbrev pub in_order : List Consumer → Bool
in_order [] = true
in_order (c ∷ cs) = all (λ d. leb (kind_ordinal c.kind) (kind_ordinal d.kind)) cs && in_order cs

pub contains-append :
    (xs ys : List String) (s : String) → contains (xs ++ ys) s ≡ (contains xs s || contains ys s)
contains-append [] ys s = refl
contains-append (x ∷ xs) ys s = ground (arith, contains-append xs ys s)

pub distinct-snoc :
    (cs : List Consumer) (c : Consumer)
    → is_distinct (urns cs) ≡ true
    → contains (urns cs) c.entity_urn ≡ false
    → is_distinct (urns (cs ++ c ∷ [])) ≡ true
distinct-snoc [] c h k = refl
distinct-snoc (d ∷ ds) c h k = ground (
  arith,
  distinct-snoc ds c,
  urns-snoc ds c d.entity_urn,
  eq_iff d.entity_urn c.entity_urn,
  eq_iff c.entity_urn d.entity_urn,
)
  where
    urns-snoc :
        (xs : List Consumer) (y : Consumer) (s : String)
        → contains (urns (xs ++ y ∷ [])) s ≡ (contains (urns xs) s || s === y.entity_urn)
    urns-snoc [] y s = ground arith
    urns-snoc (x ∷ xs) y s = ground (arith, urns-snoc xs y s)

pub in_order-snoc :
    (cs : List Consumer) (c : Consumer)
    → in_order cs ≡ true
    → all (λ d. leb (kind_ordinal d.kind) (kind_ordinal c.kind)) cs ≡ true
    → in_order (cs ++ c ∷ []) ≡ true
in_order-snoc [] c h k = refl
in_order-snoc (d ∷ ds) c h k = ground (
  arith,
  in_order-snoc ds c,
  all-append (λ x. leb (kind_ordinal d.kind) (kind_ordinal x.kind)) ds (c ∷ []),
)

-- All URNs were seen, so those that were not are none of them.
pub unseen :
    (cs : List Consumer) (seen : List String) (s : String)
    → all (λ c. contains seen c.entity_urn) cs ≡ true
    → contains seen s ≡ false
    → contains (urns cs) s ≡ false
unseen [] seen s h k = refl
unseen (c ∷ cs) seen s h k = elim (Bool-cases (s === c.entity_urn)) [
  | inl e ↦
      let same = (eq_iff s c.entity_urn).0 e in absurd (ground (arith, ap (contains seen) same))
  | inr e ↦ ground (arith, unseen cs seen s)
]

pub more_seen :
    (cs : List Consumer) (seen more : List String)
    → all (λ c. contains seen c.entity_urn) cs ≡ true
    → all (λ c. contains (more ++ seen) c.entity_urn) cs ≡ true
more_seen [] seen more h = refl
more_seen (c ∷ cs) seen more h =
    ground (arith, more_seen cs seen more, contains-append more seen c.entity_urn)
