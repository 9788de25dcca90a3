-- ===== src/Risk/Relevance.antt =====
-- packages/domain/src/risk.ts: in an accepted context all evidence is relevant, so that every rule
-- sees all of it.
use mathlib.Core.List.{Memᴰ}
use lineageguard.Base.{
  String, true, false, ◌&&◌, ◌≡◌, refl, ap, subst, ◌∙◌, inl, inr, List, [], ◌∷◌, arith, any, all,
  select, Bool-cases, ◌===◌, contains, eq_iff,
}
use lineageguard.Base.Members.{all-Memᴰ, any-Memᴰ, select-all}
use lineageguard.Hash.{Platform}
use lineageguard.Run.Events.{IsoTime}
use lineageguard.Evidence.Items.{
  EvidenceItem, ImpactContext, Payload, schema_field, lineage_path, dashboard, ml_model,
  query_usage, glossary_term, ownership, OwnerPayload,
}
use lineageguard.Evidence.Canonical.{canonical_field_path}
use lineageguard.Evidence.Bindings.{is_text, owns_asset, item_binding}
use lineageguard.Evidence.Bindings.Assets.{field_binding_lem, owner_asset}
use lineageguard.Risk.Evaluate.{
  is_owner, is_connected, connected_ids, is_relevant, relevant_evidence, sort_evidence,
}

connected_any :
    (items : List EvidenceItem) (id : String)
    → contains (connected_ids items) id ≡ any (λ i. is_connected i && id === i.id) items
connected_any [] id = refl
connected_any (i ∷ items) id = elim (Bool-cases (is_connected i)) [
  | inl e ↦ rw (select, e, connected_any items id) refl
  | inr e ↦ rw (select, e, connected_any items id) refl
]

connected-Memᴰ :
    (items : List EvidenceItem) {i : EvidenceItem}
    → Memᴰ i items
    → is_connected i ≡ true
    → contains (connected_ids items) i.id ≡ true
connected-Memᴰ items {i} m h =
    connected_any items i.id
    ∙ any-Memᴰ (λ j. is_connected j && i.id === j.id) (rw (h, (eq_iff i.id i.id).1 refl) refl) m

not_owner :
    (o : OwnerPayload) (i : EvidenceItem) → owns_asset o i.payload ≡ true → is_owner i ≡ false
unfolding owns_asset
not_owner o i h = by_payload i.payload refl h
  where
    by_payload : (p : Payload) → i.payload ≡ p → owns_asset o p ≡ true → is_owner i ≡ false
    by_payload (dashboard p) e k = rw e refl
    by_payload (ml_model p) e k = rw e refl
    by_payload (query_usage p) e k = rw e refl
    by_payload _ e k = cc

owner_payload :
    (i : EvidenceItem) → is_owner i ≡ true → (o : OwnerPayload) × (i.payload ≡ ownership o)
owner_payload i h = by_payload i.payload refl
  where
    by_payload : (p : Payload) → i.payload ≡ p → (o : OwnerPayload) × (i.payload ≡ ownership o)
    by_payload (ownership o) e = (o, e)
    by_payload (schema_field p) e = let no : false ≡ true = rw e at h in cc
    by_payload (lineage_path p) e = let no : false ≡ true = rw e at h in cc
    by_payload (dashboard p) e = let no : false ≡ true = rw e at h in cc
    by_payload (ml_model p) e = let no : false ≡ true = rw e at h in cc
    by_payload (query_usage p) e = let no : false ≡ true = rw e at h in cc
    by_payload (glossary_term p) e = let no : false ≡ true = rw e at h in cc

module _ (c : ImpactContext) (bound : c.field_path ≡ canonical_field_path) where
  pub connected_lem :
      (i : EvidenceItem) → item_binding c i ≡ true → is_owner i ≡ false → is_connected i ≡ true
  connected_lem i h other = elim (field_binding_lem c i h) [
    | inl (o, e) ↦ let no : true ≡ false = rw e at other in cc
    | inr field ↦
        let text : is_text i.field_path c.field_path ≡ true = ground arith in
        let bound_text : is_text i.field_path canonical_field_path ≡ true =
          subst (λ s. is_text i.field_path s ≡ true) bound text in
        rw (other, bound_text) refl
  ]

  relevant_lem :
      (i : EvidenceItem)
      → all (item_binding c) c.evidence ≡ true
      → Memᴰ i c.evidence
      → is_relevant (connected_ids c.evidence) i ≡ true
  relevant_lem i h m = elim (Bool-cases (is_owner i)) [
    | inl owner ↦
        let (o, e) = owner_payload i owner in
        let (asset, n, ids, owned) = owner_asset c i o (all-Memᴰ (item_binding c) h m) e in
        let linked =
          connected-Memᴰ c.evidence n
            (connected_lem asset (all-Memᴰ (item_binding c) h n) (not_owner o asset owned)) in
        rw (ids, linked) (ground arith)
    | inr other ↦
        let linked =
          connected-Memᴰ c.evidence m (connected_lem i (all-Memᴰ (item_binding c) h m) other) in
        rw linked refl
  ]

  -- The evidence that the rules see is all of the evidence.
  pub relevant_evidence_lem :
      (platform : Platform) (iso : IsoTime)
      → all (item_binding c) c.evidence ≡ true
      → relevant_evidence platform iso c.evidence ≡ sort_evidence platform iso c.evidence
  unfolding relevant_evidence
  relevant_evidence_lem platform iso h =
      ap (sort_evidence platform iso)
        (select-all (is_relevant (connected_ids c.evidence)) c.evidence (λ i m. relevant_lem i h m))
