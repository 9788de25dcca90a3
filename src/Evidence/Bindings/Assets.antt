-- ===== src/Evidence/Bindings/Assets.antt =====
-- packages/domain/src/evidence.ts: what the bindings of accepted evidence give: the field of the
-- context, and the asset of an owner.
use mathlib.Core.List.{Memᴰ}
use lineageguard.Base.{
  String, true, false, ◌&&◌, ◌≡◌, refl, sym, ◌∙◌, subst, ◌⊎◌, inl, inr, Option, none, some, List,
  [], ◌∷◌, arith, eq_iff, Bool-cases, ◌===◌, if◌then◌else◌,
}
use lineageguard.Evidence.Items.{
  OwnerPayload, Payload, schema_field, lineage_path, dashboard, ml_model, query_usage, ownership,
  glossary_term, EvidenceItem, ImpactContext,
}
use lineageguard.Evidence.Context.{find_item}
use lineageguard.Evidence.Bindings.{
  is_text, related_item, owns_asset, owner_binding, field_binding, payload_binding, item_binding,
}

-- Evidence other than an owner is bound to the field.
pub field_binding_lem :
    (c : ImpactContext) (i : EvidenceItem)
    → item_binding c i ≡ true
    → ((o : OwnerPayload) × (i.payload ≡ ownership o)) ⊎ (field_binding c i ≡ true)
unfolding item_binding payload_binding
field_binding_lem c i h = by_payload i.payload refl h
  where
    by_payload :
        (p : Payload)
        → i.payload ≡ p
        → payload_binding c i p ≡ true
        → ((o : OwnerPayload) × (i.payload ≡ ownership o)) ⊎ (field_binding c i ≡ true)
    by_payload (ownership o) e k = inl (o, e)
    by_payload (schema_field p) e k = inr (ground arith)
    by_payload (lineage_path p) e k = inr (ground arith)
    by_payload (dashboard p) e k = inr (ground arith)
    by_payload (ml_model p) e k = inr (ground arith)
    by_payload (query_usage p) e k = inr (ground arith)
    by_payload (glossary_term p) e k = inr (ground arith)

find_item_lem :
    (items : List EvidenceItem) (id : String) (i : EvidenceItem)
    → find_item items id ≡ some i
    → Memᴰ i items × (i.id ≡ id)
find_item_lem [] id i e = cc
find_item_lem (j ∷ items) id i e =
    by_later (find_item items id) refl e (λ q. find_item_lem items id i q)
  where
    by_later :
        (later : Option EvidenceItem)
        → find_item items id ≡ later
        → elim later [ some k ↦ some k | none ↦ if j.id === id then some j else none ] ≡ some i
        → (find_item items id ≡ some i → Memᴰ i items × (i.id ≡ id))
        → Memᴰ i (j ∷ items) × (i.id ≡ id)
    by_later (some k) found same later = let (m, e) = later (found ∙ same) in (Memᴰ.tail m, e)
    by_later none found same later = elim (Bool-cases (j.id === id)) [
      | inl here ↦
          let is_j : some j ≡ some i = rw here at same in
          let is_i : i ≡ j = cc in
          (Memᴰ.head is_i, subst (λ k. k.id ≡ id) (sym is_i) ((eq_iff j.id id).0 here))
      | inr away ↦ let no : none ≡ some i = rw away at same in cc
    ]

-- An owner refers to the asset that it owns, alone, among the evidence.
pub owner_asset :
    (c : ImpactContext) (i : EvidenceItem) (o : OwnerPayload)
    → item_binding c i ≡ true
    → i.payload ≡ ownership o
    → (asset : EvidenceItem) × Memᴰ asset c.evidence
      × (i.related_evidence_ids ≡ asset.id ∷ [])
      × (owns_asset o asset.payload ≡ true)
unfolding item_binding payload_binding owner_binding related_item
owner_asset c i o h e = by_related i.related_evidence_ids refl (rw e at h)
  where
    by_item :
        (id : String) (found : Option EvidenceItem)
        → find_item c.evidence id ≡ found
        → i.related_evidence_ids ≡ id ∷ []
        → elim found [ none ↦ false | some asset ↦ owns_asset o asset.payload ] ≡ true
        → (asset : EvidenceItem) × Memᴰ asset c.evidence
          × (i.related_evidence_ids ≡ asset.id ∷ [])
          × (owns_asset o asset.payload ≡ true)
    by_item id none found ids owned = cc
    by_item id (some asset) found ids owned =
        let (m, same) = find_item_lem c.evidence id asset found in
        (asset, m, rw (ids, same) refl, owned)

    by_related :
        (ids : List String)
        → i.related_evidence_ids ≡ ids
        → (i.source_urn === o.asset_urn
            && is_text i.target_urn o.owner_urn
            && elim (related_item c.evidence ids) [
              | none ↦ false
              | some asset ↦ owns_asset o asset.payload
            ])
          ≡ true
        → (asset : EvidenceItem) × Memᴰ asset c.evidence
          × (i.related_evidence_ids ≡ asset.id ∷ [])
          × (owns_asset o asset.payload ≡ true)
    by_related [] ids k = ground arith
    by_related (id ∷ []) ids k = by_item id (find_item c.evidence id) refl ids (ground arith)
    by_related (id ∷ other ∷ more) ids k = ground arith
