-- ===== src/Risk/Grounded.antt =====
-- packages/domain/src/risk.ts: which rules a complete context triggers.
use lineageguard.Base.{
  String, Bool, true, not, ◌&&◌, ◌||◌, ◌≡◌, refl, sym, ap, ◌∙◌, inl, inr, List, [], ◌∷◌, ◌++◌,
  arith, any, select, contains, if◌then◌else◌, Bool-cases,
}
use lineageguard.Base.Sort.{sort}
use lineageguard.Base.Members.{any-Memᴰ, any-sort}
use lineageguard.Evidence.Items.{
  EvidenceItem, Payload, lineage_path, query_usage, dashboard, ml_model,
}
use lineageguard.Evidence.Complete.{is_critical, is_kind, paths, dashboards, queries}
use lineageguard.Evidence.Complete.Present.{Present}
use lineageguard.Risk.Policy.{RuleId, lg001, lg002, lg003, lg004, lg005}
use lineageguard.Risk.Evaluate.{
  triggers, rule_order, owner_assets, owned_asset, is_unowned, lacks_owner, is_path,
  is_production_model, is_query, is_dashboard,
}
use lineageguard.Risk.Reasons.{some_item}

some_item-select {ℓ} :
    {A : Type ℓ} (p : A → Bool) (xs : List A) → some_item (select p xs) ≡ any p xs
some_item-select p [] = refl
some_item-select p (x ∷ xs) = elim (Bool-cases (p x)) [
  | inl e ↦ rw (select, e) refl
  | inr e ↦ rw (select, e, some_item-select p xs) refl
]

any_ext {ℓ} :
    {A : Type ℓ} (p q : A → Bool) (xs : List A) → ((x : A) → p x ≡ q x) → any p xs ≡ any q xs
any_ext p q [] h = refl
any_ext p q (x ∷ xs) h = rw (h x, any_ext p q xs h) refl

contains-append :
    (xs ys : List String) (s : String) → contains (xs ++ ys) s ≡ (contains xs s || contains ys s)
contains-append [] ys s = refl
contains-append (x ∷ xs) ys s = ground (arith, contains-append xs ys s)

owner_assets-any :
    (items : List EvidenceItem) (urn : String)
    → contains (owner_assets items) urn ≡ any (λ i. contains (owned_asset i.payload) urn) items
owner_assets-any [] urn = refl
owner_assets-any (i ∷ items) urn =
    contains-append (owned_asset i.payload) (owner_assets items) urn
    ∙ ap (λ b. contains (owned_asset i.payload) urn || b) (owner_assets-any items urn)

-- Whether an asset of the evidence has an owner does not depend on the order of the evidence.
owner_assets-sort :
    (before : EvidenceItem → EvidenceItem → Bool) (items : List EvidenceItem) (urn : String)
    → contains (owner_assets (sort before items)) urn ≡ contains (owner_assets items) urn
owner_assets-sort before items urn =
    owner_assets-any (sort before items) urn
    ∙ any-sort (λ i. contains (owned_asset i.payload) urn) before items
    ∙ sym (owner_assets-any items urn)

lacks_owner_ext :
    (xs ys : List String) (p : Payload)
    → ((urn : String) → contains xs urn ≡ contains ys urn)
    → lacks_owner xs p ≡ lacks_owner ys p
lacks_owner_ext xs ys (dashboard p) h = ap not (h p.dashboard_urn)
lacks_owner_ext xs ys (ml_model p) h = ap not (h p.model_urn)
lacks_owner_ext xs ys _ h = refl

-- Some critical dashboard or model of the evidence has no owner there.
pub has_unowned : List EvidenceItem → Bool
has_unowned evidence = any (is_unowned (owner_assets evidence)) evidence

is_path_lem : (p : Payload) → is_kind paths p ≡ true → is_path p ≡ true
is_path_lem (lineage_path p) h = refl
is_path_lem _ h = cc

is_query_lem : (p : Payload) → is_kind queries p ≡ true → is_query p ≡ true
is_query_lem (query_usage p) h = refl
is_query_lem _ h = cc

is_dashboard_lem : (p : Payload) → is_kind dashboards p ≡ true → is_dashboard p ≡ true
is_dashboard_lem (dashboard p) h = refl
is_dashboard_lem _ h = cc

select_rules :
    (fires : RuleId → Bool)
    → fires lg001 ≡ true
    → fires lg002 ≡ true
    → fires lg003 ≡ true
    → fires lg004 ≡ true
    → select fires rule_order
      ≡ lg001 ∷ lg002 ∷ lg003 ∷ lg004 ∷ (if fires lg005 then lg005 ∷ [] else [])
select_rules fires f1 f2 f3 f4 = elim (Bool-cases (fires lg005)) [
  | inl e ↦ rw (f1, f2, f3, f4, e) refl
  | inr e ↦ rw (f1, f2, f3, f4, e) refl
]

module _ (before : EvidenceItem → EvidenceItem → Bool) (evidence : List EvidenceItem) where
  fires-lg005 : some_item (triggers lg005 (sort before evidence)) ≡ has_unowned evidence
  unfolding has_unowned
  fires-lg005 =
      some_item-select (is_unowned (owner_assets (sort before evidence))) (sort before evidence)
      ∙ any-sort (is_unowned (owner_assets (sort before evidence))) before evidence
      ∙ any_ext _ _ evidence (λ i.
        ap (λ b. is_critical i.criticality && b)
          (lacks_owner_ext _ _ i.payload (owner_assets-sort before evidence)))

  fires_any :
      (p : EvidenceItem → Bool)
      → any p evidence ≡ true
      → some_item (select p (sort before evidence)) ≡ true
  fires_any p h = some_item-select p (sort before evidence) ∙ any-sort p before evidence ∙ h

  -- A complete context triggers the rules LG001 to LG004, and LG005 as far as an owner is missing.
  pub fires-all :
      Present evidence
      → select (λ rule. some_item (triggers rule (sort before evidence))) rule_order
        ≡ lg001 ∷ lg002 ∷ lg003 ∷ lg004 ∷ (if has_unowned evidence then lg005 ∷ [] else [])
  fires-all present =
      let (t, t_in, t_kind) = present.path in
      let (m, m_in, p, m_same, m_live) = present.model in
      let (q, q_in, q_kind) = present.query in
      let (d, d_in, d_kind, d_severe) = present.board in
      select_rules (λ rule. some_item (triggers rule (sort before evidence)))
        (fires_any (λ i. is_path i.payload) (any-Memᴰ _ (is_path_lem t.payload t_kind) t_in))
        (fires_any (λ i. is_production_model i.payload)
          (any-Memᴰ _ (rw (m_same, m_live) refl) m_in))
        (fires_any (λ i. is_query i.payload) (any-Memᴰ _ (is_query_lem q.payload q_kind) q_in))
        (fires_any (λ i. is_dashboard i.payload && is_critical i.criticality)
          (any-Memᴰ _ (rw (is_dashboard_lem d.payload d_kind, d_severe) refl) d_in))
      ∙ ap (λ b. lg001 ∷ lg002 ∷ lg003 ∷ lg004 ∷ (if b then lg005 ∷ [] else [])) fires-lg005
