-- ===== src/Risk/Decision.antt =====
-- packages/domain/src/risk.ts: what an evaluation that returns has checked, and what it decides.
use mathlib.Core.List.{Memᴰ}
use lineageguard.Base.{
  String, true, not, ◌&&◌, ◌≡◌, refl, sym, ap, subst, ◌∙◌, List, [], ◌∷◌, arith, any, all, select,
  eq_iff, leb, if◌then◌else◌, ◌===◌,
}
use lineageguard.Base.Results.{returns, passed, through, returns-injective}
use lineageguard.Base.Members.{Memᴰ-select}
use lineageguard.Hash.{Platform}
use lineageguard.Run.Events.{IsoTime}
use lineageguard.Change.Proposed.{ProposedChange, is_proposed_change}
use lineageguard.Evidence.Items.{CollectionStatus, complete, partial, EvidenceItem, ImpactContext}
use lineageguard.Evidence.Canonical.{canonical_field_path}
use lineageguard.Evidence.Complete.{is_complete, status_fits, canonical_evidence}
use lineageguard.Evidence.Complete.Present.{Present, canonical_evidence-Present}
use lineageguard.Evidence.Bindings.{item_binding}
use lineageguard.Evidence.Schema.{is_impact_context}
use lineageguard.Risk.Policy.{
  RuleId, lg001, lg002, lg003, lg004, lg005, critical, block, RiskReason, is_blocking,
  is_assessment, RiskAssessment, rule_ids, derive_outcome,
}
use lineageguard.Risk.Evaluate.{
  invalid_change, invalid_context, not_bound, incomplete, invalid_time, before_collection,
  before_retrieval, invalid_assessment, level_of, triggers, rule_order, reasons_for,
  relevant_evidence, sort_evidence, retrieved_after, assessment, evaluate_grounded_risk,
}
use lineageguard.Risk.Reasons.{
  some_item, IsGrounded, reasons_for-rules, reasons_for-IsGrounded, derive_outcome-critical,
}
use lineageguard.Risk.Grounded.{has_unowned, fires-all}
use lineageguard.Risk.Relevance.{relevant_evidence_lem}

module _ (platform : Platform) (iso : IsoTime) (change : ProposedChange) (context : ImpactContext)
    (evaluated_at : String) where
  -- What an evaluation that returns has checked, and what it returns.
  pub record Evaluated (a : RiskAssessment) : Type 0 where
    pub accepted_change : is_proposed_change platform change ≡ true
    pub accepted_context : is_impact_context platform iso context ≡ true
    pub bound :
        (context.change_id === change.id && context.field_path === canonical_field_path) ≡ true
    pub whole : is_complete context.collection_status ≡ true
    pub timely :
        ((iso.is_date evaluated_at ≡ true)
          × (leb (iso.millis context.collected_at) (iso.millis evaluated_at) ≡ true)
          × (not (any (retrieved_after iso.millis (iso.millis evaluated_at)) context.evidence)
              ≡ true))
    pub reasons_given :
        reasons_for platform iso rule_order (relevant_evidence platform iso context.evidence)
        ≡ returns a.reasons
    pub result : a ≡ assessment platform iso change context evaluated_at a.reasons
    pub accepted : is_assessment iso a ≡ true

  pub evaluate_grounded_risk-Evaluated :
      (a : RiskAssessment)
      → evaluate_grounded_risk platform iso change context evaluated_at ≡ returns a
      → Evaluated a
  unfolding evaluate_grounded_risk
  evaluate_grounded_risk-Evaluated a e =
      let (h1, e1) = passed (is_proposed_change platform change) invalid_change e in
      let (h2, e2) = passed (is_impact_context platform iso context) invalid_context e1 in
      let (h3, e3) = passed _ not_bound e2 in
      let (h4, e4) = passed _ incomplete e3 in
      let (h5, e5) = passed _ invalid_time e4 in
      let (h6, e6) = passed _ before_collection e5 in
      let (h7, e7) = passed _ before_retrieval e6 in
      let (reasons, h8, e8) =
        through
          (reasons_for platform iso rule_order (relevant_evidence platform iso context.evidence))
          e7 in
      let (h9, e9) = passed _ invalid_assessment e8 in
      let same = sym (returns-injective e9) in
      let reasons_same : reasons ≡ a.reasons = ap (λ q. q.reasons) (sym same) in
      record {
        accepted_change = h1;
        accepted_context = h2;
        bound = h3;
        whole = h4;
        timely = (h5, h6, h7);
        reasons_given = h8 ∙ ap (λ rs. returns rs) reasons_same;
        result = same ∙ ap (assessment platform iso change context evaluated_at) reasons_same;
        accepted = subst (λ q. is_assessment iso q ≡ true) (sym same) h9;
      }

first_reason :
    {rule : RuleId} {rules : List RuleId} (reasons : List RiskReason)
    → rule_ids reasons ≡ rule ∷ rules
    → (r : RiskReason) × (rest : List RiskReason) × (reasons ≡ r ∷ rest) × (r.rule_id ≡ rule)
first_reason [] e = cc
first_reason (r ∷ rest) e = (r, rest, refl, cc)

triggers-Memᴰ :
    {i : EvidenceItem} (rule : RuleId) (evidence : List EvidenceItem)
    → Memᴰ i (triggers rule evidence)
    → Memᴰ i evidence
triggers-Memᴰ lg001 evidence m = (Memᴰ-select _ evidence m).0
triggers-Memᴰ lg002 evidence m = (Memᴰ-select _ evidence m).0
triggers-Memᴰ lg003 evidence m = (Memᴰ-select _ evidence m).0
triggers-Memᴰ lg004 evidence m = (Memᴰ-select _ evidence m).0
triggers-Memᴰ lg005 evidence m = (Memᴰ-select _ evidence m).0

pub status_complete :
    (c : ImpactContext)
    → is_complete c.collection_status ≡ true
    → status_fits c.collection_status c ≡ true
    → canonical_evidence c.evidence ≡ true
unfolding status_fits
status_complete c whole fits = by_status c.collection_status whole fits
  where
    by_status :
        (s : CollectionStatus)
        → is_complete s ≡ true
        → status_fits s c ≡ true
        → canonical_evidence c.evidence ≡ true
    by_status complete w f = ground arith
    by_status partial w f = cc

module _ (platform : Platform) (iso : IsoTime) (change : ProposedChange) (context : ImpactContext)
    (evaluated_at : String) (a : RiskAssessment) where
  Evaluated-bindings :
      Evaluated platform iso change context evaluated_at a
      → all (item_binding context) context.evidence ≡ true
  unfolding is_impact_context
  Evaluated-bindings k = let h = k.accepted_context in ground arith

  Evaluated-Present :
      Evaluated platform iso change context evaluated_at a → Present context.evidence
  unfolding is_impact_context
  Evaluated-Present k =
      let h = k.accepted_context in
      canonical_evidence-Present context.evidence (status_complete context k.whole (ground arith))

  -- The rules see the evidence of the context as it is, in its order by IDs.
  Evaluated-sorted :
      Evaluated platform iso change context evaluated_at a
      → relevant_evidence platform iso context.evidence
        ≡ sort_evidence platform iso context.evidence
  Evaluated-sorted k =
      let h = k.bound in
      let same : (context.field_path === canonical_field_path) ≡ true = ground arith in
      relevant_evidence_lem context ((eq_iff context.field_path canonical_field_path).0 same)
        platform iso (Evaluated-bindings k)

  Evaluated-rules :
      Evaluated platform iso change context evaluated_at a
      → rule_ids a.reasons
        ≡ lg001 ∷ lg002 ∷ lg003 ∷ lg004 ∷ (if has_unowned context.evidence then lg005 ∷ [] else [])
  unfolding sort_evidence
  Evaluated-rules k =
      reasons_for-rules platform iso rule_order _ k.reasons_given
      ∙ ap (λ evidence. select (λ rule. some_item (triggers rule evidence)) rule_order)
          (Evaluated-sorted k)
      ∙ fires-all (λ l r. platform.locale_le l.id r.id) context.evidence (Evaluated-Present k)

  Evaluated-IsGrounded :
      Evaluated platform iso change context evaluated_at a
      → (r : RiskReason) → Memᴰ r a.reasons
      → IsGrounded (sort_evidence platform iso context.evidence) r
  Evaluated-IsGrounded k r m =
      subst (λ evidence. IsGrounded evidence r) (Evaluated-sorted k)
        (reasons_for-IsGrounded platform iso rule_order _ r k.reasons_given m)

  Evaluated-critical :
      Evaluated platform iso change context evaluated_at a
      → derive_outcome a.reasons ≡ (block, critical)
  Evaluated-critical k =
      let (r, rest, same, rule) = first_reason a.reasons (Evaluated-rules k) in
      let m : Memᴰ r a.reasons = subst (Memᴰ r) (sym same) (Memᴰ.head refl) in
      let grounded = Evaluated-IsGrounded k r m in
      ap derive_outcome same
      ∙ derive_outcome-critical r rest (ap is_blocking rule) (grounded.0 ∙ ap level_of rule)

-- Whenever an evaluation against a context returns, it blocks the change at critical risk for the
-- rules LG001 to LG004, and for LG005 too exactly where a critical dashboard or model of the
-- context has no owner there.
pub evaluate_grounded_risk-blocks :
    (platform : Platform) (iso : IsoTime) (change : ProposedChange) (context : ImpactContext)
    (evaluated_at : String) (a : RiskAssessment)
    → evaluate_grounded_risk platform iso change context evaluated_at ≡ returns a
    → (a.decision ≡ block)
      × (a.risk ≡ critical)
      × (rule_ids a.reasons
          ≡ lg001
            ∷ lg002
            ∷ lg003
            ∷ lg004
            ∷ (if has_unowned context.evidence then lg005 ∷ [] else []))
evaluate_grounded_risk-blocks platform iso change context evaluated_at a e =
    let k = evaluate_grounded_risk-Evaluated platform iso change context evaluated_at a e in
    let outcome = Evaluated-critical platform iso change context evaluated_at a k in
    (
      ap (λ q. q.decision) k.result ∙ ap (λ o. o.0) outcome,
      ap (λ q. q.risk) k.result ∙ ap (λ o. o.1) outcome,
      Evaluated-rules platform iso change context evaluated_at a k,
    )
