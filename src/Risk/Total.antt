-- ===== src/Risk/Total.antt =====
-- packages/domain/src/risk.ts: when `evaluateGroundedRisk` returns.
use lineageguard.Base.{
  String, Bool, true, false, ◌≡◌, refl, sym, ap, subst, ◌∙◌, List, [], ◌∷◌, arith, all, select,
  length, eq_iff, leb, ◌===◌, if◌then◌else◌,
}
use lineageguard.Base.Text.{tagged_hex}
use lineageguard.Base.Results.{returns}
use lineageguard.Base.Order.{is_sorted-ordered}
use lineageguard.Hash.{Platform}
use lineageguard.Run.Events.{IsoTime}
use lineageguard.Change.Proposed.{ProposedChange, is_proposed_change}
use lineageguard.Evidence.Items.{EvidenceItem, ImpactContext}
use lineageguard.Evidence.Canonical.{canonical_field_path}
use lineageguard.Evidence.Shapes.{is_evidence_id, is_fingerprint, item_shape, context_shape}
use lineageguard.Evidence.Context.{evidence_ids, evidence_order, context_history}
use lineageguard.Evidence.Context.Times.{context_history_lem}
use lineageguard.Evidence.Bindings.{item_binding}
use lineageguard.Evidence.Complete.{is_complete, status_fits}
use lineageguard.Evidence.Complete.Present.{canonical_evidence-Present}
use lineageguard.Evidence.Schema.{is_impact_context}
use lineageguard.Risk.Policy.{
  RuleId, lg001, lg002, lg003, lg004, lg005, RiskLevel, low, medium, high, critical, Decision,
  allow, review, block, RiskReason, RiskAssessment, is_reason, is_assessment, rule_ids,
  derive_outcome, same_outcome, distinct_rules, ordered_rules, fits_mode,
}
use lineageguard.Risk.Evaluate.{
  rule_order, triggers, reasons_for, relevant_evidence, sort_evidence, assessment,
  evaluate_grounded_risk,
}
use lineageguard.Risk.Reasons.{some_item, reasons_for-rules}
use lineageguard.Risk.Grounded.{has_unowned, fires-all}
use lineageguard.Risk.Relevance.{relevant_evidence_lem}
use lineageguard.Risk.Decision.{status_complete}
use lineageguard.Risk.Returns.{SortsIds, Listed, sort_evidence-Listed, reasons_for-returns}

same_outcome_refl : (d : Decision) (r : RiskLevel) → same_outcome (d, r) d r ≡ true
same_outcome_refl allow low = refl
same_outcome_refl allow medium = refl
same_outcome_refl allow high = refl
same_outcome_refl allow critical = refl
same_outcome_refl review low = refl
same_outcome_refl review medium = refl
same_outcome_refl review high = refl
same_outcome_refl review critical = refl
same_outcome_refl block low = refl
same_outcome_refl block medium = refl
same_outcome_refl block high = refl
same_outcome_refl block critical = refl

item_shape-ids :
    (iso : IsoTime) (items : List EvidenceItem)
    → all (item_shape iso) items ≡ true
    → all is_evidence_id (evidence_ids items) ≡ true
unfolding item_shape
item_shape-ids iso [] h = refl
item_shape-ids iso (i ∷ items) h =
    let first : is_evidence_id i.id ≡ true = ground arith in
    let rest = item_shape-ids iso items (ground arith) in rw (first, rest) refl

length-ids : (items : List EvidenceItem) → length (evidence_ids items) ≡ length items
length-ids [] = refl
length-ids (i ∷ items) = omega (arith, length-ids items)

length-rules : (reasons : List RiskReason) → length (rule_ids reasons) ≡ length reasons
length-rules [] = refl
length-rules (r ∷ reasons) = omega (arith, length-rules reasons)

-- The rules of a complete context are few, distinct and in their order.
rules_lem :
    (b : Bool) (rules : List RuleId)
    → rules ≡ lg001 ∷ lg002 ∷ lg003 ∷ lg004 ∷ (if b then lg005 ∷ [] else [])
    → (leb (length rules) 20 ≡ true) × (distinct_rules rules ≡ true) × (ordered_rules rules ≡ true)
unfolding ordered_rules
rules_lem true rules e = rw e (refl, refl, refl)
rules_lem false rules e = rw e (refl, refl, refl)

change_id_lem :
    (platform : Platform) (change : ProposedChange)
    → is_proposed_change platform change ≡ true
    → tagged_hex "chg_" 24 change.id ≡ true
unfolding is_proposed_change
change_id_lem platform change h = ground arith

module _ (platform : Platform) (iso : IsoTime) (context : ImpactContext)
    (accepted : is_impact_context platform iso context ≡ true) where
  shape_lem : context_shape iso context ≡ true
  unfolding is_impact_context
  shape_lem = ground arith

  order_lem : evidence_order context.evidence ≡ true
  unfolding is_impact_context
  order_lem = ground arith

  history_lem : context_history iso context ≡ true
  unfolding is_impact_context
  history_lem = ground arith

  bindings_lem : all (item_binding context) context.evidence ≡ true
  unfolding is_impact_context
  bindings_lem = ground arith

  status_lem : status_fits context.collection_status context ≡ true
  unfolding is_impact_context
  status_lem = ground arith

  field_lem : context.field_path ≡ canonical_field_path
  unfolding context_shape
  field_lem = let h = shape_lem in (eq_iff context.field_path canonical_field_path).0 (ground arith)

  fingerprint_lem : is_fingerprint context.impact_context_fingerprint ≡ true
  unfolding context_shape
  fingerprint_lem = let h = shape_lem in ground arith

  -- The evidence of an accepted context.
  pub is_impact_context-Listed : Listed context.evidence
  unfolding context_shape evidence_order
  is_impact_context-Listed =
      let h = shape_lem in
      let k = order_lem in
      record {
        shaped = item_shape-ids iso context.evidence (ground arith);
        distinct = ground arith;
        in_order = is_sorted-ordered (evidence_ids context.evidence) (ground arith);
        few = rw (length-ids context.evidence) (ground arith);
      }

  rules_given :
      (agrees : SortsIds platform)
      → is_complete context.collection_status ≡ true
      → (reasons : List RiskReason) × (reasons_for platform iso rule_order
            (relevant_evidence platform iso context.evidence)
          ≡ returns reasons)
        × (all is_reason reasons ≡ true)
        × (rule_ids reasons
            ≡ lg001
              ∷ lg002
              ∷ lg003
              ∷ lg004
              ∷ (if has_unowned context.evidence then lg005 ∷ [] else []))
  unfolding sort_evidence
  rules_given agrees whole =
      let sorted = relevant_evidence_lem context field_lem platform iso bindings_lem in
      let same =
        sorted
        ∙ sort_evidence-Listed platform iso agrees context.evidence is_impact_context-Listed in
      let (reasons, e, h) =
        reasons_for-returns platform iso agrees rule_order
          (relevant_evidence platform iso context.evidence)
          (subst Listed (sym same) is_impact_context-Listed) in
      (
        reasons,
        e,
        h,
        reasons_for-rules platform iso rule_order _ e
            ∙ ap (λ evidence. select (λ rule. some_item (triggers rule evidence)) rule_order) sorted
            ∙ fires-all (λ l r. platform.locale_le l.id r.id) context.evidence
                (canonical_evidence-Present context.evidence
                  (status_complete context whole status_lem)),
      )

  assessment_lem :
      (change : ProposedChange) (evaluated_at : String) (reasons : List RiskReason)
      → tagged_hex "chg_" 24 change.id ≡ true
      → iso.is_datetime evaluated_at ≡ true
      → all is_reason reasons ≡ true
      → rule_ids reasons
        ≡ lg001 ∷ lg002 ∷ lg003 ∷ lg004 ∷ (if has_unowned context.evidence then lg005 ∷ [] else [])
      → is_assessment iso (assessment platform iso change context evaluated_at reasons) ≡ true
  unfolding is_assessment fits_mode
  assessment_lem change evaluated_at reasons id_ok time_ok h rules =
      let (few, distinct, in_order) =
        rules_lem (has_unowned context.evidence) (rule_ids reasons) rules in
      let short : leb (length reasons) 20 ≡ true =
        subst (λ n. leb n 20 ≡ true) (length-rules reasons) few in
      let outcome = same_outcome_refl (derive_outcome reasons).0 (derive_outcome reasons).1 in
      rw (id_ok, fingerprint_lem, short, h, time_ok, distinct, in_order) outcome

-- The evaluation of an accepted change against an accepted, complete context of that change
-- returns, at a time that is a timestamp no earlier than the collection of the context, on a
-- platform whose `localeCompare` orders the IDs of evidence by code units.
pub evaluate_grounded_risk-returns :
    (platform : Platform) (iso : IsoTime) (change : ProposedChange) (context : ImpactContext)
    (evaluated_at : String)
    → SortsIds platform
    → is_proposed_change platform change ≡ true
    → is_impact_context platform iso context ≡ true
    → (context.change_id === change.id) ≡ true
    → is_complete context.collection_status ≡ true
    → iso.is_datetime evaluated_at ≡ true
    → iso.is_date evaluated_at ≡ true
    → leb (iso.millis context.collected_at) (iso.millis evaluated_at) ≡ true
    → (a : RiskAssessment) × (evaluate_grounded_risk platform iso change context evaluated_at
        ≡ returns a)
unfolding evaluate_grounded_risk
evaluate_grounded_risk-returns platform iso change context evaluated_at agrees h1 h2 h3 h4 h5 h6
      h7 =
    let (reasons, e, accepted, rules) = rules_given platform iso context h2 agrees h4 in
    let field =
      (eq_iff context.field_path canonical_field_path).1 (field_lem platform iso context h2) in
    let h8 =
      context_history_lem iso context (iso.millis evaluated_at) h7
        (history_lem platform iso context h2) in
    let final =
      assessment_lem platform iso context h2 change evaluated_at reasons
        (change_id_lem platform change h1) h5 accepted rules in
    (
      assessment platform iso change context evaluated_at reasons,
      rw (h1, h2, h3, field, h4, h6, h7, h8, e, final) refl,
    )
