-- ===== src/Risk/Binding.antt =====
-- packages/domain/src/risk.ts: the binding of an assessment and the comparison with the baseline.
use lineageguard.Base.{
  String, true, not, ◌≡◌, refl, sym, ap, ◌∙◌, none, some, Option, List, [], ◌∷◌, arith, eq_iff,
  ◌===◌, ◌==◌, if◌then◌else◌,
}
use lineageguard.Base.Results.{returns, passed, through, returns-injective}
use lineageguard.Base.Sort.{same_texts}
use lineageguard.Base.Order.{same_texts_lem}
use lineageguard.Hash.{Platform}
use lineageguard.Run.Events.{IsoTime}
use lineageguard.Change.Proposed.{ProposedChange, is_proposed_change}
use lineageguard.Evidence.Items.{ImpactContext}
use lineageguard.Evidence.Schema.{is_impact_context}
use lineageguard.Risk.Policy.{
  RuleId, lg001, lg002, lg003, lg004, lg005, RiskLevel, low, medium, high, critical, Decision,
  allow, review, block, ContextMode, repository_only, datahub_grounded, RiskReason, RiskAssessment,
  is_assessment, rule_index, risk_eq, decision_eq,
}
use lineageguard.Risk.Evaluate.{
  invalid_change, invalid_context, invalid_assessment, identity_mismatch, not_authoritative,
  unknown_evidence, invalid_comparison, same_option, same_mode, same_reasons, same_assessment,
  evaluate_grounded_risk, evaluate_repository_baseline, bind_grounded_risk_assessment,
  RiskComparison, compare_authoritative_risk,
}
use lineageguard.Risk.Grounded.{has_unowned}
use lineageguard.Risk.Decision.{evaluate_grounded_risk-blocks}

rule_lem : (r q : RuleId) → (rule_index r == rule_index q) ≡ true → r ≡ q
rule_lem lg001 lg001 h = refl
rule_lem lg002 lg002 h = refl
rule_lem lg003 lg003 h = refl
rule_lem lg004 lg004 h = refl
rule_lem lg005 lg005 h = refl
rule_lem _ _ h = cc

level_lem : (r q : RiskLevel) → risk_eq r q ≡ true → r ≡ q
level_lem low low h = refl
level_lem medium medium h = refl
level_lem high high h = refl
level_lem critical critical h = refl
level_lem _ _ h = cc

decision_lem : (r q : Decision) → decision_eq r q ≡ true → r ≡ q
decision_lem allow allow h = refl
decision_lem review review h = refl
decision_lem block block h = refl
decision_lem _ _ h = cc

mode_lem : (r q : ContextMode) → same_mode r q ≡ true → r ≡ q
mode_lem repository_only repository_only h = refl
mode_lem datahub_grounded datahub_grounded h = refl
mode_lem _ _ h = cc

option_lem : (r q : Option String) → same_option r q ≡ true → r ≡ q
option_lem none none h = refl
option_lem (some s) (some t) h = ap some ((eq_iff s t).0 h)
option_lem _ _ h = cc

reason_lem :
    (r q : RiskReason)
    → (rule_index r.rule_id == rule_index q.rule_id) ≡ true
    → (r.message === q.message) ≡ true
    → same_texts r.evidence_ids q.evidence_ids ≡ true
    → risk_eq r.severity q.severity ≡ true
    → r ≡ q
reason_lem r q h1 h2 h3 h4 = λ t. record {
  rule_id = rule_lem r.rule_id q.rule_id h1 t;
  message = (eq_iff r.message q.message).0 h2 t;
  evidence_ids = same_texts_lem r.evidence_ids q.evidence_ids h3 t;
  severity = level_lem r.severity q.severity h4 t;
}

reasons_lem : (rs qs : List RiskReason) → same_reasons rs qs ≡ true → rs ≡ qs
reasons_lem [] [] h = refl
reasons_lem (r ∷ rs) (q ∷ qs) h =
    let e1 = reason_lem r q (ground arith) (ground arith) (ground arith) (ground arith) in
    let e2 = reasons_lem rs qs (ground arith) in cc
reasons_lem _ _ h = cc

-- Two assessments with the same JSON text are the same.
pub same_assessment_lem : (a b : RiskAssessment) → same_assessment a b ≡ true → a ≡ b
unfolding same_assessment
same_assessment_lem a b h =
    let e1 = (eq_iff a.change_id b.change_id).0 (ground arith) in
    let e2 = option_lem a.impact_context_fingerprint b.impact_context_fingerprint (ground arith) in
    let e3 = mode_lem a.context_mode b.context_mode (ground arith) in
    let e4 = decision_lem a.decision b.decision (ground arith) in
    let e5 = level_lem a.risk b.risk (ground arith) in
    let e6 = reasons_lem a.reasons b.reasons (ground arith) in
    let e7 = (eq_iff a.evaluated_at b.evaluated_at).0 (ground arith) in
    λ t. record {
      change_id = e1 t;
      impact_context_fingerprint = e2 t;
      context_mode = e3 t;
      decision = e4 t;
      risk = e5 t;
      reasons = e6 t;
      evaluated_at = e7 t;
    }

-- The binding returns only the assessment that it is given, and that one only where it is the
-- evaluation of the change against the context at the assessment's own time.
pub bind_grounded_risk_assessment-authoritative :
    (platform : Platform) (iso : IsoTime) (change : ProposedChange) (context : ImpactContext)
    (given bound : RiskAssessment)
    → bind_grounded_risk_assessment platform iso change context given ≡ returns bound
    → (bound ≡ given)
      × (evaluate_grounded_risk platform iso change context given.evaluated_at ≡ returns given)
unfolding bind_grounded_risk_assessment
bind_grounded_risk_assessment-authoritative platform iso change context given bound e =
    let (_, e1) = passed (is_proposed_change platform change) invalid_change e in
    let (_, e2) = passed (is_impact_context platform iso context) invalid_context e1 in
    let (_, e3) = passed (is_assessment iso given) invalid_assessment e2 in
    let (_, e4) = passed _ identity_mismatch e3 in
    let (authoritative, evaluated, e5) =
      through (evaluate_grounded_risk platform iso change context given.evaluated_at) e4 in
    let (same, e6) = passed (same_assessment given authoritative) not_authoritative e5 in
    let (_, e7) = passed _ unknown_evidence e6 in
    (
      sym (returns-injective e7),
      evaluated ∙ ap (λ a. returns a) (sym (same_assessment_lem given authoritative same)),
    )

baseline-allows :
    (platform : Platform) (iso : IsoTime) (change : ProposedChange) (evaluated_at : String)
    (a : RiskAssessment)
    → evaluate_repository_baseline platform iso change evaluated_at ≡ returns a
    → a.decision ≡ allow
unfolding evaluate_repository_baseline
baseline-allows platform iso change evaluated_at a e =
    let (_, e1) = passed (is_proposed_change platform change) invalid_change e in
    let (_, e2) = passed _ invalid_assessment e1 in
    ap (λ q. q.decision) (sym (returns-injective e2))

-- Whenever a comparison returns, the baseline allows the change and the evaluation against the
-- context blocks it, at whatever times they are made, and the comparison says so.
pub compare_authoritative_risk-blocks :
    (platform : Platform) (iso : IsoTime) (change : ProposedChange) (context : ImpactContext)
    (baseline_at grounded_at : String) (c : RiskComparison)
    → compare_authoritative_risk platform iso change context baseline_at grounded_at ≡ returns c
    → (c.baseline.decision ≡ allow)
      × (c.grounded.decision ≡ block)
      × (c.decision_changed ≡ true)
      × (c.transition ≡ (allow, block))
      × (c.triggered_rule_ids
          ≡ lg001
            ∷ lg002
            ∷ lg003
            ∷ lg004
            ∷ (if has_unowned context.evidence then lg005 ∷ [] else []))
unfolding compare_authoritative_risk
compare_authoritative_risk-blocks platform iso change context baseline_at grounded_at c e =
    let (_, e1) = passed (is_proposed_change platform change) invalid_change e in
    let (_, e2) = passed (is_impact_context platform iso context) invalid_context e1 in
    let (baseline, h3, e3) =
      through (evaluate_repository_baseline platform iso change baseline_at) e2 in
    let (grounded, h4, e4) =
      through (evaluate_grounded_risk platform iso change context grounded_at) e3 in
    let (_, e5) = passed _ invalid_comparison e4 in
    let same = sym (returns-injective e5) in
    let (blocks, _, rules) =
      evaluate_grounded_risk-blocks platform iso change context grounded_at grounded h4 in
    let allows = baseline-allows platform iso change baseline_at baseline h3 in
    let differ : not (decision_eq baseline.decision grounded.decision) ≡ true =
      rw (allows, blocks) refl in
    let arrow : Path (Decision × Decision) (baseline.decision, grounded.decision) (allow, block) =
      rw (allows, blocks) refl in
    (
      ap (λ q. q.baseline.decision) same ∙ allows,
      ap (λ q. q.grounded.decision) same ∙ blocks,
      ap (λ q. q.decision_changed) same ∙ differ,
      ap (λ q. q.transition) same ∙ arrow,
      ap (λ q. q.triggered_rule_ids) same ∙ rules,
    )
