-- ===== src/Risk/Evaluate.antt =====
-- packages/domain/src/risk.ts: the evaluation of a change against the evidence, without and with
-- DataHub, the binding of an assessment to its change and context, and the comparison.
mod Rules
pub use Rules.*
use lineageguard.Base.{
  ℕ, String, Bool, true, false, not, ◌&&◌, ◌||◌, Option, none, some, List, [], ◌∷◌, ◌++◌, map, ltb,
  leb, ◌===◌, all, any, select, contains, length,
}
use lineageguard.Base.Results.{Outcome, returns, ensure, ◌>>=◌, ◌>>◌}
use lineageguard.Base.Text.{tagged_hex}
use lineageguard.Base.Sort.{sort, sort_strings, unique, same_texts}
use lineageguard.Hash.{Platform}
use lineageguard.Run.Events.{IsoTime}
use lineageguard.Change.Proposed.{ProposedChange, is_proposed_change}
use lineageguard.Evidence.Items.{
  Payload, ownership, lineage_path, ml_model, dashboard, query_usage, schema_field, glossary_term,
  Lifecycle, Provenance, EvidenceItem, ImpactContext,
}
use lineageguard.Evidence.Shapes.{is_evidence_id}
use lineageguard.Evidence.Canonical.{canonical_field_path}
use lineageguard.Evidence.Bindings.{is_text}
use lineageguard.Evidence.Complete.{is_complete, is_critical}
use lineageguard.Evidence.Items
use lineageguard.Evidence.Schema.{is_impact_context}
use lineageguard.Risk.Policy.{
  RuleId, lg001, lg002, lg003, lg004, lg005, RiskLevel, low, high, critical, Decision, allow,
  ContextMode, repository_only, datahub_grounded, RiskReason, is_reason, derive_outcome,
  RiskAssessment, is_assessment, rule_ids, same_rules, decision_eq, risk_eq,
}

pub data RiskError : Type 0 where
  invalid_change invalid_context not_bound incomplete invalid_time : RiskError
  before_collection before_retrieval invalid_reason invalid_assessment : RiskError
  identity_mismatch not_authoritative unknown_evidence invalid_comparison : RiskError

-- `==` of two optional fingerprints.
abbrev pub same_fingerprint : Option String → String → Bool
same_fingerprint none s = false
same_fingerprint (some t) s = t === s

abbrev pub same_option : Option String → Option String → Bool
same_option none none = true
same_option none (some t) = false
same_option (some s) none = false
same_option (some s) (some t) = s === t

abbrev pub same_reasons : List RiskReason → List RiskReason → Bool
same_reasons [] [] = true
same_reasons [] (q ∷ qs) = false
same_reasons (r ∷ rs) [] = false
same_reasons (r ∷ rs) (q ∷ qs) =
    same_rules (r.rule_id ∷ []) (q.rule_id ∷ [])
    && r.message === q.message
    && same_texts r.evidence_ids q.evidence_ids
    && risk_eq r.severity q.severity
    && same_reasons rs qs

abbrev pub same_mode : ContextMode → ContextMode → Bool
same_mode repository_only repository_only = true
same_mode datahub_grounded datahub_grounded = true
same_mode _ _ = false

-- `JSON.stringify(a) === JSON.stringify(b)` of two parsed assessments.
unfoldable pub same_assessment : RiskAssessment → RiskAssessment → Bool
same_assessment a b =
    a.change_id === b.change_id
    && same_option a.impact_context_fingerprint b.impact_context_fingerprint
    && same_mode a.context_mode b.context_mode
    && decision_eq a.decision b.decision
    && risk_eq a.risk b.risk
    && same_reasons a.reasons b.reasons
    && a.evaluated_at === b.evaluated_at

pub record RiskComparison : Type 0 where
  pub change_id : String
  pub baseline : RiskAssessment
  pub grounded : RiskAssessment
  pub decision_changed : Bool
  pub transition : Decision × Decision
  pub triggered_rule_ids : List RuleId
  pub changed_because_evidence_ids : List String

-- `[...new Set(reasons.flatMap((reason) => reason.evidenceIds))].sort()`.
abbrev flat_ids : List RiskReason → List String
flat_ids [] = []
flat_ids (r ∷ rs) = r.evidence_ids ++ flat_ids rs

unfoldable pub cited_evidence : List RiskReason → List String
unfolding sort_strings unique
cited_evidence reasons = sort_strings (unique (flat_ids reasons))

abbrev pub cons_some : Option RiskReason → List RiskReason → List RiskReason
cons_some none rs = rs
cons_some (some r) rs = r ∷ rs

module _ (platform : Platform) (iso : IsoTime) where
  open platform use {locale_le}
  open iso use {is_date, millis}

  unfoldable pub sort_evidence : List EvidenceItem → List EvidenceItem
  unfolding sort
  sort_evidence items = sort (λ l r. locale_le l.id r.id) items

  -- `evidence` of `evaluateGroundedRisk`.
  unfoldable pub relevant_evidence : List EvidenceItem → List EvidenceItem
  unfolding sort_evidence
  relevant_evidence evidence =
      sort_evidence (select (is_relevant (connected_ids evidence)) evidence)

  -- `reason`, which the schema of a reason closes.
  unfoldable pub reason : RuleId → List EvidenceItem → Outcome RiskError (Option RiskReason)
  unfolding sort_evidence
  reason rule [] = returns none
  reason rule (i ∷ items) =
      let r : RiskReason = record {
        rule_id = rule;
        message = message_of rule;
        evidence_ids = map (λ j. j.id) (sort_evidence (i ∷ items));
        severity = level_of rule;
      } in
      do ensure (is_reason r) invalid_reason; returns (some r)

  -- The reasons of the rules in their order, those that are `undefined` left out.
  unfoldable pub reasons_for : List RuleId → List EvidenceItem → Outcome RiskError (List RiskReason)
  unfolding reason
  reasons_for [] evidence = returns []
  reasons_for (rule ∷ rules) evidence = do
    found ← reason rule (triggers rule evidence)
    rest ← reasons_for rules evidence
    returns (cons_some found rest)

  unfoldable pub evaluate_repository_baseline :
      ProposedChange → String → Outcome RiskError RiskAssessment
  evaluate_repository_baseline change evaluated_at =
      let a : RiskAssessment = record {
        change_id = change.id;
        impact_context_fingerprint = none;
        context_mode = repository_only;
        decision = allow;
        risk = low;
        reasons = [];
        evaluated_at = evaluated_at;
      } in
      do
        ensure (is_proposed_change platform change) invalid_change
        ensure (is_assessment iso a) invalid_assessment
        returns a

  abbrev pub assessment : ProposedChange → ImpactContext → String → List RiskReason → RiskAssessment
  assessment change context evaluated_at reasons = record {
    change_id = change.id;
    impact_context_fingerprint = some context.impact_context_fingerprint;
    context_mode = datahub_grounded;
    decision = (derive_outcome reasons).0;
    risk = (derive_outcome reasons).1;
    reasons = reasons;
    evaluated_at = evaluated_at;
  }

  unfoldable pub evaluate_grounded_risk :
      ProposedChange → ImpactContext → String → Outcome RiskError RiskAssessment
  evaluate_grounded_risk change context evaluated_at = do
    ensure (is_proposed_change platform change) invalid_change
    ensure (is_impact_context platform iso context) invalid_context
    ensure (context.change_id === change.id && context.field_path === canonical_field_path)
        not_bound
    ensure (is_complete context.collection_status) incomplete
    ensure (is_date evaluated_at) invalid_time
    ensure (leb (millis context.collected_at) (millis evaluated_at)) before_collection
    ensure (not (any (retrieved_after millis (millis evaluated_at)) context.evidence))
        before_retrieval
    reasons ← reasons_for rule_order (relevant_evidence context.evidence)
    let a = assessment change context evaluated_at reasons
    ensure (is_assessment iso a) invalid_assessment
    returns a

  abbrev pub is_grounded : ContextMode → Bool
  is_grounded repository_only = false
  is_grounded datahub_grounded = true

  unfoldable pub bind_grounded_risk_assessment :
      ProposedChange → ImpactContext → RiskAssessment → Outcome RiskError RiskAssessment
  bind_grounded_risk_assessment change context given = do
    ensure (is_proposed_change platform change) invalid_change
    ensure (is_impact_context platform iso context) invalid_context
    ensure (is_assessment iso given) invalid_assessment
    ensure
        (context.change_id === change.id
          && given.change_id === change.id
          && is_grounded given.context_mode
          && same_fingerprint given.impact_context_fingerprint context.impact_context_fingerprint)
        identity_mismatch
    authoritative ← evaluate_grounded_risk change context given.evaluated_at
    ensure (same_assessment given authoritative) not_authoritative
    ensure
        (all (λ r. all (contains (map (λ i. i.id) context.evidence)) r.evidence_ids) given.reasons)
        unknown_evidence
    returns given

  -- `riskComparisonSchema`.
  unfoldable pub is_comparison : RiskComparison → Bool
  unfolding cited_evidence
  is_comparison c =
      tagged_hex "chg_" 24 c.change_id
      && is_assessment iso c.baseline
      && is_assessment iso c.grounded
      && all is_evidence_id c.changed_because_evidence_ids
      && c.baseline.change_id === c.change_id
      && c.grounded.change_id === c.change_id
      && not (is_grounded c.baseline.context_mode)
      && is_grounded c.grounded.context_mode
      && same_flag c.decision_changed (not (decision_eq c.baseline.decision c.grounded.decision))
      && decision_eq c.transition.0 c.baseline.decision
      && decision_eq c.transition.1 c.grounded.decision
      && same_rules c.triggered_rule_ids (rule_ids c.grounded.reasons)
      && leb (length c.triggered_rule_ids) 5
      && same_texts c.changed_because_evidence_ids (cited_evidence c.grounded.reasons)
      && leb (length c.changed_because_evidence_ids) 200
    where
      same_flag : Bool → Bool → Bool
      same_flag true b = b
      same_flag false b = not b

  unfoldable pub compare_authoritative_risk :
      ProposedChange → ImpactContext → String → String → Outcome RiskError RiskComparison
  unfolding cited_evidence
  compare_authoritative_risk change context baseline_at grounded_at = do
    ensure (is_proposed_change platform change) invalid_change
    ensure (is_impact_context platform iso context) invalid_context
    baseline ← evaluate_repository_baseline change baseline_at
    grounded ← evaluate_grounded_risk change context grounded_at
    let c : RiskComparison = record {
      change_id = change.id;
      baseline = baseline;
      grounded = grounded;
      decision_changed = not (decision_eq baseline.decision grounded.decision);
      transition = (baseline.decision, grounded.decision);
      triggered_rule_ids = rule_ids grounded.reasons;
      changed_because_evidence_ids = cited_evidence grounded.reasons;
    }
    ensure (is_comparison c) invalid_comparison
    returns c
