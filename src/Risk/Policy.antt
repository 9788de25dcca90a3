-- ===== src/Risk/Policy.antt =====
-- packages/domain/src/risk.ts: rules, reasons and the outcome that they give, and the schemas of a
-- reason and of an assessment.
use lineageguard.Base.{
  ℕ, String, Bool, true, false, not, ◌&&◌, ◌||◌, Option, none, some, List, [], ◌∷◌, map, leb, ◌==◌,
  all, any, length, if◌then◌else◌,
}
use lineageguard.Base.Text.{has_length, tagged_hex}
use lineageguard.Base.Sort.{sort, is_sorted, is_distinct}
use lineageguard.Run.Events.{IsoTime}
use lineageguard.Evidence.Shapes.{is_fingerprint, is_evidence_id}

pub data RuleId : Type 0 where
  lg001 lg002 lg003 lg004 lg005 : RuleId

pub data RiskLevel : Type 0 where
  low medium high critical : RiskLevel

pub data Decision : Type 0 where
  allow review block : Decision

pub data ContextMode : Type 0 where
  repository_only datahub_grounded : ContextMode

-- `ruleOrder.indexOf`.
abbrev pub rule_index : RuleId → ℕ
rule_index lg001 = 0
rule_index lg002 = 1
rule_index lg003 = 2
rule_index lg004 = 3
rule_index lg005 = 4

abbrev pub risk_eq : RiskLevel → RiskLevel → Bool
risk_eq low low = true
risk_eq medium medium = true
risk_eq high high = true
risk_eq critical critical = true
risk_eq _ _ = false

abbrev pub decision_eq : Decision → Decision → Bool
decision_eq allow allow = true
decision_eq review review = true
decision_eq block block = true
decision_eq _ _ = false

-- `blockingRules.has`.
abbrev pub is_blocking : RuleId → Bool
is_blocking lg001 = true
is_blocking lg002 = true
is_blocking lg003 = true
is_blocking lg004 = true
is_blocking lg005 = false

abbrev pub expected_severity : RuleId → RiskLevel
expected_severity lg001 = critical
expected_severity lg002 = critical
expected_severity lg003 = high
expected_severity lg004 = critical
expected_severity lg005 = high

pub record RiskReason : Type 0 where
  pub rule_id : RuleId
  pub message : String
  pub evidence_ids : List String
  pub severity : RiskLevel

-- `riskReasonSchema`.
unfoldable pub is_reason : RiskReason → Bool
unfolding has_length is_evidence_id is_sorted
is_reason r =
    has_length 1 500 r.message
    && leb 1 (length r.evidence_ids)
    && leb (length r.evidence_ids) 200
    && all is_evidence_id r.evidence_ids
    && risk_eq r.severity (expected_severity r.rule_id)
    && is_distinct r.evidence_ids
    && is_sorted r.evidence_ids

unfoldable pub derive_outcome : List RiskReason → Decision × RiskLevel
derive_outcome reasons =
    if any (λ r. is_blocking r.rule_id) reasons
    then (block, if any (λ r. risk_eq r.severity critical) reasons then critical else high)
    else if length reasons == 0
    then (allow, low)
    else (review, high)

pub record RiskAssessment : Type 0 where
  pub change_id : String
  pub impact_context_fingerprint : Option String
  pub context_mode : ContextMode
  pub decision : Decision
  pub risk : RiskLevel
  pub reasons : List RiskReason
  pub evaluated_at : String

abbrev pub has_rule : RuleId → List RuleId → Bool
has_rule r [] = false
has_rule r (q ∷ qs) = rule_index r == rule_index q || has_rule r qs

abbrev pub distinct_rules : List RuleId → Bool
distinct_rules [] = true
distinct_rules (r ∷ rs) = not (has_rule r rs) && distinct_rules rs

abbrev pub same_rules : List RuleId → List RuleId → Bool
same_rules [] [] = true
same_rules [] (q ∷ qs) = false
same_rules (r ∷ rs) [] = false
same_rules (r ∷ rs) (q ∷ qs) = rule_index r == rule_index q && same_rules rs qs

abbrev pub rule_ids : List RiskReason → List RuleId
rule_ids reasons = map (λ r. r.rule_id) reasons

-- Compared with a copy that is sorted by the rules' positions.
unfoldable pub ordered_rules : List RuleId → Bool
unfolding sort
ordered_rules rs = same_rules rs (sort (λ l r. leb (rule_index l) (rule_index r)) rs)

abbrev pub no_reasons : List RiskReason → Bool
no_reasons [] = true
no_reasons (r ∷ rs) = false

abbrev pub is_absent : Option String → Bool
is_absent none = true
is_absent (some s) = false

abbrev pub same_outcome : Decision × RiskLevel → Decision → RiskLevel → Bool
same_outcome (d, r) decision risk = decision_eq d decision && risk_eq r risk

unfoldable pub fits_mode : ContextMode → RiskAssessment → Bool
unfolding derive_outcome
fits_mode repository_only a =
    decision_eq a.decision allow
    && risk_eq a.risk low
    && no_reasons a.reasons
    && is_absent a.impact_context_fingerprint
fits_mode datahub_grounded a =
    not (is_absent a.impact_context_fingerprint)
    && same_outcome (derive_outcome a.reasons) a.decision a.risk

-- `riskAssessmentSchema`.
unfoldable pub is_assessment : IsoTime → RiskAssessment → Bool
unfolding tagged_hex is_fingerprint is_reason ordered_rules fits_mode
is_assessment iso a =
    tagged_hex "chg_" 24 a.change_id
    && (is_absent a.impact_context_fingerprint || present a.impact_context_fingerprint)
    && leb (length a.reasons) 20
    && all is_reason a.reasons
    && iso.is_datetime a.evaluated_at
    && distinct_rules (rule_ids a.reasons)
    && ordered_rules (rule_ids a.reasons)
    && fits_mode a.context_mode a
  where
    present : Option String → Bool
    present none = false
    present (some s) = is_fingerprint s
