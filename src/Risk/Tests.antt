-- ===== src/Risk/Tests.antt =====
-- packages/domain/src/risk.ts: the canonical change against the canonical fixture.
use lineageguard.Base.{
  leb, ◌===◌, ◌≤◌, String, true, false, ◌≡◌, refl, any, none, List, [], ◌∷◌, if◌then◌else◌,
}
use lineageguard.Base.Results.{returns}
use lineageguard.Hash.{stable_id}
use lineageguard.Change.Proposed.{ProposedChange, fixture, identity_json, is_proposed_change}
use lineageguard.Evidence.Identity.{normalized_evidence_identity, impact_context_semantic_identity}
use lineageguard.Evidence.Sample
use lineageguard.Evidence.Sample.{small_platform, utc, fixture-accepted}
use lineageguard.Risk.Policy.{
  RuleId, lg001, lg002, lg003, lg004, lg005, RiskReason, RiskAssessment, is_reason, is_assessment,
  block, critical, rule_ids, derive_outcome, allow, low, repository_only,
}
use lineageguard.Risk.Evaluate.{
  retrieved_after, level_of, message_of, rule_order, assessment, reasons_for, relevant_evidence,
  evaluate_grounded_risk, evaluate_repository_baseline, bind_grounded_risk_assessment,
  compare_authoritative_risk, RiskComparison, is_comparison, same_assessment, cited_evidence,
}
use lineageguard.Risk.Reasons.{decision_rank, risk_rank, derive_outcome-append}
use lineageguard.Risk.Grounded.{has_unowned}
use lineageguard.Risk.Decision.{evaluate_grounded_risk-blocks}
use lineageguard.Evidence.Complete.{is_complete}
use lineageguard.Risk.Returns.{SortsIds}
use lineageguard.Risk.Total.{evaluate_grounded_risk-returns}
use lineageguard.Risk.Binding.{
  bind_grounded_risk_assessment-authoritative, compare_authoritative_risk-blocks,
}

abbrev change : ProposedChange
change = record {
  id = "chg_900000000000000000000000";
  fingerprint = "9000000000000000000000000000000000000000000000000000000000000000";
  identity = record {
    source = fixture;
    repository = "greatkich/lineageguard";
    base_sha = "0000000000000000000000000000000000000000";
    head_sha = "1111111111111111111111111111111111111111";
    file = "walkthrough/migrations/0001_rename.sql";
    source_patch_fingerprint = "2222222222222222222222222222222222222222222222222222222222222222";
  };
}

abbrev later : String
later = "2026-08-04T09:00:00.000Z"

abbrev cites : RuleId → List String → RiskReason
cites rule ids = record {
  rule_id = rule;
  message = message_of rule;
  evidence_ids = ids;
  severity = level_of rule;
}

abbrev reasons : List RiskReason
reasons =
    cites lg001 ("ev_100000000000000000000000" ∷ "ev_300000000000000000000000" ∷ [])
    ∷ cites lg002 ("ev_400000000000000000000000" ∷ [])
    ∷ cites lg003 ("ev_500000000000000000000000" ∷ [])
    ∷ cites lg004 ("ev_200000000000000000000000" ∷ [])
    ∷ []

change-accepted : is_proposed_change small_platform change ≡ true
unfolding is_proposed_change small_platform identity_json stable_id
change-accepted = refl

reasons-given :
    reasons_for small_platform utc rule_order
      (relevant_evidence small_platform utc Sample.fixture.evidence)
    ≡ returns reasons
unfolding reasons_for relevant_evidence small_platform Sample.fixture stable_id
    normalized_evidence_identity is_reason
reasons-given = refl

abbrev grounded : RiskAssessment
grounded = assessment small_platform utc change Sample.fixture later reasons

grounded-accepted : is_assessment utc grounded ≡ true
unfolding is_assessment utc small_platform Sample.fixture impact_context_semantic_identity
grounded-accepted = refl

fresh : any (retrieved_after utc.millis (utc.millis later)) Sample.fixture.evidence ≡ false
unfolding utc small_platform Sample.fixture stable_id normalized_evidence_identity
fresh = refl

same_change : (Sample.fixture.change_id === change.id) ≡ true
unfolding Sample.fixture
same_change = refl

fixture_status : is_complete Sample.fixture.collection_status ≡ true
unfolding Sample.fixture
fixture_status = refl

timestamp : utc.is_datetime later ≡ true
unfolding utc
timestamp = refl

date : utc.is_date later ≡ true
unfolding utc
date = refl

in_time : leb (utc.millis Sample.fixture.collected_at) (utc.millis later) ≡ true
unfolding utc Sample.fixture
in_time = refl

evaluated : evaluate_grounded_risk small_platform utc change Sample.fixture later ≡ returns grounded
unfolding evaluate_grounded_risk utc Sample.fixture
evaluated = rw (change-accepted, fixture-accepted, fresh, reasons-given, grounded-accepted) refl

evaluate_grounded_risk-blocks_example :
    (grounded.decision ≡ block)
    × (grounded.risk ≡ critical)
    × (rule_ids grounded.reasons
        ≡ lg001
          ∷ lg002
          ∷ lg003
          ∷ lg004
          ∷ (if has_unowned Sample.fixture.evidence then lg005 ∷ [] else []))
evaluate_grounded_risk-blocks_example =
    evaluate_grounded_risk-blocks small_platform utc change Sample.fixture later grounded evaluated

derive_outcome-append_example :
    (decision_rank (derive_outcome []).0 ≤ decision_rank (derive_outcome reasons).0)
    × (risk_rank (derive_outcome []).1 ≤ risk_rank (derive_outcome reasons).1)
derive_outcome-append_example = derive_outcome-append [] reasons

bound :
    bind_grounded_risk_assessment small_platform utc change Sample.fixture grounded
    ≡ returns grounded
unfolding bind_grounded_risk_assessment Sample.fixture small_platform stable_id
    normalized_evidence_identity impact_context_semantic_identity same_assessment derive_outcome
bound = rw (change-accepted, fixture-accepted, grounded-accepted, evaluated) refl

bind_grounded_risk_assessment-authoritative_example :
    (grounded ≡ grounded)
    × (evaluate_grounded_risk small_platform utc change Sample.fixture grounded.evaluated_at
        ≡ returns grounded)
bind_grounded_risk_assessment-authoritative_example =
    bind_grounded_risk_assessment-authoritative small_platform utc change Sample.fixture grounded
      grounded bound

abbrev baseline : RiskAssessment
baseline = record {
  change_id = change.id;
  impact_context_fingerprint = none;
  context_mode = repository_only;
  decision = allow;
  risk = low;
  reasons = [];
  evaluated_at = later;
}

baseline-evaluated : evaluate_repository_baseline small_platform utc change later ≡ returns baseline
unfolding evaluate_repository_baseline is_assessment utc
baseline-evaluated = rw change-accepted refl

abbrev comparison : RiskComparison
unfolding cited_evidence
comparison = record {
  change_id = change.id;
  baseline = baseline;
  grounded = grounded;
  decision_changed = true;
  transition = (allow, block);
  triggered_rule_ids = lg001 ∷ lg002 ∷ lg003 ∷ lg004 ∷ [];
  changed_because_evidence_ids = cited_evidence reasons;
}

comparison-accepted : is_comparison small_platform utc comparison ≡ true
unfolding is_comparison is_assessment cited_evidence utc comparison Sample.fixture
comparison-accepted = rw (grounded-accepted) refl

compared :
    compare_authoritative_risk small_platform utc change Sample.fixture later later
    ≡ returns comparison
unfolding compare_authoritative_risk comparison is_comparison Sample.fixture derive_outcome
compared =
    rw (change-accepted, fixture-accepted, baseline-evaluated, evaluated, comparison-accepted) refl

compare_authoritative_risk-blocks_example :
    (comparison.baseline.decision ≡ allow)
    × (comparison.grounded.decision ≡ block)
    × (comparison.decision_changed ≡ true)
    × (comparison.transition ≡ (allow, block))
    × (comparison.triggered_rule_ids
        ≡ lg001
          ∷ lg002
          ∷ lg003
          ∷ lg004
          ∷ (if has_unowned Sample.fixture.evidence then lg005 ∷ [] else []))
compare_authoritative_risk-blocks_example =
    compare_authoritative_risk-blocks small_platform utc change Sample.fixture later later
      comparison compared

small_platform-SortsIds : SortsIds small_platform
unfolding SortsIds small_platform
small_platform-SortsIds s t h k = refl

evaluate_grounded_risk-returns_example :
    (a : RiskAssessment) × (evaluate_grounded_risk small_platform utc change Sample.fixture later
      ≡ returns a)
evaluate_grounded_risk-returns_example =
    evaluate_grounded_risk-returns small_platform utc change Sample.fixture later
      small_platform-SortsIds change-accepted fixture-accepted same_change fixture_status timestamp
      date in_time
