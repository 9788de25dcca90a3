-- ===== src/Risk/Reasons.antt =====
-- packages/domain/src/risk.ts: which reasons the rules give, what they cite, and the decision.
use mathlib.Core.List.{Memᴰ}
use mathlib.Core.List.Memᴰ
use lineageguard.Base.{
  ℕ, ◌≤◌, ◌++◌, length-append, any-append, String, Bool, true, false, ◌≡◌, refl, sym, subst, ◌∙◌,
  ap, ◌⊎◌, inl, inr, Option, none, some, List, [], ◌∷◌, map, arith, select,
}
use lineageguard.Base.Results.{returns, through, passed, returns-injective}
use lineageguard.Base.Members.{Memᴰ-sort}
use lineageguard.Hash.{Platform}
use lineageguard.Run.Events.{IsoTime}
use lineageguard.Evidence.Items.{EvidenceItem}
use lineageguard.Risk.Policy.{
  RuleId, RiskLevel, low, medium, high, critical, Decision, allow, review, block, RiskReason,
  is_blocking, risk_eq, rule_ids, derive_outcome,
}
use lineageguard.Risk.Evaluate.{
  invalid_reason, triggers, level_of, reason, reasons_for, cons_some, sort_evidence,
}

-- Whether a list has an item.
abbrev pub some_item {ℓ} : {A : Type ℓ} → List A → Bool
some_item [] = false
some_item (x ∷ xs) = true

-- The rule of a reason fires, with its severity, and the reason cites what triggers it.
abbrev pub IsGrounded : List EvidenceItem → RiskReason → Type 0
IsGrounded evidence r =
    (r.severity ≡ level_of r.rule_id)
    × ((id : String)
        → Memᴰ id r.evidence_ids
        → (i : EvidenceItem) × Memᴰ i (triggers r.rule_id evidence) × (i.id ≡ id))

pub Memᴰ-map :
    {id : String} (items : List EvidenceItem)
    → Memᴰ id (map (λ i. i.id) items)
    → (i : EvidenceItem) × Memᴰ i items × (i.id ≡ id)
Memᴰ-map [] m = absurd (Memᴰ.not-nil m)
Memᴰ-map (i ∷ items) m = elim (Memᴰ.cases_cons m) [
  | inl e ↦ (i, Memᴰ.head refl, cc)
  | inr k ↦ let (j, l, e) = Memᴰ-map items k in (j, Memᴰ.tail l, e)
]

module _ (platform : Platform) (iso : IsoTime) where
  -- What `reason` gives for a rule and the evidence that triggers it.
  IsReasonFor : RuleId → List EvidenceItem → RiskReason → Type 0
  IsReasonFor rule items r =
      (r.rule_id ≡ rule)
      × (r.severity ≡ level_of rule)
      × (r.evidence_ids ≡ map (λ j. j.id) (sort_evidence platform iso items))

  -- A reason is given exactly where evidence triggers the rule.
  reason-fires :
      (rule : RuleId) (items : List EvidenceItem) {found : Option RiskReason}
      → reason platform iso rule items ≡ returns found
      → ((some_item items ≡ false) × (found ≡ none))
        ⊎ ((some_item items ≡ true)
            × (r : RiskReason) × (found ≡ some r)
            × IsReasonFor rule items r)
  unfolding reason IsReasonFor
  reason-fires rule [] e = inl (refl, cc)
  reason-fires rule (i ∷ items) e =
      let (_, e') = passed _ invalid_reason e in
      inr (refl, _, sym (returns-injective e'), (refl, refl, refl))

  -- The reasons of one rule more.
  reasons_for-cons :
      (rule : RuleId) (rules : List RuleId) (evidence : List EvidenceItem)
      {reasons : List RiskReason}
      → reasons_for platform iso (rule ∷ rules) evidence ≡ returns reasons
      → (rest : List RiskReason) × (reasons_for platform iso rules evidence ≡ returns rest)
        × (((some_item (triggers rule evidence) ≡ false) × (reasons ≡ rest))
            ⊎ ((some_item (triggers rule evidence) ≡ true)
                × (r : RiskReason) × (reasons ≡ r ∷ rest)
                × IsReasonFor rule (triggers rule evidence) r))
  unfolding reasons_for
  reasons_for-cons rule rules evidence e =
      let (found, e1, e2) = through (reason platform iso rule (triggers rule evidence)) e in
      let (rest, e3, e4) = through (reasons_for platform iso rules evidence) e2 in
      let split = sym (returns-injective e4) in
      (
        rest,
        e3,
        elim (reason-fires rule (triggers rule evidence) e1) [
          | inl (quiet, same) ↦ inl (quiet, split ∙ ap (λ f. cons_some f rest) same)
          | inr (fires, r, same, given) ↦
              inr (fires, r, split ∙ ap (λ f. cons_some f rest) same, given)
        ],
      )

  -- The reasons are those of the rules that evidence triggers, in the order of the rules.
  pub reasons_for-rules :
      (rules : List RuleId) (evidence : List EvidenceItem) {reasons : List RiskReason}
      → reasons_for platform iso rules evidence ≡ returns reasons
      → rule_ids reasons ≡ select (λ rule. some_item (triggers rule evidence)) rules
  unfolding reasons_for IsReasonFor
  reasons_for-rules [] evidence e = ap rule_ids (sym (returns-injective e))
  reasons_for-rules (rule ∷ rules) evidence e =
      let (rest, e', step) = reasons_for-cons rule rules evidence e in
      let ih = reasons_for-rules rules evidence e' in
      elim step [
        | inl (quiet, same) ↦ rw (same, select, quiet) ih
        | inr (fires, r, same, given) ↦
            let rule_same = given.0 in rw (same, select, fires, rule_same, ih) refl
      ]

  reason-IsGrounded :
      (rule : RuleId) (evidence : List EvidenceItem) (r : RiskReason)
      → IsReasonFor rule (triggers rule evidence) r
      → IsGrounded evidence r
  unfolding IsReasonFor sort_evidence
  reason-IsGrounded rule evidence r (rule_same, severity_same, ids) = (
    severity_same ∙ ap level_of (sym rule_same),
    λ id k.
        let (i, l, e) = Memᴰ-map _ (subst (Memᴰ id) ids k) in
        (i, subst (λ q. Memᴰ i (triggers q evidence)) (sym rule_same) (Memᴰ-sort _ _ l), e),
  )

  pub reasons_for-IsGrounded :
      (rules : List RuleId) (evidence : List EvidenceItem) {reasons : List RiskReason}
      (r : RiskReason)
      → reasons_for platform iso rules evidence ≡ returns reasons
      → Memᴰ r reasons
      → IsGrounded evidence r
  unfolding reasons_for IsReasonFor sort_evidence
  reasons_for-IsGrounded [] evidence r e m =
      absurd (Memᴰ.not-nil (subst (Memᴰ r) (sym (returns-injective e)) m))
  reasons_for-IsGrounded (rule ∷ rules) evidence r e m =
      let (rest, e', step) = reasons_for-cons rule rules evidence e in
      elim step [
        | inl (quiet, same) ↦ reasons_for-IsGrounded rules evidence r e' (subst (Memᴰ r) same m)
        | inr (fires, q, same, given) ↦ elim (Memᴰ.cases_cons (subst (Memᴰ r) same m)) [
          | inl is_q ↦
              subst (IsGrounded evidence) (sym is_q) (reason-IsGrounded rule evidence q given)
          | inr k ↦ reasons_for-IsGrounded rules evidence r e' k
        ]
      ]

-- From the mildest decision to the strictest.
pub decision_rank : Decision → ℕ
decision_rank allow = 0
decision_rank review = 1
decision_rank block = 2

pub risk_rank : RiskLevel → ℕ
risk_rank low = 0
risk_rank medium = 1
risk_rank high = 2
risk_rank critical = 3

-- More reasons never make the decision milder or the risk lower.
pub derive_outcome-append :
    (reasons more : List RiskReason)
    → (decision_rank (derive_outcome reasons).0
        ≤ decision_rank (derive_outcome (reasons ++ more)).0)
      × (risk_rank (derive_outcome reasons).1 ≤ risk_rank (derive_outcome (reasons ++ more)).1)
unfolding derive_outcome decision_rank risk_rank
derive_outcome-append reasons more = ground (
  arith,
  length-append reasons more,
  any-append (λ r. is_blocking r.rule_id) reasons more,
  any-append (λ r. risk_eq r.severity critical) reasons more,
)

pub derive_outcome-critical :
    (r : RiskReason) (reasons : List RiskReason)
    → is_blocking r.rule_id ≡ true
    → r.severity ≡ critical
    → derive_outcome (r ∷ reasons) ≡ (block, critical)
unfolding derive_outcome
derive_outcome-critical r reasons blocking severe = rw (blocking, severe) refl
