-- ===== src/Risk/Returns.antt =====
-- packages/domain/src/risk.ts: the evaluation of an accepted context returns. The evidence is
-- sorted by `localeCompare` and checked in the order of code units, so the two must agree on IDs.
use lineageguard.Base.{
  String, Bool, true, ◌≡◌, refl, sym, subst, ◌∙◌, Option, none, some, List, [], ◌∷◌, arith, all,
  select, length, leb,
}
use lineageguard.Base.Text.{has_length}
use lineageguard.Base.Results.{returns}
use lineageguard.Base.Sort.{string_le, is_distinct}
use lineageguard.Base.Order.{ordered, ordered-select, sort-ordered, ordered-is_sorted}
use lineageguard.Hash.{Platform}
use lineageguard.Run.Events.{IsoTime}
use lineageguard.Evidence.Items.{EvidenceItem}
use lineageguard.Evidence.Shapes.{is_evidence_id}
use lineageguard.Evidence.Context.{evidence_ids}
use lineageguard.Risk.Picked.{
  all-map-select, is_distinct-map-select, length-map-select, ordered-map,
}
use lineageguard.Risk.Policy.{
  RuleId, lg001, lg002, lg003, lg004, lg005, RiskReason, is_reason, risk_eq, expected_severity,
}
use lineageguard.Risk.Evaluate.{
  triggers, level_of, message_of, reason, reasons_for, cons_some, sort_evidence,
}

message_lem : (rule : RuleId) → has_length 1 500 (message_of rule) ≡ true
unfolding has_length
message_lem lg001 = refl
message_lem lg002 = refl
message_lem lg003 = refl
message_lem lg004 = refl
message_lem lg005 = refl

level_lem : (rule : RuleId) → risk_eq (level_of rule) (expected_severity rule) ≡ true
level_lem lg001 = refl
level_lem lg002 = refl
level_lem lg003 = refl
level_lem lg004 = refl
level_lem lg005 = refl

-- The evidence that triggers a rule is picked by a test.
triggers-select :
    (rule : RuleId) (evidence : List EvidenceItem)
    → (p : EvidenceItem → Bool) × (triggers rule evidence ≡ select p evidence)
triggers-select lg001 evidence = (_, refl)
triggers-select lg002 evidence = (_, refl)
triggers-select lg003 evidence = (_, refl)
triggers-select lg004 evidence = (_, refl)
triggers-select lg005 evidence = (_, refl)

-- The order by `localeCompare` is that by code units on the IDs of evidence.
unfoldable pub SortsIds : Platform → Type 0
SortsIds platform =
    (s t : String)
    → is_evidence_id s ≡ true
    → is_evidence_id t ≡ true
    → platform.locale_le s t ≡ string_le s t

pub AcceptedReason : Option RiskReason → Type 0
AcceptedReason none = Unit
AcceptedReason (some r) = is_reason r ≡ true

-- Evidence whose IDs have their shape, are distinct, sorted, and at most 200.
pub record Listed (evidence : List EvidenceItem) : Type 0 where
  pub shaped : all is_evidence_id (evidence_ids evidence) ≡ true
  pub distinct : is_distinct (evidence_ids evidence) ≡ true
  pub in_order : ordered string_le (evidence_ids evidence) ≡ true
  pub few : leb (length (evidence_ids evidence)) 200 ≡ true

abbrev reason_of : RuleId → List String → RiskReason
reason_of rule ids = record {
  rule_id = rule;
  message = message_of rule;
  evidence_ids = ids;
  severity = level_of rule;
}

is_reason-Listed :
    (rule : RuleId) (i : EvidenceItem) (items : List EvidenceItem)
    → Listed (i ∷ items)
    → is_reason (reason_of rule (evidence_ids (i ∷ items))) ≡ true
unfolding is_reason
is_reason-Listed rule i items l =
    rw
      (
        message_lem rule,
        level_lem rule,
        l.few,
        l.shaped,
        l.distinct,
        ordered-is_sorted _ l.in_order,
      )
      (ground arith)

all-cons_some :
    (found : Option RiskReason) (rest : List RiskReason)
    → AcceptedReason found
    → all is_reason rest ≡ true
    → all is_reason (cons_some found rest) ≡ true
unfolding AcceptedReason
all-cons_some none rest h k = k
all-cons_some (some r) rest h k = rw (h, k) refl

module _ (platform : Platform) (iso : IsoTime) (agrees : SortsIds platform) where
  all-locale :
      (s : String) (ids : List String)
      → is_evidence_id s ≡ true
      → all is_evidence_id ids ≡ true
      → all (string_le s) ids ≡ true
      → all (platform.locale_le s) ids ≡ true
  unfolding SortsIds
  all-locale s [] v h k = refl
  all-locale s (id ∷ ids) v h k =
      rw (agrees s id v (ground arith)) (ground (arith, all-locale s ids v))

  locale_ordered :
      (ids : List String)
      → all is_evidence_id ids ≡ true
      → ordered string_le ids ≡ true
      → ordered platform.locale_le ids ≡ true
  locale_ordered [] h k = refl
  locale_ordered (id ∷ ids) h k = ground (arith, all-locale id ids, locale_ordered ids)

  -- Listed evidence is sorted already.
  pub sort_evidence-Listed :
      (items : List EvidenceItem) → Listed items → sort_evidence platform iso items ≡ items
  unfolding sort_evidence
  sort_evidence-Listed items l =
      sort-ordered (λ x y. platform.locale_le x.id y.id) items
        (sym (ordered-map platform.locale_le items)
          ∙ locale_ordered (evidence_ids items) l.shaped l.in_order)

  select-Listed :
      (p : EvidenceItem → Bool) (items : List EvidenceItem) → Listed items → Listed (select p items)
  select-Listed p items l = record {
    shaped = all-map-select is_evidence_id p items l.shaped;
    distinct = is_distinct-map-select p items l.distinct;
    in_order =
        ordered-map string_le (select p items)
        ∙ ordered-select (λ x y. string_le x.id y.id) p items
            (sym (ordered-map string_le items) ∙ l.in_order);
    few = length-map-select p items 200 l.few;
  }

  reason-returns :
      (rule : RuleId) (items : List EvidenceItem)
      → Listed items
      → (found : Option RiskReason) × (reason platform iso rule items ≡ returns found)
        × AcceptedReason found
  unfolding reason AcceptedReason
  reason-returns rule [] l = (none, refl, tt)
  reason-returns rule (i ∷ items) l =
      let accepted : is_reason
            (reason_of rule (evidence_ids (sort_evidence platform iso (i ∷ items))))
          ≡ true =
        subst (λ xs. is_reason (reason_of rule (evidence_ids xs)) ≡ true)
          (sym (sort_evidence-Listed (i ∷ items) l)) (is_reason-Listed rule i items l) in
      (
        some (reason_of rule (evidence_ids (sort_evidence platform iso (i ∷ items)))),
        rw accepted refl,
        accepted,
      )

  -- The rules give reasons that their schema accepts.
  pub reasons_for-returns :
      (rules : List RuleId) (evidence : List EvidenceItem)
      → Listed evidence
      → (reasons : List RiskReason) × (reasons_for platform iso rules evidence ≡ returns reasons)
        × (all is_reason reasons ≡ true)
  unfolding reasons_for AcceptedReason
  reasons_for-returns [] evidence l = ([], refl, refl)
  reasons_for-returns (rule ∷ rules) evidence l =
      let (p, picked) = triggers-select rule evidence in
      let (found, e1, h1) =
        reason-returns rule (triggers rule evidence)
          (subst Listed (sym picked) (select-Listed p evidence l)) in
      let (rest, e2, h2) = reasons_for-returns rules evidence l in
      (cons_some found rest, rw (e1, e2) refl, all-cons_some found rest h1 h2)
