-- ===== src/Run/Graph.antt =====
-- packages/domain/src/run.ts: the shape of the transition graph.
use lineageguard.Base.{
  ◌≡◌, true, false, none, some, ℕ, zero, suc, ◌+◌, ◌≤◌, List, [], ◌∷◌, ap, arith, length, inl, inr,
  Bool-cases, ◌⊎◌, sym, ◌∙◌,
}
use mathlib.Core.Bool.{false≢true}
use lineageguard.Run.Status.{
  RunStatus, created, change_parsed, baseline_assessed, context_collecting, context_collected,
  risk_decided, migration_planned, patch_generated, validating, validated, review_artifact_created,
  writeback_pending, completed, is_terminal, success_transitions, is_adjacent,
}

-- Each status of the list is adjacent to the one before it.
abbrev pub Chain : RunStatus → List RunStatus → Type 0
Chain s [] = Unit
Chain s (t ∷ ts) = (is_adjacent s t ≡ true) × Chain t ts

abbrev pub last_status : RunStatus → List RunStatus → RunStatus
last_status s [] = s
last_status s (t ∷ ts) = last_status t ts

-- How many transitions are left at most.
abbrev pub remaining : RunStatus → ℕ
remaining created = 12
remaining change_parsed = 11
remaining baseline_assessed = 10
remaining context_collecting = 9
remaining context_collected = 8
remaining risk_decided = 7
remaining migration_planned = 6
remaining patch_generated = 5
remaining validating = 4
remaining validated = 3
remaining review_artifact_created = 2
remaining writeback_pending = 1
remaining _ = 0

-- The statuses that follow on the way to `COMPLETED`.
abbrev pub success_path : ℕ → RunStatus → List RunStatus
success_path zero s = []
success_path (suc n) s = elim (success_transitions s) [ none ↦ [] | some t ↦ t ∷ success_path n t ]

remaining-adjacent : (s t : RunStatus) → is_adjacent s t ≡ true → remaining t + 1 ≤ remaining s
unfolding is_adjacent
remaining-adjacent s t h = ground arith

terminal-adjacent : (s t : RunStatus) → is_terminal s ≡ true → is_adjacent s t ≡ false
unfolding is_adjacent
terminal-adjacent s t h = ground arith

pub length-Chain : (s : RunStatus) (ts : List RunStatus) → Chain s ts → length ts ≤ remaining s
length-Chain s [] h = omega arith
length-Chain s (t ∷ ts) (a, h) = omega (arith, remaining-adjacent s t a, length-Chain t ts h)

-- A failed or cancelled status leads nowhere, so it is not on a way to `COMPLETED`.
completing :
    (t : RunStatus) (ts : List RunStatus)
    → Chain t ts
    → last_status t ts ≡ completed
    → (is_terminal t ≡ false) ⊎ (t ≡ completed)
completing t [] h e = inr e
completing t (u ∷ ts) (a, h) e = elim (Bool-cases (is_terminal t)) [
  | inl ended ↦ absurd (false≢true (sym (terminal-adjacent t u ended) ∙ a))
  | inr going ↦ inl going
]

completing-adjacent :
    (s t : RunStatus)
    → is_adjacent s t ≡ true
    → (is_terminal t ≡ false) ⊎ (t ≡ completed)
    → (success_transitions s ≡ some t) × (remaining s ≡ suc (remaining t))
unfolding is_adjacent
completing-adjacent s t a h = ground arith

completed-final : (t : RunStatus) → t ≡ completed → success_path (remaining t) t ≡ []
completed-final t e = rw e

success_path-suc :
    (n : ℕ) (s t : RunStatus)
    → success_transitions s ≡ some t
    → success_path (suc n) s ≡ t ∷ success_path n t
success_path-suc n s t e = rw (e, success_path)

pub Chain-completed :
    (s : RunStatus) (ts : List RunStatus)
    → Chain s ts
    → last_status s ts ≡ completed
    → ts ≡ success_path (remaining s) s
Chain-completed s [] h e = sym (completed-final s e)
Chain-completed s (t ∷ ts) (a, h) e =
    let (next, left) = completing-adjacent s t a (completing t ts h e) in
    rw left (
      ap (λ rest. t ∷ rest) (Chain-completed t ts h e)
      ∙ sym (success_path-suc (remaining t) s t next))
