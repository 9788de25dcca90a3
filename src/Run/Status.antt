-- ===== src/Run/Status.antt =====
-- packages/domain/src/run.ts: the run statuses and the transition tables.
use lineageguard.Base.{
  ◌≡◌, ◌↔◌, Bool, true, false, ◌||◌, Option, none, some, ◌==◌, ℕ, if◌then◌else◌, arith,
}

pub data RunStatus : Type 0 where
  created change_parsed baseline_assessed context_collecting context_collected : RunStatus
  risk_decided migration_planned patch_generated validating validated : RunStatus
  review_artifact_created writeback_pending completed : RunStatus
  failed_context failed_generation failed_validation failed_github failed_writeback : RunStatus
  cancelled : RunStatus

-- The position in the enum; two statuses are compared by it.
abbrev pub ordinal : RunStatus → ℕ
ordinal created = 0
ordinal change_parsed = 1
ordinal baseline_assessed = 2
ordinal context_collecting = 3
ordinal context_collected = 4
ordinal risk_decided = 5
ordinal migration_planned = 6
ordinal patch_generated = 7
ordinal validating = 8
ordinal validated = 9
ordinal review_artifact_created = 10
ordinal writeback_pending = 11
ordinal completed = 12
ordinal failed_context = 13
ordinal failed_generation = 14
ordinal failed_validation = 15
ordinal failed_github = 16
ordinal failed_writeback = 17
ordinal cancelled = 18

abbrev pub status_eq : RunStatus → RunStatus → Bool
status_eq s t = ordinal s == ordinal t

pub status_eq_iff : (s t : RunStatus) → (status_eq s t ≡ true) ↔ (s ≡ t)
status_eq_iff s t = ground arith

-- `terminalStatuses.has`.
abbrev pub is_terminal : RunStatus → Bool
is_terminal completed = true
is_terminal failed_context = true
is_terminal failed_generation = true
is_terminal failed_validation = true
is_terminal failed_github = true
is_terminal failed_writeback = true
is_terminal cancelled = true
is_terminal _ = false

-- A missing key of either table is `undefined`, here `none`.
abbrev pub success_transitions : RunStatus → Option RunStatus
success_transitions created = some change_parsed
success_transitions change_parsed = some baseline_assessed
success_transitions baseline_assessed = some context_collecting
success_transitions context_collecting = some context_collected
success_transitions context_collected = some risk_decided
success_transitions risk_decided = some migration_planned
success_transitions migration_planned = some patch_generated
success_transitions patch_generated = some validating
success_transitions validating = some validated
success_transitions validated = some review_artifact_created
success_transitions review_artifact_created = some writeback_pending
success_transitions writeback_pending = some completed
success_transitions _ = none

abbrev pub failure_transitions : RunStatus → Option RunStatus
failure_transitions context_collecting = some failed_context
failure_transitions context_collected = some failed_context
failure_transitions risk_decided = some failed_generation
failure_transitions migration_planned = some failed_generation
failure_transitions patch_generated = some failed_generation
failure_transitions validating = some failed_validation
failure_transitions validated = some failed_github
failure_transitions review_artifact_created = some failed_github
failure_transitions writeback_pending = some failed_writeback
failure_transitions _ = none

-- `table[from] === to`.
abbrev pub leads_to : Option RunStatus → RunStatus → Bool
leads_to none to = false
leads_to (some next) to = status_eq next to

unfoldable pub is_adjacent : RunStatus → RunStatus → Bool
is_adjacent from to =
    if is_terminal from
    then false
    else if status_eq to cancelled
    then true
    else leads_to (success_transitions from) to || leads_to (failure_transitions from) to
