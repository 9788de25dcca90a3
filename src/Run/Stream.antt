-- ===== src/Run/Stream.antt =====
-- packages/domain/src/run.ts: the pass over an event stream, `runEventStreamSchema`, and the gate
-- `authorizeRunEvent`. The pass goes on after an issue, with the state that the source has then;
-- a stream is accepted when there is no issue.
use lineageguard.Base.{
  ℕ, suc, ◌+◌, String, Bool, true, false, not, ◌&&◌, ◌||◌, Option, none, some, List, [], ◌∷◌, ◌++◌,
  ◌==◌, ◌===◌, ltb, leb, if◌then◌else◌, length, all, any, contains,
}
use lineageguard.Base.Results.{Outcome, returns, ◌>>◌, ensure}
use lineageguard.Run.Status.{
  RunStatus, created, context_collecting, risk_decided, migration_planned, validated,
  writeback_pending, status_eq, is_terminal,
}
use lineageguard.Run.Events.{
  IsoTime, RetryOperation, datahub_read, generation, github_write, datahub_write, Fence, RunEvent,
  status_changed, lease_acquired, lease_renewed, lease_released, lease_expired, retry_scheduled,
  fence, event_shape,
}

pub record Lease : Type 0 where
  pub id : String
  pub worker_id : String
  pub generation : ℕ
  pub expires_at : String

abbrev pub retry_states : RetryOperation → List RunStatus
retry_states datahub_read = context_collecting ∷ []
retry_states generation = risk_decided ∷ migration_planned ∷ []
retry_states github_write = validated ∷ []
retry_states datahub_write = writeback_pending ∷ []

abbrev pub operation_eq : RetryOperation → RetryOperation → Bool
operation_eq datahub_read datahub_read = true
operation_eq generation generation = true
operation_eq github_write github_write = true
operation_eq datahub_write datahub_write = true
operation_eq _ _ = false

-- The variables of the loop; `index` and `previous` stand for the position in the stream.
pub record StreamState : Type 0 where
  pub index : ℕ
  pub previous : Option Fence
  pub event_ids : List String
  pub current_status : RunStatus
  pub active_lease : Option Lease
  pub used_lease_ids : List String
  pub highest_lease_generation : ℕ
  pub retry_attempts : RetryOperation → ℕ

unfoldable pub start : StreamState
start = record {
  index = 0;
  previous = none;
  event_ids = [];
  current_status = created;
  active_lease = none;
  used_lease_ids = [];
  highest_lease_generation = 0;
  retry_attempts = λ _. 0;
}

pub data Problem : Type 0 where
  mixed_run_ids duplicate_event_id sequence_gap time_reversed after_terminal : Problem
  transition_without_lease transition_from_elsewhere : Problem
  overlapping_lease lease_id_reused generation_not_increasing : Problem
  lease_mismatch renewal_mismatch release_after_expiry expiry_too_early : Problem
  retry_without_lease retry_in_wrong_state retry_not_contiguous : Problem

-- `path: [index, …]` and the message.
abbrev pub Issue : Type 0
Issue = ℕ × Problem

-- `if (failed) add(problem)`.
abbrev pub add : ℕ → Bool → Problem → List Issue
add index true problem = (index, problem) ∷ []
add index false problem = []

-- The active lease is there and has the event's lease ID, worker and generation.
abbrev pub is_held : Option Lease → Fence → Bool
is_held none f = false
is_held (some l) f =
    l.id === f.lease_id && l.worker_id === f.worker_id && l.generation == f.generation

abbrev pub is_expiry : Option Lease → String → Bool
is_expiry none at = false
is_expiry (some l) at = l.expires_at === at

abbrev pub is_active : Option Lease → Bool
is_active none = false
is_active (some l) = true

-- What a status change leaves of the lease: nothing after a terminal status.
abbrev pub lease_after : RunStatus → Option Lease → Option Lease
lease_after to active = if is_terminal to then none else active

abbrev pub taken : Fence → String → Lease
taken f expires_at = record {
  id = f.lease_id;
  worker_id = f.worker_id;
  generation = f.generation;
  expires_at = expires_at;
}

abbrev pub max_generation : ℕ → ℕ → ℕ
max_generation a b = if leb a b then b else a

abbrev pub set_attempts : (RetryOperation → ℕ) → RetryOperation → ℕ → RetryOperation → ℕ
set_attempts attempts operation n other = if operation_eq operation other then n else attempts other

module _ (iso : IsoTime) where
  open iso use {is_datetime, millis}

  -- There is an active lease and its expiry lies after `at`; or not after it.
  abbrev pub is_live : Option Lease → String → Bool
  is_live none at = false
  is_live (some l) at = ltb (millis at) (millis l.expires_at)

  abbrev pub is_over : Option Lease → String → Bool
  is_over none at = false
  is_over (some l) at = leb (millis l.expires_at) (millis at)

  abbrev pub goes_back : Option Fence → Fence → Bool
  goes_back none f = false
  goes_back (some p) f = ltb (millis f.occurred_at) (millis p.occurred_at)

  -- The checks that every event goes through.
  unfoldable pub common_issues : String → StreamState → Fence → List Issue
  common_issues run_id s f =
      add s.index (not (f.run_id === run_id)) mixed_run_ids
      ++ add s.index (contains s.event_ids f.event_id) duplicate_event_id
      ++ add s.index (not (f.sequence == s.index)) sequence_gap
      ++ add s.index (goes_back s.previous f) time_reversed
      ++ add s.index (ltb 0 s.index && is_terminal s.current_status) after_terminal

  unfoldable pub kind_issues : StreamState → RunEvent → List Issue
  kind_issues s (status_changed f from to _) =
      add s.index (not (is_held s.active_lease f && is_live s.active_lease f.occurred_at))
        transition_without_lease
      ++ add s.index (not (status_eq from s.current_status)) transition_from_elsewhere
  kind_issues s (lease_acquired f expires_at) =
      add s.index (is_active s.active_lease) overlapping_lease
      ++ add s.index (contains s.used_lease_ids f.lease_id) lease_id_reused
      ++ add s.index (leb f.generation s.highest_lease_generation) generation_not_increasing
  kind_issues s (lease_renewed f previous_expires_at expires_at) =
      add s.index (not (is_held s.active_lease f)) lease_mismatch
      ++ add s.index
          (not
            (is_expiry s.active_lease previous_expires_at && is_live s.active_lease f.occurred_at))
          renewal_mismatch
  kind_issues s (lease_released f) =
      add s.index (not (is_held s.active_lease f)) lease_mismatch
      ++ add s.index (is_over s.active_lease f.occurred_at) release_after_expiry
  kind_issues s (lease_expired f expired_at) =
      add s.index (not (is_held s.active_lease f)) lease_mismatch
      ++ add s.index (not (is_over s.active_lease expired_at)) expiry_too_early
  kind_issues s (retry_scheduled f operation attempt _ _) =
      add s.index (not (is_held s.active_lease f)) lease_mismatch
      ++ add s.index (not (is_live s.active_lease f.occurred_at)) retry_without_lease
      ++ add s.index (not (any (status_eq s.current_status) (retry_states operation)))
          retry_in_wrong_state
      ++ add s.index (not (attempt == s.retry_attempts operation + 1)) retry_not_contiguous

  unfoldable pub event_issues : String → StreamState → RunEvent → List Issue
  unfolding common_issues kind_issues
  event_issues run_id s e = common_issues run_id s (fence e) ++ kind_issues s e

-- What a round leaves in the loop's variables before the part for the event's kind.
unfoldable pub passed : StreamState → Fence → StreamState
passed s f = record s {
  index = suc s.index;
  previous = some f;
  event_ids = f.event_id ∷ s.event_ids;
}

unfoldable pub advance : StreamState → RunEvent → StreamState
unfolding passed
advance s (status_changed f from to _) = record (passed s f) {
  current_status = to;
  active_lease = lease_after to s.active_lease;
}
advance s (lease_acquired f expires_at) = record (passed s f) {
  used_lease_ids = f.lease_id ∷ s.used_lease_ids;
  highest_lease_generation = max_generation s.highest_lease_generation f.generation;
  active_lease = some (taken f expires_at);
}
advance s (lease_renewed f _ expires_at) = record (passed s f) {
  active_lease = some (taken f expires_at);
}
advance s (lease_released f) = record (passed s f) { active_lease = none }
advance s (lease_expired f _) = record (passed s f) { active_lease = none }
advance s (retry_scheduled f operation attempt _ _) = record (passed s f) {
  retry_attempts = set_attempts s.retry_attempts operation attempt;
}

unfoldable pub replay : StreamState → List RunEvent → StreamState
replay s [] = s
replay s (e ∷ es) = replay (advance s e) es

pub data AuthError : Type 0 where
  bad_time bad_current corrupt_current bad_proposed time_mismatch not_authorized : AuthError

abbrev pub is_none {ℓ} : {A : Type ℓ} → List A → Bool
is_none [] = true
is_none (x ∷ xs) = false

module _ (iso : IsoTime) where
  open iso use {is_datetime}

  unfoldable pub scan : String → StreamState → List RunEvent → List Issue
  scan run_id s [] = []
  scan run_id s (e ∷ es) = event_issues iso run_id s e ++ scan run_id (advance s e) es

  unfoldable pub stream_issues : List RunEvent → List Issue
  unfolding scan
  stream_issues [] = []
  stream_issues (e ∷ es) = scan (fence e).run_id start (e ∷ es)

  -- `runEventStreamSchema.parse` returns.
  unfoldable pub is_stream : List RunEvent → Bool
  is_stream events =
      leb 1 (length events)
      && leb (length events) 300
      && all (event_shape iso) events
      && is_none (stream_issues events)

  unfoldable pub authorize_run_event :
      List RunEvent → RunEvent → String → Outcome AuthError (List RunEvent)
  authorize_run_event current proposed now = do
    ensure (is_datetime now) bad_time
    ensure (leb (length current) 300 && all (event_shape iso) current) bad_current
    ensure (is_none current || is_stream current) corrupt_current
    ensure (event_shape iso proposed) bad_proposed
    ensure ((fence proposed).occurred_at === now) time_mismatch
    ensure (is_stream (current ++ proposed ∷ [])) not_authorized
    returns (current ++ proposed ∷ [])
