-- ===== src/Run/Events.antt =====
-- packages/domain/src/run.ts: the six kinds of run events and the schema of a single event.
-- A timestamp stays the text that the source keeps. Which texts are timestamps, and the instant in
-- milliseconds that `new Date(text).getTime()` gives, come from the platform: they are fields of
-- `IsoTime`, and so is whether that instant is a finite number. The instant is counted from a moment before every accepted timestamp, so
-- that it is a natural number; the source only compares instants and takes their differences.
use lineageguard.Base.{
  ℕ, zero, suc, ◌+◌, String, Bool, true, false, ◌&&◌, Option, none, some, ◌==◌, ◌===◌, ltb, leb,
}
use lineageguard.Base.Text.{has_length, tagged_hex}
use lineageguard.Run.Status.{RunStatus, is_adjacent}

pub record IsoTime : Type 0 where
  pub is_datetime : String → Bool
  pub is_date : String → Bool
  pub millis : String → ℕ

pub data RetryOperation : Type 0 where
  datahub_read generation github_write datahub_write : RetryOperation

-- The base and lease fields, which every event has.
pub record Fence : Type 0 where
  pub event_id : String
  pub run_id : String
  pub sequence : ℕ
  pub occurred_at : String
  pub lease_id : String
  pub worker_id : String
  pub generation : ℕ

pub data RunEvent : Type 0 where
  status_changed : Fence → (from to : RunStatus) → (detail : Option String) → RunEvent
  lease_acquired : Fence → (expires_at : String) → RunEvent
  lease_renewed : Fence → (previous_expires_at expires_at : String) → RunEvent
  lease_released : Fence → RunEvent
  lease_expired : Fence → (expired_at : String) → RunEvent
  retry_scheduled : Fence → RetryOperation → (attempt : ℕ) → (retry_at reason : String) → RunEvent

abbrev pub fence : RunEvent → Fence
fence (status_changed f _ _ _) = f
fence (lease_acquired f _) = f
fence (lease_renewed f _ _) = f
fence (lease_released f) = f
fence (lease_expired f _) = f
fence (retry_scheduled f _ _ _ _) = f

-- `retryDelays[attempt - 1]`; out of range it is `undefined`, which equals no difference.
abbrev pub retry_delay : ℕ → Option ℕ
retry_delay zero = none
retry_delay (suc zero) = some 1_000
retry_delay (suc (suc zero)) = some 5_000
retry_delay (suc (suc (suc zero))) = some 30_000
retry_delay (suc (suc (suc (suc n)))) = none

-- `to - from === delay`, with `from` on the other side.
abbrev pub is_delayed : ℕ → Option ℕ → ℕ → Bool
is_delayed from none to = false
is_delayed from (some delay) to = to == from + delay

detail_shape : Option String → Bool
unfolding has_length
detail_shape none = true
detail_shape (some detail) = has_length 1 500 detail

module _ (iso : IsoTime) where
  open iso use {is_datetime, millis}

  fence_shape : Fence → Bool
  unfolding tagged_hex has_length
  fence_shape f =
      tagged_hex "evt_" 24 f.event_id
      && tagged_hex "run_" 24 f.run_id
      && is_datetime f.occurred_at
      && tagged_hex "lease_" 24 f.lease_id
      && has_length 1 160 f.worker_id
      && leb 1 f.generation
      && leb f.generation 1_000_000

  -- `runEventSchema`: the shape of an event and the refinement of its kind.
  unfoldable pub event_shape : RunEvent → Bool
  unfolding fence_shape detail_shape has_length
  event_shape (status_changed f from to detail) =
      fence_shape f && detail_shape detail && is_adjacent from to
  event_shape (lease_acquired f expires_at) =
      fence_shape f && is_datetime expires_at && ltb (millis f.occurred_at) (millis expires_at)
  event_shape (lease_renewed f previous_expires_at expires_at) =
      fence_shape f
      && is_datetime previous_expires_at
      && is_datetime expires_at
      && ltb (millis previous_expires_at) (millis expires_at)
      && ltb (millis f.occurred_at) (millis previous_expires_at)
  event_shape (lease_released f) = fence_shape f
  event_shape (lease_expired f expired_at) =
      fence_shape f && is_datetime expired_at && expired_at === f.occurred_at
  event_shape (retry_scheduled f operation attempt retry_at reason) =
      fence_shape f
      && leb 1 attempt
      && leb attempt 3
      && is_datetime retry_at
      && has_length 1 500 reason
      && is_delayed (millis f.occurred_at) (retry_delay attempt) (millis retry_at)
