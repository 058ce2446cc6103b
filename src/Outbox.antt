-- ===== src/Outbox.antt =====
-- internal/modules/articleinspect/outbox: a row of the task outbox, the relay's settings, and what
-- one dispatch needs from outside. Times and durations count nanoseconds; a pointer that may be
-- nil is an `Option`. The columns `create_at` and `update_at`, which GORM maintains, are left out.
pub mod Codec
pub mod Statements
pub mod Relay
pub mod Pending
pub mod Cleanup
pub mod Status
pub mod Row
pub mod Refine
pub mod Written
pub mod Frame
pub mod Invariant
pub mod Keyed
pub mod Lease
pub mod Stale
pub mod Retry
pub mod Scan
pub mod Batch
pub mod Report
pub mod Sweep
pub mod System
pub mod Consistent
pub mod Once
pub mod Drain
mod Tests
mod SystemTests
use article_sentinel.Base.{ℕ, ◌+◌, ◌*◌, ◌/◌, Bool, Option, List, ltb, if◌then◌else◌}
use article_sentinel.Text.{Text}

pub record Message : Type 0 where
  pub id : ℕ
  pub org_id : ℕ
  pub task_id : ℕ
  pub message_type : Text
  pub status : Text
  pub payload : Text
  pub attempt_count : ℕ
  pub claimed_by : Text
  pub claimed_at : Option ℕ
  pub claim_until : Option ℕ
  pub next_attempt_at : Option ℕ
  pub last_error : Text
  pub last_error_code : Text
  pub last_attempt_at : Option ℕ
  pub dead_lettered_at : Option ℕ
  pub dispatched_at : Option ℕ
  pub retained_until : Option ℕ

abbrev pub second : ℕ
second = 1_000_000_000

-- What a `DATETIME` column keeps of a time: its whole seconds, rounded.
unfoldable pub datetime : ℕ → ℕ
datetime t = (t + 500_000_000) / second * second

abbrev pub hour : ℕ
hour = 3600 * second

-- Every value in use is positive, so that 0 also stands for the negative values, which
-- `with_settings` replaces all the same.
pub record TaskOutboxSettings : Type 0 where
  pub lease_duration : ℕ
  pub max_attempts : ℕ
  pub dispatched_retention : ℕ
  pub dead_letter_retention : ℕ

unfoldable pub default_task_outbox_settings : TaskOutboxSettings
default_task_outbox_settings = record {
  lease_duration = 30 * second;
  max_attempts = 10;
  dispatched_retention = 7 * 24 * hour;
  dead_letter_retention = 30 * 24 * hour;
}

-- `has_dispatcher` is `r.dispatcher != nil`. The receiver and its database are present.
pub record TaskOutboxRelay : Type 0 where
  pub has_dispatcher : Bool
  pub settings : TaskOutboxSettings
  pub claim_owner : Text

unfoldable pub with_settings : TaskOutboxRelay → TaskOutboxSettings → TaskOutboxRelay
with_settings r s =
    let old = r.settings in
    record r {
      settings = record {
        lease_duration = if ltb 0 s.lease_duration then s.lease_duration else old.lease_duration;
        max_attempts = if ltb 0 s.max_attempts then s.max_attempts else old.max_attempts;
        dispatched_retention =
            if ltb 0 s.dispatched_retention
            then s.dispatched_retention
            else old.dispatched_retention;
        dead_letter_retention =
            if ltb 0 s.dead_letter_retention
            then s.dead_letter_retention
            else old.dead_letter_retention;
      };
    }

-- `queuetasks.ArticleInspectTaskPayload`
pub record Payload : Type 0 where
  pub task_id : ℕ
  pub org_id : ℕ
  pub trigger_source : Text
  pub operator_id : ℕ
  pub operator_name : Text

-- What `encoding/json` makes of a payload.
pub data Decoded : Type 0 where
  decoded : Payload → Decoded
  malformed : Text → Decoded

-- An error of the dispatcher: its text, and whether `errors.Is` finds
-- `ErrTaskOutboxDispatcherUnavailable` in it.
pub record DispatchFailure : Type 0 where
  pub text : Text
  pub is_unavailable : Bool

pub data RelayError : Type 0 where
  invalid_task_input dispatcher_unavailable record_not_found unsupported_message_type : RelayError
  database payload_decode : Text → RelayError
  dispatch_failed : DispatchFailure → RelayError

-- What the surroundings decide in one dispatch: the clock, whether the database refuses the read,
-- the claim, the last update or the relay's second read, JSON's decoder and the dispatcher's answer.
pub record Env : Type 0 where
  pub now : ℕ
  pub load_error : Option Text
  pub claim_error : Option Text
  pub finish_error : Option Text
  pub reload_error : Option Text
  pub decode : Text → Decoded
  pub dispatch : Payload → Option DispatchFailure

-- The outbox table, and the payloads that the dispatcher has accepted, the latest first.
pub record World : Type 0 where
  pub outbox : List Message
  pub sent : List Payload
