-- ===== src/Outbox/Row.antt =====
-- What one dispatch is to do, told of a single row with no table and no SQL: a table of decisions
-- against which outbox/relay.go is proved.
use article_sentinel.Base.{ℕ, Option, none, some, List, ◌∷◌, if◌then◌else◌, ◌==◌, first_where}
use article_sentinel.Text.{codes, text_eq, trim_space}
use article_sentinel.Domain.{message_type_run_task}
use article_sentinel.Domain.OutboxError
use article_sentinel.Outbox.{
  Message, TaskOutboxRelay, Payload, decoded, malformed, RelayError, unsupported_message_type,
  database, payload_decode, dispatch_failed, Env,
}
use article_sentinel.Outbox.Codec.{is_dispatchable_message}
use article_sentinel.Outbox.Statements.{
  set_claimed, claimed_message, set_dispatched, set_retry, set_dead_letter, classify_dispatch_error,
  should_dead_letter,
}

-- The row of a table with the key `i`.
abbrev pub find_row : ℕ → List Message → Option Message
find_row i = first_where (λ row. row.id == i)

-- The row afterwards, the error that is returned, and the payload that the dispatcher accepted.
pub record Outcome : Type 0 where
  pub row : Message
  pub error : Option RelayError
  pub accepted : Option Payload

abbrev pub accept : Option Payload → List Payload → List Payload
accept none sent = sent
accept (some p) sent = p ∷ sent

-- The verdict on a claimed row, if the database takes the last update.
unfoldable pub verdict : TaskOutboxRelay → Env → Message → Outcome
verdict r env m = elim (env.decode m.payload) [
  | malformed text ↦ record {
    row = set_dead_letter r.settings env.now m OutboxError.payload_decode text m;
    error = some (payload_decode text);
    accepted = none;
  }
  | decoded p ↦
      if text_eq (trim_space m.message_type) message_type_run_task
      then elim (env.dispatch p) [
        | none ↦ record {
          row = set_dispatched r.settings env.now m m;
          error = none;
          accepted = some p;
        }
        | some f ↦ record {
          row =
              if should_dead_letter r.settings m (classify_dispatch_error f)
              then set_dead_letter r.settings env.now m (classify_dispatch_error f) f.text m
              else set_retry env.now m (classify_dispatch_error f) f.text m;
          error = some (dispatch_failed f);
          accepted = none;
        }
      ]
      else record {
        row =
            set_dead_letter r.settings env.now m OutboxError.unsupported_message
              (codes "unsupported outbox message type") m;
        error = some unsupported_message_type;
        accepted = none;
      }
]

-- A refused update leaves the row claimed, whatever the dispatcher has accepted.
unfoldable pub settle : Env → Message → Outcome → Outcome
settle env m o = elim env.finish_error [
  | none ↦ o
  | some e ↦ record { row = m; error = some (database e); accepted = o.accepted }
]

unfoldable pub row_step : TaskOutboxRelay → Env → Message → Outcome
unfolding verdict settle
row_step r env m =
    if is_dispatchable_message m env.now
    then elim env.claim_error [
      | some e ↦ record { row = m; error = some (database e); accepted = none }
      | none ↦ settle env (set_claimed r env.now m) (verdict r env (claimed_message r env.now m))
    ]
    else record { row = m; error = none; accepted = none }
