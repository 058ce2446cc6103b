-- ===== src/Outbox/Statements.antt =====
-- outbox/relay.go: the SQL updates of a dispatch, each one statement on the table.
use article_sentinel.Base.{
  ℕ, ◌+◌, ◌*◌, Bool, true, ◌&&◌, Option, none, some, [], leb, ltb, ◌==◌, if◌then◌else◌,
  update_where, rows_affected,
}
use article_sentinel.Text.{Text, text_eq, trim_space, is_empty}
use article_sentinel.Domain.OutboxStatus
use article_sentinel.Domain.OutboxError
use article_sentinel.Outbox.{
  Message, TaskOutboxSettings, TaskOutboxRelay, DispatchFailure, RelayError, database, Env, World,
  second, datetime,
}
use article_sentinel.Outbox.Codec.{
  status_case, pending, claimed, is_due, is_lapsed, is_dispatchable_message,
}

-- The `WHERE` of the claim, which depends on the status that was read.
abbrev pub pending_where : Message → ℕ → Message → Bool
pending_where m now row =
    row.id == m.id && text_eq row.status OutboxStatus.pending && is_due now row.next_attempt_at

abbrev pub claimed_where : Message → ℕ → Message → Bool
claimed_where m now row =
    row.id == m.id && text_eq row.status OutboxStatus.claimed && is_lapsed now row.claim_until

-- The columns that a claim writes.
abbrev pub set_claimed : TaskOutboxRelay → ℕ → Message → Message
set_claimed r now row = record row {
  status = OutboxStatus.claimed;
  claimed_by = r.claim_owner;
  claimed_at = some (datetime now);
  claim_until = some (datetime (now + r.settings.lease_duration));
}

-- The message that a claim returns, whose times no column has rounded.
abbrev pub claimed_message : TaskOutboxRelay → ℕ → Message → Message
claimed_message r now m = record m {
  status = OutboxStatus.claimed;
  claimed_by = r.claim_owner;
  claimed_at = some now;
  claim_until = some (now + r.settings.lease_duration);
}

pub data Claim : Type 0 where
  claim_failed : RelayError → Claim
  not_claimed : Claim
  claimed_as : Message → Claim

-- `query.Updates(...)` and what is made of its result.
unfoldable pub update_claim :
    TaskOutboxRelay → Env → Message → (Message → Bool) → World → Claim × World
update_claim r env m p w = elim env.claim_error [
  | some e ↦ (claim_failed (database e), w)
  | none ↦ if rows_affected p w.outbox == 0 then (not_claimed, w) else (
    claimed_as (claimed_message r env.now m),
    record w { outbox = update_where p (set_claimed r env.now) w.outbox },
  )
]

unfoldable pub claim_message : TaskOutboxRelay → Env → Message → World → Claim × World
unfolding update_claim
claim_message r env m w =
    if is_dispatchable_message m env.now
    then elim (status_case m.status) [
      | pending ↦ update_claim r env m (pending_where m env.now) w
      | claimed ↦ update_claim r env m (claimed_where m env.now) w
      | _ ↦ (not_claimed, w)
    ]
    else (not_claimed, w)

-- `Where("id = ?", m.ID).Updates(f)`: the status and the claim are not compared.
unfoldable pub update_message :
    Env → Message → (Message → Message) → World → Option RelayError × World
update_message env m f w = elim env.finish_error [
  | some e ↦ (some (database e), w)
  | none ↦ (none, record w { outbox = update_where (λ row. row.id == m.id) f w.outbox })
]

abbrev pub set_dispatched : TaskOutboxSettings → ℕ → Message → Message → Message
set_dispatched s now m row = record row {
  status = OutboxStatus.dispatched;
  attempt_count = m.attempt_count + 1;
  claimed_by = [];
  claimed_at = none;
  claim_until = none;
  next_attempt_at = none;
  last_error = [];
  last_error_code = [];
  last_attempt_at = some (datetime now);
  dead_lettered_at = none;
  dispatched_at = some (datetime now);
  retained_until = some (datetime (now + s.dispatched_retention));
}

unfoldable pub backoff_for_attempt : ℕ → ℕ
backoff_for_attempt n =
    if leb n 3 then 15 * second else if leb n 10 then 60 * second else 300 * second

-- The trimmed text of an error, or else its code.
abbrev pub error_text : Text → Text → Text
error_text text code = if is_empty (trim_space text) then code else trim_space text

abbrev pub set_retry : ℕ → Message → Text → Text → Message → Message
set_retry now m code text row = record row {
  status = OutboxStatus.pending;
  attempt_count = m.attempt_count + 1;
  claimed_by = [];
  claimed_at = none;
  claim_until = none;
  next_attempt_at = some (datetime (now + backoff_for_attempt (m.attempt_count + 1)));
  last_error = error_text text code;
  last_error_code = code;
  last_attempt_at = some (datetime now);
  dead_lettered_at = none;
}

abbrev pub set_dead_letter : TaskOutboxSettings → ℕ → Message → Text → Text → Message → Message
set_dead_letter s now m code text row = record row {
  status = OutboxStatus.dead_letter;
  attempt_count = m.attempt_count + 1;
  claimed_by = [];
  claimed_at = none;
  claim_until = none;
  next_attempt_at = none;
  last_error = error_text text code;
  last_error_code = code;
  last_attempt_at = some (datetime now);
  dead_lettered_at = some (datetime now);
  retained_until = some (datetime (now + s.dead_letter_retention));
}

unfoldable pub classify_dispatch_error : DispatchFailure → Text
classify_dispatch_error f =
    if f.is_unavailable then OutboxError.dispatcher_unavailable else OutboxError.dispatch

unfoldable pub should_dead_letter : TaskOutboxSettings → Message → Text → Bool
should_dead_letter s m code =
    if text_eq code OutboxError.payload_decode
    then true
    else if text_eq code OutboxError.unsupported_message
    then true
    else ltb 0 s.max_attempts && leb s.max_attempts (m.attempt_count + 1)
