-- ===== src/Outbox/Codec.antt =====
-- outbox/codec.go: which messages may be dispatched.
use article_sentinel.Base.{ℕ, Bool, true, false, Option, none, some, leb, ltb, if◌then◌else◌}
use article_sentinel.Text.{Text, text_eq, trim_space}
use article_sentinel.Domain.OutboxStatus
use article_sentinel.Outbox.{Message}

-- The cases of a `switch` over a status.
pub data StatusCase : Type 0 where
  pending claimed dispatched dead_letter other : StatusCase

unfoldable pub status_case : Text → StatusCase
status_case s =
    let t = trim_space s in
    if text_eq t OutboxStatus.pending
    then pending
    else if text_eq t OutboxStatus.claimed
    then claimed
    else if text_eq t OutboxStatus.dispatched
    then dispatched
    else if text_eq t OutboxStatus.dead_letter
    then dead_letter
    else other

-- `at == nil || !at.After(now)`, and SQL's `IS NULL OR <= now`
abbrev pub is_due : ℕ → Option ℕ → Bool
is_due now none = true
is_due now (some at) = leb at now

-- `at == nil || at.Before(now)`, and SQL's `IS NULL OR < now`
abbrev pub is_lapsed : ℕ → Option ℕ → Bool
is_lapsed now none = true
is_lapsed now (some at) = ltb at now

unfoldable pub is_dispatchable_message : Message → ℕ → Bool
is_dispatchable_message m now = elim (status_case m.status) [
  | pending ↦ is_due now m.next_attempt_at
  | claimed ↦ is_lapsed now m.claim_until
  | _ ↦ false
]
