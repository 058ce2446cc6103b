-- ===== src/Outbox/Status.antt =====
-- The outbox statuses: the `switch` of outbox/codec.go on each of them, and that they differ.
use article_sentinel.Base.{ℕ, ◌≡◌, refl, ◌⊎◌, arith}
use article_sentinel.Text.{Text, text_eq, codes, trim_space}
use article_sentinel.Domain.OutboxStatus
use article_sentinel.Outbox.{Message}
use article_sentinel.Outbox.Codec.{StatusCase, status_case, is_due, is_dispatchable_message}

pub status_case-pending : status_case OutboxStatus.pending ≡ StatusCase.pending
unfolding status_case trim_space text_eq codes
status_case-pending = refl

pub status_case-claimed : status_case OutboxStatus.claimed ≡ StatusCase.claimed
unfolding status_case trim_space text_eq codes
status_case-claimed = refl

pub status_case-dispatched : status_case OutboxStatus.dispatched ≡ StatusCase.dispatched
unfolding status_case trim_space text_eq codes
status_case-dispatched = refl

pub status_case-dead_letter : status_case OutboxStatus.dead_letter ≡ StatusCase.dead_letter
unfolding status_case trim_space text_eq codes
status_case-dead_letter = refl

pub ruleset status_cases =
    (status_case-pending, status_case-claimed, status_case-dispatched, status_case-dead_letter)

-- The statuses that the code writes.
abbrev pub IsKnown : Text → Type 0
IsKnown s =
    (s ≡ OutboxStatus.pending)
    ⊎ (s ≡ OutboxStatus.claimed)
    ⊎ (s ≡ OutboxStatus.dispatched)
    ⊎ (s ≡ OutboxStatus.dead_letter)

module _ (m : Message) (now : ℕ) where
  pub dispatchable_of_pending :
      m.status ≡ OutboxStatus.pending → is_dispatchable_message m now ≡ is_due now m.next_attempt_at
  unfolding is_dispatchable_message
  dispatchable_of_pending e = ground (arith, status_case-pending)
