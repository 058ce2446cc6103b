-- ===== src/Outbox/Stale.antt =====
-- A relay that outlives its lease: its last update of a failed dispatch compares neither the
-- status nor the claim.
use article_sentinel.Base.{◌+◌, true, false, ◌≡◌, refl, arith, none, some, ◌==◌, first_where-holds}
use article_sentinel.Text.{text_eq, trim_space}
use article_sentinel.Domain.{message_type_run_task}
use article_sentinel.Domain.OutboxStatus
use article_sentinel.Outbox.{
  Message, TaskOutboxRelay, Payload, decoded, DispatchFailure, Env, World, datetime,
}
use article_sentinel.Outbox.Statements.{
  classify_dispatch_error, should_dead_letter, set_retry, update_message, backoff_for_attempt,
}
use article_sentinel.Outbox.Relay.{deliver, on_dispatch_failure}
use article_sentinel.Outbox.Row.{find_row}
use article_sentinel.Outbox.Refine.{find_row-update}

-- A relay that has claimed `m`, whose lease another relay has since taken over to dispatch the
-- row, and whose own dispatch then fails with attempts left, puts the dispatched row back to
-- pending, to be sent again after the backoff, if the database takes the update.
pub stale_failure_requeues :
    (r : TaskOutboxRelay) (env : Env) (m row : Message) (p : Payload) (f : DispatchFailure)
    (w : World)
    → find_row m.id w.outbox ≡ some row
    → row.status ≡ OutboxStatus.dispatched
    → env.decode m.payload ≡ decoded p
    → text_eq (trim_space m.message_type) message_type_run_task ≡ true
    → env.dispatch p ≡ some f
    → should_dead_letter r.settings m (classify_dispatch_error f) ≡ false
    → env.finish_error ≡ none
    → (row' : Message) × (find_row m.id (deliver r env m w).1.outbox ≡ some row')
      × (row'.status ≡ OutboxStatus.pending)
      × (row'.next_attempt_at
          ≡ some (datetime (env.now + backoff_for_attempt (m.attempt_count + 1))))
      × (row'.dispatched_at ≡ row.dispatched_at)
unfolding deliver on_dispatch_failure update_message
stale_failure_requeues r env m row p f w found sent json run refused left open_db = (
  set_retry env.now m (classify_dispatch_error f) f.text row,
  ground (
    arith,
    find_row-update m.id (λ a. a.id == m.id)
        (set_retry env.now m (classify_dispatch_error f) f.text) (λ a. refl) w.outbox found,
    first_where-holds (λ a. a.id == m.id) w.outbox found,
  ),
  refl,
  refl,
  refl,
)
