-- ===== src/Outbox/Tests.antt =====
-- A table of two rows and a dispatcher: the theorems on the outbox at it.
use mathlib.Core.Logic.{inl, inr}
use article_sentinel.Base.{
  ℕ, ◌+◌, ◌*◌, ◌≤◌, ◌<◌, true, false, ◌≡◌, ◌⊎◌, refl, arith, none, some, [], ◌∷◌, All,
}
use article_sentinel.Text.{Text, codes, trim_space, text_eq}
use article_sentinel.Domain.{message_type_run_task}
use article_sentinel.Domain.OutboxStatus
use article_sentinel.Outbox.{
  Message, TaskOutboxRelay, Payload, decoded, DispatchFailure, Env, World, second, datetime,
}
use article_sentinel.Outbox.Codec.{is_dispatchable_message}
use article_sentinel.Outbox.Statements.{
  claimed_message, should_dead_letter, classify_dispatch_error, backoff_for_attempt,
}
use article_sentinel.Outbox.Relay.{dispatch_message, deliver}
use article_sentinel.Outbox.Pending.{dispatch_pending, with_envs, relay_scan, is_relayable}
use article_sentinel.Outbox.Cleanup.{cleanup, cleanup_scan, is_disposable}
use article_sentinel.Outbox.Row.{find_row, row_step, accept}
use article_sentinel.Outbox.Status.{
  status_case-pending, status_case-claimed, status_case-dispatched, status_case-dead_letter,
}
use article_sentinel.Outbox.Refine.{dispatch_message-row_step}
use article_sentinel.Outbox.Batch.{dispatch_pending-IsSettled, IsSettled}
use article_sentinel.Outbox.Invariant.{IsWellFormed, AllWellFormed, dispatch_message-IsWellFormed}
use article_sentinel.Outbox.Retry.{retry_exhausts, run_dispatches}
use article_sentinel.Outbox.Stale.{stale_failure_requeues}
use article_sentinel.Outbox.Frame.{dispatch_message-others}
use article_sentinel.Outbox.Scan.{relayable-dispatchable}
use article_sentinel.Outbox.Report.{dispatch_pending-report}
use article_sentinel.Outbox.Sweep.{cleanup-keeps, cleanup-deletes}
use article_sentinel.Outbox.Drain.{dispatch_pending-drains}
use article_sentinel.Outbox.Consistent.{IsDispatched}

abbrev pub row : ℕ → Text → Message
row i status = record {
  id = i;
  org_id = 1;
  task_id = 10 + i;
  message_type = message_type_run_task;
  status = status;
  payload = [];
  attempt_count = 0;
  claimed_by = [];
  claimed_at = none;
  claim_until = none;
  next_attempt_at = none;
  last_error = [];
  last_error_code = [];
  last_attempt_at = none;
  dead_lettered_at = none;
  dispatched_at = none;
  retained_until = none;
}

abbrev old_row : Message
old_row = record (row 2 OutboxStatus.dispatched) {
  attempt_count = 1;
  dispatched_at = some 1;
  retained_until = some 50;
}

abbrev pub relay : TaskOutboxRelay
relay = record {
  has_dispatcher = true;
  settings = record {
    lease_duration = 30 * second;
    max_attempts = 2;
    dispatched_retention = 50;
    dead_letter_retention = 90;
  };
  claim_owner = codes "a";
}

abbrev run : Payload
run = record { task_id = 11; org_id = 1; trigger_source = []; operator_id = 0; operator_name = [] }

abbrev pub accepting : Env
accepting = record {
  now = 100;
  load_error = none;
  claim_error = none;
  finish_error = none;
  reload_error = none;
  decode = λ t. decoded run;
  dispatch = λ p. none;
}

abbrev refusal : DispatchFailure
refusal = record { text = codes "full"; is_unavailable = false }

abbrev refusing : Env
refusing = record accepting { dispatch = λ p. some refusal }

abbrev two_rows : World
two_rows = record { outbox = row 1 OutboxStatus.pending ∷ old_row ∷ []; sent = [] }

row_step_example :
    let (e, w') = dispatch_message relay accepting 1 two_rows in
    let o = row_step relay accepting (row 1 OutboxStatus.pending) in
    (find_row 1 w'.outbox ≡ some o.row)
    × (e ≡ o.error)
    × (w'.sent ≡ accept o.accepted two_rows.sent)
row_step_example =
    dispatch_message-row_step relay accepting 1 (row 1 OutboxStatus.pending) two_rows (omega arith)
      refl refl refl (inl refl)

pass_example :
    let (result, w') = dispatch_pending relay 100 none (λ i. accepting) 5 two_rows in
    (result.1 ≡ none)
    × All (IsSettled relay w') (with_envs (λ i. accepting) 0 (relay_scan 100 5 two_rows.outbox))
pass_example =
    dispatch_pending-IsSettled relay 100 5 (λ i. accepting) two_rows refl (refl, (refl, tt))
      ((inl refl, omega arith), ((inr (inr (inl refl)), omega arith), tt)) (λ i. (refl, refl))

row-IsWellFormed : IsWellFormed relay.settings (row 1 OutboxStatus.pending)
row-IsWellFormed = ground (
  arith, status_case-pending, status_case-claimed, status_case-dispatched, status_case-dead_letter,
)

old_row-IsWellFormed : IsWellFormed relay.settings old_row
old_row-IsWellFormed = ground (
  arith, status_case-pending, status_case-claimed, status_case-dispatched, status_case-dead_letter,
)

two_rows-IsWellFormed : AllWellFormed relay.settings two_rows
two_rows-IsWellFormed = (row-IsWellFormed, (old_row-IsWellFormed, tt))

invariant_example : AllWellFormed relay.settings (dispatch_message relay refusing 1 two_rows).1
invariant_example = dispatch_message-IsWellFormed relay refusing 1 two_rows two_rows-IsWellFormed

retry_example :
    (m' : Message) × (find_row 1
        (run_dispatches relay
          (refusing ∷ record refusing { now = 400_000_000_000 } ∷ [])
          1
          two_rows).outbox
      ≡ some m')
    × (((2 < 2) × (m'.status ≡ OutboxStatus.pending) × (m'.attempt_count ≡ 2))
        ⊎ ((2 ≤ 2) × (m'.status ≡ OutboxStatus.dead_letter) × (m'.attempt_count ≡ 2)))
unfolding text_eq trim_space codes
retry_example =
    retry_exhausts relay (refusing ∷ record refusing { now = 400_000_000_000 } ∷ []) 0 1
      (row 1 OutboxStatus.pending) two_rows (omega arith) refl refl (refl, refl, omega arith, refl)
      (
        omega arith,
        (refl, refl, refl, run, refusal, refl, refl),
        (omega arith, (refl, refl, refl, run, refusal, refl, refl), tt),
      )

stale_example :
    (row' : Message) × (find_row 2
        (deliver relay refusing
          (claimed_message relay 60 (row 2 OutboxStatus.pending))
          two_rows).1.outbox
      ≡ some row')
    × (row'.status ≡ OutboxStatus.pending)
    × (row'.next_attempt_at ≡ some (datetime (100 + backoff_for_attempt 1)))
    × (row'.dispatched_at ≡ some 1)
unfolding should_dead_letter classify_dispatch_error text_eq trim_space codes
stale_example =
    stale_failure_requeues relay refusing (claimed_message relay 60 (row 2 OutboxStatus.pending))
      old_row run refusal two_rows refl refl refl refl refl refl refl

others_example : find_row 2 (dispatch_message relay accepting 1 two_rows).1.outbox ≡ some old_row
others_example = dispatch_message-others relay accepting 1 2 two_rows (omega arith)

relayable_example :
    is_relayable 100 (row 1 OutboxStatus.pending)
    ≡ is_dispatchable_message (row 1 OutboxStatus.pending) 100
relayable_example = relayable-dispatchable 100 (row 1 OutboxStatus.pending) (inl refl)

report_example :
    let report = (dispatch_pending relay 100 none (λ i. refusing) 0 two_rows).0.0 in
    (report.scanned ≤ 20)
    × (report.dispatched + report.retried + report.dead_lettered ≤ report.scanned)
    × (report.claimed ≤ report.scanned)
    × (report.failed ≤ report.scanned)
report_example = dispatch_pending-report relay 100 0 none (λ i. refusing) two_rows

keeps_example :
    find_row 1 (cleanup 100 none none 0 two_rows).1.outbox ≡ some (row 1 OutboxStatus.pending)
unfolding is_disposable text_eq codes
keeps_example =
    cleanup-keeps 100 0 none none two_rows (row 1 OutboxStatus.pending) (refl, (refl, tt)) refl refl

deletes_example :
    let ((deleted, error), w') = cleanup 100 none none 1 two_rows in
    (error ≡ none)
    × (deleted ≤ 1)
    × All (λ b. find_row b.id w'.outbox ≡ none) (cleanup_scan 100 1 two_rows.outbox)
deletes_example = cleanup-deletes 100 1 two_rows (refl, (refl, tt))

drains_example :
    let (result, w') = dispatch_pending relay 100 none (λ i. accepting) 5 two_rows in
    (result.1 ≡ none) × IsDispatched 1 w'
unfolding is_relayable text_eq trim_space codes
drains_example =
    dispatch_pending-drains relay 100 5 (λ i. accepting) two_rows
      (λ i. (omega arith, refl, refl, refl, refl)) refl (refl, (refl, tt))
      ((inl refl, omega arith), ((inr (inr (inl refl)), omega arith), tt))
      (λ i. (refl, run, refl, refl), (λ i. (refl, run, refl, refl), tt)) (omega arith) (omega arith)
      1 (row 1 OutboxStatus.pending) refl refl
