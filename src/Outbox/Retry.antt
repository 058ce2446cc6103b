-- ===== src/Outbox/Retry.antt =====
-- A message that keeps failing uses up its attempts and is then dead.
use article_sentinel.Base.{
  ℕ, ◌+◌, ◌*◌, ◌≤◌, ◌<◌, true, ◌≡◌, ◌≢◌, ◌⊎◌, inl, inr, refl, arith, Option, none, some, List, [],
  ◌∷◌, length, leb, dec_lt,
}
use article_sentinel.Text.{Text, text_eq, trim_space, codes}
use article_sentinel.Domain.{message_type_run_task}
use article_sentinel.Domain.OutboxStatus
use article_sentinel.Outbox.{
  Message, TaskOutboxRelay, TaskOutboxSettings, Payload, decoded, DispatchFailure, Env, World,
  second, datetime,
}
use article_sentinel.Outbox.Codec.{is_due, is_dispatchable_message}
use article_sentinel.Outbox.Statements.{
  classify_dispatch_error, should_dead_letter, claimed_message, backoff_for_attempt,
}
use article_sentinel.Outbox.Relay.{dispatch_message}
use article_sentinel.Outbox.Refine.{dispatch_message-row_step}
use article_sentinel.Outbox.Row.{row_step, verdict, settle, find_row}
use article_sentinel.Outbox.Status.{status_case-pending, status_case-dead_letter}

-- One dispatch of the message `i` after another.
abbrev pub run_dispatches : TaskOutboxRelay → List Env → ℕ → World → World
run_dispatches r [] i w = w
run_dispatches r (env ∷ envs) i w = run_dispatches r envs i (dispatch_message r env i w).1

-- What these make of its row.
abbrev run_row : TaskOutboxRelay → List Env → Message → Message
run_row r [] m = m
run_row r (env ∷ envs) m = run_row r envs (row_step r env m).row

abbrev pub longest_backoff : ℕ
longest_backoff = 300 * second

-- What the column makes of the end of the longest backoff comes at most a second later.
abbrev pub longest_wait : ℕ
longest_wait = longest_backoff + second

-- The dispatcher refuses the message, and the database refuses nothing.
abbrev pub IsRefused : Text → Env → Type 0
IsRefused payload env =
    (env.load_error ≡ none)
    × (env.claim_error ≡ none)
    × (env.finish_error ≡ none)
    × (p : Payload) × (f : DispatchFailure) × (env.decode payload ≡ decoded p)
    × (env.dispatch p ≡ some f)

-- Dispatches that are all refused, the first not before `from` and each the longest backoff and a
-- second after the one before.
abbrev pub AreRefused : Text → ℕ → List Env → Type 0
AreRefused payload from [] = Unit
AreRefused payload from (env ∷ envs) =
    (from ≤ env.now) × IsRefused payload env × AreRefused payload (env.now + longest_wait) envs

should_dead_letter_lem :
    (s : TaskOutboxSettings) (m : Message) (f : DispatchFailure)
    → m.attempt_count < s.max_attempts
    → should_dead_letter s m (classify_dispatch_error f) ≡ leb s.max_attempts (m.attempt_count + 1)
unfolding should_dead_letter classify_dispatch_error text_eq codes
should_dead_letter_lem s m f h = ground arith

-- A message of the right type that is to be dispatched at `from`, with attempts left.
abbrev pub IsQueued : TaskOutboxSettings → ℕ → Message → Type 0
IsQueued s from m =
    (m.status ≡ OutboxStatus.pending)
    × (is_due from m.next_attempt_at ≡ true)
    × (m.attempt_count < s.max_attempts)
    × (text_eq (trim_space m.message_type) message_type_run_task ≡ true)

backoff_le : (n : ℕ) → backoff_for_attempt n ≤ longest_backoff
unfolding backoff_for_attempt
backoff_le n = ground arith

datetime_le : (t : ℕ) → datetime t ≤ t + second
unfolding datetime
datetime_le t = omega arith

is_due_mono :
    (from now : ℕ) (at : Option ℕ) → from ≤ now → is_due from at ≡ true → is_due now at ≡ true
is_due_mono from now none h d = refl
is_due_mono from now (some at) h d = ground arith

-- What a refused dispatch makes of a row.
abbrev Refusal : TaskOutboxSettings → ℕ → Message → Message → Type 0
Refusal s now m row =
    (row.attempt_count ≡ m.attempt_count + 1)
    × (row.payload ≡ m.payload)
    × (row.message_type ≡ m.message_type)
    × (s.max_attempts ≤ m.attempt_count + 1 → row.status ≡ OutboxStatus.dead_letter)
    × (m.attempt_count + 1 < s.max_attempts
        → (row.status ≡ OutboxStatus.pending)
          × (is_due (now + longest_wait) row.next_attempt_at ≡ true))

module _ (r : TaskOutboxRelay) (env : Env) (m : Message) where
  refused_verdict :
      text_eq (trim_space m.message_type) message_type_run_task ≡ true
      → m.attempt_count < r.settings.max_attempts
      → IsRefused m.payload env
      → Refusal r.settings env.now m (verdict r env m).row
  unfolding verdict
  refused_verdict run left (open0, open1, open2, p, f, json, no_send) = ground (
    arith,
    should_dead_letter_lem r.settings m f,
    backoff_le (m.attempt_count + 1),
    datetime_le (env.now + backoff_for_attempt (m.attempt_count + 1)),
  )

module _ (r : TaskOutboxRelay) (env : Env) (m : Message) where
  refused_step :
      (from : ℕ)
      → IsQueued r.settings from m
      → from ≤ env.now
      → IsRefused m.payload env
      → Refusal r.settings env.now m (row_step r env m).row
  unfolding row_step settle is_dispatchable_message
  refused_step from (queued, due, left, run) late refused =
      let v = refused_verdict r env (claimed_message r env.now m) run left refused in
      let d : is_dispatchable_message m env.now ≡ true =
        ground (arith, status_case-pending, is_due_mono from env.now m.next_attempt_at late due) in
      rw (d, refused.1, refused.2, row_step, settle) v

-- A dead letter stays as it is.
still_dead :
    (r : TaskOutboxRelay) (env : Env) (m : Message)
    → m.status ≡ OutboxStatus.dead_letter
    → (row_step r env m).row ≡ m
unfolding row_step is_dispatchable_message
still_dead r env m dead = ground (arith, status_case-dead_letter)

run_row-dead :
    (r : TaskOutboxRelay) (envs : List Env) (m : Message)
    → m.status ≡ OutboxStatus.dead_letter
    → run_row r envs m ≡ m
run_row-dead r [] m dead = refl
run_row-dead r (env ∷ envs) m dead = rw (still_dead r env m dead) (run_row-dead r envs m dead)

retry_outcomes :
    (r : TaskOutboxRelay) (envs : List Env) (from : ℕ) (m : Message)
    → IsQueued r.settings from m
    → AreRefused m.payload from envs
    → let m' = run_row r envs m in
      (m.attempt_count + length envs < r.settings.max_attempts
        → (m'.status ≡ OutboxStatus.pending) × (m'.attempt_count ≡ m.attempt_count + length envs))
      × (r.settings.max_attempts ≤ m.attempt_count + length envs
          → (m'.status ≡ OutboxStatus.dead_letter) × (m'.attempt_count ≡ r.settings.max_attempts))
retry_outcomes r [] from m (queued, due, left, run) refused =
    (λ h. (queued, omega arith), λ h. absurd (omega arith))
retry_outcomes r (env ∷ envs) from m q (late, refused, more) =
    elim (dec_lt (m.attempt_count + 1) r.settings.max_attempts) [
      | no used_up ↦
          let dead : row.status ≡ OutboxStatus.dead_letter = step.3 (omega arith) in
          rw (run_row-dead r envs row dead)
            (λ h. absurd (omega arith), λ h. (dead, omega (arith, step.0, q.2)))
      | yes left ↦
          let (queued, due) = step.4 left in
          let rest =
            retry_outcomes r envs (env.now + longest_wait) row
              (queued, due, omega (arith, step.0), rw step.2 q.3) (rw step.1 more) in
          (
            λ h. let (s, c) = rest.0 (omega (arith, step.0)) in (s, omega (arith, step.0)),
            λ h. let (s, c) = rest.1 (omega (arith, step.0)) in (s, c),
          )
    ]
  where
    row : Message
    row = (row_step r env m).row

    step : Refusal r.settings env.now m row
    step = refused_step r env m from q late refused

-- The dispatches of the message do to its row what `row_step` says: of a dead letter, and of a
-- queued message.
dead_found :
    (r : TaskOutboxRelay) (envs : List Env) (payload : Text) (from i : ℕ) (m : Message) (w : World)
    → i ≢ 0
    → r.has_dispatcher ≡ true
    → m.status ≡ OutboxStatus.dead_letter
    → AreRefused payload from envs
    → find_row i w.outbox ≡ some m
    → find_row i (run_dispatches r envs i w).outbox ≡ some (run_row r envs m)
dead_found r [] payload from i m w nonzero can dead refused found = found
dead_found r (env ∷ envs) payload from i m w nonzero can dead (late, refused, more) found =
    let still = still_dead r env m dead in
    let (row, _, _) =
      dispatch_message-row_step r env i m w nonzero can refused.0 found (inr (inr (inr dead))) in
    dead_found r envs payload (env.now + longest_wait) i (row_step r env m).row
      (dispatch_message r env i w).1 nonzero can (rw still dead) more row

dispatches_found :
    (r : TaskOutboxRelay) (envs : List Env) (from i : ℕ) (m : Message) (w : World)
    → i ≢ 0
    → r.has_dispatcher ≡ true
    → IsQueued r.settings from m
    → AreRefused m.payload from envs
    → find_row i w.outbox ≡ some m
    → find_row i (run_dispatches r envs i w).outbox ≡ some (run_row r envs m)
dispatches_found r [] from i m w nonzero can q refused found = found
dispatches_found r (env ∷ envs) from i m w nonzero can q (late, refused, more) found =
    let step = refused_step r env m from q late refused in
    let (row, _, _) = dispatch_message-row_step r env i m w nonzero can refused.0 found (inl q.0) in
    elim (dec_lt (m.attempt_count + 1) r.settings.max_attempts) [
      | no used_up ↦
          dead_found r envs m.payload (env.now + longest_wait) i (row_step r env m).row
            (dispatch_message r env i w).1 nonzero can (step.3 (omega arith)) more row
      | yes left ↦
          let (queued, due) = step.4 left in
          dispatches_found r envs (env.now + longest_wait) i (row_step r env m).row
            (dispatch_message r env i w).1 nonzero can
            (queued, due, omega (arith, step.0), rw step.2 q.3) (rw step.1 more) row
    ]

-- With a dispatcher and an id other than 0, a queued message, dispatched by `DispatchMessage`
-- again and again with the longest backoff and a second between, and refused by the dispatcher
-- each time, stays pending, with every refusal counted, while attempts are left, and is a dead
-- letter from the last of them on.
pub retry_exhausts :
    (r : TaskOutboxRelay) (envs : List Env) (from i : ℕ) (m : Message) (w : World)
    → i ≢ 0
    → r.has_dispatcher ≡ true
    → find_row i w.outbox ≡ some m
    → IsQueued r.settings from m
    → AreRefused m.payload from envs
    → (m' : Message) × (find_row i (run_dispatches r envs i w).outbox ≡ some m')
      × (((m.attempt_count + length envs < r.settings.max_attempts)
            × (m'.status ≡ OutboxStatus.pending)
            × (m'.attempt_count ≡ m.attempt_count + length envs))
          ⊎ ((r.settings.max_attempts ≤ m.attempt_count + length envs)
              × (m'.status ≡ OutboxStatus.dead_letter)
              × (m'.attempt_count ≡ r.settings.max_attempts)))
retry_exhausts r envs from i m w nonzero can found queued refused =
    let (early, late) = retry_outcomes r envs from m queued refused in
    (
      run_row r envs m,
      dispatches_found r envs from i m w nonzero can queued refused found,
      elim (dec_lt (m.attempt_count + length envs) r.settings.max_attempts) [
        | yes left ↦ let (s, c) = early left in inl (left, s, c)
        | no used_up ↦
            let l : r.settings.max_attempts ≤ m.attempt_count + length envs = omega arith in
            let (s, c) = late l in inr (l, s, c)
      ],
    )
