-- ===== src/Outbox/Invariant.antt =====
-- What every row of the outbox satisfies, before and after each dispatch.
use article_sentinel.Base.{
  ℕ, ◌≤◌, ◌<◌, Bool, true, ◌≡◌, refl, ◌≢◌, ◌⊎◌, arith, none, [], ◌==◌, Bool-cases, Option-cases,
  rows_affected, inl, inr, is_some, All, All-update_where, All-first_where,
}
use article_sentinel.Text.Laws.{eq_of_text_eq}
use article_sentinel.Domain.OutboxStatus
use article_sentinel.Outbox.{Message, TaskOutboxSettings, TaskOutboxRelay, Env, World}
use article_sentinel.Outbox.Codec.{is_dispatchable_message}
use article_sentinel.Outbox.Statements.{
  Claim, claim_failed, not_claimed, claimed_as, pending_where, claimed_where, update_claim,
  set_claimed, claim_message, update_message, should_dead_letter,
}
use article_sentinel.Outbox.Relay.{deliver, deliver_claim, dispatch_loaded, dispatch_message}
use article_sentinel.Outbox.Row.{find_row}
use article_sentinel.Outbox.Status.{
  IsKnown, status_case-pending, status_case-claimed, status_case-dispatched,
  status_case-dead_letter,
}
use article_sentinel.Outbox.Written.{
  Written, as_dispatched, as_dead_letter, as_retry, deliver-Writes,
}

abbrev pub IsLive : Message → Type 0
IsLive m = (m.status ≡ OutboxStatus.pending) ⊎ (m.status ≡ OutboxStatus.claimed)

abbrev pub IsTerminal : Message → Type 0
IsTerminal m = (m.status ≡ OutboxStatus.dispatched) ⊎ (m.status ≡ OutboxStatus.dead_letter)

pub record IsWellFormed (s : TaskOutboxSettings) (m : Message) : Type 0 where
  pub known : IsKnown m.status
  -- a claim has a lease, and no other row has one
  pub leased : m.status ≡ OutboxStatus.claimed → is_some m.claim_until ≡ true
  pub unleased :
      m.status ≢ OutboxStatus.claimed
      → (m.claimed_by ≡ []) × (m.claimed_at ≡ none) × (m.claim_until ≡ none)
  -- a terminal row will be cleaned up, and says when it ended
  pub retained : IsTerminal m → is_some m.retained_until ≡ true
  pub dispatched_stamped : m.status ≡ OutboxStatus.dispatched → is_some m.dispatched_at ≡ true
  pub dead_stamped : m.status ≡ OutboxStatus.dead_letter → is_some m.dead_lettered_at ≡ true
  -- attempts are bounded, and only a row with attempts left is dispatched again
  pub bounded : m.attempt_count ≤ s.max_attempts
  pub live : IsLive m → m.attempt_count < s.max_attempts

set_claimed-IsWellFormed :
    (r : TaskOutboxRelay) (now : ℕ) (a : Message)
    → IsWellFormed r.settings a
    → IsLive a
    → IsWellFormed r.settings (set_claimed r now a)
set_claimed-IsWellFormed r now a h live = ground (
  arith, status_case-pending, status_case-claimed, status_case-dispatched, status_case-dead_letter,
)

Written-IsWellFormed :
    {r : TaskOutboxRelay} {env : Env} {m : Message} {f : Message → Message} (a : Message)
    → Written r env m f
    → m.attempt_count < r.settings.max_attempts
    → IsWellFormed r.settings (f a)
unfolding should_dead_letter
Written-IsWellFormed a as_dispatched h = ground (
  arith, status_case-pending, status_case-claimed, status_case-dispatched, status_case-dead_letter,
)
Written-IsWellFormed a (as_dead_letter code text) h = ground (
  arith, status_case-pending, status_case-claimed, status_case-dispatched, status_case-dead_letter,
)
Written-IsWellFormed a (as_retry code text back) h = ground (
  arith, status_case-pending, status_case-claimed, status_case-dispatched, status_case-dead_letter,
)

-- The invariant of the table.
abbrev pub AllWellFormed : TaskOutboxSettings → World → Type 0
AllWellFormed s w = All (IsWellFormed s) w.outbox

-- A dispatchable row has attempts left.
dispatchable-live :
    (s : TaskOutboxSettings) (m : Message) (now : ℕ)
    → IsWellFormed s m
    → is_dispatchable_message m now ≡ true
    → m.attempt_count < s.max_attempts
unfolding is_dispatchable_message
dispatchable-live s m now h d = ground (arith, status_case-dispatched, status_case-dead_letter)

module _ (r : TaskOutboxRelay) (env : Env) where
  update_message-AllWellFormed :
      {m : Message} {f : Message → Message} (w : World)
      → Written r env m f
      → m.attempt_count < r.settings.max_attempts
      → AllWellFormed r.settings w
      → AllWellFormed r.settings (update_message env m f w).1
  unfolding update_message
  update_message-AllWellFormed {m} {f} w written left h = elim (Option-cases env.finish_error) [
    | inr (x, e) ↦ rw (e, update_message) h
    | inl e ↦
        rw (e, update_message)
          (All-update_where (IsWellFormed r.settings) (λ row. row.id == m.id) f
            (λ a _ _. Written-IsWellFormed a written left) w.outbox h)
  ]

  deliver-AllWellFormed :
      (m : Message) (w : World)
      → m.attempt_count < r.settings.max_attempts
      → AllWellFormed r.settings w
      → AllWellFormed r.settings (deliver r env m w).1
  deliver-AllWellFormed m w left h =
      let (f, written, same) = deliver-Writes r env m w in
      rw same (update_message-AllWellFormed w written left h)

  update_claim-AllWellFormed :
      (m : Message) (p : Message → Bool) (w : World)
      → ((a : Message) → p a ≡ true → IsLive a)
      → AllWellFormed r.settings w
      → AllWellFormed r.settings (update_claim r env m p w).1
  unfolding update_claim
  update_claim-AllWellFormed m p w live h = elim (Option-cases env.claim_error) [
    | inr (x, e) ↦ rw (e, update_claim) h
    | inl e ↦ elim (Bool-cases (rows_affected p w.outbox == 0)) [
      | inl lost ↦ rw (e, lost, update_claim) h
      | inr won ↦
          rw (e, won, update_claim)
            (All-update_where (IsWellFormed r.settings) p (set_claimed r env.now)
              (λ a known selected. set_claimed-IsWellFormed r env.now a known (live a selected))
              w.outbox h)
    ]
  ]

  claim_message_cases :
      (m : Message) (w : World)
      → (claim_message r env m w ≡ (not_claimed, w))
        ⊎ (claim_message r env m w ≡ update_claim r env m (pending_where m env.now) w)
        ⊎ (claim_message r env m w ≡ update_claim r env m (claimed_where m env.now) w)
  unfolding claim_message
  claim_message_cases m w = ground arith

  claim_message-AllWellFormed :
      (m : Message) (w : World)
      → AllWellFormed r.settings w
      → AllWellFormed r.settings (claim_message r env m w).1
  claim_message-AllWellFormed m w h = elim (claim_message_cases m w) [
    | inl e ↦ rw e h
    | inr (inl e) ↦ rw e (
        update_claim-AllWellFormed m (pending_where m env.now) w (λ a t. inl (status_of_test a t))
          h)
    | inr (inr e) ↦ rw e (
        update_claim-AllWellFormed m (claimed_where m env.now) w (λ a t. inr (status_of_test' a t))
          h)
  ]
    where
      status_of_test :
          (a : Message) → pending_where m env.now a ≡ true → a.status ≡ OutboxStatus.pending
      status_of_test a t = ground (arith, eq_of_text_eq a.status OutboxStatus.pending)

      status_of_test' :
          (a : Message) → claimed_where m env.now a ≡ true → a.status ≡ OutboxStatus.claimed
      status_of_test' a t = ground (arith, eq_of_text_eq a.status OutboxStatus.claimed)

  claim_message-attempts :
      (m c : Message) (w : World)
      → (claim_message r env m w).0 ≡ claimed_as c
      → c.attempt_count ≡ m.attempt_count
  unfolding claim_message update_claim
  claim_message-attempts m c w h = ground arith

  deliver_claim-AllWellFormed :
      (c : Claim) (w : World)
      → ((a : Message) → c ≡ claimed_as a → a.attempt_count < r.settings.max_attempts)
      → AllWellFormed r.settings w
      → AllWellFormed r.settings (deliver_claim r env (c, w)).1
  unfolding deliver_claim
  deliver_claim-AllWellFormed (claim_failed e) w left h = h
  deliver_claim-AllWellFormed not_claimed w left h = h
  deliver_claim-AllWellFormed (claimed_as a) w left h = deliver-AllWellFormed a w (left a refl) h

  dispatch_loaded-AllWellFormed :
      (m : Message) (w : World)
      → IsWellFormed r.settings m
      → AllWellFormed r.settings w
      → AllWellFormed r.settings (dispatch_loaded r env m w).1
  unfolding dispatch_loaded
  dispatch_loaded-AllWellFormed m w known h =
      elim (Bool-cases (is_dispatchable_message m env.now)) [
        | inr idle ↦ rw (idle, dispatch_loaded) h
        | inl ready ↦
            let (c, w') = claim_message r env m w in
            rw (ready, dispatch_loaded)
              (deliver_claim-AllWellFormed c w'
                (λ a e. omega (
                  arith,
                  claim_message-attempts m a w e,
                  dispatchable-live r.settings m env.now known ready,
                ))
                (claim_message-AllWellFormed m w h))
      ]

-- If every row of the table is well formed, each is so after a dispatch, whichever branch it takes
-- and whichever statements the database refuses.
pub dispatch_message-IsWellFormed :
    (r : TaskOutboxRelay) (env : Env) (i : ℕ) (w : World)
    → AllWellFormed r.settings w
    → AllWellFormed r.settings (dispatch_message r env i w).1
unfolding dispatch_message
dispatch_message-IsWellFormed r env i w h = elim (Bool-cases (i == 0)) [
  | inl zero_id ↦ rw (zero_id, dispatch_message) h
  | inr given ↦ elim (Bool-cases r.has_dispatcher) [
    | inr without ↦ rw (given, without, dispatch_message) h
    | inl has ↦ elim (Option-cases env.load_error) [
      | inr (x, refused) ↦ rw (given, has, refused, dispatch_message) h
      | inl loaded ↦ elim (Option-cases (find_row i w.outbox)) [
        | inl missing ↦ rw (given, has, loaded, missing, dispatch_message) h
        | inr (m, found) ↦
            rw (given, has, loaded, found, dispatch_message)
              (dispatch_loaded-AllWellFormed r env m w
                (All-first_where (IsWellFormed r.settings) (λ row. row.id == i) w.outbox h found) h)
      ]
    ]
  ]
]
