-- ===== src/Outbox/Relay.antt =====
-- outbox/relay.go: `DispatchMessage` and `TryDispatchMessage`.
use article_sentinel.Base.{
  ℕ, Bool, true, false, Option, none, some, ◌∷◌, ◌==◌, if◌then◌else◌, first_where,
}
use article_sentinel.Text.{text_eq, trim_space, codes}
use article_sentinel.Domain.{message_type_run_task}
use article_sentinel.Domain.OutboxError
use article_sentinel.Outbox.{
  Message, TaskOutboxRelay, decoded, malformed, DispatchFailure, RelayError, invalid_task_input,
  dispatcher_unavailable, record_not_found, unsupported_message_type, database, payload_decode,
  dispatch_failed, Env, World,
}
use article_sentinel.Outbox.Codec.{is_dispatchable_message}
use article_sentinel.Outbox.Statements.{
  Claim, claim_failed, not_claimed, claimed_as, claim_message, update_message, set_dispatched,
  set_retry, set_dead_letter, classify_dispatch_error, should_dead_letter,
}

-- `if updateErr != nil { return updateErr }; return err`
abbrev pub after_update : RelayError → Option RelayError × World → Option RelayError × World
after_update e (some update_error, w) = (some update_error, w)
after_update e (none, w) = (some e, w)

-- The dispatcher has refused the claimed message `m`.
unfoldable pub on_dispatch_failure :
    TaskOutboxRelay → Env → Message → DispatchFailure → World → Option RelayError × World
on_dispatch_failure r env m f w =
    let code = classify_dispatch_error f in
    after_update (dispatch_failed f) (
      update_message env m
        (if should_dead_letter r.settings m code
          then set_dead_letter r.settings env.now m code f.text
          else set_retry env.now m code f.text)
        w)

-- What follows a successful claim, which returned `m`.
unfoldable pub deliver : TaskOutboxRelay → Env → Message → World → Option RelayError × World
deliver r env m w = elim (env.decode m.payload) [
  | malformed text ↦ after_update (payload_decode text) (
      update_message env m (set_dead_letter r.settings env.now m OutboxError.payload_decode text) w)
  | decoded p ↦
      if text_eq (trim_space m.message_type) message_type_run_task
      then elim (env.dispatch p) [
        | some f ↦ on_dispatch_failure r env m f w
        | none ↦
            update_message env m (set_dispatched r.settings env.now m)
              (record w { sent = p ∷ w.sent })
      ]
      else after_update unsupported_message_type (
          update_message env m
            (set_dead_letter r.settings env.now m OutboxError.unsupported_message
              (codes "unsupported outbox message type"))
            w)
]

unfoldable pub deliver_claim : TaskOutboxRelay → Env → Claim × World → Option RelayError × World
deliver_claim r env (claim_failed e, w) = (some e, w)
deliver_claim r env (not_claimed, w) = (none, w)
deliver_claim r env (claimed_as m, w) = deliver r env m w

-- The message `m` has been read.
unfoldable pub dispatch_loaded : TaskOutboxRelay → Env → Message → World → Option RelayError × World
unfolding deliver_claim
dispatch_loaded r env m w =
    if is_dispatchable_message m env.now
    then deliver_claim r env (claim_message r env m w)
    else (none, w)

unfoldable pub dispatch_message : TaskOutboxRelay → Env → ℕ → World → Option RelayError × World
unfolding dispatch_loaded
dispatch_message r env outbox_id w =
    if outbox_id == 0
    then (some invalid_task_input, w)
    else if r.has_dispatcher
    then elim env.load_error [
      | some e ↦ (some (database e), w)
      | none ↦ elim (first_where (λ row. row.id == outbox_id) w.outbox) [
        | none ↦ (some record_not_found, w)
        | some m ↦ dispatch_loaded r env m w
      ]
    ]
    else (some dispatcher_unavailable, w)

unfoldable pub try_dispatch_message : TaskOutboxRelay → Env → ℕ → World → Bool × World
unfolding dispatch_message
try_dispatch_message r env outbox_id w =
    if r.has_dispatcher
    then (let (e, w') = dispatch_message r env outbox_id w in
        (elim e [ none ↦ true | some _ ↦ false ], w'))
    else (false, w)
