-- ===== src/Outbox/Written.antt =====
-- The updates with which a dispatch of a claimed message can end.
use article_sentinel.Base.{
  false, ◌≡◌, refl, arith, Option, none, some, List, ◌∷◌, Bool-cases, Option-cases, inl, inr,
}
use article_sentinel.Text.{Text, text_eq, codes, trim_space}
use article_sentinel.Domain.{message_type_run_task}
use article_sentinel.Domain.OutboxError
use article_sentinel.Outbox.{
  Message, TaskOutboxRelay, RelayError, payload_decode, unsupported_message_type, dispatch_failed,
  DispatchFailure, Env, World, Decoded, decoded, malformed,
}
use article_sentinel.Outbox.Statements.{
  update_message, set_dispatched, set_retry, set_dead_letter, classify_dispatch_error,
  should_dead_letter,
}
use article_sentinel.Outbox.Relay.{after_update, on_dispatch_failure, deliver}

-- A message goes back to the queue only while its attempts are not used up.
pub data Written (r : TaskOutboxRelay) (env : Env) (m : Message)
    : (Message → Message) → Type 0 where
  as_dispatched : Written r env m (set_dispatched r.settings env.now m)
  as_dead_letter :
      (code text : Text) → Written r env m (set_dead_letter r.settings env.now m code text)
  as_retry :
      (code text : Text)
      → should_dead_letter r.settings m code ≡ false
      → Written r env m (set_retry env.now m code text)

pub Written-id :
    {r : TaskOutboxRelay} {env : Env} {m : Message} {f : Message → Message}
    → Written r env m f
    → (a : Message) → (f a).id ≡ a.id
Written-id as_dispatched a = refl
Written-id (as_dead_letter code text) a = refl
Written-id (as_retry code text h) a = refl

module _ (r : TaskOutboxRelay) (env : Env) (m : Message) (w : World) where
  -- The table is left as one such update leaves it.
  abbrev pub Writes : Option RelayError × World → Type 0
  Writes result =
      (f : Message → Message) × Written r env m f
      × (result.1.outbox ≡ (update_message env m f w).1.outbox)

  after_update_world :
      (e : RelayError) (result : Option RelayError × World) → (after_update e result).1 ≡ result.1
  after_update_world e (some x, w') = refl
  after_update_world e (none, w') = refl

  Writes-then :
      (e : RelayError) (f : Message → Message)
      → Written r env m f
      → Writes (after_update e (update_message env m f w))
  Writes-then e f h = (f, h, cc (after_update_world e (update_message env m f w)))

  update_unsent :
      (f : Message → Message) (sent : List _)
      → (update_message env m f (record w { sent = sent })).1.outbox
        ≡ (update_message env m f w).1.outbox
  unfolding update_message
  update_unsent f sent = ground arith

  on_dispatch_failure-Writes : (f : DispatchFailure) → Writes (on_dispatch_failure r env m f w)
  unfolding on_dispatch_failure
  on_dispatch_failure-Writes f =
      elim (Bool-cases (should_dead_letter r.settings m (classify_dispatch_error f))) [
        | inl dead ↦
            rw (dead, on_dispatch_failure)
              (Writes-then (dispatch_failed f) _
                (as_dead_letter (classify_dispatch_error f) f.text))
        | inr live ↦
            rw (live, on_dispatch_failure)
              (Writes-then (dispatch_failed f) _ (as_retry (classify_dispatch_error f) f.text live))
      ]

  pub deliver-Writes : Writes (deliver r env m w)
  unfolding deliver
  deliver-Writes = by_decoded (env.decode m.payload) refl
    where
      by_decoded : (d : Decoded) → env.decode m.payload ≡ d → Writes (deliver r env m w)
      by_decoded (malformed text) e =
          rw (e, deliver)
            (Writes-then (payload_decode text) _ (as_dead_letter OutboxError.payload_decode text))
      by_decoded (decoded p) e =
          elim (Bool-cases (text_eq (trim_space m.message_type) message_type_run_task)) [
            | inl run ↦ elim (Option-cases (env.dispatch p)) [
              | inl ok ↦ rw (e, run, ok, deliver) (_, as_dispatched, update_unsent _ (p ∷ w.sent))
              | inr (f, refused) ↦ rw (e, run, refused, deliver) (on_dispatch_failure-Writes f)
            ]
            | inr other ↦
                rw (e, other, deliver)
                  (Writes-then unsupported_message_type _ (
                    as_dead_letter OutboxError.unsupported_message
                      (codes "unsupported outbox message type")))
          ]
