-- ===== src/Outbox/Refine.antt =====
-- The statements of outbox/relay.go carry out the decisions of `row_step`, and touch no other row.
use mathlib.Core.Path.{subst}
use article_sentinel.Base.{
  ℕ, ◌+◌, Bool, true, false, ◌≡◌, refl, sym, ◌≢◌, inl, inr, arith, Option, none, some, List, ◌∷◌,
  ◌==◌, ==_iff, if◌then◌else◌, Bool-cases, Option-cases, update_where, first_where-update_where,
  first_where-holds, rows_affected_pos,
}
use article_sentinel.Text.{Text, text_eq, codes, trim_space}
use article_sentinel.Domain.{message_type_run_task}
use article_sentinel.Domain.OutboxError
use article_sentinel.Text.Laws.{text_eq_refl}
use article_sentinel.Outbox.{
  Message, TaskOutboxRelay, RelayError, database, payload_decode, dispatch_failed,
  unsupported_message_type, Decoded, decoded, malformed, DispatchFailure, Payload, Env, World,
  datetime,
}
use article_sentinel.Outbox.Codec.{is_dispatchable_message}
use article_sentinel.Outbox.Statements.{
  Claim, claim_failed, claimed_as, pending_where, claimed_where, update_claim, set_claimed,
  claimed_message, claim_message, update_message, set_dispatched, set_dead_letter, set_retry,
  classify_dispatch_error, should_dead_letter,
}
use article_sentinel.Outbox.Relay.{
  after_update, deliver, deliver_claim, dispatch_loaded, dispatch_message, on_dispatch_failure,
}
use article_sentinel.Outbox.Row.{find_row, Outcome, accept, verdict, settle, row_step}
use article_sentinel.Outbox.Status.{
  IsKnown, status_case-pending, status_case-claimed, status_case-dispatched,
  status_case-dead_letter,
}

-- An update by key, seen from the row with that key and from the others.
pub find_row-update :
    (i : ℕ) (p : Message → Bool) (f : Message → Message)
    → ((a : Message) → (f a).id ≡ a.id)
    → (rows : List Message) {m : Message} → find_row i rows ≡ some m
    → find_row i (update_where p f rows) ≡ some (if p m then f m else m)
find_row-update i p f keep rows e =
    rw (first_where-update_where (λ row. row.id == i) p f (λ a. rw (keep a)) rows) (rw e)

module _ (env : Env) (m : Message) (f : Message → Message)
    (keep : (a : Message) → (f a).id ≡ a.id) where
  -- The last update of a dispatch, on the row that the claim wrote.
  update_message_found :
      (w : World)
      → find_row m.id w.outbox ≡ some m
      → (find_row m.id (update_message env m f w).1.outbox
          ≡ some (elim env.finish_error [ none ↦ f m | some _ ↦ m ]))
        × ((update_message env m f w).0
            ≡ elim env.finish_error [ none ↦ none | some e ↦ some (database e) ])
        × ((update_message env m f w).1.sent ≡ w.sent)
  unfolding update_message
  update_message_found w found =
      ground (arith, find_row-update m.id (λ row. row.id == m.id) f keep w.outbox found)

module _ (r : TaskOutboxRelay) (env : Env) (m : Message) (w : World) where
  -- What `row_step` says of the row, the error and the dispatcher is so after `result`.
  abbrev CarriesOut : Outcome → Option RelayError × World → Type 0
  CarriesOut o result =
      (find_row m.id result.1.outbox ≡ some o.row)
      × (result.0 ≡ o.error)
      × (result.1.sent ≡ accept o.accepted w.sent)

module _ (r : TaskOutboxRelay) (env : Env) (m : Message) (w : World)
    (claimed_at claim_until : Option ℕ) where
  -- The row of `m`, whose lease the table has rounded.
  abbrev row : Message
  row = record m { claimed_at = claimed_at; claim_until = claim_until }

  abbrev RowCarriesOut : Outcome → Option RelayError × World → Type 0
  RowCarriesOut = CarriesOut r env m w

  module _ (f : Message → Message) (keep : (a : Message) → (f a).id ≡ a.id) where
    -- An update on the way to an error.
    refusal_found :
        (e : RelayError)
        → find_row m.id w.outbox ≡ some row
        → RowCarriesOut
            (settle env row (record { row = f row; error = some e; accepted = none }))
            (after_update e (update_message env m f w))
    unfolding update_message settle
    refusal_found e found = elim (Option-cases env.finish_error) [
      | inl none_e ↦ rw none_e (found_after, refl, refl)
      | inr (x, some_e) ↦ rw some_e (found, refl, refl)
    ]
      where
        found_after : find_row m.id (update_where (λ row. row.id == m.id) f w.outbox) ≡ some (f row)
        found_after =
            ground (arith, find_row-update m.id (λ row. row.id == m.id) f keep w.outbox found)

    -- The update after the dispatcher has accepted the payload.
    acceptance_found :
        (p : Payload)
        → find_row m.id w.outbox ≡ some row
        → RowCarriesOut
            (settle env row (record { row = f row; error = none; accepted = some p }))
            (update_message env m f (record w { sent = p ∷ w.sent }))
    unfolding update_message settle
    acceptance_found p found = elim (Option-cases env.finish_error) [
      | inl none_e ↦ rw none_e (found_after, refl, refl)
      | inr (x, some_e) ↦ rw some_e (found, refl, refl)
    ]
      where
        found_after : find_row m.id (update_where (λ row. row.id == m.id) f w.outbox) ≡ some (f row)
        found_after =
            ground (arith, find_row-update m.id (λ row. row.id == m.id) f keep w.outbox found)

  -- After a claim the verdict is carried out.
  deliver_found :
      find_row m.id w.outbox ≡ some row
      → RowCarriesOut (settle env row (verdict r env m)) (deliver r env m w)
  unfolding deliver on_dispatch_failure verdict
  deliver_found found = by_decoded (env.decode m.payload) refl
    where
      failed :
          (f : DispatchFailure) (code : Text) (e : RelayError) (b : Bool)
          → RowCarriesOut
              (settle env row (record {
                row =
                    if b
                    then set_dead_letter r.settings env.now m code f.text m
                    else set_retry env.now m code f.text m;
                error = some e;
                accepted = none;
              }))
              (after_update e (
                update_message env m
                  (if b
                    then set_dead_letter r.settings env.now m code f.text
                    else set_retry env.now m code f.text)
                  w))
      failed f code e true =
          refusal_found (set_dead_letter r.settings env.now m code f.text) (λ a. refl) e found
      failed f code e false = refusal_found (set_retry env.now m code f.text) (λ a. refl) e found

      by_decoded :
          (d : Decoded)
          → env.decode m.payload ≡ d
          → RowCarriesOut (settle env row (verdict r env m)) (deliver r env m w)
      by_decoded (malformed text) e =
          rw (e, deliver, verdict)
            (refusal_found (set_dead_letter r.settings env.now m OutboxError.payload_decode text)
              (λ a. refl) (payload_decode text) found)
      by_decoded (decoded p) e =
          elim (Bool-cases (text_eq (trim_space m.message_type) message_type_run_task)) [
            | inl run ↦ elim (Option-cases (env.dispatch p)) [
              | inl sent ↦
                  rw (e, run, sent, deliver, verdict)
                    (acceptance_found (set_dispatched r.settings env.now m) (λ a. refl) p found)
              | inr (f, refused) ↦
                  rw (e, run, refused, deliver, verdict, on_dispatch_failure)
                    (failed f (classify_dispatch_error f) (dispatch_failed f)
                      (should_dead_letter r.settings m (classify_dispatch_error f)))
            ]
            | inr other ↦
                rw (e, other, deliver, verdict)
                  (refusal_found
                    (set_dead_letter r.settings env.now m OutboxError.unsupported_message
                      (codes "unsupported outbox message type"))
                    (λ a. refl) unsupported_message_type found)
          ]

module _ (r : TaskOutboxRelay) (env : Env) (m : Message) (w : World) where
  abbrev ClaimsRow : Claim × World → Type 0
  ClaimsRow result =
      (result.0 ≡ claimed_as (claimed_message r env.now m))
      × (find_row m.id result.1.outbox ≡ some (set_claimed r env.now m))
      × (result.1.sent ≡ w.sent)

  update_claim_found :
      (p : Message → Bool)
      → find_row m.id w.outbox ≡ some m
      → p m ≡ true
      → env.claim_error ≡ none
      → ClaimsRow (update_claim r env m p w)
  unfolding update_claim
  update_claim_found p found holds no_error = ground (
    arith,
    rows_affected_pos (λ row. row.id == m.id) p w.outbox {a = m} found holds,
    find_row-update m.id p (set_claimed r env.now) (λ a. refl) w.outbox found,
  )

  -- A claim of the row that the table holds goes through.
  claim_found :
      find_row m.id w.outbox ≡ some m
      → is_dispatchable_message m env.now ≡ true
      → IsKnown m.status
      → env.claim_error ≡ none
      → ClaimsRow (claim_message r env m w)
  unfolding claim_message is_dispatchable_message
  claim_found found d (inl s) no_error = ground (
    arith,
    status_case-pending,
    text_eq_refl m.status,
    update_claim_found (pending_where m env.now) found,
  )
  claim_found found d (inr (inl s)) no_error = ground (
    arith,
    status_case-claimed,
    text_eq_refl m.status,
    update_claim_found (claimed_where m env.now) found,
  )
  claim_found found d (inr (inr (inl s))) no_error = ground (arith, status_case-dispatched)
  claim_found found d (inr (inr (inr s))) no_error = ground (arith, status_case-dead_letter)

  claim_refused :
      (x : Text)
      → is_dispatchable_message m env.now ≡ true
      → env.claim_error ≡ some x
      → claim_message r env m w ≡ (claim_failed (database x), w)
  unfolding claim_message is_dispatchable_message update_claim
  claim_refused x ready refused = ground arith

  -- The claim and the verdict, as `row_step` composes them.
  dispatch_loaded_found :
      find_row m.id w.outbox ≡ some m
      → IsKnown m.status
      → CarriesOut r env m w (row_step r env m) (dispatch_loaded r env m w)
  unfolding dispatch_loaded row_step deliver_claim
  dispatch_loaded_found found known = elim (Bool-cases (is_dispatchable_message m env.now)) [
    | inr idle ↦ rw (idle, dispatch_loaded, row_step) (found, refl, refl)
    | inl ready ↦ elim (Option-cases env.claim_error) [
      | inr (x, refused) ↦ ground (arith, claim_refused x ready refused)
      | inl no_error ↦
          let (claimed, found_after, unsent) = claim_found found ready known no_error in
          let c : Message = claimed_message r env.now m in
          let (row, error, sent) =
            deliver_found r env c (claim_message r env m w).1 (some (datetime env.now))
              (some (datetime (env.now + r.settings.lease_duration))) found_after in
          ground arith
    ]
  ]

-- With a dispatcher, an id other than 0 and a row of that id and a known status whose read is not
-- refused, a dispatch does to the row what `row_step` says, returns its error and hands over its
-- payload.
pub dispatch_message-row_step :
    (r : TaskOutboxRelay) (env : Env) (i : ℕ) (m : Message) (w : World)
    → i ≢ 0
    → r.has_dispatcher ≡ true
    → env.load_error ≡ none
    → find_row i w.outbox ≡ some m
    → IsKnown m.status
    → let (e, w') = dispatch_message r env i w in
      let o = row_step r env m in
      (find_row i w'.outbox ≡ some o.row) × (e ≡ o.error) × (w'.sent ≡ accept o.accepted w.sent)
unfolding dispatch_message
dispatch_message-row_step r env i m w nonzero can no_error found known =
    let same : i ≡ m.id =
      sym ((==_iff m.id i).0 (first_where-holds (λ row. row.id == i) w.outbox found)) in
    let (row, error, sent) =
      dispatch_loaded_found r env m w (subst (λ j. find_row j w.outbox ≡ some m) same found)
        known in
    ground (arith, same)
