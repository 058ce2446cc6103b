-- ===== src/Outbox/Frame.antt =====
-- A dispatch touches the one row that it names.
use article_sentinel.Base.{
  ℕ, Bool, true, ◌≡◌, refl, ◌≢◌, ◌∙◌, arith, List, [], ◌∷◌, ◌==◌, ==_iff, Bool-cases, Option-cases,
  update_where, first_where-holds, inl, inr,
}
use article_sentinel.Outbox.{Message, TaskOutboxRelay, Env, World}
use article_sentinel.Outbox.Codec.{is_dispatchable_message}
use article_sentinel.Outbox.Statements.{
  Claim, claim_failed, not_claimed, claimed_as, pending_where, claimed_where, update_claim,
  set_claimed, claim_message, update_message,
}
use article_sentinel.Outbox.Relay.{deliver, deliver_claim, dispatch_loaded, dispatch_message}
use article_sentinel.Outbox.Written.{Written-id, deliver-Writes}
use article_sentinel.Outbox.Row.{find_row}

find_row-update_ne :
    (i j : ℕ) (p : Message → Bool) (f : Message → Message)
    → ((a : Message) → p a ≡ true → a.id ≡ i)
    → ((a : Message) → (f a).id ≡ a.id)
    → j ≢ i
    → (rows : List Message) → find_row j (update_where p f rows) ≡ find_row j rows
find_row-update_ne i j p f only keep ne [] = refl
find_row-update_ne i j p f only keep ne (a ∷ rows) =
    ground (arith, only a, keep a, find_row-update_ne i j p f only keep ne rows)

module _ (r : TaskOutboxRelay) (env : Env) (j : ℕ) where
  update_message-others :
      (m : Message) (f : Message → Message) (w : World)
      → ((a : Message) → (f a).id ≡ a.id)
      → j ≢ m.id
      → find_row j (update_message env m f w).1.outbox ≡ find_row j w.outbox
  unfolding update_message
  update_message-others m f w keep ne = ground (
    arith,
    find_row-update_ne m.id j (λ row. row.id == m.id) f (λ a h. (==_iff a.id m.id).0 h) keep ne
        w.outbox,
  )

  update_claim-others :
      (m : Message) (p : Message → Bool) (w : World)
      → ((a : Message) → p a ≡ true → a.id ≡ m.id)
      → j ≢ m.id
      → find_row j (update_claim r env m p w).1.outbox ≡ find_row j w.outbox
  unfolding update_claim
  update_claim-others m p w key ne =
      ground
        (arith, find_row-update_ne m.id j p (set_claimed r env.now) key (λ a. refl) ne w.outbox)

  pub claim_message-others :
      (m : Message) (w : World)
      → j ≢ m.id
      → find_row j (claim_message r env m w).1.outbox ≡ find_row j w.outbox
  unfolding claim_message
  claim_message-others m w ne = ground (
    arith,
    update_claim-others m (pending_where m env.now) w (λ a h. ground arith) ne,
    update_claim-others m (claimed_where m env.now) w (λ a h. ground arith) ne,
  )

  pub deliver-others :
      (m : Message) (w : World)
      → j ≢ m.id
      → find_row j (deliver r env m w).1.outbox ≡ find_row j w.outbox
  deliver-others m w ne =
      let (f, written, same) = deliver-Writes r env m w in
      rw same (update_message-others m f w (Written-id written) ne)

  pub claim_message-id :
      (m c : Message) (w : World) → (claim_message r env m w).0 ≡ claimed_as c → c.id ≡ m.id
  unfolding claim_message update_claim
  claim_message-id m c w h = ground arith

  deliver_claim-others :
      (m : Message) (w : World) (c : Claim) (w' : World)
      → find_row j w'.outbox ≡ find_row j w.outbox
      → ((a : Message) → c ≡ claimed_as a → a.id ≡ m.id)
      → j ≢ m.id
      → find_row j (deliver_claim r env (c, w')).1.outbox ≡ find_row j w.outbox
  unfolding deliver_claim
  deliver_claim-others m w (claim_failed e) w' same key ne = same
  deliver_claim-others m w not_claimed w' same key ne = same
  deliver_claim-others m w (claimed_as a) w' same key ne =
      deliver-others a w' (λ e. ne (e ∙ key a refl)) ∙ same

  dispatch_loaded-others :
      (m : Message) (w : World)
      → j ≢ m.id
      → find_row j (dispatch_loaded r env m w).1.outbox ≡ find_row j w.outbox
  unfolding dispatch_loaded
  dispatch_loaded-others m w ne = elim (Bool-cases (is_dispatchable_message m env.now)) [
    | inr idle ↦ ground arith
    | inl ready ↦
        let (c, w') = claim_message r env m w in
        rw (ready, dispatch_loaded)
          (deliver_claim-others m w c w' (claim_message-others m w ne) (λ a. claim_message-id m a w)
            ne)
  ]

-- A dispatch leaves every row but the one that it names as it was.
pub dispatch_message-others :
    (r : TaskOutboxRelay) (env : Env) (i j : ℕ) (w : World)
    → j ≢ i
    → find_row j (dispatch_message r env i w).1.outbox ≡ find_row j w.outbox
unfolding dispatch_message
dispatch_message-others r env i j w ne = elim (Option-cases (find_row i w.outbox)) [
  | inl missing ↦ ground arith
  | inr (m, found) ↦
      let key : m.id ≡ i =
        (==_iff m.id i).0 (first_where-holds (λ row. row.id == i) w.outbox found) in
      ground (arith, dispatch_loaded-others r env j m w (λ e. ne (e ∙ key)))
]
