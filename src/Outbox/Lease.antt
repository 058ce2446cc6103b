-- ===== src/Outbox/Lease.antt =====
-- A claim leases its row, and a leased row refuses other claims; the updates that end a dispatch
-- are not tied to the lease.
use article_sentinel.Base.{
  ℕ, ◌+◌, ◌≤◌, Bool, true, ◌≡◌, refl, ◌≢◌, ◌⊎◌, arith, some, ◌==◌, Bool-cases, Option-cases, inl,
  inr, rows_affected,
}
use article_sentinel.Text.Laws.{eq_of_text_eq}
use article_sentinel.Domain.OutboxStatus
use article_sentinel.Outbox.{Message, TaskOutboxRelay, Env, World, datetime}
use article_sentinel.Outbox.Statements.{
  not_claimed, claimed_as, pending_where, claimed_where, update_claim, set_claimed, claim_message,
}
use article_sentinel.Outbox.Row.{find_row}
use article_sentinel.Outbox.Refine.{find_row-update}
use article_sentinel.Outbox.Status.{status_case-pending, status_case-claimed}
use article_sentinel.Outbox.Keyed.{
  IsKeyed, update_where-IsKeyed, rows_affected_missing, rows_affected_keyed,
}

-- The row with the key `i` is under a lease up to `until`.
abbrev pub IsLeased : ℕ → ℕ → World → Type 0
IsLeased i until w =
    (a : Message) × (find_row i w.outbox ≡ some a)
    × (a.status ≡ OutboxStatus.claimed)
    × (a.claim_until ≡ some until)

-- A claim that goes through leases the row, and keeps the key.
update_claim-IsLeased :
    (r : TaskOutboxRelay) (env : Env) (m c : Message) (p : Message → Bool) (w : World)
    → ((a : Message) → p a ≡ true → a.id ≡ m.id)
    → IsKeyed w.outbox
    → (update_claim r env m p w).0 ≡ claimed_as c
    → IsLeased m.id (datetime (env.now + r.settings.lease_duration)) (update_claim r env m p w).1
      × IsKeyed (update_claim r env m p w).1.outbox
unfolding update_claim
update_claim-IsLeased r env m c p w only keyed h = elim (Option-cases env.claim_error) [
  | inr (x, refused) ↦ ground arith
  | inl open_db ↦ elim (Option-cases (find_row m.id w.outbox)) [
    | inl missing ↦ ground (arith, rows_affected_missing m.id p only w.outbox missing)
    | inr (a, found) ↦ elim (Bool-cases (p a)) [
      | inr off ↦ ground (arith, rows_affected_keyed m.id p only w.outbox {a = a} keyed found off)
      | inl selected ↦ elim (Bool-cases (rows_affected p w.outbox == 0)) [
        | inl lost ↦ ground arith
        | inr won ↦
            rw (open_db, won, update_claim)
              (
                (
                  set_claimed r env.now a,
                  ground (
                    arith,
                    find_row-update m.id p (set_claimed r env.now) (λ b. refl) w.outbox found,
                  ),
                  refl,
                  refl,
                ),
                update_where-IsKeyed p (set_claimed r env.now) (λ b. refl) w.outbox keyed,
              )
      ]
    ]
  ]
]

module _ (r : TaskOutboxRelay) (env : Env) (m : Message) (w : World) where
  pub claim_message_cases :
      (claim_message r env m w ≡ (not_claimed, w))
      ⊎ (claim_message r env m w ≡ update_claim r env m (pending_where m env.now) w)
      ⊎ (claim_message r env m w ≡ update_claim r env m (claimed_where m env.now) w)
  unfolding claim_message
  claim_message_cases = ground arith

  pub claim_message-IsLeased :
      (c : Message)
      → IsKeyed w.outbox
      → (claim_message r env m w).0 ≡ claimed_as c
      → IsLeased m.id (datetime (env.now + r.settings.lease_duration)) (claim_message r env m w).1
        × IsKeyed (claim_message r env m w).1.outbox
  claim_message-IsLeased c keyed h = elim claim_message_cases [
    | inl e ↦ let h' : not_claimed ≡ claimed_as c = rw e at h in cc
    | inr (inl e) ↦ rw e (
        update_claim-IsLeased r env m c (pending_where m env.now) w (λ a t. ground arith) keyed
          (rw e at h))
    | inr (inr e) ↦ rw e (
        update_claim-IsLeased r env m c (claimed_where m env.now) w (λ a t. ground arith) keyed
          (rw e at h))
  ]

  -- An update that selects no row claims nothing and writes nothing.
  pub update_claim_lost :
      (p : Message → Bool)
      → rows_affected p w.outbox ≡ 0
      → ((update_claim r env m p w).1 ≡ w)
        × ((c : Message) → (update_claim r env m p w).0 ≢ claimed_as c)
  unfolding update_claim
  update_claim_lost p none_hit = (ground arith, λ c e. ground arith)

  -- Under a lease that has not lapsed every claim of the row is lost.
  pub leased_refuses :
      (until : ℕ)
      → IsKeyed w.outbox
      → IsLeased m.id until w
      → env.now ≤ until
      → ((claim_message r env m w).1 ≡ w)
        × ((c : Message) → (claim_message r env m w).0 ≢ claimed_as c)
  leased_refuses until keyed (a, found, status, lease) early = elim claim_message_cases [
    | inl e ↦ rw e (refl, λ c h. cc)
    | inr (inl e) ↦ rw e (
        update_claim_lost (pending_where m env.now) (
          rows_affected_keyed m.id (pending_where m env.now) (λ b t. ground arith) w.outbox {a = a}
            keyed found
            (ground (
              arith,
              eq_of_text_eq a.status OutboxStatus.pending,
              status_case-pending,
              status_case-claimed,
            ))))
    | inr (inr e) ↦ rw e (
        update_claim_lost (claimed_where m env.now) (
          rows_affected_keyed m.id (claimed_where m env.now) (λ b t. ground arith) w.outbox {a = a}
            keyed found (ground arith)))
  ]
