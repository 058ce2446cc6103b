-- ===== src/Outbox/Consistent.antt =====
-- The invariant of relays that work over one table, kept by a claim and by a crash.
use article_sentinel.Base.{
  ℕ, ◌+◌, ◌≤◌, true, false, ◌≡◌, ◌≢◌, ◌⊎◌, sym, ap, ◌∙◌, inl, inr, arith, Option, none, some, ◌==◌,
  ==_iff, length, contains_id, IsUnique, Bool-cases, Option-cases,
}
use article_sentinel.Text.Laws.{eq_of_text_eq}
use article_sentinel.Domain.OutboxStatus
use article_sentinel.Outbox.{Message, TaskOutboxRelay, Env, World}
use article_sentinel.Outbox.Codec.{is_lapsed}
use article_sentinel.Outbox.Statements.{
  claimed_as, not_claimed, claim_message, update_claim, pending_where, claimed_where,
}
use article_sentinel.Outbox.Row.{find_row}
use article_sentinel.Outbox.Status.{
  status_case-pending, status_case-claimed, status_case-dispatched,
}
use article_sentinel.Outbox.Keyed.{IsKeyed, rows_affected_keyed}
use article_sentinel.Outbox.Frame.{claim_message-others, claim_message-id}
use article_sentinel.Outbox.Lease.{
  IsLeased, claim_message-IsLeased, claim_message_cases, leased_refuses, update_claim_lost,
}
use article_sentinel.Outbox.System.{Pc, idle, holding, System, update, stored_lease, IsRunning}

-- The table says of the message `c` what the relay that holds it believes.
abbrev pub IsOwned : Message → World → Type 0
IsOwned c w =
    (a : Message) × (find_row c.id w.outbox ≡ some a)
    × (a.status ≡ OutboxStatus.claimed)
    × (a.claim_until ≡ stored_lease c)

abbrev pub IsDispatched : ℕ → World → Type 0
IsDispatched k w =
    (a : Message) × (find_row k w.outbox ≡ some a) × (a.status ≡ OutboxStatus.dispatched)

pub record IsConsistent (s : System) : Type 0 where
  pub keyed : IsKeyed s.world.outbox
  pub owned :
      (i at : ℕ) (c : Message) → s.pc i ≡ holding at c → IsRunning s.now c → IsOwned c s.world
  pub apart :
      (i j at at' : ℕ) (c d : Message)
      → s.pc i ≡ holding at c
      → s.pc j ≡ holding at' d
      → IsRunning s.now c
      → IsRunning s.now d
      → c.id ≡ d.id
      → i ≡ j
  pub done : (k : ℕ) → contains_id k s.handed ≡ true → IsDispatched k s.world
  pub once : IsUnique s.handed
  pub counted : length s.world.sent ≡ length s.handed

is_lapsed_later :
    (now t : ℕ) (at : Option ℕ) → now ≤ t → is_lapsed t at ≡ false → is_lapsed now at ≡ false
is_lapsed_later now t none h l = l
is_lapsed_later now t (some at) h l = ground arith

pub ticks-IsConsistent :
    (s : System) (t : ℕ) → s.now ≤ t → IsConsistent s → IsConsistent (record s { now = t })
ticks-IsConsistent s t h inv = record {
  keyed = inv.keyed;
  owned = λ i at c p l. inv.owned i at c p (is_lapsed_later s.now t (stored_lease c) h l);
  apart = λ i j at at' c d p q l l' e.
      inv.apart i j at at' c d p q (is_lapsed_later s.now t (stored_lease c) h l)
        (is_lapsed_later s.now t (stored_lease d) h l') e;
  done = inv.done;
  once = inv.once;
  counted = inv.counted;
}

-- A relay that has become idle holds nothing.
pub held_before :
    (pc : ℕ → Pc) (i j at : ℕ) (c : Message)
    → update pc i idle j ≡ holding at c
    → pc j ≡ holding at c
held_before pc i j at c h = elim (Bool-cases (i == j)) [
  | inl e ↦ absurd (ground arith)
  | inr e ↦ ground arith
]

pub crashes-IsConsistent :
    (s : System) (i : ℕ) → IsConsistent s → IsConsistent (record s { pc = update s.pc i idle })
crashes-IsConsistent s i inv = record {
  keyed = inv.keyed;
  owned = λ j at c p l. inv.owned j at c (held_before s.pc i j at c p) l;
  apart = λ j k at at' c d p q l l' e.
      inv.apart j k at at' c d (held_before s.pc i j at c p) (held_before s.pc i k at' d q) l l' e;
  done = inv.done;
  once = inv.once;
  counted = inv.counted;
}

module _ (r : TaskOutboxRelay) (env : Env) (m : Message) (w : World) where
  claim_message-until :
      (c : Message)
      → (claim_message r env m w).0 ≡ claimed_as c
      → c.claim_until ≡ some (env.now + r.settings.lease_duration)
  unfolding claim_message update_claim
  claim_message-until c h = ground arith

  claim_message-sent : (claim_message r env m w).1.sent ≡ w.sent
  unfolding claim_message update_claim
  claim_message-sent = ground arith

  -- A message that has been dispatched is not claimed again.
  dispatched_refuses :
      IsKeyed w.outbox
      → IsDispatched m.id w
      → (c : Message) → (claim_message r env m w).0 ≢ claimed_as c
  dispatched_refuses keyed (a, found, status) c h = elim (claim_message_cases r env m w) [
    | inl e ↦ let h' : not_claimed ≡ claimed_as c = rw e at h in cc
    | inr (inl e) ↦
        (update_claim_lost r env m w (pending_where m env.now) (
            rows_affected_keyed m.id (pending_where m env.now) (λ b t. ground arith) w.outbox
              {a = a} keyed found
              (ground (
                arith,
                eq_of_text_eq a.status OutboxStatus.pending,
                status_case-pending,
                status_case-dispatched,
              )))).1
          c (rw e at h)
    | inr (inr e) ↦
        (update_claim_lost r env m w (claimed_where m env.now) (
            rows_affected_keyed m.id (claimed_where m env.now) (λ b t. ground arith) w.outbox
              {a = a} keyed found
              (ground (
                arith,
                eq_of_text_eq a.status OutboxStatus.claimed,
                status_case-claimed,
                status_case-dispatched,
              )))).1
          c (rw e at h)
  ]

-- Of a relay and its message, after the relay `i` has begun to hold `c`.
held_now :
    (pc : ℕ → Pc) (i j at at' : ℕ) (c d : Message)
    → update pc i (holding at c) j ≡ holding at' d
    → ((i ≡ j) × (d ≡ c)) ⊎ ((i ≢ j) × (pc j ≡ holding at' d))
held_now pc i j at at' c d h = elim (Bool-cases (i == j)) [
  | inl e ↦ let e' = (==_iff i j).0 e in inl (e', ground arith)
  | inr e ↦ inr (let n = ==_iff i j in ground arith, ground arith)
]

-- While the lease of a message runs, no claim of its row goes through.
pub owned_refuses :
    (r : TaskOutboxRelay) (env : Env) (m d : Message) (s : System)
    → IsConsistent s
    → m.id ≡ d.id
    → env.now ≤ s.now
    → IsOwned d s.world
    → IsRunning s.now d
    → ((claim_message r env m s.world).1 ≡ s.world)
      × ((c : Message) → (claim_message r env m s.world).0 ≢ claimed_as c)
owned_refuses r env m d s inv same time (a, found, status, lease) running =
    elim (Option-cases (stored_lease d)) [
      | inl none_left ↦ absurd (ground arith)
      | inr (t, until) ↦
          let early : env.now ≤ t = ground arith in
          let leased : IsLeased m.id t s.world = (a, rw same found, status, lease ∙ until) in
          leased_refuses r env m s.world t inv.keyed leased early
    ]

module _ (relays : ℕ → TaskOutboxRelay) (s : System) (i : ℕ) (env : Env) (m c : Message)
    (inv : IsConsistent s) (time : env.now ≤ s.now)
    (won : (claim_message (relays i) env m s.world).0 ≡ claimed_as c) where
  abbrev after_claim : World
  after_claim = (claim_message (relays i) env m s.world).1

  -- No relay holds the message under a lease that runs.
  claimed_apart : (j at : ℕ) (d : Message) → s.pc j ≡ holding at d → IsRunning s.now d → d.id ≢ c.id
  claimed_apart j at d p l e =
      let same : d.id ≡ m.id = e ∙ claim_message-id (relays i) env 0 m c s.world won in
      (owned_refuses (relays i) env m d s inv (sym same) time (inv.owned j at d p l) l).1 c won

  claimed_undone : (k : ℕ) → contains_id k s.handed ≡ true → k ≢ c.id
  claimed_undone k h e =
      let same : k ≡ m.id = e ∙ claim_message-id (relays i) env 0 m c s.world won in
      dispatched_refuses (relays i) env m s.world inv.keyed (rw (← same) (inv.done k h)) c won

  pub claims-IsConsistent :
      IsConsistent (record s { world = after_claim; pc = update s.pc i (holding env.now c) })
  claims-IsConsistent = record {
    keyed = (claim_message-IsLeased (relays i) env m s.world c inv.keyed won).1;
    owned = λ j at d p l. elim (held_now s.pc i j env.now at c d p) [
      | inl (e, same) ↦
          let (a, found, status, lease) =
            (claim_message-IsLeased (relays i) env m s.world c inv.keyed won).0 in
          let id : c.id ≡ m.id = claim_message-id (relays i) env 0 m c s.world won in
          let until = claim_message-until (relays i) env m s.world c won in
          (a, rw (same, id) found, status, rw (same, until) lease)
      | inr (ne, before) ↦
          let (a, found, status, lease) = inv.owned j at d before l in
          let other : d.id ≢ m.id = λ e.
            claimed_apart j at d before l
              (e ∙ sym (claim_message-id (relays i) env 0 m c s.world won)) in
          (a, claim_message-others (relays i) env d.id m s.world other ∙ found, status, lease)
    ];
    apart = λ j k at at' d d' p q l l' e. elim (held_now s.pc i j env.now at c d p) [
      | inl (e1, same) ↦ elim (held_now s.pc i k env.now at' c d' q) [
        | inl (e2, same') ↦ sym e1 ∙ e2
        | inr (ne, before) ↦ absurd (claimed_apart k at' d' before l' (sym e ∙ ap (λ x. x.id) same))
      ]
      | inr (ne, before) ↦ elim (held_now s.pc i k env.now at' c d' q) [
        | inl (e2, same') ↦ absurd (claimed_apart j at d before l (e ∙ ap (λ x. x.id) same'))
        | inr (ne', before') ↦ inv.apart j k at at' d d' before before' l l' e
      ]
    ];
    done = λ k h.
        let (a, found, status) = inv.done k h in
        let other : k ≢ m.id =
          λ e. claimed_undone k h (e ∙ sym (claim_message-id (relays i) env 0 m c s.world won)) in
        (a, claim_message-others (relays i) env k m s.world other ∙ found, status);
    once = inv.once;
    counted = ap length (claim_message-sent (relays i) env m s.world) ∙ inv.counted;
  }
