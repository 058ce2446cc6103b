-- ===== src/Outbox/System.antt =====
-- outbox/relay.go run by several processes over one table, their statements interleaved in any order.
use article_sentinel.Base.{
  ℕ, ◌≤◌, Bool, true, false, ◌≡◌, Option, none, some, List, [], ◌∷◌, ◌==◌, if◌then◌else◌,
}
use article_sentinel.Text.{text_eq, trim_space}
use article_sentinel.Domain.{message_type_run_task}
use article_sentinel.Outbox.{Message, TaskOutboxRelay, Env, World, decoded, malformed, datetime}
use article_sentinel.Outbox.Codec.{is_lapsed}
use article_sentinel.Outbox.Statements.{claimed_as, claim_message}
use article_sentinel.Outbox.Relay.{deliver}
use article_sentinel.Outbox.Keyed.{IsKeyed}

-- Where a relay stands in `DispatchMessage`: it has no claim, or dispatches the message it holds,
-- having read the clock, once, at the given time.
pub data Pc : Type 0 where
  idle : Pc
  holding : ℕ → Message → Pc

-- The relays are numbered; `handed` are the ids of the messages whose payload the dispatcher has taken.
pub record System : Type 0 where
  pub world : World
  pub now : ℕ
  pub pc : ℕ → Pc
  pub handed : List ℕ

abbrev pub update : (ℕ → Pc) → ℕ → Pc → ℕ → Pc
update pc i p j = if i == j then p else pc j

-- The dispatcher takes the payload of `m`.
unfoldable pub is_accepted : Env → Message → Bool
is_accepted env m = elim (env.decode m.payload) [
  | malformed text ↦ false
  | decoded p ↦
      if text_eq (trim_space m.message_type) message_type_run_task
      then elim (env.dispatch p) [ none ↦ true | some f ↦ false ]
      else false
]

-- `m` is what a relay has read, at whatever earlier time. A relay may also end without a last update.
pub data Step (relays : ℕ → TaskOutboxRelay) (s : System) : System → Type 0 where
  ticks : (t : ℕ) → s.now ≤ t → Step relays s (record s { now = t })
  claims :
      (i : ℕ) (env : Env) (m c : Message)
      → s.pc i ≡ idle
      → env.now ≤ s.now
      → (claim_message (relays i) env m s.world).0 ≡ claimed_as c
      → Step relays s (record s {
        world = (claim_message (relays i) env m s.world).1;
        pc = update s.pc i (holding env.now c);
      })
  ends :
      (i : ℕ) (env : Env) (c : Message)
      → s.pc i ≡ holding env.now c
      → Step relays s (record s {
        world = (deliver (relays i) env c s.world).1;
        pc = update s.pc i idle;
        handed = if is_accepted env c then c.id ∷ s.handed else s.handed;
      })
  crashes : (i : ℕ) → Step relays s (record s { pc = update s.pc i idle })

-- No relay has started yet.
pub record IsInitial (s : System) : Type 0 where
  pub keyed : IsKeyed s.world.outbox
  pub none_holds : (i : ℕ) → s.pc i ≡ idle
  pub none_handed : s.handed ≡ []
  pub none_sent : s.world.sent ≡ []

pub data Reach (relays : ℕ → TaskOutboxRelay) (s : System) : System → Type 0 where
  here : Reach relays s s
  next : {t u : System} → Reach relays s t → Step relays t u → Reach relays s u

-- The end of the lease of the claimed message `c`, as the table has it.
abbrev pub stored_lease : Message → Option ℕ
stored_lease c = elim c.claim_until [ none ↦ none | some t ↦ some (datetime t) ]

-- The lease of the claimed message `c`, by the table, runs.
abbrev pub IsRunning : ℕ → Message → Type 0
IsRunning now c = is_lapsed now (stored_lease c) ≡ false

-- A dispatch ends while the lease of its claim runs, and the database takes its last update.
abbrev pub InTime : {relays : ℕ → TaskOutboxRelay} {s t : System} → Step relays s t → Type 0
InTime (ticks t h) = Unit
InTime (claims i env m c p time won) = Unit
InTime {relays} {s} (ends i env c p) = (env.finish_error ≡ none) × (IsRunning s.now c)
InTime (crashes i) = Unit

-- Every dispatch on the way does.
abbrev pub IsTimely : {relays : ℕ → TaskOutboxRelay} {s t : System} → Reach relays s t → Type 0
IsTimely here = Unit
IsTimely (next r step) = IsTimely r × InTime step
