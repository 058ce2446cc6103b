-- ===== src/Outbox/Once.antt =====
-- Relays that end in time hand each payload over once.
use article_sentinel.Base.{
  ℕ, suc, ◌≤◌, true, false, ◌≡◌, ◌≢◌, refl, sym, ◌∙◌, inl, inr, arith, none, some, List, ◌∷◌, ◌==◌,
  ==_iff, if◌then◌else◌, update_where, length, contains_id, IsUnique, ℕ_discrete, Bool-cases,
  Option-cases, first_where-holds,
}
use article_sentinel.Outbox.{Message, TaskOutboxRelay, Env, World}
use article_sentinel.Outbox.Statements.{update_message, set_dispatched, claimed_as, claim_message}
use article_sentinel.Outbox.Relay.{deliver, on_dispatch_failure}
use article_sentinel.Outbox.Row.{find_row}
use article_sentinel.Outbox.Refine.{find_row-update}
use article_sentinel.Outbox.Status.{status_case-claimed, status_case-dispatched}
use article_sentinel.Outbox.Keyed.{IsKeyed, update_where-IsKeyed}
use article_sentinel.Outbox.Frame.{deliver-others}
use article_sentinel.Outbox.Written.{Written-id, deliver-Writes}
use article_sentinel.Outbox.System.{
  idle, holding, System, update, is_accepted, Step, ticks, claims, ends, crashes, IsInitial, Reach,
  here, next, IsRunning, InTime, IsTimely,
}
use article_sentinel.Outbox.Consistent.{
  IsDispatched, IsConsistent, ticks-IsConsistent, crashes-IsConsistent, claims-IsConsistent,
  held_before, owned_refuses,
}

update_message-IsKeyed :
    (env : Env) (m : Message) (f : Message → Message) (w : World)
    → ((a : Message) → (f a).id ≡ a.id)
    → IsKeyed w.outbox
    → IsKeyed (update_message env m f w).1.outbox
unfolding update_message
update_message-IsKeyed env m f w keep keyed = elim (Option-cases env.finish_error) [
  | inl e ↦ rw e (update_where-IsKeyed (λ row. row.id == m.id) f keep w.outbox keyed)
  | inr (x, e) ↦ rw e keyed
]

module _ (r : TaskOutboxRelay) (env : Env) (c : Message) (w : World) where
  deliver-IsKeyed : IsKeyed w.outbox → IsKeyed (deliver r env c w).1.outbox
  deliver-IsKeyed keyed =
      let (f, written, same) = deliver-Writes r env c w in
      rw same (update_message-IsKeyed env c f w (Written-id written) keyed)

  accepted_outbox :
      env.finish_error ≡ none
      → is_accepted env c ≡ true
      → (deliver r env c w).1.outbox
        ≡ update_where (λ row. row.id == c.id) (set_dispatched r.settings env.now c) w.outbox
  unfolding deliver is_accepted update_message
  accepted_outbox open_db taken = ground arith

  deliver-IsDispatched :
      env.finish_error ≡ none
      → is_accepted env c ≡ true
      → (a : Message) → find_row c.id w.outbox ≡ some a
      → IsDispatched c.id (deliver r env c w).1
  deliver-IsDispatched open_db taken a found =
      let e = accepted_outbox open_db taken in
      let f =
        find_row-update c.id (λ row. row.id == c.id) (set_dispatched r.settings env.now c)
          (λ b. refl) w.outbox found in
      let g = first_where-holds (λ row. row.id == c.id) w.outbox {a = a} found in
      (set_dispatched r.settings env.now c a, rw e (ground arith), refl)

  deliver-sent :
      env.finish_error ≡ none
      → length (deliver r env c w).1.sent
        ≡ (if is_accepted env c then suc (length w.sent) else length w.sent)
  unfolding deliver on_dispatch_failure is_accepted update_message
  deliver-sent open_db = ground arith

module _ (relays : ℕ → TaskOutboxRelay) (s : System) (i : ℕ) (env : Env) (c : Message)
    (inv : IsConsistent s) (holds : s.pc i ≡ holding env.now c) (open_db : env.finish_error ≡ none)
    (live : IsRunning s.now c) where
  abbrev after_end : World
  after_end = (deliver (relays i) env c s.world).1

  abbrev handed_after : List ℕ
  handed_after = if is_accepted env c then c.id ∷ s.handed else s.handed

  ended_new : contains_id c.id s.handed ≡ false
  ended_new = elim (Bool-cases (contains_id c.id s.handed)) [
    | inr e ↦ e
    | inl e ↦
        let (a, found, status, lease) = inv.owned i env.now c holds live in
        let (b, found', status') = inv.done c.id e in
        absurd (ground (arith, status_case-claimed, status_case-dispatched))
  ]

  ended_apart :
      (j at : ℕ) (d : Message)
      → update s.pc i idle j ≡ holding at d
      → IsRunning s.now d
      → d.id ≢ c.id
  ended_apart j at d p l e =
      let same = inv.apart j i at env.now d c (held_before s.pc i j at d p) holds l live e in
      let n = (==_iff i j).1 (sym same) in absurd (ground arith)

  handed_before :
      (k : ℕ) → contains_id k handed_after ≡ true → k ≢ c.id → contains_id k s.handed ≡ true
  handed_before k h ne = let n = ==_iff k c.id in ground arith

  handed_accepted : contains_id c.id handed_after ≡ true → is_accepted env c ≡ true
  handed_accepted h = let n = ended_new in ground arith

  done_after : (k : ℕ) → contains_id k handed_after ≡ true → IsDispatched k after_end
  done_after k h = elim (ℕ_discrete k c.id) [
    | yes e ↦
        let (a, found, status, lease) = inv.owned i env.now c holds live in
        let taken = handed_accepted (rw e at h) in
        rw e (deliver-IsDispatched (relays i) env c s.world open_db taken a found)
    | no ne ↦
        let (a, found, status) = inv.done k (handed_before k h ne) in
        (a, deliver-others (relays i) env k c s.world ne ∙ found, status)
  ]

  ends-IsConsistent :
      IsConsistent (record s { world = after_end; pc = update s.pc i idle; handed = handed_after })
  ends-IsConsistent = record {
    keyed = deliver-IsKeyed (relays i) env c s.world inv.keyed;
    owned = λ j at d p l.
        let (a, found, status, lease) = inv.owned j at d (held_before s.pc i j at d p) l in
        (
          a,
          deliver-others (relays i) env d.id c s.world (ended_apart j at d p l) ∙ found,
          status,
          lease,
        );
    apart = λ j k at at' d d' p q l l' e.
        inv.apart j k at at' d d' (held_before s.pc i j at d p) (held_before s.pc i k at' d' q) l l'
          e;
    done = done_after;
    once = elim (Bool-cases (is_accepted env c)) [
      | inl e ↦ rw e (ended_new, inv.once)
      | inr e ↦ rw e inv.once
    ];
    counted =
        let n = deliver-sent (relays i) env c s.world open_db in
        let q = inv.counted in ground arith;
  }

IsInitial-IsConsistent : (s : System) → IsInitial s → IsConsistent s
IsInitial-IsConsistent s start = record {
  keyed = start.keyed;
  owned = λ i at c p l. let n = start.none_holds i in absurd cc;
  apart = λ i j at at' c d p q l l' e. let n = start.none_holds i in absurd cc;
  done = λ k h. let n = start.none_handed in absurd (ground arith);
  once = rw start.none_handed tt;
  counted = rw (start.none_handed, start.none_sent) refl;
}

module _ (relays : ℕ → TaskOutboxRelay) where
  Step-IsConsistent :
      (s t : System) (step : Step relays s t) → InTime step → IsConsistent s → IsConsistent t
  Step-IsConsistent s _ (ticks t h) timely inv = ticks-IsConsistent s t h inv
  Step-IsConsistent s _ (claims i env m c p time won) timely inv =
      claims-IsConsistent relays s i env m c inv time won
  Step-IsConsistent s _ (ends i env c p) timely inv =
      ends-IsConsistent relays s i env c inv p timely.0 timely.1
  Step-IsConsistent s _ (crashes i) timely inv = crashes-IsConsistent s i inv

  Reach-IsConsistent :
      (s t : System) → IsInitial s → (r : Reach relays s t) → IsTimely r → IsConsistent t
  Reach-IsConsistent s _ start here timely = IsInitial-IsConsistent s start
  Reach-IsConsistent s _ start (next {t} {u} r step) timely =
      Step-IsConsistent t u step timely.1 (Reach-IsConsistent s t start r timely.0)

  -- From a table with a key and relays of which none has started: of any number of relays whose
  -- steps come in any order, and whose dispatches all end while the lease of their claim runs with
  -- an update that the database takes, two that hold messages under leases which, by the table,
  -- both still run hold different messages.
  pub one_holder :
      (s t : System)
      → IsInitial s
      → (r : Reach relays s t) → IsTimely r
      → (i j at at' : ℕ) (c d : Message) → i ≢ j
      → t.pc i ≡ holding at c
      → t.pc j ≡ holding at' d
      → IsRunning t.now c
      → IsRunning t.now d
      → c.id ≢ d.id
  one_holder s t start r timely i j at at' c d other p q l l' e =
      other ((Reach-IsConsistent s t start r timely).apart i j at at' c d p q l l' e)

  -- From a table with a key and relays of which none has started: of any number of relays whose
  -- steps come in any order, and whose dispatches all end while the lease of their claim runs with
  -- an update that the database takes, as long as one holds a message, having neither ended nor
  -- crashed, under a lease that runs by the table, an attempt to claim the row, by any relay, from
  -- whatever earlier read of it and by a clock read at any time up to then, fails and changes
  -- nothing.
  pub claim_exclusive :
      (s t : System)
      → IsInitial s
      → (r : Reach relays s t) → IsTimely r
      → (i at : ℕ) (c : Message) → t.pc i ≡ holding at c
      → IsRunning t.now c
      → (r' : TaskOutboxRelay) (env : Env) (m : Message) → m.id ≡ c.id
      → env.now ≤ t.now
      → ((claim_message r' env m t.world).1 ≡ t.world)
        × ((c' : Message) → (claim_message r' env m t.world).0 ≢ claimed_as c')
  claim_exclusive s t start r timely i at c p l r' env m same early =
      let inv = Reach-IsConsistent s t start r timely in
      owned_refuses r' env m c t inv same early (inv.owned i at c p l) l

  -- From a table with a key and relays of which none has started, whatever the order in which the
  -- steps of any number of relays come, each claim being one step and each dispatch with its last
  -- update another, and wherever relays crash between them: on a run on which every dispatch that
  -- ends does so while the lease of its claim, as the table has rounded it, runs and with an
  -- update that the database takes, no message has been handed to the dispatcher twice, as many
  -- payloads have been sent as messages handed over, and each of these messages is dispatched in
  -- the table.
  pub handed_once :
      (s t : System)
      → IsInitial s
      → (r : Reach relays s t) → IsTimely r
      → IsUnique t.handed
        × (length t.world.sent ≡ length t.handed)
        × ((k : ℕ) → contains_id k t.handed ≡ true → IsDispatched k t.world)
  handed_once s t start r timely =
      let inv = Reach-IsConsistent s t start r timely in (inv.once, inv.counted, inv.done)
