-- ===== src/Outbox/SystemTests.antt =====
-- Two relays over two rows: the theorems on their interleavings at it.
use article_sentinel.Base.{
  if◌then◌else◌, ℕ, ◌*◌, ◌≡◌, ◌≢◌, refl, true, arith, [], ◌∷◌, length, contains_id, IsUnique,
}
use article_sentinel.Text.{trim_space, text_eq, codes}
use article_sentinel.Domain.OutboxStatus
use article_sentinel.Outbox.{Message, TaskOutboxRelay, Env, second, datetime}
use article_sentinel.Outbox.Codec.{is_dispatchable_message, status_case}
use article_sentinel.Outbox.Statements.{claim_message, update_claim, claimed_message, claimed_as}
use article_sentinel.Outbox.Relay.{deliver}
use article_sentinel.Outbox.Tests.{row, relay, accepting}
use article_sentinel.Outbox.System.{
  idle, holding, System, claims, ticks, update, ends, is_accepted, IsInitial, Reach, here, next,
  IsTimely,
}
use article_sentinel.Outbox.Consistent.{IsDispatched}
use article_sentinel.Outbox.Once.{claim_exclusive, one_holder, handed_once}

abbrev relays : ℕ → TaskOutboxRelay
relays i = relay

abbrev row1 : Message
row1 = row 1 OutboxStatus.pending

abbrev row2 : Message
row2 = row 2 OutboxStatus.pending

abbrev initial : System
initial = record {
  world = record { outbox = row1 ∷ row2 ∷ []; sent = [] };
  now = 100;
  pc = λ i. idle;
  handed = [];
}

initial-IsInitial : IsInitial initial
initial-IsInitial = record {
  keyed = (refl, (refl, tt));
  none_holds = λ i. refl;
  none_handed = refl;
  none_sent = refl;
}

abbrev claim1 : Message
claim1 = claimed_message relay 100 row1

abbrev claim2 : Message
claim2 = claimed_message relay 100 row2

abbrev one_claimed : System
one_claimed = record initial {
  world = (claim_message (relays 0) accepting row1 initial.world).1;
  pc = update initial.pc 0 (holding 100 claim1);
}

abbrev both_claimed : System
both_claimed = record one_claimed {
  world = (claim_message (relays 1) accepting row2 one_claimed.world).1;
  pc = update one_claimed.pc 1 (holding 100 claim2);
}

-- Twenty seconds later, before the leases of 30 seconds lapse.
abbrev later : System
later = record both_claimed { now = 20 * second }

abbrev one_ended : System
one_ended = record later {
  world = (deliver (relays 0) accepting claim1 both_claimed.world).1;
  pc = update both_claimed.pc 0 idle;
  handed =
      if is_accepted accepting claim1 then claim1.id ∷ both_claimed.handed else both_claimed.handed;
}

both-Reach : Reach relays initial both_claimed
unfolding claim_message update_claim is_dispatchable_message status_case text_eq trim_space codes
both-Reach =
    next (next here (claims 0 accepting row1 claim1 refl (omega arith) refl))
      (claims 1 accepting row2 claim2 refl (omega arith) refl)

later-Reach : Reach relays initial later
later-Reach = next both-Reach (ticks (20 * second) (omega arith))

ended-Reach : Reach relays initial one_ended
ended-Reach = next later-Reach (ends 0 accepting claim1 refl)

both-IsTimely : IsTimely both-Reach
unfolding both-Reach
both-IsTimely = ((tt, tt), tt)

later-IsTimely : IsTimely later-Reach
unfolding both-Reach later-Reach
later-IsTimely = (((tt, tt), tt), tt)

ended-IsTimely : IsTimely ended-Reach
unfolding both-Reach later-Reach ended-Reach datetime
ended-IsTimely = ((((tt, tt), tt), tt), (refl, refl))

one_holder_example : claim1.id ≢ claim2.id
unfolding datetime
one_holder_example =
    one_holder relays initial later initial-IsInitial later-Reach later-IsTimely 0 1 100 100 claim1
      claim2 (λ e. omega arith) refl refl refl refl

abbrev twenty : Env
twenty = record accepting { now = 20 * second }

claim_exclusive_example :
    ((claim_message relay twenty row1 later.world).1 ≡ later.world)
    × ((c' : Message) → (claim_message relay twenty row1 later.world).0 ≢ claimed_as c')
unfolding datetime
claim_exclusive_example =
    claim_exclusive relays initial later initial-IsInitial later-Reach later-IsTimely 0 100 claim1
      refl refl relay twenty row1 refl (omega arith)

handed_once_example :
    IsUnique one_ended.handed
    × (length one_ended.world.sent ≡ length one_ended.handed)
    × ((k : ℕ) → contains_id k one_ended.handed ≡ true → IsDispatched k one_ended.world)
handed_once_example =
    handed_once relays initial one_ended initial-IsInitial ended-Reach ended-IsTimely
