-- ===== src/Outbox/Pending.antt =====
-- outbox/relay.go: `DispatchPending` and `RelayPendingArticleInspectTaskOutbox`.
use article_sentinel.Base.{
  ℕ, suc, ◌+◌, Bool, true, false, ◌&&◌, ◌||◌, Option, none, some, List, [], ◌∷◌, ltb, leb, ◌==◌,
  if◌then◌else◌, length, take, is_some, first_where, select_where, sort_by,
}
use article_sentinel.Text.{Text, text_eq}
use article_sentinel.Domain.OutboxStatus
use article_sentinel.Outbox.{
  Message, TaskOutboxRelay, RelayError, dispatcher_unavailable, record_not_found, database, Env,
  World,
}
use article_sentinel.Outbox.Codec.{
  StatusCase, status_case, pending, claimed, dispatched, dead_letter, is_due, is_lapsed,
}
use article_sentinel.Outbox.Relay.{dispatch_message}

pub record TaskOutboxDispatchReport : Type 0 where
  pub scanned : ℕ
  pub claimed : ℕ
  pub dispatched : ℕ
  pub retried : ℕ
  pub dead_lettered : ℕ
  pub failed : ℕ

abbrev pub empty_report : ℕ → TaskOutboxDispatchReport
empty_report n = record {
  scanned = n;
  claimed = 0;
  dispatched = 0;
  retried = 0;
  dead_lettered = 0;
  failed = 0;
}

-- The `WHERE` of the scan.
unfoldable pub is_relayable : ℕ → Message → Bool
is_relayable now row =
    (text_eq row.status OutboxStatus.pending && is_due now row.next_attempt_at)
    || (text_eq row.status OutboxStatus.claimed && is_lapsed now row.claim_until)

-- `ORDER BY attempt_count ASC, id ASC`
abbrev pub relays_before : Message → Message → Bool
relays_before a b =
    ltb a.attempt_count b.attempt_count || (a.attempt_count == b.attempt_count && leb a.id b.id)

-- A limit that is not positive stands for 20.
unfoldable pub relay_scan : ℕ → ℕ → List Message → List Message
unfolding is_relayable
relay_scan now limit rows =
    take (if limit == 0 then 20 else limit)
      (sort_by relays_before (select_where (is_relayable now) rows))

is_claimed_case : StatusCase → Bool
is_claimed_case claimed = true
is_claimed_case _ = false

-- `item` is the row as the scan read it, `updated` as it stands after its dispatch.
unfoldable pub tally : Message → Message → TaskOutboxDispatchReport → TaskOutboxDispatchReport
unfolding is_claimed_case
tally item updated report =
    let more = ltb item.attempt_count updated.attempt_count in
    let r = if more then record report { claimed = report.claimed + 1 } else report in
    elim (status_case updated.status) [
      | dispatched ↦ record r { dispatched = r.dispatched + 1 }
      | pending ↦
          if more || is_claimed_case (status_case item.status)
          then record r { retried = r.retried + 1 }
          else r
      | dead_letter ↦ record r { dead_lettered = r.dead_lettered + 1 }
      | _ ↦ r
    ]

abbrev pub count_failure : Option RelayError → TaskOutboxDispatchReport → TaskOutboxDispatchReport
count_failure none report = report
count_failure (some e) report = record report { failed = report.failed + 1 }

-- The second read of the row, and the counts.
unfoldable pub reload :
    Env → Message → TaskOutboxDispatchReport → World → TaskOutboxDispatchReport × Option RelayError
unfolding tally
reload env item report w = elim env.reload_error [
  | some e ↦ (report, some (database e))
  | none ↦ elim (first_where (λ row. row.id == item.id) w.outbox) [
    | none ↦ (report, some record_not_found)
    | some updated ↦ (tally item updated report, none)
  ]
]

-- The loop over the scanned rows; an error of the second read ends it. The surroundings differ
-- from one dispatch to the next.
unfoldable pub dispatch_items :
    TaskOutboxRelay
    → List (Message × Env)
    → TaskOutboxDispatchReport
    → World
    → (TaskOutboxDispatchReport × Option RelayError) × World
unfolding reload dispatch_message
dispatch_items r [] report w = ((report, none), w)
dispatch_items r ((item, env) ∷ items) report w =
    let (e, w') = dispatch_message r env item.id w in
    let (report', stop) = reload env item (count_failure e report) w' in
    let rest = dispatch_items r items report' w' in
    if is_some stop then ((report', stop), w') else rest

-- The i-th row of the scan is dispatched in the i-th surroundings.
unfoldable pub with_envs : (ℕ → Env) → ℕ → List Message → List (Message × Env)
with_envs envs i [] = []
with_envs envs i (item ∷ items) = (item, envs i) ∷ with_envs envs (suc i) items

unfoldable pub dispatch_pending :
    TaskOutboxRelay
    → ℕ
    → Option Text
    → (ℕ → Env)
    → ℕ
    → World
    → (TaskOutboxDispatchReport × Option RelayError) × World
unfolding relay_scan dispatch_items with_envs
dispatch_pending r now scan_error envs limit w =
    if r.has_dispatcher
    then elim scan_error [
      | some e ↦ ((empty_report 0, some (database e)), w)
      | none ↦
          let items = relay_scan now limit w.outbox in
          dispatch_items r (with_envs envs 0 items) (empty_report (length items)) w
    ]
    else ((empty_report 0, some dispatcher_unavailable), w)

unfoldable pub relay_pending :
    TaskOutboxRelay → ℕ → Option Text → (ℕ → Env) → ℕ → World → (ℕ × Option RelayError) × World
unfolding dispatch_pending
relay_pending r now scan_error envs limit w =
    let ((report, e), w') = dispatch_pending r now scan_error envs limit w in
    (elim e [ some x ↦ (0, some x) | none ↦ (report.dispatched, none) ], w')
