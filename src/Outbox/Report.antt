-- ===== src/Outbox/Report.antt =====
-- The counts that `DispatchPending` reports.
use article_sentinel.Base.{
  ℕ, suc, ◌+◌, ◌≤◌, ◌≡◌, refl, arith, Option, none, some, List, [], ◌∷◌, ◌==◌, if◌then◌else◌,
  length, length-take, Option-cases, inl, inr, ap, sort_by, select_where,
}
use article_sentinel.Text.{Text}
use article_sentinel.Outbox.{Message, TaskOutboxRelay, RelayError, Env, World}
use article_sentinel.Outbox.Relay.{dispatch_message}
use article_sentinel.Outbox.Pending.{
  TaskOutboxDispatchReport, tally, reload, count_failure, dispatch_items, with_envs,
  dispatch_pending, empty_report, relay_scan, relays_before, is_relayable,
}
use article_sentinel.Outbox.Row.{find_row}

-- `n` more rows have been dispatched from one report to the next.
record Counts (n : ℕ) (before after : TaskOutboxDispatchReport) : Type 0 where
  scanned : after.scanned ≡ before.scanned
  claimed : after.claimed ≤ before.claimed + n
  failed : after.failed ≤ before.failed + n
  ended :
      after.dispatched + after.retried + after.dead_lettered
      ≤ before.dispatched + before.retried + before.dead_lettered + n

tally-Counts :
    (item updated : Message) (e : Option RelayError) (report : TaskOutboxDispatchReport)
    → Counts 1 report (tally item updated (count_failure e report))
unfolding tally
tally-Counts item updated none report = ground arith
tally-Counts item updated (some e) report = ground arith

reload-Counts :
    (env : Env) (item : Message) (e : Option RelayError) (report : TaskOutboxDispatchReport)
    (w : World)
    → Counts 1 report (reload env item (count_failure e report) w).0
unfolding reload
reload-Counts env item none report w = elim (Option-cases env.reload_error) [
  | inr (x, refused) ↦ rw (refused, reload) (ground arith)
  | inl open_db ↦ elim (Option-cases (find_row item.id w.outbox)) [
    | inl gone ↦ rw (open_db, gone, reload) (ground arith)
    | inr (updated, found) ↦ rw (open_db, found, reload) (tally-Counts item updated none report)
  ]
]
reload-Counts env item (some x) report w = elim (Option-cases env.reload_error) [
  | inr (y, refused) ↦ rw (refused, reload) (ground arith)
  | inl open_db ↦ elim (Option-cases (find_row item.id w.outbox)) [
    | inl gone ↦ rw (open_db, gone, reload) (ground arith)
    | inr (updated, found) ↦ rw (open_db, found, reload) (tally-Counts item updated (some x) report)
  ]
]

Counts-add :
    (m n : ℕ) {a b c : TaskOutboxDispatchReport} → Counts m a b → Counts n b c → Counts (m + n) a c
Counts-add m n h k = omega arith

dispatch_items-Counts :
    (r : TaskOutboxRelay) (items : List (Message × Env)) (report : TaskOutboxDispatchReport)
    (w : World)
    → Counts (length items) report (dispatch_items r items report w).0.0
unfolding dispatch_items
dispatch_items-Counts r [] report w = ground arith
dispatch_items-Counts r ((item, env) ∷ items) report w =
    let (e, w') = dispatch_message r env item.id w in
    let (report', stop) = reload env item (count_failure e report) w' in
    let first = reload-Counts env item e report w' in
    let rest = dispatch_items-Counts r items report' w' in
    elim (Option-cases stop) [
      | inr (x, ends) ↦ rw (ends, dispatch_items) (omega (arith, first))
      | inl on ↦ rw (on, dispatch_items) (omega (arith, first, rest))
    ]

length-with_envs :
    (envs : ℕ → Env) (k : ℕ) (rows : List Message) → length (with_envs envs k rows) ≡ length rows
unfolding with_envs
length-with_envs envs k [] = refl
length-with_envs envs k (a ∷ rows) = ap suc (length-with_envs envs (suc k) rows)

length-relay_scan :
    (now limit : ℕ) (rows : List Message)
    → length (relay_scan now limit rows) ≤ (if limit == 0 then 20 else limit)
unfolding relay_scan
length-relay_scan now limit rows = omega (
  arith,
  length-take (if limit == 0 then 20 else limit)
      (sort_by relays_before (select_where (is_relayable now) rows)),
)

-- Whatever fails in a pass, it scans no more rows than its limit, or twenty if it has none, and
-- counts at most as many as claimed, as failed, and as dispatched, retried and dead-lettered
-- together.
pub dispatch_pending-report :
    (r : TaskOutboxRelay) (now limit : ℕ) (scan_error : Option Text) (envs : ℕ → Env) (w : World)
    → let report = (dispatch_pending r now scan_error envs limit w).0.0 in
      (report.scanned ≤ (if limit == 0 then 20 else limit))
      × (report.dispatched + report.retried + report.dead_lettered ≤ report.scanned)
      × (report.claimed ≤ report.scanned)
      × (report.failed ≤ report.scanned)
unfolding dispatch_pending
dispatch_pending-report r now limit scan_error envs w =
    let items = relay_scan now limit w.outbox in
    let counts = dispatch_items-Counts r (with_envs envs 0 items) (empty_report (length items)) w in
    ground (arith, counts, length-with_envs envs 0 items, length-relay_scan now limit w.outbox)
