-- ===== src/Outbox/Batch.antt =====
-- A whole pass of `DispatchPending`: each scanned row has the outcome of its own dispatch, however
-- the others fare.
use mathlib.Core.Path.{subst}
use article_sentinel.Base.{
  ℕ, suc, true, ◌≡◌, refl, sym, ◌≢◌, ◌∙◌, arith, Option, none, some, List, [], ◌∷◌, length, All,
}
use article_sentinel.Outbox.{Message, TaskOutboxRelay, RelayError, Env, World}
use article_sentinel.Outbox.Relay.{dispatch_message}
use article_sentinel.Outbox.Pending.{
  TaskOutboxDispatchReport, tally, reload, count_failure, dispatch_items, with_envs,
  dispatch_pending, empty_report, relay_scan,
}
use article_sentinel.Outbox.Row.{find_row, row_step}
use article_sentinel.Outbox.Refine.{dispatch_message-row_step}
use article_sentinel.Outbox.Frame.{dispatch_message-others}
use article_sentinel.Outbox.Status.{IsKnown}
use article_sentinel.Outbox.Keyed.{IsKeyed}
use article_sentinel.Outbox.Scan.{
  DistinctIds, relay_scan-DistinctIds, relay_scan-All, relay_scan-found,
}

-- The table holds the item as it was scanned, and the reads around its dispatch are not refused.
abbrev pub IsReady : World → Message × Env → Type 0
IsReady w (item, env) =
    (find_row item.id w.outbox ≡ some item)
    × IsKnown item.status
    × (item.id ≢ 0)
    × (env.load_error ≡ none)
    × (env.reload_error ≡ none)

abbrev pub IsSettled : TaskOutboxRelay → World → Message × Env → Type 0
IsSettled r w (item, env) = find_row item.id w.outbox ≡ some (row_step r env item).row

-- A pass that ended without an error, and settled `items`.
abbrev Settles :
    TaskOutboxRelay
    → List (Message × Env)
    → (TaskOutboxDispatchReport × Option RelayError) × World
    → Type 0
Settles r items result = (result.0.1 ≡ none) × All (IsSettled r result.1) items

abbrev OtherId : ℕ → Message × Env → Type 0
OtherId i (b, _) = i ≢ b.id

abbrev Distinct : List (Message × Env) → Type 0
Distinct [] = Unit
Distinct ((a, _) ∷ items) = All (OtherId a.id) items × Distinct items

module _ (r : TaskOutboxRelay) where
  dispatch_items-others :
      (j : ℕ) (items : List (Message × Env)) (report : TaskOutboxDispatchReport) (w : World)
      → All (OtherId j) items
      → find_row j (dispatch_items r items report w).1.outbox ≡ find_row j w.outbox
  unfolding dispatch_items
  dispatch_items-others j [] report w fresh = refl
  dispatch_items-others j ((item, env) ∷ items) report w fresh =
      let (e, w') = dispatch_message r env item.id w in
      let (report', stop) = reload env item (count_failure e report) w' in
      ground (
        arith,
        dispatch_message-others r env item.id j w fresh.0,
        dispatch_items-others j items report' w' fresh.1,
      )

  IsReady-after :
      (i : ℕ) (env : Env) (w : World) (items : List (Message × Env))
      → All (OtherId i) items
      → All (IsReady w) items
      → All (IsReady (dispatch_message r env i w).1) items
  IsReady-after i env w [] fresh ready = tt
  IsReady-after i env w ((b, benv) ∷ items) fresh ready = (
    (
      dispatch_message-others r env i b.id w (λ e. fresh.0 (sym e)) ∙ ready.0.0,
      ready.0.1,
      ready.0.2,
      ready.0.3,
      ready.0.4,
    ),
    IsReady-after i env w items fresh.1 ready.1,
  )

  reload-goes_on :
      (env : Env) (item updated : Message) (report : TaskOutboxDispatchReport) (w : World)
      → env.reload_error ≡ none
      → find_row item.id w.outbox ≡ some updated
      → reload env item report w ≡ (tally item updated report, none)
  unfolding reload
  reload-goes_on env item updated report w open_db found = rw (open_db, found, reload)

  dispatch_items-step :
      (item : Message) (env : Env) (items : List (Message × Env))
      (report report' : TaskOutboxDispatchReport) (w : World)
      → let (e, w') = dispatch_message r env item.id w in
        reload env item (count_failure e report) w' ≡ (report', none)
        → dispatch_items r ((item, env) ∷ items) report w ≡ dispatch_items r items report' w'
  unfolding dispatch_items
  dispatch_items-step item env items report report' w next = rw (next, dispatch_items)

  dispatch_items-IsSettled :
      r.has_dispatcher ≡ true
      → (items : List (Message × Env)) (report : TaskOutboxDispatchReport) (w : World)
      → Distinct items
      → All (IsReady w) items
      → let (result, w') = dispatch_items r items report w in
        (result.1 ≡ none) × All (IsSettled r w') items
  dispatch_items-IsSettled can [] report w distinct ready = unfold dispatch_items in (refl, tt)
  dispatch_items-IsSettled can ((item, env) ∷ items) report w distinct
        ((found, known, id, loads, reloads), ready) =
      let done = dispatch_message-row_step r env item.id item w id can loads found known in
      let (e, w') = dispatch_message r env item.id w in
      let c = count_failure e report in
      let updated = (row_step r env item).row in
      let next = reload-goes_on env item updated c w' reloads done.0 in
      let (on, settled) =
        dispatch_items-IsSettled can items (tally item updated c) w' distinct.1
          (IsReady-after item.id env w items distinct.0 ready) in
      subst (Settles r ((item, env) ∷ items))
        (sym (dispatch_items-step item env items report (tally item updated c) w next))
        (
          on,
          (
            dispatch_items-others item.id items (tally item updated c) w' distinct.0 ∙ done.0,
            settled,
          ),
        )

-- The items of a scan, each in its surroundings.
module _ (r : TaskOutboxRelay) (envs : ℕ → Env) where
  fresh_items :
      (i k : ℕ) (rows : List Message)
      → All (λ b. i ≢ b.id) rows
      → All (OtherId i) (with_envs envs k rows)
  unfolding with_envs
  fresh_items i k [] h = tt
  fresh_items i k (b ∷ rows) h = (h.0, fresh_items i (suc k) rows h.1)

  Distinct-items :
      (k : ℕ) (rows : List Message) → DistinctIds rows → Distinct (with_envs envs k rows)
  unfolding with_envs
  Distinct-items k [] d = tt
  Distinct-items k (a ∷ rows) d =
      (fresh_items a.id (suc k) rows d.0, Distinct-items (suc k) rows d.1)

  IsReady-items :
      (w : World) (k : ℕ) (rows : List Message)
      → ((i : ℕ) → ((envs i).load_error ≡ none) × ((envs i).reload_error ≡ none))
      → All (λ a. find_row a.id w.outbox ≡ some a) rows
      → All (λ a. IsKnown a.status × (a.id ≢ 0)) rows
      → All (IsReady w) (with_envs envs k rows)
  unfolding with_envs
  IsReady-items w k [] open_db found known = tt
  IsReady-items w k (a ∷ rows) open_db found known = (
    (found.0, known.0.0, known.0.1, (open_db k).0, (open_db k).1),
    IsReady-items w (suc k) rows open_db found.1 known.1,
  )

dispatch_pending-items :
    (r : TaskOutboxRelay) (now limit : ℕ) (envs : ℕ → Env) (w : World)
    → r.has_dispatcher ≡ true
    → let items = relay_scan now limit w.outbox in
      dispatch_pending r now none envs limit w
      ≡ dispatch_items r (with_envs envs 0 items) (empty_report (length items)) w
unfolding dispatch_pending
dispatch_pending-items r now limit envs w can = simp can

-- With a dispatcher, over a table with a key, ids other than 0 and known statuses, a pass in which
-- the reads are not refused goes through to its end, and leaves each scanned row as its own
-- dispatch makes it, whether or not the dispatches of the others fail.
pub dispatch_pending-IsSettled :
    (r : TaskOutboxRelay) (now limit : ℕ) (envs : ℕ → Env) (w : World)
    → r.has_dispatcher ≡ true
    → IsKeyed w.outbox
    → All (λ a. IsKnown a.status × (a.id ≢ 0)) w.outbox
    → ((i : ℕ) → ((envs i).load_error ≡ none) × ((envs i).reload_error ≡ none))
    → let (result, w') = dispatch_pending r now none envs limit w in
      (result.1 ≡ none) × All (IsSettled r w') (with_envs envs 0 (relay_scan now limit w.outbox))
dispatch_pending-IsSettled r now limit envs w can keyed known open_db =
    let items = relay_scan now limit w.outbox in
    subst (Settles r (with_envs envs 0 items)) (sym (dispatch_pending-items r now limit envs w can))
      (dispatch_items-IsSettled r can (with_envs envs 0 items) (empty_report (length items)) w
        (Distinct-items r envs 0 items (relay_scan-DistinctIds now limit w.outbox keyed))
        (IsReady-items r envs w 0 items open_db (relay_scan-found now limit w.outbox keyed)
          (relay_scan-All now limit w.outbox keyed (λ a. IsKnown a.status × (a.id ≢ 0)) known)))
