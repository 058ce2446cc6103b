-- ===== src/Actions/Counts.antt =====
-- actions/service.go: the counters of a batch action.
use article_sentinel.Base.{ℕ, ◌+◌, ◌≡◌, ◌≢◌, ◌⊎◌, inl, inr, refl, arith, List, [], ◌∷◌, length}
use article_sentinel.Text.{Text}
use article_sentinel.Domain.ActionType
use article_sentinel.Lifecycle
use article_sentinel.Actions.{
  World, Env, BatchActionInput, BatchActionSummary, Progress, update_action_summary, conclude,
  run_batch, create_action, new_action, new_summary,
}
use article_sentinel.Actions.UniqueIds.{unique_uint64s}
use article_sentinel.Actions.Disposition.{apply_item, apply_items, apply_disposition}
use article_sentinel.Actions.Offline.{offline_item, offline_items, batch_offline}

abbrev pub total : BatchActionSummary → ℕ
total s = s.success_count + s.fail_count + s.skip_count

conclude-total :
    (env : Env) (p : Progress) (w : World) (s : BatchActionSummary)
    → (conclude env (Lifecycle.ok p) w).0 ≡ Lifecycle.ok s
    → total s ≡ total p.0
unfolding conclude update_action_summary
conclude-total env (s', w') w s h = ground arith

apply_item-total :
    (env : Env) (input : BatchActionInput) (action_type target : Text) (action_id id : ℕ)
    (p p' : Progress)
    → apply_item env input action_type target action_id id p ≡ Lifecycle.ok p'
    → total p'.0 ≡ total p.0 + 1
unfolding apply_item
apply_item-total env input action_type target action_id id (s, w) p' h = ground arith

offline_item-total :
    (env : Env) (input : BatchActionInput) (action_id id : ℕ) (p : Progress)
    → total (offline_item env input action_id id p).0 ≡ total p.0 + 1
unfolding offline_item
offline_item-total env input action_id id (s, w) = ground arith

offline_items-total :
    (env : Env) (input : BatchActionInput) (ids : List ℕ) (action_id : ℕ) (p : Progress)
    → total (offline_items env input ids action_id p).0 ≡ total p.0 + length ids
unfolding offline_items
offline_items-total env input [] action_id p = omega arith
offline_items-total env input (id ∷ ids) action_id p =
    let e = offline_item-total env input action_id id p in
    let h = offline_items-total env input ids action_id (offline_item env input action_id id p) in
    omega arith

pub Result-cases :
    (r : Lifecycle.Result Progress)
    → ((e : Lifecycle.ActionError) × (r ≡ Lifecycle.failed e))
      ⊎ ((p : Progress) × (r ≡ Lifecycle.ok p))
Result-cases (Lifecycle.failed e) = inl (e, refl)
Result-cases (Lifecycle.ok p) = inr (p, refl)

apply_items-total :
    (env : Env) (input : BatchActionInput) (action_type target : Text) (ids : List ℕ)
    (action_id : ℕ) (p p' : Progress)
    → apply_items env input action_type target ids action_id p ≡ Lifecycle.ok p'
    → total p'.0 ≡ total p.0 + length ids
unfolding apply_items
apply_items-total env input action_type target [] action_id p p' h = ground arith
apply_items-total env input action_type target (id ∷ ids) action_id p p' h =
    elim (Result-cases (apply_item env input action_type target action_id id p)) [
      | inl (e, r) ↦ absurd (ground arith)
      | inr (q, r) ↦
          let first = apply_item-total env input action_type target action_id id p q r in
          let rest =
            apply_items-total env input action_type target ids action_id q p' (ground arith) in
          omega arith
    ]

failed_batch :
    (env : Env) (input : BatchActionInput) (action_type : Text)
    (items : ℕ → Progress → Lifecycle.Result Progress) (w : World) (s : BatchActionSummary)
    (e : Lifecycle.ActionError)
    → items w.next_action_id (
      new_summary input action_type w.next_action_id,
      create_action (new_action env input action_type w.next_action_id) w,
    )
      ≡ Lifecycle.failed e
    → (run_batch env input action_type items w).0 ≢ Lifecycle.ok s
unfolding run_batch conclude
failed_batch env input action_type items w s e r h = ground arith

run_batch-total :
    (env : Env) (input : BatchActionInput) (action_type : Text)
    (items : ℕ → Progress → Lifecycle.Result Progress) (n : ℕ)
    → ((id : ℕ) (p p' : Progress) → items id p ≡ Lifecycle.ok p' → total p'.0 ≡ total p.0 + n)
    → (w : World) (s : BatchActionSummary)
    → (run_batch env input action_type items w).0 ≡ Lifecycle.ok s
    → total s ≡ n
unfolding run_batch
run_batch-total env input action_type items n each w s h =
    let w1 = create_action (new_action env input action_type w.next_action_id) w in
    let start : Progress = (new_summary input action_type w.next_action_id, w1) in
    elim (Result-cases (items w.next_action_id start)) [
      | inl (e, r) ↦ absurd (failed_batch env input action_type items w s e r h)
      | inr (q, r) ↦
          let k : (conclude env (Lifecycle.ok q) w1).0 ≡ Lifecycle.ok s = ground arith in
          let t = conclude-total env q w1 s k in
          let u = each w.next_action_id start q r in omega arith
    ]

-- A batch action on dispositions that succeeds has counted each of its different results other
-- than 0 once, as done, failed or skipped.
pub apply_disposition-total :
    (env : Env) (input : BatchActionInput) (action_type target : Text) (w : World)
    (s : BatchActionSummary)
    → (apply_disposition env input action_type target w).0 ≡ Lifecycle.ok s
    → total s ≡ length (unique_uint64s input.result_ids)
unfolding apply_disposition
apply_disposition-total env input action_type target w s h =
    run_batch-total env input action_type
      (apply_items env input action_type target (unique_uint64s input.result_ids))
      (length (unique_uint64s input.result_ids))
      (apply_items-total env input action_type target (unique_uint64s input.result_ids)) w s h

-- A batch offline that succeeds has counted each of its different results other than 0 once, as
-- done, failed or skipped.
pub batch_offline-total :
    (env : Env) (input : BatchActionInput) (w : World) (s : BatchActionSummary)
    → (batch_offline env input w).0 ≡ Lifecycle.ok s
    → total s ≡ length (unique_uint64s input.result_ids)
unfolding batch_offline
batch_offline-total env input w s h =
    run_batch-total env input ActionType.offline
      (λ action_id p.
        Lifecycle.ok (offline_items env input (unique_uint64s input.result_ids) action_id p))
      (length (unique_uint64s input.result_ids))
      (λ action_id p p' e.
        let t = offline_items-total env input (unique_uint64s input.result_ids) action_id p in
        ground arith)
      w s h
