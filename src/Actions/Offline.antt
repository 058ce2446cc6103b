-- ===== src/Actions/Offline.antt =====
-- actions/service.go: `BatchOffline`, which takes the articles of results offline.
use article_sentinel.Base.{ℕ, none, some, List, [], ◌∷◌, if◌then◌else◌, first_where, update_where}
use article_sentinel.Text.{text_eq, trim_space}
use article_sentinel.Domain.ActionType
use article_sentinel.Domain.Disposition
use article_sentinel.Model.{InspectionResult}
use article_sentinel.Audit.{resolve_task_id}
use article_sentinel.Lifecycle
use article_sentinel.Actions.{
  World, Env, BatchActionInput, BatchActionSummary, Progress, same_result, add_success, add_fail,
  add_skip, run_batch,
}
use article_sentinel.Actions.UniqueIds.{unique_uint64s}

abbrev pub set_offlined : Env → BatchActionInput → ℕ → ℕ → InspectionResult → InspectionResult
set_offlined env input action_id after_state row = record row {
  article_state = after_state;
  disposition_status = Disposition.offlined;
  latest_action_id = action_id;
  latest_operator_id = input.operator_id;
  latest_operator_name = trim_space input.operator_name;
  latest_action_at = some env.now;
}

unfoldable pub offline_input : BatchActionInput → ℕ → InspectionResult → Lifecycle.ArticleInput
unfolding resolve_task_id
offline_input input action_id result = record {
  org_id = input.org_id;
  article_id = result.article_id;
  task_id = resolve_task_id input.task_id result.task_id;
  result_id = result.id;
  action_id = action_id;
  operator_id = input.operator_id;
  operator_name = input.operator_name;
  reason = input.reason;
}

-- One round of the loop, over the `OfflineArticle` of the lifecycle service.
unfoldable pub offline_item : Env → BatchActionInput → ℕ → ℕ → Progress → Progress
unfolding offline_input Lifecycle.offline_article
offline_item env input action_id result_id (s, w) = elim (env.find_error result_id) [
  | some e ↦ (add_fail s, w)
  | none ↦ elim (first_where (same_result input.org_id result_id) w.results) [
    | none ↦ (add_skip s, w)
    | some result ↦
        if text_eq result.disposition_status Disposition.offlined
        then (add_skip s, w)
        else let (r, l) =
            Lifecycle.offline_article (env.lifecycle result_id)
              (offline_input input action_id result) w.lifecycle in
          let w1 = record w { lifecycle = l } in
          elim r [
            | Lifecycle.failed e ↦ (add_fail s, w1)
            | Lifecycle.ok x ↦ elim (env.update_error result_id) [
              | some e ↦ (add_fail s, w1)
              | none ↦ (
                add_success s,
                record w1 {
                  results =
                      update_where (same_result input.org_id result.id)
                        (set_offlined env input action_id x.after_state) w.results;
                },
              )
            ]
          ]
  ]
]

unfoldable pub offline_items : Env → BatchActionInput → List ℕ → ℕ → Progress → Progress
unfolding offline_item
offline_items env input [] action_id p = p
offline_items env input (id ∷ ids) action_id p =
    offline_items env input ids action_id (offline_item env input action_id id p)

unfoldable pub batch_offline :
    Env → BatchActionInput → World → Lifecycle.Result BatchActionSummary × World
unfolding run_batch offline_items unique_uint64s
batch_offline env input w =
    run_batch env input ActionType.offline
      (λ action_id p.
        Lifecycle.ok (offline_items env input (unique_uint64s input.result_ids) action_id p))
      w
