-- ===== src/Actions/Tests.antt =====
-- Two results, of which one is handled: the theorems on batch actions at them.
use article_sentinel.Base.{
  ℕ, ◌≡◌, refl, none, some, [], ◌∷◌, length, not, ◌&&◌, ◌==◌, contains_id, if◌then◌else◌,
}
use article_sentinel.Text.{Text, codes, text_eq}
use article_sentinel.Domain.Disposition
use article_sentinel.Domain.ActionType
use article_sentinel.Model.{InspectionResult}
use article_sentinel.Lifecycle
use article_sentinel.Lifecycle.Tests
use article_sentinel.Actions.{
  World, BatchActionInput, BatchActionSummary, Env, run_batch, conclude, update_action_summary,
  summary_status,
}
use article_sentinel.Actions.UniqueIds.{unique_uint64s, keep_unique, exchange_sort, exchange}
use article_sentinel.Actions.Disposition.{apply_disposition, apply_items, apply_item}
use article_sentinel.Actions.Offline.{batch_offline, offline_items, offline_item, offline_input}
use article_sentinel.Actions.Ids.{IsAscending, unique_uint64s-IsAscending}
use article_sentinel.Actions.Counts.{total, apply_disposition-total, batch_offline-total}

abbrev result : ℕ → Text → InspectionResult
result i disposition = record {
  id = i;
  org_id = 1;
  task_id = 5;
  article_id = 3;
  article_title = [];
  article_state = 9;
  publish_at_time = none;
  risk_level = [];
  suggest_action = [];
  hit_fields_count = 1;
  hit_keywords_count = 1;
  hit_count = 1;
  disposition_status = disposition;
  latest_action_id = 0;
  latest_operator_id = 0;
  latest_operator_name = [];
  latest_action_at = none;
}

abbrev two_results : World
two_results = record {
  lifecycle = Lifecycle.Tests.tables;
  results = result 1 Disposition.pending ∷ result 2 Disposition.offlined ∷ [];
  actions = [];
  next_action_id = 1;
}

abbrev input : BatchActionInput
input = record {
  org_id = 1;
  task_id = 0;
  result_ids = 2 ∷ 1 ∷ 2 ∷ 0 ∷ [];
  operator_id = 0;
  operator_name = [];
  reason = [];
}

abbrev env : Env
env = record {
  now = 1;
  finished_now = 2;
  operator = Lifecycle.Tests.env.operator;
  itoa = λ n. n ∷ [];
  build_action_number = λ n. [];
  action_snapshot = λ t i. [];
  log_snapshot = λ t i n r s. [];
  create_error = none;
  find_error = λ i. none;
  update_error = λ i. none;
  log_error = λ i. none;
  lifecycle = λ i. Lifecycle.Tests.env;
  commit_error = none;
  summary_error = none;
}

-- The log entry of result 2 is refused.
abbrev unlogged : Env
unlogged = record env { log_error = λ i. if i == 2 then some (codes "down") else none }

ids_example :
    IsAscending 0 (unique_uint64s (2 ∷ 1 ∷ 2 ∷ 0 ∷ []))
    × ((a : ℕ)
        → contains_id a (unique_uint64s (2 ∷ 1 ∷ 2 ∷ 0 ∷ []))
          ≡ (not (a == 0) && contains_id a (2 ∷ 1 ∷ 2 ∷ 0 ∷ [])))
ids_example = unique_uint64s-IsAscending (2 ∷ 1 ∷ 2 ∷ 0 ∷ [])

abbrev summary : ℕ → ℕ → Text → BatchActionSummary
summary successes skips action_type = record {
  action_id = 1;
  target_count = 4;
  success_count = successes;
  fail_count = 0;
  skip_count = skips;
  status = codes "success";
  action_type = action_type;
}

disposition_total_example :
    total (summary 2 0 ActionType.batch_process) ≡ length (unique_uint64s (2 ∷ 1 ∷ 2 ∷ 0 ∷ []))
unfolding apply_disposition apply_items apply_item run_batch conclude update_action_summary
    summary_status unique_uint64s keep_unique exchange_sort exchange text_eq codes
disposition_total_example =
    apply_disposition-total env input ActionType.batch_process Disposition.processed two_results
      (summary 2 0 ActionType.batch_process) refl

batch_offline_example :
    total (summary 1 1 ActionType.offline) ≡ length (unique_uint64s (2 ∷ 1 ∷ 2 ∷ 0 ∷ []))
unfolding batch_offline offline_items offline_item offline_input run_batch conclude
    update_action_summary summary_status unique_uint64s keep_unique exchange_sort exchange text_eq
    codes Lifecycle.offline_article Lifecycle.move_article
batch_offline_example =
    batch_offline-total env input two_results (summary 1 1 ActionType.offline) refl
