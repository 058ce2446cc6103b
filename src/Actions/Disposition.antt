-- ===== src/Actions/Disposition.antt =====
-- actions/service.go: `applyDisposition`, which sets the disposition of results and no more.
use article_sentinel.Base.{ℕ, none, some, List, [], ◌∷◌, if◌then◌else◌, first_where, update_where}
use article_sentinel.Text.{Text, text_eq, trim_space}
use article_sentinel.Domain.ActionStatus
use article_sentinel.Domain.ActionType
use article_sentinel.Domain.Disposition
use article_sentinel.Model.{InspectionResult, InspectionOperationLog}
use article_sentinel.Audit.{
  enrich_operation_log_with_operator, resolve_task_id, build_operation_log_summary,
}
use article_sentinel.Lifecycle
use article_sentinel.Actions.{
  World, Env, BatchActionInput, BatchActionSummary, Progress, same_result, add_success, add_fail,
  add_skip, run_batch,
}
use article_sentinel.Actions.UniqueIds.{unique_uint64s}

abbrev pub set_disposition : Env → BatchActionInput → ℕ → Text → InspectionResult → InspectionResult
set_disposition env input action_id disposition row = record row {
  disposition_status = disposition;
  latest_action_id = action_id;
  latest_operator_id = input.operator_id;
  latest_operator_name = trim_space input.operator_name;
  latest_action_at = some env.now;
}

unfoldable pub disposition_log :
    Env → BatchActionInput → ℕ → Text → Text → Text → InspectionResult → ℕ → InspectionOperationLog
unfolding resolve_task_id build_operation_log_summary
disposition_log env input action_id action_type target status result id =
    let task_id = resolve_task_id input.task_id result.task_id in
    enrich_operation_log_with_operator env.operator record {
      id = id;
      org_id = input.org_id;
      action_id = action_id;
      task_id = task_id;
      result_id = result.id;
      article_id = result.article_id;
      operation_type = action_type;
      before_state = result.disposition_status;
      after_state = target;
      status = status;
      reason = input.reason;
      summary =
          build_operation_log_summary env.itoa action_type status result.disposition_status target
            input.reason task_id result.article_id result.id;
      request_snapshot = env.log_snapshot action_type input action_id result status;
      operator_id = input.operator_id;
      operator_name = trim_space input.operator_name;
      request_id = [];
      source_ip = [];
    }

-- The log entry of a result; its error ends the transaction.
abbrev pub log_disposition :
    Env
    → BatchActionInput
    → ℕ
    → Text
    → Text
    → Text
    → InspectionResult
    → ℕ
    → Progress
    → Lifecycle.Result Progress
log_disposition env input action_id action_type target status result result_id (s, w) =
    elim (env.log_error result_id) [
      | some e ↦ Lifecycle.failed (Lifecycle.database e)
      | none ↦ Lifecycle.ok (
        s,
        record w {
          lifecycle =
              Lifecycle.append_log
                (disposition_log env input action_id action_type target status result
                  w.lifecycle.next_log_id)
                w.lifecycle;
        },
      )
    ]

-- One round of the loop.
unfoldable pub apply_item :
    Env → BatchActionInput → Text → Text → ℕ → ℕ → Progress → Lifecycle.Result Progress
unfolding disposition_log
apply_item env input action_type target action_id result_id (s, w) =
    elim (env.find_error result_id) [
      | some e ↦ Lifecycle.ok (add_fail s, w)
      | none ↦ elim (first_where (same_result input.org_id result_id) w.results) [
        | none ↦ Lifecycle.ok (add_skip s, w)
        | some result ↦
            if text_eq result.disposition_status target
            then log_disposition env input action_id action_type target ActionStatus.skipped result
                result_id (add_skip s, w)
            else elim (env.update_error result_id) [
              | some e ↦ Lifecycle.ok (add_fail s, w)
              | none ↦
                  log_disposition env input action_id action_type target ActionStatus.success result
                    result_id
                    (
                      add_success s,
                      record w {
                        results =
                            update_where (same_result input.org_id result_id)
                              (set_disposition env input action_id target) w.results;
                      },
                    )
            ]
      ]
    ]

unfoldable pub apply_items :
    Env → BatchActionInput → Text → Text → List ℕ → ℕ → Progress → Lifecycle.Result Progress
unfolding apply_item
apply_items env input action_type target [] action_id p = Lifecycle.ok p
apply_items env input action_type target (id ∷ ids) action_id p =
    elim (apply_item env input action_type target action_id id p) [
      | Lifecycle.failed e ↦ Lifecycle.failed e
      | Lifecycle.ok p' ↦ apply_items env input action_type target ids action_id p'
    ]

unfoldable pub apply_disposition :
    Env → BatchActionInput → Text → Text → World → Lifecycle.Result BatchActionSummary × World
unfolding run_batch apply_items unique_uint64s
apply_disposition env input action_type target w =
    run_batch env input action_type
      (apply_items env input action_type target (unique_uint64s input.result_ids)) w

unfoldable pub batch_ignore :
    Env → BatchActionInput → World → Lifecycle.Result BatchActionSummary × World
unfolding apply_disposition
batch_ignore env input w = apply_disposition env input ActionType.batch_ignore Disposition.ignored w

unfoldable pub batch_process :
    Env → BatchActionInput → World → Lifecycle.Result BatchActionSummary × World
unfolding apply_disposition
batch_process env input w =
    apply_disposition env input ActionType.batch_process Disposition.processed w
