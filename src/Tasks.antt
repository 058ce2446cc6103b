-- ===== src/Tasks.antt =====
-- internal/modules/articleinspect/tasks/service.go: tasks are created together with their outbox
-- message, and deleted together with all that they have written.
pub mod Create
pub mod Atomic
pub mod Delete
mod Tests
use article_sentinel.Base.{ℕ, Bool, Option, List}
use article_sentinel.Text.{Text}
use article_sentinel.Model.{
  InspectionTask, InspectionTaskKeyword, InspectionResult, InspectionResultHit, InspectionAction,
  InspectionOperationLog, InspectionFieldChangeLog,
}
use article_sentinel.Outbox.{Message}

pub record World : Type 0 where
  pub tasks : List InspectionTask
  pub task_keywords : List InspectionTaskKeyword
  pub outbox : List Message
  pub result_hits : List InspectionResultHit
  pub results : List InspectionResult
  pub operation_logs : List InspectionOperationLog
  pub field_change_logs : List InspectionFieldChangeLog
  pub actions : List InspectionAction
  pub next_task_id : ℕ
  pub next_keyword_row_id : ℕ
  pub next_outbox_id : ℕ

pub data TaskError : Type 0 where
  invalid_task_input orgid_is_required keyword_ids_are_required keyword_ids_not_found : TaskError
  task_not_found task_delete_not_allowed : TaskError
  database : Text → TaskError
