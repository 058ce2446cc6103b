-- ===== src/Lifecycle.antt =====
-- internal/modules/articleinspect/lifecycle/service.go: the operations that change an article.
pub mod Diff
pub mod Fields
pub mod Offline
pub mod Update
pub mod Tests
use article_sentinel.Base.{
  ℕ, suc, ◌+◌, Bool, true, false, ◌&&◌, ◌||◌, Option, none, some, List, [], ◌∷◌, ◌++◌, map, length,
  ◌==◌, if◌then◌else◌, first_where, update_where,
}
use article_sentinel.Text.{Text, trim_space}
use article_sentinel.Domain.ArticleState
use article_sentinel.Domain.ActionType
use article_sentinel.Domain.ActionStatus
use article_sentinel.Model.{InspectionOperationLog, InspectionFieldChangeLog}
use article_sentinel.Articles.{Article, ArticleInfo, nullable_string_to_string}
use article_sentinel.Audit.{
  Operator, enrich_operation_log_with_operator, enrich_field_change_log_with_operator,
  build_operation_log_summary,
}
use article_sentinel.Lifecycle.Diff.{EditableArticleFields, FieldChange, diff_editable_fields}

-- The tables of articles and of logs.
pub record World : Type 0 where
  pub articles : List Article
  pub infos : List ArticleInfo
  pub operation_logs : List InspectionOperationLog
  pub field_change_logs : List InspectionFieldChangeLog
  pub next_log_id : ℕ
  pub next_change_id : ℕ

pub data ActionError : Type 0 where
  invalid_action_input record_not_found not_offlinable : ActionError
  database : Text → ActionError

pub data Result {ℓ} (A : Type ℓ) : Type ℓ where
  ok : A → Result A
  failed : ActionError → Result A

-- The inputs `OfflineArticleInput` and `RepublishArticleInput`, which have the same fields.
pub record ArticleInput : Type 0 where
  pub org_id : ℕ
  pub article_id : ℕ
  pub task_id : ℕ
  pub result_id : ℕ
  pub action_id : ℕ
  pub operator_id : ℕ
  pub operator_name : Text
  pub reason : Text

pub record UpdateArticleFieldsInput : Type 0 where
  pub of : ArticleInput
  pub fields : EditableArticleFields

pub record LifecycleActionResult : Type 0 where
  pub status : Text
  pub article_id : ℕ
  pub before_state : ℕ
  pub after_state : ℕ

-- The operator of the request, the decimal and JSON writers, and the statements that the database
-- refuses.
pub record Env : Type 0 where
  pub operator : Operator
  pub itoa : ℕ → Text
  pub snapshot : Text → ArticleInput → Option EditableArticleFields → Text
  pub read_error : Option Text
  pub info_error : Option Text
  pub update_error : Option Text
  pub body_error : Option Text
  pub change_log_error : Option Text
  pub log_error : Option Text

-- `orgid = ? AND id = ?`
abbrev pub same_article : ℕ → ℕ → Article → Bool
same_article org_id article_id row = row.org_id == org_id && row.id == article_id

abbrev pub read_article : Env → ArticleInput → World → Result Article
read_article env input w = elim env.read_error [
  | some e ↦ failed (database e)
  | none ↦ elim (first_where (same_article input.org_id input.article_id) w.articles) [
    | none ↦ failed record_not_found
    | some a ↦ ok a
  ]
]

abbrev pub set_state : ℕ → Article → Article
set_state state row = record row { state = state }

-- `writeOperationLogWithDB`
unfoldable pub operation_log :
    Env → ℕ → ArticleInput → ℕ → Text → ℕ → ℕ → Text → Text → InspectionOperationLog
operation_log env id input article_id operation_type before_state after_state status
      request_snapshot =
    enrich_operation_log_with_operator env.operator record {
      id = id;
      org_id = input.org_id;
      action_id = input.action_id;
      task_id = input.task_id;
      result_id = input.result_id;
      article_id = article_id;
      operation_type = operation_type;
      before_state = env.itoa before_state;
      after_state = env.itoa after_state;
      status = status;
      reason = input.reason;
      summary =
          build_operation_log_summary env.itoa operation_type status (env.itoa before_state)
            (env.itoa after_state) input.reason input.task_id article_id input.result_id;
      request_snapshot = request_snapshot;
      operator_id = input.operator_id;
      operator_name = trim_space input.operator_name;
      request_id = [];
      source_ip = [];
    }

abbrev pub append_log : InspectionOperationLog → World → World
append_log log w = record w {
  operation_logs = w.operation_logs ++ log ∷ [];
  next_log_id = w.next_log_id + 1;
}

-- `writeOperationLog`, whose error the callers drop.
unfoldable pub write_operation_log :
    Env → ArticleInput → ℕ → Text → ℕ → ℕ → Text → Text → World → World
unfolding operation_log
write_operation_log env input article_id operation_type before_state after_state status
      request_snapshot w =
    elim env.log_error [
      | some e ↦ w
      | none ↦
          append_log
            (operation_log env w.next_log_id input article_id operation_type before_state
              after_state status request_snapshot)
            w
    ]

-- The article is read, moved to `target` and the step is logged.
unfoldable pub move_article :
    Env → ArticleInput → Text → ℕ → Article → World → Result LifecycleActionResult × World
unfolding write_operation_log
move_article env input operation_type target article w = elim env.update_error [
  | some e ↦ (failed (database e), w)
  | none ↦ (
    ok record {
      status = ActionStatus.success;
      article_id = article.id;
      before_state = article.state;
      after_state = target;
    },
    write_operation_log env input article.id operation_type article.state target
        ActionStatus.success (env.snapshot operation_type input none)
        (record w {
          articles =
              update_where (same_article input.org_id input.article_id) (set_state target)
                w.articles;
        }),
  )
]

abbrev pub skipped : Article → Result LifecycleActionResult
skipped article = ok record {
  status = ActionStatus.skipped;
  article_id = article.id;
  before_state = article.state;
  after_state = article.state;
}

unfoldable pub offline_article : Env → ArticleInput → World → Result LifecycleActionResult × World
unfolding move_article write_operation_log
offline_article env input w =
    if input.org_id == 0 || input.article_id == 0
    then (failed invalid_action_input, w)
    else elim (read_article env input w) [
      | failed e ↦ (failed e, w)
      | ok article ↦
          if article.state == ArticleState.offline || article.state == ArticleState.offline_sync
          then (
            skipped article,
            write_operation_log env input article.id ActionType.offline article.state article.state
                ActionStatus.skipped (env.snapshot ActionType.offline input none) w,
          )
          else if article.state == ArticleState.online
          then move_article env input ActionType.offline ArticleState.offline article w
          else (failed not_offlinable, w)
    ]

-- `republish_target_state` is 1, audit pending, as `NewLifecycleService` sets it.
unfoldable pub republish_article :
    ℕ → Env → ArticleInput → World → Result LifecycleActionResult × World
unfolding move_article
republish_article republish_target_state env input w =
    let target =
      if republish_target_state == 0 then ArticleState.audit_pending else republish_target_state in
    if input.org_id == 0 || input.article_id == 0
    then (failed invalid_action_input, w)
    else elim (read_article env input w) [
      | failed e ↦ (failed e, w)
      | ok article ↦
          if article.state == target
          then (skipped article, w)
          else move_article env input ActionType.republish target article w
    ]
