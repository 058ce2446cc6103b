-- ===== src/Tasks/Create.antt =====
-- tasks/service.go: `CreateWithOutbox` and what it calls.
use article_sentinel.Base.{
  ℕ, suc, ◌+◌, Bool, true, Option, none, some, List, [], ◌∷◌, ◌++◌, ◌==◌, leb, if◌then◌else◌,
  length, sort_by, contains_id,
}
use article_sentinel.Text.{Text, codes, trim_space}
use article_sentinel.Domain.{message_type_run_task}
use article_sentinel.Domain.ArticleState
use article_sentinel.Domain.TaskStatus
use article_sentinel.Domain.OutboxStatus
use article_sentinel.Model.{InspectionTask, InspectionTaskKeyword}
use article_sentinel.Outbox.{Message, Payload}
use article_sentinel.Audit.{Operator}
use article_sentinel.Tasks.{
  World, TaskError, orgid_is_required, keyword_ids_are_required, keyword_ids_not_found, database,
}

pub record CreateInspectionTaskInput : Type 0 where
  pub org_id : ℕ
  pub keyword_ids : List ℕ
  pub publish_time_start : Option ℕ
  pub publish_time_end : Option ℕ
  pub article_id : ℕ
  pub title_like : Text
  pub include_body : Bool
  pub article_state : ℕ

-- What the keyword repository answers: the number of the keywords found and their snapshot in JSON.
pub data Keywords : Type 0 where
  keywords : ℕ → Text → Keywords
  list_failed : Text → Keywords

-- The operator, the keyword repository, the writers of numbers, times and JSON, what a creation
-- stores of a Boolean column with a default (`stored default value`), and the statement of the
-- transaction that the database refuses.
pub record Env : Type 0 where
  pub now : ℕ
  pub operator : Operator
  pub list_by_ids : ℕ → List ℕ → Keywords
  pub itoa : ℕ → Text
  pub build_task_number : ℕ → Text
  pub marshal_input : CreateInspectionTaskInput → Text
  pub marshal_payload : Payload → Text
  pub stored : Bool → Bool → Bool
  pub refused : Option Text

-- The loop of `uniqueUint64s`.
unfoldable pub keep_unique_ids : List ℕ → List ℕ → List ℕ
keep_unique_ids [] result = result
keep_unique_ids (v ∷ values) result =
    keep_unique_ids values
      (if v == 0 then result else if contains_id v result then result else result ++ v ∷ [])

-- `uniqueUint64s`, which sorts by `sort.Slice`.
unfoldable pub unique_ids : List ℕ → List ℕ
unfolding keep_unique_ids
unique_ids values = sort_by leb (keep_unique_ids values [])

pub record PreparedTaskCreate : Type 0 where
  -- with the id 0
  pub task : InspectionTask
  pub keyword_ids : List ℕ
  pub payload : Payload

pub data Prepared : Type 0 where
  prepared : PreparedTaskCreate → Prepared
  not_prepared : TaskError → Prepared

unfoldable pub new_task : Env → CreateInspectionTaskInput → Text → InspectionTask
new_task env input rule_snapshot = record {
  id = 0;
  org_id = input.org_id;
  task_no = env.build_task_number env.now;
  status = TaskStatus.pending;
  article_state_filter =
      env.itoa (if input.article_state == 0 then ArticleState.online else input.article_state);
  publish_time_start = input.publish_time_start;
  publish_time_end = input.publish_time_end;
  article_id = input.article_id;
  title_like = trim_space input.title_like;
  include_body = input.include_body;
  scope_override_mode = [];
  scope_snapshot = [];
  request_snapshot = env.marshal_input input;
  rule_snapshot = rule_snapshot;
  total_scanned = 0;
  hit_articles = 0;
  hit_count = 0;
  skip_count = 0;
  fail_count = 0;
  batch_count = 0;
  started_at = none;
  finished_at = none;
  duration_ms = 0;
  error_message = [];
  creator_id = env.operator.id;
  creator_name = env.operator.name;
}

unfoldable pub prepare_task_create : Env → CreateInspectionTaskInput → Prepared
unfolding new_task unique_ids
prepare_task_create env input =
    let ids = unique_ids input.keyword_ids in
    if input.org_id == 0
    then not_prepared orgid_is_required
    else if length ids == 0
    then not_prepared keyword_ids_are_required
    else elim (env.list_by_ids input.org_id ids) [
      | list_failed e ↦ not_prepared (database e)
      | keywords found snapshot ↦
          if found == length ids
          then prepared record {
            task = new_task env input snapshot;
            keyword_ids = ids;
            payload = record {
              task_id = 0;
              org_id = input.org_id;
              trigger_source = codes "api";
              operator_id = env.operator.id;
              operator_name = env.operator.name;
            };
          }
          else not_prepared keyword_ids_not_found
    ]

unfoldable pub task_keyword_rows : ℕ → ℕ → ℕ → List ℕ → List InspectionTaskKeyword
task_keyword_rows id org_id task_id [] = []
task_keyword_rows id org_id task_id (k ∷ ids) =
    record { id = id; org_id = org_id; task_id = task_id; keyword_id = k }
    ∷ task_keyword_rows (suc id) org_id task_id ids

-- The task as it is created: its id, and the `include_body` that its default leaves, are set in it.
abbrev pub created_task : Env → ℕ → InspectionTask → InspectionTask
created_task env id task = record task { id = id; include_body = env.stored true task.include_body }

-- The rows of the task and of its keywords.
unfoldable pub persist_prepared_task_graph : Env → PreparedTaskCreate → World → World
unfolding task_keyword_rows
persist_prepared_task_graph env p w = record w {
  tasks = w.tasks ++ created_task env w.next_task_id p.task ∷ [];
  task_keywords =
      w.task_keywords
      ++ task_keyword_rows w.next_keyword_row_id p.task.org_id w.next_task_id p.keyword_ids;
  next_task_id = w.next_task_id + 1;
  next_keyword_row_id = w.next_keyword_row_id + length p.keyword_ids;
}

abbrev pub new_message : Env → ℕ → ℕ → PreparedTaskCreate → Message
new_message env id task_id p = record {
  id = id;
  org_id = p.task.org_id;
  task_id = task_id;
  message_type = message_type_run_task;
  status = OutboxStatus.pending;
  payload = env.marshal_payload (record p.payload { task_id = task_id });
  attempt_count = 0;
  claimed_by = [];
  claimed_at = none;
  claim_until = none;
  next_attempt_at = none;
  last_error = [];
  last_error_code = [];
  last_attempt_at = none;
  dead_lettered_at = none;
  dispatched_at = none;
  retained_until = none;
}

pub data Created : Type 0 where
  created : InspectionTask → Message → Created
  not_created : TaskError → Created

-- One transaction: an error in any of its statements, here `refused`, undoes all of them.
unfoldable pub create_with_outbox : Env → CreateInspectionTaskInput → World → Created × World
unfolding prepare_task_create persist_prepared_task_graph
create_with_outbox env input w = elim (prepare_task_create env input) [
  | not_prepared e ↦ (not_created e, w)
  | prepared p ↦ elim env.refused [
    | some e ↦ (not_created (database e), w)
    | none ↦
        let message = new_message env w.next_outbox_id w.next_task_id p in
        let w1 = persist_prepared_task_graph env p w in
        (
          created (created_task env w.next_task_id p.task) message,
          record w1 { outbox = w1.outbox ++ message ∷ []; next_outbox_id = w1.next_outbox_id + 1 },
        )
  ]
]
