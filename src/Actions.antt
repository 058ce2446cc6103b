-- ===== src/Actions.antt =====
-- internal/modules/articleinspect/actions/service.go and repository.go: the batch actions on results.
pub mod UniqueIds
pub mod Disposition
pub mod Offline
pub mod Counts
pub mod Ids
mod Tests
use article_sentinel.Base.{
  ℕ, suc, ◌+◌, Bool, true, false, ◌&&◌, ◌||◌, Option, none, some, List, [], ◌∷◌, ◌++◌, length, ltb,
  ◌==◌, if◌then◌else◌, update_where,
}
use article_sentinel.Text.{Text, trim_space}
use article_sentinel.Domain.ActionStatus
use article_sentinel.Domain.TaskStatus
use article_sentinel.Model.{InspectionAction, InspectionResult}
use article_sentinel.Audit.{Operator, enrich_action_with_operator}
use article_sentinel.Lifecycle

-- The tables of the lifecycle, and those of the results and the actions.
pub record World : Type 0 where
  pub lifecycle : Lifecycle.World
  pub results : List InspectionResult
  pub actions : List InspectionAction
  pub next_action_id : ℕ

pub record BatchActionInput : Type 0 where
  pub org_id : ℕ
  pub task_id : ℕ
  pub result_ids : List ℕ
  pub operator_id : ℕ
  pub operator_name : Text
  pub reason : Text

pub record BatchActionSummary : Type 0 where
  pub action_id : ℕ
  pub target_count : ℕ
  pub success_count : ℕ
  pub fail_count : ℕ
  pub skip_count : ℕ
  pub status : Text
  pub action_type : Text

-- The clock at the start and at the end, the operator, the writers of numbers, times and JSON, and
-- the statements that the database refuses, for each result the action is about.
pub record Env : Type 0 where
  pub now : ℕ
  pub finished_now : ℕ
  pub operator : Operator
  pub itoa : ℕ → Text
  pub build_action_number : ℕ → Text
  pub action_snapshot : Text → BatchActionInput → Text
  pub log_snapshot : Text → BatchActionInput → ℕ → InspectionResult → Text → Text
  pub create_error : Option Text
  pub find_error : ℕ → Option Text
  pub update_error : ℕ → Option Text
  pub log_error : ℕ → Option Text
  pub lifecycle : ℕ → Lifecycle.Env
  pub commit_error : Option Text
  pub summary_error : Option Text

-- `orgid = ? AND id = ?`
abbrev pub same_result : ℕ → ℕ → InspectionResult → Bool
same_result org_id id row = row.org_id == org_id && row.id == id

unfoldable pub new_action : Env → BatchActionInput → Text → ℕ → InspectionAction
new_action env input action_type id = enrich_action_with_operator env.operator record {
  id = id;
  org_id = input.org_id;
  action_no = env.build_action_number env.now;
  action_type = action_type;
  task_id = input.task_id;
  batch_scope = [];
  target_count = length input.result_ids;
  success_count = 0;
  fail_count = 0;
  skip_count = 0;
  status = ActionStatus.running;
  reason = trim_space input.reason;
  request_snapshot = env.action_snapshot action_type input;
  operator_id = input.operator_id;
  operator_name = trim_space input.operator_name;
  request_id = [];
  source_ip = [];
  started_at = some env.now;
  finished_at = none;
}

abbrev pub create_action : InspectionAction → World → World
create_action action w = record w {
  actions = w.actions ++ action ∷ [];
  next_action_id = w.next_action_id + 1;
}

abbrev pub new_summary : BatchActionInput → Text → ℕ → BatchActionSummary
new_summary input action_type action_id = record {
  action_id = action_id;
  target_count = length input.result_ids;
  success_count = 0;
  fail_count = 0;
  skip_count = 0;
  status = [];
  action_type = action_type;
}

abbrev pub add_success : BatchActionSummary → BatchActionSummary
add_success s = record s { success_count = s.success_count + 1 }

abbrev pub add_fail : BatchActionSummary → BatchActionSummary
add_fail s = record s { fail_count = s.fail_count + 1 }

abbrev pub add_skip : BatchActionSummary → BatchActionSummary
add_skip s = record s { skip_count = s.skip_count + 1 }

unfoldable pub summary_status : BatchActionSummary → Text
summary_status s =
    let first =
      if ltb 0 s.fail_count && ltb 0 s.success_count
      then TaskStatus.partial_success
      else ActionStatus.success in
    if ltb 0 s.fail_count && s.success_count == 0 then ActionStatus.failed else first

abbrev pub set_summary : ℕ → BatchActionSummary → InspectionAction → InspectionAction
set_summary now s row = record row {
  status = s.status;
  success_count = s.success_count;
  fail_count = s.fail_count;
  skip_count = s.skip_count;
  finished_at = some now;
}

-- `UpdateActionSummary`
unfoldable pub update_action_summary :
    Env → BatchActionSummary → World → Lifecycle.Result BatchActionSummary × World
update_action_summary env s w =
    if s.action_id == 0
    then (Lifecycle.failed Lifecycle.invalid_action_input, w)
    else elim env.summary_error [
      | some e ↦ (Lifecycle.failed (Lifecycle.database e), w)
      | none ↦ (
        Lifecycle.ok s,
        record w {
          actions =
              update_where (λ a. a.id == s.action_id) (set_summary env.finished_now s) w.actions;
        },
      )
    ]

abbrev pub Progress : Type 0
Progress = BatchActionSummary × World

-- What the transaction over the results comes to: it is rolled back on an error.
unfoldable pub conclude :
    Env → Lifecycle.Result Progress → World → Lifecycle.Result BatchActionSummary × World
unfolding update_action_summary summary_status
conclude env (Lifecycle.failed e) w = (Lifecycle.failed e, w)
conclude env (Lifecycle.ok (s, w')) w = elim env.commit_error [
  | some e ↦ (Lifecycle.failed (Lifecycle.database e), w)
  | none ↦ update_action_summary env (record s { status = summary_status s }) w'
]

-- A batch action, whose loop in the transaction is `items`.
unfoldable pub run_batch :
    Env
    → BatchActionInput
    → Text
    → (ℕ → Progress → Lifecycle.Result Progress)
    → World
    → Lifecycle.Result BatchActionSummary × World
unfolding new_action conclude
run_batch env input action_type items w = elim input.result_ids [
  | [] ↦ (Lifecycle.failed Lifecycle.invalid_action_input, w)
  | id ∷ ids ↦
      if input.org_id == 0
      then (Lifecycle.failed Lifecycle.invalid_action_input, w)
      else elim env.create_error [
        | some e ↦ (Lifecycle.failed (Lifecycle.database e), w)
        | none ↦
            let action_id = w.next_action_id in
            let w1 = create_action (new_action env input action_type action_id) w in
            conclude env (items action_id (new_summary input action_type action_id, w1)) w1
      ]
]
