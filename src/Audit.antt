-- ===== src/Audit.antt =====
-- internal/modules/articleinspect/audit/writer.go, shared/operator.go, and the records of
-- internal/identity that they read.
use article_sentinel.Base.{ℕ, ◌&&◌, Option, none, some, List, [], ◌∷◌, ◌++◌, ◌==◌, if◌then◌else◌}
use article_sentinel.Text.{Text, text_eq, is_empty, trim_space, codes}
use article_sentinel.Domain.ActionType
use article_sentinel.Domain.ActionStatus
use article_sentinel.Model.{InspectionAction, InspectionOperationLog, InspectionFieldChangeLog}

pub record Actor : Type 0 where
  pub id : ℕ
  pub username : Text
  pub role : Text
  pub status : Text

pub record Principal : Type 0 where
  pub kind : Text
  pub user_id : ℕ
  pub username : Text
  pub role : Text
  pub status : Text

pub record RequestMetadata : Type 0 where
  pub request_id : Text
  pub source_ip : Text

pub record Operator : Type 0 where
  pub id : ℕ
  pub name : Text
  pub role : Text
  pub request_id : Text
  pub source_ip : Text

-- The context of a request, as what it holds of these.
unfoldable pub resolve_operator :
    Option Actor → Option Principal → Option RequestMetadata → Operator
resolve_operator actor principal metadata =
    let first : Operator = elim actor [
      | none ↦ record { id = 0; name = []; role = []; request_id = []; source_ip = [] }
      | some a ↦ record {
        id = a.id;
        name = trim_space a.username;
        role = trim_space a.role;
        request_id = [];
        source_ip = [];
      }
    ] in
    let second : Operator = elim principal [
      | none ↦ first
      | some p ↦ record first {
        id = if first.id == 0 then p.user_id else first.id;
        name = if is_empty first.name then trim_space p.username else first.name;
        role = if is_empty first.role then trim_space p.role else first.role;
      }
    ] in
    elim metadata [
      | none ↦ second
      | some m ↦ record second {
        request_id = trim_space m.request_id;
        source_ip = trim_space m.source_ip;
      }
    ]

abbrev pub enrich_action_with_operator : Operator → InspectionAction → InspectionAction
enrich_action_with_operator operator action = record action {
  operator_id = if action.operator_id == 0 then operator.id else action.operator_id;
  operator_name =
      if is_empty (trim_space action.operator_name) then operator.name else action.operator_name;
  request_id = operator.request_id;
  source_ip = operator.source_ip;
}

abbrev pub enrich_operation_log_with_operator :
    Operator → InspectionOperationLog → InspectionOperationLog
enrich_operation_log_with_operator operator log = record log {
  operator_id = if log.operator_id == 0 then operator.id else log.operator_id;
  operator_name =
      if is_empty (trim_space log.operator_name) then operator.name else log.operator_name;
  request_id = operator.request_id;
  source_ip = operator.source_ip;
}

abbrev pub enrich_field_change_log_with_operator :
    Operator → InspectionFieldChangeLog → InspectionFieldChangeLog
enrich_field_change_log_with_operator operator log = record log {
  operator_id = if log.operator_id == 0 then operator.id else log.operator_id;
  operator_name =
      if is_empty (trim_space log.operator_name) then operator.name else log.operator_name;
  request_id = operator.request_id;
  source_ip = operator.source_ip;
}

unfoldable pub resolve_task_id : ℕ → ℕ → ℕ
resolve_task_id request_task_id result_task_id =
    if result_task_id == 0 then request_task_id else result_task_id

unfoldable pub operation_type_label : Text → Text
operation_type_label value =
    let v = trim_space value in
    if text_eq v ActionType.batch_ignore
    then codes "ignore"
    else if text_eq v ActionType.batch_process
    then codes "process"
    else if text_eq v ActionType.offline
    then codes "offline"
    else if text_eq v ActionType.rectify
    then codes "rectify"
    else if text_eq v ActionType.republish
    then codes "republish"
    else v

unfoldable pub operation_status_label : Text → Text
operation_status_label value =
    let v = trim_space value in
    if text_eq v ActionStatus.success
    then codes "succeeded"
    else if text_eq v ActionStatus.skipped
    then codes "skipped"
    else if text_eq v ActionStatus.failed
    then codes "failed"
    else v

-- `strings.Join`
unfoldable pub join : Text → List Text → Text
join sep [] = []
join sep (s ∷ []) = s
join sep (s ∷ t ∷ parts) = s ++ sep ++ join sep (t ∷ parts)

scope_part : (ℕ → Text) → Text → ℕ → List Text
scope_part itoa name id = if id == 0 then [] else (name ++ itoa id) ∷ []

or_dash : Text → Text
or_dash s = if is_empty s then codes "-" else s

-- `itoa` writes a number in decimal.
unfoldable pub build_operation_log_summary :
    (ℕ → Text) → Text → Text → Text → Text → Text → ℕ → ℕ → ℕ → Text
unfolding scope_part or_dash
build_operation_log_summary itoa operation_type status before_state after_state reason task_id
      article_id result_id =
    let title = trim_space (
      join (codes " ")
        (operation_type_label operation_type ∷ operation_status_label status ∷ [])) in
    let scope =
      scope_part itoa (codes "task #") task_id
      ++ scope_part itoa (codes "article #") article_id
      ++ scope_part itoa (codes "result #") result_id in
    let scoped : Text = elim scope [
      | [] ↦ title
      | s ∷ parts ↦ title ++ codes " for " ++ join (codes ", ") (s ∷ parts)
    ] in
    let before = trim_space before_state in
    let after = trim_space after_state in
    let moved =
      if is_empty before && is_empty after
      then scoped
      else scoped ++ codes " (" ++ or_dash before ++ codes " -> " ++ or_dash after ++ codes ")" in
    let why = trim_space reason in
    trim_space (if is_empty why then moved else moved ++ codes ": " ++ why)
