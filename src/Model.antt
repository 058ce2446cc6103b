-- ===== src/Model.antt =====
-- The rows of internal/modules/articleinspect/domain/model_inspection.go. The columns `create_at`
-- and `update_at`, which GORM maintains, are left out; the outbox row is in Outbox.
use article_sentinel.Base.{ℕ, ℤ, Bool, Option}
use article_sentinel.Text.{Text}

pub record ChuangqiOrg : Type 0 where
  pub id : ℕ
  pub name : Text
  pub cate_id : ℕ
  pub enabled : Bool
  pub sort : ℤ

pub record InspectionCategory : Type 0 where
  pub id : ℕ
  pub org_id : ℕ
  pub name : Text
  pub enabled : Bool
  pub sort : ℤ
  pub creator_id : ℕ
  pub creator_name : Text
  pub updater_id : ℕ
  pub updater_name : Text

pub record InspectionKeyword : Type 0 where
  pub id : ℕ
  pub org_id : ℕ
  pub name : Text
  pub category_id : ℕ
  pub match_type : Text
  pub risk_level : Text
  pub suggest_action : Text
  pub enabled : Bool
  pub remark : Text
  pub creator_id : ℕ
  pub creator_name : Text
  pub updater_id : ℕ
  pub updater_name : Text

pub record InspectionKeywordScope : Type 0 where
  pub id : ℕ
  pub org_id : ℕ
  pub keyword_id : ℕ
  pub scope : Text

pub record InspectionTask : Type 0 where
  pub id : ℕ
  pub org_id : ℕ
  pub task_no : Text
  pub status : Text
  pub article_state_filter : Text
  pub publish_time_start : Option ℕ
  pub publish_time_end : Option ℕ
  pub article_id : ℕ
  pub title_like : Text
  pub include_body : Bool
  pub scope_override_mode : Text
  pub scope_snapshot : Text
  pub request_snapshot : Text
  pub rule_snapshot : Text
  pub total_scanned : ℕ
  pub hit_articles : ℕ
  pub hit_count : ℕ
  pub skip_count : ℕ
  pub fail_count : ℕ
  pub batch_count : ℕ
  pub started_at : Option ℕ
  pub finished_at : Option ℕ
  pub duration_ms : ℕ
  pub error_message : Text
  pub creator_id : ℕ
  pub creator_name : Text

pub record InspectionTaskKeyword : Type 0 where
  pub id : ℕ
  pub org_id : ℕ
  pub task_id : ℕ
  pub keyword_id : ℕ

pub record InspectionResult : Type 0 where
  pub id : ℕ
  pub org_id : ℕ
  pub task_id : ℕ
  pub article_id : ℕ
  pub article_title : Text
  pub article_state : ℕ
  pub publish_at_time : Option ℕ
  pub risk_level : Text
  pub suggest_action : Text
  pub hit_fields_count : ℕ
  pub hit_keywords_count : ℕ
  pub hit_count : ℕ
  pub disposition_status : Text
  pub latest_action_id : ℕ
  pub latest_operator_id : ℕ
  pub latest_operator_name : Text
  pub latest_action_at : Option ℕ

pub record InspectionResultHit : Type 0 where
  pub id : ℕ
  pub org_id : ℕ
  pub task_id : ℕ
  pub result_id : ℕ
  pub article_id : ℕ
  pub keyword_id : ℕ
  pub keyword_text : Text
  pub category : Text
  pub field_name : Text
  pub match_type : Text
  pub risk_level : Text
  pub suggest_action : Text
  pub matched_text : Text
  pub snippet : Text
  pub position_start : ℕ
  pub position_end : ℕ
  pub rule_snapshot : Text

pub record InspectionAction : Type 0 where
  pub id : ℕ
  pub org_id : ℕ
  pub action_no : Text
  pub action_type : Text
  pub task_id : ℕ
  pub batch_scope : Text
  pub target_count : ℕ
  pub success_count : ℕ
  pub fail_count : ℕ
  pub skip_count : ℕ
  pub status : Text
  pub reason : Text
  pub request_snapshot : Text
  pub operator_id : ℕ
  pub operator_name : Text
  pub request_id : Text
  pub source_ip : Text
  pub started_at : Option ℕ
  pub finished_at : Option ℕ

pub record InspectionOperationLog : Type 0 where
  pub id : ℕ
  pub org_id : ℕ
  pub action_id : ℕ
  pub task_id : ℕ
  pub result_id : ℕ
  pub article_id : ℕ
  pub operation_type : Text
  pub before_state : Text
  pub after_state : Text
  pub status : Text
  pub reason : Text
  pub summary : Text
  pub request_snapshot : Text
  pub operator_id : ℕ
  pub operator_name : Text
  pub request_id : Text
  pub source_ip : Text

pub record InspectionFieldChangeLog : Type 0 where
  pub id : ℕ
  pub org_id : ℕ
  pub action_id : ℕ
  pub task_id : ℕ
  pub result_id : ℕ
  pub article_id : ℕ
  pub field_name : Text
  pub before_value : Text
  pub after_value : Text
  pub diff_summary : Text
  pub operator_id : ℕ
  pub operator_name : Text
  pub request_id : Text
  pub source_ip : Text
