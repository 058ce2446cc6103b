-- ===== src/Worker.antt =====
-- internal/modules/articleinspect/worker/executor.go: the tables that a worker reads and writes,
-- the result of one article, and the statements on the task.
pub mod Execute
pub mod Start
pub mod Paging
pub mod Persist
pub mod Counters
mod Tests
use article_sentinel.Base.{
  ℕ, suc, ◌+◌, Bool, true, false, ◌&&◌, ◌||◌, Option, none, some, List, [], ◌∷◌, ◌++◌, leb, ltb,
  ◌==◌, if◌then◌else◌, length, update_where, delete_where, rows_affected, first_where, contains_id,
}
use article_sentinel.Text.{Text, text_eq, trim_space}
use article_sentinel.Domain.TaskStatus
use article_sentinel.Domain.Disposition
use article_sentinel.Model.{InspectionTask, InspectionResult, InspectionResultHit}
use article_sentinel.Scan.{CandidateArticle, KeywordRule, Hit}

pub record World : Type 0 where
  pub tasks : List InspectionTask
  pub results : List InspectionResult
  pub result_hits : List InspectionResultHit
  pub next_result_id : ℕ
  pub next_hit_id : ℕ

pub data WorkerError : Type 0 where
  invalid_task_input task_not_pending record_not_found rule_snapshot_required : WorkerError
  database json listing : Text → WorkerError

-- The counters of `ExecuteTask`.
pub record Stats : Type 0 where
  pub total_scanned : ℕ
  pub hit_articles : ℕ
  pub hit_count : ℕ
  pub fail_count : ℕ

-- A `map` used as a set of the keys seen, whose size is counted.
contains_text : Text → List Text → Bool
contains_text a [] = false
contains_text a (b ∷ seen) = text_eq a b || contains_text a seen

fields_seen : List Hit → List Text → List Text
fields_seen [] seen = seen
fields_seen (h ∷ hits) seen =
    fields_seen hits (if contains_text h.field_name seen then seen else h.field_name ∷ seen)

unfoldable pub unique_field_count : List Hit → ℕ
unfolding fields_seen contains_text
unique_field_count hits = length (fields_seen hits [])

keywords_seen : List Hit → List ℕ → List ℕ
keywords_seen [] seen = seen
keywords_seen (h ∷ hits) seen =
    keywords_seen hits (if contains_id h.keyword_id seen then seen else h.keyword_id ∷ seen)

unfoldable pub unique_keyword_count : List Hit → ℕ
unfolding keywords_seen
unique_keyword_count hits = length (keywords_seen hits [])

-- `first` is `hits[0]` and `hits` the rest of them: no caller passes an empty slice.
unfoldable pub new_result : ℕ → ℕ → ℕ → CandidateArticle → Hit → List Hit → InspectionResult
unfolding unique_field_count unique_keyword_count
new_result id org_id task_id article first hits = record {
  id = id;
  org_id = org_id;
  task_id = task_id;
  article_id = article.id;
  article_title = article.title;
  article_state = article.state;
  publish_at_time = article.publish_at_time;
  risk_level = first.risk_level;
  suggest_action = first.suggest_action;
  hit_fields_count = unique_field_count (first ∷ hits);
  hit_keywords_count = unique_keyword_count (first ∷ hits);
  hit_count = length (first ∷ hits);
  disposition_status = Disposition.pending;
  latest_action_id = 0;
  latest_operator_id = 0;
  latest_operator_name = [];
  latest_action_at = none;
}

unfoldable pub new_result_hits : ℕ → ℕ → ℕ → ℕ → ℕ → List Hit → List InspectionResultHit
new_result_hits id org_id task_id result_id article_id [] = []
new_result_hits id org_id task_id result_id article_id (h ∷ hits) =
    record {
      id = id;
      org_id = org_id;
      task_id = task_id;
      result_id = result_id;
      article_id = article_id;
      keyword_id = h.keyword_id;
      keyword_text = h.keyword_text;
      category = h.category;
      field_name = h.field_name;
      match_type = h.match_type;
      risk_level = h.risk_level;
      suggest_action = h.suggest_action;
      matched_text = h.matched_text;
      snippet = h.snippet;
      position_start = h.position_start;
      position_end = h.position_end;
      rule_snapshot = [];
    }
    ∷ new_result_hits (suc id) org_id task_id result_id article_id hits

-- `orgid = ? AND task_id = ? AND article_id = ?`
abbrev pub same_result : ℕ → ℕ → ℕ → InspectionResult → Bool
same_result org_id task_id article_id row =
    row.org_id == org_id && row.task_id == task_id && row.article_id == article_id

abbrev pub same_hit : ℕ → ℕ → ℕ → InspectionResultHit → Bool
same_hit org_id task_id article_id row =
    row.org_id == org_id && row.task_id == task_id && row.article_id == article_id

-- One transaction: an error in any of its statements, here `refused`, rolls all of them back.
unfoldable pub persist_article_result :
    Option Text → ℕ → ℕ → CandidateArticle → Hit → List Hit → World → Option WorkerError × World
unfolding new_result new_result_hits
persist_article_result (some e) org_id task_id article first hits w = (some (database e), w)
persist_article_result none org_id task_id article first hits w = (
  none,
  record w {
    results =
        delete_where (same_result org_id task_id article.id) w.results
        ++ new_result w.next_result_id org_id task_id article first hits ∷ [];
    result_hits =
        delete_where (same_hit org_id task_id article.id) w.result_hits
        ++ new_result_hits w.next_hit_id org_id task_id w.next_result_id article.id (first ∷ hits);
    next_result_id = w.next_result_id + 1;
    next_hit_id = w.next_hit_id + length (first ∷ hits);
  },
)

unfoldable pub resolve_task_status : ℕ → ℕ → Text
resolve_task_status total_scanned fail_count =
    if total_scanned == 0
    then TaskStatus.success
    else if fail_count == 0
    then TaskStatus.success
    else if leb total_scanned fail_count
    then TaskStatus.failed
    else TaskStatus.partial_success

-- `id = ? AND orgid = ?`
abbrev pub same_task : ℕ → ℕ → InspectionTask → Bool
same_task task_id org_id row = row.id == task_id && row.org_id == org_id

-- `id = ? AND orgid = ? AND status = 'pending'`
abbrev pub startable : ℕ → ℕ → InspectionTask → Bool
startable task_id org_id row =
    row.id == task_id && row.org_id == org_id && text_eq row.status TaskStatus.pending

abbrev pub set_running : ℕ → InspectionTask → InspectionTask
set_running now row = record row { status = TaskStatus.running; started_at = some now }

pub data Started : Type 0 where
  started : InspectionTask → Started
  not_started : WorkerError → Started

unfoldable pub start_task : ℕ → Option Text → Option Text → ℕ → ℕ → World → Started × World
start_task now update_error read_error task_id org_id w = elim update_error [
  | some e ↦ (not_started (database e), w)
  | none ↦
      if rows_affected (startable task_id org_id) w.tasks == 0
      then (not_started task_not_pending, w)
      else let w' = record w {
        tasks = update_where (startable task_id org_id) (set_running now) w.tasks;
      } in
        elim read_error [
          | some e ↦ (not_started (database e), w')
          | none ↦ elim (first_where (same_task task_id org_id) w'.tasks) [
            | none ↦ (not_started record_not_found, w')
            | some task ↦ (started task, w')
          ]
        ]
]

abbrev pub set_finished : ℕ → Text → Stats → Text → InspectionTask → InspectionTask
set_finished now status stats message row = record row {
  status = status;
  total_scanned = stats.total_scanned;
  hit_articles = stats.hit_articles;
  hit_count = stats.hit_count;
  fail_count = stats.fail_count;
  finished_at = some now;
  error_message = trim_space message;
}

unfoldable pub finish_task :
    ℕ → Option Text → ℕ → ℕ → Text → Stats → Text → World → Option WorkerError × World
finish_task now refused task_id org_id status stats message w = elim refused [
  | some e ↦ (some (database e), w)
  | none ↦ (
    none,
    record w {
      tasks =
          update_where (same_task task_id org_id) (set_finished now status stats message) w.tasks;
    },
  )
]
