-- ===== src/Worker/Execute.antt =====
-- worker/executor.go: `ExecuteTask`, over the interfaces of its scanner and its article repository;
-- worker/rules.go.
use article_sentinel.Base.{
  ℕ, zero, suc, ◌+◌, ◌%◌, ◌||◌, Option, none, some, List, [], ◌∷◌, ltb, ◌==◌, if◌then◌else◌, length,
}
use article_sentinel.Text.{Text, trim_space, is_empty}
use article_sentinel.Domain.ArticleState
use article_sentinel.Domain.TaskStatus
use article_sentinel.Model.{InspectionTask}
use article_sentinel.Scan.{CandidateArticle, KeywordRule, Hit}
use article_sentinel.Articles.{CandidateArticleFilter, Listing, page, list_failed}
use article_sentinel.Worker.{
  World, WorkerError, invalid_task_input, rule_snapshot_required, listing, Stats, started,
  not_started, persist_article_result, resolve_task_status, start_task, finish_task,
}

pub data ScanResult : Type 0 where
  hits : List Hit → ScanResult
  scan_failed : Text → ScanResult

pub data Rules : Type 0 where
  rules : List KeywordRule → Rules
  bad_rules : WorkerError → Rules

-- What `encoding/json` makes of a snapshot, in the present and in the legacy layout, of which both
-- have the same fields.
pub record RuleJson : Type 0 where
  pub unmarshal : Text → Option (List KeywordRule)
  pub unmarshal_legacy : Text → Rules

unfoldable pub decode_task_rules : RuleJson → Text → Rules
decode_task_rules j snapshot =
    if is_empty (trim_space snapshot)
    then bad_rules rule_snapshot_required
    else elim (j.unmarshal snapshot) [
      | some (r ∷ rs) ↦ rules (r ∷ rs)
      | some [] ↦ j.unmarshal_legacy snapshot
      | none ↦ j.unmarshal_legacy snapshot
    ]

-- `atoi` is `strconv.Atoi`: a number, as its 64 bits, or none. The conversion to `int8` keeps the
-- low byte of it.
unfoldable pub parse_article_state_filter : (Text → Option ℕ) → Text → ℕ
parse_article_state_filter atoi value =
    let v = trim_space value in
    if is_empty v
    then ArticleState.online
    else elim (atoi v) [ none ↦ ArticleState.online | some n ↦ n % 256 ]

-- What a worker is given: its interfaces, the clock at the start and at the end, and the statements
-- that the database refuses.
pub record Env : Type 0 where
  pub started_now : ℕ
  pub finished_now : ℕ
  pub start_error : Option Text
  pub read_error : Option Text
  pub finish_error : Option Text
  pub persist_error : CandidateArticle → Option Text
  pub rule_json : RuleJson
  pub atoi : Text → Option ℕ
  pub list_candidates : CandidateArticleFilter → Listing
  pub scan_article : CandidateArticle → List KeywordRule → ScanResult

abbrev pub Progress : Type 0
Progress = Stats × World

abbrev pub add_fail : Stats → Stats
add_fail s = record s { fail_count = s.fail_count + 1 }

-- One round of the inner loop.
unfoldable pub scan_item : Env → ℕ → ℕ → List KeywordRule → CandidateArticle → Progress → Progress
unfolding persist_article_result
scan_item env org_id task_id rs article (stats, w) =
    let s = record stats { total_scanned = stats.total_scanned + 1 } in
    elim (env.scan_article article rs) [
      | scan_failed e ↦ (add_fail s, w)
      | hits [] ↦ (s, w)
      | hits (h ∷ hs) ↦
          let found = record s {
            hit_articles = s.hit_articles + 1;
            hit_count = s.hit_count + length (h ∷ hs);
          } in
          let (e, w') =
            persist_article_result (env.persist_error article) org_id task_id article h hs w in
          (elim e [ none ↦ found | some x ↦ add_fail found ], w')
    ]

unfoldable pub scan_items :
    Env → ℕ → ℕ → List KeywordRule → List CandidateArticle → Progress → Progress
unfolding scan_item
scan_items env org_id task_id rs [] p = p
scan_items env org_id task_id rs (a ∷ items) p =
    scan_items env org_id task_id rs items (scan_item env org_id task_id rs a p)

-- `out_of_fuel` is no behaviour of the code.
pub data Paged : Type 0 where
  finished : Progress → Paged
  stopped : Text → Progress → Paged
  out_of_fuel : Paged

abbrev pub page_filter : ℕ → InspectionTask → ℕ → ℕ → ℕ → CandidateArticleFilter
page_filter org_id task state after_id batch_size = record {
  org_id = org_id;
  article_state = state;
  publish_time_start = task.publish_time_start;
  publish_time_end = task.publish_time_end;
  article_id = task.article_id;
  title_like = task.title_like;
  after_id = after_id;
  limit = batch_size;
}

-- The outer loop, from the cursor `after_id` on.
unfoldable pub scan_pages :
    Env → ℕ → InspectionTask → ℕ → List KeywordRule → ℕ → ℕ → ℕ → Progress → Paged
unfolding scan_items
scan_pages env org_id task state rs batch_size zero after_id p = out_of_fuel
scan_pages env org_id task state rs batch_size (suc fuel) after_id p =
    elim (env.list_candidates (page_filter org_id task state after_id batch_size)) [
      | list_failed e ↦ stopped e p
      | page [] next_cursor ↦ finished p
      | page (a ∷ items) next_cursor ↦
          let p' = scan_items env org_id task.id rs (a ∷ items) p in
          let rest = scan_pages env org_id task state rs batch_size fuel next_cursor p' in
          if ltb (length (a ∷ items)) batch_size || next_cursor == 0 || next_cursor == after_id
          then finished p'
          else rest
    ]

abbrev pub no_stats : Stats
no_stats = record { total_scanned = 0; hit_articles = 0; hit_count = 0; fail_count = 0 }

-- The end of `ExecuteTask`; `none` in front is a run out of fuel.
unfoldable pub conclude : Env → ℕ → ℕ → Paged → Option (Option WorkerError × World)
unfolding finish_task resolve_task_status
conclude env org_id task_id (finished (s, w)) = some (
    finish_task env.finished_now env.finish_error task_id org_id
      (resolve_task_status s.total_scanned s.fail_count) s [] w)
conclude env org_id task_id (stopped e (s, w)) =
    let (ignored, w') =
      finish_task env.finished_now env.finish_error task_id org_id TaskStatus.failed s e w in
    some (some (listing e), w')
conclude env org_id task_id out_of_fuel = none

-- The task has been started.
unfoldable pub run_task :
    Env
    → ℕ
    → ℕ
    → ℕ
    → InspectionTask
    → (WorkerError → Text)
    → World
    → Option (Option WorkerError × World)
unfolding decode_task_rules parse_article_state_filter scan_pages conclude finish_task
run_task env batch_size fuel org_id task error_text w =
    elim (decode_task_rules env.rule_json task.rule_snapshot) [
      | bad_rules e ↦
          let (ignored, w') =
            finish_task env.finished_now env.finish_error task.id org_id TaskStatus.failed no_stats
              (error_text e) w in
          some (some e, w')
      | rules rs ↦ conclude env org_id task.id (
          scan_pages env org_id task (parse_article_state_filter env.atoi task.article_state_filter)
            rs (if batch_size == 0 then 100 else batch_size) fuel 0 (no_stats, w))
    ]

-- `batch_size` is 0 where the executor's is not positive; `error_text` is `err.Error()`.
unfoldable pub execute_task :
    Env → ℕ → ℕ → (WorkerError → Text) → ℕ → ℕ → World → Option (Option WorkerError × World)
unfolding start_task run_task
execute_task env batch_size fuel error_text task_id org_id w =
    if task_id == 0 || org_id == 0
    then some (some invalid_task_input, w)
    else let (s, w') = start_task env.started_now env.start_error env.read_error task_id org_id w in
      elim s [
        | not_started e ↦ some (some e, w')
        | started task ↦ run_task env batch_size fuel org_id task error_text w'
      ]
