-- ===== src/Worker/Tests.antt =====
-- A task, two articles and a scanner: the theorems on the worker at them.
use article_sentinel.Base.{
  ℕ, true, ◌≡◌, ◌≢◌, ◌⊎◌, refl, arith, none, some, List, [], ◌∷◌, ◌==◌, map, rows_affected,
  delete_where, select_where, if◌then◌else◌,
}
use article_sentinel.Text.{Text, codes, trim_space, is_empty, text_eq}
use article_sentinel.Domain.TaskStatus
use article_sentinel.Domain.ArticleState
use article_sentinel.Model.{InspectionTask}
use article_sentinel.Scan.{CandidateArticle, Hit}
use article_sentinel.Articles.{page, candidate_of, Article, is_candidate}
use article_sentinel.Articles.Bodies.{stored_candidate}
use article_sentinel.Worker.{
  World, same_result, same_hit, persist_article_result, start_task, not_started, task_not_pending,
}
use article_sentinel.Worker.Execute.{
  Env, rules, hits, no_stats, page_filter, scan_items, scan_pages, finished,
}
use article_sentinel.Worker.Start.{start_task-once}
use article_sentinel.Worker.Persist.{persist_article_result-replaces}
use article_sentinel.Worker.Counters.{scan_items-IsCountOf, IsCountOf}
use article_sentinel.Worker.Paging.{scan_pages-scan_items, over_tables}

abbrev task : InspectionTask
task = record {
  id = 5;
  org_id = 1;
  task_no = [];
  status = TaskStatus.pending;
  article_state_filter = [];
  publish_time_start = none;
  publish_time_end = none;
  article_id = 0;
  title_like = [];
  include_body = true;
  scope_override_mode = [];
  scope_snapshot = [];
  request_snapshot = [];
  rule_snapshot = [];
  total_scanned = 0;
  hit_articles = 0;
  hit_count = 0;
  skip_count = 0;
  fail_count = 0;
  batch_count = 0;
  started_at = none;
  finished_at = none;
  duration_ms = 0;
  error_message = [];
  creator_id = 0;
  creator_name = [];
}

abbrev article : ℕ → Article
article i = record {
  id = i;
  org_id = 1;
  title = codes "t";
  short_title = none;
  rich_title = [];
  keyword = [];
  desc = [];
  thumbnail = [];
  state = ArticleState.online;
  publish_at_unix = 0;
  update_at_unix = 0;
}

abbrev two_articles : List Article
two_articles = article 3 ∷ article 4 ∷ []

abbrev hit : Hit
hit = record {
  keyword_id = 1;
  keyword_text = codes "t";
  category = [];
  field_name = codes "title";
  match_type = [];
  risk_level = [];
  suggest_action = [];
  matched_text = codes "t";
  snippet = codes "t";
  position_start = 0;
  position_end = 1;
}

abbrev found : CandidateArticle
found = stored_candidate [] (article 3)

abbrev one_task : World
one_task = record {
  tasks = task ∷ [];
  results = [];
  result_hits = [];
  next_result_id = 1;
  next_hit_id = 1;
}

abbrev env : Env
env = record {
  started_now = 1;
  finished_now = 2;
  start_error = none;
  read_error = none;
  finish_error = none;
  persist_error = λ a. if a.id == 4 then some (codes "down") else none;
  rule_json = record { unmarshal = λ t. none; unmarshal_legacy = λ t. rules [] };
  atoi = λ t. none;
  list_candidates = λ f. page [] 0;
  scan_article = λ a rs. hits (hit ∷ []);
}

once_example :
    let w' = (start_task 1 none none 5 1 one_task).1 in
    start_task 2 none none 5 1 w' ≡ (not_started task_not_pending, w')
unfolding start_task text_eq codes
once_example =
    start_task-once 1 2 5 1 none (record task { status = TaskStatus.running; started_at = some 1 })
      one_task refl none

replaces_example :
    let (e, w') = persist_article_result none 1 5 found hit [] one_task in
    let result = same_result 1 5 3 in
    let hit' = same_hit 1 5 3 in
    (delete_where result w'.results ≡ [])
    × (delete_where hit' w'.result_hits ≡ [])
    × (((e ≡ none)
          × (rows_affected result w'.results ≡ 1)
          × (rows_affected hit' w'.result_hits ≡ 1))
        ⊎ ((e ≢ none) × (w' ≡ one_task)))
unfolding candidate_of
replaces_example = persist_article_result-replaces none 1 5 found hit [] one_task

counts_example :
    IsCountOf env 1 5 []
      (found ∷ stored_candidate [] (article 4) ∷ [])
      no_stats
      (scan_items env 1 5 [] (found ∷ stored_candidate [] (article 4) ∷ []) (no_stats, one_task)).0
counts_example =
    scan_items-IsCountOf env 1 5 [] (found ∷ stored_candidate [] (article 4) ∷ [])
      (no_stats, one_task)

complete_example :
    let like = λ (s : Text) (t : Text). true in
    let e = over_tables like two_articles [] env in
    let rows = select_where (is_candidate like (page_filter 1 task 9 0 1)) two_articles in
    scan_pages e 1 task 9 [] 1 3 0 (no_stats, one_task)
    ≡ finished (scan_items e 1 5 [] (map (stored_candidate []) rows) (no_stats, one_task))
unfolding is_empty trim_space
complete_example =
    scan_pages-scan_items (λ s t. true) two_articles [] env 1 task 9 [] 1
      (omega arith, (omega arith, tt)) (omega arith) (omega arith) (omega arith) 3
      (no_stats, one_task) (omega arith)
