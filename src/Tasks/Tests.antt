-- ===== src/Tasks/Tests.antt =====
-- One task, created and deleted: the theorems on tasks at it.
use article_sentinel.Base.{false, ◌≡◌, ◌≢◌, ◌⊎◌, none, [], ◌∷◌, length}
use article_sentinel.Tasks.{World}
use article_sentinel.Tasks.Create.{CreateInspectionTaskInput, Env, keywords, create_with_outbox}
use article_sentinel.Tasks.Atomic.{IsCreated, create_with_outbox-IsCreated}
use article_sentinel.Tasks.Delete.{delete_task, IsCleared, delete_task-IsCleared}

abbrev empty : World
empty = record {
  tasks = [];
  task_keywords = [];
  outbox = [];
  result_hits = [];
  results = [];
  operation_logs = [];
  field_change_logs = [];
  actions = [];
  next_task_id = 1;
  next_keyword_row_id = 1;
  next_outbox_id = 1;
}

abbrev env : Env
env = record {
  now = 1;
  operator = record { id = 0; name = []; role = []; request_id = []; source_ip = [] };
  list_by_ids = λ o ids. keywords (length ids) [];
  itoa = λ n. n ∷ [];
  build_task_number = λ n. [];
  marshal_input = λ i. [];
  marshal_payload = λ p. p.task_id ∷ [];
  stored = λ d v. d;
  refused = none;
}

abbrev input : CreateInspectionTaskInput
input = record {
  org_id = 1;
  keyword_ids = 4 ∷ 2 ∷ [];
  publish_time_start = none;
  publish_time_end = none;
  article_id = 0;
  title_like = [];
  include_body = false;
  article_state = 0;
}

created_example : let (c, w') = create_with_outbox env input empty in IsCreated env input empty w' c
created_example = create_with_outbox-IsCreated env input empty

abbrev filled : World
filled = (create_with_outbox env input empty).1

cleared_example :
    let (e, w') = delete_task none none 1 1 filled in
    ((e ≡ none) × IsCleared 1 1 filled w') ⊎ ((e ≢ none) × (w' ≡ filled))
cleared_example = delete_task-IsCleared none none 1 1 filled
