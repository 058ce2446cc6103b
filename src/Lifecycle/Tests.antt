-- ===== src/Lifecycle/Tests.antt =====
-- One article that is online: the theorems on the lifecycle at it.
use article_sentinel.Base.{◌≡◌, none, [], ◌∷◌}
use article_sentinel.Text.{Text, codes}
use article_sentinel.Domain.ArticleState
use article_sentinel.Articles.{Article, ArticleInfo}
use article_sentinel.Lifecycle.{World, ArticleInput, Env, offline_article}
use article_sentinel.Lifecycle.Fields.{update_article_fields}
use article_sentinel.Lifecycle.Diff.{
  EditableArticleFields, diff_editable_fields, diff_editable_fields-apply_changes, apply_changes,
}
use article_sentinel.Lifecycle.Offline.{IsReported, offline_article-IsReported}
use article_sentinel.Lifecycle.Update.{IsUpdated, update_article_fields-IsUpdated}

abbrev article : Article
article = record {
  id = 3;
  org_id = 1;
  title = codes "t";
  short_title = none;
  rich_title = [];
  keyword = [];
  desc = [];
  thumbnail = [];
  state = ArticleState.online;
  publish_at_unix = 0;
  update_at_unix = 0;
}

abbrev info : ArticleInfo
info = record { id = 3; org_id = 1; body = codes "b"; media = []; relate = []; share_info = [] }

abbrev pub tables : World
tables = record {
  articles = article ∷ [];
  infos = info ∷ [];
  operation_logs = [];
  field_change_logs = [];
  next_log_id = 1;
  next_change_id = 1;
}

abbrev input : ArticleInput
input = record {
  org_id = 1;
  article_id = 3;
  task_id = 0;
  result_id = 0;
  action_id = 0;
  operator_id = 0;
  operator_name = [];
  reason = [];
}

abbrev pub env : Env
env = record {
  operator = record { id = 0; name = []; role = []; request_id = []; source_ip = [] };
  itoa = λ n. n ∷ [];
  snapshot = λ t i f. [];
  read_error = none;
  info_error = none;
  update_error = none;
  body_error = none;
  change_log_error = none;
  log_error = none;
}

abbrev fields : Text → EditableArticleFields
fields title = record {
  title = title;
  short_title = [];
  rich_title = [];
  keyword = [];
  desc = [];
  body = codes "b";
}

offline_example : let (r, w') = offline_article env input tables in IsReported input tables w' r
offline_example = offline_article-IsReported env input tables

update_example :
    let (r, w') =
      update_article_fields env (record { of = input; fields = fields (codes "u") }) tables in
    IsUpdated (record { of = input; fields = fields (codes "u") }) tables w' r
update_example =
    update_article_fields-IsUpdated env (record { of = input; fields = fields (codes "u") }) tables

diff_example :
    apply_changes
      (diff_editable_fields (fields (codes "t")) (fields (codes "u")))
      (fields (codes "t"))
    ≡ fields (codes "u")
diff_example = diff_editable_fields-apply_changes (fields (codes "t")) (fields (codes "u"))
