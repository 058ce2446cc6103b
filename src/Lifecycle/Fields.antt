-- ===== src/Lifecycle/Fields.antt =====
-- lifecycle/service.go: `UpdateArticleFields`.
use article_sentinel.Base.{
  ℕ, suc, ◌+◌, ◌||◌, none, some, List, [], ◌∷◌, ◌++◌, length, ◌==◌, if◌then◌else◌, first_where,
  update_where,
}
use article_sentinel.Text.{Text, trim_space}
use article_sentinel.Domain.ActionType
use article_sentinel.Domain.ActionStatus
use article_sentinel.Model.{InspectionFieldChangeLog}
use article_sentinel.Articles.{Article, ArticleInfo, nullable_string_to_string}
use article_sentinel.Audit.{Operator, enrich_field_change_log_with_operator}
use article_sentinel.Lifecycle.Diff.{EditableArticleFields, FieldChange, diff_editable_fields}
use article_sentinel.Lifecycle.{
  World, Result, ok, failed, database, record_not_found, invalid_action_input,
  UpdateArticleFieldsInput, Env, same_article, read_article, operation_log, append_log,
}

unfoldable pub build_field_change_logs :
    Operator → UpdateArticleFieldsInput → ℕ → List FieldChange → List InspectionFieldChangeLog
build_field_change_logs operator input id [] = []
build_field_change_logs operator input id (c ∷ changes) =
    enrich_field_change_log_with_operator operator record {
      id = id;
      org_id = input.of.org_id;
      action_id = input.of.action_id;
      task_id = input.of.task_id;
      result_id = input.of.result_id;
      article_id = input.of.article_id;
      field_name = c.field_name;
      before_value = c.before_value;
      after_value = c.after_value;
      diff_summary = c.diff_summary;
      operator_id = input.of.operator_id;
      operator_name = trim_space input.of.operator_name;
      request_id = [];
      source_ip = [];
    }
    ∷ build_field_change_logs operator input (suc id) changes

abbrev pub editable_fields : Article → ArticleInfo → EditableArticleFields
editable_fields article info = record {
  title = article.title;
  short_title = nullable_string_to_string article.short_title;
  rich_title = article.rich_title;
  keyword = article.keyword;
  desc = article.desc;
  body = info.body;
}

abbrev pub set_fields : EditableArticleFields → Article → Article
set_fields fields row = record row {
  title = fields.title;
  short_title = some fields.short_title;
  rich_title = fields.rich_title;
  keyword = fields.keyword;
  desc = fields.desc;
}

abbrev pub set_body : Text → ArticleInfo → ArticleInfo
set_body body row = record row { body = body }

-- The transaction: the first statement that is refused undoes those before it.
unfoldable pub write_fields :
    Env
    → UpdateArticleFieldsInput
    → Article
    → List FieldChange
    → World
    → Result (List FieldChange) × World
unfolding build_field_change_logs operation_log
write_fields env input article changes w = elim env.update_error [
  | some e ↦ (failed (database e), w)
  | none ↦ elim env.body_error [
    | some e ↦ (failed (database e), w)
    | none ↦ elim env.change_log_error [
      | some e ↦ (failed (database e), w)
      | none ↦ elim env.log_error [
        | some e ↦ (failed (database e), w)
        | none ↦ (
          ok changes,
          append_log
              (operation_log env w.next_log_id input.of input.of.article_id ActionType.rectify
                article.state article.state ActionStatus.success
                (env.snapshot ActionType.rectify input.of (some input.fields)))
              (record w {
                articles =
                    update_where (same_article input.of.org_id input.of.article_id)
                      (set_fields input.fields) w.articles;
                infos =
                    update_where (λ i. i.id == input.of.article_id) (set_body input.fields.body)
                      w.infos;
                field_change_logs =
                    w.field_change_logs
                    ++ build_field_change_logs env.operator input w.next_change_id changes;
                next_change_id = w.next_change_id + length changes;
              }),
        )
      ]
    ]
  ]
]

unfoldable pub update_article_fields :
    Env → UpdateArticleFieldsInput → World → Result (List FieldChange) × World
unfolding write_fields diff_editable_fields
update_article_fields env input w =
    if input.of.org_id == 0 || input.of.article_id == 0
    then (failed invalid_action_input, w)
    else elim (read_article env input.of w) [
      | failed e ↦ (failed e, w)
      | ok article ↦ elim env.info_error [
        | some e ↦ (failed (database e), w)
        | none ↦ elim (first_where (λ i. i.id == input.of.article_id) w.infos) [
          | none ↦ (failed record_not_found, w)
          | some info ↦ elim (diff_editable_fields (editable_fields article info) input.fields) [
            | [] ↦ (ok [], w)
            | c ∷ changes ↦ write_fields env input article (c ∷ changes) w
          ]
        ]
      ]
    ]
