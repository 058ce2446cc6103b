-- ===== src/Rules/Keywords.antt =====
-- rules/repository_keywords.go; a repository and its database are there, and a keyword is given.
use article_sentinel.Base.{
  ℕ, suc, ◌+◌, Bool, true, ◌&&◌, ◌||◌, not, Option, none, some, List, [], ◌∷◌, ◌++◌, map, ◌==◌, leb,
  ltb, if◌then◌else◌, length, contains_id, first_where, select_where, update_where, delete_where,
  same_bool, rows_affected, sort_by, ℤ, Result, ok, failed, and_then,
}
use article_sentinel.Text.{Text, text_eq, is_empty, trim_space}
use article_sentinel.Model.{InspectionCategory, InspectionKeyword, InspectionKeywordScope}
use article_sentinel.Paging.{page_number, page_length, page_rows}
use article_sentinel.Rules.{
  World, Env, RuleError, Attempt, invalid_keyword_input, unspecified, keyword_not_found, statement,
  transaction,
}

pub record KeywordRecord : Type 0 where
  pub keyword : InspectionKeyword
  pub category_name : Text

pub record KeywordListFilter : Type 0 where
  pub org_id : ℕ
  pub page : ℤ
  pub page_size : ℤ
  pub enabled : Option Bool
  pub category_id : ℕ
  pub query : Text

unfoldable pub is_category : ℕ → ℕ → InspectionCategory → Bool
is_category org_id id c = c.org_id == org_id && c.id == id

unfoldable pub is_keyword : ℕ → ℕ → InspectionKeyword → Bool
is_keyword org_id id k = k.org_id == org_id && k.id == id

unfoldable pub is_scope_of : ℕ → ℕ → InspectionKeywordScope → Bool
is_scope_of org_id id s = s.org_id == org_id && s.keyword_id == id

-- The body follows where the category exists.
abbrev pub ensure_keyword_category_exists :
    Env → ℕ → ℕ → World → Result RuleError World → Result RuleError World
ensure_keyword_category_exists env org_id category_id w body =
    if org_id == 0 || category_id == 0
    then failed (invalid_keyword_input unspecified)
    else statement env.count_error (
        if rows_affected (is_category org_id category_id) w.categories == 0
        then failed (invalid_keyword_input unspecified)
        else body)

-- The rows of the scopes, with the ids that the database gives them.
unfoldable pub scope_rows : ℕ → ℕ → ℕ → List InspectionKeywordScope → List InspectionKeywordScope
scope_rows next org_id keyword_id [] = []
scope_rows next org_id keyword_id (s ∷ scopes) =
    record s { id = next; org_id = org_id; keyword_id = keyword_id }
    ∷ scope_rows (suc next) org_id keyword_id scopes

unfoldable pub create_scopes :
    Env → ℕ → ℕ → List InspectionKeywordScope → World → Result RuleError World
unfolding scope_rows
create_scopes env org_id keyword_id [] w = ok w
create_scopes env org_id keyword_id (s ∷ scopes) w = statement env.create_scopes_error (
    ok (record w {
      keyword_scopes =
          w.keyword_scopes ++ scope_rows w.next_scope_id org_id keyword_id (s ∷ scopes);
      next_scope_id = w.next_scope_id + length (s ∷ scopes);
    }))

abbrev pub insert_keyword : Env → InspectionKeyword → World → World
insert_keyword env keyword w = record w {
  keywords =
      w.keywords
      ++ record keyword { id = w.next_keyword_id; enabled = env.stored true keyword.enabled } ∷ [];
  next_keyword_id = w.next_keyword_id + 1;
}

-- `Create` gives the keyword the id `w.next_keyword_id`.
unfoldable pub create :
    Env → InspectionKeyword → List InspectionKeywordScope → World → Attempt × World
unfolding is_category create_scopes
create env keyword scopes w =
    transaction env.commit_error
      (ensure_keyword_category_exists env keyword.org_id keyword.category_id w (
        statement env.write_error (
          create_scopes env keyword.org_id w.next_keyword_id scopes
            (insert_keyword env keyword w))))
      w

abbrev pub set_keyword : InspectionKeyword → InspectionKeyword → InspectionKeyword
set_keyword keyword row = record row {
  name = keyword.name;
  category_id = keyword.category_id;
  match_type = keyword.match_type;
  risk_level = keyword.risk_level;
  suggest_action = keyword.suggest_action;
  enabled = keyword.enabled;
  remark = keyword.remark;
  updater_id = keyword.updater_id;
  updater_name = keyword.updater_name;
}

-- The columns that an update of a keyword may write.
abbrev pub same_keyword : InspectionKeyword → InspectionKeyword → Bool
same_keyword a b =
    text_eq a.name b.name
    && a.category_id == b.category_id
    && text_eq a.match_type b.match_type
    && text_eq a.risk_level b.risk_level
    && text_eq a.suggest_action b.suggest_action
    && same_bool a.enabled b.enabled
    && text_eq a.remark b.remark
    && a.updater_id == b.updater_id
    && text_eq a.updater_name b.updater_name

-- Whether the update `f` changes the row: only then does the server count it in `RowsAffected`.
unfoldable pub keyword_changed :
    Env → (InspectionKeyword → InspectionKeyword) → InspectionKeyword → Bool
keyword_changed env f row = env.touches_keyword row || not (same_keyword (f row) row)

abbrev pub delete_scopes : ℕ → ℕ → World → World
delete_scopes org_id id w = record w {
  keyword_scopes = delete_where (is_scope_of org_id id) w.keyword_scopes;
}

abbrev pub found_rows : ℕ → Result RuleError World → Result RuleError World
found_rows n r = if n == 0 then failed keyword_not_found else r

unfoldable pub update :
    Env → InspectionKeyword → List InspectionKeywordScope → World → Attempt × World
unfolding is_category is_keyword is_scope_of create_scopes keyword_changed
update env keyword scopes w =
    let this = is_keyword keyword.org_id keyword.id in
    let w1 : World = record w { keywords = update_where this (set_keyword keyword) w.keywords } in
    if keyword.id == 0 || keyword.org_id == 0
    then (failed (invalid_keyword_input unspecified), w)
    else transaction env.commit_error
        (ensure_keyword_category_exists env keyword.org_id keyword.category_id w (
          statement env.write_error (
            found_rows
              (rows_affected (λ row. this row && keyword_changed env (set_keyword keyword) row)
                w.keywords)
              (statement env.delete_scopes_error (
                create_scopes env keyword.org_id keyword.id scopes
                  (delete_scopes keyword.org_id keyword.id w1))))))
        w

unfoldable pub delete : Env → ℕ → ℕ → World → Attempt × World
unfolding is_keyword is_scope_of
delete env org_id id w =
    let this = is_keyword org_id id in
    if org_id == 0 || id == 0
    then (failed (invalid_keyword_input unspecified), w)
    else transaction env.commit_error
        (statement env.delete_scopes_error (
          statement env.write_error (
            found_rows (rows_affected this w.keywords) (
              ok
                (record (delete_scopes org_id id w) { keywords = delete_where this w.keywords })))))
        w

-- A single statement is a transaction of its own.
unfoldable pub patch_enabled : Env → ℕ → ℕ → Bool → ℕ → Text → World → Attempt × World
unfolding is_keyword keyword_changed
patch_enabled env org_id id enabled updater_id updater_name w =
    let this = is_keyword org_id id in
    let f : InspectionKeyword → InspectionKeyword = λ row. record row {
      enabled = enabled;
      updater_id = updater_id;
      updater_name = updater_name;
    } in
    if org_id == 0 || id == 0
    then (failed (invalid_keyword_input unspecified), w)
    else transaction none
        (statement env.write_error (
          found_rows (rows_affected (λ row. this row && keyword_changed env f row) w.keywords)
            (ok (record w { keywords = update_where this f w.keywords }))))
        w

-- The rows of a keyword in the join with the categories.
unfoldable pub category_rows : InspectionKeyword → List InspectionCategory → List KeywordRecord
category_rows k [] = []
category_rows k (c ∷ categories) =
    let rest = category_rows k categories in
    if c.org_id == k.org_id && c.id == k.category_id
    then record { keyword = k; category_name = c.name } ∷ rest
    else rest

unfoldable pub joined_rows : List InspectionCategory → List InspectionKeyword → List KeywordRecord
unfolding category_rows
joined_rows categories [] = []
joined_rows categories (k ∷ keywords) =
    category_rows k categories ++ joined_rows categories keywords

unfoldable pub keyword_query : ℕ → World → List KeywordRecord
unfolding joined_rows
keyword_query org_id w =
    joined_rows w.categories (select_where (λ k. k.org_id == org_id) w.keywords)

unfoldable pub get_keyword : Env → ℕ → ℕ → World → Result RuleError KeywordRecord
unfolding keyword_query
get_keyword env org_id id w =
    statement env.find_error
      (elim (first_where (λ r. r.keyword.id == id) (keyword_query org_id w)) [
        | none ↦ failed keyword_not_found
        | some r ↦ ok r
      ])

-- `keyword_id ASC, scope ASC`
unfoldable pub scope_before :
    (Text → Text → Bool) → InspectionKeywordScope → InspectionKeywordScope → Bool
scope_before collate a b =
    ltb a.keyword_id b.keyword_id || (a.keyword_id == b.keyword_id && collate a.scope b.scope)

-- The map from the keywords to their scopes, asked for a keyword.
unfoldable pub list_scopes :
    Env → ℕ → List ℕ → World → Result RuleError (ℕ → List InspectionKeywordScope)
unfolding scope_before
list_scopes env org_id [] w = ok (λ id. [])
list_scopes env org_id (i ∷ ids) w = statement env.find_scopes_error (
    ok (λ id.
      select_where (λ s. s.keyword_id == id)
        (sort_by (scope_before env.collate) (
          select_where (λ s. s.org_id == org_id && contains_id s.keyword_id (i ∷ ids))
            w.keyword_scopes))))

unfoldable pub get :
    Env → ℕ → ℕ → World → Result RuleError (KeywordRecord × List InspectionKeywordScope)
unfolding get_keyword list_scopes
get env org_id id w =
    if org_id == 0 || id == 0
    then failed (invalid_keyword_input unspecified)
    else and_then (get_keyword env org_id id w)
        (λ item. and_then (list_scopes env org_id (id ∷ []) w) (λ scopes. ok (item, scopes id)))

unfoldable pub record_before : KeywordRecord → KeywordRecord → Bool
record_before a b = leb a.keyword.id b.keyword.id

unfoldable pub list_by_ids :
    Env
    → ℕ
    → List ℕ
    → World
    → Result RuleError (List KeywordRecord × (ℕ → List InspectionKeywordScope))
unfolding keyword_query list_scopes record_before
list_by_ids env org_id [] w = failed (invalid_keyword_input unspecified)
list_by_ids env org_id (i ∷ ids) w =
    let items =
      sort_by record_before
        (select_where (λ r. contains_id r.keyword.id (i ∷ ids)) (keyword_query org_id w)) in
    if org_id == 0
    then failed (invalid_keyword_input unspecified)
    else statement env.find_error
        (and_then (list_scopes env org_id (i ∷ ids) w) (λ scopes. ok (items, scopes)))

-- The conditions that `List` adds to both of its queries.
unfoldable pub is_listed : Env → KeywordListFilter → InspectionKeyword → Bool
is_listed env filter k =
    let text = trim_space filter.query in
    (elim filter.enabled [ none ↦ true | some b ↦ (if b then k.enabled else not k.enabled) ])
    && (if filter.category_id == 0 then true else k.category_id == filter.category_id)
    && (if is_empty text then true else env.like text k.name || env.like text k.remark)

-- The page, the scopes and the number of rows without the join.
unfoldable pub list :
    Env
    → KeywordListFilter
    → World
    → Result RuleError (List KeywordRecord × (ℕ → List InspectionKeywordScope) × ℕ)
unfolding is_listed keyword_query list_scopes record_before page_number page_length page_rows
list env filter w =
    let total =
      rows_affected (λ k. k.org_id == filter.org_id && is_listed env filter k) w.keywords in
    let items = page_rows (page_number filter.page) (page_length filter.page_size) (
      sort_by record_before
        (select_where (λ r. is_listed env filter r.keyword) (keyword_query filter.org_id w))) in
    if filter.org_id == 0
    then failed (invalid_keyword_input unspecified)
    else statement env.count_error (
        statement env.find_error (
          and_then (list_scopes env filter.org_id (map (λ r. r.keyword.id) items) w)
            (λ scopes. ok (items, scopes, total))))
