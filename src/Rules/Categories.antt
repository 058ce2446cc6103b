-- ===== src/Rules/Categories.antt =====
-- rules/repository_categories.go and rules/service_categories.go, with the inputs and results of
-- dto_categories.go but for the times; a repository and its database are there.
use article_sentinel.Base.{
  ℕ, ◌+◌, Bool, true, ◌&&◌, ◌||◌, not, Option, none, some, List, [], ◌∷◌, ◌++◌, ◌==◌, leb,
  if◌then◌else◌, first_where, select_where, update_where, delete_where, rows_affected, sort_by,
  same_bool, same_int, ℤ, leb_int, Result, ok, failed, and_then, pos,
}
use article_sentinel.Text.{text_eq, Text, is_empty, trim_space}
use article_sentinel.Model.{ChuangqiOrg, InspectionCategory}
use article_sentinel.Paging.{page_number, page_length, page_rows}
use article_sentinel.Rules.{
  World, Env, RuleError, Attempt, invalid_category_input, category_not_found, unspecified,
  orgid_is_required, name_is_required, database, statement,
}
use article_sentinel.Rules.Keywords.{is_category}

pub record CreateCategoryInput : Type 0 where
  pub org_id : ℕ
  pub name : Text
  pub enabled : Bool
  pub sort : ℤ

pub record UpdateCategoryInput : Type 0 where
  pub id : ℕ
  pub input : CreateCategoryInput

pub record PatchCategoryStatusInput : Type 0 where
  pub org_id : ℕ
  pub category_id : ℕ
  pub enabled : Bool

pub record CategoryListInput : Type 0 where
  pub org_id : ℕ
  pub page : ℤ
  pub page_size : ℤ
  pub enabled : Option Bool
  pub query : Text

pub record CategoryListResult : Type 0 where
  pub page : ℕ
  pub page_size : ℕ
  pub total : ℕ
  pub items : List InspectionCategory

-- `sort ASC, id ASC`
unfoldable pub org_before : ChuangqiOrg → ChuangqiOrg → Bool
org_before a b =
    not (leb_int b.sort a.sort) || (leb_int b.sort a.sort && leb_int a.sort b.sort && leb a.id b.id)

unfoldable pub category_before : InspectionCategory → InspectionCategory → Bool
category_before a b =
    not (leb_int b.sort a.sort) || (leb_int b.sort a.sort && leb_int a.sort b.sort && leb a.id b.id)

unfoldable pub list_orgs : Env → World → Result RuleError (List ChuangqiOrg)
unfolding org_before
list_orgs env w =
    statement env.find_error (ok (sort_by org_before (select_where (λ o. o.enabled) w.orgs)))

unfoldable pub normalize_category_input : CreateCategoryInput → Result RuleError CreateCategoryInput
unfolding trim_space
normalize_category_input input =
    let name = trim_space input.name in
    if input.org_id == 0
    then failed (invalid_category_input orgid_is_required)
    else if is_empty name
    then failed (invalid_category_input name_is_required)
    else ok
        record { org_id = input.org_id; name = name; enabled = input.enabled; sort = input.sort }

-- The service's `Get`, over the repository's.
unfoldable pub get_category : Env → ℕ → ℕ → World → Result RuleError InspectionCategory
unfolding is_category
get_category env org_id id w =
    if org_id == 0 || id == 0
    then failed (invalid_category_input unspecified)
    else statement env.find_error (elim (first_where (is_category org_id id) w.categories) [
      | none ↦ failed category_not_found
      | some c ↦ ok c
    ])

-- The conditions of `List`.
unfoldable pub is_listed_category : Env → CategoryListInput → InspectionCategory → Bool
unfolding trim_space
is_listed_category env input c =
    let text = trim_space input.query in
    c.org_id == input.org_id
    && (elim input.enabled [ none ↦ true | some b ↦ (if b then c.enabled else not c.enabled) ])
    && (if is_empty text then true else env.like text c.name)

-- The repository's `List`: a page of the rows, and how many there are.
unfoldable pub find_categories :
    Env → CategoryListInput → World → Result RuleError (List InspectionCategory × ℕ)
unfolding is_listed_category category_before page_number page_length page_rows
find_categories env input w =
    let rows = select_where (is_listed_category env input) w.categories in
    if input.org_id == 0
    then failed (invalid_category_input unspecified)
    else statement env.count_error (
        statement env.find_error (
          ok (
            page_rows (page_number input.page) (page_length input.page_size)
                (sort_by category_before rows),
            rows_affected (is_listed_category env input) w.categories,
          )))

unfoldable pub list_categories :
    Env → CategoryListInput → World → Result RuleError CategoryListResult
unfolding find_categories page_number page_length trim_space
list_categories env input w =
    let page = page_number input.page in
    let page_size = page_length input.page_size in
    if input.org_id == 0
    then failed (invalid_category_input unspecified)
    else and_then
        (find_categories env
          (record input {
            page = pos page;
            page_size = pos page_size;
            query = trim_space input.query;
          })
          w)
        (λ found.
          ok record { page = page; page_size = page_size; total = found.1; items = found.0 })

-- The answer after a change: what is stored then.
abbrev pub stored_category :
    Env → ℕ → ℕ → Attempt × World → Result RuleError InspectionCategory × World
stored_category env org_id id (failed e, w) = (failed e, w)
stored_category env org_id id (ok _, w) = (get_category env org_id id w, w)

-- A statement, and `RowsAffected` of an update or a deletion.
abbrev pub attempt : Option Text → World → World → Attempt × World
attempt none w' w = (ok tt, w')
attempt (some e) w' w = (failed (database e), w)

abbrev pub attempt_rows : Option Text → ℕ → World → World → Attempt × World
attempt_rows (some e) n w' w = (failed (database e), w)
attempt_rows none n w' w = if n == 0 then (failed category_not_found, w) else (ok tt, w')

abbrev pub new_category : Env → ℕ → CreateCategoryInput → InspectionCategory
new_category env id n = record {
  id = id;
  org_id = n.org_id;
  name = n.name;
  enabled = env.stored true n.enabled;
  sort = n.sort;
  creator_id = env.operator.id;
  creator_name = env.operator.name;
  updater_id = env.operator.id;
  updater_name = env.operator.name;
}

unfoldable pub create_category :
    Env → CreateCategoryInput → World → Result RuleError InspectionCategory × World
unfolding normalize_category_input get_category
create_category env input w = elim (normalize_category_input input) [
  | failed e ↦ (failed e, w)
  | ok n ↦ stored_category env n.org_id w.next_category_id (
      attempt env.write_error
        (record w {
          categories = w.categories ++ new_category env w.next_category_id n ∷ [];
          next_category_id = w.next_category_id + 1;
        })
        w)
]

abbrev pub set_category : Env → CreateCategoryInput → InspectionCategory → InspectionCategory
set_category env n row = record row {
  name = n.name;
  enabled = n.enabled;
  sort = n.sort;
  updater_id = env.operator.id;
  updater_name = env.operator.name;
}

-- Whether the update `f` changes the row.
unfoldable pub category_changed :
    Env → (InspectionCategory → InspectionCategory) → InspectionCategory → Bool
category_changed env f row =
    env.touches_category row
    || not (
        text_eq (f row).name row.name
        && same_bool (f row).enabled row.enabled
        && same_int (f row).sort row.sort
        && (f row).updater_id == row.updater_id
        && text_eq (f row).updater_name row.updater_name)

unfoldable pub update_category :
    Env → UpdateCategoryInput → World → Result RuleError InspectionCategory × World
unfolding normalize_category_input get_category is_category category_changed
update_category env input w =
    if input.id == 0
    then (failed (invalid_category_input unspecified), w)
    else elim (normalize_category_input input.input) [
      | failed e ↦ (failed e, w)
      | ok n ↦
          let this = is_category n.org_id input.id in
          stored_category env n.org_id input.id (
            attempt_rows env.write_error
              (rows_affected (λ row. this row && category_changed env (set_category env n) row)
                w.categories)
              (record w { categories = update_where this (set_category env n) w.categories }) w)
    ]

unfoldable pub delete_category : Env → ℕ → ℕ → World → Attempt × World
unfolding is_category
delete_category env org_id id w =
    let this = is_category org_id id in
    if org_id == 0 || id == 0
    then (failed (invalid_category_input unspecified), w)
    else attempt_rows env.write_error (rows_affected this w.categories)
        (record w { categories = delete_where this w.categories }) w

unfoldable pub patch_category :
    Env → PatchCategoryStatusInput → World → Result RuleError InspectionCategory × World
unfolding get_category is_category category_changed
patch_category env input w =
    let this = is_category input.org_id input.category_id in
    let f : InspectionCategory → InspectionCategory = λ row. record row {
      enabled = input.enabled;
      updater_id = env.operator.id;
      updater_name = env.operator.name;
    } in
    if input.org_id == 0 || input.category_id == 0
    then (failed (invalid_category_input unspecified), w)
    else stored_category env input.org_id input.category_id (
        attempt_rows env.write_error
          (rows_affected (λ row. this row && category_changed env f row) w.categories)
          (record w { categories = update_where this f w.categories }) w)

-- `CategoryExists`
unfoldable pub category_exists : Env → ℕ → ℕ → World → Result RuleError Bool
unfolding is_category
category_exists env org_id id w =
    if org_id == 0 || id == 0
    then failed (invalid_category_input unspecified)
    else statement env.count_error
        (ok (not (rows_affected (is_category org_id id) w.categories == 0)))
