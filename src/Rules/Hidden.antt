-- ===== src/Rules/Hidden.antt =====
-- The keywords of a category that is deleted stay in their table and are not read any more.
use article_sentinel.Base.{
  ℕ, false, ◌≡◌, ◌≢◌, refl, ap, ◌∙◌, arith, none, some, ◌==◌, ==_iff, first_where,
  first_where-holds, first_where-some, first_where-deleted, delete_where, rows_affected, ok, failed,
}
use article_sentinel.Model.{InspectionCategory, InspectionKeyword}
use article_sentinel.Rules.{World, Env, keyword_not_found}
use article_sentinel.Rules.Keywords.{is_category, is_keyword}
use article_sentinel.Rules.KeywordService.{get}
use article_sentinel.Rules.Categories.{delete_category, attempt_rows}
use article_sentinel.Rules.View.{IsServing, row_of, keyword_view, stored_dto-view}
use article_sentinel.Rules.Sound.{IsSound}
use article_sentinel.Rules.Read.{guard_open, get_stored}

module _ (env : Env) (serving : IsServing env) (org_id category_id id : ℕ) (w : World)
    (sound : IsSound w) (c : InspectionCategory) (k : InspectionKeyword) where
  abbrev without : World
  without = record w { categories = delete_where (is_category org_id category_id) w.categories }

  -- Over sound tables and a server that refuses nothing, a category that keywords belong to, all
  -- ids being other than 0, is deleted without an error; a keyword of it stays in its table, and
  -- `Get` does not find it any more.
  pub delete_category-get :
      org_id ≢ 0
      → category_id ≢ 0
      → id ≢ 0
      → first_where (is_category org_id category_id) w.categories ≡ some c
      → first_where (is_keyword org_id id) w.keywords ≡ some k
      → k.category_id ≡ category_id
      → let (r, w') = delete_category env org_id category_id w in
        (r ≡ ok tt)
        × (first_where (is_keyword org_id id) w'.keywords ≡ some k)
        × (get env org_id id w' ≡ failed keyword_not_found)
  unfolding delete_category is_keyword
  delete_category-get org category id_pos there found of_category =
      let n = first_where-some (is_category org_id category_id) w.categories in
      let one : (rows_affected (is_category org_id category_id) w.categories == 0) ≡ false =
        ground arith in
      let all : delete_category env org_id category_id w ≡ (ok tt, without) =
        guard_open org_id category_id _
          (attempt_rows env.write_error
            (rows_affected (is_category org_id category_id) w.categories) without w)
          org category
        ∙ rw (serving.write_error, one) refl in
      let own = first_where-holds (is_keyword org_id id) w.keywords {a = k} found in
      let org' : k.org_id ≡ org_id = let q = ==_iff k.org_id org_id in ground arith in
      let gone : first_where (is_category k.org_id k.category_id) without.categories ≡ none =
        rw (org', of_category)
          (first_where-deleted (is_category org_id category_id) w.categories) in
      let hidden : keyword_view org_id id without ≡ failed keyword_not_found =
        rw (found, row_of, gone) refl in
      (
        ap (λ r. r.0) all,
        ap (λ r. first_where (is_keyword org_id id) r.1.keywords) all ∙ found,
        ap (λ r. get env org_id id r.1) all
            ∙ get_stored env org_id id without org id_pos
            ∙ stored_dto-view env serving org_id id without org id_pos sound.unique
            ∙ hidden,
      )
