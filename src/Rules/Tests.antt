-- ===== src/Rules/Tests.antt =====
-- A category and a keyword: the theorems on keywords at them.
use article_sentinel.Base.{
  pos, true, false, ◌≡◌, ◌≢◌, ◌⊎◌, refl, arith, none, some, [], ◌∷◌, List, ok, failed, select_where,
  first_where,
}
use article_sentinel.Text.{Text, codes, text_eq, is_empty}
use article_sentinel.Text.Order.{text_leb}
use article_sentinel.Domain.KeywordScope
use article_sentinel.Model.{InspectionCategory, InspectionKeyword}
use article_sentinel.Rules.{
  World, Env, keyword_not_found, invalid_keyword_input, scopes_are_required, unsupported_scope,
}
use article_sentinel.Rules.Normalize.{
  clean, CreateKeywordInput, NormalizedKeywordInput, normalize_keyword_scopes,
  normalize_create_keyword_input,
}
use article_sentinel.Rules.Keywords.{
  is_keyword, is_scope_of, is_category, keyword_changed, set_keyword,
}
use article_sentinel.Rules.Keywords
use article_sentinel.Rules.KeywordService.{
  keyword_of, create, update, patch_enabled, delete, get, stored_dto,
}
use article_sentinel.Rules.Categories.{delete_category}
use article_sentinel.Rules.Canonical.{
  IsCanonical, IsFirstUnsupported, AllSupported, normalize_keyword_scopes-IsCanonical,
}
use article_sentinel.Rules.View.{IsServing, keyword_view, stored_dto-view}
use article_sentinel.Rules.Sound.{IsSound}
use article_sentinel.Rules.Preserve.{keyword_changes-IsSound}
use article_sentinel.Rules.RoundTrip.{
  created_dto, updated_dto, new_world, changed_world, create-get, update-get,
}
use article_sentinel.Rules.Others.{keyword_changes-others, delete-get}
use article_sentinel.Rules.Hidden.{delete_category-get}

abbrev env : Env
env = record {
  unicode = record { lower = λ t. t; fold_eq = text_eq };
  operator = record { id = 3; name = codes "op"; role = []; request_id = []; source_ip = [] };
  collate = text_leb;
  like = λ t v. true;
  stored = λ d v. d;
  touches_keyword = λ k. false;
  touches_category = λ c. false;
  count_error = none;
  write_error = none;
  delete_scopes_error = none;
  create_scopes_error = none;
  commit_error = none;
  find_error = none;
  find_scopes_error = none;
}

env-IsServing : IsServing env
env-IsServing = record {
  count_error = refl;
  write_error = refl;
  delete_scopes_error = refl;
  create_scopes_error = refl;
  commit_error = refl;
  find_error = refl;
  find_scopes_error = refl;
}

abbrev category : InspectionCategory
category = record {
  id = 5;
  org_id = 1;
  name = codes "c";
  enabled = true;
  sort = pos 0;
  creator_id = 3;
  creator_name = [];
  updater_id = 3;
  updater_name = [];
}

abbrev keyword : InspectionKeyword
keyword = record {
  id = 1;
  org_id = 1;
  name = codes "k";
  category_id = 5;
  match_type = codes "exact";
  risk_level = codes "low";
  suggest_action = codes "ignore";
  enabled = true;
  remark = [];
  creator_id = 2;
  creator_name = [];
  updater_id = 2;
  updater_name = [];
}

abbrev world : World
world = record {
  orgs = [];
  categories = category ∷ [];
  keywords = keyword ∷ [];
  keyword_scopes = record { id = 1; org_id = 1; keyword_id = 1; scope = KeywordScope.title } ∷ [];
  next_category_id = 6;
  next_keyword_id = 2;
  next_scope_id = 2;
}

world-IsSound : IsSound world
unfolding is_keyword
world-IsSound = record { unique = (refl, tt); below = (omega arith, tt); linked = (refl, tt) }

abbrev given_scopes : List Text
given_scopes = codes " Title" ∷ codes "body" ∷ codes "title" ∷ []

abbrev input : CreateKeywordInput
input = record {
  org_id = 1;
  name = codes " k2 ";
  category_id = 5;
  match_type = codes "Contains";
  risk_level = codes "high ";
  suggest_action = codes "offline";
  enabled = false;
  remark = [];
  scopes = given_scopes;
}

abbrev normalized : NormalizedKeywordInput
normalized = record {
  org_id = 1;
  name = codes "k2";
  category_id = 5;
  match_type = codes "contains";
  risk_level = codes "high";
  suggest_action = codes "offline";
  enabled = false;
  remark = [];
  scopes = codes "body" ∷ codes "title" ∷ [];
}

input-normalized : normalize_create_keyword_input env.unicode input ≡ ok normalized
unfolding normalize_create_keyword_input codes text_leb is_empty
input-normalized = refl

scopes_example :
    ((given_scopes ≡ [])
      × (normalize_keyword_scopes env.unicode given_scopes
          ≡ failed (invalid_keyword_input scopes_are_required)))
    ⊎ ((bad : Text) × (IsFirstUnsupported env.unicode given_scopes bad)
        × (normalize_keyword_scopes env.unicode given_scopes
            ≡ failed (invalid_keyword_input (unsupported_scope (clean env.unicode bad)))))
    ⊎ ((r : List Text) × (given_scopes ≢ [])
        × AllSupported env.unicode given_scopes
        × (normalize_keyword_scopes env.unicode given_scopes ≡ ok r)
        × IsCanonical env.unicode given_scopes r)
scopes_example = normalize_keyword_scopes-IsCanonical env.unicode given_scopes

view_example : stored_dto env 1 1 world ≡ keyword_view 1 1 world
view_example =
    stored_dto-view env env-IsServing 1 1 world (λ e. omega arith) (λ e. omega arith) (refl, tt)

created_keyword_example :
    (create env input world
      ≡ (ok (created_dto env 2 normalized (codes "c")), new_world env normalized world))
    × (get env 1 2 (new_world env normalized world) ≡ ok (created_dto env 2 normalized (codes "c")))
unfolding is_category
created_keyword_example =
    create-get env env-IsServing world world-IsSound input normalized input-normalized category refl
      (omega arith)

updated_keyword_example :
    ((keyword_changed env (set_keyword (keyword_of env 1 normalized)) keyword ≡ true)
      × (update env (record { id = 1; input = input }) world ≡ (
        ok (updated_dto env 1 normalized keyword (codes "c")),
        changed_world env normalized 1 world,
      ))
      × (get env 1 1 (changed_world env normalized 1 world)
          ≡ ok (updated_dto env 1 normalized keyword (codes "c"))))
    ⊎ ((keyword_changed env (set_keyword (keyword_of env 1 normalized)) keyword ≡ false)
        × (update env (record { id = 1; input = input }) world ≡ (failed keyword_not_found, world)))
unfolding is_keyword is_category
updated_keyword_example =
    update-get env env-IsServing world world-IsSound input normalized input-normalized category refl
      1 keyword (λ e. omega arith) refl

deleted_keyword_example :
    let (r, w') = delete env 1 1 world in
    (r ≡ ok tt)
    × (get env 1 1 w' ≡ failed keyword_not_found)
    × (select_where (is_scope_of 1 1) w'.keyword_scopes ≡ [])
unfolding is_keyword
deleted_keyword_example =
    delete-get env env-IsServing 1 1 world keyword world-IsSound (λ e. omega arith)
      (λ e. omega arith) refl

changes_example :
    IsSound (create env input world).1
    × IsSound (update env (record { id = 1; input = input }) world).1
    × IsSound (patch_enabled env (record { org_id = 1; keyword_id = 1; enabled = false }) world).1
    × IsSound (delete env 1 1 world).1
changes_example =
    keyword_changes-IsSound world world-IsSound env input (record { id = 1; input = input })
      (record { org_id = 1; keyword_id = 1; enabled = false }) 1 1

other_keywords_example :
    (keyword_view 1 1 (Keywords.create env (keyword_of env 0 normalized) [] world).1
      ≡ keyword_view 1 1 world)
    × (keyword_view 1 1 (Keywords.update env (keyword_of env 0 normalized) [] world).1
        ≡ keyword_view 1 1 world)
    × (keyword_view 1 1 (Keywords.delete env 1 7 world).1 ≡ keyword_view 1 1 world)
other_keywords_example =
    keyword_changes-others 1 1 env world (keyword_of env 0 normalized) [] 1 7 (λ e. omega arith)
      (λ e. omega arith) (λ e. omega arith)

hidden_example :
    let (r, w') = delete_category env 1 5 world in
    (r ≡ ok tt)
    × (first_where (is_keyword 1 1) w'.keywords ≡ some keyword)
    × (get env 1 1 w' ≡ failed keyword_not_found)
unfolding is_keyword is_category
hidden_example =
    delete_category-get env env-IsServing 1 5 1 world world-IsSound category keyword
      (λ e. omega arith) (λ e. omega arith) (λ e. omega arith) refl refl refl
