-- ===== src/Rules/KeywordService.antt =====
-- rules/service_keywords.go, the results of dto_keywords.go, and rules/snapshot.go.
use article_sentinel.Base.{
  ℕ, Bool, ◌||◌, Option, List, [], ◌∷◌, map, ◌==◌, if◌then◌else◌, ℤ, pos, Result, ok, failed,
  and_then,
}
use article_sentinel.Text.{Text, trim_space}
use article_sentinel.Text.Order.{sort_strings}
use article_sentinel.Model.{InspectionKeyword, InspectionKeywordScope}
use article_sentinel.Scan.{KeywordRule}
use article_sentinel.Paging.{page_number, page_length}
use article_sentinel.Rules.{World, Env, RuleError, Attempt, invalid_keyword_input, unspecified}
use article_sentinel.Rules.Normalize.{
  CreateKeywordInput, NormalizedKeywordInput, normalize_create_keyword_input,
}
use article_sentinel.Rules.Keywords.{KeywordRecord}
use article_sentinel.Rules.Keywords

pub record UpdateKeywordInput : Type 0 where
  pub id : ℕ
  pub input : CreateKeywordInput

pub record PatchKeywordStatusInput : Type 0 where
  pub org_id : ℕ
  pub keyword_id : ℕ
  pub enabled : Bool

pub record KeywordListInput : Type 0 where
  pub org_id : ℕ
  pub page : ℤ
  pub page_size : ℤ
  pub enabled : Option Bool
  pub category_id : ℕ
  pub query : Text

pub record KeywordDto : Type 0 where
  pub id : ℕ
  pub org_id : ℕ
  pub name : Text
  pub category_id : ℕ
  pub category_name : Text
  pub match_type : Text
  pub risk_level : Text
  pub suggest_action : Text
  pub enabled : Bool
  pub remark : Text
  pub scopes : List Text
  pub creator_id : ℕ
  pub creator_name : Text
  pub updater_id : ℕ
  pub updater_name : Text

pub record KeywordListResult : Type 0 where
  pub page : ℕ
  pub page_size : ℕ
  pub total : ℕ
  pub items : List KeywordDto

unfoldable pub build_keyword_scopes : ℕ → List Text → List InspectionKeywordScope
build_keyword_scopes org_id [] = []
build_keyword_scopes org_id (scope ∷ scopes) =
    record { id = 0; org_id = org_id; keyword_id = 0; scope = scope }
    ∷ build_keyword_scopes org_id scopes

unfoldable pub build_keyword_dto : KeywordRecord → List InspectionKeywordScope → KeywordDto
build_keyword_dto r scopes =
    let k = r.keyword in
    record {
      id = k.id;
      org_id = k.org_id;
      name = k.name;
      category_id = k.category_id;
      category_name = r.category_name;
      match_type = k.match_type;
      risk_level = k.risk_level;
      suggest_action = k.suggest_action;
      enabled = k.enabled;
      remark = k.remark;
      scopes = sort_strings (map (λ s. s.scope) scopes);
      creator_id = k.creator_id;
      creator_name = k.creator_name;
      updater_id = k.updater_id;
      updater_name = k.updater_name;
    }

unfoldable pub stored_dto : Env → ℕ → ℕ → World → Result RuleError KeywordDto
unfolding build_keyword_dto Keywords.get
stored_dto env org_id id w =
    and_then (Keywords.get env org_id id w) (λ found. ok (build_keyword_dto found.0 found.1))

-- The row that `Create` builds of its input, and `Update` but for the creator.
abbrev pub keyword_of : Env → ℕ → NormalizedKeywordInput → InspectionKeyword
keyword_of env id n = record {
  id = id;
  org_id = n.org_id;
  name = n.name;
  category_id = n.category_id;
  match_type = n.match_type;
  risk_level = n.risk_level;
  suggest_action = n.suggest_action;
  enabled = n.enabled;
  remark = n.remark;
  creator_id = env.operator.id;
  creator_name = env.operator.name;
  updater_id = env.operator.id;
  updater_name = env.operator.name;
}

-- The answer after a change.
abbrev pub answer :
    Attempt × World → (World → Result RuleError KeywordDto) → Result RuleError KeywordDto × World
answer (failed e, w) read = (failed e, w)
answer (ok _, w) read = (read w, w)

unfoldable pub create : Env → CreateKeywordInput → World → Result RuleError KeywordDto × World
unfolding normalize_create_keyword_input build_keyword_scopes stored_dto Keywords.create
create env input w = elim (normalize_create_keyword_input env.unicode input) [
  | failed e ↦ (failed e, w)
  | ok n ↦
      answer (Keywords.create env (keyword_of env 0 n) (build_keyword_scopes n.org_id n.scopes) w)
        (stored_dto env n.org_id w.next_keyword_id)
]

-- `Update` after the normalisation.
abbrev pub update_normalized :
    Env → ℕ → World → Result RuleError NormalizedKeywordInput → Result RuleError KeywordDto × World
update_normalized env id w (failed e) = (failed e, w)
update_normalized env id w (ok n) =
    let keyword = record (keyword_of env id n) { creator_id = 0; creator_name = [] } in
    answer (Keywords.update env keyword (build_keyword_scopes n.org_id n.scopes) w)
      (stored_dto env n.org_id id)

unfoldable pub update : Env → UpdateKeywordInput → World → Result RuleError KeywordDto × World
unfolding normalize_create_keyword_input build_keyword_scopes stored_dto Keywords.update
update env input w =
    if input.id == 0
    then (failed (invalid_keyword_input unspecified), w)
    else update_normalized env input.id w (normalize_create_keyword_input env.unicode input.input)

unfoldable pub delete : Env → ℕ → ℕ → World → Attempt × World
unfolding Keywords.delete
delete env org_id id w =
    if org_id == 0 || id == 0
    then (failed (invalid_keyword_input unspecified), w)
    else Keywords.delete env org_id id w

unfoldable pub get : Env → ℕ → ℕ → World → Result RuleError KeywordDto
unfolding stored_dto
get env org_id id w =
    if org_id == 0 || id == 0
    then failed (invalid_keyword_input unspecified)
    else stored_dto env org_id id w

unfoldable pub patch_enabled :
    Env → PatchKeywordStatusInput → World → Result RuleError KeywordDto × World
unfolding stored_dto Keywords.patch_enabled
patch_enabled env input w =
    if input.org_id == 0 || input.keyword_id == 0
    then (failed (invalid_keyword_input unspecified), w)
    else answer
        (Keywords.patch_enabled env input.org_id input.keyword_id input.enabled env.operator.id
          env.operator.name w)
        (stored_dto env input.org_id input.keyword_id)

unfoldable pub list : Env → KeywordListInput → World → Result RuleError KeywordListResult
unfolding build_keyword_dto page_number page_length Keywords.list
list env input w =
    let page = page_number input.page in
    let page_size = page_length input.page_size in
    if input.org_id == 0
    then failed (invalid_keyword_input unspecified)
    else and_then
        (Keywords.list env
          (record {
            org_id = input.org_id;
            page = pos page;
            page_size = pos page_size;
            enabled = input.enabled;
            category_id = input.category_id;
            query = trim_space input.query;
          })
          w)
        (λ found. ok record {
          page = page;
          page_size = page_size;
          total = found.2;
          items = map (λ r. build_keyword_dto r (found.1 r.keyword.id)) found.0;
        })

-- `BuildKeywordRuleSnapshots`
unfoldable pub build_keyword_rule_snapshots :
    List KeywordRecord → (ℕ → List InspectionKeywordScope) → List KeywordRule
build_keyword_rule_snapshots [] scopes_by_keyword = []
build_keyword_rule_snapshots (r ∷ keywords) scopes_by_keyword =
    record {
      id = r.keyword.id;
      name = r.keyword.name;
      category = r.category_name;
      match_type = r.keyword.match_type;
      risk_level = r.keyword.risk_level;
      suggest_action = r.keyword.suggest_action;
      scopes = sort_strings (map (λ s. s.scope) (scopes_by_keyword r.keyword.id));
    }
    ∷ build_keyword_rule_snapshots keywords scopes_by_keyword
