-- ===== src/Rules/Normalize.antt =====
-- rules/validator_keywords.go, and the inputs of dto_keywords.go.
use article_sentinel.Base.{
  ℕ, Bool, true, false, List, [], ◌∷◌, ◌++◌, ◌==◌, if◌then◌else◌, not, Result, ok, failed, and_then,
}
use article_sentinel.Text.{Text, Unicode, is_empty, to_lower, trim_space}
use article_sentinel.Text.Order.{contains_string, sort_strings}
use article_sentinel.Domain.{match_types, risk_levels, suggest_actions, keyword_scopes}
use article_sentinel.Rules.{
  RuleError, KeywordFault, invalid_keyword_input, orgid_is_required, name_is_required,
  category_id_is_required, scopes_are_required, unsupported_match_type, unsupported_risk_level,
  unsupported_suggest_action, unsupported_scope,
}

pub record CreateKeywordInput : Type 0 where
  pub org_id : ℕ
  pub name : Text
  pub category_id : ℕ
  pub match_type : Text
  pub risk_level : Text
  pub suggest_action : Text
  pub enabled : Bool
  pub remark : Text
  pub scopes : List Text

pub record NormalizedKeywordInput : Type 0 where
  pub org_id : ℕ
  pub name : Text
  pub category_id : ℕ
  pub match_type : Text
  pub risk_level : Text
  pub suggest_action : Text
  pub enabled : Bool
  pub remark : Text
  pub scopes : List Text

-- `strings.TrimSpace(strings.ToLower(s))`
unfoldable pub clean : Unicode → Text → Text
unfolding to_lower trim_space
clean u s = trim_space (to_lower u s)

-- The loop of `normalizeKeywordScopes`; `normalized` holds what `seen` holds.
unfoldable pub collect_scopes : Unicode → List Text → List Text → Result RuleError (List Text)
unfolding clean contains_string
collect_scopes u [] normalized = ok normalized
collect_scopes u (s ∷ scopes) normalized =
    let scope = clean u s in
    let rest =
      collect_scopes u scopes
        (if contains_string normalized scope then normalized else normalized ++ scope ∷ []) in
    if not (contains_string keyword_scopes scope)
    then failed (invalid_keyword_input (unsupported_scope scope))
    else rest

unfoldable pub normalize_keyword_scopes : Unicode → List Text → Result RuleError (List Text)
unfolding collect_scopes
normalize_keyword_scopes u [] = failed (invalid_keyword_input scopes_are_required)
normalize_keyword_scopes u (s ∷ scopes) =
    and_then (collect_scopes u (s ∷ scopes) []) (λ normalized. ok (sort_strings normalized))

-- The check of a field: the error with `fault`, or what follows.
unfoldable pub require :
    Bool
    → KeywordFault
    → Result RuleError NormalizedKeywordInput
    → Result RuleError NormalizedKeywordInput
require false fault rest = failed (invalid_keyword_input fault)
require true fault rest = rest

unfoldable pub normalize_create_keyword_input :
    Unicode → CreateKeywordInput → Result RuleError NormalizedKeywordInput
unfolding clean contains_string trim_space normalize_keyword_scopes require
normalize_create_keyword_input u input =
    let name = trim_space input.name in
    let match_type = clean u input.match_type in
    let risk_level = clean u input.risk_level in
    let suggest_action = clean u input.suggest_action in
    require (not (input.org_id == 0)) orgid_is_required (
      require (not (is_empty name)) name_is_required (
        require (not (input.category_id == 0)) category_id_is_required (
          require (contains_string match_types match_type) (unsupported_match_type input.match_type)
            (require (contains_string risk_levels risk_level)
              (unsupported_risk_level input.risk_level)
              (require (contains_string suggest_actions suggest_action)
                (unsupported_suggest_action input.suggest_action)
                (and_then (normalize_keyword_scopes u input.scopes) (λ scopes. ok record {
                  org_id = input.org_id;
                  name = name;
                  category_id = input.category_id;
                  match_type = match_type;
                  risk_level = risk_level;
                  suggest_action = suggest_action;
                  enabled = input.enabled;
                  remark = trim_space input.remark;
                  scopes = scopes;
                })))))))
