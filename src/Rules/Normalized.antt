-- ===== src/Rules/Normalized.antt =====
-- What an input that `normalizeCreateKeywordInput` accepts is.
use article_sentinel.Base.{
  Bool, true, false, ◌≡◌, ◌≢◌, refl, sym, ap, ◌∙◌, arith, List, ◌==◌, ==_iff, not, Result, ok,
  failed, and_then, sort_sorted,
}
use article_sentinel.Text.{Text, Unicode, is_empty, trim_space}
use article_sentinel.Text.Order.{text_leb, sort_strings, contains_string}
use article_sentinel.Domain.{match_types, risk_levels, suggest_actions}
use article_sentinel.Rules.{
  RuleError, KeywordFault, orgid_is_required, name_is_required, category_id_is_required,
  unsupported_match_type, unsupported_risk_level, unsupported_suggest_action,
}
use article_sentinel.Rules.Normalize.{
  CreateKeywordInput, NormalizedKeywordInput, require, clean, normalize_keyword_scopes,
  normalize_create_keyword_input,
}
use article_sentinel.Rules.Canonical.{normalized-IsCanonical}

require_passed :
    (b : Bool) (fault : KeywordFault) (r : Result RuleError NormalizedKeywordInput)
    {n : NormalizedKeywordInput}
    → require b fault r ≡ ok n
    → (b ≡ true) × (r ≡ ok n)
unfolding require
require_passed true fault r h = (refl, h)
require_passed false fault r h = absurd cc

abbrev normalized_of : Unicode → CreateKeywordInput → List Text → NormalizedKeywordInput
normalized_of u input scopes = record {
  org_id = input.org_id;
  name = trim_space input.name;
  category_id = input.category_id;
  match_type = clean u input.match_type;
  risk_level = clean u input.risk_level;
  suggest_action = clean u input.suggest_action;
  enabled = input.enabled;
  remark = trim_space input.remark;
  scopes = scopes;
}

built_fields :
    (u : Unicode) (input : CreateKeywordInput) (n : NormalizedKeywordInput)
    (r : Result RuleError (List Text))
    → and_then r (λ scopes. ok (normalized_of u input scopes)) ≡ ok n
    → (r ≡ ok n.scopes) × (n ≡ normalized_of u input n.scopes)
built_fields u input n (failed e) h = absurd cc
built_fields u input n (ok scopes) h =
    let q : normalized_of u input scopes ≡ n = cc in
    let s : scopes ≡ n.scopes = ap (λ m. m.scopes) q in
    (ap ok s, sym q ∙ ap (normalized_of u input) s)

pub normalized_fields :
    (u : Unicode) (input : CreateKeywordInput) (n : NormalizedKeywordInput)
    → normalize_create_keyword_input u input ≡ ok n
    → (n.org_id ≢ 0) × (n.category_id ≢ 0) × (normalize_keyword_scopes u input.scopes ≡ ok n.scopes)
unfolding normalize_create_keyword_input
normalized_fields u input n h =
    let r6 =
      and_then (normalize_keyword_scopes u input.scopes)
        (λ scopes. ok (normalized_of u input scopes)) in
    let action_ok = contains_string suggest_actions (clean u input.suggest_action) in
    let r5 = require action_ok (unsupported_suggest_action input.suggest_action) r6 in
    let risk_ok = contains_string risk_levels (clean u input.risk_level) in
    let r4 = require risk_ok (unsupported_risk_level input.risk_level) r5 in
    let match_ok = contains_string match_types (clean u input.match_type) in
    let r3 = require match_ok (unsupported_match_type input.match_type) r4 in
    let r2 = require (not (input.category_id == 0)) category_id_is_required r3 in
    let r1 = require (not (is_empty (trim_space input.name))) name_is_required r2 in
    let (org, h1) = require_passed (not (input.org_id == 0)) orgid_is_required r1 h in
    let (name, h2) =
      require_passed (not (is_empty (trim_space input.name))) name_is_required r2 h1 in
    let (category, h3) =
      require_passed (not (input.category_id == 0)) category_id_is_required r3 h2 in
    let h4 = (require_passed match_ok (unsupported_match_type input.match_type) r4 h3).1 in
    let h5 = (require_passed risk_ok (unsupported_risk_level input.risk_level) r5 h4).1 in
    let h6 = (require_passed action_ok (unsupported_suggest_action input.suggest_action) r6 h5).1 in
    let (scopes, same) = built_fields u input n _ h6 in
    let o = ==_iff input.org_id 0 in
    let c = ==_iff input.category_id 0 in
    (
      rw (ap (λ m. m.org_id) same) (ground arith),
      rw (ap (λ m. m.category_id) same) (ground arith),
      scopes,
    )

pub canonical_scopes :
    (u : Unicode) (input : CreateKeywordInput) (n : NormalizedKeywordInput)
    → normalize_create_keyword_input u input ≡ ok n
    → sort_strings n.scopes ≡ n.scopes
canonical_scopes u input n h =
    let (org, category, scopes) = normalized_fields u input n h in
    sort_sorted text_leb n.scopes (normalized-IsCanonical u input.scopes n.scopes scopes).0
