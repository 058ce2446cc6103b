-- ===== src/Rules.antt =====
-- internal/modules/articleinspect/rules: categories and keywords, the tables that they stand in, and
-- what the package reads of its surroundings.
pub mod Normalize
pub mod Keywords
pub mod KeywordService
pub mod Categories
pub mod Hidden
pub mod Canonical
pub mod View
pub mod Changes
pub mod Sound
pub mod Preserve
pub mod Serve
pub mod Normalized
pub mod Read
pub mod RoundTrip
pub mod Others
mod Tests
use article_sentinel.Base.{ℕ, Bool, Option, none, some, List, Result, ok, failed}
use article_sentinel.Text.{Text, Unicode}
use article_sentinel.Model.{
  ChuangqiOrg, InspectionCategory, InspectionKeyword, InspectionKeywordScope,
}
use article_sentinel.Audit.{Operator}

pub record World : Type 0 where
  pub orgs : List ChuangqiOrg
  pub categories : List InspectionCategory
  pub keywords : List InspectionKeyword
  pub keyword_scopes : List InspectionKeywordScope
  pub next_category_id : ℕ
  pub next_keyword_id : ℕ
  pub next_scope_id : ℕ

-- What an error of `ErrInvalidKeywordInput` says besides.
pub data KeywordFault : Type 0 where
  unspecified : KeywordFault
  orgid_is_required name_is_required category_id_is_required scopes_are_required : KeywordFault
  unsupported_match_type unsupported_risk_level unsupported_suggest_action unsupported_scope :
      Text → KeywordFault

pub data RuleError : Type 0 where
  invalid_keyword_input : KeywordFault → RuleError
  keyword_not_found : RuleError
  invalid_category_input : KeywordFault → RuleError
  category_not_found : RuleError
  database : Text → RuleError

-- The Unicode tables, the operator of the request and the server: how it compares by a column's
-- collation (`collate`) and by `LIKE` (`like text value`, the pattern being `%text%`), what it stores
-- of a Boolean column with a default when a row is created (`stored default value`), of which rows
-- an update changes `update_at`, whose column keeps whole seconds (`touches_keyword` and
-- `touches_category`), and which statement it refuses.
pub record Env : Type 0 where
  pub unicode : Unicode
  pub operator : Operator
  pub collate : Text → Text → Bool
  pub like : Text → Text → Bool
  pub stored : Bool → Bool → Bool
  pub touches_keyword : InspectionKeyword → Bool
  pub touches_category : InspectionCategory → Bool
  pub count_error : Option Text
  pub write_error : Option Text
  pub delete_scopes_error : Option Text
  pub create_scopes_error : Option Text
  pub commit_error : Option Text
  pub find_error : Option Text
  pub find_scopes_error : Option Text

-- A statement that the server refuses.
abbrev pub statement {ℓ} : {A : Type ℓ} → Option Text → Result RuleError A → Result RuleError A
statement none r = r
statement (some e) r = failed (database e)

-- What a change without an answer returns.
abbrev pub Attempt : Type 0
Attempt = Result {0, 0} RuleError Unit

-- `Transaction`: an error in it, or in its commit, undoes all of it.
abbrev pub transaction : Option Text → Result RuleError World → World → Attempt × World
transaction commit_error (failed e) w = (failed e, w)
transaction none (ok w') w = (ok tt, w')
transaction (some e) (ok w') w = (failed (database e), w)
