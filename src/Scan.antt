-- ===== src/Scan.antt =====
-- internal/modules/articleinspect/scan/scanner.go: articles, rules and hits, and the pieces from
-- which a hit is built. An index of a text counts bytes.
pub mod Scanner
pub mod Occurrences
mod Tests
use article_sentinel.Base.{
  ℕ, ◌+◌, ◌-◌, Bool, true, false, ◌&&◌, Option, none, some, List, [], ◌++◌, leb, ltb, ◌==◌,
  if◌then◌else◌, length, not,
}
use article_sentinel.Text.{Text, codes, text_eq, is_empty, slice}
use article_sentinel.Text.Find.{contains}
use article_sentinel.Domain.KeywordScope

pub record CandidateArticle : Type 0 where
  pub id : ℕ
  pub org_id : ℕ
  pub title : Text
  pub short_title : Text
  pub rich_title : Text
  pub keyword : Text
  pub desc : Text
  pub body : Text
  pub state : ℕ
  pub publish_at_time : Option ℕ

pub record KeywordRule : Type 0 where
  pub id : ℕ
  pub name : Text
  pub category : Text
  pub match_type : Text
  pub risk_level : Text
  pub suggest_action : Text
  pub scopes : List Text

pub record Hit : Type 0 where
  pub keyword_id : ℕ
  pub keyword_text : Text
  pub category : Text
  pub field_name : Text
  pub match_type : Text
  pub risk_level : Text
  pub suggest_action : Text
  pub matched_text : Text
  pub snippet : Text
  pub position_start : ℕ
  pub position_end : ℕ

-- The two settings are positive or stand for their defaults, so that 0 stands for no value.
pub record KeywordScanner : Type 0 where
  pub snippet_context : ℕ
  pub max_regex_length : ℕ

unfoldable pub new_keyword_scanner : KeywordScanner
new_keyword_scanner = record { snippet_context = 24; max_regex_length = 128 }

-- The outcome of Go code that may index out of range; `out_of_fuel` is no behaviour of the code,
-- and is proved not to occur.
pub data Run {ℓ} (A : Type ℓ) : Type ℓ where
  done : A → Run A
  panicked : Run A
  out_of_fuel : Run A

infixl 5 ◌>>=◌
abbrev pub ◌>>=◌ {ℓ κ} : {A : Type ℓ} {B : Type κ} → Run A → (A → Run B) → Run B
done a >>= f = f a
panicked >>= f = panicked
out_of_fuel >>= f = out_of_fuel

-- `s[i:j]`
unfoldable pub checked_slice : Text → ℕ → ℕ → Run Text
unfolding slice
checked_slice s i j = if leb i j && leb j (length s) then done (slice s i j) else panicked

unfoldable pub article_field_value : CandidateArticle → Text → Text
article_field_value a scope =
    if text_eq scope KeywordScope.title
    then a.title
    else if text_eq scope KeywordScope.short_title
    then a.short_title
    else if text_eq scope KeywordScope.rich_title
    then a.rich_title
    else if text_eq scope KeywordScope.keyword
    then a.keyword
    else if text_eq scope KeywordScope.desc
    then a.desc
    else if text_eq scope KeywordScope.body
    then a.body
    else []

-- `start - window`, not below 0.
abbrev pub snippet_start : ℕ → ℕ → ℕ
snippet_start start window = if ltb start window then 0 else start - window

-- `end + window`, not past the text.
abbrev pub snippet_end : Text → ℕ → ℕ → ℕ
snippet_end text end window = if ltb (length text) (end + window) then length text else end + window

unfoldable pub build_snippet : Text → ℕ → ℕ → ℕ → Run Text
unfolding checked_slice
build_snippet text start end context_window =
    if is_empty text
    then done []
    else let window = if context_window == 0 then 24 else context_window in
      let i = snippet_start start window in
      let j = snippet_end text end window in
      let prefix = if ltb 0 i then codes "..." else [] in
      let suffix = if ltb j (length text) then codes "..." else [] in
      (checked_slice text i j >>= λ middle. done (prefix ++ (middle ++ suffix)))

-- The fields of a hit.
abbrev pub hit_of : KeywordRule → Text → Text → Text → ℕ → ℕ → Hit
hit_of rule field_name matched snippet start end = record {
  keyword_id = rule.id;
  keyword_text = rule.name;
  category = rule.category;
  field_name = field_name;
  match_type = rule.match_type;
  risk_level = rule.risk_level;
  suggest_action = rule.suggest_action;
  matched_text = matched;
  snippet = snippet;
  position_start = start;
  position_end = end;
}

unfoldable pub build_hit : KeywordRule → Text → Text → Text → ℕ → ℕ → ℕ → Run Hit
unfolding build_snippet
build_hit rule field_name full_text matched start end context_window =
    build_snippet full_text start end context_window >>= λ snippet.
    done (hit_of rule field_name matched snippet start end)

unfoldable pub is_safe_regex_pattern : Text → ℕ → Bool
is_safe_regex_pattern pattern max_length =
    if ltb (if max_length == 0 then 128 else max_length) (length pattern)
    then false
    else not (contains pattern (codes "(?"))
