-- ===== src/Domain.antt =====
-- The constants of internal/modules/articleinspect/domain/constants.go; each group of them is a
-- child module.
pub mod ArticleState
pub mod MatchType
pub mod KeywordScope
pub mod TaskStatus
pub mod OutboxStatus
pub mod OutboxError
pub mod Disposition
pub mod ActionStatus
pub mod ActionType
use article_sentinel.Base.{List, [], ◌∷◌}
use article_sentinel.Text.{Text, codes}

abbrev pub message_type_run_task : Text
message_type_run_task = codes "articleinspect.task.run"

abbrev pub keyword_scopes : List Text
keyword_scopes =
    KeywordScope.title ∷ KeywordScope.short_title ∷ KeywordScope.rich_title ∷ KeywordScope.keyword
    ∷ KeywordScope.desc ∷ KeywordScope.body ∷ []

abbrev pub match_types : List Text
match_types = MatchType.contains ∷ MatchType.exact ∷ MatchType.regex ∷ []

abbrev pub risk_levels : List Text
risk_levels = codes "low" ∷ codes "medium" ∷ codes "high" ∷ []

abbrev pub suggest_actions : List Text
suggest_actions = codes "ignore" ∷ codes "process" ∷ codes "offline" ∷ []
