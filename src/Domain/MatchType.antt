-- ===== src/Domain/MatchType.antt =====
-- Constants of internal/modules/articleinspect/domain/constants.go: MatchType.
use article_sentinel.Text.{Text, codes}

abbrev pub contains : Text
contains = codes "contains"

abbrev pub exact : Text
exact = codes "exact"

abbrev pub regex : Text
regex = codes "regex"
