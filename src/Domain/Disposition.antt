-- ===== src/Domain/Disposition.antt =====
-- Constants of internal/modules/articleinspect/domain/constants.go: Disposition.
use article_sentinel.Text.{Text, codes}

abbrev pub pending : Text
pending = codes "pending"

abbrev pub ignored : Text
ignored = codes "ignored"

abbrev pub processed : Text
processed = codes "processed"

abbrev pub offlined : Text
offlined = codes "offlined"
