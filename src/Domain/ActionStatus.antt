-- ===== src/Domain/ActionStatus.antt =====
-- Constants of internal/modules/articleinspect/domain/constants.go: ActionStatus.
use article_sentinel.Text.{Text, codes}

abbrev pub running : Text
running = codes "running"

abbrev pub success : Text
success = codes "success"

abbrev pub skipped : Text
skipped = codes "skipped"

abbrev pub failed : Text
failed = codes "failed"
