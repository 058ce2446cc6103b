-- ===== src/Domain/TaskStatus.antt =====
-- Constants of internal/modules/articleinspect/domain/constants.go: TaskStatus.
use article_sentinel.Text.{Text, codes}

abbrev pub pending : Text
pending = codes "pending"

abbrev pub running : Text
running = codes "running"

abbrev pub success : Text
success = codes "success"

abbrev pub failed : Text
failed = codes "failed"

abbrev pub partial_success : Text
partial_success = codes "partial_success"
