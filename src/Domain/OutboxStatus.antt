-- ===== src/Domain/OutboxStatus.antt =====
-- Constants of internal/modules/articleinspect/domain/constants.go: OutboxStatus.
use article_sentinel.Text.{Text, codes}

abbrev pub pending : Text
pending = codes "pending"

abbrev pub claimed : Text
claimed = codes "claimed"

abbrev pub dispatched : Text
dispatched = codes "dispatched"

abbrev pub dead_letter : Text
dead_letter = codes "dead_letter"
