-- ===== src/Domain/ActionType.antt =====
-- Constants of internal/modules/articleinspect/domain/constants.go: ActionType.
use article_sentinel.Text.{Text, codes}

abbrev pub batch_ignore : Text
batch_ignore = codes "batch_ignore"

abbrev pub batch_process : Text
batch_process = codes "batch_process"

abbrev pub offline : Text
offline = codes "offline"

abbrev pub rectify : Text
rectify = codes "rectify"

abbrev pub republish : Text
republish = codes "republish"
