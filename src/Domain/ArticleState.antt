-- ===== src/Domain/ArticleState.antt =====
-- Constants of internal/modules/articleinspect/domain/constants.go: ArticleState.
use article_sentinel.Base.{ℕ}

abbrev pub deleted : ℕ
deleted = 0

abbrev pub audit_pending : ℕ
audit_pending = 1

abbrev pub audit_back : ℕ
audit_back = 2

abbrev pub draft : ℕ
draft = 3

abbrev pub step : ℕ
step = 5

abbrev pub offline_sync : ℕ
offline_sync = 7

abbrev pub offline : ℕ
offline = 8

abbrev pub online : ℕ
online = 9
