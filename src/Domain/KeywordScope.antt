-- ===== src/Domain/KeywordScope.antt =====
-- Constants of internal/modules/articleinspect/domain/constants.go: KeywordScope.
use article_sentinel.Text.{Text, codes}

abbrev pub title : Text
title = codes "title"

abbrev pub short_title : Text
short_title = codes "short_title"

abbrev pub rich_title : Text
rich_title = codes "rich_title"

abbrev pub keyword : Text
keyword = codes "keyword"

abbrev pub desc : Text
desc = codes "desc"

abbrev pub body : Text
body = codes "body"
