-- ===== src/Domain/OutboxError.antt =====
-- Constants of internal/modules/articleinspect/domain/constants.go: OutboxError.
use article_sentinel.Text.{Text, codes}

abbrev pub dispatch : Text
dispatch = codes "dispatch_error"

abbrev pub dispatcher_unavailable : Text
dispatcher_unavailable = codes "dispatcher_unavailable"

abbrev pub payload_decode : Text
payload_decode = codes "payload_decode_error"

abbrev pub unsupported_message : Text
unsupported_message = codes "unsupported_message_type"
