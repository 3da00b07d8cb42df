-- ===== src/Subscription/Errors.antt =====
-- packages/webhook-api/src/domain/subscription/subscription.errors.ts. An error is its class with
-- its code, where the class leaves that open, and its message.
use webhook_idp.Common.Text.{Text, txt}

pub data TargetUrlErrorCode : Type 0 where
  url_too_long invalid_url_format https_required credentials_not_allowed private_host_not_allowed :
      TargetUrlErrorCode

pub data DomainError : Type 0 where
  invalid_target_url : TargetUrlErrorCode → Text → DomainError
  invalid_event_type invalid_status_transition invalid_identifier : Text → DomainError

unfoldable pub target_url_code : TargetUrlErrorCode → Text
target_url_code url_too_long = txt "URL_TOO_LONG"
target_url_code invalid_url_format = txt "INVALID_URL_FORMAT"
target_url_code https_required = txt "HTTPS_REQUIRED"
target_url_code credentials_not_allowed = txt "CREDENTIALS_NOT_ALLOWED"
target_url_code private_host_not_allowed = txt "PRIVATE_HOST_NOT_ALLOWED"

-- `error.code`
unfoldable pub code : DomainError → Text
unfolding target_url_code
code (invalid_target_url c _) = target_url_code c
code (invalid_event_type _) = txt "INVALID_EVENT_TYPE"
code (invalid_status_transition _) = txt "INVALID_STATUS_TRANSITION"
code (invalid_identifier _) = txt "INVALID_IDENTIFIER"

-- `error.message`
unfoldable pub message : DomainError → Text
message (invalid_target_url _ m) = m
message (invalid_event_type m) = m
message (invalid_status_transition m) = m
message (invalid_identifier m) = m
