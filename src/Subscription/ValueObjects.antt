-- ===== src/Subscription/ValueObjects.antt =====
-- packages/webhook-api/src/domain/subscription/value-objects: identifiers, event types, the status.
-- The `uuid` package's `validate` is the parameter `is_valid_uuid`; an id that it makes (`v7`) is an
-- input of the model, the argument of `generate`.
use webhook_idp.Common.{
  [], ◌∷◌, ◌≡◌, arith, Bool, ◌||◌, ◌==◌, if◌then◌else◌, length, all, ◌++◌, refl,
}
use webhook_idp.Common.Text.{Text, txt, is_blank, is_blank_lem, is_space, ◌===◌}
use webhook_idp.Common.Exec.{Result, ok, err}
use webhook_idp.Subscription.Errors.{DomainError, invalid_event_type, invalid_identifier}

pub record TenantId : Type 0 where
  pub value : Text

pub record ClientId : Type 0 where
  pub value : Text

pub record UserId : Type 0 where
  pub value : Text

pub record EventType : Type 0 where
  pub value : Text

pub record SubscriptionId : Type 0 where
  pub value : Text

pub data SubscriptionStatus : Type 0 where
  active paused deleted : SubscriptionStatus

-- `!value || value.trim().length === 0`
abbrev pub is_missing : Text → Bool
is_missing value = (length value == 0) || is_blank value

-- `TenantId.fromString`
unfoldable pub tenant_id_from_string : Text → Result DomainError TenantId
tenant_id_from_string value =
    if is_missing value
    then err (invalid_identifier (txt "TenantId must not be empty"))
    else ok (record { value = value })

-- `ClientId.fromString`
unfoldable pub client_id_from_string : Text → Result DomainError ClientId
client_id_from_string value =
    if is_missing value
    then err (invalid_identifier (txt "ClientId must not be empty"))
    else ok (record { value = value })

-- `UserId.fromString`
unfoldable pub user_id_from_string : Text → Result DomainError UserId
user_id_from_string value =
    if is_missing value
    then err (invalid_identifier (txt "UserId must not be empty"))
    else ok (record { value = value })

-- `EventType.fromString`
unfoldable pub event_type_from_string : Text → Result DomainError EventType
event_type_from_string value =
    if is_missing value
    then err (invalid_event_type (txt "EventType must not be empty"))
    else ok (record { value = value })

-- `TenantId.equals`
unfoldable pub tenant_id_equals : TenantId → TenantId → Bool
tenant_id_equals a b = a.value === b.value

-- `EventType.equals`
unfoldable pub event_type_equals : EventType → EventType → Bool
event_type_equals a b = a.value === b.value

-- `SubscriptionId.generate`, at the id that `uuidv7()` returns.
unfoldable pub subscription_id_generate : Text → SubscriptionId
subscription_id_generate uuid = record { value = uuid }

-- `SubscriptionId.fromString`
unfoldable pub subscription_id_from_string :
    (is_valid_uuid : Text → Bool) → Text → Result DomainError SubscriptionId
subscription_id_from_string is_valid_uuid value =
    if is_valid_uuid value
    then ok (record { value = value })
    else err (
        invalid_identifier
          (txt "SubscriptionId must be a valid UUID, got \"" ++ (value ++ txt "\"")))

is_missing_lem : (value : Text) → is_missing value ≡ all is_space value
is_missing_lem [] = refl
is_missing_lem (c ∷ value) = ground (arith, is_blank_lem (c ∷ value))

-- A tenant id, a client id, a user id and an event type are each accepted exactly when some code
-- unit of the text is no white space. They then hold the text unchanged, not trimmed; the refusal
-- of an event type is an `InvalidEventTypeError`, of the others an `InvalidIdentifierError`.
pub from_string_lem :
    (value : Text)
    → (tenant_id_from_string value ≡ (
        if all is_space value
        then err (invalid_identifier (txt "TenantId must not be empty"))
        else ok (record { value = value })))
      × (client_id_from_string value ≡ (
          if all is_space value
          then err (invalid_identifier (txt "ClientId must not be empty"))
          else ok (record { value = value })))
      × (user_id_from_string value ≡ (
          if all is_space value
          then err (invalid_identifier (txt "UserId must not be empty"))
          else ok (record { value = value })))
      × (event_type_from_string value ≡ (
          if all is_space value
          then err (invalid_event_type (txt "EventType must not be empty"))
          else ok (record { value = value })))
unfolding tenant_id_from_string client_id_from_string user_id_from_string event_type_from_string
from_string_lem value = rw is_missing_lem (refl, refl, refl, refl)
