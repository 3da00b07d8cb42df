-- ===== src/Ingestion/Inbox.antt =====
-- packages/event-ingestion-worker/src/domain/inbox: the errors, the value objects and the inbox
-- record. The `uuid` package's `validate` is the parameter `is_valid_uuid`; an id that it makes
-- (`v7`) is an argument.
use webhook_idp.Common.{Bool, true, false, ◌||◌, ◌++◌, ◌==◌, if◌then◌else◌, length}
use webhook_idp.Common.Text.{Text, txt, is_blank}
use webhook_idp.Common.Exec.{Result, ok, err}
use webhook_idp.Common.State.{Exec}
use webhook_idp.Subscription.Events.{Date, Clock, now, tick}

-- A value that `JSON.parse` may return. A number stands by its text.
mutual
  pub data Json : Type 0 where
    null : Json
    boolean : Bool → Json
    number : Text → Json
    string : Text → Json
    array : Items → Json
    object : Fields → Json

  pub data Items : Type 0 where
    no_items : Items
    item : Json → Items → Items

  pub data Fields : Type 0 where
    no_fields : Fields
    field : Text → Json → Fields → Fields

pub data DomainError : Type 0 where
  invalid_identifier invalid_event_type invalid_payload : Text → DomainError

pub record TenantId : Type 0 where
  pub value : Text

pub record CorrelationId : Type 0 where
  pub value : Text

pub record EventType : Type 0 where
  pub value : Text

pub record DedupKey : Type 0 where
  pub value : Text

pub record InboxRecordId : Type 0 where
  pub value : Text

pub data InboxRecordStatus : Type 0 where
  ingested : InboxRecordStatus

-- `!value || value.trim().length === 0`
unfoldable pub is_missing : Text → Bool
is_missing value = (length value == 0) || is_blank value

-- `TenantId.fromString`
unfoldable pub tenant_id_from_string : Text → Result DomainError TenantId
tenant_id_from_string value =
    if is_missing value
    then err (invalid_identifier (txt "TenantId must not be empty"))
    else ok (record { value = value })

-- `CorrelationId.fromString`
unfoldable pub correlation_id_from_string : Text → Result DomainError CorrelationId
correlation_id_from_string value =
    if is_missing value
    then err (invalid_identifier (txt "CorrelationId must not be empty"))
    else ok (record { value = value })

-- `EventType.fromString`
unfoldable pub event_type_from_string : Text → Result DomainError EventType
event_type_from_string value =
    if is_missing value
    then err (invalid_event_type (txt "EventType must not be empty"))
    else ok (record { value = value })

-- `DedupKey.fromString`
unfoldable pub dedup_key_from_string : Text → Result DomainError DedupKey
dedup_key_from_string value =
    if is_missing value
    then err (invalid_identifier (txt "DedupKey must not be empty"))
    else ok (record { value = value })

-- `InboxRecordId.fromString`
unfoldable pub inbox_record_id_from_string :
    (is_valid_uuid : Text → Bool) → Text → Result DomainError InboxRecordId
inbox_record_id_from_string is_valid_uuid value =
    if is_valid_uuid value
    then ok (record { value = value })
    else err (
        invalid_identifier
          (txt "InboxRecordId must be a valid UUID, got \"" ++ (value ++ txt "\"")))

pub record IngestInboxRecordParams : Type 0 where
  pub dedup_key : DedupKey
  pub tenant_id : TenantId
  pub correlation_id : CorrelationId
  pub event_type : EventType
  pub payload : Json

pub record InboxRecord : Type 0 where
  pub id : InboxRecordId
  pub dedup_key : DedupKey
  pub tenant_id : TenantId
  pub correlation_id : CorrelationId
  pub event_type : EventType
  pub payload : Json
  pub received_at : Date
  pub status : InboxRecordStatus

pub record RestoreInboxRecordProps : Type 0 where
  pub id : InboxRecordId
  pub dedup_key : DedupKey
  pub tenant_id : TenantId
  pub correlation_id : CorrelationId
  pub event_type : EventType
  pub payload : Json
  pub received_at : Date
  pub status : InboxRecordStatus

-- `InboxRecord.restore`
abbrev pub restore : RestoreInboxRecordProps → InboxRecord
restore props = record {
  id = props.id;
  dedup_key = props.dedup_key;
  tenant_id = props.tenant_id;
  correlation_id = props.correlation_id;
  event_type = props.event_type;
  payload = props.payload;
  received_at = props.received_at;
  status = props.status;
}

-- `payload === null || typeof payload !== 'object' || Array.isArray(payload)`, negated.
unfoldable pub is_json_object : Json → Bool
is_json_object (object _) = true
is_json_object _ = false

-- `assertValidPayload`
unfoldable pub assert_valid_payload : Json → Result DomainError (Unit {0})
assert_valid_payload payload =
    if is_json_object payload
    then ok tt
    else err (invalid_payload (txt "payload must be a non-null, non-array object"))

-- `InboxRecord.ingest`, at the id that `uuidv7()` returns. The clock is read where the payload is
-- accepted.
unfoldable pub ingest : Text → IngestInboxRecordParams → Exec Clock DomainError InboxRecord
ingest uuid params clock = elim (assert_valid_payload params.payload) [
  | ok _ ↦ (
    ok (record {
      id = record { value = uuid };
      dedup_key = params.dedup_key;
      tenant_id = params.tenant_id;
      correlation_id = params.correlation_id;
      event_type = params.event_type;
      payload = params.payload;
      received_at = now clock;
      status = ingested;
    }),
    tick clock,
  )
  | err e ↦ (err e, clock)
]
