-- ===== src/Ingestion/Runtime.antt =====
-- packages/event-ingestion-worker/src/runtime and infrastructure/broker: from a message of the
-- broker to its acknowledgement. `JSON.parse` of the decoded bytes and the decorators of the
-- `class-validator` package are parameters; a decorator's check gives the value that it has found to
-- be of its type. The broker's client is the sequence of the acknowledgements that it was handed.
use webhook_idp.Common.{ℕ, Bool, false, Option, none, some, List, [], ◌∷◌, ◌++◌, if◌then◌else◌}
use webhook_idp.Common.Text.{Text, txt, ◌===◌}
use webhook_idp.Common.Exec.{Result, ok, err, ◌>>=◌}
use webhook_idp.Common.State.{Exec}
use webhook_idp.Ingestion.Inbox.{Json, null, object, Fields, no_fields, field}
use webhook_idp.Ingestion.Store.{Exception, invalid_envelope, syntax_error, InboxRepository}
use webhook_idp.Ingestion.Ingest.{IngestEventInput, IngestEventResult, World, execute}

pub record BrokerMessage : Type 0 where
  pub body : Json
  pub broker_message_id : Option Text

pub record EventEnvelopeDto : Type 0 where
  pub event_id : Option Text
  pub correlation_id : Option Text
  pub tenant_id : Text
  pub event_type : Text
  pub payload : Json

-- `@IsString()`, `@IsUUID()` and `@IsObject()`
pub record Validators : Type 0 where
  pub is_string : Json → Option Text
  pub is_uuid : Json → Option Text
  pub is_object : Json → Option Json

-- A property of an object, where it is there.
unfoldable pub property : Text → Fields → Option Json
property name no_fields = none
property name (field key value rest) =
    let found = property name rest in if name === key then some value else found

unfoldable pub checked : {A : Type 0} → Text → Option A → Result Exception A
checked name (some value) = ok value
checked name none = err (invalid_envelope name)

-- A property whose decorators have no `@IsOptional()`.
unfoldable pub required : {A : Type 0} → Text → (Json → Option A) → Option Json → Result Exception A
required name check none = err (invalid_envelope name)
required name check (some value) = checked name (check value)

unfoldable pub present : Text → Result Exception Text → Result Exception (Option Text)
present name (ok value) = ok (some value)
present name (err e) = err e

-- `@IsOptional()`: a property that is missing or null is not checked, and is null to the use case.
unfoldable pub optional : Text → (Json → Option Text) → Option Json → Result Exception (Option Text)
optional name check none = ok none
optional name check (some null) = ok none
optional name check (some value) = present name (checked name (check value))

module _ (v : Validators) where
  unfoldable pub validate : Fields → Result Exception EventEnvelopeDto
  validate body = do
    event_id ← optional (txt "eventId") v.is_string (property (txt "eventId") body)
    correlation_id ← optional (txt "correlationId") v.is_uuid (property (txt "correlationId") body)
    tenant_id ← required (txt "tenantId") v.is_string (property (txt "tenantId") body)
    event_type ← required (txt "eventType") v.is_string (property (txt "eventType") body)
    payload ← required (txt "payload") v.is_object (property (txt "payload") body)
    ok (record {
      event_id = event_id;
      correlation_id = correlation_id;
      tenant_id = tenant_id;
      event_type = event_type;
      payload = payload;
    })

  -- `parseEnvelope`
  unfoldable pub parse_envelope : Json → Result Exception EventEnvelopeDto
  parse_envelope (object body) = validate body
  parse_envelope _ = err (invalid_envelope (txt "Envelope must be a JSON object"))

-- The message that the broker delivers: its tag, its bytes, its `messageId`.
pub record ConsumeMessage : Type 0 where
  pub tag : ℕ
  pub content : Text
  pub message_id : Option Text

pub data Settlement : Type 0 where
  ack : ℕ → Settlement
  nack : ℕ → Bool → Bool → Settlement

-- The worker: the world of its use case, and what it has told the broker.
pub record Worker {ℓ} (Db : Type ℓ) : Type ℓ where
  pub world : World Db
  pub settled : List Settlement

module _ (v : Validators) (json_parse : Text → Option Json) (repo : InboxRepository) where
  unfoldable pub input_of : EventEnvelopeDto → Option Text → IngestEventInput
  input_of envelope broker_message_id = record {
    event_id = envelope.event_id;
    correlation_id = envelope.correlation_id;
    tenant_id = envelope.tenant_id;
    event_type = envelope.event_type;
    payload = envelope.payload;
    broker_message_id = broker_message_id;
  }

  -- `IngestionRuntimeService.handle`, without its log line.
  unfoldable pub handle : BrokerMessage → Exec (World repo.Db) Exception IngestEventResult
  handle message w = elim (parse_envelope v message.body) [
    | ok envelope ↦ execute repo (input_of envelope message.broker_message_id) w
    | err e ↦ (err e, w)
  ]

  -- The body of the `try`.
  unfoldable pub process : ConsumeMessage → Exec (World repo.Db) Exception IngestEventResult
  process msg w = elim (json_parse msg.content) [
    | some body ↦ handle (record { body = body; broker_message_id = msg.message_id }) w
    | none ↦ (err syntax_error, w)
  ]

  abbrev pub settlement : ℕ → Result Exception IngestEventResult → Settlement
  settlement tag (ok _) = ack tag
  settlement tag (err _) = nack tag false false

  -- `handleMessage`: an acknowledgement if the handler returns, a refusal without requeueing if it
  -- throws.
  unfoldable pub handle_message : Option ConsumeMessage → Worker repo.Db → Worker repo.Db
  handle_message none s = s
  handle_message (some msg) s =
      let reply = process msg s.world in
      record { world = reply.1; settled = s.settled ++ settlement msg.tag reply.0 ∷ [] }
