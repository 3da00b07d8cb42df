-- ===== src/Sandbox.antt =====
-- packages/idp/src/sandbox-api: the route that publishes an event onto the broker, as an internal
-- service would. `randomUUID()` takes the next of the texts that it will return; `JSON.stringify`,
-- the broker's channel and the decorators of the `class-validator` package are parameters.
pub mod Intercepted
pub mod Validated
pub mod Posted
pub mod Delivered
use webhook_idp.Common.{
  ℕ, ◌+◌, ◌≡◌, Bool, true, false, not, Option, none, some, List, [], ◌∷◌, ◌++◌, ◌==◌, length,
  if◌then◌else◌,
}
use webhook_idp.Common.Text.{Text, txt, ◌===◌}
use webhook_idp.Common.Exec.{Result, ok, err, ◌>>=◌ as bind_result}
use webhook_idp.Common.State.{Exec, pure, lift, ◌>>=◌, ◌>>◌}
use webhook_idp.Ingestion.Inbox.{
  Json, null, boolean, number, string, array, object, Fields, no_fields, field,
}
use webhook_idp.Ingestion.Runtime.{Validators, property}

-- `EventEnvelope`, which `CreateEventDto` and `CreateSandboxEventInput` have the shape of.
pub record EventEnvelope : Type 0 where
  pub event_id : Option Text
  pub correlation_id : Option Text
  pub tenant_id : Text
  pub event_type : Text
  pub payload : Json

-- A message as the publisher hands it over: its bytes, and its properties.
pub record Sent : Type 0 where
  pub body : Text
  pub content_type : Text
  pub correlation_id : Option Text

-- What the route may throw: a body that validation refuses, at a property, or a rejection by the
-- broker.
pub data Exception : Type 0 where
  bad_request : Text → Exception
  broker : Text → Exception

-- The broker's channel. A queue holds its messages in the order in which they were accepted.
pub record Channel : Type 1 where
  pub State : Type 0
  pub messages : State → Text → List Sent
  pub send_to_queue : Text → Sent → Exec State Exception (Unit {0})
  pub accepts :
      (queue : Text) (sent : Sent) (s : State)
      → (send_to_queue queue sent s).0 ≡ ok tt
      → messages (send_to_queue queue sent s).1 queue ≡ messages s queue ++ sent ∷ []

pub record World {ℓ} (State : Type ℓ) : Type ℓ where
  pub channel : State
  pub randoms : ℕ → Text
  pub drawn : ℕ

-- The values that `!value` is false of; a number is zero if its text is.
unfoldable pub truthy : Json → Bool
truthy null = false
truthy (boolean b) = b
truthy (number text) = not (text === txt "0")
truthy (string text) = not (length text == 0)
truthy (array _) = true
truthy (object _) = true

unfoldable pub is_truthy : Option Json → Bool
is_truthy none = false
is_truthy (some value) = truthy value

unfoldable pub replace : Text → Json → Fields → Fields
replace name value no_fields = no_fields
replace name value (field key old rest) =
    field key (if name === key then value else old) (replace name value rest)

unfoldable pub append : Text → Json → Fields → Fields
append name value no_fields = field name value no_fields
append name value (field key old rest) = field key old (append name value rest)

-- `body[name] = value`
unfoldable pub assign : Text → Json → Fields → Fields
assign name value fields = elim (property name fields) [
  | some _ ↦ replace name value fields
  | none ↦ append name value fields
]

unfoldable pub demanded : {A : Type 0} → Text → (Json → Option A) → Option Json → Result Exception A
demanded name check none = err (bad_request name)
demanded name check (some value) = elim (check value) [
  | some a ↦ ok a
  | none ↦ err (bad_request name)
]

-- `@IsOptional()`
unfoldable pub allowed :
    {A : Type 0} → Text → (Json → Option A) → Option Json → Result Exception (Option A)
allowed name check none = ok none
allowed name check (some null) = ok none
allowed name check (some value) = bind_result (demanded name check (some value)) λ a. ok (some a)

module _ {State : Type 0} where
  -- `randomUUID()`
  abbrev pub random_uuid : Exec (World State) Exception Text
  random_uuid w = (ok (w.randoms w.drawn), record w { drawn = w.drawn + 1 })

  -- `CorrelationIdInterceptor.intercept`: the body that the handler gets. An array is an object of
  -- the language too: it uses an id up, and has the same items after it.
  unfoldable pub intercept : Json → Exec (World State) Exception Json
  intercept (object body) =
      if is_truthy (property (txt "correlationId") body)
      then pure (object body)
      else random_uuid >>= λ id. pure (object (assign (txt "correlationId") (string id) body))
  intercept (array items) = random_uuid >>= λ id. pure (array items)
  intercept body = pure body

-- `CreateEventDto`, as validation makes it of the body of a request; `eventId` is excluded.
unfoldable pub create_event_dto : Validators → Json → Result Exception EventEnvelope
create_event_dto v (object body) =
    bind_result (allowed (txt "correlationId") v.is_uuid (property (txt "correlationId") body))
      λ correlation_id.
        bind_result (demanded (txt "tenantId") v.is_string (property (txt "tenantId") body))
          λ tenant_id.
            bind_result (demanded (txt "eventType") v.is_string (property (txt "eventType") body))
              λ event_type.
                bind_result (demanded (txt "payload") v.is_object (property (txt "payload") body))
                  λ payload. ok (record {
                    event_id = none;
                    correlation_id = correlation_id;
                    tenant_id = tenant_id;
                    event_type = event_type;
                    payload = payload;
                  })
create_event_dto v _ = err (bad_request (txt "body"))

-- A property that is undefined is not printed.
abbrev pub optional_field : Text → Option Text → Fields → Fields
optional_field name none rest = rest
optional_field name (some text) rest = field name (string text) rest

-- `{ ...envelope, eventId }`; the order of the properties is of no account.
unfoldable pub envelope_fields : EventEnvelope → Text → Fields
envelope_fields envelope event_id = optional_field (txt "correlationId") envelope.correlation_id (
    field (txt "tenantId") (string envelope.tenant_id) (
      field (txt "eventType") (string envelope.event_type) (
        field (txt "payload") envelope.payload
          (field (txt "eventId") (string event_id) no_fields))))

module _ (json_stringify : Json → Text) (channel : Channel) (queue application_name : Text) where
  -- `envelope.eventId ?? …`
  unfoldable pub event_id_of : Option Text → Exec (World channel.State) Exception Text
  event_id_of (some id) = pure id
  event_id_of none = random_uuid >>= λ uuid. pure (application_name ++ (txt "-" ++ uuid))

  abbrev pub send : Sent → Exec (World channel.State) Exception (Unit {0})
  send sent w =
      let reply = channel.send_to_queue queue sent w.channel in
      (reply.0, record w { channel = reply.1 })

  -- `RabbitMqBrokerPublisherAdapter.publish`, without its log line.
  unfoldable pub publish : EventEnvelope → Exec (World channel.State) Exception (Unit {0})
  publish envelope = do
    event_id ← event_id_of envelope.event_id
    send (record {
      body = json_stringify (object (envelope_fields envelope event_id));
      content_type = txt "application/json";
      correlation_id = envelope.correlation_id;
    })

  -- `SandboxService.publish`
  unfoldable pub service_publish : EventEnvelope → Exec (World channel.State) Exception Bool
  service_publish input = do publish input; pure true

  -- `SandboxController.create`, with the interceptor and the validation before it.
  unfoldable pub create : Validators → Json → Exec (World channel.State) Exception Bool
  create v raw = do
    body ← intercept raw
    dto ← lift (create_event_dto v body)
    result ← service_publish dto
    pure result
