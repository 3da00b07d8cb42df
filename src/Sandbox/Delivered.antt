-- ===== src/Sandbox/Delivered.antt =====
-- What the worker does with what the sandbox has published.
use webhook_idp.Common.{
  ◌≡◌, refl, sym, ap, ◌∙◌, subst, Bool, false, Option, none, some, [], ◌∷◌, ◌++◌, arith, all,
  length, ◌==◌, ℕ,
}
use webhook_idp.Common.Text.{Text, txt, ◌===◌, is_blank_lem, is_space}
use webhook_idp.Common.Exec.{ok}
use webhook_idp.Ingestion.Inbox.{
  Json, object, string, is_missing, InboxRecord, TenantId, EventType, dedup_key_from_string,
  correlation_id_from_string, tenant_id_from_string, event_type_from_string,
}
use webhook_idp.Ingestion.Store.{InboxRepository, InboxRecordDoc}
use webhook_idp.Ingestion.Ingest as Ingest
use webhook_idp.Ingestion.Ingest.{
  resolve_dedup_key, resolve_correlation_id, IngestEventInput, execute,
}
use webhook_idp.Ingestion.Runtime.{
  Validators, property, checked, required, present, optional, validate, parse_envelope,
  ConsumeMessage, ack, Worker, handle, process, handle_message, input_of, settlement,
}
use webhook_idp.Ingestion.Returning.{execute-returns}
use webhook_idp.Ingestion.Guarantees.{execute-stored, execute-inserted}
use webhook_idp.Sandbox.{EventEnvelope, Channel, envelope_fields}
use webhook_idp.Sandbox as Sandbox
use webhook_idp.Sandbox.Validated.{IsChecking, IsEnvelope}
use webhook_idp.Sandbox.Posted.{IsPosted}

all-false : (p : ℕ → Bool) (xs ys : Text) (y : ℕ) → p y ≡ false → all p (xs ++ y ∷ ys) ≡ false
all-false p [] ys y h = rw h refl
all-false p (x ∷ xs) ys y h = rw (all-false p xs ys y h) (ground arith)

length-nonzero : (xs ys : Text) (y : ℕ) → (length (xs ++ y ∷ ys) == 0) ≡ false
length-nonzero [] ys y = ground arith
length-nonzero (x ∷ xs) ys y = ground arith

-- An event id made of the application's name, a dash and a UUID is not blank.
event_id-present : (name uuid : Text) → is_missing (name ++ (txt "-" ++ uuid)) ≡ false
unfolding is_missing txt is_space
event_id-present name uuid =
    rw
      (
        length-nonzero name uuid b'-',
        is_blank_lem (name ++ b'-' ∷ uuid),
        all-false is_space name uuid b'-' refl,
      )
      refl

truthy-present : (id : Text) → is_missing id ≡ false → Ingest.truthy (some id) ≡ some id
unfolding Ingest.truthy is_missing
truthy-present id h = let test : (length id == 0) ≡ false = ground arith in rw test refl

dedup_key-found :
    (id : Text) (native : Option Text)
    → is_missing id ≡ false
    → resolve_dedup_key (some id) native ≡ ok (record { value = id })
unfolding resolve_dedup_key dedup_key_from_string
dedup_key-found id native h = rw (resolve_dedup_key, truthy-present id h, h) refl

correlation-found :
    (repo : InboxRepository) (id : Text) (w : Ingest.World repo.Db)
    → is_missing id ≡ false
    → (resolve_correlation_id (some id) w).0 ≡ ok (record { value = id })
unfolding resolve_correlation_id correlation_id_from_string
correlation-found repo id w h = rw (resolve_correlation_id, truthy-present id h, h) refl

-- The worker reads an envelope as it was published.
parse_envelope-published :
    (v : Validators) (e : EventEnvelope) (id : Text)
    → IsChecking v
    → (p : IsEnvelope v e)
    → parse_envelope v (object (envelope_fields e id))
      ≡ ok (record {
        event_id = some id;
        correlation_id = some p.correlation;
        tenant_id = e.tenant_id;
        event_type = e.event_type;
        payload = e.payload;
      })
unfolding parse_envelope validate envelope_fields property required checked present optional txt
    ◌===◌
parse_envelope-published v e id k p =
    rw
      (
        p.correlated,
        k.string-accepted id,
        k.string-accepted e.tenant_id,
        k.string-accepted e.event_type,
        p.valid,
        p.payload,
      )
      refl

module _ (v : Validators) (json_stringify : Json → Text) (json_parse : Text → Option Json)
    (channel : Channel) (queue application_name : Text) (repo : InboxRepository) where
  -- The id of a published event.
  abbrev pub published_id :
      {raw : Json} {w : Sandbox.World channel.State}
      → IsPosted v json_stringify channel queue application_name raw w
      → Text
  published_id {raw} {w} p = application_name ++ (txt "-" ++ w.randoms p.drawn)

  abbrev input_of_envelope : EventEnvelope → Text → Text → Option Text → IngestEventInput
  input_of_envelope e id correlation native = record {
    event_id = some id;
    correlation_id = some correlation;
    tenant_id = e.tenant_id;
    event_type = e.event_type;
    payload = e.payload;
    broker_message_id = native;
  }

  process-published :
      (e : EventEnvelope) (id : Text) (p : IsEnvelope v e) (msg : ConsumeMessage)
      (w : Ingest.World repo.Db)
      → IsChecking v
      → json_parse msg.content ≡ some (object (envelope_fields e id))
      → process v json_parse repo msg w
        ≡ execute repo (input_of_envelope e id p.correlation msg.message_id) w
  unfolding process handle input_of
  process-published e id p msg w k parsed =
      rw (process, parsed, handle, parse_envelope-published v e id k p) refl

  -- The event that a request has published is ingested. If `JSON.parse` reads the published text
  -- back, the tenant's id and the event type are not blank, and the inbox answers, then the worker,
  -- in any state, acknowledges the message, and its inbox then holds a document under the published
  -- id. If the inbox held none there before, that document has the tenant, the type and the payload
  -- of the body that was posted.
  pub published-ingested :
      (raw : Json) (w : Sandbox.World channel.State)
      (p : IsPosted v json_stringify channel queue application_name raw w) (msg : ConsumeMessage)
      (s : Worker repo.Db) (tenant : TenantId) (type : EventType)
      → IsChecking v
      → msg.content ≡ json_stringify (object (envelope_fields p.dto (published_id p)))
      → json_parse (json_stringify (object (envelope_fields p.dto (published_id p))))
        ≡ some (object (envelope_fields p.dto (published_id p)))
      → tenant_id_from_string p.dto.tenant_id ≡ ok tenant
      → event_type_from_string p.dto.event_type ≡ ok type
      → ((r : InboxRecord) (db : repo.Db)
          → (inserted : Bool) × ((repo.upsert_by_dedup_key r db).0 ≡ ok inserted))
      → let after = handle_message v json_parse repo (some msg) s in
        (after.settled ≡ s.settled ++ ack msg.tag ∷ [])
        × (doc : InboxRecordDoc) × (repo.stored after.world.db (published_id p) ≡ some doc)
        × (repo.stored s.world.db (published_id p) ≡ none
            → (raw ≡ object p.posted)
              × (property (txt "tenantId") p.posted ≡ some (string doc.tenant_id))
              × (property (txt "eventType") p.posted ≡ some (string doc.event_type))
              × (property (txt "payload") p.posted ≡ some doc.payload))
  unfolding handle_message
  published-ingested raw w p msg s tenant type k content read ht hy answers =
      let id = published_id p in
      let e = p.envelope in
      let input = input_of_envelope p.dto id e.correlation msg.message_id in
      let runs : process v json_parse repo msg s.world ≡ execute repo input s.world =
        process-published p.dto id e msg s.world k (ap json_parse content ∙ read) in
      let (result, key, returned) =
        execute-returns repo input s.world (record { value = id })
          (record { value = e.correlation }) tenant type
          (dedup_key-found id msg.message_id
            (event_id-present application_name (w.randoms p.drawn)))
          (correlation-found repo e.correlation s.world e.present) ht hy e.is_object answers in
      let (is_key, doc, held, new) = execute-stored repo input s.world result returned in
      let done : (process v json_parse repo msg s.world).0 ≡ ok result =
        ap (λ r. r.0) runs ∙ returned in
      (
        ap (λ r. s.settled ++ settlement v json_parse repo msg.tag r ∷ []) done,
        doc,
        ap (λ r. repo.stored r.1.db id) runs
            ∙ subst (λ key. repo.stored (execute repo input s.world).1.db key ≡ some doc) key held,
        (λ fresh.
            let inserted =
              execute-inserted repo input s.world result returned
                (ap (repo.stored s.world.db) key ∙ fresh) in
            let (_, same_tenant, same_type, same_payload) = new inserted in
            (
              p.is_posted,
              p.taken.tenant_id ∙ ap (λ t. some (string t)) (sym same_tenant),
              p.taken.event_type ∙ ap (λ t. some (string t)) (sym same_type),
              p.taken.payload ∙ ap some (sym same_payload),
            )),
      )
