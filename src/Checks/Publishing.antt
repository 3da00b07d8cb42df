-- ===== src/Checks/Publishing.antt =====
-- The theorems on the sandbox's events, at concrete inputs.
use webhook_idp.Common.{
  ℕ, ◌≡◌, refl, subst, true, false, Option, none, some, List, [], ◌∷◌, ◌++◌, arith, Bool-cases, inl,
  inr, if◌then◌else◌, not,
}
use webhook_idp.Common.Text.{Text, txt, ◌===◌, is_blank}
use webhook_idp.Common.Exec.{ok}
use webhook_idp.Ingestion.Inbox.{
  Json, null, boolean, number, string, array, object, Fields, no_fields, field, is_missing,
  is_json_object, tenant_id_from_string, event_type_from_string,
}
use webhook_idp.Ingestion.Store.{mongo_repository, is_some, mongo_upsert, to_document}
use webhook_idp.Ingestion.Runtime.{Validators, ack, handle_message, property}
use webhook_idp.Sandbox.{
  EventEnvelope, Sent, Channel, World, create, create_event_dto, intercept, envelope_fields,
  publish, service_publish, event_id_of, allowed, demanded, assign, replace, append, truthy,
  is_truthy,
}
use webhook_idp.Sandbox.Validated.{IsChecking, IsEnvelope, IsTaken}
use webhook_idp.Sandbox.Posted.{IsPosted, message_of, create-IsPosted}
use webhook_idp.Sandbox.Delivered.{published-ingested}
use webhook_idp.Checks.Deliveries.{sample_collection, lookup, worker}

abbrev as_string : Json → Option Text
as_string (string t) = some t
as_string _ = none

-- Any text that is not blank is taken for a UUID.
abbrev as_uuid : Json → Option Text
as_uuid (string t) = if is_missing t then none else some t
as_uuid _ = none

abbrev as_object : Json → Option Json
as_object (object o) = some (object o)
as_object _ = none

abbrev checks : Validators
checks = record { is_string = as_string; is_uuid = as_uuid; is_object = as_object }

uuid_cases : (j : Json) (t : Text) → as_uuid j ≡ some t → (j ≡ string t) × (is_missing t ≡ false)
uuid_cases (string s) t h = elim (Bool-cases (is_missing s)) [
  | inl blank ↦ absurd (ground arith)
  | inr there ↦ (ground arith, ground arith)
]
uuid_cases null t h = absurd (ground arith)
uuid_cases (boolean b) t h = absurd (ground arith)
uuid_cases (number n) t h = absurd (ground arith)
uuid_cases (array js) t h = absurd (ground arith)
uuid_cases (object fs) t h = absurd (ground arith)

string_cases : (j : Json) (t : Text) → as_string j ≡ some t → j ≡ string t
string_cases (string s) t h = ground arith
string_cases null t h = absurd (ground arith)
string_cases (boolean b) t h = absurd (ground arith)
string_cases (number n) t h = absurd (ground arith)
string_cases (array js) t h = absurd (ground arith)
string_cases (object fs) t h = absurd (ground arith)

object_cases : (j p : Json) → as_object j ≡ some p → (j ≡ p) × (is_json_object p ≡ true)
unfolding is_json_object
object_cases (object o) p h =
    let same : object o ≡ p = cc h in (same, subst (λ x. is_json_object x ≡ true) same refl)
object_cases null p h = absurd (ground arith)
object_cases (boolean b) p h = absurd (ground arith)
object_cases (number n) p h = absurd (ground arith)
object_cases (array js) p h = absurd (ground arith)
object_cases (string s) p h = absurd (ground arith)

checks-IsChecking : IsChecking checks
checks-IsChecking = record {
  string-accepted = λ t. refl;
  string-kept = string_cases;
  uuid-string = λ j t h. (uuid_cases j t h).0;
  uuid-present = λ j t h. (uuid_cases j t h).1;
  object-kept = λ j p h. (object_cases j p h).0;
  object-IsObject = λ j p h. (object_cases j p h).1;
}

-- A broker with one queue.
abbrev one_queue : Channel
one_queue = record {
  State = List Sent;
  messages = λ queued queue. queued;
  send_to_queue = λ queue sent queued. (ok tt, queued ++ sent ∷ []);
  accepts = λ queue sent queued h. refl;
}

-- What is posted: no correlation id, and an event id that is not kept.
abbrev posted_fields : Fields
posted_fields = field (txt "eventId") (string (txt "mine")) (
    field (txt "tenantId") (string (txt "t")) (
      field (txt "eventType") (string (txt "order"))
        (field (txt "payload") (object no_fields) no_fields)))

abbrev posted : Json
posted = object posted_fields

abbrev sandbox : World (List Sent)
sandbox = record { channel = []; randoms = λ n. txt "u"; drawn = 0 }

-- The printed text stands for what was printed.
abbrev print : Json → Text
print j = txt "x"

random-present : (n : ℕ) → is_missing (sandbox.randoms n) ≡ false
unfolding is_missing is_blank txt
random-present n = refl

create-IsPosted_example : IsPosted checks print one_queue (txt "q") (txt "idp") posted sandbox
unfolding create service_publish publish event_id_of intercept create_event_dto allowed demanded
    assign replace append truthy is_truthy property is_missing is_blank txt ◌===◌
create-IsPosted_example =
    create-IsPosted checks print one_queue (txt "q") (txt "idp") posted sandbox true
      checks-IsChecking random-present refl

abbrev published : EventEnvelope
published = record {
  event_id = none;
  correlation_id = some (txt "u");
  tenant_id = txt "t";
  event_type = txt "order";
  payload = object no_fields;
}

published-IsEnvelope : IsEnvelope checks published
unfolding is_missing is_blank txt is_json_object
published-IsEnvelope = record {
  no_event_id = refl;
  correlation = txt "u";
  correlated = refl;
  valid = refl;
  present = refl;
  payload = refl;
  is_object = refl;
}

-- The message carries the correlation id that was made first, and the event id that was made next.
queued-sent :
    (create print one_queue (txt "q") (txt "idp") checks posted sandbox).1.channel
    ≡ message_of print published (txt "idp-u") ∷ []
unfolding create service_publish publish event_id_of intercept create_event_dto allowed demanded
    assign replace append truthy is_truthy property is_missing is_blank txt ◌===◌
queued-sent = refl

published-IsTaken : IsTaken posted_fields published
unfolding property is_truthy txt ◌===◌
published-IsTaken = record {
  tenant_id = refl;
  event_type = refl;
  payload = refl;
  correlation = λ there. absurd (ground (arith, there));
}

abbrev queued : IsPosted checks print one_queue (txt "q") (txt "idp") posted sandbox
unfolding txt
queued = record {
  dto = published;
  envelope = published-IsEnvelope;
  posted = posted_fields;
  is_posted = refl;
  taken = published-IsTaken;
  drawn = 1;
  sent = queued-sent;
}

abbrev parse_json : Text → Option Json
parse_json text = some (object (envelope_fields published (txt "idp-u")))

published-ingested_example :
    (handle_message checks parse_json
      (mongo_repository sample_collection)
      (some (record { tag = 7; content = txt "x"; message_id = none }))
      worker).settled
    ≡ ack 7 ∷ []
unfolding tenant_id_from_string event_type_from_string is_missing is_blank txt mongo_upsert
    to_document
published-ingested_example =
    (published-ingested checks print parse_json one_queue (txt "q") (txt "idp")
      (mongo_repository sample_collection) posted sandbox queued
      (record { tag = 7; content = txt "x"; message_id = none }) worker (record { value = txt "t" })
      (record { value = txt "order" }) checks-IsChecking refl refl refl refl
      (λ r db. (not (is_some (lookup db r.dedup_key.value)), refl))).0
