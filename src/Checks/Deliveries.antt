-- ===== src/Checks/Deliveries.antt =====
-- The theorems on the ingestion of events, at concrete inputs.
use webhook_idp.Common.{
  ◌≡◌, refl, sym, ap, ◌∙◌, Bool, true, false, not, ◌&&◌, Option, none, some, List, [], ◌∷◌, arith,
  if◌then◌else◌, inl, inr, Bool-cases,
}
use webhook_idp.Common.Text.{Text, txt, ◌===◌, ===_iff, is_blank}
use webhook_idp.Common.Exec.{ok}
use webhook_idp.Ingestion.Inbox.{
  Json, string, object, no_fields, field, InboxRecord, ingested, tenant_id_from_string,
  correlation_id_from_string, event_type_from_string, dedup_key_from_string, ingest, is_json_object,
  assert_valid_payload, is_missing,
}
use webhook_idp.Ingestion.Store.{
  InboxRecordDoc, InboxCollection, is_some, mongo_upsert, mongo_repository, mongo_upsert_lem,
  to_document,
}
use webhook_idp.Ingestion.Ingest.{
  IngestEventInput, IngestEventResult, World, execute, resolve_dedup_key, truthy,
  resolve_correlation_id,
}
use webhook_idp.Ingestion.Runtime.{
  Validators, ack, nack, Worker, handle_message, process, handle, input_of, parse_envelope,
  validate, required, optional, present, checked, property,
}
use webhook_idp.Ingestion.DedupKey.{IsKeyOf}
use webhook_idp.Ingestion.Guarantees.{execute-stored, execute-again}
use webhook_idp.Ingestion.Returning.{execute-returns}

abbrev has_key : Text → InboxRecordDoc → Bool
has_key key doc = doc.dedup_key === key

abbrev pub insert :
    Text
    → InboxRecordDoc
    → List (Text × InboxRecordDoc)
    → Option InboxRecordDoc
    → List (Text × InboxRecordDoc)
insert key doc db none = (key, doc) ∷ db
insert key doc db (some old) = db

abbrev pub lookup : List (Text × InboxRecordDoc) → Text → Option InboxRecordDoc
lookup [] key = none
lookup (entry ∷ db) key = let rest = lookup db key in if key === entry.0 then some entry.1 else rest

pub set_lem :
    (key : Text) (doc : InboxRecordDoc) (db : List (Text × InboxRecordDoc))
    (found : Option InboxRecordDoc) (other : Text)
    → lookup db key ≡ found
    → lookup (insert key doc db found) other
      ≡ (if (other === key) && not (is_some found) then some doc else lookup db other)
set_lem key doc db none other h = ground arith
set_lem key doc db (some old) other h = ground arith

pub keep_lem :
    (key : Text) (doc : InboxRecordDoc) (db : List (Text × InboxRecordDoc))
    (found : Option InboxRecordDoc) (other : Text) (old : InboxRecordDoc)
    → lookup db key ≡ found
    → lookup db other ≡ some old
    → lookup (insert key doc db found) other ≡ some old
keep_lem key doc db none other old h held = elim (Bool-cases (other === key)) [
  | inl same ↦ absurd (cc (sym held ∙ (ap (lookup db) ((===_iff other key).0 same) ∙ h)))
  | inr differs ↦ ground arith
]
keep_lem key doc db (some d) other old h held = held

-- A collection that is a list of keys and documents.
abbrev pub sample_collection : InboxCollection
sample_collection = record {
  Db = List (Text × InboxRecordDoc);
  find_one = lookup;
  find_one_and_set_on_insert =
      λ key doc db. (ok (some (is_some (lookup db key))), insert key doc db (lookup db key));
  reports = λ key doc db u h. ground arith;
  sets = λ key doc db u other h. set_lem key doc db (lookup db key) other refl;
  keeps = λ key doc db other old h. keep_lem key doc db (lookup db key) other old refl h;
}

abbrev input : IngestEventInput
input = record {
  event_id = some (txt "e");
  correlation_id = some (txt "c");
  tenant_id = txt "t";
  event_type = txt "order";
  payload = object no_fields;
  broker_message_id = none;
}

abbrev sample_record : InboxRecord
sample_record = record {
  id = record { value = txt "i" };
  dedup_key = record { value = txt "e" };
  tenant_id = record { value = txt "t" };
  correlation_id = record { value = txt "c" };
  event_type = record { value = txt "order" };
  payload = object no_fields;
  received_at = 0;
  status = ingested;
}

abbrev pub world : World (List (Text × InboxRecordDoc))
world = record {
  db = [];
  clock = record { readings = λ n. n; reads = 0 };
  uuids = λ _. txt "i";
  made = 0;
  randoms = λ _. txt "r";
  drawn = 0;
}

abbrev new_result : IngestEventResult
new_result = record { dedup_key = txt "e"; inserted = true }

abbrev old_result : IngestEventResult
old_result = record { dedup_key = txt "e"; inserted = false }

mongo_upsert_lem_example :
    lookup (mongo_upsert sample_collection sample_record []).1 (txt "e")
    ≡ some (to_document sample_record)
unfolding execute resolve_dedup_key resolve_correlation_id truthy ingest assert_valid_payload
    is_json_object mongo_upsert to_document tenant_id_from_string correlation_id_from_string
    event_type_from_string dedup_key_from_string is_missing is_blank ◌===◌ txt
mongo_upsert_lem_example =
    (mongo_upsert_lem sample_collection sample_record []).0 true (txt "e") refl

execute-stored_example : IsKeyOf (some (txt "e")) none (txt "e")
unfolding execute resolve_dedup_key resolve_correlation_id truthy ingest assert_valid_payload
    is_json_object mongo_upsert to_document tenant_id_from_string correlation_id_from_string
    event_type_from_string dedup_key_from_string is_missing is_blank ◌===◌ txt
execute-stored_example =
    (execute-stored (mongo_repository sample_collection) input world new_result refl).0

execute-again_example : old_result.inserted ≡ false
unfolding execute resolve_dedup_key resolve_correlation_id truthy ingest assert_valid_payload
    is_json_object mongo_upsert to_document tenant_id_from_string correlation_id_from_string
    event_type_from_string dedup_key_from_string is_missing is_blank ◌===◌ txt
execute-again_example =
    (execute-again (mongo_repository sample_collection) input input world new_result old_result refl
      refl refl).0

abbrev pub as_string : Json → Option Text
as_string (string t) = some t
as_string _ = none

abbrev pub as_object : Json → Option Json
as_object (object o) = some (object o)
as_object _ = none

abbrev pub validators : Validators
validators = record { is_string = as_string; is_uuid = as_string; is_object = as_object }

abbrev pub parse_json : Text → Option Json
parse_json [] = none
parse_json _ = some (
    object (
      field (txt "tenantId") (string (txt "t")) (
        field (txt "eventType") (string (txt "order"))
          (field (txt "payload") (object no_fields) no_fields))))

abbrev pub worker : Worker (List (Text × InboxRecordDoc))
worker = record { world = world; settled = [] }

abbrev busy : Worker (List (Text × InboxRecordDoc))
busy = record {
  world = record world { db = (txt "e", to_document sample_record) ∷ [] };
  settled = [];
}

-- A message is stored, a cancellation passed over, a message that is no JSON refused.
answers :
    (handle_message validators parse_json
      (mongo_repository sample_collection)
      (some (record { tag = 2; content = []; message_id = none }))
      (handle_message validators parse_json (mongo_repository sample_collection) none (
        handle_message validators parse_json
          (mongo_repository sample_collection)
          (some (record { tag = 1; content = txt "x"; message_id = some (txt "m") }))
          worker))).settled
    ≡ ack 1 ∷ nack 2 false false ∷ []
unfolding execute resolve_dedup_key resolve_correlation_id truthy ingest assert_valid_payload
    is_json_object mongo_upsert to_document tenant_id_from_string correlation_id_from_string
    event_type_from_string dedup_key_from_string is_missing is_blank ◌===◌ txt handle_message
    process handle input_of parse_envelope validate required optional present checked property
answers = refl

execute-returns_example :
    (result : IngestEventResult) × (result.dedup_key ≡ txt "e")
    × ((execute (mongo_repository sample_collection) input world).0 ≡ ok result)
unfolding mongo_upsert to_document resolve_dedup_key resolve_correlation_id truthy
    tenant_id_from_string correlation_id_from_string event_type_from_string dedup_key_from_string
    is_json_object is_missing is_blank txt
execute-returns_example =
    execute-returns (mongo_repository sample_collection) input world (record { value = txt "e" })
      (record { value = txt "c" }) (record { value = txt "t" }) (record { value = txt "order" })
      refl refl refl refl refl (λ r db. (not (is_some (lookup db r.dedup_key.value)), refl))
