-- ===== src/Checks/Orders.antt =====
-- The theorems on interleaved handlers, at concrete inputs.
use webhook_idp.Common.{ℕ, ◌+◌, ◌≡◌, All, refl, some, List, [], ◌∷◌}
use webhook_idp.Common.Text.{Text, txt, ◌===◌, is_blank}
use webhook_idp.Ingestion.Inbox.{
  InboxRecord, object, no_fields, ingested, tenant_id_from_string, correlation_id_from_string,
  event_type_from_string, dedup_key_from_string, ingest, is_json_object, assert_valid_payload,
  is_missing,
}
use webhook_idp.Ingestion.Store.{InboxRecordDoc, mongo_repository}
use webhook_idp.Ingestion.Ingest.{resolve_dedup_key, truthy, resolve_correlation_id}
use webhook_idp.Ingestion.Runtime.{
  ConsumeMessage, input_of, parse_envelope, validate, required, optional, present, checked,
  property,
}
use webhook_idp.Ingestion.Interleaving.{
  Task, storing, System, prepare, prepare_record, received, stored, answered, Reach, here, next,
}
use webhook_idp.Ingestion.Interleaving.Safe.{IsSafe, Reach-IsSafe}
use webhook_idp.Ingestion.Interleaving.Answered.{
  deliveries, tasks_for, answers_for, IsFitting, Reach-answers,
}
use webhook_idp.Checks.Deliveries.{sample_collection, validators, parse_json, world}

-- The same event, delivered twice.
abbrev first : ConsumeMessage
first = record { tag = 1; content = txt "x"; message_id = some (txt "m") }

abbrev second : ConsumeMessage
second = record { tag = 2; content = txt "x"; message_id = some (txt "m") }

abbrev made : InboxRecord
made = record {
  id = record { value = txt "i" };
  dedup_key = record { value = txt "m" };
  tenant_id = record { value = txt "t" };
  correlation_id = record { value = txt "r" };
  event_type = record { value = txt "order" };
  payload = object no_fields;
  received_at = 0;
  status = ingested;
}

abbrev made_again : InboxRecord
made_again = record made { received_at = 1 }

abbrev waiting : Task
waiting = record { tag = 1; phase = storing made }

-- Both are received; the second is stored and acknowledged while the first waits.
Reach-IsSafe_example :
    (s : System (List (Text × InboxRecordDoc))) × IsSafe
      (mongo_repository sample_collection)
      validators
      parse_json
      s
unfolding prepare prepare_record resolve_dedup_key resolve_correlation_id truthy ingest
    assert_valid_payload is_json_object tenant_id_from_string correlation_id_from_string
    event_type_from_string dedup_key_from_string is_missing is_blank ◌===◌ txt input_of
    parse_envelope validate required optional present checked property
Reach-IsSafe_example = (
  _,
  Reach-IsSafe (mongo_repository sample_collection) validators parse_json world _ (
      next
        (next (next (next here (received first made refl)) (received second made_again refl))
          (stored (waiting ∷ []) [] 2 made_again refl))
        (answered (waiting ∷ []) [] 2 made_again _ refl)),
)

-- The second message has its answer while the handler of the first is under way.
Reach-answers_example :
    (t : System (List (Text × InboxRecordDoc))) × (way : Reach validators parse_json
      (mongo_repository sample_collection)
      (record { world = world; under_way = []; answers = [] })
      t)
    × (((tag : ℕ)
          → deliveries (mongo_repository sample_collection) validators parse_json tag way
            ≡ tasks_for tag t.under_way + answers_for tag t.answers)
        × All IsFitting t.answers)
unfolding prepare prepare_record resolve_dedup_key resolve_correlation_id truthy ingest
    assert_valid_payload is_json_object tenant_id_from_string correlation_id_from_string
    event_type_from_string dedup_key_from_string is_missing is_blank ◌===◌ txt input_of
    parse_envelope validate required optional present checked property
Reach-answers_example = (
  _,
  next
      (next (next (next here (received first made refl)) (received second made_again refl))
        (stored (waiting ∷ []) [] 2 made_again refl))
      (answered (waiting ∷ []) [] 2 made_again _ refl),
  Reach-answers (mongo_repository sample_collection) validators parse_json world _ (
      next
        (next (next (next here (received first made refl)) (received second made_again refl))
          (stored (waiting ∷ []) [] 2 made_again refl))
        (answered (waiting ∷ []) [] 2 made_again _ refl)),
)
