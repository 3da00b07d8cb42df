-- ===== src/Ingestion/Interleaving.antt =====
-- packages/event-ingestion-worker/src/infrastructure/broker/rabbitmq-broker-consumer.adapter.ts: the
-- channel starts `handleMessage` for each message that it delivers and does not wait for the one
-- before, so handlers are under way together. A handler runs without a pause up to its call of the
-- database, waits for the reply, and then answers the broker.
pub mod Calls
pub mod Safe
pub mod Answered
use webhook_idp.Common.{
  ℕ, ◌+◌, ◌≡◌, Bool, true, false, Option, none, some, List, [], ◌∷◌, ◌++◌, if◌then◌else◌,
}
use webhook_idp.Common.Text.{Text, ◌===◌}
use webhook_idp.Common.Exec.{Result, ok, err, map_err}
use webhook_idp.Common.State.{Exec, lift, ◌>>=◌}
use webhook_idp.Ingestion.Inbox.{Json, InboxRecord, tenant_id_from_string, event_type_from_string}
use webhook_idp.Ingestion.Store.{Exception, domain, syntax_error, InboxRepository}
use webhook_idp.Ingestion.Ingest.{
  IngestEventInput, IngestEventResult, World, resolve_dedup_key, resolve_correlation_id,
  ingest_record, upsert,
}
use webhook_idp.Ingestion.Runtime.{
  Validators, ConsumeMessage, Settlement, nack, parse_envelope, input_of, settlement,
}

-- Where a handler waits: for the database, or to answer the broker after its reply.
pub data Phase : Type 0 where
  storing : InboxRecord → Phase
  replied : InboxRecord → Result Exception Bool → Phase

pub record Task : Type 0 where
  pub tag : ℕ
  pub phase : Phase

-- What the broker was told, with the record and the reply that a handler had, if it called the
-- database.
pub record Answer : Type 0 where
  pub settlement : Settlement
  pub call : Option (InboxRecord × Result Exception Bool)

pub record System {ℓ} (Db : Type ℓ) : Type ℓ where
  pub world : World Db
  pub under_way : List Task
  pub answers : List Answer

-- A reply, as the handler's result.
unfoldable pub result_of : InboxRecord → Result Exception Bool → Result Exception IngestEventResult
result_of r (ok inserted) = ok (record { dedup_key = r.dedup_key.value; inserted = inserted })
result_of r (err e) = err e

module _ {Db : Type 0} where
  -- `execute`, up to the call of the repository.
  unfoldable pub prepare_record : IngestEventInput → Exec (World Db) Exception InboxRecord
  prepare_record input = do
    key ← lift (resolve_dedup_key input.event_id input.broker_message_id)
    correlation ← resolve_correlation_id input.correlation_id
    tenant ← lift (map_err domain (tenant_id_from_string input.tenant_id))
    type ← lift (map_err domain (event_type_from_string input.event_type))
    ingest_record (record {
      dedup_key = key;
      tenant_id = tenant;
      correlation_id = correlation;
      event_type = type;
      payload = input.payload;
    })

module _ (v : Validators) (json_parse : Text → Option Json) (repo : InboxRepository) where
  -- A handler, up to its call of the database.
  unfoldable pub prepare : ConsumeMessage → Exec (World repo.Db) Exception InboxRecord
  prepare msg w = elim (json_parse msg.content) [
    | none ↦ (err syntax_error, w)
    | some body ↦ elim (parse_envelope v body) [
      | err e ↦ (err e, w)
      | ok envelope ↦ prepare_record (input_of v json_parse repo envelope msg.message_id) w
    ]
  ]

  -- The steps of the handlers, in any order.
  pub data Step : System repo.Db → System repo.Db → Type 0 where
    received :
        {s : System repo.Db} (msg : ConsumeMessage) (r : InboxRecord)
        → (prepare msg s.world).0 ≡ ok r
        → Step s (record s {
          world = (prepare msg s.world).1;
          under_way = s.under_way ++ record { tag = msg.tag; phase = storing r } ∷ [];
        })
    refused :
        {s : System repo.Db} (msg : ConsumeMessage) (e : Exception)
        → (prepare msg s.world).0 ≡ err e
        → Step s (record s {
          world = (prepare msg s.world).1;
          answers = s.answers ++ record { settlement = nack msg.tag false false; call = none } ∷ [];
        })
    stored :
        {s : System repo.Db} (before after : List Task) (tag : ℕ) (r : InboxRecord)
        → s.under_way ≡ before ++ record { tag = tag; phase = storing r } ∷ after
        → Step s (record s {
          world = (upsert repo r s.world).1;
          under_way =
              before ++ record { tag = tag; phase = replied r (upsert repo r s.world).0 } ∷ after;
        })
    answered :
        {s : System repo.Db} (before after : List Task) (tag : ℕ) (r : InboxRecord)
        (reply : Result Exception Bool)
        → s.under_way ≡ before ++ record { tag = tag; phase = replied r reply } ∷ after
        → Step s (record s {
          under_way = before ++ after;
          answers =
              s.answers
              ++ record {
                settlement = settlement v json_parse repo tag (result_of r reply);
                call = some (r, reply);
              }
                ∷ [];
        })

  pub data Reach (s : System repo.Db) : System repo.Db → Type 0 where
    here : Reach s s
    next : {t u : System repo.Db} → Reach s t → Step t u → Reach s u

-- Whether a reply said that it has inserted under the key.
unfoldable pub inserts : Text → InboxRecord → Result Exception Bool → ℕ
inserts key r (ok true) = if key === r.dedup_key.value then 1 else 0
inserts key r _ = 0

unfoldable pub inserts_task : Text → Task → ℕ
inserts_task key task = elim task.phase [ storing r ↦ 0 | replied r reply ↦ inserts key r reply ]

unfoldable pub inserts_answer : Text → Answer → ℕ
inserts_answer key answer = elim answer.call [ none ↦ 0 | some call ↦ inserts key call.0 call.1 ]

unfoldable pub sum {ℓ} : {A : Type ℓ} → (A → ℕ) → List A → ℕ
sum f [] = 0
sum f (x ∷ xs) = f x + sum f xs

-- How often an insertion under the key was reported.
unfoldable pub insertions : {Db : Type 0} → Text → System Db → ℕ
insertions key s = sum (inserts_task key) s.under_way + sum (inserts_answer key) s.answers
