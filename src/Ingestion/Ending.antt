-- ===== src/Ingestion/Ending.antt =====
-- How an ingestion ends.
use webhook_idp.Common.{◌≡◌, refl, inl, inr, Bool, true, Option, none, some, arith, Bool-cases}
use webhook_idp.Common.Text.{Text, txt}
use webhook_idp.Common.Exec.{Result, ok, err, Result-cases, ◌>>=◌}
use webhook_idp.Common.State.{Exec, continue, pure}
use webhook_idp.Ingestion.Inbox.{
  InboxRecord, DedupKey, tenant_id_from_string, event_type_from_string, ingest,
  assert_valid_payload, is_json_object, ingested, invalid_payload, IngestInboxRecordParams,
}
use webhook_idp.Subscription.Events.{now, tick, Clock}
use webhook_idp.Ingestion.Store.{Exception, domain, InboxRepository}
use webhook_idp.Ingestion.Ingest.{
  IngestEventInput, IngestEventResult, World, truthy, resolve_dedup_key, resolve_correlation_id,
  execute,
}

-- The record that an event makes.
pub record IsRecordOf (input : IngestEventInput) (r : InboxRecord) : Type 0 where
  pub key : resolve_dedup_key input.event_id input.broker_message_id ≡ ok r.dedup_key
  pub tenant : tenant_id_from_string input.tenant_id ≡ ok r.tenant_id
  pub type : event_type_from_string input.event_type ≡ ok r.event_type
  pub payload : r.payload ≡ input.payload
  pub is_object : is_json_object r.payload ≡ true

pub ingest_accepted :
    (uuid : Text) (params : IngestInboxRecordParams) (clock : Clock)
    → is_json_object params.payload ≡ true
    → ingest uuid params clock ≡ (
      ok (record {
        id = record { value = uuid };
        dedup_key = params.dedup_key;
        tenant_id = params.tenant_id;
        correlation_id = params.correlation_id;
        event_type = params.event_type;
        payload = params.payload;
        received_at = now clock;
        status = ingested;
      }),
      tick clock,
    )
unfolding ingest assert_valid_payload
ingest_accepted uuid params clock h =
    let accepted : assert_valid_payload params.payload ≡ ok tt = ground arith in
    rw (ingest, accepted) refl

module _ (repo : InboxRepository) where
  -- How an ingestion ends: it throws before the database is called, or ends with the one call.
  pub data Ending (input : IngestEventInput) (db : repo.Db)
      (reply : Result Exception IngestEventResult) (after : repo.Db) : Type 0 where
    stops : (e : Exception) → reply ≡ err e → after ≡ db → Ending input db reply after
    upserts :
        (r : InboxRecord)
        → IsRecordOf input r
        → reply
          ≡ (repo.upsert_by_dedup_key r db).0
            >>= (λ inserted. ok (record { dedup_key = r.dedup_key.value; inserted = inserted }))
        → after ≡ (repo.upsert_by_dedup_key r db).1
        → Ending input db reply after

  -- Finding the correlation id does not touch the database.
  pub correlation-db :
      (t : Option Text) (w : World repo.Db) → (resolve_correlation_id t w).1.db ≡ w.db
  unfolding resolve_correlation_id truthy
  correlation-db none w = refl
  correlation-db (some t) w = ground arith

  abbrev result_of : DedupKey → Bool → Exec (World repo.Db) Exception IngestEventResult
  result_of key inserted = pure (record { dedup_key = key.value; inserted = inserted })

  last :
      (reply : Result Exception Bool) (key : DedupKey) (w : World repo.Db)
      → (continue reply (result_of key) w).0
        ≡ reply >>= (λ inserted. ok (record { dedup_key = key.value; inserted = inserted }))
  last (ok a) key w = refl
  last (err e) key w = refl

  last_db :
      (reply : Result Exception Bool) (key : DedupKey) (w : World repo.Db)
      → (continue reply (result_of key) w).1.db ≡ w.db
  last_db (ok a) key w = refl
  last_db (err e) key w = refl

  pub execute-Ending :
      (input : IngestEventInput) (w : World repo.Db)
      → Ending input w.db (execute repo input w).0 (execute repo input w).1.db
  unfolding execute ingest assert_valid_payload
  execute-Ending input w =
      elim (Result-cases (resolve_dedup_key input.event_id input.broker_message_id)) [
        | inr (e, h) ↦ stops e (ground arith) (ground arith)
        | inl (key, hkey) ↦ elim (Result-cases (resolve_correlation_id input.correlation_id w).0) [
          | inr (e, h) ↦
              stops e (ground arith) (ground (arith, correlation-db input.correlation_id w))
          | inl (correlation, hc) ↦ elim (Result-cases (tenant_id_from_string input.tenant_id)) [
            | inr (e, h) ↦
                stops (domain e) (ground arith)
                  (ground (arith, correlation-db input.correlation_id w))
            | inl (tenant, ht) ↦ elim (Result-cases (event_type_from_string input.event_type)) [
              | inr (e, h) ↦
                  stops (domain e) (ground arith)
                    (ground (arith, correlation-db input.correlation_id w))
              | inl (type, hty) ↦ elim (Bool-cases (is_json_object input.payload)) [
                | inr h ↦
                    stops
                      (domain
                        (invalid_payload (txt "payload must be a non-null, non-array object")))
                      (ground arith) (ground (arith, correlation-db input.correlation_id w))
                | inl h ↦
                    let w' = (resolve_correlation_id input.correlation_id w).1 in
                    let made =
                      ingest_accepted (w'.uuids w'.made)
                        (record {
                          dedup_key = key;
                          tenant_id = tenant;
                          correlation_id = correlation;
                          event_type = type;
                          payload = input.payload;
                        })
                        w'.clock h in
                    upserts
                      (record {
                        id = record {
                          value =
                              (resolve_correlation_id input.correlation_id w).1.uuids
                                (resolve_correlation_id input.correlation_id w).1.made;
                        };
                        dedup_key = key;
                        tenant_id = tenant;
                        correlation_id = correlation;
                        event_type = type;
                        payload = input.payload;
                        received_at = now (resolve_correlation_id input.correlation_id w).1.clock;
                        status = ingested;
                      })
                      (record {
                        key = hkey;
                        tenant = ht;
                        type = hty;
                        payload = refl;
                        is_object = h;
                      })
                      (rw (hkey, hc, ht, hty, made, correlation-db) (last _ _ _))
                      (rw (hkey, hc, ht, hty, made, correlation-db) (last_db _ _ _))
              ]
            ]
          ]
        ]
      ]
