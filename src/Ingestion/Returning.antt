-- ===== src/Ingestion/Returning.antt =====
-- When an ingestion returns.
use webhook_idp.Common.{◌≡◌, refl, Bool, true}
use webhook_idp.Common.Exec.{ok}
use webhook_idp.Subscription.Events.{now}
use webhook_idp.Ingestion.Inbox.{
  TenantId, EventType, CorrelationId, DedupKey, InboxRecord, is_json_object, tenant_id_from_string,
  event_type_from_string, ingested,
}
use webhook_idp.Ingestion.Store.{InboxRepository}
use webhook_idp.Ingestion.Ingest.{
  IngestEventInput, IngestEventResult, World, execute, resolve_dedup_key, resolve_correlation_id,
}
use webhook_idp.Ingestion.Ending.{ingest_accepted}

module _ (repo : InboxRepository) where
  -- An ingestion returns, with the event's dedup key, if a key and a correlation id are found, the
  -- tenant's id and the event type are accepted, the payload is an object, and the database answers.
  pub execute-returns :
      (input : IngestEventInput) (w : World repo.Db) (key : DedupKey) (correlation : CorrelationId)
      (tenant : TenantId) (type : EventType)
      → resolve_dedup_key input.event_id input.broker_message_id ≡ ok key
      → (resolve_correlation_id input.correlation_id w).0 ≡ ok correlation
      → tenant_id_from_string input.tenant_id ≡ ok tenant
      → event_type_from_string input.event_type ≡ ok type
      → is_json_object input.payload ≡ true
      → ((r : InboxRecord) (db : repo.Db)
          → (inserted : Bool) × ((repo.upsert_by_dedup_key r db).0 ≡ ok inserted))
      → (result : IngestEventResult) × (result.dedup_key ≡ key.value)
        × ((execute repo input w).0 ≡ ok result)
  unfolding execute
  execute-returns input w key correlation tenant type hk hc ht hy payload answers =
      let w' = (resolve_correlation_id input.correlation_id w).1 in
      let made =
        ingest_accepted (w'.uuids w'.made)
          (record {
            dedup_key = key;
            tenant_id = tenant;
            correlation_id = correlation;
            event_type = type;
            payload = input.payload;
          })
          w'.clock payload in
      let r : InboxRecord = record {
        id = record { value = w'.uuids w'.made };
        dedup_key = key;
        tenant_id = tenant;
        correlation_id = correlation;
        event_type = type;
        payload = input.payload;
        received_at = now w'.clock;
        status = ingested;
      } in
      let (inserted, answered) = answers r w'.db in
      (
        record { dedup_key = key.value; inserted = inserted },
        refl,
        rw (hk, hc, ht, hy, made, answered) refl,
      )
