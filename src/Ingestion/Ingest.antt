-- ===== src/Ingestion/Ingest.antt =====
-- packages/event-ingestion-worker/src/application/use-cases/ingest-event.usecase.ts, over the
-- repository's interface. The world of the use case is the database, the clock, the ids that
-- `uuidv7()` will return, and those that `randomUUID()` will return.
use webhook_idp.Common.{ℕ, ◌+◌, Bool, Option, none, some, ◌==◌, if◌then◌else◌, length}
use webhook_idp.Common.Text.{Text}
use webhook_idp.Common.Exec.{Result, ok, err, map_err}
use webhook_idp.Common.State.{Exec, pure, lift, ◌>>=◌}
use webhook_idp.Subscription.Events.{Clock}
use webhook_idp.Ingestion.Inbox.{
  Json, DomainError, DedupKey, CorrelationId, IngestInboxRecordParams, InboxRecord,
  dedup_key_from_string, tenant_id_from_string, correlation_id_from_string, event_type_from_string,
  ingest,
}
use webhook_idp.Ingestion.Store.{Exception, domain, unresolvable_dedup_key, InboxRepository}

pub record IngestEventInput : Type 0 where
  pub event_id : Option Text
  pub correlation_id : Option Text
  pub tenant_id : Text
  pub event_type : Text
  pub payload : Json
  pub broker_message_id : Option Text

pub record IngestEventResult : Type 0 where
  pub dedup_key : Text
  pub inserted : Bool

pub record World {ℓ} (Db : Type ℓ) : Type ℓ where
  pub db : Db
  pub clock : Clock
  pub uuids : ℕ → Text
  pub made : ℕ
  pub randoms : ℕ → Text
  pub drawn : ℕ

-- The text that `if (value)` lets pass: one that is there and not empty.
unfoldable pub truthy : Option Text → Option Text
truthy none = none
truthy (some value) = if length value == 0 then none else some value

-- `resolveDedupKey`
unfoldable pub resolve_dedup_key : Option Text → Option Text → Result Exception DedupKey
resolve_dedup_key event_id broker_message_id = elim (truthy event_id) [
  | some id ↦ map_err domain (dedup_key_from_string id)
  | none ↦ elim (truthy broker_message_id) [
    | some id ↦ map_err domain (dedup_key_from_string id)
    | none ↦ err unresolvable_dedup_key
  ]
]

-- An id is used up where a record is made.
abbrev pub count : Result DomainError InboxRecord → ℕ → ℕ
count (ok _) made = made + 1
count (err _) made = made

module _ {Db : Type 0} where
  -- `randomUUID()`
  abbrev pub random_uuid : Exec (World Db) Exception Text
  random_uuid w = (ok (w.randoms w.drawn), record w { drawn = w.drawn + 1 })

  -- `resolveCorrelationId`, without its log line.
  unfoldable pub resolve_correlation_id : Option Text → Exec (World Db) Exception CorrelationId
  resolve_correlation_id correlation_id = elim (truthy correlation_id) [
    | some id ↦ lift (map_err domain (correlation_id_from_string id))
    | none ↦ do
      generated ← random_uuid
      lift (map_err domain (correlation_id_from_string generated))
  ]

  -- `InboxRecord.ingest(params, this.clock)`
  abbrev pub ingest_record : IngestInboxRecordParams → Exec (World Db) Exception InboxRecord
  ingest_record params w =
      let made = ingest (w.uuids w.made) params w.clock in
      (map_err domain made.0, record w { clock = made.1; made = count made.0 w.made })

module _ (repo : InboxRepository) where
  abbrev pub upsert : InboxRecord → Exec (World repo.Db) Exception Bool
  upsert r w = let reply = repo.upsert_by_dedup_key r w.db in (reply.0, record w { db = reply.1 })

  -- `IngestEventUseCase.execute`
  unfoldable pub execute : IngestEventInput → Exec (World repo.Db) Exception IngestEventResult
  execute input = do
    key ← lift (resolve_dedup_key input.event_id input.broker_message_id)
    correlation ← resolve_correlation_id input.correlation_id
    tenant ← lift (map_err domain (tenant_id_from_string input.tenant_id))
    type ← lift (map_err domain (event_type_from_string input.event_type))
    r ← ingest_record (record {
      dedup_key = key;
      tenant_id = tenant;
      correlation_id = correlation;
      event_type = type;
      payload = input.payload;
    })
    inserted ← upsert r
    pure (record { dedup_key = key.value; inserted = inserted })
