-- ===== src/Ingestion/Store.antt =====
-- packages/event-ingestion-worker/src/domain/ports and infrastructure/inbox: the inbox repository as
-- an interface, and the repository over a MongoDB collection that fills it. The collection's driver
-- is not code of the program; it is a record of operations with the laws that its documentation
-- states.
use webhook_idp.Common.Exec.{Result, ok, ◌>>=◌, >>=-eq-ok}
use webhook_idp.Common.Text.{Text, ◌===◌}
use webhook_idp.Common.{
  ◌≡◌, refl, sym, ap, ◌∙◌, ◌≢◌, Bool, true, false, not, ◌&&◌, Option, none, some, arith,
  if◌then◌else◌,
}
use webhook_idp.Common.State.{Exec}
use webhook_idp.Subscription.Events.{Date}
use webhook_idp.Ingestion.Inbox.{
  Json, DomainError, InboxRecordStatus, InboxRecord, restore, inbox_record_id_from_string,
  dedup_key_from_string, tenant_id_from_string, correlation_id_from_string, event_type_from_string,
}

-- What the worker may throw.
pub data Exception : Type 0 where
  domain : DomainError → Exception
  unresolvable_dedup_key : Exception
  invalid_envelope : Text → Exception
  syntax_error : Exception
  infrastructure : Text → Exception

pub record InboxRecordDoc : Type 0 where
  pub id : Text
  pub dedup_key : Text
  pub tenant_id : Text
  pub correlation_id : Text
  pub event_type : Text
  pub payload : Json
  pub received_at : Date
  pub status : InboxRecordStatus

abbrev pub is_some : Option InboxRecordDoc → Bool
is_some none = false
is_some (some _) = true

-- `toDocument`
unfoldable pub to_document : InboxRecord → InboxRecordDoc
to_document r = record {
  id = r.id.value;
  dedup_key = r.dedup_key.value;
  tenant_id = r.tenant_id.value;
  correlation_id = r.correlation_id.value;
  event_type = r.event_type.value;
  payload = r.payload;
  received_at = r.received_at;
  status = r.status;
}

-- `toAggregate`
pub to_aggregate : (Text → Bool) → InboxRecordDoc → Result DomainError InboxRecord
to_aggregate is_valid_uuid doc = do
  id ← inbox_record_id_from_string is_valid_uuid doc.id
  key ← dedup_key_from_string doc.dedup_key
  tenant ← tenant_id_from_string doc.tenant_id
  correlation ← correlation_id_from_string doc.correlation_id
  type ← event_type_from_string doc.event_type
  ok (
      restore (record {
        id = id;
        dedup_key = key;
        tenant_id = tenant;
        correlation_id = correlation;
        event_type = type;
        payload = doc.payload;
        received_at = doc.received_at;
        status = doc.status;
      }))

-- What may be stored back and read: each text is one that its class accepts.
pub record IsStorable (is_valid_uuid : Text → Bool) (r : InboxRecord) : Type 0 where
  pub id : is_valid_uuid r.id.value ≡ true
  pub dedup_key : dedup_key_from_string r.dedup_key.value ≡ ok r.dedup_key
  pub tenant_id : tenant_id_from_string r.tenant_id.value ≡ ok r.tenant_id
  pub correlation_id : correlation_id_from_string r.correlation_id.value ≡ ok r.correlation_id
  pub event_type : event_type_from_string r.event_type.value ≡ ok r.event_type

-- An inbox record whose texts its classes accept is read back from its document as it was.
to_aggregate-restored :
    (is_valid_uuid : Text → Bool) (r : InboxRecord)
    → IsStorable is_valid_uuid r
    → to_aggregate is_valid_uuid (to_document r) ≡ ok r
unfolding to_aggregate to_document inbox_record_id_from_string
to_aggregate-restored is_valid_uuid r s =
    rw (s.id, s.dedup_key, s.tenant_id, s.correlation_id, s.event_type) refl

-- `Db` is the state of the database, and `stored` what it holds under a dedup key.
pub record InboxRepository : Type 1 where
  pub Db : Type 0
  pub stored : Db → Text → Option InboxRecordDoc
  -- The Boolean is the field `inserted` of the result.
  pub upsert_by_dedup_key : InboxRecord → Exec Db Exception Bool
  -- A call that returns has inserted the document, if there was none under its key, and has else
  -- left what there was.
  pub upsert-stored :
      (r : InboxRecord) (db : Db) (inserted : Bool) (key : Text)
      → (upsert_by_dedup_key r db).0 ≡ ok inserted
      → stored (upsert_by_dedup_key r db).1 key
        ≡ (if (key === r.dedup_key.value) && inserted then some (to_document r) else stored db key)
  pub upsert-inserted :
      (r : InboxRecord) (db : Db) (inserted : Bool)
      → (upsert_by_dedup_key r db).0 ≡ ok inserted
      → (inserted ≡ true → stored db r.dedup_key.value ≡ none)
        × (inserted ≡ false → stored db r.dedup_key.value ≢ none)
  -- Whether a call returns or throws, a document that was stored is stored as it was.
  pub upsert-keeps :
      (r : InboxRecord) (db : Db) (key : Text) (doc : InboxRecordDoc)
      → stored db key ≡ some doc
      → stored (upsert_by_dedup_key r db).1 key ≡ some doc

-- The inbox's MongoDB collection with its unique index on `dedupKey`. A call of `findOneAndUpdate`
-- with `upsert` and `$setOnInsert` returns `lastErrorObject?.updatedExisting`, where it is there.
pub record InboxCollection : Type 1 where
  pub Db : Type 0
  pub find_one : Db → Text → Option InboxRecordDoc
  pub find_one_and_set_on_insert : Text → InboxRecordDoc → Exec Db Exception (Option Bool)
  -- The call reports an existing document where there was one.
  pub reports :
      (key : Text) (doc : InboxRecordDoc) (db : Db) (updated_existing : Option Bool)
      → (find_one_and_set_on_insert key doc db).0 ≡ ok updated_existing
      → updated_existing ≡ some (is_some (find_one db key))
  -- It inserts if there was none.
  pub sets :
      (key : Text) (doc : InboxRecordDoc) (db : Db) (updated_existing : Option Bool) (other : Text)
      → (find_one_and_set_on_insert key doc db).0 ≡ ok updated_existing
      → find_one (find_one_and_set_on_insert key doc db).1 other ≡ (
          if (other === key) && not (is_some (find_one db key))
          then some doc
          else find_one db other)
  -- An existing document is never changed, not even by a call that throws.
  pub keeps :
      (key : Text) (doc : InboxRecordDoc) (db : Db) (other : Text) (old : InboxRecordDoc)
      → find_one db other ≡ some old
      → find_one (find_one_and_set_on_insert key doc db).1 other ≡ some old

-- `!result.lastErrorObject?.updatedExisting`
abbrev pub was_inserted : Option Bool → Bool
was_inserted none = true
was_inserted (some updated_existing) = not updated_existing

-- `InboxMongoRepository.upsertByDedupKey`
unfoldable pub mongo_upsert : (c : InboxCollection) → InboxRecord → Exec c.Db Exception Bool
mongo_upsert c r db =
    let doc = to_document r in
    let reply = c.find_one_and_set_on_insert doc.dedup_key doc db in
    (reply.0 >>= (λ updated_existing. ok (was_inserted updated_existing)), reply.1)

is_some-cases :
    (found : Option InboxRecordDoc) (inserted : Bool)
    → inserted ≡ not (is_some found)
    → (inserted ≡ true → found ≡ none) × (inserted ≡ false → found ≢ none)
is_some-cases none inserted h = (λ i. refl, λ i n. ground arith)
is_some-cases (some doc) inserted h = (λ i. absurd (ground arith), λ i n. ground arith)

module _ (c : InboxCollection) where
  mongo-reply :
      (r : InboxRecord) (db : c.Db) (inserted : Bool)
      → (mongo_upsert c r db).0 ≡ ok inserted
      → (updated_existing : Option Bool) × ((c.find_one_and_set_on_insert r.dedup_key.value
            (to_document r)
            db).0
          ≡ ok updated_existing)
        × (inserted ≡ not (is_some (c.find_one db r.dedup_key.value)))
  unfolding mongo_upsert to_document
  mongo-reply r db inserted h =
      let (u, replied, result) = >>=-eq-ok _ _ h in
      let said = c.reports r.dedup_key.value (to_document r) db u replied in
      let here : was_inserted u ≡ inserted = ground arith in
      (u, replied, sym here ∙ ap was_inserted said)

  mongo-stored :
      (r : InboxRecord) (db : c.Db) (inserted : Bool) (key : Text)
      → (mongo_upsert c r db).0 ≡ ok inserted
      → c.find_one (mongo_upsert c r db).1 key ≡ (
          if (key === r.dedup_key.value) && inserted
          then some (to_document r)
          else c.find_one db key)
  unfolding mongo_upsert to_document
  mongo-stored r db inserted key h =
      let (u, replied, is_new) = mongo-reply r db inserted h in
      rw is_new (c.sets r.dedup_key.value (to_document r) db u key replied)

  -- The repository over the collection fills the port: an upsert that returns has inserted the
  -- document if there was none under its key, says so, and has else changed nothing; and no upsert,
  -- not even one that throws, changes a document that was stored.
  pub mongo_upsert_lem :
      (r : InboxRecord) (db : c.Db)
      → ((inserted : Bool) (key : Text)
          → (mongo_upsert c r db).0 ≡ ok inserted
          → c.find_one (mongo_upsert c r db).1 key ≡ (
              if (key === r.dedup_key.value) && inserted
              then some (to_document r)
              else c.find_one db key))
        × ((inserted : Bool)
            → (mongo_upsert c r db).0 ≡ ok inserted
            → (inserted ≡ true → c.find_one db r.dedup_key.value ≡ none)
              × (inserted ≡ false → c.find_one db r.dedup_key.value ≢ none))
        × ((key : Text) (doc : InboxRecordDoc)
            → c.find_one db key ≡ some doc
            → c.find_one (mongo_upsert c r db).1 key ≡ some doc)
  unfolding mongo_upsert
  mongo_upsert_lem r db = (
    (λ inserted key h. mongo-stored r db inserted key h),
    (λ inserted h.
        let (u, replied, is_new) = mongo-reply r db inserted h in
        is_some-cases (c.find_one db r.dedup_key.value) inserted is_new),
    (λ key doc h. c.keeps (to_document r).dedup_key (to_document r) db key doc h),
  )

  -- The repository that the module binds to `INBOX_REPOSITORY`.
  abbrev pub mongo_repository : InboxRepository
  mongo_repository = record {
    Db = c.Db;
    stored = c.find_one;
    upsert_by_dedup_key = mongo_upsert c;
    upsert-stored = λ r db inserted key h. (mongo_upsert_lem r db).0 inserted key h;
    upsert-inserted = λ r db inserted h. (mongo_upsert_lem r db).1 inserted h;
    upsert-keeps = λ r db key doc h. (mongo_upsert_lem r db).2 key doc h;
  }
