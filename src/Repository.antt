-- ===== src/Repository.antt =====
-- packages/webhook-api/src/infrastructure/subscription/subscription-mongo.repository.ts, from line
-- 69: the repository over the collection of subscriptions. The collection's driver is not code of the
-- program; it is a record of operations with the laws that its documentation states.
pub mod Fills
pub mod Listing
pub mod Pages
pub mod Memory
use webhook_idp.Common.{
  ℕ, zero, suc, ◌*◌, ◌≤◌, ◌≡◌, ◌⊎◌, Bool, true, ◌&&◌, Option, none, some, List, any, find, filter,
  length, take, drop, if◌then◌else◌,
}
use webhook_idp.Common.Text.{Text, ◌===◌}
use webhook_idp.Common.Exec.{Result, ok, err, ◌>>=◌, map_result, map_err}
use webhook_idp.Common.State.{Exec}
use webhook_idp.Subscription.ValueObjects.{TenantId, SubscriptionId, EventType, SubscriptionStatus}
use webhook_idp.Subscription.TargetUrl.{UrlParser, TargetUrl}
use webhook_idp.Subscription.Aggregate.{WebhookSubscription, status_equals}
use webhook_idp.Persistence.{SubscriptionRecord, to_document, to_aggregate}
use webhook_idp.UseCases.Ports.{
  Exception, domain, SubscriptionListFilters, Pagination, PaginatedResult,
}

-- A filter of a query: the fields that are there must be equal, and an array holds the value.
pub record FilterQuery : Type 0 where
  pub id : Option Text
  pub tenant_id : Option Text
  pub target_url : Option Text
  pub status : Option SubscriptionStatus
  pub event_type : Option Text

abbrev pub demands {ℓ} : {A : Type ℓ} → (A → Bool) → Option A → Bool
demands test none = true
demands test (some a) = test a

-- Which documents a filter selects.
unfoldable pub matches : FilterQuery → SubscriptionRecord → Bool
matches q doc =
    demands (λ id. doc.id === id) q.id
    && (demands (λ tenant. doc.tenant_id === tenant) q.tenant_id
        && (demands (λ url. doc.target_url === url) q.target_url
            && (demands (λ status. status_equals doc.status status) q.status
                && demands (λ type. any (λ t. t === type) doc.subscribed_event_types)
                    q.event_type)))

abbrev pub has_id : Text → SubscriptionRecord → Bool
has_id key doc = doc.id === key

-- The same documents, as often, in whatever order.
abbrev pub SameDocuments : List SubscriptionRecord → List SubscriptionRecord → Type 0
SameDocuments xs ys = (p : SubscriptionRecord → Bool) → length (filter p xs) ≡ length (filter p ys)

-- A document of a tenant with a URL.
abbrev pub has_url : Text → Text → SubscriptionRecord → Bool
has_url tenant url doc = doc.tenant_id === tenant && doc.target_url === url

-- The collection. `negative_skip` is what the driver throws at a `skip` that is negative.
pub record SubscriptionCollection : Type 1 where
  pub Db : Type 0
  pub documents : Db → List SubscriptionRecord
  -- `_id` is unique.
  pub unique_id : (db : Db) (key : Text) → length (filter (has_id key) (documents db)) ≤ 1
  -- The index on the tenant and the URL is unique.
  pub unique_url :
      (db : Db) (tenant url : Text) → length (filter (has_url tenant url) (documents db)) ≤ 1
  pub negative_skip : Exception
  -- `findOneAndUpdate({ _id }, record, { upsert: true })`
  pub find_one_and_update : Text → SubscriptionRecord → Exec Db Exception (Unit {0})
  pub find_one : FilterQuery → Db → Result Exception (Option SubscriptionRecord)
  -- `find(query).skip(skip).limit(limit)`
  pub find_some : FilterQuery → ℕ → ℕ → Db → Result Exception (List SubscriptionRecord)
  pub count_documents : FilterQuery → Db → Result Exception ℕ
  pub updates :
      (id : Text) (doc : SubscriptionRecord) (db : Db) (key : Text)
      → doc.id ≡ id
      → (find_one_and_update id doc db).0 ≡ ok tt
      → find (has_id key) (documents (find_one_and_update id doc db).1)
        ≡ (if key === id then some doc else find (has_id key) (documents db))
  -- A write of one document is atomic: a call that fails has written it as a whole, or nothing.
  pub atomic :
      (id : Text) (doc : SubscriptionRecord) (db : Db) (e : Exception)
      → doc.id ≡ id
      → (find_one_and_update id doc db).0 ≡ err e
      → ((key : Text)
          → find (has_id key) (documents (find_one_and_update id doc db).1)
            ≡ find (has_id key) (documents db))
        ⊎ ((key : Text)
            → find (has_id key) (documents (find_one_and_update id doc db).1)
              ≡ (if key === id then some doc else find (has_id key) (documents db)))
  pub finds_one :
      (q : FilterQuery) (db : Db) (found : Option SubscriptionRecord)
      → find_one q db ≡ ok found
      → found ≡ find (matches q) (documents db)
  -- Without a sort the order of the result is left open. A limit of 0 would be none, and is not spoken
  -- of.
  pub finds_some :
      (q : FilterQuery) (skip limit : ℕ) (db : Db) (found : List SubscriptionRecord)
      → 1 ≤ limit
      → find_some q skip limit db ≡ ok found
      → (ms : List SubscriptionRecord) × SameDocuments ms (filter (matches q) (documents db))
        × (found ≡ take limit (drop skip ms))
  pub counts :
      (q : FilterQuery) (db : Db) (n : ℕ)
      → count_documents q db ≡ ok n
      → n ≡ length (filter (matches q) (documents db))

-- `record ? toAggregate(record) : null`
abbrev pub optional_aggregate :
    (Text → Bool)
    → UrlParser
    → Option SubscriptionRecord
    → Result Exception (Option WebhookSubscription)
optional_aggregate is_valid_uuid parse none = ok none
optional_aggregate is_valid_uuid parse (some doc) =
    map_err domain (to_aggregate is_valid_uuid parse doc >>= (λ s. ok (some s)))

-- The filter of `findByIdAndTenant`.
unfoldable pub by_id : SubscriptionId → TenantId → FilterQuery
by_id id tenant = record {
  id = some id.value;
  tenant_id = some tenant.value;
  target_url = none;
  status = none;
  event_type = none;
}

-- The filter of `findByTenantAndTargetUrl`.
unfoldable pub by_url : TenantId → TargetUrl → FilterQuery
by_url tenant url = record {
  id = none;
  tenant_id = some tenant.value;
  target_url = some url.value;
  status = none;
  event_type = none;
}

abbrev pub event_type_value : Option EventType → Option Text
event_type_value none = none
event_type_value (some t) = some t.value

-- The filter of `list`.
unfoldable pub by_filters : TenantId → SubscriptionListFilters → FilterQuery
by_filters tenant filters = record {
  id = none;
  tenant_id = some tenant.value;
  target_url = none;
  status = filters.status;
  event_type = event_type_value filters.event_type;
}

-- `(page - 1) * pageSize`, which the driver refuses where it is negative.
unfoldable pub skip_of : Exception → ℕ → ℕ → Result Exception ℕ
skip_of negative zero zero = ok 0
skip_of negative zero (suc page_size) = err negative
skip_of negative (suc page) page_size = ok (page * page_size)

module _ (is_valid_uuid : Text → Bool) (parse : UrlParser) (c : SubscriptionCollection) where
  -- `save`
  unfoldable pub save : WebhookSubscription → Exec c.Db Exception (Unit {0})
  save s = let doc = to_document s in c.find_one_and_update doc.id doc

  -- `findByIdAndTenant`
  unfoldable pub find_by_id_and_tenant :
      SubscriptionId → TenantId → c.Db → Result Exception (Option WebhookSubscription)
  find_by_id_and_tenant id tenant db =
      c.find_one (by_id id tenant) db >>= optional_aggregate is_valid_uuid parse

  -- `findByTenantAndTargetUrl`
  unfoldable pub find_by_tenant_and_target_url :
      TenantId → TargetUrl → c.Db → Result Exception (Option WebhookSubscription)
  find_by_tenant_and_target_url tenant url db =
      c.find_one (by_url tenant url) db >>= optional_aggregate is_valid_uuid parse

  -- `list`. The two reads are sent together; neither writes.
  unfoldable pub list :
      TenantId
      → SubscriptionListFilters
      → Pagination
      → c.Db
      → Result Exception (PaginatedResult WebhookSubscription)
  list tenant filters pagination db = do
    let query = by_filters tenant filters
    skip ← skip_of c.negative_skip pagination.page pagination.page_size
    records ← c.find_some query skip pagination.page_size db
    total ← c.count_documents query db
    items ← map_err domain (map_result (to_aggregate is_valid_uuid parse) records)
    ok (record {
      items = items;
      page = pagination.page;
      page_size = pagination.page_size;
      total = total;
    })
