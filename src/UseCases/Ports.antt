-- ===== src/UseCases/Ports.antt =====
-- packages/webhook-api/src/domain/ports/*.ts and packages/webhook-api/src/application/errors/*.ts:
-- what the use cases are given, and what they throw. The repository is an interface: its
-- operations, and the law of each in terms of the documents that the database holds.
use webhook_idp.Subscription.Aggregate.{WebhookSubscription}
use webhook_idp.Subscription.Errors.{DomainError}
use webhook_idp.Subscription.TargetUrl.{UrlParser, TargetUrl}
use webhook_idp.Subscription.ValueObjects.{TenantId, EventType, SubscriptionId, SubscriptionStatus}
use webhook_idp.Common.Exec.{Result, ok, err, ◌>>=◌}
use webhook_idp.Common.Text.{Text, ◌===◌}
use webhook_idp.Common.{ℕ, ◌≡◌, ◌≢◌, ◌⊎◌, Bool, Option, none, some, List, if◌then◌else◌}
use webhook_idp.Common.State.{Exec}
use webhook_idp.Persistence.{SubscriptionRecord, to_document, to_aggregate}

pub data ApplicationError : Type 0 where
  subscription_not_found duplicate_subscription : Text → ApplicationError

-- What a use case may throw. `infrastructure` is an error that is none of the program's: a rejection
-- by the database, or a `TypeError`.
pub data Exception : Type 0 where
  domain : DomainError → Exception
  application : ApplicationError → Exception
  infrastructure : Text → Exception

pub record SubscriptionListFilters : Type 0 where
  pub status : Option SubscriptionStatus
  pub event_type : Option EventType

pub record Pagination : Type 0 where
  pub page : ℕ
  pub page_size : ℕ

pub record PaginatedResult {ℓ} (T : Type ℓ) : Type ℓ where
  pub items : List T
  pub page : ℕ
  pub page_size : ℕ
  pub total : ℕ

-- A document, read back for a caller of `findByIdAndTenant`.
abbrev pub read_for :
    (Text → Bool)
    → UrlParser
    → TenantId
    → Option SubscriptionRecord
    → Result DomainError (Option WebhookSubscription)
read_for is_valid_uuid parse tenant none = ok none
read_for is_valid_uuid parse tenant (some doc) =
    if doc.tenant_id === tenant.value
    then to_aggregate is_valid_uuid parse doc >>= (λ s. ok (some s))
    else ok none

module _ (is_valid_uuid : Text → Bool) (parse : UrlParser) where
  -- `Db` is the state of the database, and `document` what it holds under an id.
  pub record SubscriptionRepository : Type 1 where
    pub Db : Type 0
    pub document : Db → Text → Option SubscriptionRecord
    pub save : WebhookSubscription → Exec Db Exception (Unit {0})
    pub find_by_id_and_tenant :
        SubscriptionId → TenantId → Db → Result Exception (Option WebhookSubscription)
    pub find_by_tenant_and_target_url :
        TenantId → TargetUrl → Db → Result Exception (Option WebhookSubscription)
    pub list :
        TenantId
        → SubscriptionListFilters
        → Pagination
        → Db
        → Result Exception (PaginatedResult WebhookSubscription)
    -- A document lies under its own id.
    pub document-id :
        (db : Db) (key : Text) (doc : SubscriptionRecord)
        → document db key ≡ some doc
        → doc.id ≡ key
    -- A save that succeeds replaces the document under the subscription's id, and no other.
    pub save-document :
        (s : WebhookSubscription) (db : Db) (key : Text)
        → (save s db).0 ≡ ok tt
        → document (save s db).1 key
          ≡ (if key === s.id.value then some (to_document s) else document db key)
    -- A write of one document is atomic: a save that throws has replaced the document as a whole, as
    -- where the reply was lost, or has changed nothing.
    pub save-whole :
        (s : WebhookSubscription) (db : Db) (e : Exception)
        → (save s db).0 ≡ err e
        → ((key : Text) → document (save s db).1 key ≡ document db key)
          ⊎ ((key : Text)
              → document (save s db).1 key
                ≡ (if key === s.id.value then some (to_document s) else document db key))
    -- A read by id and tenant that returns has read the document under that id.
    pub find_by_id-document :
        (id : SubscriptionId) (tenant : TenantId) (db : Db) (found : Option WebhookSubscription)
        → find_by_id_and_tenant id tenant db ≡ ok found
        → read_for is_valid_uuid parse tenant (document db id.value) ≡ ok found
    -- A read by tenant and URL finds a document if there is one.
    pub find_by_url-document :
        (tenant : TenantId) (url : TargetUrl) (db : Db) (key : Text) (doc : SubscriptionRecord)
        → find_by_tenant_and_target_url tenant url db ≡ ok none
        → document db key ≡ some doc
        → doc.tenant_id ≡ tenant.value
        → doc.target_url ≢ url.value
