-- ===== src/Repository/Listing.antt =====
-- What a page of a list holds.
use webhook_idp.Common.{◌-◌, ◌*◌, ◌≡◌, Bool, true, List, filter, length, All, leb, if◌then◌else◌}
use webhook_idp.Common.Text.{Text}
use webhook_idp.Common.Exec.{ok, map_result}
use webhook_idp.Subscription.ValueObjects.{TenantId}
use webhook_idp.Subscription.TargetUrl.{UrlParser}
use webhook_idp.Subscription.Aggregate.{WebhookSubscription}
use webhook_idp.Persistence.{SubscriptionRecord, to_aggregate}
use webhook_idp.UseCases.Ports.{SubscriptionListFilters, Pagination, PaginatedResult}
use webhook_idp.Repository.{SubscriptionCollection, matches, by_filters}

module _ (is_valid_uuid : Text → Bool) (parse : UrlParser) (c : SubscriptionCollection) where
  -- A page that `list` returns.
  pub record IsPage (tenant : TenantId) (filters : SubscriptionListFilters)
      (pagination : Pagination) (db : c.Db) (r : PaginatedResult WebhookSubscription) : Type 0 where
    pub page : r.page ≡ pagination.page
    pub page_size : r.page_size ≡ pagination.page_size
    pub total : r.total ≡ length (filter (matches (by_filters tenant filters)) (c.documents db))
    pub documents : List SubscriptionRecord
    pub read : map_result (to_aggregate is_valid_uuid parse) documents ≡ ok r.items
    pub selected : All (λ d. matches (by_filters tenant filters) d ≡ true) documents
    pub size : length documents ≡ (
        if leb pagination.page_size (r.total - (pagination.page - 1) * pagination.page_size)
        then pagination.page_size
        else r.total - (pagination.page - 1) * pagination.page_size)
