-- ===== src/Repository/Memory.antt =====
-- packages/webhook-api/src/application/use-cases/support/fakes.ts: the repository in memory that the
-- tests of the use cases run on, a `Map` in the order of insertion; and that it selects what the
-- database selects.
use webhook_idp.Common.{
  ℕ, zero, suc, ◌+◌, ◌-◌, ◌*◌, ◌≤◌, ◌==◌, ◌≡◌, refl, sym, ap, Bool, true, false, not, ◌&&◌, Option,
  none, some, List, [], ◌∷◌, map, arith, any, find, filter, length, take, drop, if◌then◌else◌,
}
use webhook_idp.Common.Stores.{Store, set, get, values}
use webhook_idp.Common.Text.{Text, ◌===◌}
use webhook_idp.Subscription.ValueObjects.{
  TenantId, SubscriptionId, EventType, SubscriptionStatus, tenant_id_equals, event_type_equals,
}
use webhook_idp.Subscription.TargetUrl.{TargetUrl, target_url_equals}
use webhook_idp.Subscription.Aggregate.{WebhookSubscription, status_equals}
use webhook_idp.Persistence.{SubscriptionRecord, to_document, event_type_text}
use webhook_idp.UseCases.Ports.{SubscriptionListFilters, Pagination, PaginatedResult}
use webhook_idp.Repository.{matches, demands, by_url, by_filters, event_type_value}

-- `save`
unfoldable pub memory_save :
    WebhookSubscription → Store WebhookSubscription → Store WebhookSubscription
memory_save s = set s.id.value s

-- `if (!found || !found.tenantId.equals(tenantId)) return null;`
unfoldable pub owned_by : TenantId → Option WebhookSubscription → Option WebhookSubscription
owned_by tenant none = none
owned_by tenant (some found) =
    if not (tenant_id_equals found.tenant_id tenant) then none else some found

-- `findByIdAndTenant`
unfoldable pub memory_find_by_id_and_tenant :
    SubscriptionId → TenantId → Store WebhookSubscription → Option WebhookSubscription
memory_find_by_id_and_tenant id tenant store = owned_by tenant (get id.value store)

-- `findByTenantAndTargetUrl`
unfoldable pub memory_find_by_tenant_and_target_url :
    TenantId → TargetUrl → Store WebhookSubscription → Option WebhookSubscription
memory_find_by_tenant_and_target_url tenant url store =
    find (λ s. tenant_id_equals s.tenant_id tenant && target_url_equals s.target_url url)
      (values store)

-- The status filter and the event type filter of `list`.
unfoldable pub has_status : Option SubscriptionStatus → WebhookSubscription → Bool
has_status none s = true
has_status (some status) s = status_equals s.status status

unfoldable pub has_event_type : Option EventType → WebhookSubscription → Bool
has_event_type none s = true
has_event_type (some type) s = any (λ t. event_type_equals t type) s.event_types

unfoldable pub is_listed : TenantId → SubscriptionListFilters → WebhookSubscription → Bool
is_listed tenant filters s =
    if not (tenant_id_equals s.tenant_id tenant)
    then false
    else if not (has_status filters.status s)
    then false
    else if not (has_event_type filters.event_type s)
    then false
    else true

-- `list`. At page 0 `start` is negative, and `slice` from there up to 0 is empty.
unfoldable pub memory_list :
    TenantId
    → SubscriptionListFilters
    → Pagination
    → Store WebhookSubscription
    → PaginatedResult WebhookSubscription
memory_list tenant filters pagination store =
    let all = filter (is_listed tenant filters) (values store) in
    let start = (pagination.page - 1) * pagination.page_size in
    record {
      items =
          if pagination.page == 0
          then []
          else take (start + pagination.page_size - start) (drop start all);
      page = pagination.page;
      page_size = pagination.page_size;
      total = length all;
    }

-- The document of what was found.
unfoldable pub document_of : Option WebhookSubscription → Option SubscriptionRecord
document_of none = none
document_of (some s) = some (to_document s)

any-map :
    (f : EventType → Text) (p : Text → Bool) (ts : List EventType)
    → any p (map f ts) ≡ any (λ t. p (f t)) ts
any-map f p [] = refl
any-map f p (t ∷ ts) = rw (any-map f p ts) refl

-- The filters, one after the other.
has_event_type_lem :
    (type : Option EventType) (s : WebhookSubscription)
    → demands (λ t. any (λ u. u === t) (map event_type_text s.event_types)) (event_type_value type)
      ≡ has_event_type type s
unfolding has_event_type event_type_equals
has_event_type_lem none s = refl
has_event_type_lem (some type) s = any-map event_type_text (λ u. u === type.value) s.event_types

has_status_lem :
    (status : Option SubscriptionStatus) (s : WebhookSubscription)
    → demands (λ t. status_equals s.status t) status ≡ has_status status s
unfolding has_status
has_status_lem none s = refl
has_status_lem (some status) s = refl

guards :
    (a b c : Bool)
    → (a && (b && c))
      ≡ (if not a then false else if not b then false else if not c then false else true)
guards a b c = ground arith

pub matches-listed :
    (tenant : TenantId) (filters : SubscriptionListFilters) (s : WebhookSubscription)
    → matches (by_filters tenant filters) (to_document s) ≡ is_listed tenant filters s
unfolding matches by_filters to_document is_listed tenant_id_equals
matches-listed tenant filters s =
    rw (has_event_type_lem filters.event_type s, has_status_lem filters.status s)
      (guards (s.tenant_id.value === tenant.value) (has_status filters.status s)
        (has_event_type filters.event_type s))

matches-url :
    (tenant : TenantId) (url : TargetUrl) (s : WebhookSubscription)
    → matches (by_url tenant url) (to_document s)
      ≡ (tenant_id_equals s.tenant_id tenant && target_url_equals s.target_url url)
unfolding matches by_url to_document tenant_id_equals target_url_equals
matches-url tenant url s = ground arith

module _ (p : SubscriptionRecord → Bool) (q : WebhookSubscription → Bool)
    (same : (s : WebhookSubscription) → p (to_document s) ≡ q s) where
  filter-map :
      (xs : List WebhookSubscription)
      → filter p (map to_document xs) ≡ map to_document (filter q xs)
  filter-map [] = refl
  filter-map (x ∷ xs) = ground (arith, same x, filter-map xs)

  find-map : (xs : List WebhookSubscription) → find p (map to_document xs) ≡ document_of (find q xs)
  unfolding document_of
  find-map [] = refl
  find-map (x ∷ xs) = ground (arith, same x, find-map xs)

take-map :
    (n : ℕ) (xs : List WebhookSubscription)
    → take n (map to_document xs) ≡ map to_document (take n xs)
take-map zero xs = refl
take-map (suc n) [] = refl
take-map (suc n) (x ∷ xs) = ap (λ l. to_document x ∷ l) (take-map n xs)

drop-map :
    (n : ℕ) (xs : List WebhookSubscription)
    → drop n (map to_document xs) ≡ map to_document (drop n xs)
drop-map zero xs = refl
drop-map (suc n) [] = refl
drop-map (suc n) (x ∷ xs) = drop-map n xs

length-map : (xs : List WebhookSubscription) → length (map to_document xs) ≡ length xs
length-map [] = refl
length-map (x ∷ xs) = omega (arith, length-map xs)

-- The repository in memory selects as the database does, at a page from 1 on: of the documents of what it stores, in their
-- order, a page of its list is the page of those that the filters of the query select, its total is
-- their number, and what it finds by tenant and URL is the first that the query's filter selects.
pub memory_list-agrees :
    (tenant : TenantId) (filters : SubscriptionListFilters) (pagination : Pagination)
    (url : TargetUrl) (store : Store WebhookSubscription)
    → 1 ≤ pagination.page
    → (map to_document (memory_list tenant filters pagination store).items
        ≡ take pagination.page_size (
            drop
              ((pagination.page - 1) * pagination.page_size)
              (filter (matches (by_filters tenant filters)) (map to_document (values store)))))
      × ((memory_list tenant filters pagination store).total
          ≡ length (filter (matches (by_filters tenant filters)) (map to_document (values store))))
      × (document_of (memory_find_by_tenant_and_target_url tenant url store)
          ≡ find (matches (by_url tenant url)) (map to_document (values store)))
unfolding memory_list memory_find_by_tenant_and_target_url
memory_list-agrees tenant filters pagination url store first =
    let start = (pagination.page - 1) * pagination.page_size in
    let listed =
      filter-map (matches (by_filters tenant filters)) (is_listed tenant filters)
        (matches-listed tenant filters) (values store) in
    let all = filter (is_listed tenant filters) (values store) in
    let not_zero : (pagination.page == 0) ≡ false = ground (arith, first) in
    let size : start + pagination.page_size - start ≡ pagination.page_size = omega arith in
    (
      rw
          (
            not_zero,
            listed,
            size,
            drop-map start all,
            take-map pagination.page_size (drop start all),
          )
          refl,
      rw (listed, length-map all) refl,
      sym (find-map (matches (by_url tenant url)) _ (matches-url tenant url) (values store)),
    )
