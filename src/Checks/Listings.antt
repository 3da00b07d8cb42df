-- ===== src/Checks/Listings.antt =====
-- The theorems on the repository, at concrete inputs.
use webhook_idp.Common.{
  ◌≤◌, ◌≡◌, refl, sym, ap, ◌∙◌, ◌⊎◌, Option, none, some, List, [], ◌∷◌, arith, find, filter, length,
  take, drop, if◌then◌else◌, map, Bool-cases, inl, inr,
}
use webhook_idp.Common.Text.{Text, txt, ◌===◌, ===_iff, ===_comm, is_blank}
use webhook_idp.Common.Exec.{Result, ok, err, map_result}
use webhook_idp.Subscription.ValueObjects.{
  TenantId, tenant_id_equals, active, tenant_id_from_string, client_id_from_string,
  event_type_from_string, subscription_id_from_string,
}
use webhook_idp.Subscription.PrivateHost.{private_host_functions}
use webhook_idp.Subscription.TargetUrl.{target_url_from_string}
use webhook_idp.Subscription.Aggregate.{WebhookSubscription, restore, status_equals}
use webhook_idp.Persistence.{SubscriptionRecord, to_document, to_aggregate, optional_user_id}
use webhook_idp.UseCases.Ports.{
  Exception, infrastructure, SubscriptionListFilters, Pagination, PaginatedResult,
}
use webhook_idp.Repository.{SubscriptionCollection, matches, by_filters, has_id, has_url, save}
use webhook_idp.Repository.Fills.{mongo_repository_lem}
use webhook_idp.Repository.Pages.{read_pages, read_pages-all}
use webhook_idp.Common.Stores.{Store, set, values}
use webhook_idp.Repository.Memory.{
  memory_save, memory_list, memory_list-agrees, is_listed, has_status, has_event_type,
}
use webhook_idp.Checks.Samples.{sample_parser, any_uuid, sample}

-- A collection with room for one document.
abbrev held : Option SubscriptionRecord → List SubscriptionRecord
held none = []
held (some doc) = doc ∷ []

abbrev put :
    Text
    → SubscriptionRecord
    → Option SubscriptionRecord
    → Result Exception (Unit {0}) × Option SubscriptionRecord
put id doc none = (ok tt, some doc)
put id doc (some old) =
    if old.id === id then (ok tt, some doc) else (err (infrastructure (txt "full")), some old)

held_unique :
    (db : Option SubscriptionRecord) (key : Text) → length (filter (has_id key) (held db)) ≤ 1
held_unique none key = omega arith
held_unique (some doc) key = ground arith

one :
    (doc : SubscriptionRecord) (key : Text)
    → find (has_id key) (held (some doc)) ≡ (if key === doc.id then some doc else none)
one doc key = rw (===_comm doc.id key) refl

put-updates :
    (id : Text) (doc : SubscriptionRecord) (db : Option SubscriptionRecord) (key : Text)
    → doc.id ≡ id
    → (put id doc db).0 ≡ ok tt
    → find (has_id key) (held (put id doc db).1)
      ≡ (if key === id then some doc else find (has_id key) (held db))
put-updates id doc none key same h =
    one doc key ∙ ap (λ i. if key === i then some doc else none) same
put-updates id doc (some old) key same h = elim (Bool-cases (old.id === id)) [
  | inl replaced ↦
      let new_id : (doc.id === key) ≡ (key === id) =
        ===_comm doc.id key ∙ ap (λ i. key === i) same in
      let old_id : (old.id === key) ≡ (key === id) =
        ===_comm old.id key ∙ ap (λ i. key === i) ((===_iff old.id id).0 replaced) in
      elim (Bool-cases (key === id)) [ inl here ↦ ground arith | inr elsewhere ↦ ground arith ]
  | inr other ↦ absurd (ground arith)
]

put-atomic :
    (id : Text) (doc : SubscriptionRecord) (db : Option SubscriptionRecord) (e : Exception)
    → doc.id ≡ id
    → (put id doc db).0 ≡ err e
    → ((key : Text) → find (has_id key) (held (put id doc db).1) ≡ find (has_id key) (held db))
      ⊎ ((key : Text)
          → find (has_id key) (held (put id doc db).1)
            ≡ (if key === id then some doc else find (has_id key) (held db)))
put-atomic id doc none e same h = absurd (ground arith)
put-atomic id doc (some old) e same h = elim (Bool-cases (old.id === id)) [
  | inl replaced ↦ absurd (ground (arith, replaced, h))
  | inr other ↦ inl (λ key. rw other refl)
]

held_unique_url :
    (db : Option SubscriptionRecord) (tenant url : Text)
    → length (filter (has_url tenant url) (held db)) ≤ 1
held_unique_url none tenant url = omega arith
held_unique_url (some doc) tenant url = ground arith

abbrev one_slot : SubscriptionCollection
one_slot = record {
  Db = Option SubscriptionRecord;
  documents = held;
  unique_id = held_unique;
  find_one_and_update = put;
  find_one = λ q db. ok (find (matches q) (held db));
  find_some = λ q skip limit db. ok (take limit (drop skip (filter (matches q) (held db))));
  count_documents = λ q db. ok (length (filter (matches q) (held db)));
  updates = put-updates;
  atomic = put-atomic;
  unique_url = held_unique_url;
  negative_skip = infrastructure (txt "negative skip");
  finds_one = λ q db found h. sym (cc h);
  finds_some =
      λ q skip limit db found some_limit h. (filter (matches q) (held db), (λ p. refl), sym (cc h));
  counts = λ q db n h. sym (cc h);
}

abbrev tenant : TenantId
tenant = record { value = txt "t" }

abbrev any_filters : SubscriptionListFilters
any_filters = record { status = some active; event_type = none }

abbrev first_page : Pagination
first_page = record { page = 1; page_size = 2 }

abbrev page_one : PaginatedResult WebhookSubscription
page_one = record { items = sample ∷ []; page = 1; page_size = 2; total = 1 }

mongo_repository_lem_example :
    find (has_id (txt "i")) (held (save any_uuid sample_parser one_slot sample none).1)
    ≡ some (to_document sample)
unfolding save to_document txt ◌===◌
mongo_repository_lem_example =
    (mongo_repository_lem any_uuid sample_parser one_slot sample sample.id tenant sample.target_url
        none).0
      (txt "i") refl

read_pages-all_example :
    read_pages any_uuid sample_parser one_slot tenant any_filters 2 (some (to_document sample)) 1
    ≡ ok (sample ∷ [])
unfolding by_filters matches status_equals to_document to_aggregate tenant_id_from_string
    client_id_from_string event_type_from_string subscription_id_from_string optional_user_id
    target_url_from_string private_host_functions map_result restore is_blank txt ◌===◌
read_pages-all_example =
    read_pages-all any_uuid sample_parser one_slot tenant any_filters 2 (some (to_document sample))
      (to_document sample ∷ []) (sample ∷ []) (omega arith) (λ skip limit h. refl) refl refl 1
      (omega arith)

abbrev store : Store WebhookSubscription
store = memory_save sample []

memory_list-agrees_example :
    (memory_list tenant any_filters first_page store).total
    ≡ length (filter (matches (by_filters tenant any_filters)) (map to_document (values store)))
memory_list-agrees_example =
    (memory_list-agrees tenant any_filters first_page sample.target_url store (omega arith)).1

-- The sample is stored and listed.
listed : (memory_list tenant any_filters first_page store).items ≡ sample ∷ []
unfolding memory_list memory_save set is_listed txt ◌===◌ status_equals tenant_id_equals has_status
    has_event_type
listed = refl
