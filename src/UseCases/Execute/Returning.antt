-- ===== src/UseCases/Execute/Returning.antt =====
-- When a creation returns.
use webhook_idp.Common.{◌≡◌, refl, ◌≢◌, Bool, Option, none, List, [], arith, inl, inr}
use webhook_idp.Common.Text.{Text}
use webhook_idp.Common.Exec.{Result-cases, ok, map_result}
use webhook_idp.Subscription.ValueObjects.{
  TenantId, ClientId, UserId, EventType, tenant_id_from_string, client_id_from_string,
  event_type_from_string,
}
use webhook_idp.Subscription.TargetUrl.{UrlParser, TargetUrl, target_url_from_string}
use webhook_idp.Subscription.Aggregate.{
  CreateWebhookSubscriptionParams, pull_domain_events, WebhookSubscription, create,
}
use webhook_idp.Subscription.Events.{Clock}
use webhook_idp.Persistence.{optional_user_id}
use webhook_idp.UseCases.Ports.{SubscriptionRepository}
use webhook_idp.UseCases.Execute.Creating.{IsCreation}
use webhook_idp.UseCases.Execute.{
  create_prepare, World, CreateSubscriptionInput, create_execute, reject_existing,
  store_and_publish,
}

create-returns :
    (uuid : Text) (params : CreateWebhookSubscriptionParams) (clock : Clock)
    → params.subscribed_event_types ≢ []
    → (s : WebhookSubscription) × ((create uuid params clock).0 ≡ ok s)
unfolding create
create-returns uuid params clock some_type = elim (Result-cases (create uuid params clock).0) [
  | inl (s, h) ↦ (s, h)
  | inr (e, h) ↦ absurd (ground arith)
]

module _ {is_valid_uuid : Text → Bool} {parse : UrlParser}
    (repo : SubscriptionRepository is_valid_uuid parse) where
  -- A create returns a subscription if the value objects accept its texts, at least one event type is
  -- given, the tenant has no subscription with the URL, and the database saves the subscription that is
  -- made of them.
  pub create_execute-returns :
      (input : CreateSubscriptionInput) (w : World repo.Db) (tenant : TenantId) (url : TargetUrl)
      (client : ClientId) (user : Option UserId) (types : List EventType)
      → tenant_id_from_string input.tenant_id ≡ ok tenant
      → target_url_from_string parse input.target_url ≡ ok url
      → repo.find_by_tenant_and_target_url tenant url w.db ≡ ok none
      → client_id_from_string input.created_by_client_id ≡ ok client
      → optional_user_id input.created_by_user_id ≡ ok user
      → map_result event_type_from_string input.event_types ≡ ok types
      → types ≢ []
      → ((s : WebhookSubscription) → IsCreation repo input w s → (repo.save s w.db).0 ≡ ok tt)
      → (t : WebhookSubscription) × ((create_execute repo input w).0 ≡ ok t)
  unfolding create_execute create_prepare reject_existing store_and_publish
  create_execute-returns input w tenant url client user types ht hu hf hc hs hy some_type saves =
      let params : CreateWebhookSubscriptionParams = record {
        tenant_id = tenant;
        created_by_client_id = client;
        created_by_user_id = user;
        target_url = url;
        subscribed_event_types = types;
      } in
      let (s, made) = create-returns (w.uuids w.made) params w.clock some_type in
      let saved = saves s (record {
        tenant = tenant;
        same_tenant = ht;
        url = url;
        accepted = hu;
        no_other = hf;
        client = client;
        same_client = hc;
        user = user;
        same_user = hs;
        types = types;
        same_types = hy;
        made = made;
      }) in
      ((pull_domain_events s).1, rw (ht, hu, hf, hc, hs, hy, made, saved) refl)
