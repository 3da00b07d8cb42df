-- ===== src/Persistence/ReadBack.antt =====
-- What an aggregate that was read from a document has of it.
use webhook_idp.Subscription.Aggregate.{WebhookSubscription, restore}
use webhook_idp.Subscription.TargetUrl.{UrlParser, target_url_from_string}
use webhook_idp.Subscription.ValueObjects.{
  TenantId, SubscriptionId, tenant_id_from_string, client_id_from_string, event_type_from_string,
  subscription_id_from_string,
}
use webhook_idp.Common.Exec.{ok, >>=-eq-ok, map_result}
use webhook_idp.Common.Text.{Text}
use webhook_idp.Common.{◌≡◌, Bool, [], arith}
use webhook_idp.Persistence.{SubscriptionRecord, to_aggregate, optional_user_id}

pub subscription_id-value :
    (is_valid_uuid : Text → Bool) (v : Text) (id : SubscriptionId)
    → subscription_id_from_string is_valid_uuid v ≡ ok id
    → id.value ≡ v
unfolding subscription_id_from_string
subscription_id-value is_valid_uuid v id h = ground arith

pub tenant_id-value : (v : Text) (t : TenantId) → tenant_id_from_string v ≡ ok t → t.value ≡ v
unfolding tenant_id_from_string
tenant_id-value v t h = ground arith

pub record IsReadOf (doc : SubscriptionRecord) (s : WebhookSubscription) : Type 0 where
  pub id : s.id.value ≡ doc.id
  pub tenant_id : s.tenant_id.value ≡ doc.tenant_id
  pub status : s.status ≡ doc.status
  pub created_at : s.created_at ≡ doc.created_at
  pub events : s.domain_events ≡ []

-- An aggregate that was read from a document has its id, tenant, status and creation time, and no
-- recorded events.
pub to_aggregate-IsReadOf :
    (is_valid_uuid : Text → Bool) (parse : UrlParser) (doc : SubscriptionRecord)
    (s : WebhookSubscription)
    → to_aggregate is_valid_uuid parse doc ≡ ok s
    → IsReadOf doc s
unfolding to_aggregate restore
to_aggregate-IsReadOf is_valid_uuid parse doc s h =
    let (id, hid, h) = >>=-eq-ok (subscription_id_from_string is_valid_uuid doc.id) _ h in
    let (tenant, htenant, h) = >>=-eq-ok (tenant_id_from_string doc.tenant_id) _ h in
    let (client, hclient, h) = >>=-eq-ok (client_id_from_string doc.created_by_client_id) _ h in
    let (user, huser, h) = >>=-eq-ok (optional_user_id doc.created_by_user_id) _ h in
    let (url, hurl, h) = >>=-eq-ok (target_url_from_string parse doc.target_url) _ h in
    let (types, htypes, h) =
      >>=-eq-ok (map_result event_type_from_string doc.subscribed_event_types) _ h in
    record {
      id = ground (arith, subscription_id-value is_valid_uuid doc.id id hid);
      tenant_id = ground (arith, tenant_id-value doc.tenant_id tenant htenant);
      status = ground arith;
      created_at = ground arith;
      events = ground arith;
    }
