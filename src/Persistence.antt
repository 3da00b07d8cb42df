-- ===== src/Persistence.antt =====
-- packages/webhook-api/src/infrastructure/subscription/subscription-mongo.repository.ts, up to line
-- 67: the persisted shape of a subscription, and the maps to it and from it.
pub mod RoundTrip
pub mod ReadBack
pub mod Again
use webhook_idp.Common.{Bool, Option, none, some, List, map}
use webhook_idp.Common.Text.{Text}
use webhook_idp.Common.Exec.{Result, ok, ◌>>=◌, map_result}
use webhook_idp.Subscription.Errors.{DomainError}
use webhook_idp.Subscription.ValueObjects.{
  UserId, EventType, SubscriptionStatus, tenant_id_from_string, client_id_from_string,
  user_id_from_string, event_type_from_string, subscription_id_from_string,
}
use webhook_idp.Subscription.Events.{Date}
use webhook_idp.Subscription.TargetUrl.{UrlParser, target_url_from_string}
use webhook_idp.Subscription.Aggregate.{WebhookSubscription, restore}

pub record SubscriptionRecord : Type 0 where
  pub id : Text
  pub tenant_id : Text
  pub created_by_client_id : Text
  pub created_by_user_id : Option Text
  pub target_url : Text
  pub subscribed_event_types : List Text
  pub status : SubscriptionStatus
  pub created_at : Date
  pub updated_at : Date

abbrev pub user_text : Option UserId → Option Text
user_text none = none
user_text (some user) = some user.value

abbrev pub event_type_text : EventType → Text
event_type_text t = t.value

-- `toDocument`
unfoldable pub to_document : WebhookSubscription → SubscriptionRecord
to_document s = record {
  id = s.id.value;
  tenant_id = s.tenant_id.value;
  created_by_client_id = s.created_by_client_id.value;
  created_by_user_id = user_text s.created_by_user_id;
  target_url = s.target_url.value;
  subscribed_event_types = map event_type_text s.event_types;
  status = s.status;
  created_at = s.created_at;
  updated_at = s.updated_at;
}

-- `userId === null ? null : UserId.fromString(userId)`
unfoldable pub optional_user_id : Option Text → Result DomainError (Option UserId)
optional_user_id none = ok none
optional_user_id (some text) = user_id_from_string text >>= λ user. ok (some user)

-- `toAggregate`: the first value object that refuses its text throws.
module _ (is_valid_uuid : Text → Bool) (parse : UrlParser) where
  unfoldable pub to_aggregate : SubscriptionRecord → Result DomainError WebhookSubscription
  to_aggregate doc = do
    id ← subscription_id_from_string is_valid_uuid doc.id
    tenant_id ← tenant_id_from_string doc.tenant_id
    client_id ← client_id_from_string doc.created_by_client_id
    user_id ← optional_user_id doc.created_by_user_id
    target_url ← target_url_from_string parse doc.target_url
    event_types ← map_result event_type_from_string doc.subscribed_event_types
    ok (
        restore (record {
          id = id;
          tenant_id = tenant_id;
          created_by_client_id = client_id;
          created_by_user_id = user_id;
          target_url = target_url;
          subscribed_event_types = event_types;
          status = doc.status;
          created_at = doc.created_at;
          updated_at = doc.updated_at;
        }))
