-- ===== src/Presentation/Controller/Created.antt =====
-- A subscription that was created over HTTP, and read again.
use webhook_idp.Common.{Bool, some, ℕ}
use webhook_idp.Common.Text.{Text}
use webhook_idp.Subscription.TargetUrl.{UrlParser, TargetUrl}
use webhook_idp.Subscription.Aggregate.{WebhookSubscription}
use webhook_idp.UseCases.Ports.{SubscriptionRepository}
use webhook_idp.UseCases.Execute.{CreateSubscriptionInput}
use webhook_idp.Presentation.Identity.{ResolvedIdentity}
use webhook_idp.Presentation.Responses.{ApiEnvelope, envelope}
use webhook_idp.Presentation.Masking.{Random, ResponseData, one, mask_response}
use webhook_idp.Presentation.Dto.{to_subscription_response_dto}
use webhook_idp.Presentation.Requests.{Framework, CreateSubscriptionDto}

module _ {is_valid_uuid : Text → Bool} {parse : UrlParser}
    (repo : SubscriptionRepository is_valid_uuid parse) (framework : Framework) where
  -- The response that shows a subscription.
  abbrev pub shown : ℕ → Random → WebhookSubscription → ℕ × ApiEnvelope ResponseData
  shown status random t = (
    status,
    envelope status (some (mask_response random parse (one (to_subscription_response_dto t)))),
  )

  abbrev pub input_of : ResolvedIdentity → CreateSubscriptionDto → CreateSubscriptionInput
  input_of identity body = record {
    tenant_id = identity.tenant_id;
    created_by_client_id = identity.client_id;
    created_by_user_id = identity.user_id;
    target_url = body.target_url;
    event_types = body.event_types;
  }
