-- ===== src/Presentation/Dto.antt =====
-- packages/webhook-api/src/presentation/subscriptions/dto/subscription-response.dto.ts
use webhook_idp.Common.{ℕ, List, map}
use webhook_idp.Common.Text.{Text}
use webhook_idp.Common.Dates.{to_iso_string}
use webhook_idp.Subscription.Aggregate.{WebhookSubscription, status_text}
use webhook_idp.Persistence.{event_type_text}
use webhook_idp.UseCases.Ports.{PaginatedResult}

pub record SubscriptionResponseDto : Type 0 where
  pub id : Text
  pub target_url : Text
  pub event_types : List Text
  pub status : Text
  pub created_at : Text
  pub updated_at : Text

-- `toSubscriptionResponseDto`
unfoldable pub to_subscription_response_dto : WebhookSubscription → SubscriptionResponseDto
to_subscription_response_dto s = record {
  id = s.id.value;
  target_url = s.target_url.value;
  event_types = map event_type_text s.event_types;
  status = status_text s.status;
  created_at = to_iso_string s.created_at;
  updated_at = to_iso_string s.updated_at;
}

pub record PaginatedSubscriptionsResponseDto : Type 0 where
  pub items : List SubscriptionResponseDto
  pub page : ℕ
  pub page_size : ℕ
  pub total : ℕ

-- `toPaginatedSubscriptionsResponseDto`
unfoldable pub to_paginated_subscriptions_response_dto :
    PaginatedResult WebhookSubscription → PaginatedSubscriptionsResponseDto
to_paginated_subscriptions_response_dto r = record {
  items = map to_subscription_response_dto r.items;
  page = r.page;
  page_size = r.page_size;
  total = r.total;
}
