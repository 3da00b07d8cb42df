-- ===== src/Subscription/Aggregate.antt =====
-- packages/webhook-api/src/domain/subscription/aggregates/subscription.aggregate.ts. A method works
-- on the object and on the clock that it is handed, and may throw.
pub mod Methods
pub mod Lifecycle
pub mod Changes
pub mod History
use webhook_idp.Common.{
  Bool, true, false, not, if◌then◌else◌, List, [], ◌∷◌, ◌++◌, Option, ◌==◌, length,
}
use webhook_idp.Common.Text.{Text, txt}
use webhook_idp.Common.Exec.{Result, ok, err}
use webhook_idp.Common.State.{Exec}
use webhook_idp.Subscription.Errors.{DomainError, invalid_event_type, invalid_status_transition}
use webhook_idp.Subscription.ValueObjects.{
  TenantId, ClientId, UserId, EventType, SubscriptionId, SubscriptionStatus, active, paused,
  deleted, subscription_id_generate,
}
use webhook_idp.Subscription.TargetUrl.{TargetUrl}
use webhook_idp.Subscription.Events.{
  Date, EventClass, subscription_created, subscription_paused, subscription_resumed,
  subscription_deleted, DomainEvent, Clock, now, tick,
}

pub record CreateWebhookSubscriptionParams : Type 0 where
  pub tenant_id : TenantId
  pub created_by_client_id : ClientId
  pub created_by_user_id : Option UserId
  pub target_url : TargetUrl
  pub subscribed_event_types : List EventType

pub record RestoreWebhookSubscriptionProps : Type 0 where
  pub id : SubscriptionId
  pub tenant_id : TenantId
  pub created_by_client_id : ClientId
  pub created_by_user_id : Option UserId
  pub target_url : TargetUrl
  pub subscribed_event_types : List EventType
  pub status : SubscriptionStatus
  pub created_at : Date
  pub updated_at : Date

pub record WebhookSubscription : Type 0 where
  pub id : SubscriptionId
  pub tenant_id : TenantId
  pub created_by_client_id : ClientId
  pub created_by_user_id : Option UserId
  pub target_url : TargetUrl
  pub event_types : List EventType
  pub status : SubscriptionStatus
  pub created_at : Date
  pub updated_at : Date
  pub domain_events : List DomainEvent

-- The object under its method, with the clock.
pub record Held : Type 0 where
  pub self : WebhookSubscription
  pub clock : Clock

-- The string that a status is in the source.
unfoldable pub status_text : SubscriptionStatus → Text
status_text active = txt "ACTIVE"
status_text paused = txt "PAUSED"
status_text deleted = txt "DELETED"

-- `===` on statuses.
unfoldable pub status_equals : SubscriptionStatus → SubscriptionStatus → Bool
status_equals active active = true
status_equals paused paused = true
status_equals deleted deleted = true
status_equals _ _ = false

assert_non_empty_event_types : List EventType → Result DomainError (Unit {0})
assert_non_empty_event_types event_types =
    if length event_types == 0
    then err (invalid_event_type (txt "subscribedEventTypes must not be empty"))
    else ok tt

-- `this.record(new E(this.id.toString(), at))`
record_event : EventClass → Date → WebhookSubscription → WebhookSubscription
record_event class at self = record self {
  domain_events =
      self.domain_events
      ++ record { class = class; aggregate_id = self.id.value; occurred_at = at } ∷ [];
}

-- The object that `create` makes, at the id that `uuidv7()` returns.
created : (uuid : Text) → CreateWebhookSubscriptionParams → Date → WebhookSubscription
unfolding record_event
created uuid params at = record_event subscription_created at (record {
  id = subscription_id_generate uuid;
  tenant_id = params.tenant_id;
  created_by_client_id = params.created_by_client_id;
  created_by_user_id = params.created_by_user_id;
  target_url = params.target_url;
  event_types = params.subscribed_event_types;
  status = active;
  created_at = at;
  updated_at = at;
  domain_events = [];
})

-- `WebhookSubscription.create`: the new object, and the clock after it was read.
unfoldable pub create :
    (uuid : Text)
    → CreateWebhookSubscriptionParams
    → Clock
    → Result DomainError WebhookSubscription × Clock
unfolding assert_non_empty_event_types created
create uuid params clock = elim (assert_non_empty_event_types params.subscribed_event_types) [
  | err e ↦ (err e, clock)
  | ok _ ↦ (ok (created uuid params (now clock)), tick clock)
]

-- `WebhookSubscription.restore`
unfoldable pub restore : RestoreWebhookSubscriptionProps → WebhookSubscription
restore props = record {
  id = props.id;
  tenant_id = props.tenant_id;
  created_by_client_id = props.created_by_client_id;
  created_by_user_id = props.created_by_user_id;
  target_url = props.target_url;
  event_types = props.subscribed_event_types;
  status = props.status;
  created_at = props.created_at;
  updated_at = props.updated_at;
  domain_events = [];
}

-- `this.statusValue = status; this.updatedAtValue = clock.now(); this.record(new E(…))`
pub set_status : SubscriptionStatus → EventClass → Held → Held
set_status status class s = record {
  self =
      record_event class (now s.clock)
        (record s.self { status = status; updated_at = now s.clock });
  clock = tick s.clock;
}

unfoldable pub pause : Exec Held DomainError (Unit {0})
unfolding set_status record_event
pause s =
    if not (status_equals s.self.status active)
    then (
      err (
          invalid_status_transition
            (txt "Cannot pause a subscription in status " ++ status_text s.self.status)),
      s,
    )
    else (ok tt, set_status paused subscription_paused s)

unfoldable pub resume : Exec Held DomainError (Unit {0})
unfolding set_status record_event
resume s =
    if not (status_equals s.self.status paused)
    then (
      err (
          invalid_status_transition
            (txt "Cannot resume a subscription in status " ++ status_text s.self.status)),
      s,
    )
    else (ok tt, set_status active subscription_resumed s)

unfoldable pub delete : Exec Held DomainError (Unit {0})
unfolding set_status record_event
delete s =
    if status_equals s.self.status deleted
    then (ok tt, s)
    else (ok tt, set_status deleted subscription_deleted s)

assert_mutable : Exec Held DomainError (Unit {0})
assert_mutable s =
    if status_equals s.self.status deleted
    then (err (invalid_status_transition (txt "Cannot update a deleted subscription")), s)
    else (ok tt, s)

unfoldable pub update_target_url : TargetUrl → Exec Held DomainError (Unit {0})
unfolding assert_mutable
update_target_url target_url s = elim (assert_mutable s).0 [
  | err e ↦ (err e, s)
  | ok _ ↦ (
    ok tt,
    record {
      self = record s.self { target_url = target_url; updated_at = now s.clock };
      clock = tick s.clock;
    },
  )
]

unfoldable pub update_subscribed_event_types : List EventType → Exec Held DomainError (Unit {0})
unfolding assert_mutable assert_non_empty_event_types
update_subscribed_event_types event_types s = elim (assert_mutable s).0 [
  | err e ↦ (err e, s)
  | ok _ ↦ elim (assert_non_empty_event_types event_types) [
    | err e ↦ (err e, s)
    | ok _ ↦ (
      ok tt,
      record {
        self = record s.self { event_types = event_types; updated_at = now s.clock };
        clock = tick s.clock;
      },
    )
  ]
]

-- `pullDomainEvents`: the events recorded since the last call, and the object without them.
unfoldable pub pull_domain_events : WebhookSubscription → List DomainEvent × WebhookSubscription
pull_domain_events self = (self.domain_events, record self { domain_events = [] })
