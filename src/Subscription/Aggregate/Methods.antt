-- ===== src/Subscription/Aggregate/Methods.antt =====
-- When each method of the aggregate throws, and what it leaves alone.
use webhook_idp.Subscription.Events.{subscription_created, subscription_deleted, Clock, now}
use webhook_idp.Subscription.ValueObjects.{
  EventType, SubscriptionStatus, active, paused, deleted, subscription_id_generate,
}
use webhook_idp.Common.Text.{Text}
use webhook_idp.Common.{◌≡◌, ◌≢◌, ◌↔◌, ◌⊎◌, List, [], ◌∷◌, ◌++◌, arith}
use webhook_idp.Common.Exec.{ok, err, err_of_ne-ok}
use webhook_idp.Common.State.{Exec}
use webhook_idp.Subscription.Errors.{DomainError}
use webhook_idp.Subscription.TargetUrl.{TargetUrl}
use webhook_idp.Subscription.Aggregate
use webhook_idp.Subscription.Aggregate.{
  create, CreateWebhookSubscriptionParams, WebhookSubscription, WebhookSubscription, Held,
}

-- A call of a method that changes the object.
pub data Command : Type 0 where
  pause resume delete : Command
  update_target_url : TargetUrl → Command
  update_subscribed_event_types : List EventType → Command

unfoldable pub perform : Command → Exec Held DomainError (Unit {0})
unfolding Aggregate.status_equals Aggregate.pause Aggregate.resume Aggregate.delete
    Aggregate.update_target_url Aggregate.update_subscribed_event_types
perform pause = Aggregate.pause
perform resume = Aggregate.resume
perform delete = Aggregate.delete
perform (update_target_url url) = Aggregate.update_target_url url
perform (update_subscribed_event_types types) = Aggregate.update_subscribed_event_types types

-- When a method throws.
abbrev pub Refuses : Command → SubscriptionStatus → Type 0
Refuses pause status = status ≢ active
Refuses resume status = status ≢ paused
Refuses delete status = ⊥
Refuses (update_target_url url) status = status ≡ deleted
Refuses (update_subscribed_event_types types) status = (status ≡ deleted) ⊎ (types ≡ [])

Refuses-of_throw :
    (c : Command) (s : Held) (e : DomainError) → (perform c s).0 ≡ err e → Refuses c s.self.status
unfolding perform
Refuses-of_throw pause s e h = ground arith
Refuses-of_throw (update_subscribed_event_types []) s e h = ground arith
Refuses-of_throw _ s e h = ground arith

throws_of_Refuses : (c : Command) (s : Held) → Refuses c s.self.status → (perform c s).0 ≢ ok tt
unfolding perform
throws_of_Refuses pause s r = ground arith
throws_of_Refuses _ s r = ground arith

-- A method throws exactly in these cases: `pause` unless the status is ACTIVE, `resume` unless it is
-- PAUSED, an update if it is DELETED, an update of the event types also if the new list is empty;
-- `delete` never throws.
perform-throws_iff :
    (c : Command) (s : Held)
    → ((e : DomainError) × ((perform c s).0 ≡ err e)) ↔ Refuses c s.self.status
perform-throws_iff c s = (
  (λ (e, h). Refuses-of_throw c s e h),
  (λ r. err_of_ne-ok (perform c s).0 (throws_of_Refuses c s r)),
)

-- A method that throws has changed nothing, and has not read the clock.
perform_atomic :
    (c : Command) (s : Held) (e : DomainError) → (perform c s).0 ≡ err e → (perform c s).1 ≡ s
unfolding perform
perform_atomic pause s e h = ground arith
perform_atomic resume s e h = ground arith
perform_atomic delete s e h = ground arith
perform_atomic (update_target_url url) s e h = ground arith
perform_atomic (update_subscribed_event_types types) s e h = ground arith

-- What a subscription that `create` returned is.
pub record IsCreated (uuid : Text) (params : CreateWebhookSubscriptionParams) (clock : Clock)
    (s : WebhookSubscription) : Type 0 where
  pub id : s.id.value ≡ uuid
  pub tenant_id : s.tenant_id ≡ params.tenant_id
  pub client : s.created_by_client_id ≡ params.created_by_client_id
  pub user : s.created_by_user_id ≡ params.created_by_user_id
  pub target_url : s.target_url ≡ params.target_url
  pub types : s.event_types ≡ params.subscribed_event_types
  pub status : s.status ≡ active
  pub events :
      s.domain_events
      ≡ record { class = subscription_created; aggregate_id = uuid; occurred_at = now clock } ∷ []

pub create-IsCreated :
    (uuid : Text) (params : CreateWebhookSubscriptionParams) (clock : Clock)
    (s : WebhookSubscription)
    → (create uuid params clock).0 ≡ ok s
    → IsCreated uuid params clock s
unfolding create subscription_id_generate
create-IsCreated uuid params clock s h = record {
  id = ground arith;
  tenant_id = ground arith;
  client = ground arith;
  user = ground arith;
  target_url = ground arith;
  types = ground arith;
  status = ground arith;
  events = ground arith;
}

-- What `delete` records: one event, unless the subscription is deleted already.
pub delete-events :
    (s : Held)
    → (s.self.status ≡ deleted → (perform delete s).1.self.domain_events ≡ s.self.domain_events)
      × (s.self.status ≢ deleted
          → (perform delete s).1.self.domain_events
            ≡ s.self.domain_events
              ++ record {
                class = subscription_deleted;
                aggregate_id = s.self.id.value;
                occurred_at = now s.clock;
              }
                ∷ [])
unfolding perform
delete-events s = (λ h. ground arith, λ h. ground arith)
