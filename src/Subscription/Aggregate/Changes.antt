-- ===== src/Subscription/Aggregate/Changes.antt =====
-- What a call of a method of subscription.aggregate.ts makes of the object.
use webhook_idp.Subscription.ValueObjects.{EventType, SubscriptionStatus, active, paused, deleted}
use webhook_idp.Common.Exec.{ok}
use webhook_idp.Subscription.Aggregate
use webhook_idp.Subscription.Aggregate.{
  set_status, assert_non_empty_event_types, Held, status_equals,
}
use webhook_idp.Common.{
  ◌≡◌, ◌≢◌, inl, inr, true, false, Option, none, some, List, [], ◌∷◌, arith, Bool-cases,
}
use webhook_idp.Subscription.Aggregate.Methods.{
  Command, pause, resume, delete, update_target_url, update_subscribed_event_types, perform,
}
use webhook_idp.Subscription.TargetUrl.{TargetUrl}
use webhook_idp.Subscription.Events.{
  EventClass, subscription_created, subscription_paused, subscription_resumed, subscription_deleted,
  DomainEvent, now, tick,
}

-- The status that an event leads to, from the status before it; no other order is a history.
abbrev pub next_status : Option SubscriptionStatus → EventClass → Option SubscriptionStatus
next_status none subscription_created = some active
next_status (some active) subscription_paused = some paused
next_status (some paused) subscription_resumed = some active
next_status (some active) subscription_deleted = some deleted
next_status (some paused) subscription_deleted = some deleted
next_status _ _ = none

abbrev pub replay_event : Option SubscriptionStatus → DomainEvent → Option SubscriptionStatus
replay_event before e = next_status before e.class

-- What each call makes of the object: nothing, or one of three writes.
pub data Change (s : Held) : Held → Type 0 where
  unchanged : Change s s
  moved :
      (status : SubscriptionStatus) (class : EventClass)
      → next_status (some s.self.status) class ≡ some status
      → Change s (set_status status class s)
  retargeted :
      (url : TargetUrl)
      → Change s (record {
        self = record s.self { target_url = url; updated_at = now s.clock };
        clock = tick s.clock;
      })
  retyped :
      (types : List EventType)
      → types ≢ []
      → Change s (record {
        self = record s.self { event_types = types; updated_at = now s.clock };
        clock = tick s.clock;
      })

pause_legal :
    (status : SubscriptionStatus)
    → status_equals status active ≡ true
    → next_status (some status) subscription_paused ≡ some paused
unfolding status_equals
pause_legal status h = ground arith

resume_legal :
    (status : SubscriptionStatus)
    → status_equals status paused ≡ true
    → next_status (some status) subscription_resumed ≡ some active
unfolding status_equals
resume_legal status h = ground arith

delete_legal :
    (status : SubscriptionStatus)
    → status_equals status deleted ≡ false
    → next_status (some status) subscription_deleted ≡ some deleted
unfolding status_equals
delete_legal status h = ground arith

some_types : (t : EventType) (ts : List EventType) → assert_non_empty_event_types (t ∷ ts) ≡ ok tt
unfolding assert_non_empty_event_types
some_types t ts = ground arith

pub perform-Change : (c : Command) (s : Held) → Change s (perform c s).1
unfolding perform
perform-Change pause s = elim (Bool-cases (status_equals s.self.status active)) [
  | inl e ↦ rw e (moved paused subscription_paused (pause_legal _ e))
  | inr e ↦ rw e unchanged
]
perform-Change resume s = elim (Bool-cases (status_equals s.self.status paused)) [
  | inl e ↦ rw e (moved active subscription_resumed (resume_legal _ e))
  | inr e ↦ rw e unchanged
]
perform-Change delete s = elim (Bool-cases (status_equals s.self.status deleted)) [
  | inl e ↦ rw e unchanged
  | inr e ↦ rw e (moved deleted subscription_deleted (delete_legal _ e))
]
perform-Change (update_target_url url) s = elim (Bool-cases (status_equals s.self.status deleted)) [
  | inl e ↦ rw (e, Aggregate.update_target_url) unchanged
  | inr e ↦ rw (e, Aggregate.update_target_url) (retargeted url)
]
perform-Change (update_subscribed_event_types []) s =
    elim (Bool-cases (status_equals s.self.status deleted)) [
      | inl e ↦ rw (e, Aggregate.update_subscribed_event_types) unchanged
      | inr e ↦ rw (e, Aggregate.update_subscribed_event_types) unchanged
    ]
perform-Change (update_subscribed_event_types (t ∷ ts)) s =
    elim (Bool-cases (status_equals s.self.status deleted)) [
      | inl e ↦ rw (e, Aggregate.update_subscribed_event_types) unchanged
      | inr e ↦
          rw (e, Aggregate.update_subscribed_event_types)
            (rw (some_types t ts) (retyped (t ∷ ts) (λ h. cc)))
    ]
