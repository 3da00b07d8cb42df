-- ===== src/Subscription/Aggregate/History.antt =====
-- The recorded events tell the subscription's history.
use webhook_idp.Subscription.ValueObjects.{EventType, SubscriptionStatus}
use webhook_idp.Common.Exec.{ok}
use webhook_idp.Subscription.Aggregate.{
  set_status, record_event, created, CreateWebhookSubscriptionParams, WebhookSubscription, Held,
  create, pull_domain_events,
}
use webhook_idp.Common.{
  All-map, ℕ, ◌+◌, ◌≤◌, ◌≡◌, refl, sym, ap, subst, ◌++◌, ◌≢◌, none, some, List, [], ◌∷◌, arith, All,
  All-append,
}
use webhook_idp.Subscription.Aggregate.Methods.{Command, perform}
use webhook_idp.Subscription.TargetUrl.{TargetUrl}
use webhook_idp.Subscription.Events.{EventClass, DomainEvent, Clock, now, tick}
use webhook_idp.Common.Text.{Text}
use mathlib.Core.List.{foldl, foldl-append, append_assoc, append-nil}
use webhook_idp.Subscription.Aggregate.Changes.{
  next_status, Change, unchanged, moved, retargeted, retyped, perform-Change, replay_event,
}

-- A clock that never goes back.
abbrev pub IsMonotone : Clock → Type 0
IsMonotone c = (i j : ℕ) → i ≤ j → c.readings i ≤ c.readings j

pub record IsRecorded (s : Held) : Type 0 where
  pub monotone : IsMonotone s.clock
  pub types : s.self.event_types ≢ []
  pub history : foldl replay_event none s.self.domain_events ≡ some s.self.status
  pub ids : All (λ e. e.aggregate_id ≡ s.self.id.value) s.self.domain_events
  pub updated : s.self.created_at ≤ s.self.updated_at
  pub past : s.self.updated_at ≤ now s.clock
  pub dated :
      All
        (λ e. (s.self.created_at ≤ e.occurred_at) × (e.occurred_at ≤ s.self.updated_at))
        s.self.domain_events

module _ {s : Held} (r : IsRecorded s) where
  later : s.self.updated_at ≤ now (tick s.clock)
  later = ground (arith, r.past, r.monotone s.clock.reads (s.clock.reads + 1) (omega arith))

  still : now s.clock ≤ now (tick s.clock)
  still = r.monotone s.clock.reads (s.clock.reads + 1) (omega arith)

  dated_later :
      All
        (λ e. (s.self.created_at ≤ e.occurred_at) × (e.occurred_at ≤ now s.clock))
        s.self.domain_events
  dated_later = All-map _ _ s.self.domain_events (λ e h. (h.0, omega (arith, h.1, r.past))) r.dated

  set_status-IsRecorded :
      (status : SubscriptionStatus) (class : EventClass)
      → next_status (some s.self.status) class ≡ some status
      → IsRecorded (set_status status class s)
  unfolding set_status record_event
  set_status-IsRecorded status class legal = record {
    monotone = r.monotone;
    types = r.types;
    history = rw foldl-append (rw r.history legal);
    ids = All-append _ s.self.domain_events _ r.ids (refl, tt);
    updated = omega (arith, r.updated, r.past);
    past = still;
    dated =
        All-append _ s.self.domain_events _ dated_later
          ((omega (arith, r.updated, r.past), omega arith), tt);
  }

  target_url-IsRecorded :
      (url : TargetUrl)
      → IsRecorded (record {
        self = record s.self { target_url = url; updated_at = now s.clock };
        clock = tick s.clock;
      })
  target_url-IsRecorded url = record {
    monotone = r.monotone;
    types = r.types;
    history = r.history;
    ids = r.ids;
    updated = omega (arith, r.updated, r.past);
    past = still;
    dated = dated_later;
  }

  event_types-IsRecorded :
      (types : List EventType)
      → types ≢ []
      → IsRecorded (record {
        self = record s.self { event_types = types; updated_at = now s.clock };
        clock = tick s.clock;
      })
  event_types-IsRecorded types h = record {
    monotone = r.monotone;
    types = h;
    history = r.history;
    ids = r.ids;
    updated = omega (arith, r.updated, r.past);
    past = still;
    dated = dated_later;
  }

-- A call of any method that changes the object; `pullDomainEvents` hands the recorded events out and
-- forgets them.
pub data Call : Type 0 where
  perform_call : Command → Call
  pull : Call

-- The object, with the events that were pulled so far, in order.
pub record Pulled : Type 0 where
  pub held : Held
  pub events : List DomainEvent

abbrev pub call_one : Call → Pulled → Pulled
call_one (perform_call c) p = record p { held = (perform c p.held).1 }
call_one pull p =
    let (pulled, left) = pull_domain_events p.held.self in
    record { held = record p.held { self = left }; events = p.events ++ pulled }

unfoldable pub call_all : List Call → Pulled → Pulled
call_all [] p = p
call_all (c ∷ cs) p = call_all cs (call_one c p)

-- The object as it would be if nothing had been pulled.
abbrev pub with_pulled : Pulled → Held
with_pulled p = record p.held {
  self = record p.held.self { domain_events = p.events ++ p.held.self.domain_events };
}

-- The write of a status, after the events that were pulled.
status_after :
    (p : Pulled) (status : SubscriptionStatus) (class : EventClass)
    → set_status status class (with_pulled p)
      ≡ with_pulled (record p { held = set_status status class p.held })
unfolding set_status record_event
status_after p status class =
    ap (λ es. with_events (set_status status class p.held) es)
      (append_assoc p.events p.held.self.domain_events _)
  where
    with_events : Held → List DomainEvent → Held
    with_events s es = record s { self = record s.self { domain_events = es } }

Change-IsRecorded :
    (p : Pulled) {t : Held}
    → Change p.held t
    → IsRecorded (with_pulled p)
    → IsRecorded (with_pulled (record p { held = t }))
Change-IsRecorded p unchanged r = r
Change-IsRecorded p (moved status class legal) r =
    subst IsRecorded (status_after p status class) (set_status-IsRecorded r status class legal)
Change-IsRecorded p (retargeted url) r = target_url-IsRecorded r url
Change-IsRecorded p (retyped types h) r = event_types-IsRecorded r types h

pull_after : (p : Pulled) → with_pulled (call_one pull p) ≡ with_pulled p
unfolding pull_domain_events
pull_after p =
    ap (λ es. record p.held { self = record p.held.self { domain_events = es } })
      (append-nil (p.events ++ p.held.self.domain_events))

call_one-IsRecorded :
    (c : Call) (p : Pulled) → IsRecorded (with_pulled p) → IsRecorded (with_pulled (call_one c p))
call_one-IsRecorded (perform_call c) p r = Change-IsRecorded p (perform-Change c p.held) r
call_one-IsRecorded pull p r = subst IsRecorded (sym (pull_after p)) r

call_all-IsRecorded :
    (cs : List Call) (p : Pulled)
    → IsRecorded (with_pulled p)
    → IsRecorded (with_pulled (call_all cs p))
unfolding call_all
call_all-IsRecorded [] p r = r
call_all-IsRecorded (c ∷ cs) p r = call_all-IsRecorded cs (call_one c p) (call_one-IsRecorded c p r)

created-IsRecorded :
    (uuid : Text) (params : CreateWebhookSubscriptionParams) (clock : Clock)
    → IsMonotone clock
    → params.subscribed_event_types ≢ []
    → IsRecorded (record { self = created uuid params (now clock); clock = tick clock })
unfolding created
created-IsRecorded uuid params clock m h = record {
  monotone = m;
  types = h;
  history = refl;
  ids = (refl, tt);
  updated = omega arith;
  past = m clock.reads (clock.reads + 1) (omega arith);
  dated = ((omega arith, omega arith), tt);
}

create_cases :
    (uuid : Text) (params : CreateWebhookSubscriptionParams) (clock : Clock)
    (s : WebhookSubscription)
    → (create uuid params clock).0 ≡ ok s
    → (params.subscribed_event_types ≢ [])
      × (created uuid params (now clock) ≡ s)
      × ((create uuid params clock).1 ≡ tick clock)
unfolding create
create_cases uuid params clock s h = (ground arith, ground arith, ground arith)

-- Make a subscription with a clock that never goes back, and call any of its methods, some of which
-- may throw, and some of which may pull the recorded events. Then the events that were pulled, and
-- after them those that are still recorded, are a history of it: they lead from nothing to its
-- present status by steps that the diagram allows, each names the subscription, and each lies
-- between `createdAt` and `updatedAt`; and its list of event types is not empty.
pub create-run-IsRecorded :
    (uuid : Text) (params : CreateWebhookSubscriptionParams) (clock : Clock)
    (s : WebhookSubscription) (cs : List Call)
    → IsMonotone clock
    → (create uuid params clock).0 ≡ ok s
    → IsRecorded (
        with_pulled (
          call_all cs (record {
            held = record { self = s; clock = (create uuid params clock).1 };
            events = [];
          })))
create-run-IsRecorded uuid params clock s cs m h =
    let (types, same, ticked) = create_cases uuid params clock s h in
    let first = created-IsRecorded uuid params clock m types in
    call_all-IsRecorded cs _ (rw (ticked, ← same) first)
