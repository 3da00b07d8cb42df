-- ===== src/UseCases/World.antt =====
-- packages/webhook-api/src/application/use-cases/*.usecase.ts: what a use case is handed, and the
-- world that it works in: the database, the clock, the ids that `uuidv7()` will return, and the
-- events published so far.
use webhook_idp.UseCases.Ports.{Exception, domain, SubscriptionListFilters, Pagination}
use webhook_idp.Subscription.Aggregate.{
  CreateWebhookSubscriptionParams, WebhookSubscription, Held, create,
}
use webhook_idp.Subscription.Errors.{DomainError}
use webhook_idp.Subscription.Events.{DomainEvent, Clock}
use webhook_idp.Subscription.ValueObjects.{SubscriptionStatus}
use webhook_idp.Common.Exec.{Result, ok, err, map_err}
use webhook_idp.Common.Text.{Text}
use webhook_idp.Common.{ℕ, ◌+◌, Option, List}
use webhook_idp.Common.State.{Exec, lift}

pub record CreateSubscriptionInput : Type 0 where
  pub tenant_id : Text
  pub created_by_client_id : Text
  pub created_by_user_id : Option Text
  pub target_url : Text
  pub event_types : List Text

pub record GetSubscriptionInput : Type 0 where
  pub id : Text
  pub tenant_id : Text

pub record DeleteSubscriptionInput : Type 0 where
  pub id : Text
  pub tenant_id : Text

-- A property of an update: it may be missing, and `null` too where the caller checks it by
-- `IsOptional`.
pub data Field {ℓ} (A : Type ℓ) : Type ℓ where
  undefined : Field A
  null : Field A
  given : A → Field A

pub record UpdateSubscriptionInput : Type 0 where
  pub id : Text
  pub tenant_id : Text
  pub target_url : Field Text
  pub event_types : Field (List Text)
  pub status : Field SubscriptionStatus

pub record ListSubscriptionsInput : Type 0 where
  pub tenant_id : Text
  pub filters : SubscriptionListFilters
  pub pagination : Pagination

pub record World {ℓ} (Db : Type ℓ) : Type ℓ where
  pub db : Db
  pub clock : Clock
  pub uuids : ℕ → Text
  pub made : ℕ
  pub published : List DomainEvent

-- A domain function that may throw.
abbrev pub domain_step : {Db A : Type 0} → Result DomainError A → Exec (World Db) Exception A
domain_step r = lift (map_err domain r)

-- A read of the database.
abbrev pub read : {Db A : Type 0} → (Db → Result Exception A) → Exec (World Db) Exception A
read query w = (query w.db, w)

-- A write to the database.
abbrev pub write :
    {Db : Type 0} → Exec Db Exception (Unit {0}) → Exec (World Db) Exception (Unit {0})
write save w = ((save w.db).0, record w { db = (save w.db).1 })

abbrev pub method_result :
    WebhookSubscription → Result DomainError (Unit {0}) → Result Exception WebhookSubscription
method_result s (ok _) = ok s
method_result s (err e) = err (domain e)

-- A call of a method on the object that the use case holds: the object after it.
abbrev pub call :
    {Db : Type 0}
    → Exec Held DomainError (Unit {0})
    → WebhookSubscription
    → Exec (World Db) Exception WebhookSubscription
call method s w =
    let held : Held = record { self = s; clock = w.clock } in
    (method_result (method held).1.self (method held).0, record w { clock = (method held).1.clock })

-- An id is used up where the object is made.
abbrev pub count : Result DomainError WebhookSubscription → ℕ → ℕ
count (ok _) made = made + 1
count (err _) made = made

-- `WebhookSubscription.create(params, this.clock)`
abbrev pub create_subscription :
    {Db : Type 0} → CreateWebhookSubscriptionParams → Exec (World Db) Exception WebhookSubscription
create_subscription params w =
    let made = create (w.uuids w.made) params w.clock in
    (map_err domain made.0, record w { clock = made.1; made = count made.0 w.made })
