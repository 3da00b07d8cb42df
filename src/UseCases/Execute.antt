-- ===== src/UseCases/Execute.antt =====
-- packages/webhook-api/src/application/use-cases/*.usecase.ts: the `execute` of each use case, over
-- the repository's interface. Publishing hands the events to an in-process emitter that has no
-- listeners in the program.
pub mod Outcome
pub mod Found
pub mod Revised
pub mod Preparing
pub mod Creating
pub mod Storing
pub mod Returning
pub use webhook_idp.UseCases.World.{
  CreateSubscriptionInput, GetSubscriptionInput, DeleteSubscriptionInput, UpdateSubscriptionInput,
  Field, undefined, null, given, ListSubscriptionsInput, World, domain_step, read, write,
  method_result, call, count, create_subscription,
}
use webhook_idp.Persistence.{optional_user_id}
use webhook_idp.UseCases.Ports.{
  subscription_not_found, duplicate_subscription, Exception, domain, application, infrastructure,
  PaginatedResult, SubscriptionRepository,
}
use webhook_idp.Subscription.Aggregate.{
  WebhookSubscription, status_text, pause, resume, delete, update_target_url,
  update_subscribed_event_types, pull_domain_events,
}
use webhook_idp.Subscription.Errors.{invalid_status_transition}
use webhook_idp.Subscription.TargetUrl.{UrlParser, target_url_from_string}
use webhook_idp.Subscription.ValueObjects.{
  SubscriptionStatus, active, paused, deleted, tenant_id_from_string, client_id_from_string,
  event_type_from_string, subscription_id_from_string,
}
use webhook_idp.Common.Exec.{ok, map_result}
use webhook_idp.Common.Text.{Text, txt}
use webhook_idp.Common.{◌+◌, Bool, not, Option, none, some, List, ◌++◌}
use webhook_idp.Common.State.{Exec, pure, throw, ◌>>=◌, ◌>>◌}

pub not_found : Text → Exception
not_found id =
    application (subscription_not_found (txt "Subscription \"" ++ (id ++ txt "\" was not found")))

-- `if (!found) throw new SubscriptionNotFoundError(…)`
abbrev pub require :
    {Db : Type 0}
    → Text
    → Option WebhookSubscription
    → Exec (World Db) Exception WebhookSubscription
require id none = throw (not_found id)
require id (some s) = pure s

-- `this.eventPublisher.publishAll(subscription.pullDomainEvents()); return subscription;`
abbrev pub publish :
    {Db : Type 0} → WebhookSubscription → Exec (World Db) Exception WebhookSubscription
publish s w =
    (ok (pull_domain_events s).1, record w { published = w.published ++ (pull_domain_events s).0 })

pub duplicate : Text → Text → Exception
duplicate tenant url = application (
    duplicate_subscription (
      txt "A subscription for tenant \""
      ++ (tenant ++ (txt "\" and targetUrl \"" ++ (url ++ txt "\" already exists")))))

pub reject_existing :
    {Db : Type 0} → Exception → Option WebhookSubscription → Exec (World Db) Exception (Unit {0})
reject_existing e none = pure tt
reject_existing e (some _) = throw e

module _ {is_valid_uuid : Text → Bool} {parse : UrlParser}
    (repo : SubscriptionRepository is_valid_uuid parse) where
  abbrev pub Action : Type 0 → Type 0
  Action A = Exec (World repo.Db) Exception A

  -- `await this.repository.save(subscription)`, publish, return.
  pub store_and_publish : WebhookSubscription → Action WebhookSubscription
  store_and_publish s = do write (repo.save s); publish s

  -- `CreateSubscriptionUseCase.execute`, up to the save.
  pub create_prepare : CreateSubscriptionInput → Action WebhookSubscription
  create_prepare input = do
    tenant ← domain_step (tenant_id_from_string input.tenant_id)
    url ← domain_step (target_url_from_string parse input.target_url)
    existing ← read (repo.find_by_tenant_and_target_url tenant url)
    reject_existing (duplicate input.tenant_id input.target_url) existing
    client ← domain_step (client_id_from_string input.created_by_client_id)
    user ← domain_step (optional_user_id input.created_by_user_id)
    types ← domain_step (map_result event_type_from_string input.event_types)
    create_subscription (record {
      tenant_id = tenant;
      created_by_client_id = client;
      created_by_user_id = user;
      target_url = url;
      subscribed_event_types = types;
    })

  -- `CreateSubscriptionUseCase.execute`
  pub create_execute : CreateSubscriptionInput → Action WebhookSubscription
  create_execute input = do s ← create_prepare input; store_and_publish s

  -- The lookup that the other use cases begin with.
  pub find_existing : Text → Text → Action WebhookSubscription
  find_existing id tenant_id = do
    subscription_id ← domain_step (subscription_id_from_string is_valid_uuid id)
    tenant ← domain_step (tenant_id_from_string tenant_id)
    found ← read (repo.find_by_id_and_tenant subscription_id tenant)
    require id found

  -- `GetSubscriptionUseCase.execute`
  pub get_execute : GetSubscriptionInput → Action WebhookSubscription
  get_execute input = find_existing input.id input.tenant_id

  -- `DeleteSubscriptionUseCase.execute`, up to the save.
  pub delete_prepare : DeleteSubscriptionInput → Action WebhookSubscription
  delete_prepare input = do s ← find_existing input.id input.tenant_id; call delete s

  -- `DeleteSubscriptionUseCase.execute`
  pub delete_execute : DeleteSubscriptionInput → Action WebhookSubscription
  delete_execute input = do s ← delete_prepare input; store_and_publish s

  -- `fromString` reads the length of its argument.
  pub apply_target_url : Field Text → WebhookSubscription → Action WebhookSubscription
  apply_target_url undefined s = pure s
  apply_target_url null s =
      throw (infrastructure (txt "Cannot read properties of null (reading 'length')"))
  apply_target_url (given text) s = do
    url ← domain_step (target_url_from_string parse text)
    call (update_target_url url) s

  pub apply_event_types : Field (List Text) → WebhookSubscription → Action WebhookSubscription
  apply_event_types undefined s = pure s
  apply_event_types null s =
      throw (infrastructure (txt "Cannot read properties of null (reading 'map')"))
  apply_event_types (given texts) s = do
    types ← domain_step (map_result event_type_from_string texts)
    call (update_subscribed_event_types types) s

  -- The `default` of `applyStatus`.
  pub no_transition : Text → Action WebhookSubscription
  no_transition status = throw (
      domain (
        invalid_status_transition (
          txt "Cannot transition to status "
          ++ (status ++ txt " via update; use DeleteSubscription instead"))))

  -- `applyStatus`, where a status is given.
  pub apply_status : Field SubscriptionStatus → WebhookSubscription → Action WebhookSubscription
  apply_status undefined s = pure s
  apply_status null s = no_transition (txt "null")
  apply_status (given active) s = call resume s
  apply_status (given paused) s = call pause s
  apply_status (given deleted) s = no_transition (status_text deleted)

  -- `UpdateSubscriptionUseCase.execute`, up to the save.
  pub update_prepare : UpdateSubscriptionInput → Action WebhookSubscription
  update_prepare input = do
    s ← find_existing input.id input.tenant_id
    s₁ ← apply_target_url input.target_url s
    s₂ ← apply_event_types input.event_types s₁
    apply_status input.status s₂

  -- `UpdateSubscriptionUseCase.execute`
  pub update_execute : UpdateSubscriptionInput → Action WebhookSubscription
  update_execute input = do s ← update_prepare input; store_and_publish s

  -- `ListSubscriptionsUseCase.execute`
  pub list_execute : ListSubscriptionsInput → Action (PaginatedResult WebhookSubscription)
  list_execute input = do
    tenant ← domain_step (tenant_id_from_string input.tenant_id)
    read (repo.list tenant input.filters input.pagination)

-- The use cases, opened together where they are run.
unfoldable pub use_case_functions : Unit {0}
unfolding create_execute create_prepare find_existing get_execute delete_execute delete_prepare
    update_execute update_prepare list_execute apply_target_url apply_event_types apply_status
    no_transition store_and_publish reject_existing not_found duplicate
use_case_functions = tt
