-- ===== src/UseCases/Interleaving.antt =====
-- packages/webhook-api/src/application/use-cases: the requests of the API are under way together. A
-- use case that stores runs up to its `save`, waits for the database, and then publishes; requests
-- that only read change nothing and are left out. The reply to the search that a use case begins
-- with is used with the clock and the ids of that moment.
pub mod Prepared
pub mod Roots
pub mod Kept
pub mod Revived
use webhook_idp.Common.{◌≡◌, Bool, List, ◌∷◌, [], ◌++◌}
use webhook_idp.Common.Text.{Text}
use webhook_idp.Common.Exec.{ok, err}
use webhook_idp.Subscription.Aggregate.{WebhookSubscription}
use webhook_idp.Subscription.TargetUrl.{UrlParser}
use webhook_idp.UseCases.Ports.{Exception, SubscriptionRepository}
use webhook_idp.UseCases.Execute.{
  World, Action, CreateSubscriptionInput, UpdateSubscriptionInput, DeleteSubscriptionInput,
  create_prepare, update_prepare, delete_prepare, store_and_publish,
}

-- A request that stores.
pub data Request : Type 0 where
  creation : CreateSubscriptionInput → Request
  update : UpdateSubscriptionInput → Request
  deletion : DeleteSubscriptionInput → Request

-- The subscriptions in flight are those that wait for their `save`.
pub record System {ℓ} (Db : Type ℓ) : Type ℓ where
  pub world : World Db
  pub in_flight : List WebhookSubscription

module _ {is_valid_uuid : Text → Bool} {parse : UrlParser}
    (repo : SubscriptionRepository is_valid_uuid parse) where
  -- A request, up to its `save`.
  unfoldable pub prepare : Request → Action repo WebhookSubscription
  prepare (creation input) = create_prepare repo input
  prepare (update input) = update_prepare repo input
  prepare (deletion input) = delete_prepare repo input

  -- The steps of the requests, in any order.
  pub data Step : System repo.Db → System repo.Db → Type 0 where
    prepared :
        {s : System repo.Db} (request : Request) (t : WebhookSubscription)
        → (prepare request s.world).0 ≡ ok t
        → Step s (record { world = (prepare request s.world).1; in_flight = s.in_flight ++ t ∷ [] })
    refused :
        {s : System repo.Db} (request : Request) (e : Exception)
        → (prepare request s.world).0 ≡ err e
        → Step s (record s { world = (prepare request s.world).1 })
    stored :
        {s : System repo.Db} (before after : List WebhookSubscription) (t : WebhookSubscription)
        → s.in_flight ≡ before ++ t ∷ after
        → Step s
            (record { world = (store_and_publish repo t s.world).1; in_flight = before ++ after })

  pub data Reach (s : System repo.Db) : System repo.Db → Type 0 where
    here : Reach s s
    next : {t u : System repo.Db} → Reach s t → Step t u → Reach s u
