-- ===== src/UseCases/Execute/Storing.antt =====
-- What the use cases that store a subscription store: what they have prepared.
use webhook_idp.Common.{Bool}
use webhook_idp.Common.Text.{Text}
use webhook_idp.Common.State.{◌>>=◌}
use webhook_idp.Subscription.Aggregate.{WebhookSubscription}
use webhook_idp.Subscription.TargetUrl.{UrlParser}
use webhook_idp.UseCases.Ports.{SubscriptionRepository}
use webhook_idp.UseCases.Execute.{
  World, Action, store_and_publish, delete_execute, update_execute, create_execute,
  DeleteSubscriptionInput, UpdateSubscriptionInput, CreateSubscriptionInput,
}
use webhook_idp.UseCases.Execute.Outcome.{Reads, Stores, Stores-bind, Stores-here}
use webhook_idp.UseCases.Execute.Preparing.{
  IsRevision, IsDeletion, update_prepare-Reads, delete_prepare-Reads,
}
use webhook_idp.UseCases.Execute.Creating.{IsCreation, create_prepare-Reads}

module _ {is_valid_uuid : Text → Bool} {parse : UrlParser}
    (repo : SubscriptionRepository is_valid_uuid parse) where
  prepared-Stores :
      (Q : WebhookSubscription → Type 0) (prepare : Action repo WebhookSubscription)
      (w : World repo.Db)
      → Reads Q prepare w
      → Stores repo Q (prepare >>= store_and_publish repo) w
  prepared-Stores Q prepare w reads =
      Stores-bind repo Q Q prepare _ w reads (λ s q w₁ _. Stores-here repo Q s w₁ q)

  pub update_execute-Stores :
      (input : UpdateSubscriptionInput) (w : World repo.Db)
      → Stores repo (IsRevision repo w.db input.id input.tenant_id) (update_execute repo input) w
  unfolding update_execute
  update_execute-Stores input w = prepared-Stores _ _ w (update_prepare-Reads repo input w)

  pub delete_execute-Stores :
      (input : DeleteSubscriptionInput) (w : World repo.Db)
      → Stores repo (IsDeletion repo w.db input.id input.tenant_id) (delete_execute repo input) w
  unfolding delete_execute
  delete_execute-Stores input w = prepared-Stores _ _ w (delete_prepare-Reads repo input w)

  pub create_execute-Stores :
      (input : CreateSubscriptionInput) (w : World repo.Db)
      → Stores repo (IsCreation repo input w) (create_execute repo input) w
  unfolding create_execute
  create_execute-Stores input w = prepared-Stores _ _ w (create_prepare-Reads repo input w)
