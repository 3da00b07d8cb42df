-- ===== src/Checks/Concurrent.antt =====
-- The theorems on requests of the API that are under way together, at concrete inputs.
use webhook_idp.Common.{◌≡◌, ◌≢◌, refl, List, [], ◌∷◌, some, arith}
use webhook_idp.Common.Text.{txt, ◌===◌, is_blank}
use webhook_idp.Common.Exec.{map_result}
use webhook_idp.Subscription.Aggregate.{
  WebhookSubscription, create, delete, pause, resume, restore, status_equals, pull_domain_events,
}
use webhook_idp.Subscription.ValueObjects.{
  paused, deleted, tenant_id_from_string, client_id_from_string, event_type_from_string,
  subscription_id_from_string, subscription_id_generate,
}
use webhook_idp.Subscription.TargetUrl.{target_url_from_string}
use webhook_idp.Subscription.PrivateHost.{private_host_functions}
use webhook_idp.Subscription.Events.{
  subscription_deleted, subscription_paused, subscription_created,
}
use webhook_idp.Persistence.{SubscriptionRecord, to_document, to_aggregate, optional_user_id}
use webhook_idp.UseCases.Execute.{World, use_case_functions, store_and_publish}
use webhook_idp.UseCases.Interleaving.{
  creation, update, System, prepare, prepared, stored, Reach, here, next,
}
use webhook_idp.UseCases.Interleaving.Kept.{Reach-keeps}
use webhook_idp.UseCases.Interleaving.Revived.{update-revives}
use webhook_idp.Checks.Samples.{sample_repository, sample, sample_clock}
use webhook_idp.Checks.Requests.{create_input, update_input, delete_input}

-- A database with one subscription, and ids that are all different.
abbrev first : World (List SubscriptionRecord)
first = record {
  db = to_document sample ∷ [];
  clock = sample_clock;
  uuids = λ n. 1 ∷ n ∷ [];
  made = 0;
  published = [];
}

-- Another tenant's subscription, as it is made.
abbrev made : WebhookSubscription
made = record sample {
  id = record { value = 1 ∷ 0 ∷ [] };
  tenant_id = record { value = txt "u" };
  domain_events =
      record { class = subscription_created; aggregate_id = 1 ∷ 0 ∷ []; occurred_at = 0 } ∷ [];
}

-- The subscription, paused, one reading of the clock later.
abbrev held : WebhookSubscription
held = record sample {
  status = paused;
  updated_at = 1;
  domain_events =
      record { class = subscription_paused; aggregate_id = txt "i"; occurred_at = 1 } ∷ [];
}

-- Both requests have prepared their subscription, and the second is stored before the first.
abbrev last : System (List SubscriptionRecord)
last =
    let create_other = creation (record create_input { tenant_id = txt "u" }) in
    let w₁ = (prepare sample_repository create_other first).1 in
    let w₂ = (prepare sample_repository (update update_input) w₁).1 in
    let w₃ = (store_and_publish sample_repository held w₂).1 in
    record { world = (store_and_publish sample_repository made w₃).1; in_flight = [] }

Reach-keeps_example :
    (now : SubscriptionRecord) × (sample_repository.document last.world.db (txt "i") ≡ some now)
    × (now.tenant_id ≡ txt "t")
    × (now.created_at ≡ 0)
unfolding prepare use_case_functions to_document to_aggregate tenant_id_from_string
    client_id_from_string event_type_from_string subscription_id_from_string optional_user_id
    target_url_from_string private_host_functions map_result create subscription_id_generate delete
    pause resume restore pull_domain_events status_equals is_blank txt ◌===◌
Reach-keeps_example =
    Reach-keeps sample_repository first last (txt "i") (to_document sample) (λ i j e. ground arith)
      (λ n h. refl)
      (next
        (next
          (next
            (next here
              (prepared (creation (record create_input { tenant_id = txt "u" })) made refl))
            (prepared (update update_input) held refl))
          (stored (made ∷ []) [] held refl))
        (stored [] [] made refl))
      refl

-- The subscription, paused first, and deleted one reading of the clock later.
abbrev paused_first : WebhookSubscription
paused_first = record sample {
  status = paused;
  domain_events =
      record { class = subscription_paused; aggregate_id = txt "i"; occurred_at = 0 } ∷ [];
}

abbrev gone : WebhookSubscription
gone = record sample {
  status = deleted;
  updated_at = 1;
  domain_events =
      record { class = subscription_deleted; aggregate_id = txt "i"; occurred_at = 1 } ∷ [];
}

update-revives_example :
    (between : System (List SubscriptionRecord)) × (after : System (List SubscriptionRecord))
    × (before_last : SubscriptionRecord) × (revived : SubscriptionRecord) × Reach sample_repository
        (record { world = first; in_flight = [] })
        between
    × (sample_repository.document between.world.db (txt "i") ≡ some before_last)
    × (before_last.status ≡ deleted)
    × Reach sample_repository between after
    × (sample_repository.document after.world.db (txt "i") ≡ some revived)
    × (revived.status ≢ deleted)
unfolding prepare use_case_functions to_document to_aggregate tenant_id_from_string
    client_id_from_string event_type_from_string subscription_id_from_string optional_user_id
    target_url_from_string private_host_functions map_result create subscription_id_generate delete
    pause resume restore pull_domain_events status_equals is_blank txt ◌===◌
update-revives_example =
    update-revives sample_repository first update_input delete_input paused_first gone refl refl
      (λ e. cc) refl refl refl
