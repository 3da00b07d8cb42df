-- ===== src/Checks/Requests.antt =====
-- The theorems on requests and use cases, at concrete inputs.
use webhook_idp.Common.{◌≡◌, refl, none, some, List, [], ◌∷◌}
use webhook_idp.Common.Text.{Text, txt, ◌===◌, is_blank}
use webhook_idp.Common.Exec.{ok, map_result}
use webhook_idp.Subscription.ValueObjects.{
  paused, deleted, tenant_id_from_string, client_id_from_string, event_type_from_string,
  subscription_id_from_string, subscription_id_generate,
}
use webhook_idp.Subscription.PrivateHost.{private_host_functions}
use webhook_idp.Subscription.TargetUrl.{target_url_from_string}
use webhook_idp.Subscription.Aggregate.{
  create, delete, pause, resume, restore, pull_domain_events, status_equals,
}
use webhook_idp.Persistence.{SubscriptionRecord, to_document, to_aggregate, optional_user_id}
use webhook_idp.UseCases.Ports.{infrastructure}
use webhook_idp.UseCases.Execute.{
  undefined, given, CreateSubscriptionInput, DeleteSubscriptionInput, UpdateSubscriptionInput,
  create_execute, delete_execute, update_execute, not_found, use_case_functions,
}
use webhook_idp.UseCases.Execute.Outcome.{IsLeft}
use webhook_idp.UseCases.Execute.Preparing.{IsDeletion}
use webhook_idp.UseCases.Execute.Returning.{create_execute-returns}
use webhook_idp.Subscription.Aggregate.{WebhookSubscription}
use webhook_idp.Common.{none, ◌≢◌, arith}
use webhook_idp.Common.Exec.{ok}
use webhook_idp.UseCases.Guarantees.{OthersKept, execute_atomic, execute_isolated}
use webhook_idp.UseCases.Replies.{
  create_execute-creates, delete_execute-deletes, update_execute-revises,
}
use webhook_idp.Subscription.ValueObjects.{EventType}
use webhook_idp.Presentation.Identity.{Headers, one, missing}
use webhook_idp.Presentation.Responses.{use_case, catch_exception, catch_exception_lem}
use webhook_idp.Checks.Samples.{sample_repository, sample, world_of}

abbrev pub create_input : CreateSubscriptionInput
create_input = record {
  tenant_id = txt "t";
  created_by_client_id = txt "c";
  created_by_user_id = none;
  target_url = txt "https://example.com/";
  event_types = txt "order" ∷ [];
}

abbrev pub delete_input : DeleteSubscriptionInput
delete_input = record { id = txt "i"; tenant_id = txt "t" }

abbrev pub update_input : UpdateSubscriptionInput
update_input = record {
  id = txt "i";
  tenant_id = txt "t";
  target_url = undefined;
  event_types = undefined;
  status = given paused;
}

abbrev stored : List SubscriptionRecord
stored = to_document sample ∷ []

-- A document of another tenant.
abbrev foreign : SubscriptionRecord
foreign = record (to_document sample) { id = txt "j"; tenant_id = txt "u" }

execute_isolated_example :
    OthersKept sample_repository
      (txt "t")
      (foreign ∷ [])
      (create_execute sample_repository create_input (world_of (foreign ∷ []))).1.db
unfolding to_document txt ◌===◌
execute_isolated_example =
    (execute_isolated sample_repository (world_of (foreign ∷ []))).0 create_input refl

delete_execute-deletes_example :
    sample_repository.document
      (delete_execute sample_repository delete_input (world_of stored)).1.db
      (txt "i")
    ≡ some (to_document (record sample { status = deleted }))
unfolding use_case_functions to_document to_aggregate tenant_id_from_string client_id_from_string
    event_type_from_string subscription_id_from_string optional_user_id target_url_from_string
    private_host_functions map_result create subscription_id_generate delete pause resume restore
    pull_domain_events status_equals is_blank txt
delete_execute-deletes_example =
    (delete_execute-deletes sample_repository delete_input (world_of stored)
      (record sample { status = deleted }) refl).4

create_execute-creates_example :
    sample_repository.document
      (create_execute sample_repository create_input (world_of [])).1.db
      (txt "i")
    ≡ some (to_document sample)
unfolding use_case_functions to_document to_aggregate tenant_id_from_string client_id_from_string
    event_type_from_string subscription_id_from_string optional_user_id target_url_from_string
    private_host_functions map_result create subscription_id_generate delete pause resume restore
    pull_domain_events status_equals is_blank txt
create_execute-creates_example =
    (create_execute-creates sample_repository create_input (world_of []) sample refl).4

update_execute-revises_example :
    sample_repository.document
      (update_execute sample_repository update_input (world_of stored)).1.db
      (txt "i")
    ≡ some (to_document (record sample { status = paused }))
unfolding use_case_functions to_document to_aggregate tenant_id_from_string client_id_from_string
    event_type_from_string subscription_id_from_string optional_user_id target_url_from_string
    private_host_functions map_result create subscription_id_generate delete pause resume restore
    pull_domain_events status_equals is_blank txt
update_execute-revises_example =
    (update_execute-revises sample_repository update_input (world_of stored)
      (record sample { status = paused }) refl).7

execute_atomic_example :
    IsLeft sample_repository
      (IsDeletion sample_repository [] delete_input.id delete_input.tenant_id)
      (world_of [])
      (delete_execute sample_repository delete_input (world_of [])).1
unfolding use_case_functions to_document to_aggregate tenant_id_from_string client_id_from_string
    event_type_from_string subscription_id_from_string optional_user_id target_url_from_string
    private_host_functions map_result create subscription_id_generate delete pause resume restore
    pull_domain_events status_equals is_blank txt
execute_atomic_example =
    (execute_atomic sample_repository (world_of []) (not_found (txt "i"))).2 delete_input refl

abbrev headers : Headers
headers = record { x_tenant_id = one (txt "t"); x_client_id = one (txt "c"); x_user_id = missing }

catch_exception_lem_example :
    (catch_exception {T = Text} (use_case (infrastructure (txt "a")))).1.status_code
    ≡ (catch_exception {T = Text} (use_case (infrastructure (txt "a")))).0
catch_exception_lem_example =
    (catch_exception_lem (use_case (infrastructure (txt "a"))) (txt "a") (txt "b")).0

abbrev sample_types : List EventType
sample_types = record { value = txt "order" } ∷ []

some_type : sample_types ≢ []
some_type h = ground arith

create_execute-returns_example :
    (t : WebhookSubscription) × ((create_execute sample_repository create_input (world_of [])).0
      ≡ ok t)
unfolding tenant_id_from_string client_id_from_string event_type_from_string optional_user_id
    target_url_from_string private_host_functions map_result is_blank txt
create_execute-returns_example =
    create_execute-returns sample_repository create_input (world_of []) (record { value = txt "t" })
      (record { value = txt "https://example.com/" }) (record { value = txt "c" }) none
      (record { value = txt "order" } ∷ []) refl refl refl refl refl refl some_type (λ s made. refl)
