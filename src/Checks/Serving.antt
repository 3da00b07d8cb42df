-- ===== src/Checks/Serving.antt =====
-- The theorems on requests over HTTP, at concrete inputs.
use webhook_idp.Common.{ℕ, ◌≡◌, refl, ap, ◌∙◌, Option, none, some, [], ◌∷◌, Bool-cases, inl, inr}
use webhook_idp.Common.Text.{Text, txt, ◌===◌, is_blank}
use webhook_idp.Common.Exec.{ok, map_result}
use webhook_idp.Subscription.ValueObjects.{
  TenantId, SubscriptionId, tenant_id_from_string, client_id_from_string, event_type_from_string,
  subscription_id_from_string,
}
use webhook_idp.Subscription.PrivateHost.{private_host_functions}
use webhook_idp.Subscription.TargetUrl.{TargetUrl, target_url_from_string}
use webhook_idp.Subscription.Aggregate.{WebhookSubscription, restore}
use webhook_idp.Persistence.{SubscriptionRecord, to_document, to_aggregate, optional_user_id}
use webhook_idp.UseCases.Execute.{undefined}
use webhook_idp.UseCases.Execute.Outcome.{IsLeft}
use webhook_idp.Presentation.Identity.{
  Headers, ResolvedIdentity, missing, can_activate, first_header_value, raw_value, not_blank,
  demand,
}
use webhook_idp.Presentation.Identity as Identity
use webhook_idp.Presentation.Paging.{undefined}
use webhook_idp.Presentation.Responses.{HttpException, structured, detail, catch_exception}
use webhook_idp.Presentation.Masking.{one}
use webhook_idp.Presentation.Requests.{Framework, CreateSubscriptionDto, post, get_one}
use webhook_idp.Presentation.Controller.{serve, request_handler, guard}
use webhook_idp.Presentation.Controller.Hidden.{Hidden, not_found_reply, serve-Hidden}
use webhook_idp.Presentation.Controller.Refusals.{serve-refused}
use webhook_idp.Checks.Samples.{sample_repository, sample_parser, any_uuid, sample, world_of}
use webhook_idp.Checks.Masks.{lowest}

abbrev refusal : ℕ → Text → Text → HttpException
refusal status name message = record {
  status = status;
  name = name;
  message = message;
  body = structured (some name) (detail message);
}

abbrev create_body : CreateSubscriptionDto
create_body = record { target_url = txt "https://example.com/"; event_types = txt "order" ∷ [] }

-- A framework whose pipe takes any body for the same one.
abbrev framework : Framework
framework = record {
  Body = Text;
  Query = Unit {0};
  validate_create = λ raw. ok create_body;
  validate_update =
      λ raw. ok (record { target_url = undefined; event_types = undefined; status = undefined });
  validate_list = λ raw. ok (record { status = none; event_type = none });
  query_page = λ query. undefined;
  query_page_size = λ query. undefined;
  unauthorized_exception = refusal 401 (txt "UnauthorizedException");
  bad_request_exception = refusal 400 (txt "BadRequestException");
}

abbrev caller : Headers
caller = record {
  x_tenant_id = Identity.one (txt "t");
  x_client_id = Identity.one (txt "c");
  x_user_id = missing;
}

abbrev nobody : Headers
nobody = record { x_tenant_id = missing; x_client_id = missing; x_user_id = missing }

abbrev identity : ResolvedIdentity
identity = record { tenant_id = txt "t"; client_id = txt "c"; user_id = none }

-- The document of another tenant.
abbrev foreign : SubscriptionRecord
foreign = record (to_document sample) { tenant_id = txt "u" }

-- A database of one document that can be read answers every search.
answers :
    (doc : SubscriptionRecord) (s : WebhookSubscription)
    → to_aggregate any_uuid sample_parser doc ≡ ok s
    → (id : SubscriptionId) (tenant : TenantId)
    → (found : Option WebhookSubscription) × (sample_repository.find_by_id_and_tenant id tenant
          (doc ∷ [])
        ≡ ok found)
answers doc s readable id tenant = elim (Bool-cases (doc.id === id.value)) [
  | inl here ↦ elim (Bool-cases (doc.tenant_id === tenant.value)) [
    | inl own ↦ (some s, rw (here, own, readable) refl)
    | inr other ↦ (none, rw (here, other) refl)
  ]
  | inr elsewhere ↦ (none, rw elsewhere refl)
]

other_tenant : Hidden sample_repository (foreign ∷ []) (txt "i") (txt "t")
unfolding to_document txt ◌===◌
other_tenant doc held same =
    let found : foreign ≡ doc = cc held in
    let equal : txt "u" ≡ txt "t" = ap (λ d. d.tenant_id) found ∙ same in
    absurd (cc (ap (λ t. t === txt "t") equal))

serve-Hidden_example :
    serve sample_repository framework lowest caller (get_one (txt "i")) (world_of (foreign ∷ []))
    ≡ (not_found_reply sample_repository framework (txt "i"), world_of (foreign ∷ []))
unfolding can_activate first_header_value raw_value not_blank demand is_blank txt to_document
    to_aggregate tenant_id_from_string client_id_from_string event_type_from_string
    subscription_id_from_string optional_user_id target_url_from_string private_host_functions
    map_result restore
serve-Hidden_example =
    (serve-Hidden sample_repository framework lowest caller identity (txt "i")
      (world_of (foreign ∷ [])) refl refl other_tenant
      (answers foreign (record sample { tenant_id = record { value = txt "u" } }) refl)).0

serve-refused_example :
    IsLeft sample_repository
      (λ _. Unit {0})
      (world_of [])
      (serve sample_repository framework lowest nobody (post (txt "x")) (world_of [])).1
unfolding serve request_handler guard can_activate first_header_value raw_value not_blank demand
    catch_exception
serve-refused_example =
    serve-refused sample_repository framework lowest nobody (post (txt "x")) (world_of []) refl
