-- ===== src/Presentation/Controller.antt =====
-- packages/webhook-api/src/presentation/subscriptions/subscriptions.controller.ts, between what the
-- application sets around its routes (app.setup.ts): the guard of the controller, the interceptors,
-- the global validation pipe, and the exception filter. The pipe and the constructors of the
-- framework's exceptions are not code of the program; they are parameters.
pub mod Hidden
pub mod Refusals
pub mod Created
use webhook_idp.Common.{ℕ, Bool, none, some}
use webhook_idp.Common.Text.{Text}
use webhook_idp.Common.Exec.{Result, ok, err, map_err}
use webhook_idp.Common.State.{Exec, pure, lift, ◌>>=◌}
use webhook_idp.Subscription.TargetUrl.{UrlParser}
use webhook_idp.UseCases.Ports.{domain, SubscriptionRepository}
use webhook_idp.UseCases.Execute.{
  World, Action, create_execute, get_execute, list_execute, update_execute, delete_execute,
}
use webhook_idp.Presentation.Identity.{Headers, ResolvedIdentity, can_activate}
use webhook_idp.Presentation.Paging.{ResolvedPagination, resolve_pagination}
use webhook_idp.Presentation.Responses.{
  ApiEnvelope, Thrown, use_case, http, catch_exception, envelope,
}
use webhook_idp.Presentation.Dto.{
  SubscriptionResponseDto, PaginatedSubscriptionsResponseDto, to_subscription_response_dto,
  to_paginated_subscriptions_response_dto,
}
use webhook_idp.Presentation.Masking.{Random, ResponseData, one, page, mask_response}
use webhook_idp.Presentation.Requests.{
  CreateSubscriptionDto, ListSubscriptionsQueryDto, UpdateSubscriptionDto, Framework, Attached,
  current_identity, current_pagination, event_type_filter, Call, post, get_all, get_one, patch,
  remove, http_code,
}

module _ {is_valid_uuid : Text → Bool} {parse : UrlParser}
    (repo : SubscriptionRepository is_valid_uuid parse) where
  abbrev pub Handler : Type 0 → Type 0
  Handler A = Exec (World repo.Db) Thrown A

  -- A call of a use case.
  abbrev pub run : {A : Type 0} → Action repo A → Handler A
  run action w = (map_err use_case (action w).0, (action w).1)

  -- `create`
  unfoldable pub create_handler :
      ResolvedIdentity → CreateSubscriptionDto → Handler SubscriptionResponseDto
  create_handler identity body = do
    subscription ← run (
        create_execute repo (record {
          tenant_id = identity.tenant_id;
          created_by_client_id = identity.client_id;
          created_by_user_id = identity.user_id;
          target_url = body.target_url;
          event_types = body.event_types;
        }))
    pure (to_subscription_response_dto subscription)

  -- `list`
  unfoldable pub list_handler :
      ResolvedIdentity
      → ListSubscriptionsQueryDto
      → ResolvedPagination
      → Handler PaginatedSubscriptionsResponseDto
  list_handler identity query pagination = do
    event_type ← lift (map_err (λ e. use_case (domain e)) (event_type_filter query.event_type))
    result ← run (
        list_execute repo (record {
          tenant_id = identity.tenant_id;
          filters = record { status = query.status; event_type = event_type };
          pagination = record { page = pagination.page; page_size = pagination.page_size };
        }))
    pure (to_paginated_subscriptions_response_dto result)

  -- `getById`
  unfoldable pub get_by_id_handler : ResolvedIdentity → Text → Handler SubscriptionResponseDto
  get_by_id_handler identity id = do
    subscription ← run (get_execute repo (record { id = id; tenant_id = identity.tenant_id }))
    pure (to_subscription_response_dto subscription)

  -- `update`
  unfoldable pub update_handler :
      ResolvedIdentity → Text → UpdateSubscriptionDto → Handler SubscriptionResponseDto
  update_handler identity id body = do
    subscription ← run (
        update_execute repo (record {
          id = id;
          tenant_id = identity.tenant_id;
          target_url = body.target_url;
          event_types = body.event_types;
          status = body.status;
        }))
    pure (to_subscription_response_dto subscription)

  -- `delete`
  unfoldable pub delete_handler : ResolvedIdentity → Text → Handler SubscriptionResponseDto
  delete_handler identity id = do
    subscription ← run (delete_execute repo (record { id = id; tenant_id = identity.tenant_id }))
    pure (to_subscription_response_dto subscription)

  module _ (framework : Framework) where
    -- `IdentityGuard` before every route.
    unfoldable pub guard : Headers → Result Thrown Attached
    guard headers = elim (can_activate headers) [
      | ok identity ↦ ok (record { identity = some identity; pagination = none })
      | err message ↦ err (http (framework.unauthorized_exception message))
    ]

    -- `PaginationInterceptor` before `list`.
    unfoldable pub paginate : framework.Query → Attached → Result Thrown Attached
    paginate query request =
        elim (resolve_pagination (framework.query_page query) (framework.query_page_size query)) [
          | ok pagination ↦ ok (record request { pagination = some pagination })
          | err message ↦ err (http (framework.bad_request_exception message))
        ]

    -- What a route returns, before the interceptors see it.
    unfoldable pub dispatch : Call framework → Attached → Handler ResponseData
    dispatch (post raw) request = do
      identity ← lift (current_identity request)
      body ← lift (map_err http (framework.validate_create raw))
      subscription ← create_handler identity body
      pure (one subscription)
    dispatch (get_all raw) request = do
      paginated ← lift (paginate raw request)
      identity ← lift (current_identity paginated)
      query ← lift (map_err http (framework.validate_list raw))
      pagination ← lift (current_pagination paginated)
      result ← list_handler identity query pagination
      pure (page result)
    dispatch (get_one id) request = do
      identity ← lift (current_identity request)
      subscription ← get_by_id_handler identity id
      pure (one subscription)
    dispatch (patch id raw) request = do
      identity ← lift (current_identity request)
      body ← lift (map_err http (framework.validate_update raw))
      subscription ← update_handler identity id body
      pure (one subscription)
    dispatch (remove id) request = do
      identity ← lift (current_identity request)
      subscription ← delete_handler identity id
      pure (one subscription)

    -- A request: the guard, the route, and the masking of what it returns.
    unfoldable pub request_handler : Random → Headers → Call framework → Handler ResponseData
    request_handler random headers call = do
      request ← lift (guard headers)
      returned ← dispatch call request
      pure (mask_response random parse returned)

    -- The status and the body of the response.
    abbrev pub reply : ℕ → Result Thrown ResponseData → ℕ × ApiEnvelope ResponseData
    reply status (ok returned) = (status, envelope status (some returned))
    reply status (err e) = catch_exception e

    -- The response, and the world after it.
    unfoldable pub serve :
        Random
        → Headers
        → Call framework
        → World repo.Db
        → (ℕ × ApiEnvelope ResponseData) × World repo.Db
    serve random headers call w =
        let after = request_handler random headers call w in
        (reply (http_code call) after.0, after.1)
