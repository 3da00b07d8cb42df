-- ===== src/Presentation/Requests.antt =====
-- What the routes of packages/webhook-api/src/presentation/subscriptions take from a request: the
-- DTOs of dto/, and what the decorators of common/decorators read. The validation pipe and the
-- constructors of the framework's exceptions are not code of the program; they are parameters.
use webhook_idp.Common.{ℕ, Option, none, some, List}
use webhook_idp.Common.Text.{Text, txt}
use webhook_idp.Common.Exec.{Result, ok, err}
use webhook_idp.Subscription.Errors.{DomainError}
use webhook_idp.Subscription.ValueObjects.{SubscriptionStatus, EventType, event_type_from_string}
use webhook_idp.UseCases.Ports.{infrastructure}
use webhook_idp.UseCases.Execute.{Field}
use webhook_idp.Presentation.Identity.{ResolvedIdentity}
use webhook_idp.Presentation.Paging.{QueryValue, ResolvedPagination}
use webhook_idp.Presentation.Responses.{HttpException, Thrown, use_case}

pub record CreateSubscriptionDto : Type 0 where
  pub target_url : Text
  pub event_types : List Text

pub record ListSubscriptionsQueryDto : Type 0 where
  pub status : Option SubscriptionStatus
  pub event_type : Option Text

-- `@IsOptional()` lets a property pass that is missing or null.
pub record UpdateSubscriptionDto : Type 0 where
  pub target_url : Field Text
  pub event_types : Field (List Text)
  pub status : Field SubscriptionStatus

-- What the framework does: its pipe makes a DTO of a raw body or query, or throws, and its
-- exceptions carry a message.
pub record Framework : Type 1 where
  pub Body : Type 0
  pub Query : Type 0
  pub validate_create : Body → Result HttpException CreateSubscriptionDto
  pub validate_update : Body → Result HttpException UpdateSubscriptionDto
  pub validate_list : Query → Result HttpException ListSubscriptionsQueryDto
  pub query_page : Query → QueryValue
  pub query_page_size : Query → QueryValue
  pub unauthorized_exception : Text → HttpException
  pub bad_request_exception : Text → HttpException

-- What the guard and the pagination interceptor attach to a request.
pub record Attached : Type 0 where
  pub identity : Option ResolvedIdentity
  pub pagination : Option ResolvedPagination

-- An `Error` of no family of the program's; the filter takes it as it takes a rejection.
abbrev pub plain_error : Text → Thrown
plain_error message = use_case (infrastructure message)

-- `CurrentIdentity`
unfoldable pub current_identity : Attached → Result Thrown ResolvedIdentity
current_identity request = elim request.identity [
  | some identity ↦ ok identity
  | none ↦
      err (plain_error (txt "CurrentIdentity() used on a route not protected by IdentityGuard"))
]

-- `Pagination`
unfoldable pub current_pagination : Attached → Result Thrown ResolvedPagination
current_pagination request = elim request.pagination [
  | some pagination ↦ ok pagination
  | none ↦
      err (plain_error (txt "Pagination() used on a route not wrapped by PaginationInterceptor"))
]

-- `query.eventType === undefined ? undefined : EventType.fromString(query.eventType)`
unfoldable pub event_type_filter : Option Text → Result DomainError (Option EventType)
event_type_filter none = ok none
event_type_filter (some text) = elim (event_type_from_string text) [
  | ok type ↦ ok (some type)
  | err e ↦ err e
]

-- The routes of the controller, with what they take from the request.
pub data Call (framework : Framework) : Type 0 where
  post : framework.Body → Call framework
  get_all : framework.Query → Call framework
  get_one : Text → Call framework
  patch : Text → framework.Body → Call framework
  remove : Text → Call framework

-- `@HttpCode`, and the status that the framework gives where there is none.
unfoldable pub http_code : {framework : Framework} → Call framework → ℕ
http_code (post _) = 201
http_code _ = 200
