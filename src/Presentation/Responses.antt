-- ===== src/Presentation/Responses.antt =====
-- packages/webhook-api/src/presentation/common/filters/domain-exception.filter.ts and
-- packages/webhook-api/src/presentation/common/interceptors/envelope.interceptor.ts: the envelope of
-- a response.
use webhook_idp.Common.{ℕ, ◌≡◌, refl, Option, none, some, List, [], ◌∷◌, map, ◌==◌, if◌then◌else◌}
use webhook_idp.Common.Text.{Text, txt}
use webhook_idp.Subscription.Errors as Errors
use webhook_idp.Subscription.Errors.{
  DomainError, invalid_target_url, invalid_event_type, invalid_status_transition,
  invalid_identifier,
}
use webhook_idp.UseCases.Ports.{
  ApplicationError, subscription_not_found, duplicate_subscription, Exception, domain, application,
  infrastructure,
}

pub record ApiErrorItem : Type 0 where
  pub error_code : Text
  pub error_message : Text

pub record ApiEnvelope {ℓ} (T : Type ℓ) : Type ℓ where
  pub data_value : Option T
  pub status_code : ℕ
  pub code : Text
  pub message : Text
  pub errors : List ApiErrorItem

pub record Resolved : Type 0 where
  pub status : ℕ
  pub code : Text
  pub message : Text
  pub errors : List ApiErrorItem

-- The `message` of the body of an `HttpException`.
pub data Details : Type 0 where
  no_details : Details
  detail : Text → Details
  details : List Text → Details

-- The body of an `HttpException`: a text, or an object with its `error` and its `message`.
pub data HttpBody : Type 0 where
  plain : Text → HttpBody
  structured : Option Text → Details → HttpBody

pub record HttpException : Type 0 where
  pub status : ℕ
  pub name : Text
  pub message : Text
  pub body : HttpBody

-- What reaches the filter.
pub data Thrown : Type 0 where
  use_case : Exception → Thrown
  http : HttpException → Thrown

-- `single`
unfoldable pub single : ℕ → Text → Text → Resolved
single status code message = record {
  status = status;
  code = code;
  message = message;
  errors = record { error_code = code; error_message = message } ∷ [];
}

unfoldable pub resolve_domain : DomainError → Resolved
resolve_domain (invalid_status_transition m) =
    single 409 (Errors.code (invalid_status_transition m)) m
resolve_domain e = single 400 (Errors.code e) (Errors.message e)

unfoldable pub resolve_application : ApplicationError → Resolved
resolve_application (subscription_not_found m) = single 404 (txt "SUBSCRIPTION_NOT_FOUND") m
resolve_application (duplicate_subscription m) = single 409 (txt "DUPLICATE_SUBSCRIPTION") m

-- `responseObject.error ?? exception.message`
unfoldable pub summary : Option Text → Text → Text
summary none message = message
summary (some error) message = error

unfoldable pub resolve_details : HttpException → Text → Details → Resolved
resolve_details e s (details (d ∷ ds)) = record {
  status = e.status;
  code = e.name;
  message = s;
  errors = map (λ m. record { error_code = txt "VALIDATION_ERROR"; error_message = m }) (d ∷ ds);
}
resolve_details e s (detail m) = single e.status e.name m
resolve_details e s _ = single e.status e.name s

unfoldable pub resolve_body : HttpException → HttpBody → Resolved
resolve_body e (plain body) = single e.status e.name body
resolve_body e (structured error ds) = resolve_details e (summary error e.message) ds

-- `resolveHttpException`
unfoldable pub resolve_http_exception : HttpException → Resolved
resolve_http_exception e = resolve_body e e.body

-- `resolve`
unfoldable pub resolve : Thrown → Resolved
resolve (use_case (domain e)) = resolve_domain e
resolve (use_case (application e)) = resolve_application e
resolve (use_case (infrastructure _)) =
    single 500 (txt "INTERNAL_ERROR") (txt "An unexpected error occurred")
resolve (http e) = resolve_http_exception e

-- `catch`: the status of the response and its body.
unfoldable pub catch_exception {ℓ} : {T : Type ℓ} → Thrown → ℕ × ApiEnvelope T
catch_exception e =
    let r = resolve e in
    (
      r.status,
      record {
        data_value = none;
        status_code = r.status;
        code = r.code;
        message = r.message;
        errors = r.errors;
      },
    )

-- `defaultMessageFor`
unfoldable pub default_message_for : ℕ → Text
default_message_for status =
    if status == 201 then txt "Created" else if status == 204 then txt "No Content" else txt "OK"

-- The `map` of `EnvelopeInterceptor.intercept`.
unfoldable pub envelope {ℓ} : {T : Type ℓ} → ℕ → Option T → ApiEnvelope T
envelope status data_value = record {
  data_value = data_value;
  status_code = status;
  code = txt "OK";
  message = default_message_for status;
  errors = [];
}

details-errors :
    (e : HttpException) (s : Text) (ds : Details)
    → (item : ApiErrorItem) × (rest : List ApiErrorItem) × ((resolve_details e s ds).errors
        ≡ item ∷ rest)
unfolding resolve_details single
details-errors e s no_details = (_, _, refl)
details-errors e s (detail m) = (_, _, refl)
details-errors e s (details []) = (_, _, refl)
details-errors e s (details (d ∷ ds)) = (_, _, refl)

body-errors :
    (e : HttpException) (body : HttpBody)
    → (item : ApiErrorItem) × (rest : List ApiErrorItem) × ((resolve_body e body).errors
        ≡ item ∷ rest)
unfolding resolve_body single
body-errors e (plain b) = (_, _, refl)
body-errors e (structured error ds) = details-errors e _ ds

resolve-errors :
    (e : Thrown)
    → (item : ApiErrorItem) × (rest : List ApiErrorItem) × ((resolve e).errors ≡ item ∷ rest)
unfolding resolve single resolve_domain resolve_application resolve_http_exception
resolve-errors (use_case (domain (invalid_status_transition m))) = (_, _, refl)
resolve-errors (use_case (domain (invalid_target_url c m))) = (_, _, refl)
resolve-errors (use_case (domain (invalid_event_type m))) = (_, _, refl)
resolve-errors (use_case (domain (invalid_identifier m))) = (_, _, refl)
resolve-errors (use_case (application (subscription_not_found m))) = (_, _, refl)
resolve-errors (use_case (application (duplicate_subscription m))) = (_, _, refl)
resolve-errors (use_case (infrastructure m)) = (_, _, refl)
resolve-errors (http e) = body-errors e e.body

-- Whatever is thrown, the body of the response carries the status that it is sent with, no data and
-- at least one error; and of a failure of the database the response says nothing but that there was
-- one: it is the same for all of them.
pub catch_exception_lem :
    (e : Thrown) (a b : Text)
    → ((catch_exception {T = Text} e).1.status_code ≡ (catch_exception {T = Text} e).0)
      × ((catch_exception {T = Text} e).1.data_value ≡ none)
      × ((item : ApiErrorItem) × (rest : List ApiErrorItem) × ((catch_exception {T = Text}
              e).1.errors
            ≡ item ∷ rest))
      × (catch_exception {T = Text} (use_case (infrastructure a))
          ≡ catch_exception {T = Text} (use_case (infrastructure b)))
unfolding catch_exception resolve
catch_exception_lem e a b = (refl, refl, resolve-errors e, refl)
