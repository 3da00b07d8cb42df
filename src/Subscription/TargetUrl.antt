-- ===== src/Subscription/TargetUrl.antt =====
-- packages/webhook-api/src/domain/subscription/value-objects/target-url.vo.ts, up to line 45: the
-- value object `TargetUrl`. The URL parser of the platform (`new URL`) is a parameter, in
-- `UrlParser`; where the code relies on what the WHATWG URL standard says of it, that is a named
-- law.
pub mod Accepts
use webhook_idp.Common.{
  ℕ, ◌≡◌, Bool, ◌||◌, not, ◌==◌, ltb, if◌then◌else◌, ◌++◌, Option, none, some, length,
}
use webhook_idp.Common.Text.{Text, txt, ◌===◌}
use webhook_idp.Common.Exec.{Result, ok, err}
use webhook_idp.Subscription.Errors.{
  DomainError, invalid_target_url, url_too_long, invalid_url_format, https_required,
  credentials_not_allowed, private_host_not_allowed,
}
use webhook_idp.Subscription.PrivateHost.{is_private_or_reserved_host}

-- A parsed URL: the attributes that the program reads, and `href`, which is `toString()`.
pub record Url : Type 0 where
  pub href : Text
  pub protocol : Text
  pub username : Text
  pub password : Text
  pub hostname : Text
  pub port : Text
  pub pathname : Text
  pub search : Text
  pub hash : Text

-- `new URL(value)`; `none` where the constructor throws.
abbrev pub UrlParser : Type 0
UrlParser = Text → Option Url

-- Parsing what a parsed URL prints gives that URL again ("URL serializing" of the standard).
abbrev pub Reparses : UrlParser → Type 0
Reparses parse = (value : Text) (u : Url) → parse value ≡ some u → parse u.href ≡ some u

pub record TargetUrl : Type 0 where
  pub value : Text

abbrev pub max_length : ℕ
max_length = 2048

-- The tests on a parsed URL, in order.
pub check_parsed : Option Url → Result DomainError TargetUrl
check_parsed none =
    err (invalid_target_url invalid_url_format (txt "targetUrl must be an absolute URL"))
check_parsed (some parsed) =
    if not (parsed.protocol === txt "https:")
    then err (invalid_target_url https_required (txt "targetUrl must use the https scheme"))
    else if not (length parsed.username == 0) || not (length parsed.password == 0)
    then err
        (invalid_target_url credentials_not_allowed (txt "targetUrl must not contain userinfo"))
    else if is_private_or_reserved_host parsed.hostname
    then err (
        invalid_target_url private_host_not_allowed
          (txt "targetUrl hostname \"" ++ (parsed.hostname ++ txt "\" is not allowed")))
    else ok (record { value = parsed.href })

-- `TargetUrl.fromString`
unfoldable pub target_url_from_string : UrlParser → Text → Result DomainError TargetUrl
unfolding check_parsed
target_url_from_string parse value =
    if ltb max_length (length value)
    then err (invalid_target_url url_too_long (txt "targetUrl must be at most 2048 characters"))
    else check_parsed (parse value)

-- `TargetUrl.equals`
unfoldable pub target_url_equals : TargetUrl → TargetUrl → Bool
target_url_equals a b = a.value === b.value
