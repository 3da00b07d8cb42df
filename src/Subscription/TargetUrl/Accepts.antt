-- ===== src/Subscription/TargetUrl/Accepts.antt =====
-- Which target URLs are accepted, what is stored of them, and when the stored text is accepted
-- again.
use webhook_idp.Common.{
  ◌≡◌, ◌↔◌, ◌≤◌, refl, sym, ap, ◌∙◌, [], true, false, Option, none, some, arith, length, ltb, ◌==◌,
  if◌then◌else◌,
}
use webhook_idp.Common.Text.{Text, txt, ===_iff}
use webhook_idp.Common.Exec.{ok, err}
use webhook_idp.Subscription.Errors.{invalid_target_url, url_too_long}
use webhook_idp.Subscription.PrivateHost.{is_private_or_reserved_host}
use webhook_idp.Subscription.TargetUrl.{
  Url, UrlParser, Reparses, TargetUrl, check_parsed, target_url_from_string,
}

-- What the program asks of a parsed URL.
pub record IsAllowed (u : Url) : Type 0 where
  pub https : u.protocol ≡ txt "https:"
  pub no_username : u.username ≡ []
  pub no_password : u.password ≡ []
  pub public_host : is_private_or_reserved_host u.hostname ≡ false

empty_iff : (s : Text) → ((length s == 0) ≡ true) ↔ (s ≡ [])
empty_iff s = ground arith

check_parsed_sound :
    (o : Option Url) (t : TargetUrl)
    → check_parsed o ≡ ok t
    → (u : Url) × (o ≡ some u) × IsAllowed u × (u.href ≡ t.value)
unfolding check_parsed
check_parsed_sound none t h = cc
check_parsed_sound (some u) t h = (
  u,
  refl,
  record {
    https = ground (arith, ===_iff u.protocol (txt "https:"));
    no_username = ground (arith, empty_iff u.username);
    no_password = ground (arith, empty_iff u.password);
    public_host = ground arith;
  },
  ground arith,
)

check_parsed_complete :
    (u : Url) (t : TargetUrl) → IsAllowed u → u.href ≡ t.value → check_parsed (some u) ≡ ok t
unfolding check_parsed
check_parsed_complete u t a h = ground (arith, ===_iff u.protocol (txt "https:"))

-- A text is accepted as a target URL exactly when it has at most 2048 code units and parses to a URL
-- with the scheme https, no user name, no password and a host that is not private; what is kept is
-- the parsed URL's own text.
pub target_url_from_string-ok_iff :
    (parse : UrlParser) (value : Text) (t : TargetUrl)
    → (target_url_from_string parse value ≡ ok t) ↔ (
        (length value ≤ 2048)
        × ((u : Url) × (parse value ≡ some u) × IsAllowed u × (u.href ≡ t.value)))
unfolding target_url_from_string
target_url_from_string-ok_iff parse value t = (
  λ h. (ground arith, check_parsed_sound (parse value) t (ground arith)),
  λ (short, (u, parsed, a, h)). rw parsed (ground (arith, check_parsed_complete u t a h)),
)

-- For a parser whose URLs print to texts that parse to the same URL: the text kept of an accepted
-- URL is itself accepted, as the same target URL, if it has at most 2048 code units, and refused as
-- too long otherwise. The limit is applied to the text that was given, not to the one that is kept.
pub target_url_from_string-restored :
    (parse : UrlParser) (value : Text) (t : TargetUrl)
    → Reparses parse
    → target_url_from_string parse value ≡ ok t
    → target_url_from_string parse t.value ≡ (
        if ltb 2048 (length t.value)
        then err (invalid_target_url url_too_long (txt "targetUrl must be at most 2048 characters"))
        else ok t)
unfolding target_url_from_string
target_url_from_string-restored parse value t again h =
    let (short, (u, parsed, a, same)) = (target_url_from_string-ok_iff parse value t).0 h in
    let stored : parse t.value ≡ some u = ap parse (sym same) ∙ again value u parsed in
    rw stored (ground (arith, check_parsed_complete u t a same))
