-- ===== src/Persistence/RoundTrip.antt =====
-- What is read back of a stored subscription.
use webhook_idp.Subscription.TargetUrl.Accepts.{target_url_from_string-restored}
use webhook_idp.Subscription.Aggregate.{WebhookSubscription, restore, pull_domain_events}
use webhook_idp.Subscription.Errors.{url_too_long, invalid_target_url}
use webhook_idp.Subscription.TargetUrl.{UrlParser, Reparses, target_url_from_string}
use webhook_idp.Subscription.ValueObjects.{
  EventType, tenant_id_from_string, client_id_from_string, event_type_from_string,
  subscription_id_from_string,
}
use webhook_idp.Common.Exec.{ok, err, map_result}
use webhook_idp.Common.Text.{Text, txt}
use webhook_idp.Common.{◌<◌, ◌≡◌, refl, Bool, true, List, [], ◌∷◌, map, arith, ltb, length, All}
use webhook_idp.Persistence.{
  to_document, to_aggregate, optional_user_id, user_text, event_type_text,
}

-- Every value object of a subscription accepts its own text again.
module _ (is_valid_uuid : Text → Bool) (parse : UrlParser) where
  pub record IsStorable (s : WebhookSubscription) : Type 0 where
    pub id : subscription_id_from_string is_valid_uuid s.id.value ≡ ok s.id
    pub tenant_id : tenant_id_from_string s.tenant_id.value ≡ ok s.tenant_id
    pub client_id : client_id_from_string s.created_by_client_id.value ≡ ok s.created_by_client_id
    pub user_id : optional_user_id (user_text s.created_by_user_id) ≡ ok s.created_by_user_id
    pub target_url : target_url_from_string parse s.target_url.value ≡ ok s.target_url
    pub event_types : All (λ t. event_type_from_string t.value ≡ ok t) s.event_types

  event_types_again :
      (ts : List EventType)
      → All (λ t. event_type_from_string t.value ≡ ok t) ts
      → map_result event_type_from_string (map event_type_text ts) ≡ ok ts
  unfolding map_result
  event_types_again [] h = refl
  event_types_again (t ∷ ts) (h, hs) = rw (h, event_types_again ts hs)

  -- A subscription whose value objects accept their own texts again is read back from its document
  -- as it was, but for the events that it had recorded.
  pub to_aggregate-to_document :
      (s : WebhookSubscription)
      → IsStorable s
      → to_aggregate is_valid_uuid parse (to_document s) ≡ ok (pull_domain_events s).1
  unfolding to_aggregate to_document restore pull_domain_events
  to_aggregate-to_document s h = rw (
    h.id,
    h.tenant_id,
    h.client_id,
    h.user_id,
    h.target_url,
    event_types_again s.event_types h.event_types,
  )

  -- An accepted target URL may be kept as a text of more than 2048 code units, if the parser prints
  -- a URL longer than it was given. A subscription with such a URL is stored, and every later
  -- attempt to read its document throws the `InvalidTargetUrlError` of a text that is too long.
  pub to_aggregate-too_long :
      (s : WebhookSubscription) (value : Text)
      → Reparses parse
      → target_url_from_string parse value ≡ ok s.target_url
      → 2048 < length s.target_url.value
      → subscription_id_from_string is_valid_uuid s.id.value ≡ ok s.id
      → tenant_id_from_string s.tenant_id.value ≡ ok s.tenant_id
      → client_id_from_string s.created_by_client_id.value ≡ ok s.created_by_client_id
      → optional_user_id (user_text s.created_by_user_id) ≡ ok s.created_by_user_id
      → to_aggregate is_valid_uuid parse (to_document s)
        ≡ err (invalid_target_url url_too_long (txt "targetUrl must be at most 2048 characters"))
  unfolding to_aggregate to_document
  to_aggregate-too_long s value again accepted long id tenant client user =
      let refused = target_url_from_string-restored parse value s.target_url again accepted in
      let test : ltb 2048 (length s.target_url.value) ≡ true = ground arith in
      rw (id, tenant, client, user, refused, test)
