-- ===== src/Presentation/Identity.antt =====
-- packages/webhook-api/src/presentation/common/guards/identity.guard.ts
use webhook_idp.Common.{
  ◌≡◌, refl, sym, ◌∙◌, subst, false, not, Option, none, some, List, [], ◌∷◌, arith, all,
  if◌then◌else◌,
}
use webhook_idp.Common.Text.{Text, txt, is_blank, is_blank_lem, is_space}
use webhook_idp.Common.Exec.{Result, ok, err, ◌>>=◌, >>=-eq-ok}
use webhook_idp.Subscription.ValueObjects.{
  UserId, tenant_id_from_string, client_id_from_string, user_id_from_string, from_string_lem,
}
use webhook_idp.Persistence.{optional_user_id}

-- A header as the HTTP server gives it.
pub data HeaderValue : Type 0 where
  missing : HeaderValue
  one : Text → HeaderValue
  several : List Text → HeaderValue

pub record Headers : Type 0 where
  pub x_tenant_id : HeaderValue
  pub x_client_id : HeaderValue
  pub x_user_id : HeaderValue

pub record ResolvedIdentity : Type 0 where
  pub tenant_id : Text
  pub client_id : Text
  pub user_id : Option Text

unfoldable pub raw_value : HeaderValue → Option Text
raw_value missing = none
raw_value (one value) = some value
raw_value (several []) = none
raw_value (several (value ∷ _)) = some value

unfoldable pub not_blank : Option Text → Option Text
not_blank none = none
not_blank (some raw) = if not (is_blank raw) then some raw else none

-- `firstHeaderValue`
unfoldable pub first_header_value : HeaderValue → Option Text
first_header_value value = not_blank (raw_value value)

-- `throw new UnauthorizedException(…)` where the value is missing.
unfoldable pub demand : Text → Option Text → Result Text Text
demand message none = err message
demand message (some value) = ok value

-- `IdentityGuard.canActivate`: the identity that it attaches to the request, or the message of the
-- `UnauthorizedException`.
unfoldable pub can_activate : Headers → Result Text ResolvedIdentity
can_activate headers = do
  tenant_id ←
      demand (txt "Missing required \"x-tenant-id\" header")
        (first_header_value headers.x_tenant_id)
  client_id ←
      demand (txt "Missing required \"x-client-id\" header")
        (first_header_value headers.x_client_id)
  ok (record {
    tenant_id = tenant_id;
    client_id = client_id;
    user_id = first_header_value headers.x_user_id;
  })

-- A text that the guard lets pass has a code unit that is no white space.
first_header_value-some :
    (h : HeaderValue) (t : Text) → first_header_value h ≡ some t → all is_space t ≡ false
unfolding first_header_value not_blank
first_header_value-some h t e = go (raw_value h) e
  where
    go : (o : Option Text) → not_blank o ≡ some t → all is_space t ≡ false
    go none x = absurd (ground arith)
    go (some raw) x = sym (is_blank_lem t) ∙ ground arith

demand-ok : (m : Text) (o : Option Text) (t : Text) → demand m o ≡ ok t → o ≡ some t
unfolding demand
demand-ok m none t h = absurd (ground arith)
demand-ok m (some x) t h = ground arith

accepted :
    (t : Text)
    → all is_space t ≡ false
    → (tenant_id_from_string t ≡ ok (record { value = t }))
      × (client_id_from_string t ≡ ok (record { value = t }))
      × (user_id_from_string t ≡ ok (record { value = t }))
accepted t h =
    let (tenant, client, user, _) = from_string_lem t in (ground arith, ground arith, ground arith)

user-accepted :
    (o : Option Text)
    → ((t : Text) → o ≡ some t → all is_space t ≡ false)
    → (user : Option UserId) × (optional_user_id o ≡ ok user)
unfolding optional_user_id
user-accepted none h = (none, refl)
user-accepted (some t) h = (some (record { value = t }), rw ((accepted t (h t refl)).2) refl)

-- An identity that the guard attaches is one that the value objects accept: the use cases never
-- throw for the tenant's, the client's or the user's id of a request that the guard has let pass.
pub can_activate-accepted :
    (headers : Headers) (identity : ResolvedIdentity)
    → can_activate headers ≡ ok identity
    → (tenant_id_from_string identity.tenant_id ≡ ok (record { value = identity.tenant_id }))
      × (client_id_from_string identity.client_id ≡ ok (record { value = identity.client_id }))
      × (user : Option UserId) × (optional_user_id identity.user_id ≡ ok user)
unfolding can_activate
can_activate-accepted headers identity h =
    let (t, ht, rest) = >>=-eq-ok (demand _ (first_header_value headers.x_tenant_id)) _ h in
    let (c, hc, made) = >>=-eq-ok (demand _ (first_header_value headers.x_client_id)) _ rest in
    let tenant : first_header_value headers.x_tenant_id ≡ some t = demand-ok _ _ t ht in
    let client : first_header_value headers.x_client_id ≡ some c = demand-ok _ _ c hc in
    let user =
      user-accepted (first_header_value headers.x_user_id)
        (first_header_value-some headers.x_user_id) in
    let same : record {
      tenant_id = t;
      client_id = c;
      user_id = first_header_value headers.x_user_id;
    }
        ≡ identity =
      ground arith in
    (
      subst (λ i. tenant_id_from_string i.tenant_id ≡ ok (record { value = i.tenant_id })) same
          ((accepted t (first_header_value-some headers.x_tenant_id t tenant)).0),
      subst (λ i. client_id_from_string i.client_id ≡ ok (record { value = i.client_id })) same
          ((accepted c (first_header_value-some headers.x_client_id c client)).1),
      user.0,
      subst (λ i. optional_user_id i.user_id ≡ ok user.0) same user.1,
    )
