-- ===== src/Presentation/Controller/Hidden.antt =====
-- What a caller learns of another tenant's subscription.
use webhook_idp.Common.{
  ◌≡◌, refl, ◌≢◌, inl, inr, Bool, true, Option, none, some, [], ◌∷◌, Bool-cases, ℕ, ◌++◌,
}
use webhook_idp.Common.Text.{Text, txt, ◌===◌, ===_iff}
use webhook_idp.Common.Exec.{ok, err}
use webhook_idp.Persistence.{SubscriptionRecord}
use webhook_idp.Subscription.ValueObjects.{
  TenantId, SubscriptionId, tenant_id_from_string, subscription_id_from_string,
}
use webhook_idp.Subscription.TargetUrl.{UrlParser}
use webhook_idp.Subscription.Aggregate.{WebhookSubscription}
use webhook_idp.UseCases.Ports.{SubscriptionRepository, read_for}
use webhook_idp.UseCases.Execute.{World, find_existing, not_found, use_case_functions}
use webhook_idp.Presentation.Identity.{
  Headers, ResolvedIdentity, can_activate, can_activate-accepted,
}
use webhook_idp.Presentation.Responses.{
  ApiEnvelope, catch_exception, resolve, resolve_application, single,
}
use webhook_idp.Presentation.Masking.{Random, ResponseData}
use webhook_idp.Presentation.Requests.{
  Framework, get_one, patch, remove, UpdateSubscriptionDto, current_identity,
}
use webhook_idp.Presentation.Controller.{
  serve, guard, dispatch, request_handler, get_by_id_handler, update_handler, delete_handler,
}

module _ {is_valid_uuid : Text → Bool} {parse : UrlParser}
    (repo : SubscriptionRepository is_valid_uuid parse) where
  -- Under `id` there is no document of the tenant.
  abbrev pub Hidden : repo.Db → Text → Text → Type 0
  Hidden db id tenant =
      (doc : SubscriptionRecord) → repo.document db id ≡ some doc → doc.tenant_id ≢ tenant

  read_for-hidden :
      (tenant : TenantId) (held : Option SubscriptionRecord)
      → ((doc : SubscriptionRecord) → held ≡ some doc → doc.tenant_id ≢ tenant.value)
      → read_for is_valid_uuid parse tenant held ≡ ok none
  read_for-hidden tenant none h = refl
  read_for-hidden tenant (some doc) h = elim (Bool-cases (doc.tenant_id === tenant.value)) [
    | inl same ↦ absurd (h doc refl ((===_iff doc.tenant_id tenant.value).0 same))
    | inr other ↦ rw other refl
  ]

  pub find_existing-Hidden :
      (w : World repo.Db) (id tenant : Text)
      → is_valid_uuid id ≡ true
      → tenant_id_from_string tenant ≡ ok (record { value = tenant })
      → Hidden w.db id tenant
      → ((sid : SubscriptionId) (t : TenantId)
          → (found : Option WebhookSubscription) × (repo.find_by_id_and_tenant sid t w.db
              ≡ ok found))
      → find_existing repo id tenant w ≡ (err (not_found id), w)
  unfolding use_case_functions subscription_id_from_string
  find_existing-Hidden w id tenant valid accepted hidden answers =
      let t : TenantId = record { value = tenant } in
      let sid : SubscriptionId = record { value = id } in
      let (found, answered) = answers sid t in
      let law = repo.find_by_id-document sid t w.db found answered in
      let nothing : found ≡ none = cc (law, read_for-hidden t (repo.document w.db id) hidden) in
      rw (valid, accepted, answered, nothing) refl

  module _ (framework : Framework) where
    -- The response for an id under which nothing is found.
    abbrev pub not_found_reply : Text → ℕ × ApiEnvelope ResponseData
    not_found_reply id =
        let message = txt "Subscription \"" ++ (id ++ txt "\" was not found") in
        (
          404,
          record {
            data_value = none;
            status_code = 404;
            code = txt "SUBSCRIPTION_NOT_FOUND";
            message = message;
            errors =
                record { error_code = txt "SUBSCRIPTION_NOT_FOUND"; error_message = message } ∷ [];
          },
        )

    -- What the guard attaches to a request that it lets pass.
    pub guard-passes :
        (headers : Headers) (identity : ResolvedIdentity)
        → can_activate headers ≡ ok identity
        → guard repo framework headers ≡ ok (record { identity = some identity; pagination = none })
    unfolding guard
    guard-passes headers identity passed = rw (guard, passed) refl

    -- A caller cannot tell another tenant's subscription from one that does not exist. If the guard
    -- lets the request pass, the id is a UUID, no document of the caller's tenant lies under it, and
    -- the database answers, then a read, a delete, and an update with an accepted body are answered
    -- with one and the same 404 response, which depends on the id alone, and change nothing.
    pub serve-Hidden :
        (random : Random) (headers : Headers) (identity : ResolvedIdentity) (id : Text)
        (w : World repo.Db)
        → can_activate headers ≡ ok identity
        → is_valid_uuid id ≡ true
        → Hidden w.db id identity.tenant_id
        → ((sid : SubscriptionId) (t : TenantId)
            → (found : Option WebhookSubscription) × (repo.find_by_id_and_tenant sid t w.db
                ≡ ok found))
        → (serve repo framework random headers (get_one id) w ≡ (not_found_reply id, w))
          × (serve repo framework random headers (remove id) w ≡ (not_found_reply id, w))
          × ((raw : framework.Body) (body : UpdateSubscriptionDto)
              → framework.validate_update raw ≡ ok body
              → serve repo framework random headers (patch id raw) w ≡ (not_found_reply id, w))
    unfolding serve request_handler dispatch current_identity get_by_id_handler update_handler
        delete_handler use_case_functions catch_exception resolve resolve_application single
    serve-Hidden random headers identity id w passed valid hidden answers =
        let accepted = (can_activate-accepted headers identity passed).0 in
        let admitted = guard-passes headers identity passed in
        let stopped = find_existing-Hidden w id identity.tenant_id valid accepted hidden answers in
        (
          rw (admitted, stopped) refl,
          rw (admitted, stopped) refl,
          (λ raw body made. rw (admitted, made, stopped) refl),
        )
