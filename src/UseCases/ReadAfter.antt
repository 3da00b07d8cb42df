-- ===== src/UseCases/ReadAfter.antt =====
-- Reading a subscription right after it was created.
use webhook_idp.Common.{
  ◌≤◌, ◌≡◌, refl, sym, ap, ◌∙◌, subst, Bool, true, false, Option, some, arith, ltb, length, All,
}
use webhook_idp.Common.Text.{Text, ◌===◌, ===_iff}
use webhook_idp.Common.Exec.{ok}
use webhook_idp.Subscription.ValueObjects.{
  TenantId, SubscriptionId, subscription_id_from_string, client_id_from_string,
  tenant_id_from_string, event_type_from_string,
}
use webhook_idp.Subscription.TargetUrl.{UrlParser, Reparses, TargetUrl, target_url_from_string}
use webhook_idp.Subscription.TargetUrl.Accepts.{target_url_from_string-restored}
use webhook_idp.Subscription.Aggregate.{WebhookSubscription, pull_domain_events}
use webhook_idp.Subscription.Aggregate.Methods.{create-IsCreated}
use webhook_idp.Persistence.{user_text, optional_user_id, to_document, to_aggregate}
use webhook_idp.Persistence.Again.{
  tenant_id-again, client_id-again, optional_user_id-again, event_types-again,
}
use webhook_idp.Persistence.RoundTrip.{IsStorable, to_aggregate-to_document}
use webhook_idp.UseCases.Ports.{SubscriptionRepository, read_for}
use webhook_idp.UseCases.Execute.{
  World, CreateSubscriptionInput, create_execute, find_existing, use_case_functions,
}
use webhook_idp.UseCases.Execute.Creating.{IsCreation}
use webhook_idp.UseCases.Guarantees.{create_execute-Outcome}
use webhook_idp.UseCases.Replies.{create_execute-creates}

-- The URL is kept as a text that is not longer than the limit.
abbrev pub IsShort : TargetUrl → Type 0
IsShort url = length url.value ≤ 2048

module _ {is_valid_uuid : Text → Bool} {parse : UrlParser}
    (repo : SubscriptionRepository is_valid_uuid parse) where
  creation-IsStorable :
      (input : CreateSubscriptionInput) (w : World repo.Db) (s : WebhookSubscription)
      (p : IsCreation repo input w s)
      → Reparses parse
      → is_valid_uuid (w.uuids w.made) ≡ true
      → IsShort p.url
      → IsStorable is_valid_uuid parse s
  unfolding subscription_id_from_string
  creation-IsStorable input w s p again valid short =
      let c = create-IsCreated _ _ _ s p.made in
      let test : ltb 2048 (length p.url.value) ≡ false = ground arith in
      let url = target_url_from_string-restored parse input.target_url p.url again p.accepted in
      let known : is_valid_uuid s.id.value ≡ true = ap is_valid_uuid c.id ∙ valid in
      record {
        id = rw known refl;
        tenant_id =
            subst (λ t. tenant_id_from_string t.value ≡ ok t) (sym c.tenant_id)
              (tenant_id-again _ p.tenant p.same_tenant);
        client_id =
            subst (λ t. client_id_from_string t.value ≡ ok t) (sym c.client)
              (client_id-again _ p.client p.same_client);
        user_id =
            subst (λ t. optional_user_id (user_text t) ≡ ok t) (sym c.user)
              (optional_user_id-again _ p.user p.same_user);
        target_url =
            subst (λ t. target_url_from_string parse t.value ≡ ok t) (sym c.target_url)
              (url ∙ rw test refl);
        event_types =
            subst (All (λ t. event_type_from_string t.value ≡ ok t)) (sym c.types)
              (event_types-again _ p.types p.same_types);
      }

  find_existing-finds :
      (w : World repo.Db) (id tenant : Text) (t : WebhookSubscription)
      → is_valid_uuid id ≡ true
      → tenant_id_from_string tenant ≡ ok (record { value = tenant })
      → repo.find_by_id_and_tenant (record { value = id }) (record { value = tenant }) w.db
        ≡ ok (some t)
      → find_existing repo id tenant w ≡ (ok t, w)
  unfolding use_case_functions subscription_id_from_string
  find_existing-finds w id tenant t valid accepted answered = rw (valid, accepted, answered) refl

  -- A subscription that was just created is found by its id and its tenant as it was returned, if
  -- the database answers.
  pub find_existing-created :
      (input : CreateSubscriptionInput) (w : World repo.Db) (t : WebhookSubscription)
      → (create_execute repo input w).0 ≡ ok t
      → Reparses parse
      → is_valid_uuid (w.uuids w.made) ≡ true
      → IsShort t.target_url
      → tenant_id_from_string input.tenant_id ≡ ok (record { value = input.tenant_id })
      → ((sid : SubscriptionId) (tenant : TenantId)
          → (found : Option WebhookSubscription) × (repo.find_by_id_and_tenant sid tenant
                (create_execute repo input w).1.db
              ≡ ok found))
      → find_existing repo (w.uuids w.made) input.tenant_id (create_execute repo input w).1
        ≡ (ok t, (create_execute repo input w).1)
  unfolding to_document pull_domain_events
  find_existing-created input w t h again valid short accepted answers =
      let (s, p, drained, published, written) =
        (create_execute-Outcome repo input w).on_return t h in
      let (id, tenant, url, status, held, events, fresh) =
        create_execute-creates repo input w t h in
      let sid : SubscriptionId = record { value = w.uuids w.made } in
      let owner : TenantId = record { value = input.tenant_id } in
      let (found, answered) = answers sid owner in
      let law = repo.find_by_id-document sid owner _ found answered in
      let storable = creation-IsStorable input w s p again valid (
        subst IsShort
          (ap (λ r. r.target_url) drained ∙ (create-IsCreated _ _ _ s p.made).target_url) short) in
      let read : to_aggregate is_valid_uuid parse (to_document t) ≡ ok t =
        ap (λ r. to_aggregate is_valid_uuid parse (to_document r)) drained
        ∙ (to_aggregate-to_document is_valid_uuid parse s storable ∙ ap ok (sym drained)) in
      let own : (t.tenant_id.value === input.tenant_id) ≡ true = (===_iff _ _).1 tenant in
      let same : read_for is_valid_uuid parse owner (some (to_document t)) ≡ ok (some t) =
        rw (own, read) refl in
      let got : ok (some t) ≡ ok found =
        sym same ∙ (ap (read_for is_valid_uuid parse owner) (sym held) ∙ law) in
      let is_found : found ≡ some t = sym (cc got) in
      find_existing-finds (create_execute repo input w).1 (w.uuids w.made) input.tenant_id t valid
        accepted (answered ∙ ap ok is_found)
