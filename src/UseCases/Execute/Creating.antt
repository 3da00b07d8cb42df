-- ===== src/UseCases/Execute/Creating.antt =====
-- What a create has read and made up to the save.
use webhook_idp.UseCases.Ports.{Exception, domain, SubscriptionRepository}
use webhook_idp.Persistence.{optional_user_id}
use webhook_idp.Subscription.Aggregate.{
  CreateWebhookSubscriptionParams, WebhookSubscription, create,
}
use webhook_idp.Subscription.Errors.{DomainError}
use webhook_idp.Subscription.TargetUrl.{UrlParser, TargetUrl, target_url_from_string}
use webhook_idp.Subscription.ValueObjects.{
  TenantId, ClientId, UserId, EventType, tenant_id_from_string, client_id_from_string,
  event_type_from_string,
}
use webhook_idp.Common.Text.{Text}
use webhook_idp.Common.Exec.{Result, ok, err, map_result, map_err}
use webhook_idp.Common.{◌<◌, ℕ, ◌≤◌, ◌≡◌, refl, ap, ◌∙◌, Bool, Option, none, some, List, arith}
use webhook_idp.Common.State.{◌>>=◌}
use webhook_idp.UseCases.Execute.{
  World, Action, create_subscription, reject_existing, duplicate, count, create_prepare,
  CreateSubscriptionInput,
}
use webhook_idp.UseCases.Execute.Outcome.{SameStore-refl, Reads}
use webhook_idp.UseCases.Execute.Found.{domain_step-bind, read-bind}

map_err-ok : {A : Type 0} (r : Result DomainError A) (a : A) → map_err domain r ≡ ok a → r ≡ ok a
map_err-ok (ok b) a h = ground arith
map_err-ok (err e) a h = cc

count-le : (r : Result DomainError WebhookSubscription) (made : ℕ) → made ≤ count r made
count-le (ok s) made = omega arith
count-le (err e) made = omega arith

module _ {is_valid_uuid : Text → Bool} {parse : UrlParser}
    (repo : SubscriptionRepository is_valid_uuid parse) where
  reject_existing-bind :
      (Q : WebhookSubscription → Type 0) (e : Exception) (existing : Option WebhookSubscription)
      (f : Unit {0} → Action repo WebhookSubscription) (w : World repo.Db)
      → (existing ≡ none → Reads Q (f tt) w)
      → Reads Q (reject_existing e existing >>= f) w
  unfolding reject_existing
  reject_existing-bind Q e none f w k = record { same = (k refl).same; gives = (k refl).gives }
  reject_existing-bind Q e (some s) f w k = record { same = SameStore-refl w; gives = λ b h. cc }

  -- A new subscription, of the caller's tenant, with the next id.
  pub record IsCreation (input : CreateSubscriptionInput) (w : World repo.Db)
      (s : WebhookSubscription) : Type 0 where
    pub tenant : TenantId
    pub same_tenant : tenant_id_from_string input.tenant_id ≡ ok tenant
    pub url : TargetUrl
    pub accepted : target_url_from_string parse input.target_url ≡ ok url
    pub no_other : repo.find_by_tenant_and_target_url tenant url w.db ≡ ok none
    pub client : ClientId
    pub same_client : client_id_from_string input.created_by_client_id ≡ ok client
    pub user : Option UserId
    pub same_user : optional_user_id input.created_by_user_id ≡ ok user
    pub types : List EventType
    pub same_types : map_result event_type_from_string input.event_types ≡ ok types
    pub made :
        (create
          (w.uuids w.made)
          (record {
            tenant_id = tenant;
            created_by_client_id = client;
            created_by_user_id = user;
            target_url = url;
            subscribed_event_types = types;
          })
          w.clock).0
        ≡ ok s

  create_subscription-Reads :
      (params : CreateWebhookSubscriptionParams) (w : World repo.Db)
      → Reads
          (λ s. (create (w.uuids w.made) params w.clock).0 ≡ ok s)
          (create_subscription params)
          w
  create_subscription-Reads params w = record {
    same = record {
      db = refl;
      published = refl;
      uuids = refl;
      made = count-le (create (w.uuids w.made) params w.clock).0 w.made;
    };
    gives = λ s h. map_err-ok (create (w.uuids w.made) params w.clock).0 s h;
  }

  pub create_prepare-Reads :
      (input : CreateSubscriptionInput) (w : World repo.Db)
      → Reads (IsCreation input w) (create_prepare repo input) w
  unfolding create_prepare
  create_prepare-Reads input w =
      domain_step-bind Q (tenant_id_from_string input.tenant_id) _ w λ tenant htenant.
        domain_step-bind Q (target_url_from_string parse input.target_url) _ w λ url hurl.
          read-bind Q (repo.find_by_tenant_and_target_url tenant url) _ w λ existing hfind.
            reject_existing-bind Q (duplicate input.tenant_id input.target_url) existing _ w
              λ no_other.
                domain_step-bind Q (client_id_from_string input.created_by_client_id) _ w
                  λ client hclient.
                    domain_step-bind Q (optional_user_id input.created_by_user_id) _ w λ user huser.
                      domain_step-bind Q (map_result event_type_from_string input.event_types) _ w
                        λ types htypes.
                          let reads = create_subscription-Reads _ w in
                          record {
                            same = reads.same;
                            gives = λ s h. record {
                              tenant = tenant;
                              same_tenant = htenant;
                              url = url;
                              accepted = hurl;
                              no_other = hfind ∙ ap ok no_other;
                              client = client;
                              same_client = hclient;
                              user = user;
                              same_user = huser;
                              types = types;
                              same_types = htypes;
                              made = reads.gives s h;
                            };
                          }
    where
      Q : WebhookSubscription → Type 0
      Q = IsCreation input w

  -- A create that is prepared has used an id up.
  pub create_prepare-made :
      (input : CreateSubscriptionInput) (w : World repo.Db) (t : WebhookSubscription)
      → (create_prepare repo input w).0 ≡ ok t
      → w.made < (create_prepare repo input w).1.made
  unfolding create_prepare reject_existing
  create_prepare-made input w t h = ground arith
