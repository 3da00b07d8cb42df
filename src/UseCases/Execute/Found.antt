-- ===== src/UseCases/Execute/Found.antt =====
-- The subscription that a use case finds.
use webhook_idp.Persistence.{SubscriptionRecord, to_aggregate}
use webhook_idp.UseCases.Ports.{Exception, SubscriptionRepository, read_for}
use webhook_idp.Subscription.Aggregate.{WebhookSubscription, Held}
use webhook_idp.Subscription.Errors.{DomainError}
use webhook_idp.Subscription.TargetUrl.{UrlParser}
use webhook_idp.Subscription.ValueObjects.{
  TenantId, SubscriptionId, tenant_id_from_string, subscription_id_from_string,
}
use webhook_idp.Common.Exec.{Result, ok, err, Result-cases, ◌>>=◌ as bind_result}
use webhook_idp.Common.Text.{Text, ===_iff}
use webhook_idp.Common.{
  ◌≡◌, refl, ap, ◌∙◌, subst, inl, inr, Bool, Option, none, some, [], arith, Option-cases,
}
use webhook_idp.Common.State.{Exec, ◌>>=◌}
use webhook_idp.Persistence.ReadBack.{to_aggregate-IsReadOf, tenant_id-value, subscription_id-value}
use webhook_idp.UseCases.Execute.{World, domain_step, read, call, require, find_existing}
use webhook_idp.UseCases.Execute.Outcome.{SameStore-refl, Reads}

module _ {Db A B : Type 0} where
  pub domain_step-bind :
      (Q : B → Type 0) (r : Result DomainError A) (f : A → Exec (World Db) Exception B)
      (w : World Db)
      → ((a : A) → r ≡ ok a → Reads Q (f a) w)
      → Reads Q (domain_step r >>= f) w
  domain_step-bind Q (ok a) f w k = record { same = (k a refl).same; gives = (k a refl).gives }
  domain_step-bind Q (err e) f w k = record { same = SameStore-refl w; gives = λ b h. cc }

  pub read-bind :
      (Q : B → Type 0) (query : Db → Result Exception A) (f : A → Exec (World Db) Exception B)
      (w : World Db)
      → ((a : A) → query w.db ≡ ok a → Reads Q (f a) w)
      → Reads Q (read query >>= f) w
  read-bind Q query f w k = elim (Result-cases (query w.db)) [
    | inl (a, found) ↦ record {
      same = rw found (k a found).same;
      gives = λ b h. (k a found).gives b (rw found at h);
    }
    | inr (e, failed) ↦ record {
      same = rw failed (SameStore-refl w);
      gives = λ b h. absurd (ground arith);
    }
  ]

module _ {Db : Type 0} where
  pub require-Reads :
      (id : Text) (found : Option WebhookSubscription) (w : World Db)
      → Reads (λ s. found ≡ some s) (require id found) w
  require-Reads id none w = record { same = SameStore-refl w; gives = λ b h. absurd (ground arith) }
  require-Reads id (some s) w = record { same = SameStore-refl w; gives = λ b h. ground arith }

  pub call-Reads :
      (method : Exec Held DomainError (Unit {0})) (s : WebhookSubscription) (w : World Db)
      → Reads
          (λ s'.
            ((method (record { self = s; clock = w.clock })).0 ≡ ok tt)
            × ((method (record { self = s; clock = w.clock })).1.self ≡ s'))
          (call method s)
          w
  call-Reads method s w = elim (Result-cases (method (record { self = s; clock = w.clock })).0) [
    | inl (a, done) ↦ record {
      same = record { db = refl; published = refl; uuids = refl; made = omega arith };
      gives = λ b h. (ground arith, ground arith);
    }
    | inr (e, thrown) ↦ record {
      same = record { db = refl; published = refl; uuids = refl; made = omega arith };
      gives = λ b h. absurd (ground arith);
    }
  ]

read_some :
    (r : Result DomainError WebhookSubscription) (s : WebhookSubscription)
    → bind_result r (λ a. ok (some a)) ≡ ok (some s)
    → r ≡ ok s
read_some (ok a) s h = ground arith
read_some (err e) s h = cc

module _ {is_valid_uuid : Text → Bool} {parse : UrlParser}
    (repo : SubscriptionRepository is_valid_uuid parse) where
  -- `s` was read from the document under `id`, which belongs to `tenant`.
  pub record IsFound (db : repo.Db) (id tenant : Text) (s : WebhookSubscription) : Type 0 where
    pub doc : SubscriptionRecord
    pub held : repo.document db id ≡ some doc
    pub owner : doc.tenant_id ≡ tenant
    pub read_back : to_aggregate is_valid_uuid parse doc ≡ ok s
    pub same_id : s.id.value ≡ id
    pub same_tenant : s.tenant_id.value ≡ tenant
    pub same_status : s.status ≡ doc.status
    pub no_events : s.domain_events ≡ []

  read_for-IsFound :
      (db : repo.Db) (id : SubscriptionId) (tenant : TenantId) (s : WebhookSubscription)
      → read_for is_valid_uuid parse tenant (repo.document db id.value) ≡ ok (some s)
      → IsFound db id.value tenant.value s
  read_for-IsFound db id tenant s h = elim (Option-cases (repo.document db id.value)) [
    | inl e ↦ absurd (ground arith)
    | inr (doc, e) ↦
        let h' : read_for is_valid_uuid parse tenant (some doc) ≡ ok (some s) = rw e at h in
        let owner : doc.tenant_id ≡ tenant.value =
          ground (arith, ===_iff doc.tenant_id tenant.value) in
        let read : to_aggregate is_valid_uuid parse doc ≡ ok s = ground (
          arith,
          ===_iff doc.tenant_id tenant.value,
          read_some (to_aggregate is_valid_uuid parse doc) s,
        ) in
        let r = to_aggregate-IsReadOf is_valid_uuid parse doc s read in
        record {
          doc = doc;
          held = e;
          owner = owner;
          read_back = read;
          same_id = r.id ∙ repo.document-id db id.value doc e;
          same_tenant = r.tenant_id ∙ owner;
          same_status = r.status;
          no_events = r.events;
        }
  ]

  require-IsFound :
      (id tenant : Text) (sid : SubscriptionId) (t : TenantId) (found : Option WebhookSubscription)
      (w : World repo.Db)
      → subscription_id_from_string is_valid_uuid id ≡ ok sid
      → tenant_id_from_string tenant ≡ ok t
      → repo.find_by_id_and_tenant sid t w.db ≡ ok found
      → Reads (IsFound w.db id tenant) (require id found) w
  require-IsFound id tenant sid t found w hid ht hf = record {
    same = (require-Reads id found w).same;
    gives = λ s h.
        let is_some = (require-Reads id found w).gives s h in
        let read = repo.find_by_id-document sid t w.db found hf in
        let key : sid.value ≡ id = subscription_id-value is_valid_uuid id sid hid in
        let owner : t.value ≡ tenant = tenant_id-value tenant t ht in
        subst (λ k. IsFound w.db k tenant s) key
          (subst (λ o. IsFound w.db sid.value o s) owner
            (read_for-IsFound w.db sid t s (read ∙ ap ok is_some)));
  }

  -- What a use case that finds a subscription finds.
  pub find_existing-Reads :
      (id tenant : Text) (w : World repo.Db)
      → Reads (IsFound w.db id tenant) (find_existing repo id tenant) w
  unfolding find_existing
  find_existing-Reads id tenant w =
      domain_step-bind (IsFound w.db id tenant) (subscription_id_from_string is_valid_uuid id) _ w
        λ sid hid.
          domain_step-bind (IsFound w.db id tenant) (tenant_id_from_string tenant) _ w λ t ht.
            read-bind (IsFound w.db id tenant) (repo.find_by_id_and_tenant sid t) _ w
              λ found hf. require-IsFound id tenant sid t found w hid ht hf
