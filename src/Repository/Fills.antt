-- ===== src/Repository/Fills.antt =====
-- The repository over the collection fills the port of the use cases.
use webhook_idp.Common.{
  ◌≤◌, ◌≡◌, refl, sym, ap, ◌∙◌, ◌≢◌, ◌⊎◌, Bool, true, ◌&&◌, Option, none, some, List, [], ◌∷◌,
  arith, find, filter, length, find-holds, find-none, if◌then◌else◌, Bool-cases, inl, inr,
}
use webhook_idp.Common.Text.{Text, ◌===◌, ===_iff}
use webhook_idp.Common.Exec.{Result, ok, err, Result-cases, >>=-eq-ok, map_err}
use webhook_idp.Subscription.Errors.{DomainError}
use webhook_idp.Subscription.ValueObjects.{TenantId, SubscriptionId}
use webhook_idp.Subscription.TargetUrl.{UrlParser, TargetUrl}
use webhook_idp.Subscription.Aggregate.{WebhookSubscription}
use webhook_idp.Persistence.{SubscriptionRecord, to_document, to_aggregate}
use webhook_idp.UseCases.Ports.{Exception, domain, SubscriptionRepository, read_for}
use webhook_idp.Repository.{
  SubscriptionCollection, matches, has_id, optional_aggregate, by_id, by_url, save,
  find_by_id_and_tenant, find_by_tenant_and_target_url, list,
}

abbrev keep {ℓ} : {A : Type ℓ} → (A → Bool) → Option A → Option A
keep q none = none
keep q (some a) = if q a then some a else none

module _ {A : Type 0} (p q : A → Bool) where
  find_of_none : (xs : List A) → length (filter p xs) ≡ 0 → find (λ x. p x && q x) xs ≡ none
  find_of_none [] h = refl
  find_of_none (x ∷ xs) h = ground (arith, find_of_none xs)

  -- Where at most one element passes `p`, to look for one that passes both is to test it by `q`.
  find-and :
      (xs : List A) → length (filter p xs) ≤ 1 → find (λ x. p x && q x) xs ≡ keep q (find p xs)
  find-and [] h = refl
  find-and (x ∷ xs) h = ground (arith, find-and xs, find_of_none xs)

map_err-ok : {A : Type 0} (r : Result DomainError A) (a : A) → map_err domain r ≡ ok a → r ≡ ok a
map_err-ok (ok b) a h = ground arith
map_err-ok (err e) a h = cc

module _ (is_valid_uuid : Text → Bool) (parse : UrlParser) where
  optional_aggregate-read :
      (tenant : TenantId) (held : Option SubscriptionRecord) (found : Option WebhookSubscription)
      → optional_aggregate is_valid_uuid parse
          (keep (λ doc. (doc.tenant_id === tenant.value) && true) held)
        ≡ ok found
      → read_for is_valid_uuid parse tenant held ≡ ok found
  optional_aggregate-read tenant none found h = ground arith
  optional_aggregate-read tenant (some doc) found h =
      elim (Bool-cases (doc.tenant_id === tenant.value)) [
        | inl same ↦ rw same (map_err-ok _ found (rw same at h))
        | inr other ↦ ground arith
      ]

  optional_aggregate-none :
      (o : Option SubscriptionRecord)
      → optional_aggregate is_valid_uuid parse o ≡ ok none
      → o ≡ none
  optional_aggregate-none none h = refl
  optional_aggregate-none (some doc) h =
      elim (Result-cases (to_aggregate is_valid_uuid parse doc)) [
        | inl (s, e) ↦ absurd (ground arith)
        | inr (x, e) ↦ absurd (ground arith)
      ]

  module _ (c : SubscriptionCollection) where
    pub save-documents :
        (s : WebhookSubscription) (db : c.Db) (key : Text)
        → (save is_valid_uuid parse c s db).0 ≡ ok tt
        → find (has_id key) (c.documents (save is_valid_uuid parse c s db).1) ≡ (
            if key === s.id.value then some (to_document s) else find (has_id key) (c.documents db))
    unfolding save to_document
    save-documents s db key h = c.updates s.id.value (to_document s) db key refl h

    pub save-whole :
        (s : WebhookSubscription) (db : c.Db) (e : Exception)
        → (save is_valid_uuid parse c s db).0 ≡ err e
        → ((key : Text)
            → find (has_id key) (c.documents (save is_valid_uuid parse c s db).1)
              ≡ find (has_id key) (c.documents db))
          ⊎ ((key : Text)
              → find (has_id key) (c.documents (save is_valid_uuid parse c s db).1) ≡ (
                  if key === s.id.value
                  then some (to_document s)
                  else find (has_id key) (c.documents db)))
    unfolding save to_document
    save-whole s db e h = c.atomic s.id.value (to_document s) db e refl h

    pub find_by_id-documents :
        (id : SubscriptionId) (tenant : TenantId) (db : c.Db) (found : Option WebhookSubscription)
        → find_by_id_and_tenant is_valid_uuid parse c id tenant db ≡ ok found
        → read_for is_valid_uuid parse tenant (find (has_id id.value) (c.documents db)) ≡ ok found
    unfolding find_by_id_and_tenant by_id matches
    find_by_id-documents id tenant db found h =
        let (held, answered, read) = >>=-eq-ok _ _ h in
        let selected = c.finds_one _ db held answered in
        let one =
          find-and (has_id id.value) (λ doc. (doc.tenant_id === tenant.value) && true)
            (c.documents db) (c.unique_id db id.value) in
        optional_aggregate-read tenant _ found
          (ap (optional_aggregate is_valid_uuid parse) (sym (selected ∙ one)) ∙ read)

    pub find_by_url-documents :
        (tenant : TenantId) (url : TargetUrl) (db : c.Db) (key : Text) (doc : SubscriptionRecord)
        → find_by_tenant_and_target_url is_valid_uuid parse c tenant url db ≡ ok none
        → find (has_id key) (c.documents db) ≡ some doc
        → doc.tenant_id ≡ tenant.value
        → doc.target_url ≢ url.value
    unfolding find_by_tenant_and_target_url by_url matches
    find_by_url-documents tenant url db key doc h held owner same =
        let (found, answered, read) = >>=-eq-ok _ _ h in
        let selected = c.finds_one _ db found answered in
        let nothing = optional_aggregate-none found read in
        let other =
          find-none (has_id key) (matches (by_url tenant url)) (c.documents db) doc
            (sym selected ∙ nothing) held in
        let a : (doc.tenant_id === tenant.value) ≡ true =
          (===_iff doc.tenant_id tenant.value).1 owner in
        let b : (doc.target_url === url.value) ≡ true = (===_iff doc.target_url url.value).1 same in
        ground arith

    -- The MongoDB repository does what the use cases ask of their port. A save that returns puts the
    -- subscription's document under its id and changes no other; a search by id and tenant that returns
    -- has read the document under the id, if it is the tenant's; and a search by tenant and URL that
    -- finds nothing shows that there is no such document.
    pub mongo_repository_lem :
        (s : WebhookSubscription) (id : SubscriptionId) (tenant : TenantId) (url : TargetUrl)
        (db : c.Db)
        → ((key : Text)
            → (save is_valid_uuid parse c s db).0 ≡ ok tt
            → find (has_id key) (c.documents (save is_valid_uuid parse c s db).1) ≡ (
                if key === s.id.value
                then some (to_document s)
                else find (has_id key) (c.documents db)))
          × ((found : Option WebhookSubscription)
              → find_by_id_and_tenant is_valid_uuid parse c id tenant db ≡ ok found
              → read_for is_valid_uuid parse tenant (find (has_id id.value) (c.documents db))
                ≡ ok found)
          × ((key : Text) (doc : SubscriptionRecord)
              → find_by_tenant_and_target_url is_valid_uuid parse c tenant url db ≡ ok none
              → find (has_id key) (c.documents db) ≡ some doc
              → doc.tenant_id ≡ tenant.value
              → doc.target_url ≢ url.value)
    mongo_repository_lem s id tenant url db = (
      save-documents s db,
      find_by_id-documents id tenant db,
      find_by_url-documents tenant url db,
    )

    -- The MongoDB repository as the use cases see it.
    abbrev pub mongo_repository : SubscriptionRepository is_valid_uuid parse
    mongo_repository = record {
      Db = c.Db;
      document = λ db key. find (has_id key) (c.documents db);
      save = save is_valid_uuid parse c;
      find_by_id_and_tenant = find_by_id_and_tenant is_valid_uuid parse c;
      find_by_tenant_and_target_url = find_by_tenant_and_target_url is_valid_uuid parse c;
      list = list is_valid_uuid parse c;
      document-id =
          λ db key doc h. (===_iff doc.id key).0 (find-holds (has_id key) (c.documents db) doc h);
      save-document = save-documents;
      save-whole = save-whole;
      find_by_id-document = find_by_id-documents;
      find_by_url-document = find_by_url-documents;
    }
