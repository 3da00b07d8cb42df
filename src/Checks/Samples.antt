-- ===== src/Checks/Samples.antt =====
-- Inputs for the checks: a parser, a database kept as a list, a subscription.
use webhook_idp.Common.{
  ◌≡◌, refl, ap, ◌≢◌, Bool, true, ◌&&◌, Option, none, some, List, [], ◌∷◌, arith, find, find-holds,
  find-none, if◌then◌else◌,
}
use webhook_idp.Common.Text.{Text, txt, ◌===◌, ===_iff, ===_comm}
use webhook_idp.Common.Exec.{Result, ok, err, map_err, ◌>>=◌}
use webhook_idp.Subscription.Errors.{DomainError}
use webhook_idp.Subscription.ValueObjects.{TenantId, active}
use webhook_idp.Subscription.TargetUrl.{UrlParser, TargetUrl}
use webhook_idp.Subscription.Events.{Clock}
use webhook_idp.Subscription.Aggregate.{WebhookSubscription, CreateWebhookSubscriptionParams}
use webhook_idp.Persistence.{SubscriptionRecord, to_document, to_aggregate}
use webhook_idp.UseCases.Ports.{Exception, domain, SubscriptionRepository, read_for}
use webhook_idp.UseCases.Execute.{World}

-- A parser that knows one host, and prints the text that it was given.
abbrev pub sample_parser : UrlParser
sample_parser value = some (record {
  href = value;
  protocol = txt "https:";
  username = [];
  password = [];
  hostname = txt "example.com";
  port = [];
  pathname = [];
  search = [];
  hash = [];
})

abbrev pub any_uuid : Text → Bool
any_uuid _ = true

abbrev pub has_id : Text → SubscriptionRecord → Bool
has_id key doc = doc.id === key

abbrev pub has_url : TenantId → TargetUrl → SubscriptionRecord → Bool
has_url tenant url doc = (doc.tenant_id === tenant.value) && (doc.target_url === url.value)

abbrev pub optionally : Option SubscriptionRecord → Result Exception (Option WebhookSubscription)
optionally none = ok none
optionally (some doc) =
    map_err domain (to_aggregate any_uuid sample_parser doc >>= (λ s. ok (some s)))

pub map_err-ok :
    {A : Type 0} (r : Result DomainError A) (a : A) → map_err domain r ≡ ok a → r ≡ ok a
map_err-ok (ok b) a h = ground arith
map_err-ok (err e) a h = cc

pub optionally-none : (o : Option SubscriptionRecord) → optionally o ≡ ok none → o ≡ none
optionally-none none h = refl
optionally-none (some doc) h =
    elim (to_aggregate any_uuid sample_parser doc)
        as (λ r. map_err domain (r >>= (λ s. ok (some s))) ≡ ok none → some doc ≡ none) [
          | ok s ↦ λ e. absurd (ground arith)
          | err e ↦ λ h. absurd (ground arith)
        ]
      h

pub find-saved :
    (s : WebhookSubscription) (db : List SubscriptionRecord) (key : Text)
    → find (has_id key) (to_document s ∷ db)
      ≡ (if key === s.id.value then some (to_document s) else find (has_id key) db)
unfolding to_document
find-saved s db key =
    ap (λ b. if b then some (to_document s) else find (has_id key) db) (===_comm s.id.value key)

pub other_url :
    (tenant : TenantId) (url : TargetUrl) (db : List SubscriptionRecord) (key : Text)
    (doc : SubscriptionRecord)
    → find (has_url tenant url) db ≡ none
    → find (has_id key) db ≡ some doc
    → doc.tenant_id ≡ tenant.value
    → doc.target_url ≢ url.value
other_url tenant url db key doc n h owner same =
    let here = find-none (has_id key) (has_url tenant url) db doc n h in
    let a : (doc.tenant_id === tenant.value) ≡ true =
      (===_iff doc.tenant_id tenant.value).1 owner in
    let b : (doc.target_url === url.value) ≡ true = (===_iff doc.target_url url.value).1 same in
    ground arith

-- A database that is a list of documents, the newest first.
abbrev pub sample_repository : SubscriptionRepository any_uuid sample_parser
sample_repository = record {
  Db = List SubscriptionRecord;
  document = λ db key. find (has_id key) db;
  save = λ s db. (ok tt, to_document s ∷ db);
  find_by_id_and_tenant = λ id tenant db.
      map_err domain (read_for any_uuid sample_parser tenant (find (has_id id.value) db));
  find_by_tenant_and_target_url = λ tenant url db. optionally (find (has_url tenant url) db);
  list = λ tenant filters pagination db.
      ok (record {
        items = [];
        page = pagination.page;
        page_size = pagination.page_size;
        total = 0;
      });
  document-id = λ db key doc h. (===_iff doc.id key).0 (find-holds (has_id key) db doc h);
  save-document = λ s db key h. find-saved s db key;
  save-whole = λ s db e h. absurd (ground arith);
  find_by_id-document = λ id tenant db found h. map_err-ok _ _ h;
  find_by_url-document = λ tenant url db key doc n h owner same.
      other_url tenant url db key doc (optionally-none _ n) h owner same;
}

abbrev pub sample_params : CreateWebhookSubscriptionParams
sample_params = record {
  tenant_id = record { value = txt "t" };
  created_by_client_id = record { value = txt "c" };
  created_by_user_id = none;
  target_url = record { value = txt "https://example.com/" };
  subscribed_event_types = record { value = txt "order" } ∷ [];
}

abbrev pub sample_clock : Clock
sample_clock = record { readings = λ n. n; reads = 0 }

abbrev pub sample : WebhookSubscription
sample = record {
  id = record { value = txt "i" };
  tenant_id = record { value = txt "t" };
  created_by_client_id = record { value = txt "c" };
  created_by_user_id = none;
  target_url = record { value = txt "https://example.com/" };
  event_types = record { value = txt "order" } ∷ [];
  status = active;
  created_at = 0;
  updated_at = 0;
  domain_events = [];
}

abbrev pub world_of : List SubscriptionRecord → World (List SubscriptionRecord)
world_of db = record {
  db = db;
  clock = sample_clock;
  uuids = λ _. txt "i";
  made = 0;
  published = [];
}
