-- ===== src/UseCases/Interleaving/Prepared.antt =====
-- What a request has prepared when it waits for its `save`.
use webhook_idp.Common.{◌<◌, ◌≡◌, sym, ap, ◌∙◌, subst, ◌⊎◌, inl, inr, Bool, some}
use webhook_idp.Common.Text.{Text}
use webhook_idp.Common.Exec.{ok}
use webhook_idp.Subscription.Events.{Date}
use webhook_idp.Subscription.Aggregate.{WebhookSubscription}
use webhook_idp.Subscription.Aggregate.Methods.{create-IsCreated, Command}
use webhook_idp.Subscription.Aggregate.Lifecycle.{SameOrigin, perform-SameOrigin}
use webhook_idp.Subscription.TargetUrl.{UrlParser}
use webhook_idp.Persistence.{SubscriptionRecord, to_document}
use webhook_idp.Persistence.ReadBack.{to_aggregate-IsReadOf}
use webhook_idp.UseCases.Ports.{SubscriptionRepository}
use webhook_idp.UseCases.Execute.{World}
use webhook_idp.UseCases.Execute.Outcome.{SameStore}
use webhook_idp.UseCases.Execute.Found.{IsFound}
use webhook_idp.UseCases.Execute.Revised.{Revised-SameOrigin}
use webhook_idp.UseCases.Execute.Preparing.{update_prepare-Reads, delete_prepare-Reads}
use webhook_idp.UseCases.Execute.Creating.{create_prepare-Reads, create_prepare-made}
use webhook_idp.UseCases.Interleaving.{Request, creation, update, deletion, prepare}

-- What no request may change: whose the subscription is, and when it was made.
abbrev pub root : SubscriptionRecord → Text × Date
root doc = (doc.tenant_id, doc.created_at)

module _ {is_valid_uuid : Text → Bool} {parse : UrlParser}
    (repo : SubscriptionRepository is_valid_uuid parse) where
  -- The document that a request to change a subscription has found.
  unfoldable pub IsRooted : repo.Db → WebhookSubscription → Type 0
  IsRooted db t =
      (doc : SubscriptionRecord) × (repo.document db t.id.value ≡ some doc)
      × (root (to_document t) ≡ root doc)

  -- The id of a new subscription is the next one, and is used up.
  pub record IsNew (w w' : World repo.Db) (t : WebhookSubscription) : Type 0 where
    pub id : t.id.value ≡ w.uuids w.made
    pub used : w.made < w'.made

  found-IsRooted :
      (db : repo.Db) (id tenant : Text) (b t : WebhookSubscription)
      → IsFound repo db id tenant b
      → SameOrigin b t
      → IsRooted db t
  unfolding IsRooted to_document
  found-IsRooted db id tenant b t f o =
      let r = to_aggregate-IsReadOf is_valid_uuid parse f.doc b f.read_back in
      let key : t.id.value ≡ id = ap (λ i. i.value) (sym o.id) ∙ f.same_id in
      (
        f.doc,
        ap (repo.document db) key ∙ f.held,
        (λ i. (
          (ap (λ x. x.value) (sym o.tenant_id) ∙ (f.same_tenant ∙ sym f.owner)) i,
          (sym o.created_at ∙ r.created_at) i,
        )),
      )

  pub prepare_cases :
      (request : Request) (w : World repo.Db) (t : WebhookSubscription)
      → (prepare repo request w).0 ≡ ok t
      → IsRooted w.db t ⊎ IsNew w (prepare repo request w).1 t
  unfolding prepare
  prepare_cases (creation input) w t h =
      let p = (create_prepare-Reads repo input w).gives t h in
      inr (record {
        id = (create-IsCreated _ _ _ t p.made).id;
        used = create_prepare-made repo input w t h;
      })
  prepare_cases (update input) w t h =
      let p = (update_prepare-Reads repo input w).gives t h in
      inl (
        found-IsRooted w.db input.id input.tenant_id p.before t p.found
          (Revised-SameOrigin p.revised))
  prepare_cases (deletion input) w t h =
      let p = (delete_prepare-Reads repo input w).gives t h in
      let o = perform-SameOrigin Command.delete (record { self = p.before; clock = p.clock }) in
      inl (
        found-IsRooted w.db input.id input.tenant_id p.before t p.found
          (subst (SameOrigin p.before) p.deletion o))

  pub prepare-SameStore :
      (request : Request) (w : World repo.Db) → SameStore w (prepare repo request w).1
  unfolding prepare
  prepare-SameStore (creation input) w = (create_prepare-Reads repo input w).same
  prepare-SameStore (update input) w = (update_prepare-Reads repo input w).same
  prepare-SameStore (deletion input) w = (delete_prepare-Reads repo input w).same
