-- ===== src/UseCases/Replies.antt =====
-- What a create, an update and a delete have done when they return.
use webhook_idp.UseCases.Execute.Revised.{Revised-SameOrigin, Revised-Reach}
use webhook_idp.Subscription.Aggregate.Lifecycle.{delete_idempotent, Reach, SameOrigin}
use webhook_idp.Persistence.ReadBack.{tenant_id-value}
use webhook_idp.UseCases.Guarantees.{
  create_execute-Outcome, update_execute-Outcome, delete_execute-Outcome, deleted_id,
}
use webhook_idp.Subscription.TargetUrl.{UrlParser, target_url_from_string}
use webhook_idp.Persistence.{SubscriptionRecord, to_document, to_aggregate}
use webhook_idp.Subscription.Aggregate.Methods.{Command, create-IsCreated, delete-events, perform}
use webhook_idp.Common.Exec.{ok}
use webhook_idp.Subscription.Aggregate.{WebhookSubscription, Held, pull_domain_events}
use webhook_idp.Subscription.Events.{Date, subscription_created, subscription_deleted, now}
use webhook_idp.Subscription.ValueObjects.{active, deleted}
use webhook_idp.Common.Text.{Text, ◌===◌, ===_iff}
use webhook_idp.Common.{◌≡◌, sym, ap, ◌∙◌, subst, ◌≢◌, Bool, some, [], ◌∷◌, ◌++◌, if◌then◌else◌}
use webhook_idp.UseCases.Ports.{SubscriptionRepository}
use webhook_idp.UseCases.Execute.{
  World, Action, create_execute, update_execute, delete_execute, CreateSubscriptionInput,
  DeleteSubscriptionInput, UpdateSubscriptionInput,
}
use mathlib.Core.List.{append-nil}

module _ {is_valid_uuid : Text → Bool} {parse : UrlParser}
    (repo : SubscriptionRepository is_valid_uuid parse) where
  written_at :
      (m : Action repo WebhookSubscription) (w : World repo.Db) (s : WebhookSubscription)
      (id : Text)
      → s.id.value ≡ id
      → ((key : Text)
          → repo.document (m w).1.db key
            ≡ (if key === s.id.value then some (to_document s) else repo.document w.db key))
      → repo.document (m w).1.db id ≡ some (to_document s)
  written_at m w s id same written =
      written id
      ∙ ap (λ b. if b then some (to_document s) else repo.document w.db id)
          ((===_iff id s.id.value).1 (sym same))

  -- A delete that returns has found a document of the caller's tenant under the id. It returns the
  -- subscription as DELETED and stores it so; it publishes nothing if the document was DELETED
  -- already, and else one `SubscriptionDeleted` for that id.
  pub delete_execute-deletes :
      (input : DeleteSubscriptionInput) (w : World repo.Db) (t : WebhookSubscription)
      → (delete_execute repo input w).0 ≡ ok t
      → (doc : SubscriptionRecord) × (repo.document w.db input.id ≡ some doc)
        × (doc.tenant_id ≡ input.tenant_id)
        × (t.status ≡ deleted)
        × (repo.document (delete_execute repo input w).1.db input.id ≡ some (to_document t))
        × (doc.status ≡ deleted → (delete_execute repo input w).1.published ≡ w.published)
        × (doc.status ≢ deleted
            → (at : Date) × ((delete_execute repo input w).1.published
                ≡ w.published
                  ++ record {
                    class = subscription_deleted;
                    aggregate_id = input.id;
                    occurred_at = at;
                  }
                    ∷ []))
  unfolding pull_domain_events to_document
  delete_execute-deletes input w t h =
      let (s, p, drained, published, written) =
        (delete_execute-Outcome repo input w).on_return t h in
      let held : Held = record { self = p.before; clock = p.clock } in
      let (none_new, one_new) = delete-events held in
      let same_id : s.id.value ≡ input.id =
        ap (λ i. i.value) (sym (deleted_id repo p)) ∙ p.found.same_id in
      (
        p.found.doc,
        p.found.held,
        p.found.owner,
        ap (λ r. r.status) drained
            ∙ (ap (λ r. r.status) (sym p.deletion) ∙ (delete_idempotent held).0),
        written_at (delete_execute repo input) w s input.id same_id written
            ∙ ap some (ap to_document (sym drained)),
        (λ was.
            let quiet : s.domain_events ≡ [] =
              ap (λ r. r.domain_events) (sym p.deletion)
              ∙ (none_new (p.found.same_status ∙ was) ∙ p.found.no_events) in
            published ∙ (ap (λ l. w.published ++ l) quiet ∙ append-nil w.published)),
        (λ was. (
          now p.clock,
          let first : (perform Command.delete held).1.self.domain_events
                  ≡ p.before.domain_events
                    ++ record {
                      class = subscription_deleted;
                      aggregate_id = p.before.id.value;
                      occurred_at = now p.clock;
                    }
                      ∷ [] =
                one_new (λ d. was (sym p.found.same_status ∙ d)) in
              let said : s.domain_events
                  ≡ record {
                    class = subscription_deleted;
                    aggregate_id = input.id;
                    occurred_at = now p.clock;
                  }
                    ∷ [] =
                ap (λ r. r.domain_events) (sym p.deletion)
                ∙ (first
                    ∙ (ap
                          (λ l.
                            l
                            ++ record {
                              class = subscription_deleted;
                              aggregate_id = p.before.id.value;
                              occurred_at = now p.clock;
                            }
                              ∷ [])
                          p.found.no_events
                        ∙ ap
                            (λ i.
                              record {
                                class = subscription_deleted;
                                aggregate_id = i;
                                occurred_at = now p.clock;
                              }
                              ∷ [])
                            p.found.same_id)) in
              published ∙ ap (λ l. w.published ++ l) said,
        )),
      )

  -- A create that returns has accepted the tenant's id and the URL. It returns an ACTIVE
  -- subscription under a new id, of that tenant and URL, and stores it so; it publishes one
  -- `SubscriptionCreated` for it. No document of the tenant, whatever its status, had that URL.
  pub create_execute-creates :
      (input : CreateSubscriptionInput) (w : World repo.Db) (t : WebhookSubscription)
      → (create_execute repo input w).0 ≡ ok t
      → (t.id.value ≡ w.uuids w.made)
        × (t.tenant_id.value ≡ input.tenant_id)
        × (target_url_from_string parse input.target_url ≡ ok t.target_url)
        × (t.status ≡ active)
        × (repo.document (create_execute repo input w).1.db (w.uuids w.made) ≡ some (to_document t))
        × ((create_execute repo input w).1.published
            ≡ w.published
              ++ record {
                class = subscription_created;
                aggregate_id = w.uuids w.made;
                occurred_at = now w.clock;
              }
                ∷ [])
        × ((key : Text) (doc : SubscriptionRecord)
            → repo.document w.db key ≡ some doc
            → doc.tenant_id ≡ input.tenant_id
            → doc.target_url ≢ t.target_url.value)
  unfolding pull_domain_events to_document
  create_execute-creates input w t h =
      let (s, p, drained, published, written) =
        (create_execute-Outcome repo input w).on_return t h in
      let c = create-IsCreated _ _ _ s p.made in
      let url : t.target_url ≡ p.url = ap (λ r. r.target_url) drained ∙ c.target_url in
      let tenant : p.tenant.value ≡ input.tenant_id =
        tenant_id-value input.tenant_id p.tenant p.same_tenant in
      (
        ap (λ r. r.id.value) drained ∙ c.id,
        ap (λ r. r.tenant_id.value) drained ∙ (ap (λ i. i.value) c.tenant_id ∙ tenant),
        p.accepted ∙ ap ok (sym url),
        ap (λ r. r.status) drained ∙ c.status,
        written_at (create_execute repo input) w s (w.uuids w.made) c.id written
            ∙ ap some (ap to_document (sym drained)),
        published ∙ ap (λ l. w.published ++ l) c.events,
        (λ key doc held owner same.
            repo.find_by_url-document p.tenant p.url w.db key doc p.no_other held
              (owner ∙ sym tenant) (same ∙ ap (λ u. u.value) url)),
      )

  -- An update that returns has found a document of the caller's tenant under the id. What it
  -- returns and stores under that id has the id, the tenant, the creator and the creation date of
  -- the subscription read from the document, and a status reached from its status.
  pub update_execute-revises :
      (input : UpdateSubscriptionInput) (w : World repo.Db) (t : WebhookSubscription)
      → (update_execute repo input w).0 ≡ ok t
      → (doc : SubscriptionRecord) × (before : WebhookSubscription) × (repo.document w.db input.id
          ≡ some doc)
        × (doc.tenant_id ≡ input.tenant_id)
        × (to_aggregate is_valid_uuid parse doc ≡ ok before)
        × SameOrigin before t
        × Reach before.status t.status
        × (repo.document (update_execute repo input w).1.db input.id ≡ some (to_document t))
  unfolding pull_domain_events to_document
  update_execute-revises input w t h =
      let (s, p, drained, published, written) =
        (update_execute-Outcome repo input w).on_return t h in
      let origin = Revised-SameOrigin p.revised in
      let same_id : s.id.value ≡ input.id = ap (λ i. i.value) (sym origin.id) ∙ p.found.same_id in
      (
        p.found.doc,
        p.before,
        p.found.held,
        p.found.owner,
        p.found.read_back,
        record {
          id = origin.id ∙ ap (λ r. r.id) (sym drained);
          tenant_id = origin.tenant_id ∙ ap (λ r. r.tenant_id) (sym drained);
          client = origin.client ∙ ap (λ r. r.created_by_client_id) (sym drained);
          user = origin.user ∙ ap (λ r. r.created_by_user_id) (sym drained);
          created_at = origin.created_at ∙ ap (λ r. r.created_at) (sym drained);
        },
        subst (Reach p.before.status) (ap (λ r. r.status) (sym drained)) (Revised-Reach p.revised),
        written_at (update_execute repo input) w s input.id same_id written
            ∙ ap some (ap to_document (sym drained)),
      )
