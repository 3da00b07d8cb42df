-- ===== src/UseCases/Guarantees.antt =====
-- What the use cases guarantee, whatever the repository that keeps its laws.
use webhook_idp.Subscription.Aggregate.Methods.{Command, create-IsCreated}
use webhook_idp.Common.Exec.{Result-cases, err}
use webhook_idp.Persistence.{SubscriptionRecord}
use webhook_idp.Subscription.Aggregate.{WebhookSubscription}
use webhook_idp.Common.Text.{Text, ◌===◌, ===_iff}
use webhook_idp.Common.{◌≡◌, sym, ap, ◌∙◌, ◌≢◌, inl, inr, Bool, none, some, Bool-cases}
use webhook_idp.UseCases.Ports.{Exception, SubscriptionRepository}
use webhook_idp.Subscription.TargetUrl.{UrlParser}
use webhook_idp.Subscription.Aggregate.Lifecycle.{perform-SameOrigin}
use webhook_idp.UseCases.Execute.{
  World, Action, create_execute, update_execute, delete_execute, CreateSubscriptionInput,
  DeleteSubscriptionInput, UpdateSubscriptionInput,
}
use webhook_idp.UseCases.Execute.Outcome.{IsLeft, IsWritten, Outcome, Stores-Outcome}
use webhook_idp.UseCases.Execute.Found.{IsFound}
use webhook_idp.UseCases.Execute.Revised.{Revised-SameOrigin}
use webhook_idp.UseCases.Execute.Preparing.{IsRevision, IsDeletion}
use webhook_idp.UseCases.Execute.Creating.{IsCreation}
use webhook_idp.UseCases.Execute.Storing.{
  update_execute-Stores, delete_execute-Stores, create_execute-Stores,
}

module _ {is_valid_uuid : Text → Bool} {parse : UrlParser}
    (repo : SubscriptionRepository is_valid_uuid parse) where
  pub update_execute-Outcome :
      (input : UpdateSubscriptionInput) (w : World repo.Db)
      → Outcome repo (IsRevision repo w.db input.id input.tenant_id) (update_execute repo input) w
  update_execute-Outcome input w = Stores-Outcome repo _ _ w (update_execute-Stores repo input w)

  pub delete_execute-Outcome :
      (input : DeleteSubscriptionInput) (w : World repo.Db)
      → Outcome repo (IsDeletion repo w.db input.id input.tenant_id) (delete_execute repo input) w
  delete_execute-Outcome input w = Stores-Outcome repo _ _ w (delete_execute-Stores repo input w)

  pub create_execute-Outcome :
      (input : CreateSubscriptionInput) (w : World repo.Db)
      → Outcome repo (IsCreation repo input w) (create_execute repo input) w
  create_execute-Outcome input w = Stores-Outcome repo _ _ w (create_execute-Stores repo input w)

  -- A create, an update or a delete that throws has published no event, and has left the documents
  -- as they were, or has written one and no other, as where the reply to its save was lost: for a
  -- create that of the subscription that it made, for an update and a delete that of the caller's
  -- subscription with the id, revised or deleted.
  pub execute_atomic :
      (w : World repo.Db) (e : Exception)
      → ((input : CreateSubscriptionInput)
          → (create_execute repo input w).0 ≡ err e
          → IsLeft repo (IsCreation repo input w) w (create_execute repo input w).1)
        × ((input : UpdateSubscriptionInput)
            → (update_execute repo input w).0 ≡ err e
            → IsLeft repo
                (IsRevision repo w.db input.id input.tenant_id)
                w
                (update_execute repo input w).1)
        × ((input : DeleteSubscriptionInput)
            → (delete_execute repo input w).0 ≡ err e
            → IsLeft repo
                (IsDeletion repo w.db input.id input.tenant_id)
                w
                (delete_execute repo input w).1)
  execute_atomic w e = (
    (λ input. (create_execute-Outcome input w).on_throw e),
    (λ input. (update_execute-Outcome input w).on_throw e),
    (λ input. (delete_execute-Outcome input w).on_throw e),
  )

  -- The documents of every tenant but one are as before.
  abbrev pub OthersKept : Text → repo.Db → repo.Db → Type 0
  OthersKept tenant before after =
      (key : Text) (doc : SubscriptionRecord)
      → repo.document before key ≡ some doc
      → doc.tenant_id ≢ tenant
      → repo.document after key ≡ some doc

  written-kept :
      (P : WebhookSubscription → Type 0) (before after : repo.Db) (tenant : Text)
      (s : WebhookSubscription)
      → ((s : WebhookSubscription) (doc : SubscriptionRecord)
          → P s
          → repo.document before s.id.value ≡ some doc
          → doc.tenant_id ≡ tenant)
      → P s
      → IsWritten repo before after s
      → OthersKept tenant before after
  written-kept P before after tenant s own p written key doc held other =
      elim (Bool-cases (key === s.id.value)) [
        | inl same ↦ absurd (
            other (
              own s doc p
                (ap (repo.document before) (sym ((===_iff key s.id.value).0 same)) ∙ held)))
        | inr differs ↦ rw (written key, differs) held
      ]

  isolated :
      (P : WebhookSubscription → Type 0) (m : Action repo WebhookSubscription) (w : World repo.Db)
      (tenant : Text)
      → Outcome repo P m w
      → ((s : WebhookSubscription) (doc : SubscriptionRecord)
          → P s
          → repo.document w.db s.id.value ≡ some doc
          → doc.tenant_id ≡ tenant)
      → OthersKept tenant w.db (m w).1.db
  isolated P m w tenant o own key doc held other = elim (Result-cases (m w).0) [
    | inl (t, returned) ↦
        let (s, p, drained, published, written) = o.on_return t returned in
        written-kept P w.db _ tenant s own p written key doc held other
    | inr (e, thrown) ↦ elim (o.on_throw e thrown).documents [
      | inl same ↦ same key ∙ held
      | inr (s, p, written) ↦ written-kept P w.db _ tenant s own p written key doc held other
    ]
  ]

  own_document :
      (db : repo.Db) (id tenant : Text) (b s : WebhookSubscription) (doc : SubscriptionRecord)
      → IsFound repo db id tenant b
      → s.id.value ≡ b.id.value
      → repo.document db s.id.value ≡ some doc
      → doc.tenant_id ≡ tenant
  own_document db id tenant b s doc f e held =
      let key : s.id.value ≡ id = e ∙ f.same_id in
      let same : some doc ≡ some f.doc = sym held ∙ (ap (repo.document db) key ∙ f.held) in
      let same_doc : doc ≡ f.doc = cc same in ap (λ d. d.tenant_id) same_doc ∙ f.owner

  pub deleted_id :
      {db : repo.Db} {id tenant : Text} {s : WebhookSubscription}
      (p : IsDeletion repo db id tenant s)
      → p.before.id ≡ s.id
  deleted_id p =
      (perform-SameOrigin Command.delete (record { self = p.before; clock = p.clock })).id
      ∙ ap (λ t. t.id) p.deletion

  -- A create, an update and a delete, whether they throw or not, leave every document of another
  -- tenant than the caller's as it was; for a create, if there is no document yet under the id that
  -- the new subscription is given.
  pub execute_isolated :
      (w : World repo.Db)
      → ((input : CreateSubscriptionInput)
          → repo.document w.db (w.uuids w.made) ≡ none
          → OthersKept input.tenant_id w.db (create_execute repo input w).1.db)
        × ((input : UpdateSubscriptionInput)
            → OthersKept input.tenant_id w.db (update_execute repo input w).1.db)
        × ((input : DeleteSubscriptionInput)
            → OthersKept input.tenant_id w.db (delete_execute repo input w).1.db)
  execute_isolated w = (
    (λ input fresh. isolated _ _ w input.tenant_id (create_execute-Outcome input w) (λ s doc p held.
        absurd (
          cc (
            sym fresh
            ∙ (ap (repo.document w.db) (sym (create-IsCreated _ _ _ s p.made).id) ∙ held))))),
    (λ input. isolated _ _ w input.tenant_id (update_execute-Outcome input w) (λ s doc p held.
        own_document w.db input.id input.tenant_id p.before s doc p.found
          (ap (λ i. i.value) (sym (Revised-SameOrigin p.revised).id)) held)),
    (λ input. isolated _ _ w input.tenant_id (delete_execute-Outcome input w) (λ s doc p held.
        own_document w.db input.id input.tenant_id p.before s doc p.found
          (ap (λ i. i.value) (sym (deleted_id p))) held)),
  )
