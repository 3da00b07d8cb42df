-- ===== src/UseCases/Interleaving/Revived.antt =====
-- A lost update: what becomes of a delete that an update has overtaken.
use webhook_idp.Common.{◌≡◌, refl, sym, ap, ◌∙◌, ◌≢◌, Bool, true, [], ◌∷◌, some}
use webhook_idp.Common.Text.{Text, ◌===◌, ===_refl}
use webhook_idp.Common.Exec.{ok}
use webhook_idp.Subscription.ValueObjects.{deleted}
use webhook_idp.Subscription.Aggregate.{WebhookSubscription}
use webhook_idp.Subscription.Aggregate.Lifecycle.{delete_idempotent}
use webhook_idp.Subscription.TargetUrl.{UrlParser}
use webhook_idp.Persistence.{SubscriptionRecord, to_document}
use webhook_idp.UseCases.Ports.{SubscriptionRepository}
use webhook_idp.UseCases.Execute.{
  World, UpdateSubscriptionInput, DeleteSubscriptionInput, store_and_publish,
}
use webhook_idp.UseCases.Execute.Outcome.{store_and_publish-saves}
use webhook_idp.UseCases.Execute.Revised.{Revised-SameOrigin}
use webhook_idp.UseCases.Execute.Preparing.{update_prepare-Reads, delete_prepare-Reads}
use webhook_idp.UseCases.Guarantees.{deleted_id}
use webhook_idp.UseCases.Interleaving.{
  update, deletion, System, prepare, prepared, stored, Reach, here, next,
}

module _ {is_valid_uuid : Text → Bool} {parse : UrlParser}
    (repo : SubscriptionRepository is_valid_uuid parse) where
  updated-id :
      (u : UpdateSubscriptionInput) (w : World repo.Db) (s : WebhookSubscription)
      → (prepare repo (update u) w).0 ≡ ok s
      → s.id.value ≡ u.id
  unfolding prepare
  updated-id u w s h =
      let p = (update_prepare-Reads repo u w).gives s h in
      ap (λ i. i.value) (sym (Revised-SameOrigin p.revised).id) ∙ p.found.same_id

  deletion_lem :
      (d : DeleteSubscriptionInput) (w : World repo.Db) (t : WebhookSubscription)
      → (prepare repo (deletion d) w).0 ≡ ok t
      → (t.id.value ≡ d.id) × (t.status ≡ deleted)
  unfolding prepare
  deletion_lem d w t h =
      let p = (delete_prepare-Reads repo d w).gives t h in
      (
        ap (λ i. i.value) (sym (deleted_id repo p)) ∙ p.found.same_id,
        ap (λ r. r.status) (sym p.deletion)
            ∙ (delete_idempotent (record { self = p.before; clock = p.clock })).0,
      )

  -- A save that the database accepts puts the subscription's document under its id.
  saved_at :
      (s : WebhookSubscription) (w : World repo.Db) (id : Text)
      → s.id.value ≡ id
      → (repo.save s w.db).0 ≡ ok tt
      → repo.document (store_and_publish repo s w).1.db id ≡ some (to_document s)
  saved_at s w id same saved =
      let here_key : (id === s.id.value) ≡ true = ap (λ k. id === k) same ∙ ===_refl id in
      ap (λ d. repo.document d id) (store_and_publish-saves repo s w)
      ∙ (repo.save-document s w.db id saved ∙ rw here_key refl)

  -- An update and a delete of one subscription are under way together: both have read it, the update
  -- has not made it DELETED, and the database accepts the save of the delete, and then that of the
  -- update. Then the delete can be stored first, with the document DELETED, and the update after it, with the document not DELETED again.
  pub update-revives :
      (w : World repo.Db) (u : UpdateSubscriptionInput) (d : DeleteSubscriptionInput)
      (s t : WebhookSubscription)
      → u.id ≡ d.id
      → (prepare repo (update u) w).0 ≡ ok s
      → s.status ≢ deleted
      → (prepare repo (deletion d) (prepare repo (update u) w).1).0 ≡ ok t
      → (repo.save t (prepare repo (deletion d) (prepare repo (update u) w).1).1.db).0 ≡ ok tt
      → (repo.save s
          (repo.save t (prepare repo (deletion d) (prepare repo (update u) w).1).1.db).1).0
        ≡ ok tt
      → (between : System repo.Db) × (after : System repo.Db) × (gone : SubscriptionRecord)
        × (back : SubscriptionRecord) × Reach repo (record { world = w; in_flight = [] }) between
        × (repo.document between.world.db d.id ≡ some gone)
        × (gone.status ≡ deleted)
        × Reach repo between after
        × (repo.document after.world.db d.id ≡ some back)
        × (back.status ≢ deleted)
  unfolding to_document
  update-revives w u d s t same updated alive deleting first_saved then_saved =
      let w₁ = (prepare repo (update u) w).1 in
      let w₂ = (prepare repo (deletion d) w₁).1 in
      let w₃ = (store_and_publish repo t w₂).1 in
      let (id, gone) = deletion_lem d w₁ t deleting in
      (
        record { world = w₃; in_flight = s ∷ [] },
        record { world = (store_and_publish repo s w₃).1; in_flight = [] },
        to_document t,
        to_document s,
        next (next (next here (prepared (update u) s updated)) (prepared (deletion d) t deleting))
            (stored (s ∷ []) [] t refl),
        saved_at t w₂ d.id id first_saved,
        gone,
        next here (stored [] [] s refl),
        saved_at s w₃ d.id (updated-id u w s updated ∙ same)
            (ap (λ db. (repo.save s db).0) (store_and_publish-saves repo t w₂) ∙ then_saved),
        alive,
      )
