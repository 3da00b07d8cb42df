-- ===== src/UseCases/Interleaving/Kept.antt =====
-- What a document keeps however the requests' steps interleave.
use webhook_idp.Common.{
  ℕ, ◌≤◌, ◌≡◌, refl, sym, ap, ◌∙◌, subst, inl, inr, Bool, none, some, List, [], ◌∷◌, ◌++◌, arith,
}
use webhook_idp.Common.Text.{Text}
use webhook_idp.Common.Exec.{ok, Result-cases}
use webhook_idp.Subscription.Events.{Date}
use webhook_idp.Subscription.Aggregate.{WebhookSubscription}
use webhook_idp.Subscription.TargetUrl.{UrlParser}
use webhook_idp.Persistence.{SubscriptionRecord}
use webhook_idp.UseCases.Ports.{SubscriptionRepository}
use webhook_idp.UseCases.Execute.{World, store_and_publish}
use webhook_idp.UseCases.Execute.Outcome.{
  SameStore, IsWritten, store_and_publish-ok, store_and_publish-ids, store_and_publish-err,
}
use webhook_idp.UseCases.Interleaving.{
  Request, System, prepare, Step, prepared, refused, stored, Reach, here, next,
}
use webhook_idp.UseCases.Interleaving.Prepared.{root, prepare_cases, prepare-SameStore}
use webhook_idp.UseCases.Interleaving.Roots.{
  extended, IsKept, later-IsKept, rooted-IsKept, new-IsKept, saved-IsKept, same_documents-IsKept,
  dropped-IsKept,
}

module _ {is_valid_uuid : Text → Bool} {parse : UrlParser}
    (repo : SubscriptionRepository is_valid_uuid parse) where
  -- The invariant of a system that began with the database `origin`.
  record IsRight (origin : repo.Db) (s : System repo.Db) : Type 0 where
    roots : Text → Text × Date
    invariant : IsKept repo origin roots s.world.db s.world.uuids s.world.made s.in_flight
    distinct : (i j : ℕ) → s.world.uuids i ≡ s.world.uuids j → i ≡ j

  -- A world that differs in its clock and the ids taken.
  same-IsRight :
      (origin : repo.Db) (roots : Text → Text × Date) (v w : World repo.Db)
      (flights : List WebhookSubscription)
      → SameStore v w
      → ((i j : ℕ) → v.uuids i ≡ v.uuids j → i ≡ j)
      → IsKept repo origin roots v.db v.uuids w.made flights
      → IsRight origin (record { world = w; in_flight = flights })
  same-IsRight origin roots v w flights same distinct k = record {
    roots = roots;
    invariant =
        subst (λ d. IsKept repo origin roots d w.uuids w.made flights) same.db
          (subst (λ u. IsKept repo origin roots v.db u w.made flights) same.uuids k);
    distinct = subst (λ (u : ℕ → Text). (i j : ℕ) → u i ≡ u j → i ≡ j) same.uuids distinct;
  }

  prepared-IsRight :
      (origin : repo.Db) (s : System repo.Db) (request : Request) (t : WebhookSubscription)
      → (prepare repo request s.world).0 ≡ ok t
      → IsRight origin s
      → IsRight origin
          (record { world = (prepare repo request s.world).1; in_flight = s.in_flight ++ t ∷ [] })
  prepared-IsRight origin s request t h r =
      let same = prepare-SameStore repo request s.world in
      elim (prepare_cases repo request s.world t h) [
        | inl found ↦
            same-IsRight origin r.roots s.world _ _ same r.distinct
              (later-IsKept repo _ same.made (rooted-IsKept repo t found r.invariant))
        | inr new ↦ same-IsRight origin (extended r.roots t) s.world _ _ same r.distinct (
            later-IsKept repo _ (omega (arith, new.used))
              (new-IsKept repo t r.distinct new.id r.invariant))
      ]

  -- Whether the save returns or throws, the document of the subscription is written or none is.
  stored-IsKept :
      (origin : repo.Db) (roots : Text → Text × Date) (w : World repo.Db)
      (before after : List WebhookSubscription) (t : WebhookSubscription)
      → IsKept repo origin roots w.db w.uuids w.made (before ++ t ∷ after)
      → IsKept repo origin roots (store_and_publish repo t w).1.db w.uuids w.made (before ++ after)
  stored-IsKept origin roots w before after t k =
      elim (Result-cases (store_and_publish repo t w).0) [
        | inl (u, returned) ↦
            let (_, _, db, saved) = store_and_publish-ok repo t u w returned in
            saved-IsKept repo before after t
              (λ key. ap (λ d. repo.document d key) db ∙ repo.save-document t w.db key saved) k
        | inr (e, thrown) ↦
            elim (store_and_publish-err repo (λ u. u ≡ t) t w e refl thrown).documents [
              | inl same ↦ same_documents-IsKept repo same (dropped-IsKept repo before after t k)
              | inr (u, same, written) ↦
                  saved-IsKept repo before after t
                    (subst (IsWritten repo w.db (store_and_publish repo t w).1.db) same written) k
            ]
      ]

  stored-IsRight :
      (origin : repo.Db) (s : System repo.Db) (before after : List WebhookSubscription)
      (t : WebhookSubscription)
      → s.in_flight ≡ before ++ t ∷ after
      → IsRight origin s
      → IsRight origin
          (record { world = (store_and_publish repo t s.world).1; in_flight = before ++ after })
  stored-IsRight origin s before after t at r =
      let k =
        subst (IsKept repo origin r.roots s.world.db s.world.uuids s.world.made) at r.invariant in
      let (uuids, made) = store_and_publish-ids repo t s.world in
      let after_save : World repo.Db = (store_and_publish repo t s.world).1 in
      let kept = stored-IsKept origin r.roots s.world before after t k in
      record {
        roots = r.roots;
        invariant =
            subst
              (λ m. IsKept repo origin r.roots after_save.db after_save.uuids m (before ++ after))
              (sym made)
              (subst
                (λ u. IsKept repo origin r.roots after_save.db u s.world.made (before ++ after))
                (sym uuids) kept);
        distinct = subst (λ (u : ℕ → Text). (i j : ℕ) → u i ≡ u j → i ≡ j) (sym uuids) r.distinct;
      }

  Step-IsRight :
      {origin : repo.Db} {s u : System repo.Db}
      → Step repo s u
      → IsRight origin s
      → IsRight origin u
  Step-IsRight {origin} {s} (prepared request t h) r = prepared-IsRight origin s request t h r
  Step-IsRight {origin} {s} (refused request e h) r =
      let same = prepare-SameStore repo request s.world in
      same-IsRight origin r.roots s.world _ _ same r.distinct
        (later-IsKept repo _ same.made r.invariant)
  Step-IsRight {origin} {s} (stored before after t at) r =
      stored-IsRight origin s before after t at r

  Reach-IsRight :
      {origin : repo.Db} {s u : System repo.Db}
      → Reach repo s u
      → IsRight origin s
      → IsRight origin u
  Reach-IsRight here r = r
  Reach-IsRight (next before step) r = Step-IsRight step (Reach-IsRight before r)

  first_roots : repo.Db → Text → Text × Date
  first_roots db key = elim (repo.document db key) [ none ↦ ([], 0) | some doc ↦ root doc ]

  -- Creates, updates and deletes are under way together, and their steps interleave in any order. No
  -- two of the ids that will be made are equal, and there is no document yet under one. Then each
  -- document that there was at first is still there, with its tenant and its date of creation.
  pub Reach-keeps :
      (w : World repo.Db) (s : System repo.Db) (key : Text) (doc : SubscriptionRecord)
      → ((i j : ℕ) → w.uuids i ≡ w.uuids j → i ≡ j)
      → ((n : ℕ) → w.made ≤ n → repo.document w.db (w.uuids n) ≡ none)
      → Reach repo (record { world = w; in_flight = [] }) s
      → repo.document w.db key ≡ some doc
      → (now : SubscriptionRecord) × (repo.document s.world.db key ≡ some now)
        × (now.tenant_id ≡ doc.tenant_id)
        × (now.created_at ≡ doc.created_at)
  unfolding first_roots
  Reach-keeps w s key doc distinct unused reach held =
      let r = Reach-IsRight reach (record {
        roots = first_roots w.db;
        invariant = record {
          documents = λ key doc held. rw (first_roots, held) refl;
          flying = tt;
          unused = unused;
          kept = λ key doc held. (doc, held, refl);
        };
        distinct = distinct;
      }) in
      let (now, there, same) = r.invariant.kept key doc held in
      (now, there, ap (λ p. p.0) same, ap (λ p. p.1) same)
