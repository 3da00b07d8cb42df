-- ===== src/UseCases/Interleaving/Roots.antt =====
-- The root of a subscription, carried along the steps of the requests.
use webhook_idp.Common.{
  ℕ, ◌+◌, ◌≤◌, ◌≡◌, refl, sym, ap, ◌∙◌, ◌≢◌, inl, inr, Bool, none, some, List, [], ◌∷◌, ◌++◌, arith,
  All, All-append, All-map, All-split, Bool-cases, if◌then◌else◌,
}
use webhook_idp.Common.Text.{Text, ◌===◌, ===_iff, ===_refl}
use webhook_idp.Subscription.Events.{Date}
use webhook_idp.Subscription.Aggregate.{WebhookSubscription}
use webhook_idp.Subscription.TargetUrl.{UrlParser}
use webhook_idp.Persistence.{SubscriptionRecord, to_document}
use webhook_idp.UseCases.Ports.{SubscriptionRepository}
use webhook_idp.UseCases.Interleaving.Prepared.{root, IsRooted}

-- `roots`, with the root of one more subscription.
abbrev pub extended : (Text → Text × Date) → WebhookSubscription → Text → Text × Date
extended roots t key = if key === t.id.value then root (to_document t) else roots key

extended_same :
    (roots : Text → Text × Date) (t : WebhookSubscription)
    → extended roots t t.id.value ≡ root (to_document t)
extended_same roots t = rw (===_refl t.id.value) refl

extended_other :
    (roots : Text → Text × Date) (t : WebhookSubscription) (key : Text)
    → key ≢ t.id.value
    → extended roots t key ≡ roots key
extended_other roots t key h = elim (Bool-cases (key === t.id.value)) [
  | inl e ↦ absurd (h ((===_iff key t.id.value).0 e))
  | inr e ↦ rw e refl
]

some_ne_none : {A : Type 0} {a : A} → some a ≢ none
some_ne_none h = cc

some_inj : {A : Type 0} {a b : A} → some a ≡ some b → a ≡ b
some_inj h = cc h

module _ {is_valid_uuid : Text → Bool} {parse : UrlParser}
    (repo : SubscriptionRepository is_valid_uuid parse) where
  -- Between the database at first, `origin`, and one of a later moment, with the source of ids and
  -- the subscriptions in flight: `roots` tells the root of each id that is in use.
  pub record IsKept (origin : repo.Db) (roots : Text → Text × Date) (db : repo.Db)
      (uuids : ℕ → Text) (made : ℕ) (flights : List WebhookSubscription) : Type 0 where
    pub documents :
        (key : Text) (doc : SubscriptionRecord)
        → repo.document db key ≡ some doc
        → root doc ≡ roots key
    pub flying :
        All
          (λ t.
            (root (to_document t) ≡ roots t.id.value) × ((n : ℕ) → made ≤ n → t.id.value ≢ uuids n))
          flights
    pub unused : (n : ℕ) → made ≤ n → repo.document db (uuids n) ≡ none
    pub kept :
        (key : Text) (doc : SubscriptionRecord)
        → repo.document origin key ≡ some doc
        → (now : SubscriptionRecord) × (repo.document db key ≡ some now) × (root now ≡ root doc)

  module _ {origin : repo.Db} {roots : Text → Text × Date} where
    pub later-IsKept :
        {db : repo.Db} {uuids : ℕ → Text} {made : ℕ} {flights : List WebhookSubscription}
        (made' : ℕ)
        → made ≤ made'
        → IsKept origin roots db uuids made flights
        → IsKept origin roots db uuids made' flights
    later-IsKept {flights = flights} made' later k = record {
      documents = k.documents;
      flying =
          All-map _ _ flights (λ t (same, p). (same, λ n h. p n (omega (arith, later, h))))
            k.flying;
      unused = λ n h. k.unused n (omega (arith, later, h));
      kept = k.kept;
    }

    pub rooted-IsKept :
        {db : repo.Db} {uuids : ℕ → Text} {made : ℕ} {flights : List WebhookSubscription}
        (t : WebhookSubscription)
        → IsRooted repo db t
        → IsKept origin roots db uuids made flights
        → IsKept origin roots db uuids made (flights ++ t ∷ [])
    unfolding IsRooted
    rooted-IsKept {db} {uuids} {made} {flights} t (doc, held, same) k = record {
      documents = k.documents;
      flying = All-append _ flights (t ∷ []) k.flying (
        (
          same ∙ k.documents t.id.value doc held,
          (λ n h e. some_ne_none (sym held ∙ (ap (repo.document db) e ∙ k.unused n h))),
        ),
        tt,
      );
      unused = k.unused;
      kept = k.kept;
    }

    pub new-IsKept :
        {db : repo.Db} {uuids : ℕ → Text} {made : ℕ} {flights : List WebhookSubscription}
        (t : WebhookSubscription)
        → ((i j : ℕ) → uuids i ≡ uuids j → i ≡ j)
        → t.id.value ≡ uuids made
        → IsKept origin roots db uuids made flights
        → IsKept origin (extended roots t) db uuids (made + 1) (flights ++ t ∷ [])
    new-IsKept {db} {uuids} {made} {flights} t distinct id k = record {
      documents = λ key doc held.
          k.documents key doc held
          ∙ sym (
              extended_other roots t key λ e.
                some_ne_none
                  (sym held ∙ (ap (repo.document db) (e ∙ id) ∙ k.unused made (omega arith))));
      flying =
          All-append _ flights (t ∷ [])
            (All-map _ _ flights
              (λ u (same, p). (
                same ∙ sym (extended_other roots t u.id.value (λ e. p made (omega arith) (e ∙ id))),
                (λ n h. p n (omega (arith, h))),
              ))
              k.flying)
            (
              (
                sym (extended_same roots t),
                (λ n h e. let same = distinct made n (sym id ∙ e) in omega (arith, h, same)),
              ),
              tt,
            );
      unused = λ n h. k.unused n (omega (arith, h));
      kept = k.kept;
    }

    pub dropped-IsKept :
        {db : repo.Db} {uuids : ℕ → Text} {made : ℕ} (before after : List WebhookSubscription)
        (t : WebhookSubscription)
        → IsKept origin roots db uuids made (before ++ t ∷ after)
        → IsKept origin roots db uuids made (before ++ after)
    dropped-IsKept before after t k = record {
      documents = k.documents;
      flying =
          let (a, (_, b)) = All-split _ before (t ∷ after) k.flying in
          All-append _ before after a b;
      unused = k.unused;
      kept = k.kept;
    }

    pub same_documents-IsKept :
        {db db' : repo.Db} {uuids : ℕ → Text} {made : ℕ} {flights : List WebhookSubscription}
        → ((key : Text) → repo.document db' key ≡ repo.document db key)
        → IsKept origin roots db uuids made flights
        → IsKept origin roots db' uuids made flights
    same_documents-IsKept same k = record {
      documents = λ key doc held. k.documents key doc (sym (same key) ∙ held);
      flying = k.flying;
      unused = λ n h. same _ ∙ k.unused n h;
      kept = λ key doc held.
          let (now, there, rooted) = k.kept key doc held in (now, same key ∙ there, rooted);
    }

    pub saved-IsKept :
        {db db' : repo.Db} {uuids : ℕ → Text} {made : ℕ} (before after : List WebhookSubscription)
        (t : WebhookSubscription)
        → ((key : Text)
            → repo.document db' key
              ≡ (if key === t.id.value then some (to_document t) else repo.document db key))
        → IsKept origin roots db uuids made (before ++ t ∷ after)
        → IsKept origin roots db' uuids made (before ++ after)
    saved-IsKept {db} {db'} {uuids} {made} before after t written k =
        let (_, ((same, new), _)) = All-split _ before (t ∷ after) k.flying in
        let rest = dropped-IsKept before after t k in
        record {
          documents = λ key doc held. elim (Bool-cases (key === t.id.value)) [
            | inl e ↦
                let is_doc : to_document t ≡ doc =
                  some_inj (sym (written key ∙ rw e refl) ∙ held) in
                ap root (sym is_doc) ∙ (same ∙ ap roots (sym ((===_iff key t.id.value).0 e)))
            | inr e ↦ k.documents key doc (sym (written key ∙ rw e refl) ∙ held)
          ];
          flying = rest.flying;
          unused = λ n h. written (uuids n) ∙ elim (Bool-cases (uuids n === t.id.value)) [
            | inl e ↦ absurd (new n h (sym ((===_iff (uuids n) t.id.value).0 e)))
            | inr e ↦ rw e (k.unused n h)
          ];
          kept = λ key doc held.
              let (now, there, rooted) = k.kept key doc held in
              elim (Bool-cases (key === t.id.value)) [
                | inl e ↦ (
                  to_document t,
                  written key ∙ rw e refl,
                  same
                      ∙ (ap roots (sym ((===_iff key t.id.value).0 e))
                          ∙ (sym (k.documents key now there) ∙ rooted)),
                )
                | inr e ↦ (now, written key ∙ (rw e there), rooted)
              ];
        }
