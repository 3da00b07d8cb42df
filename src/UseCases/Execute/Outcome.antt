-- ===== src/UseCases/Execute/Outcome.antt =====
-- How a use case that stores a subscription ends: either it throws, and has published
-- nothing, or it stores one subscription, publishes its events, and returns it.
use webhook_idp.Persistence.{to_document}
use webhook_idp.Common.Text.{Text, ◌===◌}
use webhook_idp.Common.{
  ◌≤◌, ◌≡◌, refl, sym, ap, ◌∙◌, subst, ◌⊎◌, inl, inr, Bool, some, ◌++◌, arith, if◌then◌else◌,
}
use webhook_idp.Subscription.Aggregate.{WebhookSubscription, pull_domain_events}
use webhook_idp.UseCases.Ports.{Exception, SubscriptionRepository}
use webhook_idp.Subscription.TargetUrl.{UrlParser}
use webhook_idp.Common.Exec.{Result-cases, Result, ok, err}
use webhook_idp.Common.State.{Exec, continue, ◌>>=◌}
use webhook_idp.UseCases.Execute.{World, Action, store_and_publish}

-- The database and the published events are as before; the clock may have moved on, and ids may have
-- been taken from their source.
pub record SameStore {Db : Type 0} (a b : World Db) : Type 0 where
  pub db : a.db ≡ b.db
  pub published : a.published ≡ b.published
  pub uuids : a.uuids ≡ b.uuids
  pub made : a.made ≤ b.made

module _ {Db : Type 0} where
  pub SameStore-refl : (w : World Db) → SameStore w w
  SameStore-refl w = record { db = refl; published = refl; uuids = refl; made = omega arith }

  pub SameStore-trans : {u v w : World Db} → SameStore u v → SameStore v w → SameStore u w
  SameStore-trans a b = record {
    db = a.db ∙ b.db;
    published = a.published ∙ b.published;
    uuids = a.uuids ∙ b.uuids;
    made = omega (arith, a.made, b.made);
  }

module _ {Db A : Type 0} where
  -- From the world `w`, `m` stores and publishes nothing, and what it returns satisfies `P`.
  pub record Reads (P : A → Type 0) (m : Exec (World Db) Exception A) (w : World Db) : Type 0 where
    pub same : SameStore w (m w).1
    pub gives : (a : A) → (m w).0 ≡ ok a → P a

module _ {Db A B : Type 0} where
  continue-Reads :
      (Q : B → Type 0) (r : Result Exception A) (f : A → Exec (World Db) Exception B)
      (w w' : World Db)
      → SameStore w w'
      → ((a : A) → r ≡ ok a → Reads Q (f a) w')
      → Reads Q (λ _. continue r f w') w
  continue-Reads Q (ok a) f w w' s k = record {
    same = SameStore-trans s (k a refl).same;
    gives = (k a refl).gives;
  }
  continue-Reads Q (err e) f w w' s k = record { same = s; gives = λ a h. cc }

  pub Reads-bind :
      (P : A → Type 0) (Q : B → Type 0) (m : Exec (World Db) Exception A)
      (f : A → Exec (World Db) Exception B) (w : World Db)
      → Reads P m w
      → ((a : A) → P a → (w' : World Db) → SameStore w w' → Reads Q (f a) w')
      → Reads Q (m >>= f) w
  Reads-bind P Q m f w r k =
      let c =
        continue-Reads Q (m w).0 f w (m w).1 r.same (λ a h. k a (r.gives a h) (m w).1 r.same) in
      record { same = c.same; gives = c.gives }

module _ {is_valid_uuid : Text → Bool} {parse : UrlParser}
    (repo : SubscriptionRepository is_valid_uuid parse) where
  -- From `w`, `m` throws with nothing stored and nothing published, or it ends by storing a
  -- subscription that satisfies `P`.
  pub data Stores (P : WebhookSubscription → Type 0) (m : Action repo WebhookSubscription)
      (w : World repo.Db) : Type 0 where
    throws :
        (e : Exception) (w' : World repo.Db) → SameStore w w' → m w ≡ (err e, w') → Stores P m w
    stores :
        (s : WebhookSubscription) (w' : World repo.Db)
        → P s
        → SameStore w w'
        → m w ≡ store_and_publish repo s w'
        → Stores P m w

  pub Stores-at :
      (P : WebhookSubscription → Type 0) (m n : Action repo WebhookSubscription) (w : World repo.Db)
      → m w ≡ n w
      → Stores P m w
      → Stores P n w
  Stores-at P m n w h (throws e w' s q) = throws e w' s (sym h ∙ q)
  Stores-at P m n w h (stores t w' p s q) = stores t w' p s (sym h ∙ q)

  module _ {A : Type 0} where
    continue-Stores :
        (Q : WebhookSubscription → Type 0) (r : Result Exception A)
        (f : A → Action repo WebhookSubscription) (w w' : World repo.Db)
        → SameStore w w'
        → ((a : A) → r ≡ ok a → Stores Q (f a) w')
        → Stores Q (λ _. continue r f w') w
    continue-Stores Q (err e) f w w' s k = throws e w' s refl
    continue-Stores Q (ok a) f w w' s k = after (k a refl)
      where
        after : Stores Q (f a) w' → Stores Q (λ _. f a w') w
        after (throws e v t q) = throws e v (SameStore-trans s t) q
        after (stores u v p t q) = stores u v p (SameStore-trans s t) q

    pub Stores-bind :
        (P : A → Type 0) (Q : WebhookSubscription → Type 0) (m : Action repo A)
        (f : A → Action repo WebhookSubscription) (w : World repo.Db)
        → Reads P m w
        → ((a : A) → P a → (w' : World repo.Db) → SameStore w w' → Stores Q (f a) w')
        → Stores Q (m >>= f) w
    Stores-bind P Q m f w r k =
        Stores-at Q (λ _. continue (m w).0 f (m w).1) (m >>= f) w refl
          (continue-Stores Q (m w).0 f w (m w).1 r.same (λ a h. k a (r.gives a h) (m w).1 r.same))

  pub Stores-here :
      (P : WebhookSubscription → Type 0) (s : WebhookSubscription) (w : World repo.Db)
      → P s
      → Stores P (store_and_publish repo s) w
  Stores-here P s w p = stores s w p (SameStore-refl w) refl

  -- What `store_and_publish` does, by the law of `save`.
  pub store_and_publish-ok :
      (s t : WebhookSubscription) (w : World repo.Db)
      → (store_and_publish repo s w).0 ≡ ok t
      → (t ≡ (pull_domain_events s).1)
        × ((store_and_publish repo s w).1.published ≡ w.published ++ s.domain_events)
        × ((store_and_publish repo s w).1.db ≡ (repo.save s w.db).1)
        × ((repo.save s w.db).0 ≡ ok tt)
  unfolding store_and_publish pull_domain_events
  store_and_publish-ok s t w h = elim (Result-cases (repo.save s w.db).0) [
    | inl (a, saved) ↦ ground arith
    | inr (e, refused) ↦ ground arith
  ]

  pub store_and_publish-ids :
      (s : WebhookSubscription) (w : World repo.Db)
      → ((store_and_publish repo s w).1.uuids ≡ w.uuids)
        × ((store_and_publish repo s w).1.made ≡ w.made)
  unfolding store_and_publish
  store_and_publish-ids s w = elim (Result-cases (repo.save s w.db).0) [
    | inl (a, saved) ↦ rw saved (refl, refl)
    | inr (e, failed) ↦ rw failed (refl, refl)
  ]

  pub store_and_publish-saves :
      (s : WebhookSubscription) (w : World repo.Db)
      → (store_and_publish repo s w).1.db ≡ (repo.save s w.db).1
  unfolding store_and_publish
  store_and_publish-saves s w = elim (Result-cases (repo.save s w.db).0) [
    | inl (a, saved) ↦ rw saved refl
    | inr (e, failed) ↦ rw failed refl
  ]

  -- The documents are as before, but for that of the subscription, which is written.
  abbrev pub IsWritten : repo.Db → repo.Db → WebhookSubscription → Type 0
  IsWritten before after s =
      (key : Text)
      → repo.document after key
        ≡ (if key === s.id.value then some (to_document s) else repo.document before key)

  -- What a run that throws leaves behind: nothing is published, and either the documents are as
  -- before, or one is written, that of a subscription with `P`.
  pub record IsLeft (P : WebhookSubscription → Type 0) (w w' : World repo.Db) : Type 0 where
    pub published : w.published ≡ w'.published
    pub uuids : w.uuids ≡ w'.uuids
    pub made : w.made ≤ w'.made
    pub documents :
        ((key : Text) → repo.document w'.db key ≡ repo.document w.db key)
        ⊎ ((s : WebhookSubscription) × P s × IsWritten w.db w'.db s)

  pub SameStore-IsLeft :
      (P : WebhookSubscription → Type 0) (w w' : World repo.Db) → SameStore w w' → IsLeft P w w'
  SameStore-IsLeft P w w' same = record {
    published = same.published;
    uuids = same.uuids;
    made = same.made;
    documents = inl (λ key. ap (λ db. repo.document db key) (sym same.db));
  }

  pub IsLeft-weaken :
      (P Q : WebhookSubscription → Type 0) (w w' : World repo.Db)
      → ((s : WebhookSubscription) → P s → Q s)
      → IsLeft P w w'
      → IsLeft Q w w'
  IsLeft-weaken P Q w w' k left = record {
    published = left.published;
    uuids = left.uuids;
    made = left.made;
    documents = elim left.documents [
      | inl same ↦ inl same
      | inr (s, p, written) ↦ inr (s, k s p, written)
    ];
  }

  written_after :
      (P : WebhookSubscription → Type 0) (w v w' : World repo.Db)
      → SameStore w v
      → IsLeft P v w'
      → IsLeft P w w'
  written_after P w v w' same left = record {
    published = same.published ∙ left.published;
    uuids = same.uuids ∙ left.uuids;
    made = omega (arith, same.made, left.made);
    documents =
        subst
          (λ db.
            ((key : Text) → repo.document w'.db key ≡ repo.document db key)
            ⊎ ((s : WebhookSubscription) × P s × IsWritten db w'.db s))
          (sym same.db) left.documents;
  }

  pub store_and_publish-err :
      (P : WebhookSubscription → Type 0) (s : WebhookSubscription) (w : World repo.Db)
      (e : Exception)
      → P s
      → (store_and_publish repo s w).0 ≡ err e
      → IsLeft P w (store_and_publish repo s w).1
  unfolding store_and_publish
  store_and_publish-err P s w e p h = elim (Result-cases (repo.save s w.db).0) [
    | inl (a, saved) ↦ absurd (ground arith)
    | inr (e, refused) ↦ rw refused (record {
      published = refl;
      uuids = refl;
      made = omega arith;
      documents = elim (repo.save-whole s w.db e refused) [
        | inl same ↦ inl same
        | inr written ↦ inr (s, p, written)
      ];
    })
  ]

  -- What a caller sees of a use case that stores a subscription satisfying `P`.
  pub record Outcome (P : WebhookSubscription → Type 0) (m : Action repo WebhookSubscription)
      (w : World repo.Db) : Type 0 where
    -- If it throws, nothing is published, and at most a document of a subscription with `P` is
    -- written.
    pub on_throw : (e : Exception) → (m w).0 ≡ err e → IsLeft P w (m w).1
    -- If it returns, one document was written, that of a subscription with `P`; the events that it
    -- had recorded were published, and it was returned without them.
    pub on_return :
        (t : WebhookSubscription)
        → (m w).0 ≡ ok t
        → (s : WebhookSubscription) × P s
          × (t ≡ (pull_domain_events s).1)
          × ((m w).1.published ≡ w.published ++ s.domain_events)
          × IsWritten w.db (m w).1.db s

  pub Stores-Outcome :
      (P : WebhookSubscription → Type 0) (m : Action repo WebhookSubscription) (w : World repo.Db)
      → Stores P m w
      → Outcome P m w
  Stores-Outcome P m w (throws e v same h) = record {
    on_throw = λ e' h'. rw h (SameStore-IsLeft P w v same);
    on_return = λ t h'. absurd (ground arith);
  }
  Stores-Outcome P m w (stores s v p same h) = record {
    on_throw = λ e h'.
        rw h (
          written_after P w v _ same
            (store_and_publish-err P s v e p (sym (ap (λ r. r.0) h) ∙ h')));
    on_return = λ t h'.
        let (drained, published, db, saved) =
          store_and_publish-ok s t v (sym (ap (λ r. r.0) h) ∙ h') in
        (
          s,
          p,
          drained,
          rw h (published ∙ ap (λ l. l ++ s.domain_events) (sym same.published)),
          (λ key. rw (h, db, same.db) (repo.save-document s v.db key saved)),
        );
  }
