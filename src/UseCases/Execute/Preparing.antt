-- ===== src/UseCases/Execute/Preparing.antt =====
-- What an update and a delete have read and changed up to the save.
use webhook_idp.UseCases.Ports.{Exception, SubscriptionRepository}
use webhook_idp.Subscription.Aggregate.{WebhookSubscription}
use webhook_idp.Subscription.TargetUrl.{UrlParser, target_url_from_string}
use webhook_idp.Subscription.Events.{Clock}
use webhook_idp.Subscription.ValueObjects.{
  SubscriptionStatus, active, paused, deleted, event_type_from_string,
}
use webhook_idp.Common.Text.{Text}
use webhook_idp.Common.Exec.{Result, ok, err, map_result}
use webhook_idp.Common.{◌≡◌, subst, Bool, List, arith}
use webhook_idp.Subscription.Aggregate.Methods.{Command, perform}
use webhook_idp.UseCases.Execute.{
  World, call, apply_target_url, apply_event_types, apply_status, no_transition, delete_prepare,
  Field, undefined, null, given, update_prepare, DeleteSubscriptionInput, UpdateSubscriptionInput,
}
use webhook_idp.UseCases.Execute.Outcome.{SameStore-refl, Reads, Reads-bind}
use webhook_idp.UseCases.Execute.Found.{IsFound, find_existing-Reads, call-Reads, domain_step-bind}
use webhook_idp.UseCases.Execute.Revised.{Revised, same, called}

ok_path :
    {A : Type 0} (P : A → Type 0) {a b : A} → ◌≡◌ {A = Result Exception A} (ok a) (ok b) → P a → P b
ok_path P h p = subst P (ground arith) p

module _ {Db : Type 0} where
  pure-Reads :
      {A : Type 0} (Q : A → Type 0) (a : A) (w : World Db)
      → Q a
      → Reads {Db = Db} Q (λ v. (ok a, v)) w
  pure-Reads Q a w q = record { same = SameStore-refl w; gives = λ b h. ok_path Q h q }

  throw-Reads :
      {A : Type 0} (Q : A → Type 0) (e : Exception) (w : World Db)
      → Reads {Db = Db} Q (λ v. (err e, v)) w
  throw-Reads Q e w = record { same = SameStore-refl w; gives = λ b h. absurd (ground arith) }

  call-Revised :
      (c : Command) (a s : WebhookSubscription) (w : World Db)
      → Revised a s
      → Reads (Revised a) (call (perform c) s) w
  call-Revised c a s w r =
      let reads = call-Reads (perform c) s w in
      record {
        same = reads.same;
        gives = λ b h.
            let (done, result) = reads.gives b h in
            subst (Revised a) result (called c w.clock r done);
      }

module _ {is_valid_uuid : Text → Bool} {parse : UrlParser}
    (repo : SubscriptionRepository is_valid_uuid parse) where
  -- A subscription of the tenant, found under the id and revised.
  pub record IsRevision (db : repo.Db) (id tenant : Text) (s : WebhookSubscription) : Type 0 where
    pub before : WebhookSubscription
    pub found : IsFound repo db id tenant before
    pub revised : Revised before s

  apply_target_url-Reads :
      (text : Field Text) (a s : WebhookSubscription) (w : World repo.Db)
      → Revised a s
      → Reads (Revised a) (apply_target_url repo text s) w
  unfolding apply_target_url perform
  apply_target_url-Reads null a s w r = throw-Reads (Revised a) _ w
  apply_target_url-Reads undefined a s w r = pure-Reads (Revised a) s w r
  apply_target_url-Reads (given text) a s w r =
      domain_step-bind (Revised a) (target_url_from_string parse text) _ w
        λ url h. call-Revised (Command.update_target_url url) a s w r

  apply_event_types-Reads :
      (texts : Field (List Text)) (a s : WebhookSubscription) (w : World repo.Db)
      → Revised a s
      → Reads (Revised a) (apply_event_types repo texts s) w
  unfolding apply_event_types perform
  apply_event_types-Reads null a s w r = throw-Reads (Revised a) _ w
  apply_event_types-Reads undefined a s w r = pure-Reads (Revised a) s w r
  apply_event_types-Reads (given texts) a s w r =
      domain_step-bind (Revised a) (map_result event_type_from_string texts) _ w
        λ types h. call-Revised (Command.update_subscribed_event_types types) a s w r

  apply_status-Reads :
      (status : Field SubscriptionStatus) (a s : WebhookSubscription) (w : World repo.Db)
      → Revised a s
      → Reads (Revised a) (apply_status repo status s) w
  unfolding apply_status no_transition perform
  apply_status-Reads null a s w r = throw-Reads (Revised a) _ w
  apply_status-Reads undefined a s w r = pure-Reads (Revised a) s w r
  apply_status-Reads (given active) a s w r = call-Revised Command.resume a s w r
  apply_status-Reads (given paused) a s w r = call-Revised Command.pause a s w r
  apply_status-Reads (given deleted) a s w r = throw-Reads (Revised a) _ w

  pub update_prepare-Reads :
      (input : UpdateSubscriptionInput) (w : World repo.Db)
      → Reads (IsRevision w.db input.id input.tenant_id) (update_prepare repo input) w
  unfolding update_prepare
  update_prepare-Reads input w =
      Reads-bind _ Q _ _ w (find_existing-Reads repo input.id input.tenant_id w) λ s f w₁ _.
        Reads-bind _ Q _ _ w₁ (apply_target_url-Reads input.target_url s s w₁ same) λ s₁ r₁ w₂ _.
          Reads-bind _ Q _ _ w₂ (apply_event_types-Reads input.event_types s s₁ w₂ r₁) λ s₂ r₂ w₃ _.
            let reads = apply_status-Reads input.status s s₂ w₃ r₂ in
            record {
              same = reads.same;
              gives = λ s₃ h. record { before = s; found = f; revised = reads.gives s₃ h };
            }
    where
      Q : WebhookSubscription → Type 0
      Q = IsRevision w.db input.id input.tenant_id

  -- The tenant's subscription under the id, after its `delete`.
  pub record IsDeletion (db : repo.Db) (id tenant : Text) (s : WebhookSubscription) : Type 0 where
    pub before : WebhookSubscription
    pub found : IsFound repo db id tenant before
    pub clock : Clock
    pub deletion : (perform Command.delete (record { self = before; clock = clock })).1.self ≡ s

  pub delete_prepare-Reads :
      (input : DeleteSubscriptionInput) (w : World repo.Db)
      → Reads (IsDeletion w.db input.id input.tenant_id) (delete_prepare repo input) w
  unfolding delete_prepare perform
  delete_prepare-Reads input w =
      Reads-bind _ Q _ _ w (find_existing-Reads repo input.id input.tenant_id w) λ s f w₁ _.
        let reads = call-Reads (perform Command.delete) s w₁ in
        record {
          same = reads.same;
          gives = λ s₁ h. record {
            before = s;
            found = f;
            clock = w₁.clock;
            deletion = (reads.gives s₁ h).1;
          };
        }
    where
      Q : WebhookSubscription → Type 0
      Q = IsDeletion w.db input.id input.tenant_id
