-- ===== src/Presentation/Controller/Refusals.antt =====
-- What a request that is refused leaves behind.
use webhook_idp.Common.{◌≡◌, inl, inr, Bool, none, arith}
use webhook_idp.Common.Text.{Text}
use webhook_idp.Common.Exec.{Result, ok, err, map_err, Result-cases}
use webhook_idp.Common.State.{Exec, lift, pure, ◌>>=◌}
use webhook_idp.Subscription.TargetUrl.{UrlParser}
use webhook_idp.UseCases.Ports.{SubscriptionRepository, Exception, domain}
use webhook_idp.UseCases.Execute.{
  World, Action, use_case_functions, list_execute, ListSubscriptionsInput,
}
use webhook_idp.UseCases.Execute.Outcome.{
  SameStore, SameStore-refl, IsLeft, SameStore-IsLeft, IsLeft-weaken,
}
use webhook_idp.UseCases.Execute.Found.{find_existing-Reads, domain_step-bind}
use webhook_idp.UseCases.Guarantees.{execute_atomic}
use webhook_idp.Subscription.ValueObjects.{tenant_id_from_string}
use webhook_idp.UseCases.Execute.{find_existing}
use webhook_idp.Presentation.Identity.{Headers}
use webhook_idp.Presentation.Responses.{Thrown, use_case, http, envelope}
use webhook_idp.Presentation.Masking.{Random}
use webhook_idp.Presentation.Requests.{
  Framework, Attached, current_identity, current_pagination, event_type_filter, Call, post, get_all,
  get_one, patch, remove,
}
use webhook_idp.Presentation.Controller.{
  paginate, run, serve, guard, dispatch, request_handler, create_handler, list_handler,
  get_by_id_handler, update_handler, delete_handler,
}

module _ {is_valid_uuid : Text → Bool} {parse : UrlParser}
    (repo : SubscriptionRepository is_valid_uuid parse) where
  -- A run that throws publishes nothing and writes at most one document.
  abbrev IsAtomic : {A : Type 0} → Exec (World repo.Db) Thrown A → Type 0
  IsAtomic m =
      (w : World repo.Db) (e : Thrown) → (m w).0 ≡ err e → IsLeft repo (λ _. Unit {0}) w (m w).1

  same-IsLeft : (w w' : World repo.Db) → SameStore w w' → IsLeft repo (λ _. Unit {0}) w w'
  same-IsLeft w w' same = SameStore-IsLeft repo (λ _. Unit {0}) w w' same

  module _ {A B : Type 0} where
    lift-IsAtomic :
        (r : Result Thrown A) (f : A → Exec (World repo.Db) Thrown B)
        → ((a : A) → IsAtomic (f a))
        → IsAtomic (lift r >>= f)
    lift-IsAtomic (ok a) f k w e h = k a w e h
    lift-IsAtomic (err x) f k w e h = same-IsLeft w w (SameStore-refl w)

    -- A run followed by what always returns.
    pure-IsAtomic :
        (m : Exec (World repo.Db) Thrown A) (f : A → B)
        → IsAtomic m
        → IsAtomic (m >>= λ a. pure (f a))
    pure-IsAtomic m f k w e h = elim (Result-cases (m w).0) [
      | inl (a, returned) ↦ absurd (ground arith)
      | inr (x, thrown) ↦ rw thrown (k w x thrown)
    ]

  run-IsAtomic :
      {A : Type 0} (m : Action repo A)
      → ((w : World repo.Db) (e : Exception)
          → (m w).0 ≡ err e
          → IsLeft repo (λ _. Unit {0}) w (m w).1)
      → IsAtomic (run repo m)
  run-IsAtomic m k w e h = elim (Result-cases (m w).0) [
    | inl (a, returned) ↦ absurd (ground arith)
    | inr (x, thrown) ↦ k w x thrown
  ]

  list_execute-same :
      (input : ListSubscriptionsInput) (w : World repo.Db)
      → SameStore w (list_execute repo input w).1
  unfolding use_case_functions
  list_execute-same input w =
      (domain_step-bind (λ _. Unit {0}) (tenant_id_from_string input.tenant_id) _ w
        λ tenant accepted. record { same = SameStore-refl w; gives = λ b h. tt }).same

  find_existing-same :
      (id tenant : Text) (w : World repo.Db) → SameStore w (find_existing repo id tenant w).1
  find_existing-same id tenant w = (find_existing-Reads repo id tenant w).same

  module _ (framework : Framework) where
    dispatch-IsAtomic :
        (call : Call framework) (request : Attached)
        → IsAtomic (dispatch repo framework call request)
    unfolding dispatch use_case_functions create_handler list_handler get_by_id_handler
        update_handler delete_handler
    dispatch-IsAtomic (post raw) request = lift-IsAtomic (current_identity request) _ λ identity.
        lift-IsAtomic (map_err http (framework.validate_create raw)) _ λ body. pure-IsAtomic _ _ (
          pure-IsAtomic _ _ (
            run-IsAtomic _
              λ w e h. IsLeft-weaken repo _ _ w _ (λ s p. tt) ((execute_atomic repo w e).0 _ h)))
    dispatch-IsAtomic (get_all raw) request =
        lift-IsAtomic (paginate repo framework raw request) _ λ paginated.
          lift-IsAtomic (current_identity paginated) _ λ identity.
            lift-IsAtomic (map_err http (framework.validate_list raw)) _ λ query.
              lift-IsAtomic (current_pagination paginated) _ λ pagination. pure-IsAtomic _ _ (
                lift-IsAtomic
                  (map_err (λ e. use_case (domain e)) (event_type_filter query.event_type)) _
                  λ type.
                    pure-IsAtomic _ _
                      (run-IsAtomic _ λ w e h. same-IsLeft w _ (list_execute-same _ w)))
    dispatch-IsAtomic (get_one id) request = lift-IsAtomic (current_identity request) _ λ identity.
        pure-IsAtomic _ _
          (pure-IsAtomic _ _ (run-IsAtomic _ λ w e h. same-IsLeft w _ (find_existing-same id _ w)))
    dispatch-IsAtomic (patch id raw) request =
        lift-IsAtomic (current_identity request) _ λ identity.
          lift-IsAtomic (map_err http (framework.validate_update raw)) _ λ body. pure-IsAtomic _ _ (
            pure-IsAtomic _ _ (
              run-IsAtomic _
                λ w e h. IsLeft-weaken repo _ _ w _ (λ s p. tt) ((execute_atomic repo w e).1 _ h)))
    dispatch-IsAtomic (remove id) request = lift-IsAtomic (current_identity request) _ λ identity.
        pure-IsAtomic _ _ (
          pure-IsAtomic _ _ (
            run-IsAtomic _
              λ w e h. IsLeft-weaken repo _ _ w _ (λ s p. tt) ((execute_atomic repo w e).2 _ h)))

    request_handler-IsAtomic :
        (random : Random) (headers : Headers) (call : Call framework)
        → IsAtomic (request_handler repo framework random headers call)
    unfolding request_handler
    request_handler-IsAtomic random headers call =
        lift-IsAtomic (guard repo framework headers) _ λ request.
          pure-IsAtomic (dispatch repo framework call request) _ (dispatch-IsAtomic call request)

    -- Whatever the request, if the response carries no data, then no event was published, and the
    -- documents are as they were, or one subscription's document was written whole and no other, as
    -- where the reply to a save was lost.
    pub serve-refused :
        (random : Random) (headers : Headers) (call : Call framework) (w : World repo.Db)
        → (serve repo framework random headers call w).0.1.data_value ≡ none
        → IsLeft repo (λ _. Unit {0}) w (serve repo framework random headers call w).1
    unfolding serve envelope
    serve-refused random headers call w h =
        let handler = request_handler repo framework random headers call in
        elim (Result-cases (handler w).0) [
          | inl (d, returned) ↦ absurd (ground arith)
          | inr (e, thrown) ↦ request_handler-IsAtomic random headers call w e thrown
        ]
