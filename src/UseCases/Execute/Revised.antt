-- ===== src/UseCases/Execute/Revised.antt =====
-- A subscription after calls of its methods.
use webhook_idp.Subscription.Aggregate.{WebhookSubscription}
use webhook_idp.Subscription.Events.{Clock}
use webhook_idp.Common.Exec.{ok}
use webhook_idp.Common.{◌≡◌, refl, ◌∙◌}
use webhook_idp.Subscription.Aggregate.Lifecycle.{
  SameOrigin, Reach, here, next, perform-SameOrigin, perform-Transition,
}
use webhook_idp.Subscription.Aggregate.Methods.{Command, perform}

-- `b` is `a` after successful calls of its methods.
pub data Revised (a : WebhookSubscription) : WebhookSubscription → Type 0 where
  same : Revised a a
  called :
      {b : WebhookSubscription} (c : Command) (clock : Clock)
      → Revised a b
      → (perform c (record { self = b; clock = clock })).0 ≡ ok tt
      → Revised a (perform c (record { self = b; clock = clock })).1.self

pub Revised-SameOrigin : {a b : WebhookSubscription} → Revised a b → SameOrigin a b
Revised-SameOrigin same = record {
  id = refl;
  tenant_id = refl;
  client = refl;
  user = refl;
  created_at = refl;
}
Revised-SameOrigin (called {b = b} c clock r done) =
    let x = Revised-SameOrigin r in
    let y = perform-SameOrigin c (record { self = b; clock = clock }) in
    record {
      id = x.id ∙ y.id;
      tenant_id = x.tenant_id ∙ y.tenant_id;
      client = x.client ∙ y.client;
      user = x.user ∙ y.user;
      created_at = x.created_at ∙ y.created_at;
    }

pub Revised-Reach : {a b : WebhookSubscription} → Revised a b → Reach a.status b.status
Revised-Reach same = here
Revised-Reach (called {b = b} c clock r done) =
    next (Revised-Reach r) (perform-Transition c (record { self = b; clock = clock }))
