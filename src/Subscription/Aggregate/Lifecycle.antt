-- ===== src/Subscription/Aggregate/Lifecycle.antt =====
-- The life of a subscription as a state machine.
use webhook_idp.Common.{◌≡◌, refl, arith, List, [], ◌∷◌, ap, ◌∙◌}
use mathlib.Core.List.{foldl}
use webhook_idp.Common.Exec.{ok}
use webhook_idp.Subscription.ValueObjects.{SubscriptionStatus, active, paused, deleted}
use webhook_idp.Subscription.Aggregate.{WebhookSubscription, Held}
use webhook_idp.Subscription.Aggregate.Methods.{Command, pause, resume, delete, perform}

-- Calls in a row, by a caller that goes on after an exception.
unfoldable pub run : List Command → Held → Held
run [] s = s
run (c ∷ cs) s = run cs (perform c s).1

-- The arrows of the state diagram, and the calls that stay.
pub data Transition : SubscriptionStatus → SubscriptionStatus → Type 0 where
  pausing : Transition active paused
  resuming : Transition paused active
  deleting_active : Transition active deleted
  deleting_paused : Transition paused deleted
  staying : (status : SubscriptionStatus) → Transition status status

pub data Reach (a : SubscriptionStatus) : SubscriptionStatus → Type 0 where
  here : Reach a a
  next : {b c : SubscriptionStatus} → Reach a b → Transition b c → Reach a c

-- What no method writes.
pub record SameOrigin (a b : WebhookSubscription) : Type 0 where
  pub id : a.id ≡ b.id
  pub tenant_id : a.tenant_id ≡ b.tenant_id
  pub client : a.created_by_client_id ≡ b.created_by_client_id
  pub user : a.created_by_user_id ≡ b.created_by_user_id
  pub created_at : a.created_at ≡ b.created_at

pub perform-SameOrigin : (c : Command) (s : Held) → SameOrigin s.self (perform c s).1.self
unfolding perform
perform-SameOrigin pause s = ground arith
perform-SameOrigin _ s = ground arith

-- The state machine of the diagram: what each call makes of each status.
unfoldable pub after : SubscriptionStatus → Command → SubscriptionStatus
after active pause = paused
after paused resume = active
after status delete = deleted
after status _ = status

after-Transition : (status : SubscriptionStatus) (c : Command) → Transition status (after status c)
unfolding after
after-Transition active pause = pausing
after-Transition paused resume = resuming
after-Transition active delete = deleting_active
after-Transition paused delete = deleting_paused
after-Transition deleted delete = staying deleted
after-Transition status _ = staying _

status-perform : (c : Command) (s : Held) → (perform c s).1.self.status ≡ after s.self.status c
unfolding perform after
status-perform pause s = ground arith
status-perform _ s = ground arith

pub perform-Transition :
    (c : Command) (s : Held) → Transition s.self.status (perform c s).1.self.status
perform-Transition c s = rw status-perform (after-Transition s.self.status c)

-- The status after any calls, whether they throw or not, is what the state machine of the diagram
-- makes of them.
pub status-run :
    (cs : List Command) (s : Held) → (run cs s).self.status ≡ foldl after s.self.status cs
unfolding run
status-run [] s = refl
status-run (c ∷ cs) s =
    status-run cs (perform c s).1 ∙ ap (λ status. foldl after status cs) (status-perform c s)

foldl-Reach :
    (a b : SubscriptionStatus) (cs : List Command) → Reach a b → Reach a (foldl after b cs)
foldl-Reach a b [] r = r
foldl-Reach a b (c ∷ cs) r = foldl-Reach a (after b c) cs (next r (after-Transition b c))

-- The status after any calls is reached from the first along the arrows of the diagram: from ACTIVE
-- to PAUSED and back, from both to DELETED, and never out of DELETED.
pub run-Reach : (cs : List Command) (s : Held) → Reach s.self.status (run cs s).self.status
run-Reach cs s = rw status-run (foldl-Reach s.self.status s.self.status cs here)

SameOrigin-run : (cs : List Command) (s : Held) → SameOrigin s.self (run cs s).self
unfolding run
SameOrigin-run [] s = record {
  id = refl;
  tenant_id = refl;
  client = refl;
  user = refl;
  created_at = refl;
}
SameOrigin-run (c ∷ cs) s =
    let a = perform-SameOrigin c s in
    let b = SameOrigin-run cs (perform c s).1 in
    record {
      id = a.id ∙ b.id;
      tenant_id = a.tenant_id ∙ b.tenant_id;
      client = a.client ∙ b.client;
      user = a.user ∙ b.user;
      created_at = a.created_at ∙ b.created_at;
    }

perform_deleted : (c : Command) (s : Held) → s.self.status ≡ deleted → (perform c s).1 ≡ s
unfolding perform
perform_deleted pause s h = ground arith
perform_deleted _ s h = ground arith

-- A deleted subscription never changes again, whatever methods are called: no field, no event, and
-- the clock is not read.
run_deleted : (cs : List Command) (s : Held) → s.self.status ≡ deleted → run cs s ≡ s
unfolding run
run_deleted [] s h = refl
run_deleted (c ∷ cs) s h = ap (run cs) (perform_deleted c s h) ∙ run_deleted cs s h

-- Deleting twice is deleting once: the second call neither throws nor changes anything.
pub delete_idempotent :
    (s : Held)
    → ((perform delete s).1.self.status ≡ deleted)
      × (perform delete (perform delete s).1 ≡ (ok tt, (perform delete s).1))
unfolding perform
delete_idempotent s = ground arith
