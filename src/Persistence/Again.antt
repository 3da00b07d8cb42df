-- ===== src/Persistence/Again.antt =====
-- The value objects accept again the texts of what they have accepted.
use webhook_idp.Common.{◌≡◌, refl, sym, subst, Option, none, some, List, [], ◌∷◌, arith, All}
use webhook_idp.Common.Text.{Text}
use webhook_idp.Common.Exec.{ok, >>=-eq-ok, map_result, map_result-cons}
use webhook_idp.Subscription.ValueObjects.{
  TenantId, ClientId, UserId, EventType, tenant_id_from_string, client_id_from_string,
  user_id_from_string, event_type_from_string,
}
use webhook_idp.Persistence.{optional_user_id, user_text}

pub tenant_id-again :
    (v : Text) (t : TenantId)
    → tenant_id_from_string v ≡ ok t
    → tenant_id_from_string t.value ≡ ok t
unfolding tenant_id_from_string
tenant_id-again v t h = ground arith

pub client_id-again :
    (v : Text) (t : ClientId)
    → client_id_from_string v ≡ ok t
    → client_id_from_string t.value ≡ ok t
unfolding client_id_from_string
client_id-again v t h = ground arith

user_id-again :
    (v : Text) (t : UserId) → user_id_from_string v ≡ ok t → user_id_from_string t.value ≡ ok t
unfolding user_id_from_string
user_id-again v t h = ground arith

event_type-again :
    (v : Text) (t : EventType)
    → event_type_from_string v ≡ ok t
    → event_type_from_string t.value ≡ ok t
unfolding event_type_from_string
event_type-again v t h = ground arith

pub optional_user_id-again :
    (o : Option Text) (user : Option UserId)
    → optional_user_id o ≡ ok user
    → optional_user_id (user_text user) ≡ ok user
unfolding optional_user_id
optional_user_id-again none none h = refl
optional_user_id-again none (some u) h = absurd (ground arith)
optional_user_id-again (some text) user h =
    let (u, made, same) = >>=-eq-ok (user_id_from_string text) _ h in
    let is_some : some u ≡ user = cc same in
    subst (λ o. optional_user_id (user_text o) ≡ ok o) is_some (rw (user_id-again text u made) refl)

pub event_types-again :
    (texts : List Text) (types : List EventType)
    → map_result event_type_from_string texts ≡ ok types
    → All (λ t. event_type_from_string t.value ≡ ok t) types
unfolding map_result
event_types-again [] [] h = tt
event_types-again [] (t ∷ ts) h = absurd (ground arith)
event_types-again (text ∷ texts) types h =
    let (t, ts, first, rest, same) = map_result-cons event_type_from_string text texts types h in
    subst (All (λ t. event_type_from_string t.value ≡ ok t)) (sym same)
      (event_type-again text t first, event_types-again texts ts rest)
