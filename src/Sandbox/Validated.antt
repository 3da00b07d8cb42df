-- ===== src/Sandbox/Validated.antt =====
-- The envelope that validation makes of a body.
use webhook_idp.Common.{
  ◌≡◌, refl, sym, ap, ◌∙◌, subst, inl, inr, true, false, Option, none, some, arith, Option-cases,
}
use webhook_idp.Common.Text.{Text, txt}
use webhook_idp.Common.Exec.{ok, >>=-eq-ok, ◌>>=◌ as bind_result}
use webhook_idp.Ingestion.Inbox.{
  Json, null, boolean, number, array, string, object, Fields, is_json_object, is_missing,
}
use webhook_idp.Ingestion.Runtime.{Validators, property}
use webhook_idp.Sandbox.{EventEnvelope, truthy, is_truthy, demanded, allowed, create_event_dto}

-- What the decorators check. A decorator changes nothing of the value, and a UUID is not blank.
pub record IsChecking (v : Validators) : Type 0 where
  pub string-accepted : (t : Text) → v.is_string (string t) ≡ some t
  pub string-kept : (j : Json) (t : Text) → v.is_string j ≡ some t → j ≡ string t
  pub uuid-string : (j : Json) (t : Text) → v.is_uuid j ≡ some t → j ≡ string t
  pub uuid-present : (j : Json) (t : Text) → v.is_uuid j ≡ some t → is_missing t ≡ false
  pub object-kept : (j p : Json) → v.is_object j ≡ some p → j ≡ p
  pub object-IsObject : (j p : Json) → v.is_object j ≡ some p → is_json_object p ≡ true

-- An envelope that validation made of a body in which a correlation id is there.
pub record IsEnvelope (v : Validators) (e : EventEnvelope) : Type 0 where
  pub no_event_id : e.event_id ≡ none
  pub correlation : Text
  pub correlated : e.correlation_id ≡ some correlation
  pub valid : v.is_uuid (string correlation) ≡ some correlation
  pub present : is_missing correlation ≡ false
  pub payload : v.is_object e.payload ≡ some e.payload
  pub is_object : is_json_object e.payload ≡ true

demanded-ok :
    {A : Type 0} (name : Text) (check : Json → Option A) (o : Option Json) (a : A)
    → demanded name check o ≡ ok a
    → (j : Json) × (o ≡ some j) × (check j ≡ some a)
unfolding demanded
demanded-ok name check none a h = absurd (ground arith)
demanded-ok name check (some value) a h = elim (Option-cases (check value)) [
  | inl refused ↦ absurd (ground arith)
  | inr (b, accepted) ↦ (value, refl, ground arith)
]

checked-some :
    (v : Validators) (name : Text) (value : Json) (found : Option Text)
    → bind_result (demanded name v.is_uuid (some value)) (λ c. ok (some c)) ≡ ok found
    → (c : Text) × (j : Json) × (found ≡ some c) × (some value ≡ some j) × (v.is_uuid j ≡ some c)
checked-some v name value found h =
    let (c, accepted, same) = >>=-eq-ok (demanded name v.is_uuid (some value)) _ h in
    let (j, is_value, valid) = demanded-ok name v.is_uuid (some value) c accepted in
    (c, j, sym (cc same), is_value, valid)

allowed-some :
    (v : Validators) (name : Text) (o : Option Json) (found : Option Text)
    → is_truthy o ≡ true
    → allowed name v.is_uuid o ≡ ok found
    → (c : Text) × (j : Json) × (found ≡ some c) × (o ≡ some j) × (v.is_uuid j ≡ some c)
unfolding is_truthy truthy allowed
allowed-some v name none found there h = absurd (ground arith)
allowed-some v name (some null) found there h = absurd (ground arith)
allowed-some v name (some (boolean b)) found there h = checked-some v name (boolean b) found h
allowed-some v name (some (number t)) found there h = checked-some v name (number t) found h
allowed-some v name (some (string t)) found there h = checked-some v name (string t) found h
allowed-some v name (some (array js)) found there h = checked-some v name (array js) found h
allowed-some v name (some (object fs)) found there h = checked-some v name (object fs) found h

pub create_event_dto-IsEnvelope :
    (v : Validators) (body : Json) (e : EventEnvelope)
    → IsChecking v
    → create_event_dto v body ≡ ok e
    → ((fields : Fields)
        → body ≡ object fields
        → is_truthy (property (txt "correlationId") fields) ≡ true)
    → IsEnvelope v e
unfolding create_event_dto
create_event_dto-IsEnvelope v null e k h there = absurd (ground arith)
create_event_dto-IsEnvelope v (boolean b) e k h there = absurd (ground arith)
create_event_dto-IsEnvelope v (number t) e k h there = absurd (ground arith)
create_event_dto-IsEnvelope v (string t) e k h there = absurd (ground arith)
create_event_dto-IsEnvelope v (array js) e k h there = absurd (ground arith)
create_event_dto-IsEnvelope v (object fields) e k h there =
    let (found, allows, rest) =
      >>=-eq-ok (allowed (txt "correlationId") v.is_uuid (property (txt "correlationId") fields)) _
        h in
    let (tenant, has_tenant, rest) =
      >>=-eq-ok (demanded (txt "tenantId") v.is_string (property (txt "tenantId") fields)) _ rest in
    let (type, has_type, rest) =
      >>=-eq-ok (demanded (txt "eventType") v.is_string (property (txt "eventType") fields)) _
        rest in
    let (payload, has_payload, made) =
      >>=-eq-ok (demanded (txt "payload") v.is_object (property (txt "payload") fields)) _ rest in
    let (c, j, is_some, _, valid) =
      allowed-some v (txt "correlationId") (property (txt "correlationId") fields) found
        (there fields refl) allows in
    let (p, _, accepted) =
      demanded-ok (txt "payload") v.is_object (property (txt "payload") fields) payload
        has_payload in
    let same : record {
      event_id = none;
      correlation_id = found;
      tenant_id = tenant;
      event_type = type;
      payload = payload;
    }
        ≡ e =
      cc made in
    subst (IsEnvelope v) same (record {
      no_event_id = refl;
      correlation = c;
      correlated = is_some;
      valid = ap v.is_uuid (sym (k.uuid-string j c valid)) ∙ valid;
      present = k.uuid-present j c valid;
      payload = ap v.is_object (sym (k.object-kept p payload accepted)) ∙ accepted;
      is_object = k.object-IsObject p payload accepted;
    })

-- The envelope holds what the body holds: the tenant's id, the event type, the payload, and the
-- correlation id if it is there.
pub record IsTaken (body : Fields) (e : EventEnvelope) : Type 0 where
  pub tenant_id : property (txt "tenantId") body ≡ some (string e.tenant_id)
  pub event_type : property (txt "eventType") body ≡ some (string e.event_type)
  pub payload : property (txt "payload") body ≡ some e.payload
  pub correlation :
      is_truthy (property (txt "correlationId") body) ≡ true
      → (c : Text) × (e.correlation_id ≡ some c)
        × (property (txt "correlationId") body ≡ some (string c))

demanded-string :
    (v : Validators) (name : Text) (o : Option Json) (t : Text)
    → IsChecking v
    → demanded name v.is_string o ≡ ok t
    → o ≡ some (string t)
demanded-string v name o t k h =
    let (j, there, accepted) = demanded-ok name v.is_string o t h in
    there ∙ ap some (k.string-kept j t accepted)

demanded-object :
    (v : Validators) (name : Text) (o : Option Json) (p : Json)
    → IsChecking v
    → demanded name v.is_object o ≡ ok p
    → o ≡ some p
demanded-object v name o p k h =
    let (j, there, accepted) = demanded-ok name v.is_object o p h in
    there ∙ ap some (k.object-kept j p accepted)

pub create_event_dto-IsTaken :
    (v : Validators) (body : Json) (e : EventEnvelope)
    → IsChecking v
    → create_event_dto v body ≡ ok e
    → (fields : Fields) × (body ≡ object fields) × IsTaken fields e
unfolding create_event_dto
create_event_dto-IsTaken v null e k h = absurd (ground arith)
create_event_dto-IsTaken v (boolean b) e k h = absurd (ground arith)
create_event_dto-IsTaken v (number t) e k h = absurd (ground arith)
create_event_dto-IsTaken v (string t) e k h = absurd (ground arith)
create_event_dto-IsTaken v (array js) e k h = absurd (ground arith)
create_event_dto-IsTaken v (object fields) e k h =
    let (found, allows, rest) =
      >>=-eq-ok (allowed (txt "correlationId") v.is_uuid (property (txt "correlationId") fields)) _
        h in
    let (tenant, has_tenant, rest) =
      >>=-eq-ok (demanded (txt "tenantId") v.is_string (property (txt "tenantId") fields)) _ rest in
    let (type, has_type, rest) =
      >>=-eq-ok (demanded (txt "eventType") v.is_string (property (txt "eventType") fields)) _
        rest in
    let (payload, has_payload, made) =
      >>=-eq-ok (demanded (txt "payload") v.is_object (property (txt "payload") fields)) _ rest in
    let same : record {
      event_id = none;
      correlation_id = found;
      tenant_id = tenant;
      event_type = type;
      payload = payload;
    }
        ≡ e =
      cc made in
    (
      fields,
      refl,
      subst (IsTaken fields) same (record {
        tenant_id = demanded-string v (txt "tenantId") _ tenant k has_tenant;
        event_type = demanded-string v (txt "eventType") _ type k has_type;
        payload = demanded-object v (txt "payload") _ payload k has_payload;
        correlation = λ there.
            let (c, j, is_some, at, valid) =
              allowed-some v (txt "correlationId") _ found there allows in
            (c, is_some, at ∙ ap some (k.uuid-string j c valid));
      }),
    )
