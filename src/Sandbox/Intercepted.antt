-- ===== src/Sandbox/Intercepted.antt =====
-- The body that the interceptor hands on.
use webhook_idp.Common.{
  ℕ, ◌+◌, ◌≡◌, refl, sym, ap, ◌∙◌, subst, inl, inr, true, false, none, some, arith, Bool-cases,
  Option-cases,
}
use webhook_idp.Common.Text.{Text, txt, ◌===◌, ===_refl, ===_iff}
use webhook_idp.Common.Exec.{ok}
use webhook_idp.Ingestion.Inbox.{
  Json, null, boolean, number, array, string, object, Fields, no_fields, field, is_missing,
}
use webhook_idp.Ingestion.Runtime.{property}
use webhook_idp.Sandbox.{World, truthy, is_truthy, replace, append, assign, intercept}

property-replace :
    (name : Text) (value old : Json) (fields : Fields)
    → property name fields ≡ some old
    → property name (replace name value fields) ≡ some value
unfolding property replace
property-replace name value old no_fields h = absurd (ground arith)
property-replace name value old (field key held rest) h =
    ground (arith, property-replace name value old rest)

property-append :
    (name : Text) (value : Json) (fields : Fields)
    → property name fields ≡ none
    → property name (append name value fields) ≡ some value
unfolding property append
property-append name value no_fields h = rw (===_refl name) refl
property-append name value (field key held rest) h = ground (arith, property-append name value rest)

-- A property has the value that it was assigned.
property-assign :
    (name : Text) (value : Json) (fields : Fields)
    → property name (assign name value fields) ≡ some value
unfolding assign
property-assign name value fields = elim (Option-cases (property name fields)) [
  | inl missing ↦ rw (assign, missing) (property-append name value fields missing)
  | inr (old, held) ↦ rw (assign, held) (property-replace name value old fields held)
]

replace-other :
    (name key : Text) (value : Json) (fields : Fields)
    → (name === key) ≡ false
    → property name (replace key value fields) ≡ property name fields
unfolding property replace
replace-other name key value no_fields h = refl
replace-other name key value (field held old rest) h =
    let others = replace-other name key value rest h in
    elim (Bool-cases (key === held)) [
      | inr other ↦ rw (other, others) refl
      | inl same ↦
          let not_here : (name === held) ≡ false =
            ap (λ k. name === k) (sym ((===_iff key held).0 same)) ∙ h in
          rw (same, not_here) others
    ]

append-other :
    (name key : Text) (value : Json) (fields : Fields)
    → (name === key) ≡ false
    → property name (append key value fields) ≡ property name fields
unfolding property append
append-other name key value no_fields h = rw h refl
append-other name key value (field held old rest) h = rw (append-other name key value rest h) refl

-- A property keeps its value where another is assigned.
assign-other :
    (name key : Text) (value : Json) (fields : Fields)
    → (name === key) ≡ false
    → property name (assign key value fields) ≡ property name fields
unfolding assign
assign-other name key value fields h = elim (Option-cases (property key fields)) [
  | inl missing ↦ rw (assign, missing) (append-other name key value fields h)
  | inr (old, held) ↦ rw (assign, held) (replace-other name key value fields h)
]

assigned-truthy :
    (id : Text) (fields : Fields)
    → is_missing id ≡ false
    → is_truthy (property (txt "correlationId") (assign (txt "correlationId") (string id) fields))
      ≡ true
unfolding is_missing is_truthy truthy
assigned-truthy id fields there =
    rw (property-assign (txt "correlationId") (string id) fields) (ground arith)

object_inj : {a b : Fields} → object a ≡ object b → a ≡ b
object_inj h = cc h

-- The fields handed on are those that were posted, but for a correlation id that was not there.
pub record IsCompleted (raw : Json) (fields : Fields) : Type 0 where
  pub posted : Fields
  pub is_posted : raw ≡ object posted
  pub others :
      (name : Text)
      → (name === txt "correlationId") ≡ false
      → property name fields ≡ property name posted
  pub correlation : is_truthy (property (txt "correlationId") posted) ≡ true → fields ≡ posted

module _ {State : Type 0} where
  -- What the interceptor hands on of a body that is an object: its correlation id is there.
  pub record IsIntercepted (raw : Json) (w : World State) : Type 0 where
    pub body : Json
    pub drawn : ℕ
    pub runs : intercept raw w ≡ (ok body, record w { drawn = drawn })
    pub correlated :
        (fields : Fields)
        → body ≡ object fields
        → is_truthy (property (txt "correlationId") fields) ≡ true
    pub completed : (fields : Fields) → body ≡ object fields → IsCompleted raw fields

  pub intercept-IsIntercepted :
      (raw : Json) (w : World State)
      → ((n : ℕ) → is_missing (w.randoms n) ≡ false)
      → IsIntercepted raw w
  unfolding intercept
  intercept-IsIntercepted (object fields) w ids =
      elim (Bool-cases (is_truthy (property (txt "correlationId") fields))) [
        | inl there ↦ record {
          body = object fields;
          drawn = w.drawn;
          runs = rw there refl;
          correlated = λ fs same.
              subst (λ x. is_truthy (property (txt "correlationId") x) ≡ true) (cc same) there;
          completed = λ fs same. subst (IsCompleted (object fields)) (object_inj same) (record {
            posted = fields;
            is_posted = refl;
            others = λ name h. refl;
            correlation = λ h. refl;
          });
        }
        | inr missing ↦ record {
          body = object (assign (txt "correlationId") (string (w.randoms w.drawn)) fields);
          drawn = w.drawn + 1;
          runs = rw missing refl;
          correlated = λ fs same.
              subst (λ x. is_truthy (property (txt "correlationId") x) ≡ true) (cc same)
                (assigned-truthy (w.randoms w.drawn) fields (ids w.drawn));
          completed = λ fs same. subst (IsCompleted (object fields)) (object_inj same) (record {
            posted = fields;
            is_posted = refl;
            others = λ name h. assign-other name (txt "correlationId") _ fields h;
            correlation = λ h. absurd (ground (arith, missing, h));
          });
        }
      ]
  intercept-IsIntercepted (array items) w ids = record {
    body = array items;
    drawn = w.drawn + 1;
    runs = refl;
    correlated = λ fs same. absurd (ground arith);
    completed = λ fs same. absurd (ground arith);
  }
  intercept-IsIntercepted null w ids = record {
    body = null;
    drawn = w.drawn;
    runs = refl;
    correlated = λ fs same. absurd (ground arith);
    completed = λ fs same. absurd (ground arith);
  }
  intercept-IsIntercepted (boolean b) w ids = record {
    body = boolean b;
    drawn = w.drawn;
    runs = refl;
    correlated = λ fs same. absurd (ground arith);
    completed = λ fs same. absurd (ground arith);
  }
  intercept-IsIntercepted (number t) w ids = record {
    body = number t;
    drawn = w.drawn;
    runs = refl;
    correlated = λ fs same. absurd (ground arith);
    completed = λ fs same. absurd (ground arith);
  }
  intercept-IsIntercepted (string t) w ids = record {
    body = string t;
    drawn = w.drawn;
    runs = refl;
    correlated = λ fs same. absurd (ground arith);
    completed = λ fs same. absurd (ground arith);
  }
