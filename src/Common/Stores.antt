-- ===== src/Common/Stores.antt =====
-- A JavaScript `Map` from texts, in the order of insertion.
use mathlib.Core.Path.{◌≡◌, refl, sym, ap, ◌∙◌}
use mathlib.Core.Logic.{inl, inr}
use mathlib.Core.Bool.{false}
use mathlib.Core.List.{List, [], ◌∷◌}
use mathlib.Core.Option.{Option, none, some}
use native.Mathlib.Omega.{arith}
use webhook_idp.Common.Tests.{if◌then◌else◌, Bool-cases}
use webhook_idp.Common.Text.{Text, ◌===◌, ===_iff}

abbrev pub Store {ℓ} : Type ℓ → Type ℓ
Store A = List (Text × A)

module _ {ℓ} {A : Type ℓ} where
  -- `map.set(key, value)`
  unfoldable pub set : Text → A → Store A → Store A
  set key a [] = (key, a) ∷ []
  set key a (entry ∷ store) =
      let rest = set key a store in if entry.0 === key then (key, a) ∷ store else entry ∷ rest

  -- `map.get(key)`
  unfoldable pub get : Text → Store A → Option A
  get key [] = none
  get key (entry ∷ store) =
      let rest = get key store in if entry.0 === key then some entry.1 else rest

  -- `map.values()`
  abbrev pub values : Store A → List A
  values [] = []
  values (entry ∷ store) = entry.1 ∷ values store

  -- What was set is got, and nothing else is changed.
  pub get-set :
      (key : Text) (a : A) (store : Store A) (other : Text)
      → get other (set key a store) ≡ (if key === other then some a else get other store)
  unfolding get set
  get-set key a [] other = refl
  get-set key a (entry ∷ store) other = elim (Bool-cases (entry.0 === key)) [
    | inl same ↦
        let other_same : (entry.0 === other) ≡ (key === other) =
          ap (λ k. k === other) ((===_iff entry.0 key).0 same) in
        elim (Bool-cases (key === other)) [
          | inl here ↦ rw same (ground arith)
          | inr elsewhere ↦ rw same (ground arith)
        ]
    | inr differs ↦
        let rest = get-set key a store other in
        elim (Bool-cases (key === other)) [
          | inr elsewhere ↦ rw differs (ground arith)
          | inl here ↦
              let moved : (entry.0 === other) ≡ false =
                sym (ap (λ k. entry.0 === k) ((===_iff key other).0 here)) ∙ differs in
              rw differs (ground arith)
        ]
  ]
