-- ===== src/Common/Exec.antt =====
-- Code that may throw.
use mathlib.Core.Path.{◌≡◌, refl}
use mathlib.Core.Logic.{◌≢◌, ◌⊎◌, inl, inr}
use mathlib.Core.List.{List, [], ◌∷◌}

pub data Result {ℓ} (E A : Type ℓ) : Type ℓ where
  ok : A → Result E A
  err : E → Result E A

module _ {ℓ} {E A B : Type ℓ} where
  infixl 5 ◌>>=◌ ◌>>◌
  abbrev pub ◌>>=◌ : Result E A → (A → Result E B) → Result E B
  ok a >>= f = f a
  err e >>= f = err e

  abbrev pub ◌>>◌ : Result E A → Result E B → Result E B
  m >> k = m >>= λ _. k

  -- A chain that returns has returned from its first step, and from the rest at what that gave.
  pub >>=-eq-ok :
      (first : Result E A) (rest : A → Result E B) {result : B}
      → (first >>= rest) ≡ ok result
      → (given : A) × (first ≡ ok given) × (rest given ≡ ok result)
  >>=-eq-ok (err thrown) rest h = cc
  >>=-eq-ok (ok given) rest h = (given, refl, h)

module _ {ℓ} {E A B : Type ℓ} where
  -- `xs.map(f)` where `f` may throw: the first exception ends the loop.
  unfoldable pub map_result : (A → Result E B) → List A → Result E (List B)
  map_result f [] = ok []
  map_result f (x ∷ xs) = f x >>= λ y. map_result f xs >>= λ ys. ok (y ∷ ys)

  -- What a map over a list with a first element has returned.
  pub map_result-cons :
      (f : A → Result E B) (x : A) (xs : List A) (zs : List B)
      → map_result f (x ∷ xs) ≡ ok zs
      → (y : B) × (ys : List B) × (f x ≡ ok y) × (map_result f xs ≡ ok ys) × (zs ≡ y ∷ ys)
  unfolding map_result
  map_result-cons f x xs zs h =
      let (y, first, rest) = >>=-eq-ok (f x) _ h in
      let (ys, others, built) = >>=-eq-ok (map_result f xs) _ rest in
      (y, ys, first, others, cc built)

pub Result-cases {ℓ} :
    {E A : Type ℓ} (r : Result E A) → ((a : A) × (r ≡ ok a)) ⊎ ((e : E) × (r ≡ err e))
Result-cases (ok a) = inl (a, refl)
Result-cases (err e) = inr (e, refl)

-- What does not return throws.
pub err_of_ne-ok {ℓ} : {E : Type ℓ} (r : Result E (Unit {ℓ})) → r ≢ ok tt → (e : E) × (r ≡ err e)
err_of_ne-ok (ok tt) h = absurd (h refl)
err_of_ne-ok (err e) h = (e, refl)

module _ {ℓ} {E E' A : Type ℓ} where
  -- An exception of one family seen as one of a wider family.
  abbrev pub map_err : (E → E') → Result E A → Result E' A
  map_err f (ok a) = ok a
  map_err f (err e) = err (f e)
