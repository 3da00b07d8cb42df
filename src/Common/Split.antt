-- ===== src/Common/Split.antt =====
-- Splitting a text at a separator, and texts that do not hold it.
use Prim.Native.Nat.{ℕ, zero, suc, ◌<◌}
use mathlib.Core.Path.{◌≡◌, refl}
use mathlib.Core.Bool.{Bool, true, ◌&&◌, not}
use mathlib.Core.List.{List, [], ◌∷◌, ◌++◌}
use native.Mathlib.Omega.{arith}
use webhook_idp.Common.Tests.{◌==◌, ==_iff}
use webhook_idp.Common.Lists.{all}
use webhook_idp.Common.Text.{Text, split, lower, to_lower_case}

-- `c` does not occur in the text.
abbrev pub lacks : ℕ → Text → Bool
lacks c s = all (λ d. not (d == c)) s

pub split-lacks : (c : ℕ) (s : Text) → lacks c s ≡ true → split c s ≡ s ∷ []
unfolding split
split-lacks c [] h = refl
split-lacks c (d ∷ s) h = ground (arith, split-lacks c s)

pub split-append : (c : ℕ) (s t : Text) → lacks c s ≡ true → split c (s ++ (c ∷ t)) ≡ s ∷ split c t
unfolding split
split-append c [] t h = ground (arith, ==_iff c c)
split-append c (d ∷ s) t h = ground (arith, split-append c s t)

-- A check of every number below a bound.
abbrev pub all_below : ℕ → (ℕ → Bool) → Bool
all_below zero p = true
all_below (suc n) p = p n && all_below n p

pub all_below_sound : (n : ℕ) (p : ℕ → Bool) (x : ℕ) → all_below n p ≡ true → x < n → p x ≡ true
all_below_sound zero p x h lt = absurd (omega arith)
all_below_sound (suc n) p x h lt = ground (arith, all_below_sound n p x)

-- A text with no capital letter is in lower case already.
pub to_lower_case-of_lower : (s : Text) → all (λ c. lower c == c) s ≡ true → to_lower_case s ≡ s
unfolding to_lower_case
to_lower_case-of_lower [] h = refl
to_lower_case-of_lower (c ∷ s) h = ground (arith, to_lower_case-of_lower s, ==_iff (lower c) c)

pub all-append {ℓ} :
    {A : Type ℓ} (p : A → Bool) (xs ys : List A) → all p (xs ++ ys) ≡ (all p xs && all p ys)
all-append p [] ys = refl
all-append p (x ∷ xs) ys = ground (arith, all-append p xs ys)
