-- ===== src/Common/Text.antt =====
-- JavaScript strings as lists of UTF-16 code units, and the methods of `String.prototype` that the
-- program calls. `to_lower_case` maps the ASCII letters: the program calls it on the hostname of a
-- parsed URL, which is ASCII.
use Prim.Native.Nat.{ℕ, ◌+◌, ◌-◌, ◌*◌}
use Prim.Native.Char.{code}
use Prim.Native.String.{String}
use mathlib.Core.Path.{◌≡◌, refl, ap, sym, ◌∙◌}
use mathlib.Core.Logic.{◌≢◌, ◌↔◌, ◌⊎◌, inl, inr}
use mathlib.Core.Bool.{Bool, true, false, ◌&&◌, ◌||◌, not}
use mathlib.Core.List.{List, [], ◌∷◌, ◌++◌, map, reverse, reverse-reverse, reverse-cons}
use native.Mathlib.Omega.{arith}
use webhook_idp.Common.Tests.{◌==◌ as nat_eq, leb, if◌then◌else◌, Bool-cases}
use webhook_idp.Common.Lists.{length, all}

abbrev pub Text : Type 0
Text = List ℕ

-- The code units of a literal. `String` has constructors of its own.
abbrev codes : String → Text
codes String.[] = []
codes (String.◌∷◌ c s) = code c ∷ codes s

-- A literal of the source. It is shut, so that proofs do not compute with the units of messages.
unfoldable pub txt : String → Text
txt s = codes s

-- `===` on strings.
infix 50 ◌===◌
unfoldable pub ◌===◌ : Text → Text → Bool
[] === [] = true
[] === (y ∷ ys) = false
(x ∷ xs) === [] = false
(x ∷ xs) === (y ∷ ys) = nat_eq x y && xs === ys

pub ===_iff : (s t : Text) → ((s === t) ≡ true) ↔ (s ≡ t)
unfolding ◌===◌
===_iff [] [] = (λ _. refl, λ _. refl)
===_iff [] (y ∷ ys) = ((λ h. cc), (λ h. cc))
===_iff (x ∷ xs) [] = ((λ h. cc), (λ h. cc))
===_iff (x ∷ xs) (y ∷ ys) = ground (arith, ===_iff xs ys)

pub ===_refl : (s : Text) → (s === s) ≡ true
===_refl s = (===_iff s s).1 refl

pub ===_comm : (a b : Text) → (a === b) ≡ (b === a)
===_comm a b = elim (Bool-cases (a === b)) [
  | inl e ↦ e ∙ sym ((===_iff b a).1 (sym ((===_iff a b).0 e)))
  | inr e ↦ elim (Bool-cases (b === a)) [
    | inl f ↦ (===_iff a b).1 (sym ((===_iff b a).0 f)) ∙ sym f
    | inr f ↦ e ∙ sym f
  ]
]

-- The `WhiteSpace` and `LineTerminator` code units of ECMAScript, which `trim` removes.
unfoldable pub is_space : ℕ → Bool
is_space c =
    (leb 9 c && leb c 13)
    || nat_eq c 32
    || nat_eq c 160
    || nat_eq c 0x1680
    || (leb 0x2000 c && leb c 0x200a)
    || nat_eq c 0x2028
    || nat_eq c 0x2029
    || nat_eq c 0x202f
    || nat_eq c 0x205f
    || nat_eq c 0x3000
    || nat_eq c 0xfeff

pub trim_start : Text → Text
trim_start [] = []
trim_start (c ∷ s) = if is_space c then trim_start s else c ∷ s

-- `value.trim()`
unfoldable pub trim : Text → Text
unfolding trim_start is_space
trim s = reverse (trim_start (reverse (trim_start s)))

unfoldable pub lower : ℕ → ℕ
lower c = if leb b'A' c && leb c b'Z' then c + 32 else c

-- `s.trim().length === 0`
unfoldable pub is_blank : Text → Bool
unfolding trim
is_blank s = nat_eq (length (trim s)) 0

trim_start-space : (s : Text) → all is_space s ≡ true → trim_start s ≡ []
unfolding trim_start
trim_start-space [] h = refl
trim_start-space (c ∷ s) h = ground (arith, trim_start-space s)

trim_start-concat : (s : Text) (c : ℕ) → is_space c ≡ false → trim_start (s ++ c ∷ []) ≢ []
unfolding trim_start
trim_start-concat [] c h = ground arith
trim_start-concat (d ∷ s) c h = ground (arith, trim_start-concat s c h)

-- What trimming the front leaves is empty, or begins with a unit that is no white space.
trim_start_cases :
    (s : Text)
    → ((trim_start s ≡ []) × (all is_space s ≡ true))
      ⊎ ((c : ℕ) × (r : Text) × (trim_start s ≡ c ∷ r)
          × (is_space c ≡ false)
          × (all is_space s ≡ false))
unfolding trim_start
trim_start_cases [] = inl (refl, refl)
trim_start_cases (c ∷ s) = elim (Bool-cases (is_space c)) [
  | inl space ↦ rw space (trim_start_cases s)
  | inr other ↦ inr (c, s, rw other, other, rw other)
]

reverse-ne-nil : (s : Text) → s ≢ [] → reverse s ≢ []
reverse-ne-nil s h e = h (sym (reverse-reverse s) ∙ ap reverse e)

-- A text is blank exactly when all its units are white space.
pub is_blank_lem : (s : Text) → is_blank s ≡ all is_space s
unfolding is_blank
is_blank_lem s = elim (trim_start_cases s) [
  | inl (empty, space) ↦ rw (empty, space)
  | inr (c, r, rest, other, some_other) ↦
      rw (rest, some_other)
        (ground (
          arith,
          reverse-ne-nil (trim_start (reverse (c ∷ r)))
              (rw (reverse-cons c r) (trim_start-concat (reverse r) c other)),
        ))
]

-- The text does not begin with white space.
abbrev pub solid : Text → Bool
solid [] = true
solid (c ∷ s) = not (is_space c)

trim_start-solid : (s : Text) → solid s ≡ true → trim_start s ≡ s
unfolding trim_start
trim_start-solid [] h = refl
trim_start-solid (c ∷ s) h = ground (arith, h)

-- A text with no white space at its ends is not changed by `trim`.
pub trim-solid : (s : Text) → solid s ≡ true → solid (reverse s) ≡ true → trim s ≡ s
unfolding trim
trim-solid s first last =
    rw (trim_start-solid s first, trim_start-solid (reverse s) last) (reverse-reverse s)

-- `value.toLowerCase()`
unfoldable pub to_lower_case : Text → Text
unfolding lower
to_lower_case = map lower

-- `value.startsWith(prefix)`
unfoldable pub starts_with : Text → Text → Bool
starts_with s [] = true
starts_with [] (p ∷ ps) = false
starts_with (c ∷ s) (p ∷ ps) = nat_eq c p && starts_with s ps

-- `value.endsWith(suffix)`
unfoldable pub ends_with : Text → Text → Bool
unfolding starts_with
ends_with s t = starts_with (reverse s) (reverse t)

-- `value.includes(unit)` for one code unit.
unfoldable pub includes : Text → ℕ → Bool
includes [] c = false
includes (d ∷ s) c = nat_eq d c || includes s c

abbrev first_part : ℕ → List Text → List Text
first_part c [] = (c ∷ []) ∷ []
first_part c (p ∷ ps) = (c ∷ p) ∷ ps

-- `value.split(sep)` for one code unit: never empty.
unfoldable pub split : ℕ → Text → List Text
split sep [] = [] ∷ []
split sep (c ∷ s) = if nat_eq c sep then [] ∷ split sep s else first_part c (split sep s)

-- `parts.join(sep)` for one code unit.
unfoldable pub join : ℕ → List Text → Text
join sep [] = []
join sep (p ∷ []) = p
join sep (p ∷ q ∷ ps) = p ++ (sep ∷ join sep (q ∷ ps))

-- `\d`
unfoldable pub is_digit : ℕ → Bool
is_digit c = leb b'0' c && leb c b'9'

unfoldable pub digits_value : ℕ → Text → ℕ
digits_value n [] = n
digits_value n (c ∷ s) = digits_value (10 * n + (c - 48)) s
