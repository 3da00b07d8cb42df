-- ===== src/Launcher/Groups.antt =====
-- The groups that `Map.groupBy` makes are the apps of each port.
use webhook_idp.Common.{
  filter-none, ℕ, ◌≤◌, ◌≡◌, refl, sym, ◌∙◌, ap, ◌≢◌, false, inl, inr, List, [], ◌∷◌, ◌++◌,
  if◌then◌else◌, Bool-cases, ==_iff, ◌==◌, length, filter, arith,
}
use webhook_idp.Launcher.{App, has_port, add_to_group, group_into, is_clash, clashes}
use mathlib.Core.List.{append_assoc, append-nil}

-- The apps of one port, in their order.
abbrev pub on_port : ℕ → List App → List App
on_port port apps = filter (λ app. app.port == port) apps

abbrev group_of : ℕ → List (ℕ × List App) → List App
group_of port [] = []
group_of port (group ∷ groups) =
    let rest = group_of port groups in if group.0 == port then group.1 else rest

group_of-add :
    (port : ℕ) (app : App) (groups : List (ℕ × List App))
    → group_of port (add_to_group app groups) ≡ group_of port groups ++ on_port port (app ∷ [])
unfolding add_to_group
group_of-add port app [] = ground arith
group_of-add port app (group ∷ groups) = elim (Bool-cases (group.0 == app.port)) [
  | inl same ↦
      let moved : (group.0 == port) ≡ (app.port == port) =
        ap (λ k. k == port) ((==_iff group.0 app.port).0 same) in
      elim (Bool-cases (app.port == port)) [
        | inl here ↦ rw (same, here) (ground (arith, moved))
        | inr elsewhere ↦
            rw (same, elsewhere) (ground (arith, moved, append-nil (group_of port groups)))
      ]
  | inr differs ↦
      let rest = group_of-add port app groups in
      elim (Bool-cases (group.0 == port)) [
        | inr elsewhere ↦ rw (differs, elsewhere) (ground (arith, rest))
        | inl here ↦
            let moved : (app.port == port) ≡ false = ground (arith, differs, here) in
            rw (differs, here, moved) (sym (append-nil _))
      ]
]

one-on_port :
    (port : ℕ) (app : App) (apps : List App)
    → on_port port (app ∷ []) ++ on_port port apps ≡ on_port port (app ∷ apps)
one-on_port port app apps = ground arith

group_of-into :
    (port : ℕ) (groups : List (ℕ × List App)) (apps : List App)
    → group_of port (group_into groups apps) ≡ group_of port groups ++ on_port port apps
unfolding group_into
group_of-into port groups [] = sym (append-nil _)
group_of-into port groups (app ∷ apps) =
    group_of-into port (add_to_group app groups) apps
    ∙ ap (λ l. l ++ on_port port apps) (group_of-add port app groups)
    ∙ append_assoc (group_of port groups) _ _
    ∙ ap (λ l. group_of port groups ++ l) (one-on_port port app apps)

length-group_of :
    (port : ℕ) (groups : List (ℕ × List App))
    → filter is_clash groups ≡ []
    → length (group_of port groups) ≤ 1
length-group_of port [] h = omega arith
length-group_of port (group ∷ groups) h =
    let (small, fewer) = filter-none is_clash group groups h in
    let rest = length-group_of port groups fewer in
    elim (Bool-cases (group.0 == port)) [
      | inl here ↦ rw here (ground (arith, small))
      | inr elsewhere ↦ rw elsewhere rest
    ]

on_port-has_port :
    (port : ℕ) (apps : List App)
    → port ≢ 0
    → on_port port (filter has_port apps) ≡ on_port port apps
on_port-has_port port [] h = refl
on_port-has_port port (app ∷ apps) h = ground (arith, on_port-has_port port apps h)

-- Where there is no clash, no two apps have one port.
pub length-on_port :
    (port : ℕ) (apps : List App) → port ≢ 0 → clashes apps ≡ [] → length (on_port port apps) ≤ 1
unfolding clashes
length-on_port port apps h none_clash =
    let few = length-group_of port (group_into [] (filter has_port apps)) none_clash in
    rw (← on_port-has_port port apps h, ← group_of-into port [] (filter has_port apps)) few
