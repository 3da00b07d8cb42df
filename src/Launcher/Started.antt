-- ===== src/Launcher/Started.antt =====
-- Which apps the script starts.
use webhook_idp.Common.{
  filter-none, All-filter, ℕ, ◌≤◌, ◌≡◌, refl, subst, ◌≢◌, Bool, true, false, not, ◌&&◌, inl, inr,
  List, [], ◌∷◌, map, Bool-cases, length, any, all, arith, All,
}
use webhook_idp.Common.Text.{Text}
use webhook_idp.Launcher.{
  App, launched, has_port, clashes, is_named, unknown, select, start, start_free, is_help,
  unless_clashes, launch_apps, unless_unknown, launch,
}
use webhook_idp.Launcher.Groups.{on_port, length-on_port}

-- What the script promises of the apps that it then waits for.
pub record IsLaunched (in_use : ℕ → Bool) (discovered : List App) (args : List Text)
    (apps : List App) : Type 0 where
  pub known : All (λ name. any (is_named name) discovered ≡ true) args
  pub chosen : map (λ app. app.name) apps ≡ map (λ app. app.name) (select args discovered)
  pub distinct : (port : ℕ) → port ≢ 0 → length (on_port port apps) ≤ 1
  pub free : All (λ app. app.has_child ≡ not (has_port app && in_use app.port)) apps
  pub some_started : any (λ app. app.has_child) apps ≡ true

true_of_not : {b : Bool} → not b ≡ false → b ≡ true
true_of_not h = ground (arith, h)

unknown-known :
    (args : List Text) (discovered : List App)
    → unknown args discovered ≡ []
    → All (λ name. any (is_named name) discovered ≡ true) args
unfolding unknown
unknown-known [] discovered h = tt
unknown-known (name ∷ args) discovered h =
    let (one, others) = filter-none (λ n. not (any (is_named n) discovered)) name args h in
    (true_of_not one, unknown-known args discovered others)

on_port-start :
    (in_use : ℕ → Bool) (port : ℕ) (apps : List App)
    → length (on_port port (map (start_free in_use) apps)) ≡ length (on_port port apps)
unfolding start_free start
on_port-start in_use port [] = refl
on_port-start in_use port (app ∷ apps) =
    let rest = on_port-start in_use port apps in
    elim (Bool-cases (has_port app && in_use app.port)) [
      | inl taken ↦ rw taken (ground (arith, rest))
      | inr vacant ↦ rw vacant (ground (arith, rest))
    ]

any-all :
    (apps : List App)
    → all (λ app. not app.has_child) apps ≡ false
    → any (λ app. app.has_child) apps ≡ true
any-all [] h = absurd (ground arith)
any-all (app ∷ apps) h = elim (Bool-cases app.has_child) [
  | inl e ↦ rw e refl
  | inr e ↦ let rest = any-all apps (ground (arith, h, e)) in rw e rest
]

name-start :
    (in_use : ℕ → Bool) (apps : List App)
    → map (λ app. app.name) (map (start_free in_use) apps) ≡ map (λ app. app.name) apps
unfolding start_free start
name-start in_use [] = refl
name-start in_use (app ∷ apps) =
    let rest = name-start in_use apps in
    elim (Bool-cases (has_port app && in_use app.port)) [
      | inl taken ↦ rw (taken, rest) refl
      | inr vacant ↦ rw (vacant, rest) refl
    ]

free-start_free :
    (in_use : ℕ → Bool) (app : App)
    → app.has_child ≡ false
    → (start_free in_use app).has_child
      ≡ not (has_port (start_free in_use app) && in_use (start_free in_use app).port)
unfolding start_free start
free-start_free in_use app fresh = elim (Bool-cases (has_port app && in_use app.port)) [
  | inl taken ↦ rw taken (rw (taken, fresh) refl)
  | inr vacant ↦ rw vacant (rw vacant refl)
]

free-start :
    (in_use : ℕ → Bool) (apps : List App)
    → All (λ app. app.has_child ≡ false) apps
    → All
        (λ app. app.has_child ≡ not (has_port app && in_use app.port))
        (map (start_free in_use) apps)
free-start in_use [] h = tt
free-start in_use (app ∷ apps) (fresh, h) =
    (free-start_free in_use app fresh, free-start in_use apps h)

unless_clashes_cases :
    (in_use : ℕ → Bool) (chosen apps : List App) (groups : List (ℕ × List App))
    → unless_clashes in_use chosen groups ≡ launched apps
    → (groups ≡ [])
      × (map (start_free in_use) chosen ≡ apps)
      × (all (λ app. not app.has_child) apps ≡ false)
unless_clashes_cases in_use chosen apps (group ∷ groups) h = absurd (ground (arith, h))
unless_clashes_cases in_use chosen apps [] h =
    elim (Bool-cases (all (λ app. not app.has_child) (map (start_free in_use) chosen))) [
      | inl none_runs ↦ absurd (ground (arith, h, none_runs))
      | inr one_runs ↦ (refl, ground (arith, h, one_runs), ground (arith, h, one_runs))
    ]

launch_apps_cases :
    (in_use : ℕ → Bool) (chosen apps : List App)
    → launch_apps in_use chosen ≡ launched apps
    → (clashes chosen ≡ [])
      × (map (start_free in_use) chosen ≡ apps)
      × (all (λ app. not app.has_child) apps ≡ false)
launch_apps_cases in_use [] apps h = absurd (ground (arith, h))
launch_apps_cases in_use (app ∷ chosen) apps h = unless_clashes_cases in_use (app ∷ chosen) apps _ h

pub select-All :
    (P : App → Type 0) (discovered : List App) (args : List Text)
    → All P discovered
    → All P (select args discovered)
unfolding select
select-All P discovered [] h = h
select-All P discovered (arg ∷ args) h = All-filter P _ discovered h

started-IsLaunched :
    (in_use : ℕ → Bool) (discovered : List App) (args : List Text) (apps : List App)
    → All (λ app. app.has_child ≡ false) discovered
    → unknown args discovered ≡ []
    → launch_apps in_use (select args discovered) ≡ launched apps
    → IsLaunched in_use discovered args apps
started-IsLaunched in_use discovered args apps fresh none_unknown h =
    let (no_clash, same, one_runs) = launch_apps_cases in_use (select args discovered) apps h in
    record {
      known = unknown-known args discovered none_unknown;
      chosen =
          subst (λ l. map (λ app. app.name) l ≡ map (λ app. app.name) (select args discovered)) same
            (name-start in_use (select args discovered));
      distinct = λ port nonzero.
          subst (λ l. length (on_port port l) ≤ 1) same
            (rw (on_port-start in_use port (select args discovered))
              (length-on_port port (select args discovered) nonzero no_clash));
      free = subst (All (λ app. app.has_child ≡ not (has_port app && in_use app.port))) same (
          free-start in_use (select args discovered)
            (select-All (λ app. app.has_child ≡ false) discovered args fresh));
      some_started = any-all apps one_runs;
    }

unless_unknown_cases :
    (in_use : ℕ → Bool) (chosen apps : List App) (names : List Text)
    → unless_unknown in_use chosen names ≡ launched apps
    → (names ≡ []) × (launch_apps in_use chosen ≡ launched apps)
unless_unknown_cases in_use chosen apps [] h = (refl, h)
unless_unknown_cases in_use chosen apps (name ∷ names) h = absurd (ground (arith, h))

launched_cases :
    (in_use : ℕ → Bool) (discovered : List App) (args : List Text) (apps : List App)
    → launch in_use discovered args ≡ launched apps
    → (unknown args discovered ≡ []) × (launch_apps in_use (select args discovered) ≡ launched apps)
unfolding launch
launched_cases in_use discovered args apps h = elim (Bool-cases (is_help args)) [
  | inl asked ↦ absurd (ground (arith, h, asked))
  | inr runs ↦
      unless_unknown_cases in_use (select args discovered) apps (unknown args discovered)
        (ground (arith, h, runs))
]

-- The apps that the script waits for are the chosen ones, after its pass over them.
pub launch-start_free :
    (in_use : ℕ → Bool) (discovered : List App) (args : List Text) (apps : List App)
    → launch in_use discovered args ≡ launched apps
    → map (start_free in_use) (select args discovered) ≡ apps
launch-start_free in_use discovered args apps h =
    (launch_apps_cases in_use _ apps (launched_cases in_use discovered args apps h).1).1

-- Apps are found, none of which runs yet, and the script has come to wait for some of them. Then
-- each of its arguments names an app that was found; it handles the apps that were chosen, in their
-- order; no two of them have one port; each runs exactly if it has no port or its port was not in
-- use; and at least one runs.
pub launch-IsLaunched :
    (in_use : ℕ → Bool) (discovered : List App) (args : List Text) (apps : List App)
    → All (λ app. app.has_child ≡ false) discovered
    → launch in_use discovered args ≡ launched apps
    → IsLaunched in_use discovered args apps
launch-IsLaunched in_use discovered args apps fresh h =
    let (none_unknown, then_launched) = launched_cases in_use discovered args apps h in
    started-IsLaunched in_use discovered args apps fresh none_unknown then_launched
