-- ===== src/Launcher.antt =====
-- scripts/dev.mjs, from the arguments to the start of the apps: which apps are chosen, the refusal
-- of two on one port, and what is started. The descriptors of the apps are given (Discovery makes
-- them), and so are the answers of the probes of their ports.
pub mod Groups
pub mod Started
pub mod Dependencies
pub mod Discovery
pub mod EnvFile
pub mod Session
use webhook_idp.Common.{
  ℕ, Bool, true, not, ◌||◌, ◌&&◌, List, [], ◌∷◌, ◌++◌, map, if◌then◌else◌, ltb, ◌==◌, length, any,
  all, filter,
}
use webhook_idp.Common.Text.{Text, txt, ◌===◌}

pub data Kind : Type 0 where
  http : Kind
  worker : Kind

-- What is known of an app; `exited` holds the signal or the code that its child ended with.
pub data AppState : Type 0 where
  pending : AppState
  skipped : AppState
  starting : AppState
  running : AppState
  ready : AppState
  stopped : AppState
  exited : Text → AppState

-- `port` is 0 where the source has `null` or `NaN`: it tests the port for being truthy only.
pub record App : Type 0 where
  pub name : Text
  pub kind : Kind
  pub port : ℕ
  pub state : AppState
  pub has_child : Bool

-- How the script goes on: it has printed its usage, ended with code 1 for one of the reasons, or
-- waits for the apps.
pub data Launch : Type 0 where
  usage : Launch
  unknown_apps : List Text → Launch
  no_apps : Launch
  port_clashes : List (ℕ × List App) → Launch
  nothing_started : List App → Launch
  launched : List App → Launch

abbrev pub has_port : App → Bool
has_port app = not (app.port == 0)

-- `Map.groupBy`: the groups in the order of their first elements.
unfoldable pub add_to_group : App → List (ℕ × List App) → List (ℕ × List App)
add_to_group app [] = (app.port, app ∷ []) ∷ []
add_to_group app (group ∷ groups) =
    let rest = add_to_group app groups in
    if group.0 == app.port then (group.0, group.1 ++ (app ∷ [])) ∷ groups else group ∷ rest

unfoldable pub group_into : List (ℕ × List App) → List App → List (ℕ × List App)
group_into groups [] = groups
group_into groups (app ∷ apps) = group_into (add_to_group app groups) apps

abbrev pub is_clash : ℕ × List App → Bool
is_clash group = ltb 1 (length group.1)

unfoldable pub clashes : List App → List (ℕ × List App)
clashes apps = filter is_clash (group_into [] (filter has_port apps))

abbrev pub is_named : Text → App → Bool
is_named name app = app.name === name

unfoldable pub unknown : List Text → List App → List Text
unknown args discovered = filter (λ name. not (any (is_named name) discovered)) args

unfoldable pub select : List Text → List App → List App
select [] discovered = discovered
select (arg ∷ args) discovered =
    filter (λ app. any (λ name. name === app.name) (arg ∷ args)) discovered

abbrev first_state : Kind → AppState
first_state http = starting
first_state worker = running

-- `start`, for a child that has not ended yet.
unfoldable pub start : App → App
start app = record app { has_child = true; state = first_state app.kind }

-- An app's turn in the loop over the apps; `in_use port` is the answer of `canConnect` at the turn of
-- the app that has the port, of which there is one. Children that end during the loop are left out.
unfoldable pub start_free : (ℕ → Bool) → App → App
start_free in_use app =
    if has_port app && in_use app.port then record app { state = skipped } else start app

unfoldable pub is_help : List Text → Bool
is_help args = any (λ arg. arg === txt "-h") args || any (λ arg. arg === txt "--help") args

abbrev finish : List App → Launch
finish apps = if all (λ app. not app.has_child) apps then nothing_started apps else launched apps

abbrev pub unless_clashes : (ℕ → Bool) → List App → List (ℕ × List App) → Launch
unless_clashes in_use apps (group ∷ groups) = port_clashes (group ∷ groups)
unless_clashes in_use apps [] = finish (map (start_free in_use) apps)

abbrev pub launch_apps : (ℕ → Bool) → List App → Launch
launch_apps in_use [] = no_apps
launch_apps in_use (app ∷ apps) = unless_clashes in_use (app ∷ apps) (clashes (app ∷ apps))

abbrev pub unless_unknown : (ℕ → Bool) → List App → List Text → Launch
unless_unknown in_use apps (name ∷ names) = unknown_apps (name ∷ names)
unless_unknown in_use apps [] = launch_apps in_use apps

-- The script, with the apps that it finds.
unfoldable pub launch : (ℕ → Bool) → List App → List Text → Launch
launch in_use discovered args =
    if is_help args
    then usage
    else unless_unknown in_use (select args discovered) (unknown args discovered)
