-- ===== src/Launcher/Discovery.antt =====
-- scripts/dev.mjs, `workspaceDirs` and `describeApp`: the apps that the script finds in the packages
-- of the workspace. The file system, `path.join` and `Number` are parameters. What is only printed of
-- an app (its URLs, its colour) is left out.
pub mod Described
use webhook_idp.Common.{
  ℕ, Bool, false, Option, none, some, List, [], ◌∷◌, ◌++◌, reverse, filter, drop, if◌then◌else◌,
}
use webhook_idp.Common.Text.{Text, txt, ends_with}
use webhook_idp.Common.Stores.{Store, get}
use webhook_idp.Launcher.{App, http, worker, pending, Launch, launch}
use webhook_idp.Launcher.EnvFile.{parse_env_file}
use webhook_idp.Launcher.Dependencies.{includes_text}

-- What of a package is read: the name and the script `start:dev` of its package.json, and the texts
-- of its files, where they are there.
pub record Package : Type 0 where
  pub name : Text
  pub start_dev : Option Text
  pub env_file : Option Text
  pub env_example : Option Text
  pub main_file : Option Text

-- An entry of a directory.
pub record Entry : Type 0 where
  pub name : Text
  pub is_directory : Bool

-- `entries` is `none` for a path that does not exist; `has_package` is the test for a package.json;
-- `number` is `Number`, with 0 for NaN: up to the start the script only asks whether a port is truthy,
-- and neither is. A port that `net.connect` refuses ends the script at its first probe, so the model
-- reaches no state there that the script reaches.
pub record Platform : Type 0 where
  pub path_join : Text → Text → Text
  pub entries : Text → Option (List Entry)
  pub has_package : Text → Bool
  pub read_package : Text → Package
  pub number : Text → ℕ

-- The field `workspaces` of the root's package.json.
pub data Workspaces : Type 0 where
  no_workspaces : Workspaces
  patterns : List Text → Workspaces
  packages : Option (List Text) → Workspaces

abbrev pub patterns_of : Workspaces → List Text
patterns_of no_workspaces = []
patterns_of (patterns list) = list
patterns_of (packages none) = []
patterns_of (packages (some list)) = list

abbrev pub directories : Platform → Text → List Entry → List Text
directories platform base [] = []
directories platform base (entry ∷ entries) =
    let rest = directories platform base entries in
    if entry.is_directory then platform.path_join base entry.name ∷ rest else rest

abbrev pub directories_in : Platform → Text → Option (List Entry) → List Text
directories_in platform base none = []
directories_in platform base (some entries) = directories platform base entries

-- `pattern.slice(0, -2)`
abbrev pub without_star : Text → Text
without_star pattern = reverse (drop 2 (reverse pattern))

abbrev pub directories_of : Platform → Text → Text → List Text
directories_of platform root pattern =
    let base = platform.path_join root (without_star pattern) in
    if ends_with pattern (txt "/*")
    then directories_in platform base (platform.entries base)
    else platform.path_join root pattern ∷ []

abbrev pub all_directories : Platform → Text → List Text → List Text
all_directories platform root [] = []
all_directories platform root (pattern ∷ others) =
    directories_of platform root pattern ++ all_directories platform root others

unfoldable pub workspace_dirs : Platform → Text → Workspaces → List Text
workspace_dirs platform root workspaces =
    filter platform.has_package (all_directories platform root (patterns_of workspaces))

-- The variables of the package: of .env, or of .env.example if there is no .env.
abbrev pub env_of : Package → Store Text
env_of pkg = elim pkg.env_file [
  | some text ↦ parse_env_file (some text)
  | none ↦ parse_env_file pkg.env_example
]

-- `env.PORT || 3000`
abbrev pub port_of : (Text → ℕ) → Option Text → ℕ
port_of number none = 3000
port_of number (some []) = 3000
port_of number (some (c ∷ text)) = number (c ∷ text)

-- `/\.listen\(/.test(main)`
abbrev pub is_http_main : Option Text → Bool
is_http_main none = false
is_http_main (some main) = includes_text main (txt ".listen(")

abbrev pub app_of : (Text → ℕ) → Package → App
app_of number pkg =
    let serves = is_http_main pkg.main_file in
    record {
      name = pkg.name;
      kind = if serves then http else worker;
      port = if serves then port_of number (get (txt "PORT") (env_of pkg)) else 0;
      state = pending;
      has_child = false;
    }

-- A script that is missing or empty is not truthy.
abbrev pub if_script : Option Text → App → Option App
if_script none app = none
if_script (some []) app = none
if_script (some (c ∷ script)) app = some app

unfoldable pub describe_app : (Text → ℕ) → Package → Option App
describe_app number pkg = if_script pkg.start_dev (app_of number pkg)

-- `.filter(Boolean)`
abbrev pub keep : Option App → List App → List App
keep none apps = apps
keep (some app) apps = app ∷ apps

unfoldable pub describe_all : Platform → List Text → List App
describe_all platform [] = []
describe_all platform (dir ∷ dirs) =
    keep (describe_app platform.number (platform.read_package dir)) (describe_all platform dirs)

-- The script, from the packages to where it begins to wait. An app is as its turn in the loop left
-- it: a child that ends while the loop waits for a later probe is not recorded, and where it was the
-- last that ran, its `exit` callback ends the script before it comes to wait.
unfoldable pub main : Platform → Text → Workspaces → (ℕ → Bool) → List Text → Launch
main platform root workspaces in_use args =
    launch in_use (describe_all platform (workspace_dirs platform root workspaces)) args
