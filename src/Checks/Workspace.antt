-- ===== src/Checks/Workspace.antt =====
-- The theorem on the launcher as a whole, at a concrete workspace.
use webhook_idp.Common.{ℕ, Bool, true, false, none, some, List, [], ◌∷◌, ◌++◌, if◌then◌else◌}
use webhook_idp.Common.Text.{txt, ◌===◌, starts_with, digits_value}
use webhook_idp.Launcher.{App, http, worker, starting, running}
use webhook_idp.Launcher.Discovery.{Package, Platform, Workspaces, patterns}

abbrev api_package : Package
api_package = record {
  name = txt "api";
  start_dev = some (txt "nest start");
  env_file = some (txt "PORT='3002'\n");
  env_example = some (txt "PORT=3000\n");
  main_file = some (txt "app.listen(port)");
}

abbrev ingestion_package : Package
ingestion_package = record {
  name = txt "ingestion";
  start_dev = some (txt "nest start");
  env_file = none;
  env_example = none;
  main_file = some (txt "app.init()");
}

abbrev library_package : Package
library_package = record {
  name = txt "library";
  start_dev = none;
  env_file = none;
  env_example = none;
  main_file = none;
}

-- Three packages and a file under /packages; the package of the file system that is none of these
-- is the library.
abbrev platform : Platform
platform = record {
  path_join = λ base name. base ++ b'/' ∷ name;
  entries = λ base.
      if base === txt "/packages"
      then some (
          record { name = txt "api"; is_directory = true }
          ∷ record { name = txt "README.md"; is_directory = false }
          ∷ record { name = txt "worker"; is_directory = true }
          ∷ record { name = txt "library"; is_directory = true }
          ∷ [])
      else none;
  has_package = λ dir. starts_with dir (txt "/packages/");
  read_package = λ dir.
      if dir === txt "/packages/api"
      then api_package
      else if dir === txt "/packages/worker"
      then ingestion_package
      else library_package;
  number = digits_value 0;
}

abbrev workspaces : Workspaces
workspaces = patterns (txt "packages/*" ∷ txt "tools/*" ∷ txt "docs" ∷ [])

abbrev nothing_in_use : ℕ → Bool
nothing_in_use port = false

abbrev waited_for : List App
waited_for =
    record { name = txt "api"; kind = http; port = 3002; state = starting; has_child = true }
    ∷ record { name = txt "ingestion"; kind = worker; port = 0; state = running; has_child = true }
    ∷ []
