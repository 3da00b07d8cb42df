-- ===== src/Launcher/Discovery/Described.antt =====
-- The script from the packages of the workspace to where it begins to wait for the apps.
use webhook_idp.Common.{ℕ, ◌≡◌, Bool, true, some}
use webhook_idp.Common.Text.{Text}
use webhook_idp.Launcher.{App, start_free}
use webhook_idp.Launcher.Discovery.{Platform, describe_app}

-- The app is what is described of a package: a directory with a package.json that has a script
-- `start:dev`.
pub record IsDescribed (platform : Platform) (app : App) : Type 0 where
  pub dir : Text
  pub has_package : platform.has_package dir ≡ true
  pub described : describe_app platform.number (platform.read_package dir) ≡ some app

-- The app is what the pass over the apps makes of a described one.
pub record IsHandled (platform : Platform) (in_use : ℕ → Bool) (app : App) : Type 0 where
  pub before : App
  pub found : IsDescribed platform before
  pub handled : start_free in_use before ≡ app
