-- ===== src/Checks/Services.antt =====
-- The theorem on the services that the launcher lists, at a concrete input.
use webhook_idp.Common.{◌≤◌, ◌≡◌, refl, Option, none, some, List, [], ◌∷◌, if◌then◌else◌, length}
use webhook_idp.Common.Text.{Text, txt, ◌===◌, starts_with}
use webhook_idp.Common.Stores.{get, set}
use webhook_idp.Subscription.TargetUrl.{Url, UrlParser}
use webhook_idp.Launcher.Dependencies.{
  Configured, collect_dependencies, known_services, dependency_of, add_use, add_app, add_apps,
  without_brackets, includes_text,
}
use webhook_idp.Launcher.Dependencies.Listed.{listed, listed_apps, collect_dependencies_lem}

-- A parser that knows three URLs.
abbrev address : Text → Text → Text → Option Url
address protocol hostname port = some (record {
  href = [];
  protocol = protocol;
  username = [];
  password = [];
  hostname = hostname;
  port = port;
  pathname = [];
  search = [];
  hash = [];
})

abbrev services : UrlParser
services value =
    if value === txt "mongodb://[::1]"
    then address (txt "mongodb:") (txt "[::1]") []
    else if value === txt "amqp://q:5673"
    then address (txt "amqp:") (txt "q") (txt "5673")
    else if value === txt "mongodb+srv://db"
    then address (txt "mongodb+srv:") (txt "db") []
    else none

abbrev apps : List Configured
apps =
    record { name = txt "api"; env = (txt "MONGODB_URI", txt "mongodb://[::1]") ∷ [] }
    ∷ record {
      name = txt "worker";
      env =
          (txt "RABBIT_MQ_CONN", txt "amqp://q:5673")
          ∷ (txt "MONGODB_URI", txt "mongodb://[::1]")
          ∷ [];
    }
    ∷ record {
      name = txt "other";
      env = (txt "RABBIT_MQ_CONN", []) ∷ (txt "MONGODB_URI", txt "mongodb+srv://db") ∷ [];
    }
    ∷ []

services_test :
    collect_dependencies services apps
    ≡ record {
      label = txt "MongoDB";
      address = some (txt "::1", txt "27017");
      target = txt "::1:27017";
      used_by = txt "api" ∷ txt "worker" ∷ [];
    }
      ∷ record {
        label = txt "RabbitMQ";
        address = some (txt "q", txt "5673");
        target = txt "q:5673";
        used_by = txt "worker" ∷ [];
      }
      ∷ record {
        label = txt "MongoDB";
        address = none;
        target = txt "mongodb+srv://db";
        used_by = txt "other" ∷ [];
      }
      ∷ []
unfolding collect_dependencies known_services dependency_of add_use add_app add_apps
    without_brackets includes_text starts_with get set txt ◌===◌
services_test = refl

collect_dependencies_lem_example :
    (length (listed (txt "MongoDB") (txt "::1:27017") (collect_dependencies services apps)) ≤ 1)
    × (listed_apps (listed (txt "MongoDB") (txt "::1:27017") (collect_dependencies services apps))
        ≡ txt "api" ∷ txt "worker" ∷ [])
unfolding known_services without_brackets includes_text starts_with get txt ◌===◌
collect_dependencies_lem_example =
    collect_dependencies_lem services apps (txt "MongoDB") (txt "::1:27017") refl
