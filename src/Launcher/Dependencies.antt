-- ===== src/Launcher/Dependencies.antt =====
-- scripts/dev.mjs, `collectDependencies`: the services that the .env files of the apps name. The URL
-- constructor is a parameter. A port is its decimal text, which is how a parsed URL writes it.
pub mod Grouped
pub mod Listed
use webhook_idp.Common.{Bool, ◌||◌, Option, none, some, List, [], ◌∷◌, ◌++◌, if◌then◌else◌, reverse}
use webhook_idp.Common.Text.{Text, txt, starts_with}
use webhook_idp.Common.Stores.{Store, set, get, values}
use webhook_idp.Subscription.TargetUrl.{Url, UrlParser}

-- A variable that names a service.
pub record Known : Type 0 where
  pub key : Text
  pub label : Text
  pub default_port : Text

unfoldable pub known_services : List Known
known_services =
    record { key = txt "MONGODB_URI"; label = txt "MongoDB"; default_port = txt "27017" }
    ∷ record { key = txt "RABBIT_MQ_CONN"; label = txt "RabbitMQ"; default_port = txt "5672" }
    ∷ []

-- What of an app is read: its name and its .env file.
pub record Configured : Type 0 where
  pub name : Text
  pub env : Store Text

pub record Dependency : Type 0 where
  pub label : Text
  pub address : Option (Text × Text)
  pub target : Text
  pub used_by : List Text

abbrev pub without_first : Text → Text → Text
without_first unit [] = []
without_first unit (c ∷ s) = if starts_with (c ∷ s) unit then s else c ∷ s

-- `hostname.replace(/^\[|\]$/g, '')`
unfoldable pub without_brackets : Text → Text
without_brackets hostname =
    reverse (without_first (txt "]") (reverse (without_first (txt "[") hostname)))

-- `protocol.includes(text)`
unfoldable pub includes_text : Text → Text → Bool
includes_text [] text = starts_with [] text
includes_text (c ∷ s) text = starts_with (c ∷ s) text || includes_text s text

abbrev pub port_or : Text → Text → Text
port_or default_port [] = default_port
port_or default_port (c ∷ s) = c ∷ s

-- The host and the port to probe, if the value is a URL that names them.
abbrev pub address_of_url : Text → Option Url → Option (Text × Text)
address_of_url default_port none = none
address_of_url default_port (some url) =
    if includes_text url.protocol (txt "+srv")
    then none
    else some (without_brackets url.hostname, port_or default_port url.port)

-- `host ? host + ':' + port : value`; an empty host is not truthy.
abbrev pub target_of : Text → Option (Text × Text) → Text
target_of value none = value
target_of value (some ([], port)) = value
target_of value (some (c ∷ host, port)) = (c ∷ host) ++ b':' ∷ port

abbrev pub id_of : Dependency → Text
id_of dependency = dependency.label ++ b'@' ∷ dependency.target

-- The dependency that one app has by one variable's value.
unfoldable pub dependency_of : UrlParser → Known → Text → Text → Dependency
dependency_of parse known name value =
    let address = address_of_url known.default_port (parse value) in
    record {
      label = known.label;
      address = address;
      target = target_of value address;
      used_by = name ∷ [];
    }

abbrev pub push_or_set : Option Dependency → Dependency → Store Dependency → Store Dependency
push_or_set none new deps = set (id_of new) new deps
push_or_set (some existing) new deps =
    set (id_of new) (record existing { used_by = existing.used_by ++ new.used_by }) deps

unfoldable pub add_use : Dependency → Store Dependency → Store Dependency
add_use new deps = push_or_set (get (id_of new) deps) new deps

-- `if (!value) continue;`
abbrev pub use_of : UrlParser → Known → Text → Option Text → List Dependency
use_of parse known name none = []
use_of parse known name (some []) = []
use_of parse known name (some (c ∷ value)) = dependency_of parse known name (c ∷ value) ∷ []

abbrev pub add_all : List Dependency → Store Dependency → Store Dependency
add_all [] deps = deps
add_all (new ∷ uses) deps = add_all uses (add_use new deps)

-- The loop over the known variables, for one app.
unfoldable pub add_app : UrlParser → Configured → List Known → Store Dependency → Store Dependency
add_app parse app [] deps = deps
add_app parse app (known ∷ others) deps =
    add_app parse app others (add_all (use_of parse known app.name (get known.key app.env)) deps)

unfoldable pub add_apps : UrlParser → List Configured → Store Dependency → Store Dependency
add_apps parse [] deps = deps
add_apps parse (app ∷ apps) deps = add_apps parse apps (add_app parse app known_services deps)

unfoldable pub collect_dependencies : UrlParser → List Configured → List Dependency
collect_dependencies parse apps = values (add_apps parse apps [])
