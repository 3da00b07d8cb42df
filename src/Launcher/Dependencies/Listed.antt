-- ===== src/Launcher/Dependencies/Listed.antt =====
-- What the script lists of the services, in terms of the variables of the apps.
use webhook_idp.Common.{
  ◌≤◌, ◌≡◌, refl, sym, ap, ◌∙◌, Bool, false, ◌&&◌, Option, none, some, List, [], ◌∷◌, ◌++◌, inl,
  inr, if◌then◌else◌, Bool-cases, length, filter, All, arith,
}
use webhook_idp.Common.Text.{Text, txt, ◌===◌}
use webhook_idp.Common.Stores.{Store, get, values}
use webhook_idp.Subscription.TargetUrl.{Url, UrlParser}
use webhook_idp.Launcher.Dependencies.{
  Known, known_services, Configured, Dependency, dependency_of, use_of, without_brackets,
  includes_text, target_of, address_of_url, port_or, add_apps, collect_dependencies,
}
use webhook_idp.Launcher.Dependencies.Grouped.{
  IsPlain, IsIndexed, app_uses, all_uses, users, with_id, users-append, add_apps-IsGrouped,
  known_services-IsPlain,
}

-- The service that the value of a variable names: the host without brackets, a colon and the port,
-- which is the variable's usual one if the URL has none; or the value itself, if it is no URL, or a
-- `+srv` one, or one with no host.
abbrev shown : Text → Text → Text → Text → Text
shown value usual [] port = value
shown value usual (c ∷ host) [] = (c ∷ host) ++ b':' ∷ usual
shown value usual (c ∷ host) (d ∷ port) = (c ∷ host) ++ b':' ∷ d ∷ port

abbrev named_by_url : Text → Text → Option Url → Text
named_by_url value usual none = value
named_by_url value usual (some u) =
    if includes_text u.protocol (txt "+srv")
    then value
    else shown value usual (without_brackets u.hostname) u.port

-- The variable has a value, and it names the service with the label and the target.
abbrev names_service : UrlParser → Text → Text → Known → Option Text → Bool
names_service parse label target known none = false
names_service parse label target known (some []) = false
names_service parse label target known (some (c ∷ value)) =
    known.label === label
    && named_by_url (c ∷ value) known.default_port (parse (c ∷ value)) === target

-- The app, once for each of its variables that name the service.
abbrev pub uses_of_app : UrlParser → Text → Text → Configured → List Known → List Text
uses_of_app parse label target app [] = []
uses_of_app parse label target app (known ∷ others) =
    (if names_service parse label target known (get known.key app.env) then app.name ∷ [] else [])
    ++ uses_of_app parse label target app others

abbrev pub uses_of_apps : UrlParser → Text → Text → List Configured → List Text
uses_of_apps parse label target [] = []
uses_of_apps parse label target (app ∷ apps) =
    uses_of_app parse label target app known_services ++ uses_of_apps parse label target apps

-- The entries of the list for the service, and the apps that they show.
abbrev pub listed : Text → Text → List Dependency → List Dependency
listed label target = filter (λ d. d.label === label && d.target === target)

abbrev pub listed_apps : List Dependency → List Text
listed_apps [] = []
listed_apps (d ∷ dependencies) = d.used_by ++ listed_apps dependencies

-- Texts that are joined by the first at sign are equal if the parts are.
joined_test :
    (a b x y : Text)
    → IsPlain a
    → IsPlain b
    → ((a ++ b'@' ∷ x) === (b ++ b'@' ∷ y)) ≡ (a === b && x === y)
unfolding ◌===◌
joined_test [] [] x y pa pb = refl
joined_test [] (c ∷ b) x y pa pb = ground (arith, pb)
joined_test (c ∷ a) [] x y pa pb = ground (arith, pa)
joined_test (c ∷ a) (d ∷ b) x y pa pb =
    let rest = joined_test a b x y (ground (arith, pa)) (ground (arith, pb)) in ground (arith, rest)

shown_lem :
    (value usual host port : Text)
    → target_of value (some (host, port_or usual port)) ≡ shown value usual host port
shown_lem value usual [] port = refl
shown_lem value usual (c ∷ host) [] = refl
shown_lem value usual (c ∷ host) (d ∷ port) = refl

target_lem :
    (value usual : Text) (found : Option Url)
    → target_of value (address_of_url usual found) ≡ named_by_url value usual found
target_lem value usual none = refl
target_lem value usual (some u) = elim (Bool-cases (includes_text u.protocol (txt "+srv"))) [
  | inl srv ↦ rw srv refl
  | inr plain ↦ rw plain (shown_lem value usual (without_brackets u.hostname) u.port)
]

use_lem :
    (parse : UrlParser) (label target name : Text) (known : Known) (value : Option Text)
    → IsPlain label
    → IsPlain known.label
    → users (label ++ b'@' ∷ target) (use_of parse known name value)
      ≡ (if names_service parse label target known value then name ∷ [] else [])
unfolding dependency_of
use_lem parse label target name known none p q = refl
use_lem parse label target name known (some []) p q = refl
use_lem parse label target name known (some (c ∷ value)) p q =
    let named = target_lem (c ∷ value) known.default_port (parse (c ∷ value)) in
    rw (joined_test known.label label _ target q p, named) refl

listed_lem :
    (label target : Text) (deps : Store Dependency)
    → IsPlain label
    → IsIndexed deps
    → (with_id (label ++ b'@' ∷ target) (values deps) ≡ listed label target (values deps))
      × (users (label ++ b'@' ∷ target) (values deps)
          ≡ listed_apps (listed label target (values deps)))
listed_lem label target [] p h = (refl, refl)
listed_lem label target (entry ∷ deps) p (held, only, plain, h) =
    let (same, apps) = listed_lem label target deps p h in
    rw (joined_test entry.1.label label entry.1.target target plain p)
      (elim (Bool-cases (entry.1.label === label && entry.1.target === target)) [
        | inl here ↦ rw here (ap (λ l. entry.1 ∷ l) same, ap (λ l. entry.1.used_by ++ l) apps)
        | inr other ↦ rw other (same, apps)
      ])

joined : {a b c d : List Text} → a ≡ b → c ≡ d → a ++ c ≡ b ++ d
joined e f = cc (e, f)

app_uses_lem :
    (parse : UrlParser) (label target : Text) (app : Configured) (known : List Known)
    → IsPlain label
    → All (λ k. IsPlain k.label) known
    → users (label ++ b'@' ∷ target) (app_uses parse app known)
      ≡ uses_of_app parse label target app known
app_uses_lem parse label target app [] p h = refl
app_uses_lem parse label target app (known ∷ others) p (one, h) =
    let value = get known.key app.env in
    users-append (label ++ b'@' ∷ target) (use_of parse known app.name value) _
    ∙ joined (use_lem parse label target app.name known value p one)
        (app_uses_lem parse label target app others p h)

all_uses_lem :
    (parse : UrlParser) (label target : Text) (apps : List Configured)
    → IsPlain label
    → users (label ++ b'@' ∷ target) (all_uses parse apps) ≡ uses_of_apps parse label target apps
all_uses_lem parse label target [] p = refl
all_uses_lem parse label target (app ∷ apps) p =
    users-append (label ++ b'@' ∷ target) (app_uses parse app known_services) _
    ∙ joined (app_uses_lem parse label target app known_services p known_services-IsPlain)
        (all_uses_lem parse label target apps p)

-- Whatever the apps' variables: for a label with no at sign, as the program's have, and a target,
-- which is a host with a port, or a whole value where it names no host to probe, the list has one
-- entry at most. The apps that it shows for them are those that have a variable with the label whose
-- value names the target, in their order, once for each such variable; so there is none if no
-- variable does.
pub collect_dependencies_lem :
    (parse : UrlParser) (apps : List Configured) (label target : Text)
    → IsPlain label
    → (length (listed label target (collect_dependencies parse apps)) ≤ 1)
      × (listed_apps (listed label target (collect_dependencies parse apps))
          ≡ uses_of_apps parse label target apps)
unfolding collect_dependencies
collect_dependencies_lem parse apps label target p =
    let (indexed, once, used) = add_apps-IsGrouped parse apps (label ++ b'@' ∷ target) in
    let (same, shown_) = listed_lem label target (add_apps parse apps []) p indexed in
    (rw (← same) once, sym shown_ ∙ (used ∙ all_uses_lem parse label target apps p))
