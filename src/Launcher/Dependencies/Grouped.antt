-- ===== src/Launcher/Dependencies/Grouped.antt =====
-- What the script lists of the services: each once, with the apps that use it.
use mathlib.Core.List.{append_assoc, append-nil}
use webhook_idp.Common.{
  ◌≤◌, ◌≡◌, refl, sym, ap, ◌∙◌, subst, inl, inr, false, Option, none, some, List, [], ◌∷◌, ◌++◌,
  if◌then◌else◌, Bool-cases, Option-cases, length, filter, any, ◌==◌, All, arith,
}
use webhook_idp.Common.Text.{Text, txt, ◌===◌, ===_iff, ===_comm}
use webhook_idp.Common.Stores.{Store, set, get, values, get-set}
use webhook_idp.Subscription.TargetUrl.{UrlParser}
use webhook_idp.Launcher.Dependencies.{
  Known, known_services, Configured, Dependency, id_of, dependency_of, add_use, use_of, add_all,
  add_app, add_apps, collect_dependencies,
}

-- The text has no at sign.
abbrev pub IsPlain : Text → Type 0
IsPlain text = any (λ c. c == b'@') text ≡ false

-- Every use of a service by an app, in order.
abbrev pub app_uses : UrlParser → Configured → List Known → List Dependency
app_uses parse app [] = []
app_uses parse app (known ∷ others) =
    use_of parse known app.name (get known.key app.env) ++ app_uses parse app others

abbrev pub all_uses : UrlParser → List Configured → List Dependency
all_uses parse [] = []
all_uses parse (app ∷ apps) = app_uses parse app known_services ++ all_uses parse apps

-- The apps of the dependencies with an id.
abbrev pub users : Text → List Dependency → List Text
users id [] = []
users id (dependency ∷ dependencies) =
    let rest = users id dependencies in
    if id_of dependency === id then dependency.used_by ++ rest else rest

abbrev used_by_found : Option Dependency → List Text
used_by_found none = []
used_by_found (some dependency) = dependency.used_by

abbrev pub with_id : Text → List Dependency → List Dependency
with_id id dependencies = filter (λ dependency. id_of dependency === id) dependencies

-- Each dependency is stored under its own id, no two under one, and no label has an at sign.
abbrev pub IsIndexed : Store Dependency → Type 0
IsIndexed [] = Unit {0}
IsIndexed (entry ∷ deps) =
    (entry.0 ≡ id_of entry.1) × (get entry.0 deps ≡ none) × IsPlain entry.1.label × IsIndexed deps

set-IsIndexed :
    (key : Text) (new : Dependency) (deps : Store Dependency)
    → key ≡ id_of new
    → IsPlain new.label
    → IsIndexed deps
    → IsIndexed (set key new deps)
unfolding set get
set-IsIndexed key new [] own plain h = (own, refl, plain, tt)
set-IsIndexed key new (entry ∷ deps) own plain (held, only, p, h) =
    elim (Bool-cases (entry.0 === key)) [
      | inl same ↦
          rw same
            (own, subst (λ k. get k deps ≡ none) ((===_iff entry.0 key).0 same) only, plain, h)
      | inr other ↦ rw other (
        held,
        get-set key new deps entry.0 ∙ rw (===_comm key entry.0, other) only,
        p,
        set-IsIndexed key new deps own plain h,
      )
    ]

get-own :
    (key : Text) (deps : Store Dependency) (found : Dependency)
    → IsIndexed deps
    → get key deps ≡ some found
    → (key ≡ id_of found) × IsPlain found.label
unfolding get
get-own key [] found h e = absurd (ground arith)
get-own key (entry ∷ deps) found (held, only, plain, h) e = elim (Bool-cases (entry.0 === key)) [
  | inl same ↦
      let here : entry.1 ≡ found = ground (arith, e, same) in
      (
        sym ((===_iff entry.0 key).0 same) ∙ held ∙ ap id_of here,
        subst (λ d. IsPlain d.label) here plain,
      )
  | inr other ↦ get-own key deps found h (ground (arith, e, other))
]

add_use-IsIndexed :
    (new : Dependency) (deps : Store Dependency)
    → IsPlain new.label
    → IsIndexed deps
    → IsIndexed (add_use new deps)
unfolding add_use
add_use-IsIndexed new deps plain h = elim (Option-cases (get (id_of new) deps)) [
  | inl fresh ↦ rw fresh (set-IsIndexed (id_of new) new deps refl plain h)
  | inr (existing, found) ↦
      let (own, kept) = get-own (id_of new) deps existing h found in
      rw found (set-IsIndexed (id_of new) _ deps own kept h)
]

found-merged :
    (key id : Text) (deps : Store Dependency) (old : Option Dependency) (merged : Dependency)
    (names : List Text)
    → get key deps ≡ old
    → merged.used_by ≡ used_by_found old ++ names
    → used_by_found (if key === id then some merged else get id deps)
      ≡ used_by_found (get id deps) ++ (if key === id then names ++ [] else [])
found-merged key id deps old merged names found joined = elim (Bool-cases (key === id)) [
  | inl same ↦
      let here : get id deps ≡ old =
        subst (λ k. get k deps ≡ old) ((===_iff key id).0 same) found in
      rw (same, here, append-nil names) joined
  | inr other ↦ rw other (sym (append-nil _))
]

-- A use adds its app to those of its service and to no other's.
found-add_use :
    (id : Text) (new : Dependency) (deps : Store Dependency)
    → used_by_found (get id (add_use new deps)) ≡ used_by_found (get id deps) ++ users id (new ∷ [])
unfolding add_use
found-add_use id new deps = elim (Option-cases (get (id_of new) deps)) [
  | inl fresh ↦ rw fresh (
      ap used_by_found (get-set (id_of new) new deps id)
      ∙ found-merged (id_of new) id deps none new new.used_by fresh refl)
  | inr (existing, found) ↦ rw found (
      ap used_by_found (get-set (id_of new) _ deps id)
      ∙ found-merged (id_of new) id deps (some existing) _ new.used_by found refl)
]

users-found :
    (id : Text) (deps : Store Dependency)
    → IsIndexed deps
    → users id (values deps) ≡ used_by_found (get id deps)
unfolding get
users-found id [] h = refl
users-found id (entry ∷ deps) (held, only, plain, h) =
    let rest = users-found id deps h in
    rw (← held) (elim (Bool-cases (entry.0 === id)) [
      | inl same ↦
          let none_left = subst (λ k. get k deps ≡ none) ((===_iff entry.0 id).0 same) only in
          rw (same, rest, none_left) (append-nil entry.1.used_by)
      | inr other ↦ rw other rest
    ])

with_id-none :
    (id : Text) (deps : Store Dependency)
    → IsIndexed deps
    → get id deps ≡ none
    → with_id id (values deps) ≡ []
unfolding get
with_id-none id [] h e = refl
with_id-none id (entry ∷ deps) (held, only, plain, h) e =
    rw (← held) (elim (Bool-cases (entry.0 === id)) [
      | inl same ↦ absurd (ground (arith, e, same))
      | inr other ↦ rw other (with_id-none id deps h (ground (arith, e, other)))
    ])

with_id-length :
    (id : Text) (deps : Store Dependency) → IsIndexed deps → length (with_id id (values deps)) ≤ 1
with_id-length id [] h = omega arith
with_id-length id (entry ∷ deps) (held, only, plain, h) =
    rw (← held) (elim (Bool-cases (entry.0 === id)) [
      | inl same ↦
          let none_left = subst (λ k. get k deps ≡ none) ((===_iff entry.0 id).0 same) only in
          rw (same, with_id-none id deps h none_left) (omega arith)
      | inr other ↦ rw other (with_id-length id deps h)
    ])

pub users-append :
    (id : Text) (first second : List Dependency)
    → users id (first ++ second) ≡ users id first ++ users id second
users-append id [] second = refl
users-append id (d ∷ first) second =
    ground (
      arith,
      users-append id first second,
      append_assoc d.used_by (users id first) (users id second),
    )

-- What a list of uses makes of the stored dependencies.
record IsAdded (uses : List Dependency) (deps after : Store Dependency) : Type 0 where
  indexed : IsIndexed deps → IsIndexed after
  found : (id : Text) → used_by_found (get id after) ≡ used_by_found (get id deps) ++ users id uses

IsAdded-nil : (deps : Store Dependency) → IsAdded [] deps deps
IsAdded-nil deps = record { indexed = λ h. h; found = λ id. sym (append-nil _) }

IsAdded-append :
    (first second : List Dependency) (deps between after : Store Dependency)
    → IsAdded first deps between
    → IsAdded second between after
    → IsAdded (first ++ second) deps after
IsAdded-append first second deps between after f s = record {
  indexed = λ h. s.indexed (f.indexed h);
  found = λ id.
      s.found id
      ∙ ap (λ l. l ++ users id second) (f.found id)
      ∙ append_assoc _ (users id first) (users id second)
      ∙ ap (λ l. used_by_found (get id deps) ++ l) (sym (users-append id first second));
}

add_all-IsAdded :
    (uses : List Dependency) (deps : Store Dependency)
    → All (λ new. IsPlain new.label) uses
    → IsAdded uses deps (add_all uses deps)
add_all-IsAdded [] deps plain = IsAdded-nil deps
add_all-IsAdded (new ∷ uses) deps (one, plain) =
    IsAdded-append (new ∷ []) uses deps (add_use new deps) _
      (record { indexed = add_use-IsIndexed new deps one; found = λ id. found-add_use id new deps })
      (add_all-IsAdded uses (add_use new deps) plain)

use_of-IsPlain :
    (parse : UrlParser) (known : Known) (name : Text) (value : Option Text)
    → IsPlain known.label
    → All (λ new. IsPlain new.label) (use_of parse known name value)
unfolding dependency_of
use_of-IsPlain parse known name none plain = tt
use_of-IsPlain parse known name (some []) plain = tt
use_of-IsPlain parse known name (some (c ∷ value)) plain = (plain, tt)

add_app-IsAdded :
    (parse : UrlParser) (app : Configured) (known : List Known) (deps : Store Dependency)
    → All (λ k. IsPlain k.label) known
    → IsAdded (app_uses parse app known) deps (add_app parse app known deps)
unfolding add_app
add_app-IsAdded parse app [] deps plain = IsAdded-nil deps
add_app-IsAdded parse app (known ∷ others) deps (one, plain) =
    IsAdded-append _ (app_uses parse app others) deps _ _
      (add_all-IsAdded (use_of parse known app.name (get known.key app.env)) deps
        (use_of-IsPlain parse known app.name (get known.key app.env) one))
      (add_app-IsAdded parse app others _ plain)

pub known_services-IsPlain : All (λ k. IsPlain k.label) known_services
unfolding known_services txt
known_services-IsPlain = (refl, (refl, tt))

add_apps-IsAdded :
    (parse : UrlParser) (apps : List Configured) (deps : Store Dependency)
    → IsAdded (all_uses parse apps) deps (add_apps parse apps deps)
unfolding add_apps
add_apps-IsAdded parse [] deps = IsAdded-nil deps
add_apps-IsAdded parse (app ∷ apps) deps =
    IsAdded-append (app_uses parse app known_services) (all_uses parse apps) deps _ _
      (add_app-IsAdded parse app known_services deps known_services-IsPlain)
      (add_apps-IsAdded parse apps _)

-- The ids of the list of services are their labels with their targets.
pub add_apps-IsGrouped :
    (parse : UrlParser) (apps : List Configured) (id : Text)
    → IsIndexed (add_apps parse apps [])
      × (length (with_id id (collect_dependencies parse apps)) ≤ 1)
      × (users id (collect_dependencies parse apps) ≡ users id (all_uses parse apps))
unfolding collect_dependencies get
add_apps-IsGrouped parse apps id =
    let added = add_apps-IsAdded parse apps [] in
    let indexed = added.indexed tt in
    (
      indexed,
      with_id-length id (add_apps parse apps []) indexed,
      users-found id (add_apps parse apps []) indexed ∙ added.found id,
    )
