-- ===== src/Launcher/Session/Apps.antt =====
-- The state of each app of a session, by its kind and whether its child runs.
use webhook_idp.Common.{
  ℕ, zero, suc, ◌≡◌, refl, ap, inl, inr, Bool, true, false, Option, none, some, List, [], ◌∷◌, map,
  arith, All, Bool-cases,
}
use webhook_idp.Common.Text.{Text}
use webhook_idp.Launcher.{
  Kind, http, worker, App, pending, starting, running, ready, start, start_free,
}
use webhook_idp.Launcher.Session.{nth, modify, after_exit, is_http, watches, after_probe}

-- The states of an app whose child runs, by its kind.
abbrev pub is_live : App → Bool
is_live app = elim app.kind [
  | http ↦ elim app.state [ starting ↦ true | ready ↦ true | _ ↦ false ]
  | worker ↦ elim app.state [ running ↦ true | _ ↦ false ]
]

-- An app whose child runs is STARTING or READY if it serves HTTP, and RUNNING if it does not; an app
-- that does not serve HTTP is never READY.
pub record IsCoherent (app : App) : Type 0 where
  pub live : app.has_child ≡ true → is_live app ≡ true
  pub ready_http : app.state ≡ ready → app.kind ≡ http

is_http-http : (kind : Kind) → is_http kind ≡ true → kind ≡ http
is_http-http http h = refl
is_http-http worker h = cc

pub after_exit-kind :
    (stopping : Option ℕ) (reason : Text) (app : App)
    → (after_exit stopping reason app).kind ≡ app.kind
unfolding after_exit
after_exit-kind stopping reason app = elim (Bool-cases app.has_child) [
  | inl runs ↦ rw runs refl
  | inr idle ↦ rw idle refl
]

pub after_exit-IsCoherent :
    (stopping : Option ℕ) (reason : Text) (app : App)
    → IsCoherent app
    → IsCoherent (after_exit stopping reason app)
unfolding after_exit
after_exit-IsCoherent none reason app c = elim (Bool-cases app.has_child) [
  | inl runs ↦ rw runs (record { live = λ h. cc; ready_http = λ h. absurd (ground arith) })
  | inr idle ↦ simp idle c
]
after_exit-IsCoherent (some code) reason app c = elim (Bool-cases app.has_child) [
  | inl runs ↦ rw runs (record { live = λ h. cc; ready_http = λ h. absurd (ground arith) })
  | inr idle ↦ simp idle c
]

pub after_probe-IsCoherent :
    (up : Bool) (app : App) → app.kind ≡ http → IsCoherent app → IsCoherent (after_probe up app)
unfolding after_probe
after_probe-IsCoherent up app h c = record {
  live = λ runs. ground (arith, c.live, h);
  ready_http = λ _. ground (arith, h);
}

-- Whether the app at a place serves HTTP.
abbrev pub http_at : ℕ → List App → Bool
http_at n [] = false
http_at zero (app ∷ apps) = is_http app.kind
http_at (suc n) (app ∷ apps) = http_at n apps

module _ (f : App → App) where
  pub http_at-modify :
      (m n : ℕ) (apps : List App)
      → ((app : App) → (f app).kind ≡ app.kind)
      → http_at m (modify n f apps) ≡ http_at m apps
  http_at-modify m n [] same = refl
  http_at-modify zero zero (app ∷ apps) same = ap is_http (same app)
  http_at-modify zero (suc n) (app ∷ apps) same = refl
  http_at-modify (suc m) zero (app ∷ apps) same = refl
  http_at-modify (suc m) (suc n) (app ∷ apps) same = http_at-modify m n apps same

  pub All-modify :
      (n : ℕ) (apps : List App)
      → ((app : App) → IsCoherent app → IsCoherent (f app))
      → All IsCoherent apps
      → All IsCoherent (modify n f apps)
  All-modify n [] k h = tt
  All-modify zero (app ∷ apps) k (c, h) = (k app c, h)
  All-modify (suc n) (app ∷ apps) k (c, h) = (c, All-modify n apps k h)

  pub http-modify :
      (n : ℕ) (apps : List App)
      → http_at n apps ≡ true
      → ((app : App) → app.kind ≡ http → IsCoherent app → IsCoherent (f app))
      → All IsCoherent apps
      → All IsCoherent (modify n f apps)
  http-modify n [] h k c = tt
  http-modify zero (app ∷ apps) h k (c, cs) = (k app (is_http-http app.kind h) c, cs)
  http-modify (suc n) (app ∷ apps) h k (c, cs) = (c, http-modify n apps h k cs)

pub watches-http_at :
    (n : ℕ) (apps : List App) → watches (nth n apps) ≡ true → http_at n apps ≡ true
watches-http_at n [] h = ground (arith, h)
watches-http_at zero (app ∷ apps) h = ground (arith, h)
watches-http_at (suc n) (app ∷ apps) h = watches-http_at n apps h

start_free-IsCoherent :
    (in_use : ℕ → Bool) (app : App)
    → app.has_child ≡ false
    → app.state ≡ pending
    → IsCoherent (start_free in_use app)
unfolding start_free start
start_free-IsCoherent in_use app idle fresh = record {
  live = λ h. ground (arith, idle, fresh, h);
  ready_http = λ h. ground (arith, idle, fresh, h);
}

pub map-All :
    (in_use : ℕ → Bool) (apps : List App)
    → All (λ app. (app.has_child ≡ false) × (app.state ≡ pending)) apps
    → All IsCoherent (map (start_free in_use) apps)
map-All in_use [] h = tt
map-All in_use (app ∷ apps) ((idle, fresh), h) =
    (start_free-IsCoherent in_use app idle fresh, map-All in_use apps h)
