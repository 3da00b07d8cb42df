-- ===== src/Launcher/Session/Idle.antt =====
-- A child that has ended does not run again.
use webhook_idp.Common.{
  ℕ, zero, suc, ◌<◌, ◌≡◌, refl, ap, subst, ◌∙◌, inl, inr, Bool, true, false, not, Option, none,
  some, List, [], ◌∷◌, ◌++◌, arith, Bool-cases, Option-cases, ◌==◌, ==_iff, length, ltb,
}
use webhook_idp.Common.Text.{Text}
use webhook_idp.Launcher.{App}
use webhook_idp.Launcher.Session.{
  Session, Event, child_exits, probe_sent, probe_answered, stop_asked, stop_checked, modify,
  none_runs, after_exit, on_exit, on_probe, after_probe, answer, stop_once, check_stopped, handle,
  step, run, watches, nth,
}

-- Whether the child of the app at a place has ended.
abbrev pub idle_at : ℕ → List App → Bool
idle_at n [] = true
idle_at zero (app ∷ apps) = not app.has_child
idle_at (suc n) (app ∷ apps) = idle_at n apps

-- Whether an event is the end of the child at a place.
abbrev pub is_exit_of : ℕ → Event → Bool
is_exit_of n (child_exits m reason) = m == n
is_exit_of n _ = false

module _ (f : App → App)
    (keeps : (app : App) → app.has_child ≡ false → (f app).has_child ≡ false) where
  idle_at-modify :
      (m n : ℕ) (apps : List App) → idle_at m apps ≡ true → idle_at m (modify n f apps) ≡ true
  idle_at-modify m n [] h = refl
  idle_at-modify zero zero (app ∷ apps) h = ground (arith, keeps app, h)
  idle_at-modify zero (suc n) (app ∷ apps) h = h
  idle_at-modify (suc m) zero (app ∷ apps) h = h
  idle_at-modify (suc m) (suc n) (app ∷ apps) h = idle_at-modify m n apps h

after_exit-idle :
    (stopping : Option ℕ) (reason : Text) (app : App)
    → (after_exit stopping reason app).has_child ≡ false
unfolding after_exit
after_exit-idle stopping reason app = ground arith

after_probe-idle :
    (up : Bool) (app : App) → app.has_child ≡ false → (after_probe up app).has_child ≡ false
unfolding after_probe
after_probe-idle up app h = ground (arith, h)

idle_at-exit :
    (stopping : Option ℕ) (reason : Text) (n : ℕ) (apps : List App)
    → idle_at n (modify n (after_exit stopping reason) apps) ≡ true
idle_at-exit stopping reason n [] = refl
idle_at-exit stopping reason zero (app ∷ apps) = ap not (after_exit-idle stopping reason app)
idle_at-exit stopping reason (suc n) (app ∷ apps) = idle_at-exit stopping reason n apps

pub none_runs-idle :
    (apps : List App) → ((n : ℕ) → n < length apps → idle_at n apps ≡ true) → none_runs apps ≡ true
none_runs-idle [] h = refl
none_runs-idle (app ∷ apps) h =
    let first = h 0 (omega arith) in
    let rest = none_runs-idle apps (λ n k. h (suc n) (omega (arith, k))) in
    ground (arith, first, rest)

pub on_probe-same :
    (probing : Option ℕ) (n : ℕ) (s : Session)
    → ((on_probe probing n s).apps ≡ s.apps)
      × ((on_probe probing n s).stopping ≡ s.stopping)
      × ((on_probe probing n s).ended ≡ s.ended)
unfolding on_probe
on_probe-same none n s = elim (Bool-cases (watches (nth n s.apps))) [
  | inl watched ↦ rw watched (refl, refl, refl)
  | inr other ↦ rw other (refl, refl, refl)
]
on_probe-same (some m) n s = (refl, refl, refl)

pub answer-same :
    (probing : Option ℕ) (up : Bool) (s : Session)
    → ((answer probing up s).stopping ≡ s.stopping) × ((answer probing up s).ended ≡ s.ended)
answer-same none up s = (refl, refl)
answer-same (some n) up s = (refl, refl)

answer-idle :
    (probing : Option ℕ) (up : Bool) (n : ℕ) (s : Session)
    → idle_at n s.apps ≡ true
    → idle_at n (answer probing up s).apps ≡ true
answer-idle none up n s h = h
answer-idle (some m) up n s h = idle_at-modify _ (after_probe-idle up) n m s.apps h

stop_once-apps :
    (stopping : Option ℕ) (code : ℕ) (s : Session) → (stop_once stopping code s).apps ≡ s.apps
stop_once-apps none code s = refl
stop_once-apps (some c) code s = refl

check_stopped-apps : (stopping : Option ℕ) (s : Session) → (check_stopped stopping s).apps ≡ s.apps
check_stopped-apps none s = refl
check_stopped-apps (some c) s = elim (Bool-cases (none_runs s.apps)) [
  | inl idle ↦ simp idle refl
  | inr runs ↦ simp runs refl
]

handle-idle :
    (event : Event) (n : ℕ) (s : Session)
    → idle_at n s.apps ≡ true
    → idle_at n (handle event s).apps ≡ true
unfolding on_exit on_probe
handle-idle (child_exits m reason) n s h =
    idle_at-modify _ (λ app _. after_exit-idle s.stopping reason app) n m s.apps h
handle-idle (probe_sent m) n s h = ap (idle_at n) (on_probe-same s.probing m s).0 ∙ h
handle-idle (probe_answered up) n s h = answer-idle s.probing up n s h
handle-idle (stop_asked code) n s h = ap (idle_at n) (stop_once-apps s.stopping code s) ∙ h
handle-idle stop_checked n s h = ap (idle_at n) (check_stopped-apps s.stopping s) ∙ h

step-idle :
    (event : Event) (n : ℕ) (s : Session)
    → idle_at n s.apps ≡ true
    → idle_at n (step event s).apps ≡ true
unfolding step
step-idle event n s h = elim (Option-cases s.ended) [
  | inl going ↦ simp going (handle-idle event n s h)
  | inr (code, over) ↦ simp over h
]

pub run-idle :
    (events : List Event) (n : ℕ) (s : Session)
    → idle_at n s.apps ≡ true
    → idle_at n (run events s).apps ≡ true
unfolding run
run-idle [] n s h = h
run-idle (event ∷ events) n s h = run-idle events n (step event s) (step-idle event n s h)

step-over : (event : Event) (code : ℕ) (s : Session) → s.ended ≡ some code → step event s ≡ s
unfolding step
step-over event code s over = simp over refl

pub run-over :
    (events : List Event) (code : ℕ) (s : Session) → s.ended ≡ some code → run events s ≡ s
unfolding run
run-over [] code s over = refl
run-over (event ∷ events) code s over =
    ap (run events) (step-over event code s over) ∙ run-over events code s over

pub exit-step :
    (event : Event) (n : ℕ) (s : Session)
    → s.ended ≡ none
    → is_exit_of n event ≡ true
    → idle_at n (step event s).apps ≡ true
unfolding step on_exit
exit-step (child_exits m reason) n s going this =
    let same = (==_iff m n).0 this in
    simp going (
      subst (λ k. idle_at k (modify m (after_exit s.stopping reason) s.apps) ≡ true) same
        (idle_at-exit s.stopping reason m s.apps))
exit-step (probe_sent m) n s going this = cc
exit-step (probe_answered up) n s going this = cc
exit-step (stop_asked code) n s going this = cc
exit-step stop_checked n s going this = cc

pub run-append :
    (before after : List Event) (s : Session) → run (before ++ after) s ≡ run after (run before s)
unfolding run
run-append [] after s = refl
run-append (event ∷ before) after s = run-append before after (step event s)

pub idle_at-beyond : (n : ℕ) (apps : List App) → ltb n (length apps) ≡ false → idle_at n apps ≡ true
idle_at-beyond n [] h = refl
idle_at-beyond zero (app ∷ apps) h = absurd (ground (arith, h))
idle_at-beyond (suc n) (app ∷ apps) h = idle_at-beyond n apps (ground (arith, h))

pub stop-apps : (code : ℕ) (s : Session) → (step (stop_asked code) s).apps ≡ s.apps
unfolding step
stop-apps code s = elim (Option-cases s.ended) [
  | inl going ↦ simp going (stop_once-apps s.stopping code s)
  | inr (c, over) ↦ simp over refl
]
