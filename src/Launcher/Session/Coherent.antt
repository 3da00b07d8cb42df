-- ===== src/Launcher/Session/Coherent.antt =====
-- What is true of the apps at every moment.
use webhook_idp.Common.{
  ℕ, ◌≡◌, refl, subst, ◌∙◌, inl, inr, Bool, true, false, Option, none, some, List, [], ◌∷◌, arith,
  All, Bool-cases, Option-cases,
}
use webhook_idp.Common.Text.{Text}
use webhook_idp.Launcher.{App, pending, launch, launched}
use webhook_idp.Launcher.Started.{select-All, launch-start_free}
use webhook_idp.Launcher.Session.{
  Session, Event, child_exits, probe_sent, probe_answered, stop_asked, stop_checked, nth, none_runs,
  on_exit, on_probe, watches, check_stopped, stop_once, ended_by_exit, answer, step, run, watched,
  handle,
}
use webhook_idp.Launcher.Session.Apps.{
  IsCoherent, after_exit-kind, after_exit-IsCoherent, after_probe-IsCoherent, http_at,
  http_at-modify, All-modify, http-modify, watches-http_at, map-All,
}

some_inj : {A : Type 0} {a b : A} → some a ≡ some b → a ≡ b
some_inj h = cc h

pub record IsSound (s : Session) : Type 0 where
  pub coherent : All IsCoherent s.apps
  pub probed : (n : ℕ) → s.probing ≡ some n → http_at n s.apps ≡ true
  -- The process has ended only when no child was left.
  pub last : (code : ℕ) → s.ended ≡ some code → none_runs s.apps ≡ true

ended_by_exit-none_runs :
    (stopping : Option ℕ) (apps : List App) (code : ℕ)
    → ended_by_exit stopping apps ≡ some code
    → none_runs apps ≡ true
ended_by_exit-none_runs none apps code h = elim (Bool-cases (none_runs apps)) [
  | inl idle ↦ idle
  | inr runs ↦ absurd (ground (arith, h, runs))
]
ended_by_exit-none_runs (some c) apps code h = absurd (ground (arith, h))

exit-IsSound : (n : ℕ) (reason : Text) (s : Session) → IsSound s → IsSound (on_exit n reason s)
unfolding on_exit
exit-IsSound n reason s h = record {
  coherent = All-modify _ n s.apps (after_exit-IsCoherent s.stopping reason) h.coherent;
  probed = λ m e. http_at-modify _ m n s.apps (after_exit-kind s.stopping reason) ∙ h.probed m e;
  last = λ code e. ended_by_exit-none_runs s.stopping _ code e;
}

probe-IsSound :
    (probing : Option ℕ) (n : ℕ) (s : Session) → IsSound s → IsSound (on_probe probing n s)
unfolding on_probe
probe-IsSound (some m) n s h = h
probe-IsSound none n s h = elim (Bool-cases (watches (nth n s.apps))) [
  | inl watched ↦ rw watched (record {
    coherent = h.coherent;
    probed =
        λ m e. subst (λ k. http_at k s.apps ≡ true) (some_inj e) (watches-http_at n s.apps watched);
    last = h.last;
  })
  | inr other ↦ rw other h
]

answer-IsSound :
    (probing : Option ℕ) (up : Bool) (s : Session)
    → s.ended ≡ none
    → s.probing ≡ probing
    → IsSound s
    → IsSound (answer probing up s)
answer-IsSound none up s going e h = h
answer-IsSound (some n) up s going e h = record {
  coherent = http-modify _ n s.apps (h.probed n e) (after_probe-IsCoherent up) h.coherent;
  probed = λ m no_probe. cc;
  last = λ code e. absurd (ground (arith, going, e));
}

check-IsSound : (stopping : Option ℕ) (s : Session) → IsSound s → IsSound (check_stopped stopping s)
check-IsSound none s h = h
check-IsSound (some c) s h = elim (Bool-cases (none_runs s.apps)) [
  | inl idle ↦
      simp idle (record { coherent = h.coherent; probed = h.probed; last = λ code e. idle })
  | inr runs ↦ simp runs h
]

stop-IsSound :
    (stopping : Option ℕ) (code : ℕ) (s : Session) → IsSound s → IsSound (stop_once stopping code s)
stop-IsSound none code s h = record { coherent = h.coherent; probed = h.probed; last = h.last }
stop-IsSound (some c) code s h = h

handle-IsSound :
    (event : Event) (s : Session) → s.ended ≡ none → IsSound s → IsSound (handle event s)
handle-IsSound (child_exits n reason) s going h = exit-IsSound n reason s h
handle-IsSound (probe_sent n) s going h = probe-IsSound s.probing n s h
handle-IsSound (probe_answered up) s going h = answer-IsSound s.probing up s going refl h
handle-IsSound (stop_asked code) s going h = stop-IsSound s.stopping code s h
handle-IsSound stop_checked s going h = check-IsSound s.stopping s h

step-IsSound : (event : Event) (s : Session) → IsSound s → IsSound (step event s)
unfolding step
step-IsSound event s h = elim (Option-cases s.ended) [
  | inl going ↦ simp going (handle-IsSound event s going h)
  | inr (code, over) ↦ simp over h
]

run-IsSound : (events : List Event) (s : Session) → IsSound s → IsSound (run events s)
unfolding run
run-IsSound [] s h = h
run-IsSound (event ∷ events) s h = run-IsSound events (step event s) (step-IsSound event s h)

-- Apps are found, none of which runs yet, and the script has come to wait for some of them, with no
-- child ended before that and each port a number. Then, whatever happens and in whatever order, an app whose child runs is STARTING or READY if it serves
-- HTTP and RUNNING if not, an app that does not serve HTTP is never READY nor probed, and if the
-- script has ended, no child of its is left.
pub launch-run-IsSound :
    (in_use : ℕ → Bool) (discovered : List App) (args : List Text) (apps : List App)
    (events : List Event)
    → All (λ app. (app.has_child ≡ false) × (app.state ≡ pending)) discovered
    → launch in_use discovered args ≡ launched apps
    → IsSound (run events (watched apps))
launch-run-IsSound in_use discovered args apps events fresh h =
    run-IsSound events (watched apps) (record {
      coherent =
          subst (All IsCoherent) (launch-start_free in_use discovered args apps h)
            (map-All in_use _ (select-All _ discovered args fresh));
      probed = λ n e. absurd (ground (arith, e));
      last = λ code e. absurd (ground (arith, e));
    })
