-- ===== src/Launcher/Session/Stopping.antt =====
-- The end of a session that was asked to stop.
use webhook_idp.Common.{
  ℕ, ◌<◌, ◌≡◌, refl, ap, sym, subst, ◌∙◌, ◌⊎◌, inl, inr, true, none, some, List, [], ◌∷◌, ◌++◌,
  arith, Bool-cases, length, ltb, any,
}
use webhook_idp.Launcher.Session.{
  Session, Event, child_exits, probe_sent, probe_answered, stop_asked, stop_checked, modify,
  none_runs, after_exit, on_exit, stop_once, check_stopped, handle, ended_by_exit, step, run,
}
use webhook_idp.Launcher.Session.Idle.{
  idle_at, is_exit_of, none_runs-idle, on_probe-same, answer-same, run-idle, run-over, exit-step,
  run-append, idle_at-beyond, stop-apps,
}

-- The script was asked to stop with `code`, and has not ended with another.
record IsStopping (code : ℕ) (s : Session) : Type 0 where
  asked : s.stopping ≡ some code
  over : (s.ended ≡ none) ⊎ (s.ended ≡ some code)

check-IsStopping :
    (code : ℕ) (s : Session)
    → s.stopping ≡ some code
    → s.ended ≡ none
    → IsStopping code (check_stopped (some code) s)
check-IsStopping code s asked going = elim (Bool-cases (none_runs s.apps)) [
  | inl idle ↦ simp idle (record { asked = asked; over = inr refl })
  | inr runs ↦ simp runs (record { asked = asked; over = inl going })
]

handle-IsStopping :
    (event : Event) (code : ℕ) (s : Session)
    → s.stopping ≡ some code
    → s.ended ≡ none
    → IsStopping code (handle event s)
unfolding on_exit
handle-IsStopping (child_exits n reason) code s asked going = record {
  asked = asked;
  over = inl (ap (λ p. ended_by_exit p (modify n (after_exit s.stopping reason) s.apps)) asked);
}
handle-IsStopping (probe_sent n) code s asked going =
    let (_, stopping, ended) = on_probe-same s.probing n s in
    record { asked = stopping ∙ asked; over = inl (ended ∙ going) }
handle-IsStopping (probe_answered up) code s asked going =
    let (stopping, ended) = answer-same s.probing up s in
    record { asked = stopping ∙ asked; over = inl (ended ∙ going) }
handle-IsStopping (stop_asked other) code s asked going =
    subst (λ p. IsStopping code (stop_once p other s)) (sym asked)
      (record { asked = asked; over = inl going })
handle-IsStopping stop_checked code s asked going =
    subst (λ p. IsStopping code (check_stopped p s)) (sym asked)
      (check-IsStopping code s asked going)

step-IsStopping :
    (event : Event) (code : ℕ) (s : Session) → IsStopping code s → IsStopping code (step event s)
unfolding step
step-IsStopping event code s h = elim h.over [
  | inl going ↦ simp going (handle-IsStopping event code s h.asked going)
  | inr over ↦ simp over h
]

run-IsStopping :
    (events : List Event) (code : ℕ) (s : Session)
    → IsStopping code s
    → IsStopping code (run events s)
unfolding run
run-IsStopping [] code s h = h
run-IsStopping (event ∷ events) code s h =
    run-IsStopping events code (step event s) (step-IsStopping event code s h)

-- A child that ends among the events is gone after them, unless the script has ended.
run-exits :
    (events : List Event) (n code : ℕ) (s : Session)
    → IsStopping code s
    → any (is_exit_of n) events ≡ true
    → ((run events s).ended ≡ some code) ⊎ (idle_at n (run events s).apps ≡ true)
unfolding run
run-exits [] n code s h e = cc
run-exits (event ∷ events) n code s h e = elim h.over [
  | inr over ↦ inl (ap (λ u. u.ended) (run-over (event ∷ events) code s over) ∙ over)
  | inl going ↦ elim (Bool-cases (is_exit_of n event)) [
    | inr other ↦
        run-exits events n code (step event s) (step-IsStopping event code s h)
          (ground (arith, e, other))
    | inl this ↦ inr (run-idle events n (step event s) (exit-step event n s going this))
  ]
]

check-ends :
    (code : ℕ) (s : Session)
    → IsStopping code s
    → (s.ended ≡ some code) ⊎ (none_runs s.apps ≡ true)
    → (step stop_checked s).ended ≡ some code
unfolding step
check-ends code s h (inl over) = simp over refl
check-ends code s h (inr idle) = elim h.over [
  | inr over ↦ simp over refl
  | inl going ↦ simp (going, h.asked, idle) refl
]

asked-IsStopping :
    (code : ℕ) (s : Session)
    → s.stopping ≡ none
    → s.ended ≡ none
    → IsStopping code (step (stop_asked code) s)
unfolding step
asked-IsStopping code s free going = simp (going, free) (record { asked = refl; over = inl refl })

all-idle :
    (events : List Event) (code : ℕ) (s t : Session)
    → IsStopping code t
    → t.apps ≡ s.apps
    → ((n : ℕ) → n < length s.apps → any (is_exit_of n) events ≡ true)
    → ((run events t).ended ≡ some code) ⊎ (none_runs (run events t).apps ≡ true)
all-idle events code s t h same exits = elim (run-IsStopping events code t h).over [
  | inr over ↦ inl over
  | inl going ↦ inr (
      none_runs-idle (run events t).apps (λ n k. elim (Bool-cases (ltb n (length s.apps))) [
        | inr beyond ↦ run-idle events n t (ap (idle_at n) same ∙ idle_at-beyond n s.apps beyond)
        | inl inside ↦ elim (run-exits events n code t h (exits n (ground (arith, inside)))) [
          | inl over ↦ absurd (ground (arith, going, over))
          | inr idle ↦ idle
        ]
      ]))
]

-- A session that goes on is asked to stop with a code; the child of each of its apps ends at some
-- time, whatever else happens, another request to stop included. Then the script has ended with
-- that code at the next check.
pub stop-ends :
    (events : List Event) (code : ℕ) (s : Session)
    → s.stopping ≡ none
    → s.ended ≡ none
    → ((n : ℕ) → n < length s.apps → any (is_exit_of n) events ≡ true)
    → (run (stop_asked code ∷ (events ++ stop_checked ∷ [])) s).ended ≡ some code
unfolding run
stop-ends events code s free going exits =
    let asked = asked-IsStopping code s free going in
    let stopped = step (stop_asked code) s in
    let after = run-IsStopping events code stopped asked in
    let end = all-idle events code s stopped asked (stop-apps code s) exits in
    ap (λ u. u.ended) (run-append events (stop_checked ∷ []) stopped)
    ∙ check-ends code (run events stopped) after end
