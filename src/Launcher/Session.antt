-- ===== src/Launcher/Session.antt =====
-- scripts/dev.mjs, after the start: the ends of the children, the watcher of the HTTP apps, and the
-- stopping. What is printed is left out, and so are the signals: a child ends when it does. The
-- port of an HTTP app is a number here; a probe of one whose PORT is no number throws.
pub mod Apps
pub mod Coherent
pub mod Idle
pub mod Stopping
use webhook_idp.Common.{
  ℕ, zero, suc, Bool, true, false, not, ◌&&◌, Option, none, some, List, [], ◌∷◌, if◌then◌else◌, all,
}
use webhook_idp.Common.Text.{Text}
use webhook_idp.Launcher.{Kind, http, worker, AppState, ready, starting, stopped, exited, App}

-- `stopping` holds the code that `stopAll` was first called with; `probing` the app whose probe the
-- watcher waits for; `ended` the code of `process.exit`.
pub record Session : Type 0 where
  pub apps : List App
  pub stopping : Option ℕ
  pub probing : Option ℕ
  pub ended : Option ℕ

-- What may happen next. An app is meant by its place in the list.
pub data Event : Type 0 where
  child_exits : ℕ → Text → Event
  probe_sent : ℕ → Event
  probe_answered : Bool → Event
  stop_asked : ℕ → Event
  stop_checked : Event

abbrev pub nth : ℕ → List App → Option App
nth n [] = none
nth zero (app ∷ apps) = some app
nth (suc n) (app ∷ apps) = nth n apps

abbrev pub modify : ℕ → (App → App) → List App → List App
modify n f [] = []
modify zero f (app ∷ apps) = f app ∷ apps
modify (suc n) f (app ∷ apps) = app ∷ modify n f apps

abbrev pub none_runs : List App → Bool
none_runs apps = all (λ app. not app.has_child) apps

abbrev pub exit_state : Option ℕ → Text → AppState
exit_state none reason = exited reason
exit_state (some _) reason = stopped

-- The callback of `exit` on an app. A child that has ended does not end again.
unfoldable pub after_exit : Option ℕ → Text → App → App
after_exit stopping reason app =
    if app.has_child
    then record app { has_child = false; state = exit_state stopping reason }
    else app

abbrev pub ended_by_exit : Option ℕ → List App → Option ℕ
ended_by_exit none apps = if none_runs apps then some 1 else none
ended_by_exit (some _) apps = none

unfoldable pub on_exit : ℕ → Text → Session → Session
on_exit n reason s =
    let apps = modify n (after_exit s.stopping reason) s.apps in
    record s { apps = apps; ended = ended_by_exit s.stopping apps }

abbrev pub is_http : Kind → Bool
is_http http = true
is_http worker = false

abbrev pub is_ready : AppState → Bool
is_ready ready = true
is_ready _ = false

-- `if (app.kind !== 'http' || !app.child) continue;`
abbrev pub watches : Option App → Bool
watches none = false
watches (some app) = is_http app.kind && app.has_child

-- The watcher sends one probe at a time; it may send more in the round in which a stop is asked.
unfoldable pub on_probe : Option ℕ → ℕ → Session → Session
on_probe (some _) n s = s
on_probe none n s = if watches (nth n s.apps) then record s { probing = some n } else s

-- What the reply to a probe makes of the app.
unfoldable pub after_probe : Bool → App → App
after_probe up app =
    if up && not (is_ready app.state)
    then record app { state = ready }
    else if not up && is_ready app.state
    then record app { state = starting }
    else app

abbrev pub answer : Option ℕ → Bool → Session → Session
answer none up s = s
answer (some n) up s = record s { apps = modify n (after_probe up) s.apps; probing = none }

-- `stopAll(exitCode)`
abbrev pub stop_once : Option ℕ → ℕ → Session → Session
stop_once none code s = record s { stopping = some code }
stop_once (some _) code s = s

-- The interval that `stopAll` sets.
abbrev pub check_stopped : Option ℕ → Session → Session
check_stopped none s = s
check_stopped (some code) s = if none_runs s.apps then record s { ended = some code } else s

abbrev pub handle : Event → Session → Session
handle (child_exits n reason) s = on_exit n reason s
handle (probe_sent n) s = on_probe s.probing n s
handle (probe_answered up) s = answer s.probing up s
handle (stop_asked code) s = stop_once s.stopping code s
handle stop_checked s = check_stopped s.stopping s

-- Nothing happens once the process has ended.
abbrev pub unless_ended : Option ℕ → Event → Session → Session
unless_ended none event s = handle event s
unless_ended (some _) event s = s

unfoldable pub step : Event → Session → Session
step event s = unless_ended s.ended event s

unfoldable pub run : List Event → Session → Session
run [] s = s
run (event ∷ events) s = run events (step event s)

abbrev pub watched : List App → Session
watched apps = record { apps = apps; stopping = none; probing = none; ended = none }
