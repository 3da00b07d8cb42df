-- ===== src/Checks/Launching.antt =====
-- The theorems on the launcher, at concrete inputs.
use webhook_idp.Common.{
  All, zero, suc, ◌<◌, ◌++◌, any, some, arith, ℕ, refl, Bool, true, false, List, [], ◌∷◌, ◌==◌, ◌≡◌,
}
use webhook_idp.Common.Text.{Text, txt, ◌===◌, is_space, trim, split, starts_with}
use webhook_idp.Common.Stores.{set}
use webhook_idp.Launcher.{
  App, http, worker, pending, skipped, starting, running, ready, port_clashes, launch, unknown,
  select, is_help, add_to_group, group_into, clashes,
}
use webhook_idp.Launcher.EnvFile.{
  chomp, chomp_lines, split_lines, split_pair, unquote, read_lines, parse_env_file,
}
use webhook_idp.Launcher.EnvFile.RoundTrip.{IsEntry, print_env, set_all, parse_env_file-print_env}
use webhook_idp.Launcher.Session.{
  Event, child_exits, probe_sent, probe_answered, stop_asked, stop_checked, run, step, watched,
  on_exit, on_probe, after_exit, after_probe,
}
use webhook_idp.Launcher.Session.Idle.{is_exit_of}
use webhook_idp.Launcher.Session.Stopping.{stop-ends}

abbrev api : App
api = record { name = txt "api"; kind = http; port = 3000; state = pending; has_child = false }

abbrev idp : App
idp = record { name = txt "idp"; kind = http; port = 3001; state = pending; has_child = false }

abbrev ingestion : App
ingestion = record {
  name = txt "ingestion";
  kind = worker;
  port = 0;
  state = pending;
  has_child = false;
}

abbrev found : List App
found = api ∷ idp ∷ ingestion ∷ []

-- Port 3001 is in use: its app is passed over.
abbrev in_use : ℕ → Bool
in_use port = port == 3001

-- Two apps on one port are refused, and a worker, which has none, is not in the way.
clash_test :
    launch in_use (api ∷ ingestion ∷ record idp { port = 3000 } ∷ []) []
    ≡ port_clashes ((3000, api ∷ record idp { port = 3000 } ∷ []) ∷ [])
unfolding launch unknown select is_help add_to_group group_into clashes ◌===◌ txt
clash_test = refl

-- Every app is chosen, and the API and the worker are started.
abbrev handled : List App
handled =
    record api { state = starting; has_child = true }
    ∷ record idp { state = skipped }
    ∷ record ingestion { state = running; has_child = true }
    ∷ []

-- A probe is under way when the child of its app ends, and its answer, from another process on the
-- port, makes the app READY though it has no child; the watcher passes it over from then on.
stale_test :
    (run
      (probe_sent 0
        ∷ child_exits 0 (txt "1")
        ∷ probe_answered true
        ∷ probe_sent 0
        ∷ probe_answered false
        ∷ [])
      (watched handled)).apps
    ≡ record api { state = ready; has_child = false }
      ∷ record idp { state = skipped }
      ∷ record ingestion { state = running; has_child = true }
      ∷ []
unfolding run step on_exit on_probe after_exit after_probe txt
stale_test = refl

abbrev ends : List Event
ends =
    child_exits 2 (txt "SIGINT")
    ∷ stop_asked 1
    ∷ probe_sent 0
    ∷ child_exits 1 (txt "SIGINT")
    ∷ child_exits 0 (txt "SIGINT")
    ∷ []

each_ends : (n : ℕ) → n < 3 → any (is_exit_of n) ends ≡ true
each_ends zero h = refl
each_ends (suc zero) h = refl
each_ends (suc (suc zero)) h = refl
each_ends (suc (suc (suc n))) h = absurd (omega (arith, h))

stop-ends_example :
    (run (stop_asked 0 ∷ (ends ++ stop_checked ∷ [])) (watched handled)).ended ≡ some 0
stop-ends_example = stop-ends ends 0 (watched handled) refl refl each_ends

abbrev variables : List (Text × Text)
variables = (txt "PORT", txt "3000") ∷ (txt "NAME", txt " # it's") ∷ (txt "PORT", []) ∷ []

variables-IsEntry : All IsEntry variables
unfolding txt is_space starts_with
variables-IsEntry = (
  record {
    begins = refl;
    ends = refl;
    no_equals = refl;
    no_feed = refl;
    no_comment = refl;
    one_line = refl;
  },
  (
    record {
      begins = refl;
      ends = refl;
      no_equals = refl;
      no_feed = refl;
      no_comment = refl;
      one_line = refl;
    },
    (
      record {
        begins = refl;
        ends = refl;
        no_equals = refl;
        no_feed = refl;
        no_comment = refl;
        one_line = refl;
      },
      tt,
    ),
  ),
)

parse_env_file-print_env_example :
    parse_env_file (some (print_env variables)) ≡ set_all variables []
parse_env_file-print_env_example = parse_env_file-print_env variables variables-IsEntry

-- A comment, a line with no `=`, white space, a carriage return, and quotes of two kinds.
env_test :
    parse_env_file (some (txt "# A=1\r\nB = 'x=y' \nC\n D=\"z'\n"))
    ≡ (txt "B", txt "x=y") ∷ (txt "D", txt "\"z'") ∷ []
unfolding parse_env_file split_lines split chomp_lines chomp read_lines trim is_space txt
    starts_with split_pair unquote set ◌===◌
env_test = refl
