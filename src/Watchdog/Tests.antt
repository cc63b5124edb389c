-- ===== src/Watchdog/Tests.antt =====
-- The watchdog on a simulated machine.
use chromium_compile.Prelude.{
  ℕ, ◌+◌, ◌≤◌, ◌<◌, ◌*◌, ◌-◌, max, true, false, ◌≡◌, refl, Option, none, some, [], ◌∷◌, leb, arith,
  if◌then◌else◌,
}
use chromium_compile.Result.{ok, raise, watchdog_error}
use chromium_compile.Json.{show}
use chromium_compile.Host.{State, pure, throw, lift, recover, ◌>>=◌}
use chromium_compile.Text.Digits.{all_chars}
use chromium_compile.Archive.{ℤ, negsuc}
use chromium_compile.Watchdog.Progress.{
  Lstat, found, progress_fingerprint, Settings, Progress, note_progress, decide, tick, second,
}
use chromium_compile.Watchdog.Progress.Stall.{decide_bounds}
use chromium_compile.Watchdog.Machine.{Machine, ask, perform, tell, pass_time, IsSteady}
use chromium_compile.Watchdog.Child.{
  signal_child, kill_child, wait_grace, grace_rounds, await_end, terminate_child,
}
use chromium_compile.Watchdog.Child.Grace.{wait_grace_ends}
use chromium_compile.Watchdog.Run.{
  Request, validate_request, validate_compiler_stall_seconds, validate_compiler_timeout_seconds,
  exit_code, write_stall_marker, clear_marker, finish, act_on, look_on, watch_rounds, clean_up,
  ensure, run_with_watchdog,
}
use chromium_compile.Watchdog.Main.{compiler_request, report, watchdog_main}
use chromium_compile.Watchdog.Main.Returns.{run_with_watchdog_abandons}

running : Unit {0}
unfolding show pure throw lift recover ◌>>=◌ all_chars progress_fingerprint note_progress decide ask
    perform tell pass_time signal_child kill_child wait_grace await_end terminate_child
    validate_request validate_compiler_stall_seconds validate_compiler_timeout_seconds exit_code
    write_stall_marker clear_marker finish act_on look_on watch_rounds clean_up ensure
    run_with_watchdog report watchdog_main
running = tt

record Simulation : Type 0 where
  time : ℕ
  ended : Option ℤ

abbrev elapse : ℕ → Simulation → Simulation
elapse n w = record w { time = w.time + n }

-- A signal ends the child at once.
abbrev end_by : ℤ → Simulation → Simulation
end_by code w = record w { ended = some code }

-- A machine whose child runs on, and whose log is a function of the time
abbrev machine : (ℕ → Lstat) → Machine
machine log = record {
  World = Simulation;
  posix = true;
  spawn = λ command w. (true, w);
  poll = λ w. (w.ended, w);
  wait = λ n w. (true, w);
  killpg = λ signum w. end_by (negsuc 14) w;
  taskkill = λ force w. (some 0, w);
  terminate = λ w. w;
  kill = λ w. w;
  monotonic = λ w. (w.time, w);
  sleep = elapse;
  lstat = λ w. (log w.time, w);
  unlink = λ path w. (true, w);
  write = λ path text w. (true, w);
  pump_error = λ w. (none, w);
  join = λ w. (true, w);
  forwarded = λ w. (none, w);
}

-- The log grows for a minute.
abbrev growing : ℕ → Lstat
growing t = found false true (if leb t 60000000 then t else 60000000) 0

abbrev quiet : Machine
quiet = machine growing

abbrev start : State Simulation
start = record { world = record { time = 0; ended = none }; calls = [] }

quiet-IsSteady : IsSteady quiet
quiet-IsSteady = record {
  time = λ w. w.time;
  monotonic_le = λ w. (omega arith, omega arith);
  sleep_le = λ n w. omega arith;
  poll_le = λ w. omega arith;
  lstat_le = λ w. omega arith;
  pump_le = λ w. omega arith;
}

abbrev request : Request
request = compiler_request 1800 20000

-- The last two deeds: the marker, then the signal
stalled_calls :
    (run_with_watchdog quiet 408001 request start).1.calls
    ≡ ("killpg" ∷ "15" ∷ [])
      ∷ ("write" ∷ ".ninja-stall-watchdog.marker" ∷ [])
      ∷ ("spawn" ∷ request.command)
      ∷ ("unlink" ∷ ".ninja-stall-watchdog.marker" ∷ [])
      ∷ []
unfolding running
stalled_calls = refl

wait_grace_ends_example :
    (wait_grace quiet (grace_rounds quiet 30) (0 + 30 * second) start).0 ≡ ok true
wait_grace_ends_example = wait_grace_ends quiet quiet-IsSteady 30 0 start (omega arith)

abbrev linked : Machine
linked = machine (λ t. found true false 0 0)

abbrev settings : Settings
settings = record {
  stall_seconds = 1800;
  poll_seconds = 15;
  kill_grace_seconds = 30;
  timeout_kill_grace_seconds = 120;
}

run_with_watchdog_abandons_example :
    ((run_with_watchdog linked 408001 request start).0
      ≡ raise watchdog_error "Ninja progress log is not a regular file")
    × ((run_with_watchdog linked 408001 request start).1.calls
        ≡ ("spawn" ∷ request.command) ∷ ("unlink" ∷ request.stall_marker ∷ []) ∷ [])
unfolding running
run_with_watchdog_abandons_example =
    run_with_watchdog_abandons linked 408001 request settings (some 20000)
      "Ninja progress log is not a regular file" start refl refl refl refl

abbrev progress : Progress
progress = record { fingerprint = none; since = 0 }

decide_bounds_example :
    (tick ≤ 8000000)
    × (8000000 ≤ 15 * second)
    × (1000000 < 9000000)
    × (1000000 + 8000000 ≤ max (1000000 + tick) 9000000)
    × ((1000000 - 0) + 8000000 ≤ max ((1000000 - 0) + tick) (1800 * second))
unfolding running
decide_bounds_example = decide_bounds settings 9000000 1000000 8000000 progress (omega arith) refl
