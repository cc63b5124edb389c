-- ===== src/Watchdog/Run.antt =====
-- `run_with_watchdog` and `main`.
pub mod Laws
pub mod Ends
use chromium_compile.Prelude.{
  ℕ, zero, suc, ◌+◌, ◌*◌, String, code, Bool, true, false, not, ◌&&◌, ◌||◌, Option, none, some,
  List, [], ◌∷◌, ◌==◌, eqb, leb, is_empty, if◌then◌else◌,
}
use chromium_compile.Result.{Result, ok, raise, check, watchdog_error, and_then, map_ok}
use chromium_compile.Host.{State, Act, pure, throw, lift, recover, resume, ◌>>=◌, ◌>>◌}
use chromium_compile.Text.Digits.{all_chars}
use chromium_compile.Archive.{ℤ, pos, negsuc}
use chromium_compile.Watchdog.Progress.{
  Fingerprint, progress_fingerprint, Settings, Progress, note_progress, Verdict, deadline_reached,
  stalled, sleep_for, decide, second,
}
use chromium_compile.Watchdog.Machine.{Machine, ask, perform, tell, pass_time}
use chromium_compile.Watchdog.Child.{terminate_child, when_running}

-- `minimum <= value <= maximum`
abbrev pub in_range : ℤ → ℕ → ℕ → Result ℕ
in_range (negsuc n) lo hi = raise watchdog_error "must be an integer in the range"
in_range (pos n) lo hi =
    if leb lo n && leb n hi then ok n else raise watchdog_error "must be an integer in the range"

unfoldable pub validate_compiler_stall_seconds : ℤ → Result ℕ
validate_compiler_stall_seconds value = in_range value 1800 10800

unfoldable pub validate_compiler_timeout_seconds : ℤ → Result ℕ
validate_compiler_timeout_seconds value = in_range value 1 20400

-- The arguments that `run_with_watchdog` checks; the files are named by their paths.
pub record Request : Type 0 where
  pub command : List String
  pub stall : ℤ
  pub poll : ℤ
  pub kill_grace : ℤ
  pub timeout_kill_grace : ℤ
  pub timeout : Option ℤ
  pub stall_marker : String
  pub has_output_log : Bool

abbrev pub all_arguments : List String → Bool
all_arguments [] = true
all_arguments (a ∷ as') =
    (not (a == "") && all_chars (λ c. not (eqb c 0 || eqb c 0xd || eqb c 0xa)) a)
    && all_arguments as'

abbrev pub optional : Option ℤ → Result (Option ℕ)
optional none = ok none
optional (some value) = map_ok some (validate_compiler_timeout_seconds value)

unfoldable pub validate_request : Request → Result (Settings × Option ℕ)
unfolding all_chars
validate_request r =
    and_then (check (not (is_empty r.command)) watchdog_error "a child command is required") λ _.
      and_then (check (all_arguments r.command) watchdog_error "single-line strings") λ _.
        and_then (in_range r.stall 1 86400) λ stall. and_then (in_range r.poll 1 60) λ poll.
          and_then (in_range r.kill_grace 1 120) λ grace.
            and_then (in_range r.timeout_kill_grace 1 180) λ timeout_grace.
              and_then (optional r.timeout) λ timeout. ok (
                record {
                  stall_seconds = stall;
                  poll_seconds = poll;
                  kill_grace_seconds = grace;
                  timeout_kill_grace_seconds = timeout_grace;
                },
                timeout,
              )

-- What is returned for a child that exited: the signal that was forwarded to it, or its own code
unfoldable pub exit_code : Option ℕ → ℤ → ℤ
exit_code (some signum) returncode = pos (128 + signum)
exit_code none (negsuc n) = pos (128 + (n + 1))
exit_code none (pos n) = pos n

abbrev pub timeout_exit_code : ℤ
timeout_exit_code = pos 124

abbrev pub watchdog_error_exit_code : ℤ
watchdog_error_exit_code = pos 85

abbrev pub stall_exit_code : ℤ
stall_exit_code = pos 86

module _ (m : Machine) where
  abbrev pub need : Bool → String → Act m.World Unit
  need true why = pure tt
  need false why = throw watchdog_error why

  unfoldable pub write_stall_marker : String → Act m.World Unit
  unfolding ◌>>=◌
  write_stall_marker path = do
    written ← perform ("write" ∷ path ∷ []) (m.write path "stalled\n")
    need written "could not write Ninja stall marker"

  unfoldable pub clear_marker : String → Act m.World Unit
  unfolding ◌>>=◌
  clear_marker path = do
    cleared ← perform ("unlink" ∷ path ∷ []) (m.unlink path)
    need cleared "could not clear stale marker"

  abbrev pub no_error : Option String → Act m.World Unit
  no_error none = pure tt
  no_error (some why) = throw watchdog_error "could not persist compiler output"

  abbrev pub drain : Bool → Act m.World Unit
  drain false = pure tt
  drain true = do
    joined ← ask m.join
    need joined "compiler output pump did not terminate"
    ask m.pump_error >>= no_error

  -- A child that was seen to have exited
  unfoldable pub finish : Bool → ℤ → Act m.World (Option ℤ)
  unfolding ◌>>=◌
  finish has_log returncode = do
    drain has_log
    signum ← ask m.forwarded
    pure (some (exit_code signum returncode))

  -- What a round does by its verdict; `again` is the next round.
  unfoldable pub act_on :
      Request → Settings → Act m.World (Option ℤ) → Verdict → Act m.World (Option ℤ)
  unfolding ◌>>=◌
  act_on r c again deadline_reached = do
    terminate_child m c.timeout_kill_grace_seconds
    pure (some timeout_exit_code)
  act_on r c again stalled = do
    write_stall_marker r.stall_marker
    terminate_child m c.kill_grace_seconds
    pure (some stall_exit_code)
  act_on r c again (sleep_for n) = do pass_time (m.sleep n); again

  -- A round while the child runs
  unfoldable pub look_on :
      Request
      → Settings
      → Option ℕ
      → Progress
      → (Progress → Act m.World (Option ℤ))
      → Act m.World (Option ℤ)
  unfolding ◌>>=◌
  look_on r c deadline p again = do
    info ← ask m.lstat
    current ← lift (progress_fingerprint info)
    now ← ask m.monotonic
    act_on r c (again (note_progress current now p))
        (decide c deadline now (note_progress current now p))

  abbrev pub by_poll : Request → Act m.World (Option ℤ) → Option ℤ → Act m.World (Option ℤ)
  by_poll r running (some returncode) = finish r.has_output_log returncode
  by_poll r running none = running

  abbrev pub by_pump : Settings → Act m.World (Option ℤ) → Option String → Act m.World (Option ℤ)
  by_pump c go_on (some why) = do
    terminate_child m c.kill_grace_seconds
    throw watchdog_error "could not persist compiler output"
  by_pump c go_on none = go_on

  -- The loop, with none if the rounds run out. The error of the output pump ends it first, then the
  -- child's own end, then the deadline, then a stall.
  unfoldable pub watch_rounds :
      ℕ → Request → Settings → Option ℕ → Progress → Act m.World (Option ℤ)
  unfolding ◌>>=◌
  watch_rounds zero r c deadline p = pure none
  watch_rounds (suc left) r c deadline p = do
    failure ← ask m.pump_error
    by_pump c
        (do
          polled ← ask m.poll
          by_poll r (look_on r c deadline p (watch_rounds left r c deadline)) polled)
        failure

  -- The `finally` block
  unfoldable pub clean_up : Bool → Settings → Act m.World Unit
  unfolding ◌>>=◌
  clean_up has_log c = do
    polled ← ask m.poll
    when_running m (terminate_child m c.kill_grace_seconds) polled
    if has_log then ask m.join >>= (λ _. pure tt) else pure tt

  abbrev pub after_all : Result (Option ℤ) → Act m.World Unit → Act m.World (Option ℤ)
  after_all result clean = clean >>= (λ _. lift result)

  -- `try: body finally: clean`
  unfoldable pub ensure : Act m.World (Option ℤ) → Act m.World Unit → Act m.World (Option ℤ)
  ensure body clean s = let (result, t) = body s in after_all result clean t

  abbrev pub deadline_at : ℕ → Option ℕ → Option ℕ
  deadline_at started none = none
  deadline_at started (some timeout) = some (started + timeout * second)

  unfoldable pub run_with_watchdog : ℕ → Request → Act m.World (Option ℤ)
  unfolding ◌>>=◌
  run_with_watchdog fuel r = do
    (c, timeout) ← lift (validate_request r)
    clear_marker r.stall_marker
    spawned ← perform ("spawn" ∷ r.command) (m.spawn r.command)
    need spawned "could not start compiler command"
    info ← ask m.lstat
    fingerprint ← lift (progress_fingerprint info)
    started ← ask m.monotonic
    ensure
        (watch_rounds fuel r c (deadline_at started timeout)
          (record { fingerprint = fingerprint; since = started }))
        (clean_up r.has_output_log c)
