-- ===== src/Watchdog/Child.antt =====
-- Ending the child process: `_signal_child`, `_kill_child`, `terminate_child`.
pub mod Grace
use chromium_compile.Prelude.{
  ℕ, zero, suc, ◌+◌, ◌*◌, Bool, true, false, not, Option, none, some, List, [], ◌∷◌, eqb, ltb, max,
  if◌then◌else◌,
}
use chromium_compile.Result.{watchdog_error}
use chromium_compile.Json.{show}
use chromium_compile.Host.{Act, pure, throw, ◌>>=◌, ◌>>◌}
use chromium_compile.Archive.{ℤ}
use chromium_compile.Watchdog.Progress.{second}
use chromium_compile.Watchdog.Machine.{Machine, ask, perform, tell, pass_time}

abbrev pub sigkill : ℕ
sigkill = 9

abbrev pub sigterm : ℕ
sigterm = 15

abbrev failed : Option ℕ → Bool
failed none = true
failed (some code) = not (eqb code 0)

module _ (m : Machine) where
  abbrev pub when_running : Act m.World Unit → Option ℤ → Act m.World Unit
  when_running deed (some code) = pure tt
  when_running deed none = deed

  -- What follows `taskkill.exe`: the child itself is ended if that failed and it still runs.
  abbrev pub after_taskkill : Act m.World Unit → Option ℕ → Act m.World Unit
  after_taskkill deed result = if failed result then ask m.poll >>= when_running deed else pure tt

  unfoldable pub signal_child : ℕ → Act m.World Unit
  unfolding ◌>>=◌
  signal_child signum = do
    polled ← ask m.poll
    when_running
        (if m.posix then tell ("killpg" ∷ show signum ∷ []) (m.killpg signum) else do
          result ← perform ("taskkill" ∷ []) (m.taskkill false)
          after_taskkill (tell ("terminate" ∷ []) m.terminate) result)
        polled

  unfoldable pub kill_child : Act m.World Unit
  unfolding ◌>>=◌
  kill_child = do
    polled ← ask m.poll
    when_running
        (if m.posix then tell ("killpg" ∷ show sigkill ∷ []) (m.killpg sigkill) else do
          result ← perform ("taskkill" ∷ "/F" ∷ []) (m.taskkill true)
          after_taskkill (tell ("kill" ∷ []) m.kill) result)
        polled

  -- `while proc.poll() is None and time.monotonic() < deadline: time.sleep(0.2)`; the result says
  -- whether the loop ended by its test.
  abbrev pub by_grace : ℕ → Act m.World Bool → Option ℤ → Act m.World Bool
  by_grace deadline next (some code) = pure true
  by_grace deadline next none = do
    now ← ask m.monotonic
    if ltb now deadline then (do pass_time (m.sleep 200000); next) else pure true

  unfoldable pub wait_grace : ℕ → ℕ → Act m.World Bool
  unfolding ◌>>=◌
  wait_grace zero deadline = pure false
  wait_grace (suc left) deadline = do
    polled ← ask m.poll
    by_grace deadline (wait_grace left deadline) polled

  unfoldable pub await_end : ℕ → Act m.World Unit
  unfolding ◌>>=◌
  await_end grace_seconds = do
    ended ← ask (m.wait (max grace_seconds 1))
    if ended
        then pure tt
        else throw watchdog_error "stalled compiler process tree did not terminate"

  abbrev pub grace_rounds : ℕ → ℕ
  grace_rounds grace_seconds = 5 * grace_seconds + 1

  unfoldable pub terminate_child : ℕ → Act m.World Unit
  unfolding ◌>>=◌
  terminate_child grace_seconds = do
    polled ← ask m.poll
    when_running
        (do
          signal_child sigterm
          now ← ask m.monotonic
          _ ← wait_grace (grace_rounds grace_seconds) (now + grace_seconds * second)
          still ← ask m.poll
          when_running kill_child still
          await_end grace_seconds)
        polled
