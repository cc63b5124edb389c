-- ===== src/Watchdog/Machine.antt =====
-- What the watchdog reaches outside itself: a child process, a clock, files and a thread. Signals
-- and the child act between its steps, so each of them is a function of the world that may do
-- anything.
use chromium_compile.Prelude.{ℕ, ◌+◌, ◌≤◌, String, Bool, Option, List, ◌∷◌}
use chromium_compile.Result.{ok}
use chromium_compile.Host.{Act}
use chromium_compile.Archive.{ℤ}
use chromium_compile.Watchdog.Progress.{Lstat}

pub record Machine : Type 1 where
  pub World : Type 0
  -- `os.name == "posix"`
  pub posix : Bool
  -- `subprocess.Popen`, false where it raises OSError; `proc.poll()`; `proc.wait(timeout=…)`, false
  -- where it raises TimeoutExpired
  pub spawn : List String → World → Bool × World
  pub poll : World → Option ℤ × World
  pub wait : ℕ → World → Bool × World
  -- `os.killpg`, where ProcessLookupError is passed over; `taskkill.exe`, with `/F` or not, and none
  -- where it cannot be run; `proc.terminate()` and `proc.kill()`
  pub killpg : ℕ → World → World
  pub taskkill : Bool → World → Option ℕ × World
  pub terminate : World → World
  pub kill : World → World
  -- `time.monotonic()` and `time.sleep`, in microseconds
  pub monotonic : World → ℕ × World
  pub sleep : ℕ → World → World
  -- the progress log's `lstat()`; `unlink(missing_ok=True)` and `write_text` of a file, false where
  -- they raise OSError
  pub lstat : World → Lstat × World
  pub unlink : String → World → Bool × World
  pub write : String → String → World → Bool × World
  -- the first of `pump_errors`; whether the thread ends within 30 seconds; `forwarded_signal`
  pub pump_error : World → Option String × World
  pub join : World → Bool × World
  pub forwarded : World → Option ℕ × World

module _ {W : Type 0} where
  -- A question to the world
  unfoldable pub ask : {A : Type 0} → (W → A × W) → Act W A
  ask f s = let (a, w) = f s.world in (ok a, record s { world = w })

  -- A deed, which is recorded
  unfoldable pub perform : {A : Type 0} → List String → (W → A × W) → Act W A
  perform name f s = let (a, w) = f s.world in (ok a, record { world = w; calls = name ∷ s.calls })

  unfoldable pub tell : List String → (W → W) → Act W Unit
  tell name f s = (ok tt, record { world = f s.world; calls = name ∷ s.calls })

  unfoldable pub pass_time : (W → W) → Act W Unit
  pass_time f s = (ok tt, record s { world = f s.world })

-- The clock does not run backwards, and a sleep lasts as long as it is asked to.
pub record IsSteady (m : Machine) : Type 0 where
  pub time : m.World → ℕ
  pub monotonic_le :
      (w : m.World) → (time w ≤ (m.monotonic w).0) × ((m.monotonic w).0 ≤ time (m.monotonic w).1)
  pub sleep_le : (n : ℕ) (w : m.World) → time w + n ≤ time (m.sleep n w)
  pub poll_le : (w : m.World) → time w ≤ time (m.poll w).1
  pub lstat_le : (w : m.World) → time w ≤ time (m.lstat w).1
  pub pump_le : (w : m.World) → time w ≤ time (m.pump_error w).1
