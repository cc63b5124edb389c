-- ===== src/Watchdog/Main/Returns.antt =====
-- `main` returns an exit code, whatever the machine does.
use chromium_compile.Prelude.{ℕ, String, true, Option, some, [], ◌∷◌, ◌≡◌, refl}
use chromium_compile.Result.{Result, ok, raise, watchdog_error}
use chromium_compile.Host.{State, pure, lift, ◌>>=◌}
use chromium_compile.Archive.{ℤ}
use chromium_compile.Watchdog.Progress.{progress_fingerprint, Settings}
use chromium_compile.Watchdog.Machine.{Machine, ask, perform}
use chromium_compile.Watchdog.Run.{Request, validate_request, clear_marker, run_with_watchdog}

module _ (m : Machine) where
  abbrev IsCode : Result (Option ℤ) × State m.World → Type 0
  IsCode p = (code : ℤ) × (t : State m.World) × (p ≡ (ok (some code), t))

  -- Where the progress log is a link or no regular file when the child has been started, a run raises
  -- and has sent the child nothing: it only cleared the marker and started it.
  pub run_with_watchdog_abandons :
      (fuel : ℕ) (r : Request) (c : Settings) (timeout : Option ℕ) (why : String)
      (s : State m.World)
      → validate_request r ≡ ok (c, timeout)
      → (m.unlink r.stall_marker s.world).0 ≡ true
      → (m.spawn r.command (m.unlink r.stall_marker s.world).1).0 ≡ true
      → progress_fingerprint (m.lstat (m.spawn r.command (m.unlink r.stall_marker s.world).1).1).0
        ≡ raise watchdog_error why
      → ((run_with_watchdog m fuel r s).0 ≡ raise watchdog_error why)
        × ((run_with_watchdog m fuel r s).1.calls
            ≡ ("spawn" ∷ r.command) ∷ ("unlink" ∷ r.stall_marker ∷ []) ∷ s.calls)
  unfolding run_with_watchdog clear_marker perform ask lift pure ◌>>=◌
  run_with_watchdog_abandons fuel r c timeout why s valid cleared started broken =
      (rw (valid, cleared, started, broken) refl, rw (valid, cleared, started, broken) refl)
