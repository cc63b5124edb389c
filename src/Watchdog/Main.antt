-- ===== src/Watchdog/Main.antt =====
-- `main` of the watchdog: its two arguments, its fixed command and settings, and its error marker.
pub mod Raises
pub mod Returns
use chromium_compile.Prelude.{ℕ, String, Option, none, some, List, [], ◌∷◌, Bool, false}
use chromium_compile.Result.{Result, ok, raise, watchdog_error, and_then, map_ok}
use chromium_compile.Host.{Act, pure, recover, ◌>>=◌, ◌>>◌}
use chromium_compile.Archive.{ℤ, pos}
use chromium_compile.Watchdog.Machine.{Machine, perform}
use chromium_compile.Watchdog.Run.{
  Request, validate_compiler_stall_seconds, validate_compiler_timeout_seconds, clear_marker,
  run_with_watchdog, watchdog_error_exit_code,
}

abbrev pub compiler_command : List String
compiler_command =
    "autoninja" ∷ "-C" ∷ "out/Release_x86" ∷ "-j3" ∷ "chrome"
    ∷ "chrome/installer/linux:installer_deps" ∷ []

-- `DEFAULT_STALL_MARKER` and `DEFAULT_ERROR_MARKER`
abbrev pub default_stall_marker : String
default_stall_marker = ".ninja-stall-watchdog.marker"

abbrev pub default_error_marker : String
default_error_marker = ".ninja-stall-watchdog.error"

-- What `main` runs
abbrev pub compiler_request : ℕ → ℕ → Request
compiler_request stall timeout = record {
  command = compiler_command;
  stall = pos stall;
  poll = pos 15;
  kill_grace = pos 30;
  timeout_kill_grace = pos 120;
  timeout = some (pos timeout);
  stall_marker = default_stall_marker;
  has_output_log = false;
}

abbrev pub arguments : ℤ → ℤ → Result (ℕ × ℕ)
arguments stall timeout =
    and_then (validate_compiler_stall_seconds stall)
      λ s. map_ok (λ t. (s, t)) (validate_compiler_timeout_seconds timeout)

-- The exit status of `parser.error`
abbrev usage_exit_code : ℤ
usage_exit_code = pos 2

module _ (m : Machine) where
  -- `except WatchdogError`: the code is the same whether the marker could be written or not.
  unfoldable pub report : String → Act m.World (Option ℤ)
  unfolding ◌>>=◌
  report why = do
    written ← perform ("write" ∷ default_error_marker ∷ []) (m.write default_error_marker why)
    pure (some watchdog_error_exit_code)

  abbrev pub guarded : ℕ → Result (ℕ × ℕ) → Act m.World (Option ℤ)
  guarded fuel (raise x why) = pure (some usage_exit_code)
  guarded fuel (ok (stall, timeout)) =
      recover watchdog_error
        (clear_marker m default_error_marker
          >>= (λ _. run_with_watchdog m fuel (compiler_request stall timeout)))
        report

  unfoldable pub watchdog_main : ℕ → ℤ → ℤ → Act m.World (Option ℤ)
  watchdog_main fuel stall timeout = guarded fuel (arguments stall timeout)
