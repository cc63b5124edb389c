-- ===== src/Watchdog/Progress.antt =====
-- What one round of the watchdog's loop decides. Times are in microseconds.
pub mod Stall
use chromium_compile.Prelude.{
  ℕ, ◌+◌, ◌-◌, ◌*◌, Bool, true, false, not, ◌&&◌, ◌||◌, Option, none, some, List, [], ◌∷◌, ◌≡◌,
  refl, leb, eqb, min, max, if◌then◌else◌,
}
use chromium_compile.Result.{Result, ok, raise, watchdog_error}

-- `path.lstat()`: FileNotFoundError, another OSError, or what the mode says with the size and the time
-- of the last change in nanoseconds
pub data Lstat : Type 0 where
  missing broken : Lstat
  found : Bool → Bool → ℕ → ℕ → Lstat

abbrev pub Fingerprint : Type 0
Fingerprint = Option (ℕ × ℕ)

unfoldable pub progress_fingerprint : Lstat → Result Fingerprint
progress_fingerprint missing = ok none
progress_fingerprint broken = raise watchdog_error "could not inspect Ninja progress log"
progress_fingerprint (found is_link is_regular size mtime) =
    if is_link || not is_regular
    then raise watchdog_error "Ninja progress log is not a regular file"
    else ok (some (size, mtime))

abbrev pub same : Fingerprint → Fingerprint → Bool
same none none = true
same (some (a, b)) (some (c, d)) = eqb a c && eqb b d
same _ _ = false

abbrev pub second : ℕ
second = 1000000

-- The least sleep, 0.05 seconds
abbrev pub tick : ℕ
tick = 50000

pub record Settings : Type 0 where
  pub stall_seconds : ℕ
  pub poll_seconds : ℕ
  pub kill_grace_seconds : ℕ
  pub timeout_kill_grace_seconds : ℕ

-- `last_fingerprint` and `last_progress`
pub record Progress : Type 0 where
  pub fingerprint : Fingerprint
  pub since : ℕ

unfoldable pub note_progress : Fingerprint → ℕ → Progress → Progress
note_progress current now p =
    if same current p.fingerprint then p else record { fingerprint = current; since = now }

pub data Verdict : Type 0 where
  deadline_reached stalled : Verdict
  sleep_for : ℕ → Verdict

abbrev pub is_due : Option ℕ → ℕ → Bool
is_due none now = false
is_due (some deadline) now = leb deadline now

-- `max(0.05, end - now)`
abbrev pub until : ℕ → ℕ
until rest = max tick rest

abbrev pub before_deadline : Option ℕ → ℕ → ℕ → ℕ
before_deadline none now seconds = seconds
before_deadline (some deadline) now seconds = min seconds (until (deadline - now))

unfoldable pub decide : Settings → Option ℕ → ℕ → Progress → Verdict
decide c deadline now p =
    if is_due deadline now
    then deadline_reached
    else if leb (c.stall_seconds * second) (now - p.since)
    then stalled
    else sleep_for (
        min (before_deadline deadline now (c.poll_seconds * second))
          (until (c.stall_seconds * second - (now - p.since))))
