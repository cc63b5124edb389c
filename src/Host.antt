-- ===== src/Host.antt =====
-- What the scripts reach outside themselves: the GitHub CLI, the clock, and library functions whose
-- results they only pass on or compare. A run of a script is an action on a state that holds the
-- outside world and, for the statements about it, the commands that were sent so far.
pub mod Laws
pub mod Returns
pub mod Tally
pub mod Bounded
pub mod Canned
use chromium_compile.Prelude.{
  ℕ, String, Bool, true, false, Option, none, some, List, [], ◌∷◌, ◌≡◌, refl, eqb, if◌then◌else◌,
}
use chromium_compile.Result.{
  Exc, Result, ok, raise, value_error, recovery_error, watcher_error, dispatch_error,
  watchdog_error, prune_error, handoff_error, tag_error, immutable_error, os_error, assertion_error,
  issue_error, issue_state_error, release_state_error, source_not_found, type_error, cleanup_error,
  key_error,
}
use chromium_compile.Json.{Json}

pub record Completed : Type 0 where
  pub returncode : ℕ
  pub stdout : String
  pub stderr : String

-- How `subprocess.run` ends: `timed_out` is TimeoutExpired and `broken` is OSError.
pub data Ended : Type 0 where
  exited : Completed → Ended
  timed_out broken : Ended

-- A moment in microseconds since the first of January of year 1, as `datetime` counts; `naive` has
-- no time zone, and `aware` is in UTC.
pub data Moment : Type 0 where
  naive aware : ℕ → Moment

pub record Host : Type 1 where
  pub World : Type 0
  -- `subprocess.run(["gh", *args], timeout=…)`
  pub gh : List String → ℕ → World → Ended × World
  -- `time.sleep`, `datetime.now(timezone.utc)`
  pub sleep : ℕ → World → World
  pub now : World → ℕ × World
  -- `json.loads`, where `none` is JSONDecodeError; `str` of a float, a list or a dict
  pub loads : String → Option Json
  pub repr : Json → String
  -- `datetime.fromisoformat`, where `none` is ValueError, and the text of a moment
  pub from_iso : String → Option Moment
  pub to_iso : ℕ → String
  -- whether `int(value)` of a text, a float or a container is positive, or what it raises
  pub int_positive : Json → Result Bool
  -- the decimal text of `int(value)` of a text, a float, a null or a container, if there is one
  pub int_text : Json → Option String
  -- `hashlib.sha256(text.encode("utf-8")).hexdigest()`
  pub sha256 : String → String
  -- `urllib.parse.quote(text, safe="")`, `urllib.parse.urlencode`
  pub quote : String → String
  pub urlencode : List (String × String) → String

pub record State (W : Type 0) : Type 0 where
  pub world : W
  -- the arguments of each `gh` process that was started, the latest first
  pub calls : List (List String)

abbrev pub Act : Type 0 → Type 0 → Type 0
Act W A = State W → Result A × State W

module _ {W : Type 0} where
  unfoldable pub pure : {A : Type 0} → A → Act W A
  pure a s = (ok a, s)

  unfoldable pub throw : {A : Type 0} → Exc → String → Act W A
  throw x m s = (raise x m, s)

  unfoldable pub lift : {A : Type 0} → Result A → Act W A
  lift r s = (r, s)

  abbrev pub resume : {A B : Type 0} → Result A → (A → Act W B) → Act W B
  resume (ok a) f s = f a s
  resume (raise x m) f s = (raise x m, s)

  infixl 5 ◌>>=◌ ◌>>◌
  unfoldable pub ◌>>=◌ : {A B : Type 0} → Act W A → (A → Act W B) → Act W B
  unfolding pure throw lift
  ◌>>=◌ m f s = let (r, s') = m s in resume r f s'

  abbrev pub ◌>>◌ : {B : Type 0} → Act W Unit → Act W B → Act W B
  m >> k = m >>= λ _. k

  -- A step of another library, which starts no `gh`
  unfoldable pub outside : {A : Type 0} → (W → Result A × W) → Act W A
  outside f s = let (r, w) = f s.world in (r, record s { world = w })

abbrev tag : Exc → ℕ
tag value_error = 0
tag recovery_error = 1
tag watcher_error = 2
tag dispatch_error = 3
tag watchdog_error = 4
tag prune_error = 5
tag handoff_error = 6
tag tag_error = 7
tag immutable_error = 8
tag os_error = 9
tag assertion_error = 10
tag issue_error = 11
tag issue_state_error = 12
tag release_state_error = 13
tag source_not_found = 14
tag type_error = 15
tag cleanup_error = 16
tag key_error = 17

-- Whether an exception is of a class
abbrev pub is_a : Exc → Exc → Bool
is_a recovery_error value_error = true
is_a source_not_found value_error = true
is_a issue_state_error issue_error = true
is_a x y = eqb (tag x) (tag y)

abbrev pub handle : {W A : Type 0} → Exc → Result A → (String → Act W A) → Act W A
handle x (ok a) k s = (ok a, s)
handle x (raise y m) k s = if is_a y x then k m s else (raise y m, s)

-- `try: m except x: k`
unfoldable pub recover : {W A : Type 0} → Exc → Act W A → (String → Act W A) → Act W A
recover x m k s = let (r, s') = m s in handle x r k s'

module _ (h : Host) where
  -- `subprocess.run(["gh", *args], …)`
  unfoldable pub start_gh : List String → ℕ → Act h.World Ended
  start_gh args timeout s =
      let (ended, w) = h.gh args timeout s.world in
      (ok ended, record { world = w; calls = args ∷ s.calls })

  unfoldable pub sleep_for : ℕ → Act h.World Unit
  sleep_for n s = (ok tt, record s { world = h.sleep n s.world })

  unfoldable pub time_now : Act h.World ℕ
  time_now s = let (t, w) = h.now s.world in (ok t, record s { world = w })
