-- ===== src/Watcher/Gh.antt =====
-- scripts/chromium_stable_watcher.py: `run_gh`, `gh_json`, `gh_resource_text` and the settings that
-- the module reads from its environment.
use chromium_compile.Prelude.{
  ℕ, zero, suc, ◌+◌, ◌-◌, ◌^◌, min, String, Bool, true, false, none, some, List, eqb, ◌==◌,
  if◌then◌else◌,
}
use chromium_compile.Result.{Result, ok, raise, value_error, watcher_error, os_error}
use chromium_compile.Json.{Json}
use chromium_compile.Host.{
  Host, Completed, Ended, exited, timed_out, broken, Act, throw, lift, ◌>>=◌, ◌>>◌, recover,
  start_gh, sleep_for,
}
use chromium_compile.Text.Search.{reports_404}

-- The numbers that `int(os.environ.get(…))` gives, 0 standing for every number below 1
pub record Settings : Type 0 where
  pub gh_timeout_seconds : ℕ
  pub gh_read_attempts : ℕ
  pub run_history_days : ℕ
  pub run_history_max_pages : ℕ
  pub rest_max_pages : ℕ
  pub version_api_max_pages : ℕ

-- `a or b` for texts
abbrev pub or_text : String → String → String
or_text a b = if a == "" then b else a

module _ (h : Host) (settings : Settings) where
  finished : Bool → Ended → Result Completed
  finished must timed_out = raise watcher_error "timed out"
  finished must broken = raise os_error "gh"
  finished false (exited c) = ok c
  finished true (exited c) = if eqb c.returncode 0 then ok c else raise watcher_error "failed"

  -- `run_gh(args, check=must)`
  unfoldable pub run_gh : Bool → List String → Act h.World Completed
  unfolding finished ◌>>=◌ start_gh
  run_gh must args = do
    ended ← start_gh h args settings.gh_timeout_seconds
    lift (finished must ended)

  decoded : Completed → Result Json
  decoded c = elim (h.loads (or_text c.stdout "null")) [
    | none ↦ raise watcher_error "GitHub CLI returned invalid JSON"
    | some j ↦ ok j
  ]

  -- The body of the `try` of `gh_json`
  unfoldable pub read_json : List String → Act h.World Json
  unfolding decoded ◌>>=◌
  read_json args = do result ← run_gh true args; lift (decoded result)

  -- The loop, with the number of attempts that are left after this one
  unfoldable pub json_attempts : ℕ → ℕ → List String → Act h.World Json
  json_attempts zero attempt args = read_json args
  json_attempts (suc left) attempt args =
      recover watcher_error (read_json args)
        λ _. do sleep_for h (min (2 ^ (attempt - 1)) 5); json_attempts left (attempt + 1) args

  unfoldable pub gh_json : List String → Act h.World Json
  gh_json args = elim settings.gh_read_attempts [
    | zero ↦ throw value_error "attempts must be at least 1"
    | suc left ↦ json_attempts left 1 args
  ]

  resource_text : Completed → Result String
  unfolding reports_404
  resource_text c =
      let detail = or_text c.stderr (or_text c.stdout "unknown GitHub CLI error") in
      if eqb c.returncode 0
      then ok c.stdout
      else if reports_404 detail
      then raise value_error "GitHub resource was not found"
      else raise watcher_error "GitHub resource could not be read"

  -- One attempt of `gh_resource_text`: a missing resource is a ValueError, which ends the loop.
  unfoldable pub read_text : List String → Act h.World String
  unfolding resource_text ◌>>=◌
  read_text args = do result ← run_gh false args; lift (resource_text result)

  unfoldable pub text_attempts : ℕ → ℕ → List String → Act h.World String
  text_attempts zero attempt args = read_text args
  text_attempts (suc left) attempt args =
      recover watcher_error (read_text args)
        λ _. do sleep_for h (min (2 ^ (attempt - 1)) 5); text_attempts left (attempt + 1) args

  unfoldable pub gh_resource_text : List String → Act h.World String
  gh_resource_text args = elim settings.gh_read_attempts [
    | zero ↦ throw value_error "attempts must be at least 1"
    | suc left ↦ text_attempts left 1 args
  ]
