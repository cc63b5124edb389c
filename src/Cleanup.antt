-- ===== src/Cleanup.antt =====
-- scripts/github_released_checkpoint_cleanup.py: the state of a build is deleted only after its version
-- has a healthy immutable release, and while no build of it is active.
pub mod Release
pub mod Guard
pub mod Listing
pub mod Checkpoints
pub mod Caches
pub mod Quietly
pub mod Counts
pub mod Grounds
pub mod Justified
pub mod Sources
pub mod Cleared
pub mod Distinct
pub mod Workflow
pub mod Bytes
pub mod Main
mod Tests
use Prim.Native.String
use chromium_compile.Prelude.{
  ℕ, String, code, Bool, true, false, not, ◌&&◌, ◌||◌, Option, none, some, List, [], ◌∷◌, ◌==◌, eqb,
  leb, if◌then◌else◌,
}
use chromium_compile.Result.{Result, ok, raise, cleanup_error, os_error, and_then}
use chromium_compile.Json.{Json, bool, int, str, Fields, as_object, as_list, get, get_str, concat}
use chromium_compile.Host.{
  Host, Completed, Ended, exited, timed_out, broken, Moment, naive, aware, Act, pure, throw, lift,
  start_gh, ◌>>=◌,
}
use chromium_compile.Text.Pattern.{is_repository, drop_prefix}
use chromium_compile.Text.Strip.{is_sha}
use chromium_compile.Text.Title.{is_branch}
use chromium_compile.Text.Version.{is_ascii_version}

abbrev pub require : Bool → String → Result (Unit {0})
require test why = if test then ok tt else raise cleanup_error why

-- `value is True`, `value is False`
abbrev pub is_bool : Bool → Option Json → Bool
is_bool true (some (bool b)) = b
is_bool false (some (bool b)) = not b
is_bool want _ = false

-- `part in text`
unfoldable pub contains : String → String → Bool
unfolding drop_prefix
contains part String.[] = part == ""
contains part (String.◌∷◌ c s) =
    (elim (drop_prefix part (String.◌∷◌ c s)) [ none ↦ false | some _ ↦ true ]) || contains part s

-- `isinstance(value, list)`, where a missing value is none
abbrev pub list_of : Option Json → Option (List Json)
list_of none = none
list_of (some j) = as_list j

-- The arguments that the steps of a cleanup share
pub record Target : Type 0 where
  pub repository : String
  pub version : String
  pub default_branch : String
  pub expected_build_sha : String

unfoldable pub validate_inputs : Target → Result (Unit {0})
unfolding is_repository is_ascii_version is_branch is_sha
validate_inputs t = and_then (require (is_repository t.repository) "invalid repository") λ _.
    and_then (require (is_ascii_version t.version) "invalid Chromium version") λ _.
      and_then (require (is_branch t.default_branch) "invalid default branch")
        λ _. require (is_sha t.expected_build_sha) "invalid expected build SHA"

-- `value[:-1]` of a text that ends with a Z
abbrev before_z : String → Option String
before_z String.[] = none
before_z (String.◌∷◌ c s) =
    let rest = before_z s in
    if s == ""
    then (if eqb (code c) b'Z' then some "" else none)
    else elim rest [ none ↦ none | some head ↦ some (String.◌∷◌ c head) ]

module _ (h : Host) where
  abbrev moment_of : Option Moment → Result ℕ
  moment_of none = raise cleanup_error "is not a valid RFC3339 UTC timestamp"
  moment_of (some (naive t)) = raise cleanup_error "is not timezone-aware"
  moment_of (some (aware t)) = ok t

  -- The moment in microseconds
  unfoldable pub parse_github_timestamp : Option Json → Result ℕ
  unfolding concat
  parse_github_timestamp (some (str s)) = elim (before_z s) [
    | none ↦ raise cleanup_error "is missing or not an RFC3339 UTC timestamp"
    | some head ↦ moment_of (h.from_iso (concat (head ∷ "+00:00" ∷ [])))
  ]
  parse_github_timestamp _ = raise cleanup_error "is missing or not an RFC3339 UTC timestamp"

  abbrev answered : Ended → Result Completed
  answered timed_out = raise cleanup_error "timed out"
  answered broken = raise os_error "gh"
  answered (exited c) = ok c

  -- `run_gh` with `check=False`, and with the default `check=True`
  unfoldable pub try_gh : List String → ℕ → Act h.World Completed
  unfolding ◌>>=◌
  try_gh args timeout = do ended ← start_gh h args timeout; lift (answered ended)

  abbrev pub succeeded : Completed → Result Completed
  succeeded c = if eqb c.returncode 0 then ok c else raise cleanup_error "failed"

  unfoldable pub run_gh : List String → Act h.World Completed
  unfolding ◌>>=◌
  run_gh args = do c ← try_gh args 90; lift (succeeded c)

  unfoldable pub parse_object : Completed → Result Fields
  parse_object c = elim (h.loads c.stdout) [
    | none ↦ raise cleanup_error "returned invalid JSON"
    | some value ↦ elim (as_object value) [
      | none ↦ raise cleanup_error "returned non-object JSON"
      | some fields ↦ ok fields
    ]
  ]

  unfoldable pub read_object : List String → Act h.World Fields
  unfolding ◌>>=◌
  read_object args = do c ← run_gh args; lift (parse_object c)
