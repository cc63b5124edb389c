-- ===== src/Prune.antt =====
-- scripts/github_checkpoint_prune.py: a checkpoint is deleted only after its origin is proven, and the
-- deletion is confirmed.
pub mod Laws
mod Tests
use chromium_compile.Prelude.{
  ℕ, String, Bool, true, false, not, ◌&&◌, ◌||◌, Option, none, some, List, [], ◌∷◌, ◌==◌, eqb, leb,
  ltb, if◌then◌else◌, keep_if, is_empty,
}
use chromium_compile.Result.{Result, ok, raise, prune_error, os_error, and_then}
use chromium_compile.Json.{
  Json, bool, int, str, Fields, as_object, as_list, objects, get, get_str, concat, show,
}
use chromium_compile.Host.{
  Host, Completed, Ended, exited, timed_out, broken, Act, pure, throw, lift, recover, start_gh,
  ◌>>=◌,
}
use chromium_compile.Text.Digits.{int_of}
use chromium_compile.Text.Pattern.{is_repository, is_run_id}
use chromium_compile.Text.Title.{is_short_stage, build_title, before_at, is_branch}
use chromium_compile.Text.Version.{is_ascii_version}

-- The arguments that `resolve_checkpoint_artifact` and `prune_checkpoint` share
pub record Target : Type 0 where
  pub repository : String
  pub run_id : String
  pub version : String
  pub expected_stage : String
  pub default_branch : String
  pub lane : String

pub data PruneOutcome : Type 0 where
  already_missing : PruneOutcome
  dry_run deleted_after_client_error deleted : ℕ → PruneOutcome

abbrev pub require : Bool → String → Result (Unit {0})
require test why = if test then ok tt else raise prune_error why

abbrev pub is_lane : String → Bool
is_lane lane = lane == "linux" || lane == "windows"

-- `TITLE_RES`, `WORKFLOW_PATHS`, `ARTIFACT_PREFIXES`
abbrev pub product : String → String
product lane = if lane == "windows" then "Chromium Windows i686 " else "Chromium i686 "

abbrev pub workflow_path : String → String
workflow_path lane =
    if lane == "windows"
    then ".github/workflows/chromium-windows-i686.yml"
    else ".github/workflows/chromium-i686.yml"

abbrev pub artifact_prefix : String → String
artifact_prefix lane =
    if lane == "windows" then "chromium-windows-i686-out-stage-" else "chromium-i686-out-stage-"

unfoldable pub bounded_stage : String → Result ℕ
unfolding is_short_stage int_of
bounded_stage value =
    if not (is_short_stage value)
    then raise prune_error "expected_stage must be an integer from 1 through 50"
    else if ltb 50 (int_of value)
    then raise prune_error "expected_stage exceeds hard maximum 50"
    else ok (int_of value)

unfoldable pub check_target : Target → Result ℕ
unfolding is_repository is_run_id is_ascii_version is_branch bounded_stage
check_target t = and_then (require (is_lane t.lane) "unsupported checkpoint lane") λ _.
    and_then (require (is_repository t.repository) "invalid repository") λ _.
      and_then (require (is_run_id t.run_id) "invalid Actions run id") λ _.
        and_then (require (is_ascii_version t.version) "invalid Chromium version") λ _.
          and_then (bounded_stage t.expected_stage) λ stage.
            and_then (require (is_branch t.default_branch) "invalid default branch") λ _. ok stage

-- `value == text`, for a value that may be missing or no text
abbrev pub equals : Option Json → String → Bool
equals (some (str s)) text = s == text
equals _ text = false

-- A field of a field that is an object
abbrev nested : String → String → Fields → Option Json
nested outer inner fs = elim (get outer fs) [
  | none ↦ none
  | some j ↦ elim (as_object j) [ none ↦ none | some inside ↦ get inner inside ]
]

abbrev title_fits : String → ℕ → Option (String × String) → Bool
title_fits version stage none = false
title_fits version stage (some (v, s)) = v == version && eqb (int_of s) stage

abbrev ids_of : Option Json → Option (List Json)
ids_of none = none
ids_of (some j) = as_list j

abbrev small : Option Json → Bool
small (some (int n)) = leb n 100
small _ = false

module _ (h : Host) where
  -- The checks of the run that is said to have made the checkpoint
  unfoldable pub check_run : Target → ℕ → Fields → Result (Unit {0})
  unfolding get get_str before_at build_title is_short_stage int_of
  check_run t stage run =
      and_then (require (equals (get "status" run) "completed") "is not completed") λ _.
        and_then (require (equals (nested "actor" "login" run) "github-actions[bot]") "actor") λ _.
          and_then
            (require (before_at (get_str h.repr "path" run) == workflow_path t.lane) "workflow")
            λ _.
              and_then
                (require (equals (nested "head_repository" "full_name" run) t.repository) "origin")
                λ _.
                  and_then (require (equals (get "head_branch" run) t.default_branch) "branch") λ _.
                    and_then (require (equals (get "event" run) "workflow_dispatch") "event") λ _.
                      require
                        (title_fits t.version stage (
                          build_title is_short_stage (product t.lane)
                            (get_str h.repr "display_title" run)))
                        "title does not match"

  -- The artifact's id, if it is there and has not expired
  unfoldable pub artifact_of : Fields → Result (Option ℕ)
  unfolding get get_str is_run_id int_of
  artifact_of artifact = elim (get "expired" artifact) [
    | some (bool true) ↦ ok none
    | some (bool false) ↦
        if is_run_id (get_str h.repr "id" artifact)
        then ok (some (int_of (get_str h.repr "id" artifact)))
        else raise prune_error "checkpoint artifact has invalid id"
    | _ ↦ raise prune_error "checkpoint artifact has malformed expired metadata"
  ]

  abbrev only : List Fields → Result (Option ℕ)
  only [] = ok none
  only (artifact ∷ []) = artifact_of artifact
  only (_ ∷ _) = raise prune_error "multiple checkpoint artifacts"

  unfoldable pub pick_artifact : Target → ℕ → Fields → Result (Option ℕ)
  unfolding get objects keep_if artifact_of concat show
  pick_artifact t stage artifacts =
      let expected_name = concat (artifact_prefix t.lane ∷ show stage ∷ []) in
      and_then (require (small (get "total_count" artifacts)) "exceeds bounded contract") λ _.
        elim (ids_of (get "artifacts" artifacts)) [
          | none ↦ raise prune_error "artifact listing lacks an artifacts array"
          | some values ↦
              only (keep_if (λ item. equals (get "name" item) expected_name) (objects values))
        ]

  abbrev ended_well : Ended → Result Completed
  ended_well timed_out = raise prune_error "timed out"
  ended_well broken = raise os_error "gh"
  ended_well (exited c) = if eqb c.returncode 0 then ok c else raise prune_error "failed"

  unfoldable pub run_gh : List String → ℕ → Act h.World Completed
  unfolding ◌>>=◌
  run_gh args timeout = do ended ← start_gh h args timeout; lift (ended_well ended)

  -- `_json`
  unfoldable pub json_of : Completed → Result Fields
  json_of c = elim (h.loads c.stdout) [
    | none ↦ raise prune_error "returned invalid JSON"
    | some value ↦ elim (as_object value) [
      | none ↦ raise prune_error "returned non-object JSON"
      | some fields ↦ ok fields
    ]
  ]

  unfoldable pub read_api : List String → Act h.World Fields
  unfolding ◌>>=◌ concat
  read_api path = do result ← run_gh ("api" ∷ concat path ∷ []) 90; lift (json_of result)

  unfoldable pub resolve_checkpoint_artifact : Target → Act h.World (Option ℕ)
  unfolding ◌>>=◌ check_target check_run pick_artifact
  resolve_checkpoint_artifact t = do
    stage ← lift (check_target t)
    run ← read_api ("repos/" ∷ t.repository ∷ "/actions/runs/" ∷ t.run_id ∷ [])
    _ ← lift (check_run t stage run)
    artifacts ←
        read_api
          ("repos/" ∷ t.repository ∷ "/actions/runs/" ∷ t.run_id ∷ "/artifacts?per_page=100" ∷ [])
    lift (pick_artifact t stage artifacts)

  -- The guard for the run that is in progress
  unfoldable pub check_protected : Target → String → Result (Unit {0})
  unfolding is_run_id
  check_protected t protect_run_id =
      if protect_run_id == ""
      then ok tt
      else if not (is_run_id protect_run_id)
      then raise prune_error "invalid protected Actions run id"
      else if t.run_id == protect_run_id
      then raise prune_error "refusing to prune checkpoint from protected current run"
      else ok tt

  abbrev pub delete_command : Target → ℕ → List String
  delete_command t id =
      "api"
      ∷ "--method"
      ∷ "DELETE"
      ∷ concat ("repos/" ∷ t.repository ∷ "/actions/artifacts/" ∷ show id ∷ [])
      ∷ []

  -- The deletion, where `some why` is an error of the client
  unfoldable pub delete : Target → ℕ → Act h.World (Option String)
  unfolding ◌>>=◌
  delete t id =
      recover prune_error (do _ ← run_gh (delete_command t id) 120; pure none)
        (λ why. pure (some why))

  abbrev pub concluded : ℕ → Option String → Option ℕ → Act h.World PruneOutcome
  concluded id none none = pure (deleted id)
  concluded id none (some _) = throw prune_error "is still visible after DELETE"
  concluded id (some why) none = pure (deleted_after_client_error id)
  concluded id (some why) (some _) = throw prune_error why

  -- Either way it is looked up once more whether the artifact is gone.
  unfoldable pub remove : Target → ℕ → Act h.World PruneOutcome
  unfolding ◌>>=◌
  remove t id = do
    failure ← delete t id
    left ← resolve_checkpoint_artifact t
    concluded id failure left

  abbrev pub decided : Target → Bool → Option ℕ → Act h.World PruneOutcome
  decided t is_dry none = pure already_missing
  decided t is_dry (some id) = if is_dry then pure (dry_run id) else remove t id

  unfoldable pub prune_checkpoint : Target → String → Bool → Act h.World PruneOutcome
  unfolding ◌>>=◌ check_protected
  prune_checkpoint t protect_run_id is_dry = do
    _ ← lift (check_protected t protect_run_id)
    found ← resolve_checkpoint_artifact t
    decided t is_dry found
