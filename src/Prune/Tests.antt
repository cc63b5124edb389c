-- ===== src/Prune/Tests.antt =====
-- Runs of the prune script at concrete inputs.
use chromium_compile.Prelude.{◌+◌, ◌≤◌, false, ◌≡◌, refl, List, [], ◌∷◌, keep_if}
use chromium_compile.Result.{raise, prune_error}
use chromium_compile.Json.{
  Json, int, bool, str, arr, obj, Fields, field, done, of_list, get_str, concat, get, show, objects,
}
use chromium_compile.Host.{Host, State, Ended, recover, start_gh, ◌>>=◌}
use chromium_compile.Host.Canned.{canned, out, failed, start}
use chromium_compile.Host.Tally.{tally}
use chromium_compile.Text.Pattern.{is_repository, is_run_id}
use chromium_compile.Text.Title.{is_short_stage, build_title, before_at, is_branch}
use chromium_compile.Text.Version.{is_ascii_version}
use chromium_compile.Prune.{
  Target, bounded_stage, check_target, check_run, artifact_of, pick_artifact, run_gh, json_of,
  read_api, resolve_checkpoint_artifact, check_protected, delete, remove, prune_checkpoint,
}
use chromium_compile.Prune.Laws.{is_deletion, prune_checkpoint_once}

pruning : Unit {0}
unfolding keep_if get_str concat get show objects recover start_gh ◌>>=◌ is_repository is_run_id
    is_short_stage build_title before_at is_branch is_ascii_version bounded_stage check_target
    check_run artifact_of pick_artifact run_gh json_of read_api resolve_checkpoint_artifact
    check_protected delete remove prune_checkpoint
pruning = tt

abbrev target : Target
target = record {
  repository = "o/r";
  run_id = "42";
  version = "155.0.1.2";
  expected_stage = "3";
  default_branch = "main";
  lane = "linux";
}

abbrev run : Fields
run = field "status" (str "completed") (
    field "actor" (obj (field "login" (str "github-actions[bot]") done)) (
      field "path" (str ".github/workflows/chromium-i686.yml@main") (
        field "head_repository" (obj (field "full_name" (str "o/r") done)) (
          field "head_branch" (str "main") (
            field "event" (str "workflow_dispatch") (
              field "display_title" (str "Chromium i686 155.0.1.2 - stage 3 - attempt 0") done))))))

abbrev listing : List Json → Json
listing artifacts =
    obj (field "total_count" (int 1) (field "artifacts" (arr (of_list artifacts)) done))

abbrev artifact : Json
artifact = obj (
    field "name" (str "chromium-i686-out-stage-3")
      (field "expired" (bool false) (field "id" (int 77) done)))

abbrev h : Host
h = canned (("{r}", obj run) ∷ ("{a}", listing (artifact ∷ [])) ∷ ("{n}", listing []) ∷ [])

-- The client reports an error, and the artifact is gone.
abbrev gone : State (List Ended)
gone = start (out "{r}" ∷ out "{a}" ∷ failed "HTTP 502" ∷ out "{r}" ∷ out "{n}" ∷ [])

protected_run :
    (prune_checkpoint h target "42" false gone).0
    ≡ raise prune_error "refusing to prune checkpoint from protected current run"
unfolding pruning
protected_run = refl

prune_checkpoint_once_example :
    tally is_deletion (prune_checkpoint h target "" false gone).1.calls
    ≤ tally is_deletion gone.calls + 1
prune_checkpoint_once_example = prune_checkpoint_once h target "" false gone
