-- ===== src/Handoff/Tests.antt =====
-- A handoff at a concrete input.
use chromium_compile.Prelude.{◌+◌, ◌≤◌, String, List, [], ◌∷◌, mem}
use chromium_compile.Json.{
  Json, str, arr, obj, Fields, field, done, of_list, get, get_str, concat, objects,
}
use chromium_compile.Host.{Host, State, Ended, recover, sleep_for, ◌>>=◌}
use chromium_compile.Host.Canned.{canned, out, start}
use chromium_compile.Text.Pattern.{is_repository, is_run_id}
use chromium_compile.Text.Strip.{lower_hex, strip}
use chromium_compile.Text.Title.{is_stage, build_title, before_at, is_branch}
use chromium_compile.Text.Version.{is_ascii_version}
use chromium_compile.Dispatch.Lookup.{
  normalize_expected_sha, run_gh, runs_command, read_runs, recent_attempts, list_recent_runs,
  exact_run, matches_or_fail, exact_runs_or_fail_closed, utc_moment, workflow_run_created_at,
}
use chromium_compile.Dispatch.Confirm.{any_since, exact_exists_since}
use chromium_compile.Dispatch.Once.Laws.{sent}
use chromium_compile.Handoff.{
  Build, validate_inputs, json_of, read_build_run, validate_build_identity, wait_rounds,
  wait_for_successful_build, legacy_rounds, wait_for_legacy_publisher, handoff_release,
}
use chromium_compile.Handoff.Laws.{handoff_release_once}

handing : Unit {0}
unfolding mem get get_str concat objects recover sleep_for ◌>>=◌ is_repository is_run_id lower_hex
    strip is_stage build_title before_at is_branch is_ascii_version normalize_expected_sha run_gh
    runs_command read_runs recent_attempts list_recent_runs exact_run matches_or_fail
    exact_runs_or_fail_closed utc_moment workflow_run_created_at any_since exact_exists_since
    validate_inputs json_of read_build_run validate_build_identity wait_rounds
    wait_for_successful_build legacy_rounds wait_for_legacy_publisher handoff_release
handing = tt

abbrev sha : String
sha = "0123456789abcdef0123456789abcdef01234567"

abbrev b : Build
b = record {
  repository = "o/r";
  run_id = "42";
  version = "155.0.1.2";
  branch = "main";
  expected_sha = sha;
  lane = "linux";
}

abbrev run : String → Fields
run status = field "status" (str status) (
    field "conclusion" (str "success") (
      field "path" (str ".github/workflows/chromium-i686.yml@main") (
        field "head_repository" (obj (field "full_name" (str "o/r") done)) (
          field "head_branch" (str "main") (
            field "head_sha" (str sha) (
              field "event" (str "workflow_dispatch") (
                field "created_at" (str "now") (
                  field "display_title" (str "Chromium i686 155.0.1.2 - stage 3 - attempt 0")
                    done))))))))

abbrev publishers : Json
publishers = arr (
    of_list (
      obj (
        field "displayTitle" (str "Publish Chromium i686 155.0.1.2 - stage 3 - attempt 0") (
          field "headBranch" (str "main") (
            field "headSha" (str sha)
              (field "status" (str "queued") (field "createdAt" (str "now") done)))))
      ∷ []))

abbrev h : Host
h = canned (
    ("{active}", obj (run "in_progress"))
    ∷ ("{ended}", obj (run "completed"))
    ∷ ("[]", arr (of_list []))
    ∷ ("[run]", publishers)
    ∷ [])

-- The build ends after the first look; its publisher appears at the second listing.
abbrev s : State (List Ended)
s = start (out "{active}" ∷ out "{ended}" ∷ out "now" ∷ out "[]" ∷ out "[run]" ∷ [])

handoff_release_once_example : sent (handoff_release h 100 b s).1 ≤ sent s + 1
handoff_release_once_example = handoff_release_once h 100 b s
