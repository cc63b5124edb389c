-- ===== src/Watcher/Main/Tests.antt =====
-- Runs of the watcher at concrete inputs.
use chromium_compile.Prelude.{
  ◌+◌, ◌≤◌, max, String, true, ◌≡◌, refl, Option, some, List, [], ◌∷◌, ◌==◌, if◌then◌else◌, mem,
  to_set,
}
use chromium_compile.Result.{Result, ok, raise, source_not_found}
use chromium_compile.Json.{
  Json, str, arr, obj, field, done, of_list, get, get_str, concat, show, objects,
}
use chromium_compile.Host.{Host, State, Ended, recover, sleep_for, time_now, outside, ◌>>=◌}
use chromium_compile.Host.Canned.{canned, out, start}
use chromium_compile.Dispatch.Once.Laws.{sent}
use chromium_compile.Text.Version.{version_key, is_version, key_ltb, key_leb}
use chromium_compile.Text.Version.Sorting.{sorted_versions, names}
use chromium_compile.Watcher.Gh.{Settings, gh_json, run_gh, json_attempts, read_json}
use chromium_compile.Watcher.Lane.{LaneConfig, linux_lane}
use chromium_compile.Watcher.Rest.{
  list_rest_items, list_workflow_runs, fetch_rest, fetch_runs, accept_runs, collect,
}
use chromium_compile.Watcher.RunState.{consume_all, queries, read_all, list_port_run_state}
use chromium_compile.Watcher.Health.{
  judge_all, list_release_health, list_blocked_versions, blocked_by,
}
use chromium_compile.Watcher.Feed.{
  known_versions, legacy_versions, load_baseline, newer_versions, version_pages,
  fetch_stable_versions,
}
use chromium_compile.Watcher.Select.{select_candidates}
use chromium_compile.Watcher.Main.{
  Args, source_object_is_ready, dispatch_preflight, refuse_broken, blocked_versions, plan_listed,
  plan_builds, eligible_candidates, pick_ready, dispatch_all, watch,
}
use chromium_compile.Watcher.Main.Laws.{watch_at_most}

watching : Unit {0}
unfolding mem to_set get get_str concat show objects recover sleep_for time_now outside ◌>>=◌
    version_key is_version key_ltb key_leb sorted_versions names gh_json run_gh json_attempts
    read_json list_rest_items list_workflow_runs fetch_rest fetch_runs accept_runs collect
    consume_all queries read_all list_port_run_state judge_all list_release_health
    list_blocked_versions blocked_by known_versions legacy_versions load_baseline newer_versions
    version_pages fetch_stable_versions select_candidates source_object_is_ready dispatch_preflight
    refuse_broken blocked_versions plan_listed plan_builds eligible_candidates pick_ready
    dispatch_all watch
watching = tt

abbrev settings : Settings
settings = record {
  gh_timeout_seconds = 30;
  gh_read_attempts = 1;
  run_history_days = 1095;
  run_history_max_pages = 1;
  rest_max_pages = 1;
  version_api_max_pages = 2;
}

abbrev lane : LaneConfig
lane = record linux_lane { workflows = [] }

abbrev h : Host
h = canned (("[]", arr (of_list [])) ∷ [])

abbrev before : State (List Ended)
before = start (out "[]" ∷ out "[]" ∷ [])

abbrev version : String → Json
version v = obj (field "version" (str v) done)

abbrev feed : String → List (String × String) → List Ended → Result (Option Json) × List Ended
feed url params w = (
  ok (
      some (
        obj (
          field "versions"
            (arr (of_list (version "155.0.1.2" ∷ version "149.0.0.1" ∷ version "156.0.1.2" ∷ [])))
            done))),
  w,
)

-- The source of the newest version is not there yet.
abbrev sources : String → List Ended → Result (Unit {0}) × List Ended
sources v w = (if v == "156.0.1.2" then raise source_not_found "not published" else ok tt, w)

abbrev args : Args
args = record {
  repository = "o/r";
  ref = "main";
  expected_head_sha = "";
  max_new_builds = 2;
  force_version = "";
  dry_run = true;
}

abbrev file : Json
file = obj (field "minimum_version" (str "150.0.0.0") done)

ready_only :
    (watch h settings 100 lane feed sources "url" args file before).0 ≡ ok ("155.0.1.2" ∷ [])
unfolding watching
ready_only = refl

watch_at_most_example :
    sent (watch h settings 100 lane feed sources "url" args file before).1 ≤ sent before + max 1 2
watch_at_most_example = watch_at_most h settings 100 lane feed sources "url" args file before
