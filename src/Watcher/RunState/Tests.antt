-- ===== src/Watcher/RunState/Tests.antt =====
-- The run state of a lane with one workflow, read from eleven listings.
use chromium_compile.Prelude.{String, ◌≡◌, refl, some, none, List, [], ◌∷◌}
use chromium_compile.Result.{ok}
use chromium_compile.Json.{Json, str, arr, obj, field, done, of_list, objects, get_str, concat}
use chromium_compile.Host.{Host, State, Ended, recover, sleep_for, time_now, ◌>>=◌}
use chromium_compile.Host.Canned.{canned, out, start}
use chromium_compile.Watcher.Gh.{Settings, gh_json, run_gh, json_attempts, read_json}
use chromium_compile.Watcher.Lane.{LaneConfig, linux_lane, windows_lane}
use chromium_compile.Watcher.Rest.{
  list_workflow_runs, fetch_runs, accept_runs, matches_filter, collect,
}
use chromium_compile.Watcher.RunState.{
  RunState, extract_port_version, consume, consume_all, settle, quarantine, queries, read_all,
  list_port_run_state,
}
use chromium_compile.Watcher.RunState.Laws.{IsRead, list_port_run_state-IsRead}

preflight_title :
    extract_port_version "Publish Chromium i686 preflight 155.0.1.2 (1)" linux_lane
    ≡ some "155.0.1.2"
unfolding extract_port_version concat
preflight_title = refl

other_lane_title : extract_port_version "Chromium i686 155.0.1.2" windows_lane ≡ none
unfolding extract_port_version concat
other_lane_title = refl

abbrev settings : Settings
settings = record {
  gh_timeout_seconds = 30;
  gh_read_attempts = 2;
  run_history_days = 1095;
  run_history_max_pages = 1;
  rest_max_pages = 1;
  version_api_max_pages = 2;
}

abbrev lane : LaneConfig
lane = record linux_lane { workflows = "w" ∷ [] }

abbrev runs_of : String → String → String → Json
runs_of status conclusion title = obj (
    field "workflow_runs"
      (arr (
        of_list (
          obj (
            field "status" (str status) (
              field "conclusion" (str conclusion)
                (field "display_title" (str title) (field "head_branch" (str "main") done))))
          ∷ [])))
      done)

abbrev h : Host
h = canned (
    ("{}", obj done)
    ∷ ("{q}", runs_of "queued" "" "Chromium i686 155.0.1.2")
    ∷ ("{f}", runs_of "completed" "failure" "Chromium i686 154.0.1.2 - stage 1")
    ∷ [])

abbrev before : State (List Ended)
before = start (
    out "{}"
    ∷ out "{}"
    ∷ out "{q}"
    ∷ out "{}"
    ∷ out "{}"
    ∷ out "{}"
    ∷ out "{}"
    ∷ out "{f}"
    ∷ out "{}"
    ∷ out "{}"
    ∷ out "{}"
    ∷ [])

abbrev state : RunState
state = record { active = "155.0.1.2" ∷ []; quarantined = "154.0.1.2" ∷ [] }

abbrev after : State (List Ended)
after = (list_port_run_state h settings (some "main") lane "o/r" before).1

state_read : list_port_run_state h settings (some "main") lane "o/r" before ≡ (ok state, after)
unfolding list_port_run_state read_all consume_all consume settle quarantine queries
    extract_port_version list_workflow_runs fetch_runs accept_runs collect gh_json json_attempts
    read_json run_gh objects recover ◌>>=◌ matches_filter concat get_str time_now sleep_for
state_read = refl

list_port_run_state-IsRead_example : IsRead h settings (some "main") lane "o/r" before after state
list_port_run_state-IsRead_example =
    list_port_run_state-IsRead h settings (some "main") lane "o/r" state before after state_read
