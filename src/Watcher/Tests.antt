-- ===== src/Watcher/Tests.antt =====
-- Runs of the watcher's functions at concrete inputs, and instances of the theorems about them.
use chromium_compile.Prelude.{
  ◌≤◌, String, true, ◌≡◌, refl, ◌↔◌, some, List, [], ◌∷◌, All, mem, to_set,
}
use chromium_compile.Result.{ok}
use chromium_compile.Json.{Fields, null, str, arr, obj, field, done, of_list, objects, concat}
use chromium_compile.Host.{Host, State, Ended, recover, sleep_for, ◌>>=◌}
use chromium_compile.Host.Canned.{canned, out, failed, start}
use chromium_compile.Text.Version.{version_key, key_ltb, key_leb}
use chromium_compile.Text.Version.Sorting.{sorted_versions, names}
use chromium_compile.Watcher.Gh.{Settings, gh_json, run_gh, json_attempts, read_json}
use chromium_compile.Watcher.Rest.{
  list_rest_items, list_workflow_runs, fetch_rest, fetch_runs, accept_runs, matches_filter, collect,
  supported,
}
use chromium_compile.Watcher.Rest.Pages.{IsWhole, list_workflow_runs_iff}
use chromium_compile.Watcher.Rest.Filter.{list_workflow_runs_match}
use chromium_compile.Watcher.Select.{PortState, select_candidates}
use chromium_compile.Watcher.Select.Entries.{IsAscending}
use chromium_compile.Watcher.Select.Laws.{IsEligible, select_candidates_sound}

abbrev state : PortState
state = record {
  known = "151.0.0.1" ∷ [];
  released = "152.0.0.1" ∷ [];
  blocked = "153.0.0.1" ∷ [];
  active = [];
}

abbrev versions : List String
versions = "155.0.0.2" ∷ "151.0.0.1" ∷ "154.0.0.1" ∷ "153.0.0.1" ∷ "152.0.0.1" ∷ "154.0.0.1" ∷ []

two_candidates :
    select_candidates versions "150.0.0.0" state 2 ≡ ok ("154.0.0.1" ∷ "155.0.0.2" ∷ [])
unfolding select_candidates sorted_versions version_key names mem to_set key_ltb key_leb
two_candidates = refl

select_candidates_sound_example :
    All (IsEligible versions "150.0.0.0" state) ("154.0.0.1" ∷ "155.0.0.2" ∷ [])
    × IsAscending ("154.0.0.1" ∷ "155.0.0.2" ∷ [])
    × (2 ≤ 2)
select_candidates_sound_example =
    select_candidates_sound versions "150.0.0.0" state 2 ("154.0.0.1" ∷ "155.0.0.2" ∷ [])
      two_candidates

abbrev busy : PortState
busy = record state { active = "154.0.0.1" ∷ [] }

abbrev settings : Settings
settings = record {
  gh_timeout_seconds = 30;
  gh_read_attempts = 2;
  run_history_days = 1095;
  run_history_max_pages = 1;
  rest_max_pages = 1;
  version_api_max_pages = 2;
}

abbrev run : Fields
run = field "status" (str "queued") (field "display_title" (str "Chromium i686 155.0.1.2") done)

abbrev h : Host
h = canned (
    ("[]", arr (of_list []))
    ∷ ("[r]", arr (of_list (obj run ∷ null ∷ [])))
    ∷ ("{r}", obj (field "workflow_runs" (arr (of_list (obj run ∷ []))) done))
    ∷ [])

-- The first attempt fails, so the second answers.
rest_read :
    (list_rest_items h settings "o/r" "releases" (start (failed "HTTP 502" ∷ out "[r]" ∷ []))).0
    ≡ ok (run ∷ [])
unfolding list_rest_items fetch_rest collect gh_json json_attempts read_json run_gh objects recover
    ◌>>=◌ sleep_for
rest_read = refl

abbrev after_runs : State (List Ended)
after_runs = record {
  world = [];
  calls = ("api" ∷ "repos/o/r/actions/workflows/w/runs?query" ∷ []) ∷ [];
}

runs_read :
    list_workflow_runs h settings "o/r" "w" 5 (some "queued") (start (out "{r}" ∷ []))
    ≡ (ok (run ∷ []), after_runs)
unfolding list_workflow_runs fetch_runs accept_runs collect gh_json json_attempts read_json run_gh
    objects recover ◌>>=◌ matches_filter concat
runs_read = refl

list_workflow_runs_iff_example :
    (list_workflow_runs h settings "o/r" "w" 5 (some "queued") (start (out "{r}" ∷ []))
      ≡ (ok (run ∷ []), after_runs))
    ↔ ((1 ≤ 1)
        × (supported (some "queued") ≡ true)
        × IsWhole
            (fetch_runs h settings "o/r" "w" 5 (some "queued"))
            (accept_runs h settings (some "queued"))
            1
            1
            (start (out "{r}" ∷ []))
            after_runs
            (run ∷ []))
list_workflow_runs_iff_example =
    list_workflow_runs_iff h settings "o/r" "w" 5 (some "queued") (run ∷ [])
      (start (out "{r}" ∷ [])) after_runs

list_workflow_runs_match_example : All (λ r. matches_filter h settings "queued" r ≡ true) (run ∷ [])
list_workflow_runs_match_example =
    list_workflow_runs_match h settings "queued" "o/r" "w" 5 (run ∷ []) (start (out "{r}" ∷ []))
      after_runs runs_read
