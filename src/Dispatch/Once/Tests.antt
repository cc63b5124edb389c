-- ===== src/Dispatch/Once/Tests.antt =====
-- Runs of `dispatch_once` at concrete inputs, and instances of the theorems about it.
use chromium_compile.Prelude.{
  ◌+◌, ◌≤◌, String, false, ◌≡◌, refl, none, some, List, [], ◌∷◌, if◌then◌else◌,
}
use chromium_compile.Result.{ok, raise, dispatch_error}
use chromium_compile.Json.{Json, str, arr, obj, field, done, of_list, concat, objects, get_str}
use chromium_compile.Host.{Host, State, Ended, recover, time_now, sleep_for, ◌>>=◌}
use chromium_compile.Host.Canned.{canned, out, failed, start}
use chromium_compile.Text.Strip.{strip}
use chromium_compile.Dispatch.Lookup.{
  normalize_expected_sha, run_gh, runs_command, read_runs, recent_attempts, list_recent_runs,
  exact_run, matches_or_fail, exact_runs_or_fail_closed, utc_moment, resolve_ref_sha,
}
use chromium_compile.Dispatch.Confirm.{
  scan_heads, recent_dispatch_head_state, confirm_rounds, confirm_expected_dispatch_head,
  exact_active_among, exact_active_exists, any_since, exact_exists_since, exact_recent_exists,
}
use chromium_compile.Dispatch.Once.{
  already_active, accepted, accepted_after_client_error, Request, find_duplicate, check_lineage,
  recent_rounds, after_error, after_accept, send, dispatch_new, dispatch_once,
}
use chromium_compile.Dispatch.Once.Laws.{sent, dispatch_once_at_most}
use chromium_compile.Dispatch.Once.Outcomes.{dispatch_once_exact, is_new}

lookups : Unit {0}
unfolding normalize_expected_sha run_gh read_runs recent_attempts list_recent_runs exact_run
    matches_or_fail exact_runs_or_fail_closed utc_moment resolve_ref_sha recover ◌>>=◌ concat
    runs_command
lookups = tt

calls : Unit {0}
unfolding lookups objects get_str strip scan_heads recent_dispatch_head_state confirm_rounds
    confirm_expected_dispatch_head exact_active_among exact_active_exists any_since
    exact_exists_since exact_recent_exists find_duplicate check_lineage recent_rounds after_error
    after_accept send dispatch_new dispatch_once time_now sleep_for
calls = tt

abbrev sha : String
sha = "0123456789abcdef0123456789abcdef01234567"

abbrev request : Request
request = record {
  repository = "o/r";
  workflow = "w.yml";
  ref = "main";
  title = "Chromium i686 preflight 155.0.1.2";
  inputs = "version=155.0.1.2" ∷ [];
  confirm_attempts = 2;
  dedupe_completed = false;
  dedupe_since_run_id = none;
  expected_head_sha = none;
}

abbrev visible : Json
visible = arr (
    of_list (
      obj (
        field "displayTitle" (str "Chromium i686 preflight 155.0.1.2") (
          field "headBranch" (str "main") (
            field "headSha" (str sha)
              (field "status" (str "queued") (field "createdAt" (str "now") done)))))
      ∷ []))

abbrev h : Host
h = canned (("[]", arr (of_list [])) ∷ ("[run]", visible) ∷ [])

-- Five listings of the runs that are not completed, all empty
abbrev none_active : List Ended → List Ended
none_active w = out "[]" ∷ out "[]" ∷ out "[]" ∷ out "[]" ∷ out "[]" ∷ w

abbrev plain : State (List Ended)
plain = start (none_active (out "" ∷ []))

accepted_run :
    dispatch_once h 100 request plain ≡ (ok accepted, (dispatch_once h 100 request plain).1)
unfolding calls
accepted_run = refl

active_test :
    (dispatch_once h 100 request (start (out "[]" ∷ out "[run]" ∷ []))).0 ≡ ok already_active
unfolding calls
active_test = refl

-- The client fails, and the run is listed at the second look.
recovered_test :
    (dispatch_once h 100 request
      (start (none_active (failed "HTTP 502" ∷ out "[]" ∷ out "[run]" ∷ [])))).0
    ≡ ok accepted_after_client_error
unfolding calls
recovered_test = refl

-- The client fails, and no run is listed.
unconfirmed_test :
    (dispatch_once h 100 request
      (start (none_active (failed "HTTP 502" ∷ out "[]" ∷ out "[]" ∷ [])))).0
    ≡ raise dispatch_error "failed"
unfolding calls
unconfirmed_test = refl

abbrev pinned : Request
pinned = record request { expected_head_sha = some sha }

abbrev live : State (List Ended)
live = start (none_active (out sha ∷ out "" ∷ out "[run]" ∷ []))

dispatch_once_at_most_example : sent (dispatch_once h 100 pinned live).1 ≤ sent live + 1
dispatch_once_at_most_example = dispatch_once_at_most h 100 pinned live

dispatch_once_exact_example :
    sent (dispatch_once h 100 request plain).1
    ≡ (if is_new accepted then sent plain + 1 else sent plain)
dispatch_once_exact_example =
    dispatch_once_exact h 100 request accepted plain (dispatch_once h 100 request plain).1
      accepted_run
