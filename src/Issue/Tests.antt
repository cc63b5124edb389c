-- ===== src/Issue/Tests.antt =====
-- Runs of the maintenance issue script at concrete inputs.
use chromium_compile.Prelude.{◌+◌, ◌≤◌, String, ◌≡◌, refl, Option, List, [], ◌∷◌}
use chromium_compile.Result.{ok}
use chromium_compile.Json.{
  Json, int, str, arr, obj, field, done, of_list, concat, get, show, objects,
}
use chromium_compile.Host.{Host, State, Ended, recover, start_gh, sleep_for, ◌>>=◌}
use chromium_compile.Host.Canned.{canned, out, failed, start}
use chromium_compile.Host.Tally.{tally}
use chromium_compile.Issue.{
  closed_after_client_error, number_of, exact_numbers, pick_issue, run_gh, list_attempts,
  find_issue, attempt_gh, confirm_rounds, upsert_issue, close_issue_if_open,
}
use chromium_compile.Issue.Laws.{is_creation, allowance, upsert_issue_once}

tracking : Unit {0}
unfolding concat get show objects recover start_gh sleep_for ◌>>=◌ number_of exact_numbers
    pick_issue run_gh list_attempts find_issue attempt_gh confirm_rounds upsert_issue
    close_issue_if_open
tracking = tt

abbrev issues : Json
issues = arr (of_list (obj (field "number" (int 12) (field "title" (str "T") done)) ∷ []))

abbrev h : Host
h = canned (("[]", arr (of_list [])) ∷ ("[i]", issues) ∷ [])

-- The client fails at the creation, and the second look shows the issue.
abbrev late : State (List Ended)
late = start (out "[]" ∷ failed "HTTP 502" ∷ out "[]" ∷ out "[i]" ∷ [])

closing_run :
    (close_issue_if_open h "o/r" "T" (start (out "[i]" ∷ failed "HTTP 502" ∷ out "[]" ∷ []))).0
    ≡ ok (closed_after_client_error "12")
unfolding tracking
closing_run = refl

upsert_issue_once_example :
    ((existing : Option String) (t : State (List Ended))
      → find_issue h 2 "o/r" "T" late ≡ (ok existing, t)
      → tally is_creation (upsert_issue h "o/r" "T" "body.md" late).1.calls
        ≤ tally is_creation late.calls + allowance h existing)
    × (tally is_creation (upsert_issue h "o/r" "T" "body.md" late).1.calls
        ≤ tally is_creation late.calls + 1)
upsert_issue_once_example = upsert_issue_once h "o/r" "T" "body.md" late
