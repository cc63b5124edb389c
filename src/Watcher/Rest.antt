-- ===== src/Watcher/Rest.antt =====
-- scripts/chromium_stable_watcher.py: the paged reads `list_rest_items` and `list_workflow_runs`.
pub mod Pages
pub mod Filter
use chromium_compile.Prelude.{
  ℕ, zero, suc, ◌+◌, String, Bool, true, false, not, ◌&&◌, ◌||◌, Option, none, some, List, [], ◌∷◌,
  ◌++◌, eqb, ltb, leb, ◌==◌, if◌then◌else◌, length, is_empty, mem,
}
use chromium_compile.Result.{Result, ok, raise, value_error, watcher_error, assertion_error, map_ok}
use chromium_compile.Text.Digits.{has_char}
use chromium_compile.Json.{Json, Fields, as_list, as_object, get, objects, get_str, concat, show}
use chromium_compile.Host.{Host, Act, pure, throw, lift, ◌>>=◌, ◌>>◌}
use chromium_compile.Watcher.Gh.{Settings, gh_json}

-- `ACTIVE_RUN_STATES` and `QUARANTINE_RUN_CONCLUSIONS`
abbrev pub active_run_states : List String
active_run_states = "in_progress" ∷ "pending" ∷ "queued" ∷ "requested" ∷ "waiting" ∷ []

abbrev pub quarantine_run_conclusions : List String
quarantine_run_conclusions =
    "action_required" ∷ "cancelled" ∷ "failure" ∷ "stale" ∷ "startup_failure" ∷ "timed_out" ∷ []

abbrev pub supported : Option String → Bool
supported none = true
supported (some f) = mem f active_run_states || mem f quarantine_run_conclusions

module _ {W : Type 0} (fetch : ℕ → Act W (List Json)) (accept : List Json → Result (List Fields))
    (max_pages : ℕ) where
  -- The loop that both functions have: `for page in range(page, max_pages + 2)`, with `left` rounds
  -- to go. The last round is a probe past the horizon, whose page has to be empty.
  unfoldable pub collect : ℕ → ℕ → List Fields → Act W (List Fields)
  unfolding ◌>>=◌
  collect zero page found = throw assertion_error "unreachable pagination state"
  collect (suc left) page found = do
    items ← fetch page
    if ltb max_pages page
        then (if is_empty items then pure found else throw watcher_error "horizon saturated")
        else do
          kept ← lift (accept items)
          if ltb (length items) 100
              then pure (found ++ kept)
              else collect left (page + 1) (found ++ kept)

module _ (h : Host) (settings : Settings) where
  rest_page : Json → Result (List Json)
  rest_page payload = elim (as_list payload) [
    | none ↦ raise watcher_error "Unexpected GitHub REST response"
    | some items ↦ ok items
  ]

  has_query : String → Bool
  has_query = has_char b'?'

  unfoldable pub fetch_rest : String → String → ℕ → Act h.World (List Json)
  unfolding rest_page ◌>>=◌ has_query
  fetch_rest repository resource page = do
    payload ← gh_json h settings (
        "api"
        ∷ concat (
            "repos/"
            ∷ repository
            ∷ "/"
            ∷ resource
            ∷ (if has_query resource then "&" else "?")
            ∷ "per_page=100&page="
            ∷ show page
            ∷ [])
        ∷ [])
    lift (rest_page payload)

  unfoldable pub list_rest_items : String → String → Act h.World (List Fields)
  list_rest_items repository resource =
      let max_pages = settings.rest_max_pages in
      if ltb max_pages 1
      then throw value_error "max_pages must be at least 1"
      else collect (fetch_rest repository resource) (λ items. ok (objects items)) max_pages
          (max_pages + 1) 1 []

  -- What the filter of a query lets through, checked again on each run of a page
  unfoldable pub matches_filter : String → Fields → Bool
  unfolding mem get_str
  matches_filter status_filter run =
      let actual_status = get_str h.repr "status" run in
      let actual_conclusion = get_str h.repr "conclusion" run in
      if mem status_filter active_run_states
      then actual_status == status_filter
      else actual_status == "completed" && actual_conclusion == status_filter

  unfoldable pub check_filter : Option String → List Fields → Result (List Fields)
  check_filter none runs = ok runs
  check_filter (some status_filter) [] = ok []
  check_filter (some status_filter) (run ∷ runs) =
      let rest = check_filter (some status_filter) runs in
      if matches_filter status_filter run
      then map_ok (λ kept. run ∷ kept) rest
      else raise watcher_error "GitHub ignored or changed workflow status filter"

  unfoldable pub accept_runs : Option String → List Json → Result (List Fields)
  unfolding check_filter
  accept_runs status_filter page_runs =
      let valid = objects page_runs in
      if eqb (length valid) (length page_runs)
      then check_filter status_filter valid
      else raise watcher_error "Actions response contains malformed run metadata"

  runs_page : Json → Result (List Json)
  runs_page payload = elim (as_object payload) [
    | none ↦ raise watcher_error "Unexpected Actions response"
    | some fields ↦ elim (get "workflow_runs" fields) [
      | none ↦ ok []
      | some runs ↦ elim (as_list runs) [
        | none ↦ raise watcher_error "Actions response lacks workflow_runs"
        | some items ↦ ok items
      ]
    ]
  ]

  abbrev status_pair : Option String → List (String × String)
  status_pair none = []
  status_pair (some status) = ("status", status) ∷ []

  -- `created_after` in microseconds; `to_iso` gives the text of `strftime("%Y-%m-%dT%H:%M:%SZ")`.
  unfoldable pub fetch_runs : String → String → ℕ → Option String → ℕ → Act h.World (List Json)
  unfolding runs_page ◌>>=◌
  fetch_runs repository workflow created_after status_filter page = do
    let params =
        ("per_page", "100")
        ∷ ("page", show page)
        ∷ ("created", concat (">=" ∷ h.to_iso created_after ∷ []))
        ∷ status_pair status_filter
    payload ← gh_json h settings (
        "api"
        ∷ concat (
            "repos/"
            ∷ repository
            ∷ "/actions/workflows/"
            ∷ h.quote workflow
            ∷ "/runs?"
            ∷ h.urlencode params
            ∷ [])
        ∷ [])
    lift (runs_page payload)

  unfoldable pub list_workflow_runs :
      String → String → ℕ → Option String → Act h.World (List Fields)
  list_workflow_runs repository workflow created_after status_filter =
      let max_pages = settings.run_history_max_pages in
      if ltb max_pages 1
      then throw value_error "max_pages must be at least 1"
      else if not (supported status_filter)
      then throw value_error "unsupported workflow status filter"
      else collect (fetch_runs repository workflow created_after status_filter)
          (accept_runs status_filter) max_pages (max_pages + 1) 1 []
