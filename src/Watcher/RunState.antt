-- ===== src/Watcher/RunState.antt =====
-- scripts/chromium_stable_watcher.py: `extract_port_version` and `list_port_run_state`.
pub mod Laws
mod Tests
use chromium_compile.Prelude.{
  ℕ, ◌-◌, ◌*◌, String, Bool, true, false, ◌&&◌, Option, none, some, List, [], ◌∷◌, ◌++◌, ◌==◌,
  if◌then◌else◌, mem, insert, map,
}
use chromium_compile.Result.{Result, ok, raise, watcher_error, and_then}
use chromium_compile.Json.{Fields, get_str, concat}
use chromium_compile.Host.{Host, Act, pure, lift, ◌>>=◌, time_now}
use chromium_compile.Text.Digits.{is_digit}
use chromium_compile.Text.Pattern.{drop_prefix, dotted}
use chromium_compile.Watcher.Gh.{Settings}
use chromium_compile.Watcher.Lane.{LaneConfig}
use chromium_compile.Watcher.Rest.{
  active_run_states, quarantine_run_conclusions, list_workflow_runs,
}

abbrev skip_optional : String → String → String
skip_optional prefix s = elim (drop_prefix prefix s) [ none ↦ s | some rest ↦ rest ]

-- The expression of `extract_port_version` at the head of a text
unfoldable pub titled : String → String → Option String
unfolding drop_prefix dotted is_digit
titled product s = elim (drop_prefix product s) [
  | none ↦ none
  | some rest ↦ elim (drop_prefix " " (skip_optional " preflight" rest)) [
    | none ↦ none
    | some rest' ↦ elim (dotted is_digit 3 rest') [ none ↦ none | some (version, _) ↦ some version ]
  ]
]

abbrev or_else : Option String → Option String → Option String
or_else none later = later
or_else (some version) later = some version

unfoldable pub search_title : String → String → Option String
unfolding titled
search_title product String.[] = titled product String.[]
search_title product (String.◌∷◌ c s) =
    let later = search_title product s in or_else (titled product (String.◌∷◌ c s)) later

unfoldable pub extract_port_version : String → LaneConfig → Option String
unfolding search_title
extract_port_version title lane =
    search_title (if lane.key == "windows" then "Chromium Windows i686" else "Chromium i686") title

-- The two sets that `list_port_run_state` collects
pub record RunState : Type 0 where
  pub active : List String
  pub quarantined : List String

module _ (h : Host) (settings : Settings) (production_ref : Option String) (lane : LaneConfig) where
  -- A completed run that failed counts if it belongs to the production ref.
  unfoldable pub quarantine : String → Fields → RunState → Result RunState
  unfolding insert
  quarantine version run state = elim production_ref [
    | none ↦ ok (record state { quarantined = insert version state.quarantined })
    | some ref ↦
        let head_branch = get_str h.repr "head_branch" run in
        if head_branch == ""
        then raise watcher_error "lacks head_branch"
        else if head_branch == ref
        then ok (record state { quarantined = insert version state.quarantined })
        else ok state
  ]

  -- The branches of `consume`, by the version of the run's title and its two tests
  unfoldable pub settle : Option String → Bool → Bool → Fields → RunState → Result RunState
  unfolding insert
  settle none is_active has_failed run state =
      if is_active then raise watcher_error "run has an unparseable display title" else ok state
  settle (some version) is_active has_failed run state =
      if is_active
      then ok (record state { active = insert version state.active })
      else if has_failed
      then quarantine version run state
      else ok state

  -- `consume`, which changes the two sets
  unfoldable pub consume : Fields → RunState → Result RunState
  unfolding mem
  consume run state =
      let status = get_str h.repr "status" run in
      let conclusion = get_str h.repr "conclusion" run in
      settle (extract_port_version (get_str h.repr "display_title" run) lane)
        (mem status active_run_states)
        (status == "completed" && mem conclusion quarantine_run_conclusions) run state

  unfoldable pub consume_all : List Fields → RunState → Result RunState
  consume_all [] state = ok state
  consume_all (run ∷ runs) state = and_then (consume run state) (consume_all runs)

  -- The rounds of the two inner loops for one workflow, then for all of them
  unfoldable pub queries : List String → List (String × String)
  queries [] = []
  queries (workflow ∷ workflows) =
      map (λ filter. (workflow, filter)) (active_run_states ++ quarantine_run_conclusions)
      ++ queries workflows

  unfoldable pub read_all : String → ℕ → List (String × String) → RunState → Act h.World RunState
  unfolding ◌>>=◌
  read_all repository cutoff [] state = pure state
  read_all repository cutoff ((workflow, filter) ∷ rest) state = do
    runs ← list_workflow_runs h settings repository workflow cutoff (some filter)
    state' ← lift (consume_all runs state)
    read_all repository cutoff rest state'

  -- Days in microseconds
  abbrev pub days : ℕ → ℕ
  days n = n * 86400000000

  unfoldable pub list_port_run_state : String → Act h.World RunState
  unfolding ◌>>=◌
  list_port_run_state repository = do
    now ← time_now h
    read_all repository (now - days settings.run_history_days) (queries lane.workflows)
        (record { active = []; quarantined = [] })
