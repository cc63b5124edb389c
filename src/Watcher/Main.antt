-- ===== src/Watcher/Main.antt =====
-- scripts/chromium_stable_watcher.py: `source_object_is_ready`, `dispatch_preflight` and the
-- decisions of `main`, without its prints and its summary.
pub mod Sends
pub mod Laws
pub mod Cleared
pub mod Dispatched
mod Tests
use chromium_compile.Prelude.{
  ℕ, zero, suc, ◌+◌, max, String, Bool, true, false, not, ◌&&◌, Option, none, some, List, [], ◌∷◌,
  ◌++◌, ◌==◌, ltb, leb, if◌then◌else◌, length, is_empty, mem, to_set, diff, inter, union,
}
use chromium_compile.Result.{
  Result, ok, raise, value_error, watcher_error, dispatch_error, source_not_found, and_then,
}
use chromium_compile.Json.{Json, concat}
use chromium_compile.Host.{Host, Act, pure, throw, lift, outside, recover, ◌>>=◌, ◌>>◌}
use chromium_compile.Dispatch.Once.{Request, Outcome, dispatch_once}
use chromium_compile.Text.Version.{version_key, key_leb}
use chromium_compile.Watcher.Gh.{Settings}
use chromium_compile.Watcher.Lane.{LaneConfig}
use chromium_compile.Watcher.RunState.{RunState, list_port_run_state}
use chromium_compile.Watcher.Health.{Health, list_release_health, list_blocked_versions}
use chromium_compile.Watcher.Feed.{Baseline, load_baseline, fetch_stable_versions}
use chromium_compile.Watcher.Select.{PortState, select_candidates}

-- The arguments of the command line. A number of builds below 1 is 0.
pub record Args : Type 0 where
  pub repository : String
  pub ref : String
  pub expected_head_sha : String
  pub max_new_builds : ℕ
  pub force_version : String
  pub dry_run : Bool

-- What `main` has found when it has chosen its candidates
pub record Plan : Type 0 where
  pub versions : List String
  pub state : PortState
  pub candidates : List String

abbrev pub nonempty : String → Option String
nonempty s = if s == "" then none else some s

module _ (h : Host) (settings : Settings) (lookup_limit : ℕ) (lane : LaneConfig)
    -- `urlopen` with `json.load`, and `fetch_metadata`, which raises if there is no valid object
    (open_url : String → List (String × String) → h.World → Result (Option Json) × h.World)
    (fetch_metadata : String → h.World → Result (Unit {0}) × h.World) (api_url : String) where
  unfoldable pub source_object_is_ready : String → Act h.World Bool
  unfolding ◌>>=◌
  source_object_is_ready version =
      recover value_error
        (recover source_not_found (do _ ← outside (fetch_metadata version); pure true)
          (λ _. pure false))
        (λ _. throw watcher_error "Could not verify source publication readiness")

  abbrev pub preflight_request : Args → String → Request
  preflight_request args version = record {
    repository = args.repository;
    workflow = lane.preflight_workflow;
    ref = args.ref;
    title = concat (lane.preflight_title_prefix ∷ " " ∷ version ∷ []);
    inputs = concat ("version=" ∷ version ∷ []) ∷ "dispatch_build=true" ∷ [];
    confirm_attempts = 8;
    dedupe_completed = false;
    dedupe_since_run_id = none;
    expected_head_sha = nonempty args.expected_head_sha;
  }

  abbrev unsafe : String → Act h.World Outcome
  unsafe why = throw watcher_error "Preflight dispatch could not be established safely"

  unfoldable pub dispatch_preflight : Args → String → Act h.World Unit
  unfolding ◌>>=◌ concat
  dispatch_preflight args version = if args.dry_run then pure tt else do
    _ ←
        recover dispatch_error
          (recover value_error (dispatch_once h lookup_limit (preflight_request args version))
            unsafe)
          unsafe
    pure tt

  -- A broken release is only borne while a run that may still complete it is active.
  unfoldable pub refuse_broken : Health → RunState → Result (Unit {0})
  unfolding diff
  refuse_broken health runs =
      if is_empty (diff health.broken runs.active)
      then ok tt
      else raise watcher_error "release state is incomplete or unverifiable"

  -- The candidates with `--force-version`
  unfoldable pub choose_forced : String → Baseline → RunState → Health → Result (List String)
  unfolding mem version_key key_leb
  choose_forced version baseline runs health =
      if not (is_empty runs.active)
      then ok []
      else if mem version health.healthy
      then ok []
      else and_then (version_key version) λ k. and_then (version_key baseline.minimum) λ m.
        if key_leb k m then raise watcher_error "is not newer than baseline" else ok (version ∷ [])

  unfoldable pub plan_forced : Args → Baseline → Act h.World Plan
  unfolding ◌>>=◌
  plan_forced args baseline = do
    _ ← lift (version_key args.force_version)
    runs ← list_port_run_state h settings (some args.ref) lane args.repository
    health ← list_release_health h settings args.repository lane baseline.legacy_mutable
    _ ← lift (refuse_broken health runs)
    candidates ← lift (choose_forced args.force_version baseline runs health)
    pure (record {
      versions = args.force_version ∷ [];
      state = record {
        known = baseline.known;
        released = health.healthy;
        blocked = [];
        active = runs.active;
      };
      candidates = candidates;
    })

  -- What no candidate may be: an open issue or a failed run stands against it, and no release.
  unfoldable pub blocked_versions : List String → RunState → Health → List String
  unfolding diff union
  blocked_versions issue_blocked runs health =
      diff (union issue_blocked (diff runs.quarantined health.healthy)) health.healthy

  unfoldable pub plan_listed : Args → Baseline → Act h.World Plan
  unfolding ◌>>=◌ blocked_versions
  plan_listed args baseline = do
    versions ← fetch_stable_versions h settings open_url api_url baseline.minimum
    issue_blocked ← list_blocked_versions h settings args.repository lane
    runs ← list_port_run_state h settings (some args.ref) lane args.repository
    health ← list_release_health h settings args.repository lane baseline.legacy_mutable
    _ ← lift (refuse_broken health runs)
    let state : PortState = record {
      known = baseline.known;
      released = health.healthy;
      blocked = blocked_versions issue_blocked runs health;
      active = runs.active;
    }
    candidates ← lift (select_candidates versions baseline.minimum state args.max_new_builds)
    pure (record { versions = versions; state = state; candidates = candidates })

  unfoldable pub plan_builds : Args → Baseline → Act h.World Plan
  plan_builds args baseline =
      if args.force_version == "" then plan_listed args baseline else plan_forced args baseline

  -- The versions that the search for published sources goes through
  unfoldable pub eligible_candidates : Args → Baseline → Plan → Result (List String)
  unfolding to_set
  eligible_candidates args baseline plan =
      if is_empty plan.candidates
      then ok []
      else if args.force_version == ""
      then select_candidates plan.versions baseline.minimum plan.state
          (max (length (to_set plan.versions)) args.max_new_builds)
      else ok plan.candidates

  -- The search, with its `break` at the number of builds
  unfoldable pub pick_ready : ℕ → List String → List String → Act h.World (List String)
  unfolding ◌>>=◌
  pick_ready max_new_builds [] ready = pure ready
  pick_ready max_new_builds (version ∷ versions) ready = do
    is_ready ← source_object_is_ready version
    if is_ready
        then (if leb max_new_builds (length (ready ++ version ∷ []))
            then pure (ready ++ version ∷ [])
            else pick_ready max_new_builds versions (ready ++ version ∷ []))
        else pick_ready max_new_builds versions ready

  unfoldable pub dispatch_all : Args → List String → Act h.World Unit
  unfolding ◌>>=◌
  dispatch_all args [] = pure tt
  dispatch_all args (version ∷ versions) = do
    dispatch_preflight args version
    dispatch_all args versions

  -- `main`, from the value of the baseline file; the result is the versions dispatched.
  unfoldable pub watch : Args → Json → Act h.World (List String)
  unfolding ◌>>=◌
  watch args file = do
    baseline ← lift (load_baseline file lane)
    plan ← plan_builds args baseline
    eligible ← lift (eligible_candidates args baseline plan)
    ready ← pick_ready args.max_new_builds eligible []
    dispatch_all args ready
    pure ready
