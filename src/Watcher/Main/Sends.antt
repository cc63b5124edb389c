-- ===== src/Watcher/Main/Sends.antt =====
-- The watcher's reads send no dispatch.
use chromium_compile.Prelude.{
  ℕ, zero, suc, ◌+◌, String, Bool, false, ◌≡◌, refl, ◌⊎◌, Option, List, [], ◌∷◌, inl, inr,
  Option-cases,
}
use chromium_compile.Result.{Result}
use chromium_compile.Json.{Json, Fields, get_str}
use chromium_compile.Host.{Host, Act}
use chromium_compile.Host.Tally.{
  Quiet, Quiet-start, Quiet-sleep, Quiet-bind, Quiet-pure, Quiet-throw, Quiet-recover, quiet_rules,
}
use chromium_compile.Dispatch.Once.Sends.{is_dispatch}
use chromium_compile.Watcher.Gh.{
  Settings, run_gh, read_json, json_attempts, gh_json, read_text, text_attempts, gh_resource_text,
}
use chromium_compile.Watcher.Lane.{LaneConfig}
use chromium_compile.Watcher.Rest.{
  collect, fetch_rest, list_rest_items, fetch_runs, list_workflow_runs,
}
use chromium_compile.Watcher.RunState.{RunState, read_all, list_port_run_state}
use chromium_compile.Watcher.Manifest.{
  read_release_manifest_build_sha, read_release_tag_commit, verify_release_provenance,
}
use chromium_compile.Watcher.Health.{
  Health, tag_version, find_asset, manifest_name, assets_of, has_provenance, is_healthy, judge_all,
  list_release_health, list_blocked_versions,
}
use chromium_compile.Watcher.Feed.{version_pages, fetch_stable_versions}

module _ (h : Host) (settings : Settings) where
  abbrev pub Silent : {A : Type 0} → Act h.World A → Type 0
  Silent m = Quiet is_dispatch m

  run-Silent :
      (must : Bool) (args : List String)
      → is_dispatch args ≡ false
      → Silent (run_gh h settings must args)
  unfolding run_gh
  run-Silent must args e = search (quiet_rules, Quiet-start)

  read_json-Silent :
      (args : List String) → is_dispatch args ≡ false → Silent (read_json h settings args)
  unfolding read_json
  read_json-Silent args e = search (quiet_rules, run-Silent)

  json_attempts-Silent :
      (left attempt : ℕ) (args : List String)
      → is_dispatch args ≡ false
      → Silent (json_attempts h settings left attempt args)
  unfolding json_attempts
  json_attempts-Silent zero attempt args e = read_json-Silent args e
  json_attempts-Silent (suc left) attempt args e =
      let next = json_attempts-Silent left (attempt + 1) args e in
      Quiet-recover is_dispatch _ _ _ (read_json-Silent args e)
        (λ _. Quiet-bind is_dispatch _ _ (Quiet-sleep is_dispatch h _) (λ _. next))

  attempts_cases : (n : ℕ) → (n ≡ 0) ⊎ ((left : ℕ) × (n ≡ suc left))
  attempts_cases zero = inl refl
  attempts_cases (suc left) = inr (left, refl)

  gh_json-Silent :
      (args : List String) → is_dispatch args ≡ false → Silent (gh_json h settings args)
  unfolding gh_json json_attempts read_json run_gh
  gh_json-Silent args e = elim (attempts_cases settings.gh_read_attempts) [
    | inl p ↦ rw p (Quiet-throw is_dispatch _ _)
    | inr (left, p) ↦ rw p (json_attempts-Silent left 1 args e)
  ]

  read_text-Silent :
      (args : List String) → is_dispatch args ≡ false → Silent (read_text h settings args)
  unfolding read_text
  read_text-Silent args e = search (quiet_rules, run-Silent)

  text_attempts-Silent :
      (left attempt : ℕ) (args : List String)
      → is_dispatch args ≡ false
      → Silent (text_attempts h settings left attempt args)
  unfolding text_attempts
  text_attempts-Silent zero attempt args e = read_text-Silent args e
  text_attempts-Silent (suc left) attempt args e =
      let next = text_attempts-Silent left (attempt + 1) args e in
      Quiet-recover is_dispatch _ _ _ (read_text-Silent args e)
        (λ _. Quiet-bind is_dispatch _ _ (Quiet-sleep is_dispatch h _) (λ _. next))

  resource_text-Silent :
      (args : List String) → is_dispatch args ≡ false → Silent (gh_resource_text h settings args)
  unfolding gh_resource_text text_attempts read_text run_gh
  resource_text-Silent args e = elim (attempts_cases settings.gh_read_attempts) [
    | inl p ↦ rw p (Quiet-throw is_dispatch _ _)
    | inr (left, p) ↦ rw p (text_attempts-Silent left 1 args e)
  ]

  collect-Silent :
      (fetch : ℕ → Act h.World (List Json)) (accept : List Json → Result (List Fields))
      (max_pages left page : ℕ) (found : List Fields)
      → ((n : ℕ) → Silent (fetch n))
      → Silent (collect fetch accept max_pages left page found)
  unfolding collect
  collect-Silent fetch accept max_pages zero page found q = Quiet-throw is_dispatch _ _
  collect-Silent fetch accept max_pages (suc left) page found q =
      let next : (kept : List Fields)
          → Silent (collect fetch accept max_pages left (page + 1) kept) =
        λ kept. collect-Silent fetch accept max_pages left (page + 1) kept q in
      Quiet-bind is_dispatch _ _ (q page) (λ items. search (quiet_rules, next))

  pub list_rest_items-Silent :
      (repository resource : String) → Silent (list_rest_items h settings repository resource)
  unfolding list_rest_items fetch_rest
  list_rest_items-Silent repository resource = search (quiet_rules, collect-Silent, gh_json-Silent)

  list_workflow_runs-Silent :
      (repository workflow : String) (created_after : ℕ) (filter : Option String)
      → Silent (list_workflow_runs h settings repository workflow created_after filter)
  unfolding list_workflow_runs fetch_runs
  list_workflow_runs-Silent repository workflow created_after filter =
      search (quiet_rules, collect-Silent, gh_json-Silent)

  module _ (production_ref : Option String) (lane : LaneConfig) where
    read_all-Silent :
        (repository : String) (cutoff : ℕ) (qs : List (String × String)) (state : RunState)
        → Silent (read_all h settings production_ref lane repository cutoff qs state)
    unfolding read_all
    read_all-Silent repository cutoff [] state = Quiet-pure is_dispatch state
    read_all-Silent repository cutoff ((workflow, filter) ∷ rest) state =
        let next : (st : RunState)
            → Silent (read_all h settings production_ref lane repository cutoff rest st) =
          λ st. read_all-Silent repository cutoff rest st in
        search (quiet_rules, list_workflow_runs-Silent, next)

    pub run_state-Silent :
        (repository : String)
        → Silent (list_port_run_state h settings production_ref lane repository)
    unfolding list_port_run_state
    run_state-Silent repository = search (quiet_rules, read_all-Silent)

  module _ (repository : String) (lane : LaneConfig) (legacy : List String) where
    manifest-Silent :
        (version : String) (asset : Fields)
        → Silent (read_release_manifest_build_sha h settings repository version asset lane)
    unfolding read_release_manifest_build_sha
    manifest-Silent version asset = search (quiet_rules, resource_text-Silent)

    tag_commit-Silent :
        (version : String) → Silent (read_release_tag_commit h settings repository version lane)
    unfolding read_release_tag_commit
    tag_commit-Silent version = search (quiet_rules, resource_text-Silent)

    provenance-Silent :
        (version : String) (asset : Fields)
        → Silent (verify_release_provenance h settings repository version asset lane)
    unfolding verify_release_provenance
    provenance-Silent version asset = search (quiet_rules, manifest-Silent, tag_commit-Silent)

    has_provenance-Silent :
        (version : String) (release : Fields)
        → Silent (has_provenance h settings repository lane legacy version release)
    unfolding has_provenance
    has_provenance-Silent version release =
        elim (Option-cases (find_asset h (manifest_name version lane) (assets_of h release))) [
          | inl p ↦ rw (p, has_provenance) (Quiet-pure is_dispatch false)
          | inr (asset, p) ↦ rw (p, has_provenance) (search (quiet_rules, provenance-Silent))
        ]

    is_healthy-Silent :
        (version : String) (release : Fields)
        → Silent (is_healthy h settings repository lane legacy version release)
    unfolding is_healthy
    is_healthy-Silent version release = search (quiet_rules, has_provenance-Silent)

    judge_all-Silent :
        (releases : List Fields) (health : Health)
        → Silent (judge_all h settings repository lane legacy releases health)
    unfolding judge_all
    judge_all-Silent [] health = Quiet-pure is_dispatch health
    judge_all-Silent (release ∷ releases) health =
        let next : (k : Health) → Silent (judge_all h settings repository lane legacy releases k) =
          λ k. judge_all-Silent releases k in
        elim (Option-cases (tag_version lane (get_str h.repr "tag_name" release))) [
          | inl p ↦ rw (p, judge_all) (next health)
          | inr (version, p) ↦ rw (p, judge_all) (search (quiet_rules, is_healthy-Silent, next))
        ]

    pub health-Silent : Silent (list_release_health h settings repository lane legacy)
    unfolding list_release_health
    health-Silent = search (quiet_rules, list_rest_items-Silent, judge_all-Silent)

    pub blocked-Silent : Silent (list_blocked_versions h settings repository lane)
    unfolding list_blocked_versions
    blocked-Silent = search (quiet_rules, list_rest_items-Silent)

  module _ (open_url : String → List (String × String) → h.World → Result (Option Json) × h.World)
      (api_url minimum : String) where
    pages-Silent :
        (left : ℕ) (token : String) (seen versions : List String)
        → Silent (version_pages h settings open_url api_url minimum left token seen versions)
    unfolding version_pages
    pages-Silent zero token seen versions = Quiet-throw is_dispatch _ _
    pages-Silent (suc left) token seen versions =
        let next : (token : String) (seen versions : List String)
            → Silent (version_pages h settings open_url api_url minimum left token seen versions) =
          λ token seen versions. pages-Silent left token seen versions in
        search (quiet_rules, next) depth 12

    pub fetch-Silent : Silent (fetch_stable_versions h settings open_url api_url minimum)
    unfolding fetch_stable_versions
    fetch-Silent = pages-Silent settings.version_api_max_pages "" [] []
