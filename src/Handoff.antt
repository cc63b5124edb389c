-- ===== src/Handoff.antt =====
-- scripts/github_release_handoff.py: a build that succeeded is handed to the publisher once.
pub mod Laws
mod Tests
use chromium_compile.Prelude.{
  ℕ, zero, suc, String, Bool, true, false, not, ◌||◌, Option, none, some, List, [], ◌∷◌, ◌==◌,
  if◌then◌else◌, mem,
}
use chromium_compile.Result.{Result, ok, raise, handoff_error, and_then, map_ok}
use chromium_compile.Json.{Json, str, Fields, as_object, get, get_str, concat}
use chromium_compile.Host.{Host, Completed, Act, pure, throw, lift, sleep_for, ◌>>=◌, ◌>>◌}
use chromium_compile.Text.Pattern.{is_repository, is_run_id}
use chromium_compile.Text.Strip.{lower_hex}
use chromium_compile.Text.Title.{is_stage, build_title, before_at, is_branch}
use chromium_compile.Text.Version.{is_ascii_version}
use chromium_compile.Dispatch.Lookup.{
  active_statuses, normalize_expected_sha, run_gh, workflow_run_created_at,
}
use chromium_compile.Dispatch.Confirm.{exact_exists_since}
use chromium_compile.Dispatch.Once.{Request, Outcome, dispatch_once}
use chromium_compile.Prune.{is_lane, product, workflow_path, equals}

-- The arguments of `handoff_release`; `expected_sha` is normalized after the checks.
pub record Build : Type 0 where
  pub repository : String
  pub run_id : String
  pub version : String
  pub branch : String
  pub expected_sha : String
  pub lane : String

pub data HandoffOutcome : Type 0 where
  publisher_present : HandoffOutcome
  dispatched : Outcome → HandoffOutcome

abbrev pub require : Bool → String → Result (Unit {0})
require test why = if test then ok tt else raise handoff_error why

-- `PUBLISH_WORKFLOWS`
abbrev pub publish_workflow : String → String
publish_workflow lane =
    if lane == "windows" then "publish-windows-i686-release.yml" else "publish-i686-release.yml"

abbrev normalized : String → Result String
normalized sha = elim (normalize_expected_sha sha) [
  | ok s ↦ ok s
  | raise x why ↦ raise handoff_error why
]

-- `validate_inputs`, which returns the commit in lower case
unfoldable pub validate_inputs : Build → Result String
unfolding is_repository is_run_id is_ascii_version is_branch normalize_expected_sha
validate_inputs b = and_then (require (is_repository b.repository) "invalid repository") λ _.
    and_then (require (is_run_id b.run_id) "invalid build run ID") λ _.
      and_then (require (is_ascii_version b.version) "invalid Chromium version") λ _.
        and_then (require (is_branch b.branch) "invalid default branch")
          λ _. normalized b.expected_sha

abbrev titled : String → Option (String × String) → Bool
titled version none = false
titled version (some (v, stage)) = v == version

module _ (h : Host) (lookup_limit : ℕ) where
  unfoldable pub json_of : Completed → Result Fields
  json_of c = elim (h.loads c.stdout) [
    | none ↦ raise handoff_error "build run API returned invalid JSON"
    | some payload ↦ elim (as_object payload) [
      | none ↦ raise handoff_error "build run API returned non-object JSON"
      | some fields ↦ ok fields
    ]
  ]

  unfoldable pub read_build_run : String → String → Act h.World Fields
  unfolding ◌>>=◌ concat
  read_build_run repository run_id = do
    result ←
        run_gh h lookup_limit
          ("api" ∷ concat ("repos/" ∷ repository ∷ "/actions/runs/" ∷ run_id ∷ []) ∷ []) 90
    lift (json_of result)

  abbrev head_repo_name : Fields → String
  head_repo_name payload = elim (get "head_repository" payload) [
    | none ↦ ""
    | some j ↦ elim (as_object j) [ none ↦ "" | some repo ↦ get_str h.repr "full_name" repo ]
  ]

  -- The identity of the build run; the result is its title.
  unfoldable pub validate_build_identity : Build → String → Fields → Result String
  unfolding get get_str before_at lower_hex build_title is_stage
  validate_build_identity b sha payload =
      let display_title = get_str h.repr "display_title" payload in
      and_then (require (is_lane b.lane) "unsupported release lane") λ _.
        and_then
          (require (before_at (get_str h.repr "path" payload) == workflow_path b.lane) "workflow")
          λ _. and_then (require (head_repo_name payload == b.repository) "origin") λ _.
            and_then (require (get_str h.repr "head_branch" payload == b.branch) "branch") λ _.
              and_then (require (lower_hex (get_str h.repr "head_sha" payload) == sha) "lineage")
                λ _.
                  and_then (require (get_str h.repr "event" payload == "workflow_dispatch") "event")
                    λ _.
                      map_ok (λ _. display_title)
                        (require
                          (titled b.version (build_title is_stage (product b.lane) display_title))
                          "title")

  abbrev pub pause : ℕ → ℕ → Act h.World Unit
  pause zero seconds = pure tt
  pause (suc left) seconds = sleep_for h seconds

  -- What a round of the wait does with a run of the right identity
  abbrev pub judge : Fields → Act h.World Fields → Act h.World Fields
  judge payload again =
      let status = get_str h.repr "status" payload in
      if status == "completed"
      then (if equals (get "conclusion" payload) "success"
          then pure payload
          else throw handoff_error "build run completed with another conclusion")
      else if mem status active_statuses
      then again
      else throw handoff_error "build run returned unexpected status"

  unfoldable pub wait_rounds : ℕ → Build → String → Act h.World Fields
  unfolding ◌>>=◌ get get_str mem
  wait_rounds zero b sha = throw handoff_error "build run did not become terminal"
  wait_rounds (suc left) b sha = do
    payload ← read_build_run b.repository b.run_id
    _ ← lift (validate_build_identity b sha payload)
    judge payload (do pause left 5; wait_rounds left b sha)

  -- With the default of 60 attempts
  unfoldable pub wait_for_successful_build : Build → String → Act h.World Fields
  wait_for_successful_build b sha = wait_rounds 60 b sha

  unfoldable pub legacy_rounds : ℕ → Build → String → String → ℕ → Act h.World Bool
  unfolding ◌>>=◌
  legacy_rounds zero b sha title started = pure false
  legacy_rounds (suc left) b sha title started = do
    present ←
        exact_exists_since h lookup_limit b.repository (publish_workflow b.lane) title b.branch
          started 30 (some sha)
    if present then pure true else do pause left 2; legacy_rounds left b sha title started

  -- With the default of 4 attempts
  unfoldable pub wait_for_legacy_publisher : Build → String → String → ℕ → Act h.World Bool
  unfolding concat
  wait_for_legacy_publisher b sha build_title started =
      legacy_rounds 4 b sha (concat ("Publish " ∷ build_title ∷ [])) started

  abbrev label : String → String
  label lane = if lane == "linux" then "Chromium i686" else "Chromium Windows i686"

  abbrev pub publish_request : Build → String → Request
  publish_request b sha = record {
    repository = b.repository;
    workflow = publish_workflow b.lane;
    ref = b.branch;
    title =
        concat ("Publish " ∷ label b.lane ∷ " " ∷ b.version ∷ " from build run " ∷ b.run_id ∷ []);
    inputs =
        concat ("build_run_id=" ∷ b.run_id ∷ [])
        ∷ concat ("version=" ∷ b.version ∷ [])
        ∷ (if b.lane == "windows" then concat ("build_sha=" ∷ sha ∷ []) ∷ [] else []);
    confirm_attempts = 8;
    dedupe_completed = true;
    dedupe_since_run_id = some b.run_id;
    expected_head_sha = some sha;
  }

  abbrev pub publish : Build → String → Bool → Act h.World HandoffOutcome
  publish b sha true = pure publisher_present
  publish b sha false = do
    outcome ← dispatch_once h lookup_limit (publish_request b sha)
    pure (dispatched outcome)

  unfoldable pub handoff_release : Build → Act h.World HandoffOutcome
  unfolding ◌>>=◌ concat
  handoff_release b = do
    _ ← lift (require (is_lane b.lane) "unsupported release lane")
    sha ← lift (validate_inputs b)
    payload ← wait_for_successful_build b sha
    title ← lift (validate_build_identity b sha payload)
    started ← workflow_run_created_at h lookup_limit b.repository b.run_id
    present ← wait_for_legacy_publisher b sha title started
    publish b sha present
