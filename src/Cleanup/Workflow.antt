-- ===== src/Cleanup/Workflow.antt =====
-- `verify_release_workflow_proof`: the run that published the release, with its jobs and the step that
-- made the assets.
pub mod Laws
use chromium_compile.Prelude.{
  ℕ, String, Bool, true, false, not, ◌&&◌, ◌||◌, Option, none, some, List, [], ◌∷◌, ◌==◌, eqb, leb,
  length, keep_if, mem, if◌then◌else◌,
}
use chromium_compile.Result.{Result, ok, raise, cleanup_error, type_error, and_then, map_ok}
use chromium_compile.Json.{
  Json, int, str, arr, obj, Fields, get, get_str, py_str, truthy, objects, concat,
}
use chromium_compile.Host.{Host, Act, lift, ◌>>=◌, ◌>>◌}
use chromium_compile.Prune.{equals}
use chromium_compile.Text.Pattern.{is_run_id, drop_prefix}
use chromium_compile.Text.Title.{before_at}
use chromium_compile.Cleanup.{Target, require, list_of, parse_github_timestamp, read_object}
use chromium_compile.Cleanup.Release.{ReleaseAsset, ReleaseIdentity}
use chromium_compile.Cleanup.Checkpoints.{field_of}

abbrev pub publish_workflow_path : String
publish_workflow_path = ".github/workflows/publish-i686-release.yml"

-- `value in {…}` of texts, which a list or a dict cannot be looked up in
unfoldable pub is_among : List String → Option Json → Result Bool
unfolding mem
is_among texts (some (str s)) = ok (mem s texts)
is_among texts (some (arr js)) = raise type_error "unhashable type"
is_among texts (some (obj fs)) = raise type_error "unhashable type"
is_among texts _ = ok false

-- `text.startswith(prefix)`
abbrev starts_with : String → String → Bool
starts_with prefix s = elim (drop_prefix prefix s) [ none ↦ false | some _ ↦ true ]

abbrev title_prefix : String → String
title_prefix version = concat ("Publish Chromium i686 " ∷ version ∷ " " ∷ [])

abbrev pub is_success : Fields → Bool
is_success job = equals (get "status" job) "completed" && equals (get "conclusion" job) "success"

-- The jobs as dicts
abbrev pub dicts : List Json → Result (List Fields)
dicts [] = ok []
dicts (obj job ∷ jobs) = map_ok (λ rest. job ∷ rest) (dicts jobs)
dicts (_ ∷ jobs) = raise cleanup_error "contains malformed metadata"

-- `3 <= total <= MAX_RELEASE_WORKFLOW_JOBS` of a listing that is complete
abbrev pub complete_jobs : Option Json → Option (List Json) → Result (List Json)
complete_jobs (some (int total)) (some jobs) =
    if leb 3 total && leb total 100 && eqb (length jobs) total
    then ok jobs
    else raise cleanup_error "violates bounded complete-list contract"
complete_jobs _ _ = raise cleanup_error "violates bounded complete-list contract"

abbrev pub successful : List Fields → Result Fields
successful (job ∷ []) =
    if is_success job then ok job else raise cleanup_error "is not completed/successful"
successful _ = raise cleanup_error "is not uniquely completed/successful"

abbrev pub publish_step : List Fields → Result Fields
publish_step (step ∷ []) =
    if is_success step then ok step else raise cleanup_error "did not complete successfully"
publish_step _ = raise cleanup_error "does not contain exactly one publish step"

module _ (h : Host) where
  -- `str(value or "")`
  abbrev pub text_of : Option Json → String
  text_of none = ""
  text_of (some j) = if truthy (some j) then py_str h.repr j else ""

  unfoldable pub normalized_workflow_path : Option Json → String
  unfolding before_at truthy py_str
  normalized_workflow_path value = before_at (text_of value)

  -- The run is one of the publication workflow for the version.
  unfoldable pub check_publish_run : Target → Fields → Result (Unit {0})
  unfolding get get_str drop_prefix is_among concat
  check_publish_run t run =
      and_then
        (require (normalized_workflow_path (get "path" run) == publish_workflow_path)
          "does not come from the trusted publication workflow")
        λ _.
          and_then
            (require (equals (field_of "full_name" (get "head_repository" run)) t.repository)
              "comes from an unexpected repository")
            λ _.
              and_then
                (require (equals (get "head_branch" run) t.default_branch)
                  "does not run on the default branch")
                λ _.
                  and_then (is_among ("workflow_run" ∷ "workflow_dispatch" ∷ []) (get "event" run))
                    λ b. and_then (require b "has unexpected event") λ _.
                      and_then
                        (require
                          (starts_with (title_prefix t.version)
                            (get_str h.repr "display_title" run))
                          "title is not scoped to the version")
                        λ _.
                          and_then (is_among ("in_progress" ∷ "completed" ∷ []) (get "status" run))
                            λ c. require c "has unexpected status"

  abbrev named_job : String → List Fields → List Fields
  named_job name jobs = keep_if (λ job. get_str h.repr "name" job == name) jobs

  -- The publish job, where each required job is there once and was successful
  unfoldable pub select_jobs : List Fields → Result Fields
  unfolding keep_if get_str
  select_jobs jobs = and_then (successful (named_job "publish" jobs)) λ publish.
      and_then (successful (named_job "smoke" jobs))
        λ _. map_ok (λ _. publish) (successful (named_job "validate" jobs))

  abbrev all_before : ℕ → List ReleaseAsset → Result (Unit {0})
  all_before completed [] = ok tt
  all_before completed (a ∷ as') =
      if leb a.created_at a.updated_at && leb a.updated_at completed
      then all_before completed as'
      else raise cleanup_error "timestamps postdate or contradict the supplied publish proof"

  -- The release is not younger than the step that published it.
  abbrev pub check_times : ReleaseIdentity → ℕ → ℕ → Result (Unit {0})
  check_times identity started completed =
      and_then (require (leb started completed) "completion precedes its start") λ _.
        and_then (require (leb identity.published_at completed) "publishedAt postdates the step")
          λ _. all_before completed identity.assets

  abbrev publish_name : String
  publish_name = "Create or resume transactional immutable release"

  unfoldable pub check_steps : ReleaseIdentity → Option (List Json) → Result (Unit {0})
  unfolding keep_if get objects
  check_steps identity none = raise cleanup_error "lacks step metadata"
  check_steps identity (some steps) =
      and_then
        (publish_step (keep_if (λ step. equals (get "name" step) publish_name) (objects steps)))
        λ step. and_then (parse_github_timestamp h (get "started_at" step)) λ started.
          and_then (parse_github_timestamp h (get "completed_at" step))
            λ completed. check_times identity started completed

  unfoldable pub check_jobs : ReleaseIdentity → Fields → Result (Unit {0})
  unfolding get select_jobs
  check_jobs identity payload =
      and_then (complete_jobs (get "total_count" payload) (list_of (get "jobs" payload))) λ raw.
        and_then (dicts raw) λ jobs.
          and_then (select_jobs jobs)
            λ publish. check_steps identity (list_of (get "steps" publish))

  abbrev pub run_of : Target → String → String → String
  run_of t id rest = concat ("repos/" ∷ t.repository ∷ "/actions/runs/" ∷ id ∷ rest ∷ [])

  unfoldable pub verify_release_workflow_proof :
      Target → String → ReleaseIdentity → Act h.World Unit
  unfolding ◌>>=◌
  verify_release_workflow_proof t run_id identity = do
    lift (require (is_run_id run_id) "invalid release workflow run ID")
    run ← read_object h ("api" ∷ run_of t run_id "" ∷ [])
    lift (check_publish_run t run)
    jobs ← read_object h ("api" ∷ run_of t run_id "/jobs?per_page=100&page=1" ∷ [])
    lift (check_jobs identity jobs)
