-- ===== src/Cleanup/Tests.antt =====
-- Runs of the cleanup at concrete inputs.
mod Main
use chromium_compile.Prelude.{
  ℕ, zero, suc, ◌+◌, String, true, false, ◌≡◌, refl, some, List, [], ◌∷◌, ◌++◌, keep_if, length,
}
use chromium_compile.Result.{ok, raise, cleanup_error}
use chromium_compile.Json.{
  Fields, Json, int, bool, str, arr, obj, field, done, of_list, get_str, concat, get, show,
}
use chromium_compile.Host.{Host, State, Ended, aware, start_gh, ◌>>=◌}
use chromium_compile.Host.Canned.{canned, out, failed, start}
use chromium_compile.Host.Tally.{tally}
use chromium_compile.Prune.Laws.{is_deletion}
use chromium_compile.Text.Pattern.{is_repository, is_run_id, drop_prefix}
use chromium_compile.Text.Digits.{int_of, all_chars}
use chromium_compile.Text.Strip.{strip, lower_hex, is_sha}
use chromium_compile.Text.Title.{is_short_stage, build_title, before_at, is_branch}
use chromium_compile.Text.Version.{is_ascii_version}
use chromium_compile.Cleanup.{
  Target, contains, validate_inputs, parse_github_timestamp, try_gh, run_gh, parse_object,
  read_object,
}
use chromium_compile.Cleanup.Release.{
  ReleaseAsset, ReleaseIdentity, same_identity, parse_asset, parse_assets, pick_assets,
  check_release, check_commit, read_release_identity,
}
use chromium_compile.Cleanup.Guard.{
  active_version, refuse_active, check_listing, ensure_no_active_build, guard_cleanup_phase,
}
use chromium_compile.Cleanup.Listing.{
  named_items, page_items, later_pages, list_stage, list_stages, list_checkpoint_artifacts,
}
use chromium_compile.Cleanup.Checkpoints.{
  insert_artifact, sort_artifacts, is_run_of, run_matches_checkpoint, checkpoint_of, match_all,
  find_version_checkpoints, says_missing, artifact_is_missing, delete_checkpoint, treat_all,
  cleanup_released_version,
}
use chromium_compile.Cleanup.Caches.{
  is_generation, add_cache, insert_cache, sort_caches, cache_of, collect, read_filter, read_filters,
  list_source_caches, delete_source_cache, treat_caches, cleanup_released_source_caches,
}
use chromium_compile.Cleanup.Counts.{
  spent, cleanup_released_version_count, cleanup_released_source_caches_count,
}
use chromium_compile.Cleanup.Distinct.{IsDistinct, list_source_caches-IsDistinct}
use chromium_compile.Cleanup.Justified.{Justified}
use chromium_compile.Cleanup.Cleared.{Cleared}

cleaning : Unit {0}
unfolding keep_if get_str concat get show start_gh ◌>>=◌ is_repository is_run_id drop_prefix int_of
    all_chars strip lower_hex is_sha is_short_stage build_title before_at is_branch is_ascii_version
    contains validate_inputs parse_github_timestamp try_gh run_gh parse_object read_object
    same_identity parse_asset parse_assets pick_assets check_release check_commit
    read_release_identity active_version refuse_active check_listing ensure_no_active_build
    guard_cleanup_phase named_items page_items insert_artifact sort_artifacts later_pages list_stage
    list_stages list_checkpoint_artifacts is_run_of run_matches_checkpoint checkpoint_of match_all
    find_version_checkpoints says_missing artifact_is_missing delete_checkpoint treat_all
    cleanup_released_version is_generation add_cache insert_cache sort_caches cache_of collect
    read_filter read_filters list_source_caches delete_source_cache treat_caches
    cleanup_released_source_caches
cleaning = tt

abbrev pub sha : String
sha = "aaaaaaaaaabbbbbbbbbbccccccccccdddddddddd"

abbrev pub digest : String
digest = "sha256:aaaaaaaaaaaaaaaabbbbbbbbbbbbbbbbccccccccccccccccdddddddddddddddd"

abbrev pub target : Target
target = record {
  repository = "o/r";
  version = "155.0.1.2";
  default_branch = "main";
  expected_build_sha = sha;
}

abbrev asset_json : String → Json
asset_json name = obj (
    field "name" (str name) (
      field "digest" (str digest) (
        field "state" (str "uploaded") (
          field "createdAt" (str "cZ")
            (field "updatedAt" (str "uZ") (field "size" (int 9) done))))))

abbrev release : Json
release = obj (
    field "isDraft" (bool false) (
      field "isPrerelease" (bool false) (
        field "isImmutable" (bool true) (
          field "tagName" (str "chromium-155.0.1.2-linux-i686") (
            field "publishedAt" (str "pZ") (
              field "assets"
                (arr (
                  of_list (
                    asset_json "chromium-155.0.1.2-linux-i686.tar.xz"
                    ∷ asset_json "chromium-155.0.1.2-linux-i686.tar.xz.sha256"
                    ∷ asset_json "notes"
                    ∷ asset_json "chromium-155.0.1.2-linux-i686-manifest.txt"
                    ∷ [])))
                done))))))

abbrev asset : String → ReleaseAsset
asset name = record { name = name; digest = digest; size_bytes = 9; created_at = 5; updated_at = 5 }

abbrev pub identity : ReleaseIdentity
identity = record {
  tag = "chromium-155.0.1.2-linux-i686";
  tag_commit = sha;
  published_at = 5;
  assets =
      asset "chromium-155.0.1.2-linux-i686-manifest.txt"
      ∷ asset "chromium-155.0.1.2-linux-i686.tar.xz"
      ∷ asset "chromium-155.0.1.2-linux-i686.tar.xz.sha256"
      ∷ [];
}

abbrev run : String → Json
run status = obj (
    field "status" (str status) (
      field "path" (str ".github/workflows/chromium-i686.yml@main") (
        field "head_repository" (obj (field "full_name" (str "o/r") done)) (
          field "head_branch" (str "main") (
            field "event" (str "workflow_dispatch") (
              field "display_title" (str "Chromium i686 155.0.1.2 - stage 1 - attempt 0") done))))))

abbrev artifact : Json
artifact = obj (
    field "name" (str "chromium-i686-out-stage-1") (
      field "expired" (bool false) (
        field "id" (int 77) (
          field "size_in_bytes" (int 5)
            (field "workflow_run" (obj (field "id" (int 42) done)) done)))))

abbrev cache : String → Json
cache key = obj (
    field "key" (str key) (
      field "ref" (str "refs/heads/main")
        (field "id" (int 88) (field "size_in_bytes" (int 6) done))))

abbrev pub listing : String → List Json → Json
listing name items =
    obj (field "total_count" (int (length items)) (field name (arr (of_list items)) done))

abbrev publication : Json
publication = obj (
    field "status" (str "in_progress") (
      field "path" (str ".github/workflows/publish-i686-release.yml@main") (
        field "head_repository" (obj (field "full_name" (str "o/r") done)) (
          field "head_branch" (str "main") (
            field "event" (str "workflow_run")
              (field "display_title" (str "Publish Chromium i686 155.0.1.2 from 42") done))))))

abbrev succeeded : Fields → Fields
succeeded fs = field "status" (str "completed") (field "conclusion" (str "success") fs)

abbrev step : Json
step = obj (
    succeeded (
      field "name" (str "Create or resume transactional immutable release")
        (field "started_at" (str "sZ") (field "completed_at" (str "eZ") done))))

abbrev job : String → Json
job name =
    obj (succeeded (field "name" (str name) (field "steps" (arr (of_list (step ∷ []))) done)))

abbrev pub h : Host
h =
    record (canned (
      ("{r}", release)
      ∷ ("{idle}", listing "workflow_runs" (run "completed" ∷ []))
      ∷ ("{busy}", listing "workflow_runs" (run "queued" ∷ []))
      ∷ ("{a}", listing "artifacts" (artifact ∷ []))
      ∷ ("{n}", listing "artifacts" [])
      ∷ ("{run}", run "completed")
      ∷ ("{c}", listing "actions_caches" (cache "chromium-src-v3-155.0.1.2" ∷ []))
      ∷ ("{e}", listing "actions_caches" [])
      ∷ ("{p}", publication)
      ∷ ("{j}", listing "jobs" (job "validate" ∷ job "smoke" ∷ job "publish" ∷ []))
      ∷ [])) { from_iso = λ s. some (aware 5) }

abbrev pub times : ℕ → Ended → List Ended
times zero e = []
times (suc n) e = e ∷ times n e

abbrev pub guarding : String → List Ended
guarding runs = out "{r}" ∷ out sha ∷ out runs ∷ []

-- One checkpoint, whose deletion the client calls failed
abbrev pub one : State (List Ended)
one = start (
    guarding "{idle}"
    ++ (out "{a}" ∷ times 49 (out "{n}"))
    ++ (out "{run}" ∷ guarding "{idle}")
    ++ (failed "HTTP 502" ∷ failed "HTTP 404" ∷ failed "HTTP 404" ∷ []))

one_run :
    cleanup_released_version h target false (some identity) one
    ≡ (ok ("deleted:77" ∷ [], 5), (cleanup_released_version h target false (some identity) one).1)
unfolding cleaning
one_run = refl

-- A build of the version is active.
busy_run :
    (cleanup_released_version h target false (some identity) (start (guarding "{busy}"))).0
    ≡ raise cleanup_error "still has an active staged build"
unfolding cleaning
busy_run = refl

-- The artifact is still there.
visible_run :
    (delete_checkpoint h target
      (record { artifact_id = 77; run_id = 42; stage = 1; size_bytes = 5 })
      (start (out "" ∷ out "" ∷ []))).0
    ≡ raise cleanup_error "is still visible after DELETE"
unfolding cleaning
visible_run = refl

abbrev pub cached : State (List Ended)
cached = start (
    guarding "{idle}"
    ++ (out "{e}" ∷ out "{c}" ∷ times 2 (out "{e}"))
    ++ guarding "{idle}"
    ++ (out "" ∷ times 4 (out "{e}")))

cached_run : cleanup_released_source_caches h target false (some identity) cached ≡ (
  ok ("deleted-cache:88:key=chromium-src-v3-155.0.1.2" ∷ [], 6),
  (cleanup_released_source_caches h target false (some identity) cached).1,
)
unfolding cleaning
cached_run = refl

cleanup_released_version_count_example :
    tally is_deletion (cleanup_released_version h target false (some identity) one).1.calls
    ≡ tally is_deletion one.calls + spent false 1
cleanup_released_version_count_example =
    cleanup_released_version_count h target false (some identity) ("deleted:77" ∷ []) 5 one
      (cleanup_released_version h target false (some identity) one).1 one_run

cleanup_released_source_caches_count_example :
    tally is_deletion (cleanup_released_source_caches h target false (some identity) cached).1.calls
    ≡ tally is_deletion cached.calls + spent false 1
cleanup_released_source_caches_count_example =
    cleanup_released_source_caches_count h target false (some identity)
      ("deleted-cache:88:key=chromium-src-v3-155.0.1.2" ∷ []) 6 cached
      (cleanup_released_source_caches h target false (some identity) cached).1 cached_run

listed_run : list_source_caches h target (start (out "{e}" ∷ out "{c}" ∷ times 2 (out "{e}"))) ≡ (
  ok (record { cache_id = 88; key = "chromium-src-v3-155.0.1.2"; size_bytes = 6 } ∷ []),
  (list_source_caches h target (start (out "{e}" ∷ out "{c}" ∷ times 2 (out "{e}")))).1,
)
unfolding cleaning
listed_run = refl

list_source_caches-IsDistinct_example :
    IsDistinct h (record { cache_id = 88; key = "chromium-src-v3-155.0.1.2"; size_bytes = 6 } ∷ [])
list_source_caches-IsDistinct_example =
    list_source_caches-IsDistinct h target
      (record { cache_id = 88; key = "chromium-src-v3-155.0.1.2"; size_bytes = 6 } ∷ [])
      (start (out "{e}" ∷ out "{c}" ∷ times 2 (out "{e}")))
      (list_source_caches h target (start (out "{e}" ∷ out "{c}" ∷ times 2 (out "{e}")))).1
      listed_run
