-- ===== src/Cleanup/Main.antt =====
-- The proof that is prepared before anything is deleted, and the order of the phases in `main`.
pub mod Laws
use chromium_compile.Prelude.{
  ℕ, String, Bool, true, false, not, ◌&&◌, ◌||◌, Option, none, some, List, ◌==◌, if◌then◌else◌,
}
use chromium_compile.Result.{Result, ok, cleanup_error}
use chromium_compile.Host.{Host, State, Act, pure, throw, lift, ◌>>=◌, ◌>>◌}
use chromium_compile.Cleanup.{Target, require, validate_inputs}
use chromium_compile.Cleanup.Release.{ReleaseIdentity, same_identity, read_release_identity}
use chromium_compile.Cleanup.Workflow.{verify_release_workflow_proof}
use chromium_compile.Cleanup.Bytes.{Files, verify_release_archive_bytes}
use chromium_compile.Cleanup.Checkpoints.{cleanup_released_version}
use chromium_compile.Cleanup.Caches.{cleanup_released_source_caches}

pub record Cleaned : Type 0 where
  pub results : List String
  pub total_bytes : ℕ
  pub cache_results : List String
  pub cache_bytes : ℕ

module _ (h : Host) (files : Files h.World) where
  -- Without the id of a run there is no proof of the workflow.
  abbrev pub prove_workflow : Target → String → ReleaseIdentity → Act h.World Unit
  prove_workflow t run_id identity =
      if run_id == "" then pure tt else verify_release_workflow_proof h t run_id identity

  unfoldable pub prepare_release_cleanup_proof :
      Target → String → Bool → Act h.World ReleaseIdentity
  unfolding ◌>>=◌
  prepare_release_cleanup_proof t run_id require_runtime_proof = do
    lift (validate_inputs t)
    lift (
        require (not (require_runtime_proof && run_id == ""))
          "--apply requires a trusted release workflow run ID")
    identity ← read_release_identity h t
    verify_release_archive_bytes h files t identity
    prove_workflow t run_id identity
    current ← read_release_identity h t
    lift (require (same_identity current identity) "changed while cleanup proof was running")
    pure identity

  -- `main`, whose CleanupError the argument parser reports
  unfoldable pub cleanup_main : Target → String → Bool → Act h.World Cleaned
  unfolding ◌>>=◌
  cleanup_main t run_id apply = do
    identity ← prepare_release_cleanup_proof t run_id apply
    (results, total_bytes) ← cleanup_released_version h t (not apply) (some identity)
    (cache_results, cache_bytes) ← cleanup_released_source_caches h t (not apply) (some identity)
    pure (record {
      results = results;
      total_bytes = total_bytes;
      cache_results = cache_results;
      cache_bytes = cache_bytes;
    })
