-- ===== src/Cleanup/Main/Laws.antt =====
-- What every deletion of the command rests on.
use chromium_compile.Prelude.{String, true, ◌≡◌, some}
use chromium_compile.Result.{ok}
use chromium_compile.Host.{Host, State}
use chromium_compile.Cleanup.{Target, validate_inputs}
use chromium_compile.Cleanup.Release.{ReleaseIdentity, same_identity, read_release_identity}
use chromium_compile.Cleanup.Bytes.{Files}
use chromium_compile.Cleanup.Bytes.Laws.{Matching}
use chromium_compile.Cleanup.Workflow.Laws.{Published}
use chromium_compile.Cleanup.Justified.{Justified}
use chromium_compile.Cleanup.Cleared.{Cleared}
use chromium_compile.Cleanup.Main.{Cleaned}

module _ (h : Host) (files : Files h.World) where
  -- The release was read, its package was downloaded and matches it, and it was read again and was the
  -- same.
  pub record Proven (t : Target) (identity : ReleaseIdentity) : Type 0 where
    pub arguments : validate_inputs t ≡ ok tt
    pub start : State h.World
    pub middle : State h.World
    pub read : read_release_identity h t start ≡ (ok identity, middle)
    pub matching : Matching h files t identity
    pub again : State h.World
    pub after : State h.World
    pub current : ReleaseIdentity
    pub reread : read_release_identity h t again ≡ (ok current, after)
    pub same : same_identity current identity ≡ true

  -- What a run of the command that deletes rests on
  pub record IsWarranted (t : Target) (run_id : String) (c : Cleaned) : Type 0 where
    pub identity : ReleaseIdentity
    pub proven : Proven t identity
    pub published : Published h t run_id identity
    pub checkpoints : Justified h t (some identity) c.results
    pub caches : Cleared h t (some identity) c.cache_results
