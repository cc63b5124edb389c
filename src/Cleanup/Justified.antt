-- ===== src/Cleanup/Justified.antt =====
-- What a cleanup of a version rests on: the release that was compared, the absence of an active
-- build, the run that made each checkpoint, and the look after each deletion.
use chromium_compile.Prelude.{
  String, Bool, true, false, ◌≡◌, Option, some, List, [], ◌∷◌, map, eqb, All,
}
use chromium_compile.Result.{ok}
use chromium_compile.Json.{concat, show}
use chromium_compile.Host.{Completed, Host, State}
use chromium_compile.Cleanup.{Target, try_gh}
use chromium_compile.Cleanup.Release.{ReleaseIdentity}
use chromium_compile.Cleanup.Checkpoints.{
  deletion_of, CheckpointArtifact, artifact_is_missing, after_delete, dry_line,
}
use chromium_compile.Cleanup.Grounds.{Guarded, MadeBy}

pub cons_eq : {x y : String} {xs ys : List String} → x ≡ y → xs ≡ ys → (x ∷ xs) ≡ (y ∷ ys)
cons_eq p q = cc

module _ (h : Host) where
  -- The deletion was sent, and the look that followed it found the artifact missing. (Where the client
  -- reported a failure, an earlier look found so as well.)
  pub record Deleted (t : Target) (a : CheckpointArtifact) : Type 0 where
    pub start : State h.World
    pub answered : State h.World
    pub before : State h.World
    pub after : State h.World
    pub answer : Completed
    pub sent : try_gh h (deletion_of h t a.artifact_id) 120 start ≡ (ok answer, answered)
    pub settled :
        after_delete h t a.artifact_id (eqb answer.returncode 0) answered ≡ (ok tt, before)
    pub looked : artifact_is_missing h t a.artifact_id before ≡ (ok true, after)

  -- What a line of a cleanup rests on: in a dry run, nothing was sent.
  abbrev pub treated : Bool → CheckpointArtifact → String
  treated true a = dry_line h a
  treated false a = concat ("deleted:" ∷ show a.artifact_id ∷ [])

  abbrev pub AfterTreat : Target → Bool → CheckpointArtifact → Type 0
  AfterTreat t true a = Unit
  AfterTreat t false a = Deleted t a

  -- The grounds of a cleanup that deletes
  pub record Justified (t : Target) (identity : Option ReleaseIdentity) (lines : List String)
      : Type 0 where
    pub release : ReleaseIdentity
    pub given : identity ≡ some release
    pub guarded : Guarded h t release
    pub found : List CheckpointArtifact
    pub made : All (MadeBy h t) found
    pub gone : All (Deleted t) found
    pub reported : map (treated false) found ≡ lines
