-- ===== src/Cleanup/Checkpoints.antt =====
-- The checkpoints of a version: the listing, the proof of their origin, and the deletion.
use chromium_compile.Prelude.{
  ℕ, ◌+◌, String, Bool, true, false, not, ◌&&◌, ◌||◌, Option, none, some, List, [], ◌∷◌, ◌==◌, eqb,
  leb, ltb, if◌then◌else◌,
}
use chromium_compile.Result.{Result, ok, raise, cleanup_error, assertion_error}
use chromium_compile.Json.{Json, bool, int, Fields, as_object, get, get_str, concat, show}
use chromium_compile.Host.{Host, Completed, Act, pure, throw, lift, ◌>>=◌, ◌>>◌}
use chromium_compile.Prune.{equals}
use chromium_compile.Text.Digits.{int_of}
use chromium_compile.Text.Pattern.{is_run_id, drop_prefix}
use chromium_compile.Text.Title.{is_short_stage, build_title, before_at}
use chromium_compile.Cleanup.{Target, contains, try_gh, read_object}
use chromium_compile.Cleanup.Listing.{list_checkpoint_artifacts}
use chromium_compile.Cleanup.Release.{ReleaseIdentity}
use chromium_compile.Cleanup.Guard.{guard_cleanup_phase}

pub record CheckpointArtifact : Type 0 where
  pub artifact_id : ℕ
  pub run_id : ℕ
  pub stage : ℕ
  pub size_bytes : ℕ

abbrev pub field_of : String → Option Json → Option Json
field_of key none = none
field_of key (some j) = elim (as_object j) [ none ↦ none | some fs ↦ get key fs ]

abbrev pub fields_of : Option Json → Fields
fields_of none = Fields.done
fields_of (some j) = elim (as_object j) [ none ↦ Fields.done | some fs ↦ fs ]

abbrev title_is : String → ℕ → Option (String × String) → Bool
title_is version stage none = false
title_is version stage (some (v, s)) = v == version && eqb (int_of s) stage

-- `found.sort(key=…)`
abbrev before : CheckpointArtifact → CheckpointArtifact → Bool
before a b =
    ltb a.stage b.stage
    || (eqb a.stage b.stage
        && (ltb a.run_id b.run_id || (eqb a.run_id b.run_id && leb a.artifact_id b.artifact_id)))

unfoldable pub insert_artifact :
    CheckpointArtifact → List CheckpointArtifact → List CheckpointArtifact
insert_artifact a [] = a ∷ []
insert_artifact a (b ∷ bs) =
    let rest = insert_artifact a bs in if before a b then a ∷ b ∷ bs else b ∷ rest

unfoldable pub sort_artifacts : List CheckpointArtifact → List CheckpointArtifact
unfolding insert_artifact
sort_artifacts [] = []
sort_artifacts (a ∷ as') = insert_artifact a (sort_artifacts as')

abbrev pub total_size : List CheckpointArtifact → ℕ
total_size [] = 0
total_size (a ∷ as') = a.size_bytes + total_size as'

-- The runs that were read so far, by their ids
abbrev pub RunCache : Type 0
RunCache = List (ℕ × Fields)

abbrev pub cached : RunCache → ℕ → Option Fields
cached [] id = none
cached ((i, run) ∷ cache) id = if eqb i id then some run else cached cache id

module _ (h : Host) where
  -- Whether a run is the finished build of the version that ended with the stage
  unfoldable pub is_run_of : Target → ℕ → Fields → Bool
  unfolding get get_str before_at build_title is_short_stage int_of
  is_run_of t stage run =
      (before_at (get_str h.repr "path" run) == ".github/workflows/chromium-i686.yml"
        && equals (field_of "full_name" (get "head_repository" run)) t.repository)
      && ((equals (get "head_branch" run) t.default_branch
            && equals (get "event" run) "workflow_dispatch")
          && (equals (get "status" run) "completed"
              && title_is t.version stage (
                  build_title is_short_stage "Chromium i686 "
                    (get_str h.repr "display_title" run))))

  abbrev pub run_path : Target → ℕ → List String
  run_path t id = "api" ∷ concat ("repos/" ∷ t.repository ∷ "/actions/runs/" ∷ show id ∷ []) ∷ []

  abbrev pub fetch_run : Target → ℕ → RunCache → Option Fields → Act h.World (Fields × RunCache)
  fetch_run t id cache (some run) = pure (run, cache)
  fetch_run t id cache none = do run ← read_object h (run_path t id); pure (run, (id, run) ∷ cache)

  -- `_run_matches_checkpoint`, with the cache that it leaves
  unfoldable pub run_matches_checkpoint : Target → ℕ → ℕ → RunCache → Act h.World (Bool × RunCache)
  unfolding ◌>>=◌
  run_matches_checkpoint t id stage cache = do
    (run, cache') ← fetch_run t id cache (cached cache id)
    pure (is_run_of t stage run, cache')

  -- An artifact with the ids as texts, or none for one that is passed over
  abbrev sized : ℕ → String → String → Option Json → Result (Option CheckpointArtifact)
  sized stage artifact_id run_id (some (int size)) =
      if ltb 50 stage
      then ok none
      else ok (
          some (record {
            artifact_id = int_of artifact_id;
            run_id = int_of run_id;
            stage = stage;
            size_bytes = size;
          }))
  sized stage artifact_id run_id _ = raise cleanup_error "has invalid size metadata"

  abbrev identified : ℕ → Fields → Result (Option CheckpointArtifact)
  identified stage item =
      let artifact_id = get_str h.repr "id" item in
      let run_id = get_str h.repr "id" (fields_of (get "workflow_run" item)) in
      if not (is_run_id artifact_id)
      then raise cleanup_error "checkpoint artifact has invalid id"
      else if not (is_run_id run_id)
      then ok none
      else sized stage artifact_id run_id (get "size_in_bytes" item)

  abbrev unexpired : ℕ → Fields → Option Json → Result (Option CheckpointArtifact)
  unexpired stage item (some (bool true)) = ok none
  unexpired stage item (some (bool false)) = identified stage item
  unexpired stage item _ = raise cleanup_error "has malformed expired metadata"

  abbrev by_stage : Fields → Option String → Result (Option CheckpointArtifact)
  by_stage item none = ok none
  by_stage item (some stage) =
      if is_short_stage stage then unexpired (int_of stage) item (get "expired" item) else ok none

  -- What the listing says of an artifact
  unfoldable pub checkpoint_of : Fields → Result (Option CheckpointArtifact)
  unfolding get get_str is_run_id is_short_stage drop_prefix int_of
  checkpoint_of item =
      by_stage item (drop_prefix "chromium-i686-out-stage-" (get_str h.repr "name" item))

  abbrev pub add_if : Bool → CheckpointArtifact → List CheckpointArtifact → List CheckpointArtifact
  add_if fits a found = if fits then a ∷ found else found

  -- An artifact joins those that are found after it if its run fits.
  abbrev pub judge :
      Target
      → RunCache
      → Option CheckpointArtifact
      → (RunCache → Act h.World (List CheckpointArtifact))
      → Act h.World (List CheckpointArtifact)
  judge t cache none next = next cache
  judge t cache (some a) next = do
    (fits, cache') ← run_matches_checkpoint t a.run_id a.stage cache
    found ← next cache'
    pure (add_if fits a found)

  unfoldable pub match_all : Target → RunCache → List Fields → Act h.World (List CheckpointArtifact)
  unfolding ◌>>=◌
  match_all t cache [] = pure []
  match_all t cache (item ∷ items) = do
    a ← lift (checkpoint_of item)
    judge t cache a (λ cache'. match_all t cache' items)

  unfoldable pub find_version_checkpoints : Target → Act h.World (List CheckpointArtifact)
  unfolding ◌>>=◌
  find_version_checkpoints t = do
    items ← list_checkpoint_artifacts h t
    found ← match_all t [] items
    pure (sort_artifacts found)

  abbrev pub artifact_path : Target → ℕ → String
  artifact_path t id = concat ("repos/" ∷ t.repository ∷ "/actions/artifacts/" ∷ show id ∷ [])

  -- What an answer of the API says of an artifact that may be missing
  unfoldable pub says_missing : Completed → Result Bool
  unfolding contains
  says_missing c =
      let detail = concat (c.stdout ∷ "\n" ∷ c.stderr ∷ []) in
      if eqb c.returncode 0
      then ok false
      else if contains "HTTP 404" detail || contains "Not Found" detail
      then ok true
      else raise cleanup_error "could not confirm checkpoint artifact state"

  unfoldable pub artifact_is_missing : Target → ℕ → Act h.World Bool
  unfolding ◌>>=◌
  artifact_is_missing t id = do
    c ← try_gh h ("api" ∷ artifact_path t id ∷ []) 90
    lift (says_missing c)

  abbrev pub must : Bool → String → Act h.World Unit
  must true why = pure tt
  must false why = throw cleanup_error why

  abbrev pub after_delete : Target → ℕ → Bool → Act h.World Unit
  after_delete t id true = pure tt
  after_delete t id false =
      artifact_is_missing t id >>= (λ gone. must gone "checkpoint delete failed")

  abbrev pub deletion_of : Target → ℕ → List String
  deletion_of t id = "api" ∷ "--method" ∷ "DELETE" ∷ artifact_path t id ∷ []

  unfoldable pub delete_checkpoint : Target → CheckpointArtifact → Act h.World String
  unfolding ◌>>=◌
  delete_checkpoint t a = do
    c ← try_gh h (deletion_of t a.artifact_id) 120
    after_delete t a.artifact_id (eqb c.returncode 0)
    gone ← artifact_is_missing t a.artifact_id
    must gone "is still visible after DELETE"
    pure (concat ("deleted:" ∷ show a.artifact_id ∷ []))

  abbrev pub dry_line : CheckpointArtifact → String
  dry_line a = concat (
      "dry-run:"
      ∷ show a.artifact_id
      ∷ ":run="
      ∷ show a.run_id
      ∷ ":stage="
      ∷ show a.stage
      ∷ ":bytes="
      ∷ show a.size_bytes
      ∷ [])

  abbrev pub treat : Target → Bool → CheckpointArtifact → Act h.World String
  treat t true a = pure (dry_line a)
  treat t false a = delete_checkpoint t a

  unfoldable pub treat_all : Target → Bool → List CheckpointArtifact → Act h.World (List String)
  unfolding ◌>>=◌
  treat_all t dry_run [] = pure []
  treat_all t dry_run (a ∷ as') = do
    line ← treat t dry_run a
    rest ← treat_all t dry_run as'
    pure (line ∷ rest)

  -- The second look before a deletion
  abbrev pub guard_again : Target → Bool → Option ReleaseIdentity → Act h.World Unit
  guard_again t true identity = pure tt
  guard_again t false none = throw assertion_error "release_identity"
  guard_again t false (some identity) = guard_cleanup_phase h t false (some identity)

  unfoldable pub cleanup_released_version :
      Target → Bool → Option ReleaseIdentity → Act h.World (List String × ℕ)
  unfolding ◌>>=◌
  cleanup_released_version t dry_run identity = do
    guard_cleanup_phase h t dry_run identity
    candidates ← find_version_checkpoints t
    guard_again t dry_run identity
    results ← treat_all t dry_run candidates
    pure (results, total_size candidates)
