-- ===== src/Prune/Laws.antt =====
-- What is deleted, how often, and on what grounds.
use chromium_compile.Prelude.{
  ℕ, ◌+◌, ◌≤◌, String, Bool, true, false, ◌≡◌, ◌&&◌, Option, none, some, List, ◌∷◌, ◌==◌,
}
use chromium_compile.Result.{ok}
use chromium_compile.Json.{Fields, get}
use chromium_compile.Host.{Host, State, Act}
use chromium_compile.Host.Bounded.{
  AtMost, AtMost-of_Quiet, AtMost-bind, AtMost-if, AtMost-recover, AtMost-start,
}
use chromium_compile.Host.Tally.{
  tally, Quiet, Quiet-start, Quiet-bind, Quiet-pure, Quiet-lift, quiet_rules,
}
use chromium_compile.Prune.{
  Target, PruneOutcome, already_missing, dry_run, deleted_after_client_error, deleted, check_target,
  equals, check_run, pick_artifact, run_gh, read_api, resolve_checkpoint_artifact, delete,
  concluded, remove, decided, prune_checkpoint,
}

-- A deletion
abbrev pub is_deletion : List String → Bool
is_deletion (a ∷ b ∷ c ∷ _) = a == "api" && (b == "--method" && c == "DELETE")
is_deletion _ = false

module _ (h : Host) where
  abbrev Looking : {A : Type 0} → Act h.World A → Type 0
  Looking m = Quiet is_deletion m

  run-Looking :
      (args : List String) (timeout : ℕ)
      → is_deletion args ≡ false
      → Looking (run_gh h args timeout)
  unfolding run_gh
  run-Looking args timeout e = search (quiet_rules, Quiet-start)

  read-Looking : (path : List String) → Looking (read_api h path)
  unfolding read_api
  read-Looking path = search (quiet_rules, run-Looking)

  resolve-Looking : (t : Target) → Looking (resolve_checkpoint_artifact h t)
  unfolding resolve_checkpoint_artifact
  resolve-Looking t = search (quiet_rules, read-Looking)

  concluded-Looking :
      (id : ℕ) (failure : Option String) (left : Option ℕ) → Looking (concluded h id failure left)
  concluded-Looking id none none = search quiet_rules
  concluded-Looking id none (some _) = search quiet_rules
  concluded-Looking id (some why) none = search quiet_rules
  concluded-Looking id (some why) (some _) = search quiet_rules

  delete-AtMost : (t : Target) (id : ℕ) → AtMost is_deletion 1 (delete h t id)
  unfolding delete run_gh
  delete-AtMost t id =
      AtMost-recover is_deletion 1 _ _ _
        (AtMost-bind is_deletion 1 0 _ _
          (AtMost-bind is_deletion 1 0 _ _ (AtMost-start is_deletion h _ 120)
            (λ _. AtMost-of_Quiet is_deletion 0 _ (search quiet_rules)))
          (λ _. AtMost-of_Quiet is_deletion 0 _ (search quiet_rules)))
        (λ why. Quiet-pure is_deletion (some why))

  remove-AtMost : (t : Target) (id : ℕ) → AtMost is_deletion 1 (remove h t id)
  unfolding remove
  remove-AtMost t id = AtMost-bind is_deletion 1 0 _ _ (delete-AtMost t id) (λ failure.
      AtMost-of_Quiet is_deletion 0 _ (
        Quiet-bind is_deletion _ _ (resolve-Looking t) (λ left. concluded-Looking id failure left)))

  decided-AtMost :
      (t : Target) (is_dry : Bool) (found : Option ℕ)
      → AtMost is_deletion 1 (decided h t is_dry found)
  decided-AtMost t is_dry none = AtMost-of_Quiet is_deletion 1 _ (search quiet_rules)
  decided-AtMost t is_dry (some id) =
      AtMost-if is_deletion 1 is_dry _ _ (AtMost-of_Quiet is_deletion 1 _ (search quiet_rules))
        (remove-AtMost t id)

  prune-AtMost :
      (t : Target) (protect_run_id : String) (is_dry : Bool)
      → AtMost is_deletion 1 (prune_checkpoint h t protect_run_id is_dry)
  unfolding prune_checkpoint
  prune-AtMost t protect_run_id is_dry =
      AtMost-bind is_deletion 0 1 _ _ (AtMost-of_Quiet is_deletion 0 _ (Quiet-lift is_deletion _))
        (λ _.
          AtMost-bind is_deletion 0 1 _ _ (AtMost-of_Quiet is_deletion 0 _ (resolve-Looking t))
            (λ found. decided-AtMost t is_dry found))

  -- A call sends at most one deletion, whether it returns or raises: an error of the client leads to
  -- a look, not to a second deletion.
  pub prune_checkpoint_once :
      (t : Target) (protect_run_id : String) (is_dry : Bool) (s : State h.World)
      → tally is_deletion (prune_checkpoint h t protect_run_id is_dry s).1.calls
        ≤ tally is_deletion s.calls + 1
  prune_checkpoint_once t protect_run_id is_dry s = (prune-AtMost t protect_run_id is_dry).at s

  -- At one moment of the run the lookup gave this artifact, or none.
  pub record Looked (t : Target) (found : Option ℕ) : Type 0 where
    pub before : State h.World
    pub after : State h.World
    pub lookup : resolve_checkpoint_artifact h t before ≡ (ok found, after)

  -- What a lookup has checked
  pub record IsProven (t : Target) (found : Option ℕ) : Type 0 where
    pub stage : ℕ
    pub run : Fields
    pub artifacts : Fields
    pub arguments : check_target t ≡ ok stage
    pub finished : equals (get "status" run) "completed" ≡ true
    pub on_branch : equals (get "head_branch" run) t.default_branch ≡ true
    pub checked : check_run h t stage run ≡ ok tt
    pub picked : pick_artifact h t stage artifacts ≡ ok found

  -- What each outcome rests on
  abbrev pub Rests : Target → PruneOutcome → Type 0
  Rests t already_missing = IsProven t none
  Rests t (dry_run id) = IsProven t (some id)
  Rests t (deleted_after_client_error id) = IsProven t (some id) × Looked t none
  Rests t (deleted id) = IsProven t (some id) × Looked t none
