-- ===== src/Dispatch/Once.antt =====
-- scripts/github_workflow_dispatch.py: `dispatch_once`.
pub mod Sends
pub mod Laws
pub mod Outcomes
pub mod Confirmed
mod Tests
use chromium_compile.Prelude.{
  ℕ, zero, suc, ◌+◌, String, Bool, true, false, ◌&&◌, ◌||◌, not, Option, none, some, List, [], ◌∷◌,
  ◌++◌, ◌==◌, if◌then◌else◌,
}
use chromium_compile.Result.{Result, ok, raise, value_error, dispatch_error}
use chromium_compile.Host.{Host, Act, pure, throw, lift, ◌>>=◌, ◌>>◌, recover, sleep_for, time_now}
use chromium_compile.Text.Digits.{has_char}
use chromium_compile.Dispatch.Lookup.{
  normalize_optional, run_gh, workflow_run_created_at, resolve_ref_sha,
}
use chromium_compile.Dispatch.Confirm.{
  confirm_delay, confirm_expected_dispatch_head, exact_active_exists, exact_exists_since,
  exact_recent_exists,
}

-- What `dispatch_once` returns
pub data Outcome : Type 0 where
  already_seen already_active accepted accepted_confirmed accepted_after_client_error : Outcome

-- The arguments of a call
pub record Request : Type 0 where
  pub repository : String
  pub workflow : String
  pub ref : String
  pub title : String
  pub inputs : List String
  pub confirm_attempts : ℕ
  pub dedupe_completed : Bool
  pub dedupe_since_run_id : Option String
  pub expected_head_sha : Option String

unfoldable pub all_pairs : List String → Bool
unfolding has_char
all_pairs [] = true
all_pairs (value ∷ values) = has_char b'=' value && all_pairs values

abbrev pub input_flags : List String → List String
input_flags [] = []
input_flags (value ∷ values) = "-f" ∷ value ∷ input_flags values

unfoldable pub dispatch_command : Request → List String
dispatch_command r =
    "workflow"
    ∷ "run"
    ∷ r.workflow
    ∷ "--repo"
    ∷ r.repository
    ∷ "--ref"
    ∷ r.ref
    ∷ input_flags r.inputs

module _ (h : Host) (lookup_limit : ℕ) where
  abbrev pub seen_since : Request → Option String → String → Act h.World (Option Outcome)
  seen_since r sha run_id = do
    parent_started ← workflow_run_created_at h lookup_limit r.repository run_id
    seen ←
        exact_exists_since h lookup_limit r.repository r.workflow r.title r.ref parent_started 0 sha
    pure (if seen then some already_seen else none)

  -- The guard before the dispatch: the outcome, if the run is there already
  unfoldable pub find_duplicate : Request → Option String → Act h.World (Option Outcome)
  find_duplicate r sha =
      if r.dedupe_completed
      then elim r.dedupe_since_run_id [
        | none ↦ throw value_error "dedupe_completed requires dedupe_since_run_id"
        | some run_id ↦
            if run_id == ""
            then throw value_error "dedupe_completed requires dedupe_since_run_id"
            else seen_since r sha run_id
      ]
      else do
        active ← exact_active_exists h lookup_limit r.repository r.workflow r.title r.ref sha
        pure (if active then some already_active else none)

  -- The ref must still resolve to the expected commit.
  unfoldable pub check_lineage : Request → Option String → Act h.World Unit
  check_lineage r none = pure tt
  check_lineage r (some sha) = do
    current_ref_sha ← resolve_ref_sha h lookup_limit r.repository r.ref
    if current_ref_sha == sha then pure tt else throw dispatch_error "refusing workflow dispatch"

  abbrev pub pause : ℕ → ℕ → Act h.World Unit
  pause zero attempt = pure tt
  pause (suc left) attempt = sleep_for h (confirm_delay attempt)

  -- The rounds after a client error without an expected commit
  unfoldable pub recent_rounds : Request → ℕ → ℕ → ℕ → String → Act h.World Outcome
  recent_rounds r started zero attempt why = throw dispatch_error why
  recent_rounds r started (suc left) attempt why = do
    seen ←
        recover dispatch_error
          (exact_recent_exists h lookup_limit r.repository r.workflow r.title r.ref started none)
          (λ _. pure false)
    if seen
        then pure accepted_after_client_error
        else do pause left attempt; recent_rounds r started left (attempt + 1) why

  -- After `run_gh` raised: evidence is looked for, and the dispatch is not repeated.
  unfoldable pub after_error : Request → Option String → ℕ → String → Act h.World Outcome
  after_error r none started why = recent_rounds r started r.confirm_attempts 0 why
  after_error r (some sha) started why = do
    confirmed ←
        confirm_expected_dispatch_head h lookup_limit r.repository r.workflow r.title r.ref sha
          started r.confirm_attempts
    if confirmed then pure accepted_after_client_error else throw dispatch_error why

  -- After `run_gh` returned
  unfoldable pub after_accept : Request → Option String → ℕ → Act h.World Outcome
  after_accept r none started = pure accepted
  after_accept r (some sha) started = do
    confirmed ←
        confirm_expected_dispatch_head h lookup_limit r.repository r.workflow r.title r.ref sha
          started r.confirm_attempts
    if confirmed
        then pure accepted_confirmed
        else throw dispatch_error "no run at immutable lineage SHA became visible"

  -- `some why` if the client failed
  unfoldable pub send : Request → Act h.World (Option String)
  send r =
      recover dispatch_error (do result ← run_gh h lookup_limit (dispatch_command r) 120; pure none)
        (λ why. pure (some why))

  abbrev pub react : Request → Option String → ℕ → Option String → Act h.World Outcome
  react r sha started none = after_accept r sha started
  react r sha started (some why) = after_error r sha started why

  unfoldable pub dispatch_new : Request → Option String → Act h.World Outcome
  dispatch_new r sha = do
    check_lineage r sha
    started ← time_now h
    failure ← send r
    react r sha started failure

  abbrev pub conclude : Request → Option String → Option Outcome → Act h.World Outcome
  conclude r sha none = dispatch_new r sha
  conclude r sha (some outcome) = pure outcome

  abbrev pub checked : Request → Act h.World Unit
  checked r =
      if all_pairs r.inputs then pure tt else throw value_error "Workflow input must be key=value"

  unfoldable pub dispatch_once : Request → Act h.World Outcome
  unfolding all_pairs
  dispatch_once r = do
    sha ← lift (normalize_optional r.expected_head_sha)
    checked r
    duplicate ← find_duplicate r sha
    conclude r sha duplicate
