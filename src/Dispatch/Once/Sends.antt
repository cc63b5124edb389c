-- ===== src/Dispatch/Once/Sends.antt =====
-- Which functions send no dispatch: all of the lookups.
use chromium_compile.Prelude.{
  ℕ, ◌+◌, zero, suc, String, Bool, true, false, ◌≡◌, ◌&&◌, Option, none, some, List, [], ◌∷◌, ◌==◌,
  is_empty,
}
use chromium_compile.Host.{Host, Act}
use chromium_compile.Host.Tally.{
  Quiet, Quiet-start, Quiet-sleep, Quiet-bind, Quiet-if, Quiet-pure, Quiet-recover, quiet_rules,
}
use chromium_compile.Dispatch.Lookup.{
  Query, run_gh, runs_command, read_runs, recent_attempts, list_recent_runs,
  exact_runs_or_fail_closed, workflow_run_created_at, resolve_ref_sha,
}
use chromium_compile.Dispatch.Confirm.{
  HeadState, matched, mismatch, absent, recent_dispatch_head_state, confirm_rounds,
  confirm_expected_dispatch_head, exact_active_among, exact_active_exists, exact_exists_since,
  exact_recent_exists, wait_more,
}

-- A command `gh workflow run …`
abbrev pub is_dispatch : List String → Bool
is_dispatch (a ∷ b ∷ _) = a == "workflow" && b == "run"
is_dispatch _ = false

module _ (h : Host) (lookup_limit : ℕ) where
  abbrev pub Silent : {A : Type 0} → Act h.World A → Type 0
  Silent m = Quiet is_dispatch m

  pub run_gh-Silent :
      (args : List String) (timeout : ℕ)
      → is_dispatch args ≡ false
      → Silent (run_gh h lookup_limit args timeout)
  unfolding run_gh
  run_gh-Silent args timeout e = search (quiet_rules, Quiet-start)

  read_runs-Silent :
      (repository workflow : String) (query : Query)
      → Silent (read_runs h lookup_limit (runs_command h lookup_limit repository workflow query))
  unfolding read_runs runs_command
  read_runs-Silent repository workflow query = search (quiet_rules, run_gh-Silent)

  attempts-Silent :
      (left attempt : ℕ) (command : List String)
      → Silent (read_runs h lookup_limit command)
      → Silent (recent_attempts h lookup_limit left attempt command)
  unfolding recent_attempts
  attempts-Silent zero attempt command q = q
  attempts-Silent (suc left) attempt command q =
      let next = attempts-Silent left (attempt + 1) command q in
      Quiet-recover is_dispatch _ _ _ q
        (λ _. Quiet-bind is_dispatch _ _ (Quiet-sleep is_dispatch h _) (λ _. next))

  list-Silent :
      (repository workflow : String) (query : Query)
      → Silent (list_recent_runs h lookup_limit repository workflow query)
  unfolding list_recent_runs
  list-Silent repository workflow query = search (quiet_rules, attempts-Silent, read_runs-Silent)

  exact_runs-Silent :
      (repository workflow title ref : String) (sha : Option String) (since : Option ℕ)
      (status : Option String)
      → Silent
          (exact_runs_or_fail_closed h lookup_limit repository workflow title ref sha since status)
  unfolding exact_runs_or_fail_closed
  exact_runs-Silent repository workflow title ref sha since status =
      search (quiet_rules, list-Silent)

  pub created_at-Silent :
      (repository run_id : String)
      → Silent (workflow_run_created_at h lookup_limit repository run_id)
  unfolding workflow_run_created_at
  created_at-Silent repository run_id = search (quiet_rules, run_gh-Silent)

  pub resolve-Silent :
      (repository ref : String) → Silent (resolve_ref_sha h lookup_limit repository ref)
  unfolding resolve_ref_sha
  resolve-Silent repository ref = search (quiet_rules, run_gh-Silent)

  head_state-Silent :
      (repository workflow title ref sha : String) (started : ℕ)
      → Silent (recent_dispatch_head_state h lookup_limit repository workflow title ref sha started)
  unfolding recent_dispatch_head_state
  head_state-Silent repository workflow title ref sha started = search (quiet_rules, list-Silent)

  module _ (state : ℕ → Act h.World HeadState) (quiet : (n : ℕ) → Silent (state n)) where
    wait-Silent : (left attempt : ℕ) → Silent (wait_more h lookup_limit state left attempt)
    wait-Silent zero attempt = search quiet_rules
    wait-Silent (suc left) attempt = search quiet_rules

    rounds-Silent : (left attempt : ℕ) → Silent (confirm_rounds h lookup_limit state left attempt)
    unfolding confirm_rounds
    rounds-Silent zero attempt = search quiet_rules
    rounds-Silent (suc left) attempt =
        let next = rounds-Silent left (attempt + 1) in
        Quiet-bind is_dispatch _ _
          (Quiet-recover is_dispatch _ _ _ (quiet attempt) (λ _. Quiet-pure is_dispatch absent))
          (elim [
            | matched ↦ search quiet_rules
            | mismatch ↦ search quiet_rules
            | absent ↦ Quiet-bind is_dispatch _ _ (wait-Silent left attempt) (λ _. next)
          ])

  pub confirm-Silent :
      (repository workflow title ref sha : String) (started n : ℕ)
      → Silent (
          confirm_expected_dispatch_head h lookup_limit repository workflow title ref sha started n)
  unfolding confirm_expected_dispatch_head
  confirm-Silent repository workflow title ref sha started n =
      rounds-Silent _ (λ _. head_state-Silent repository workflow title ref sha started) n 0

  among-Silent :
      (statuses : List String) (repository workflow title ref : String) (sha : Option String)
      → Silent (exact_active_among h lookup_limit statuses repository workflow title ref sha)
  unfolding exact_active_among
  among-Silent [] repository workflow title ref sha = search quiet_rules
  among-Silent (status ∷ statuses) repository workflow title ref sha =
      let next = among-Silent statuses repository workflow title ref sha in
      Quiet-bind is_dispatch _ _
        (exact_runs-Silent repository workflow title ref sha none (some status))
        (λ runs. Quiet-if is_dispatch (is_empty runs) _ _ next (Quiet-pure is_dispatch true))

  pub active-Silent :
      (repository workflow title ref : String) (sha : Option String)
      → Silent (exact_active_exists h lookup_limit repository workflow title ref sha)
  unfolding exact_active_exists
  active-Silent repository workflow title ref sha = among-Silent _ repository workflow title ref sha

  pub since-Silent :
      (repository workflow title ref : String) (not_before grace : ℕ) (sha : Option String)
      → Silent
          (exact_exists_since h lookup_limit repository workflow title ref not_before grace sha)
  unfolding exact_exists_since
  since-Silent repository workflow title ref not_before grace sha =
      search (quiet_rules, exact_runs-Silent)

  pub recent-Silent :
      (repository workflow title ref : String) (not_before : ℕ) (sha : Option String)
      → Silent (exact_recent_exists h lookup_limit repository workflow title ref not_before sha)
  unfolding exact_recent_exists
  recent-Silent repository workflow title ref not_before sha =
      since-Silent repository workflow title ref not_before 30 sha
