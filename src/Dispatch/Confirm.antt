-- ===== src/Dispatch/Confirm.antt =====
-- scripts/github_workflow_dispatch.py: whether a run is there, before and after a dispatch.
pub mod Evidence
use chromium_compile.Prelude.{
  ℕ, zero, suc, ◌+◌, ◌-◌, ◌*◌, min, String, Bool, true, false, ◌&&◌, ◌||◌, not, Option, none, some,
  List, [], ◌∷◌, ◌++◌, eqb, ltb, leb, ◌==◌, if◌then◌else◌, length, is_empty, keep_if,
}
use chromium_compile.Result.{Result, ok, raise, dispatch_error, and_then}
use chromium_compile.Json.{Json, Fields, get_str}
use chromium_compile.Host.{Host, Act, pure, throw, lift, ◌>>=◌, ◌>>◌, recover, sleep_for}
use chromium_compile.Text.Strip.{lower_hex}
use chromium_compile.Dispatch.Lookup.{
  active_statuses, list_recent_runs, title_ref_fit, matches_or_fail, exact_runs_or_fail_closed,
  utc_moment,
}

-- The three answers of `recent_dispatch_head_state`
pub data HeadState : Type 0 where
  matched mismatch absent : HeadState

-- `CONFIRM_DELAYS_SECONDS[min(attempt, 7)]`
delay_from : List ℕ → ℕ → ℕ
delay_from [] attempt = 0
delay_from (d ∷ []) attempt = d
delay_from (d ∷ ds) zero = d
delay_from (d ∷ ds) (suc attempt) = delay_from ds attempt

unfoldable pub confirm_delay : ℕ → ℕ
unfolding delay_from
confirm_delay attempt = delay_from (2 ∷ 3 ∷ 5 ∷ 8 ∷ 12 ∷ 15 ∷ 20 ∷ 25 ∷ []) attempt

-- Seconds before a moment in microseconds
abbrev pub seconds_before : ℕ → ℕ → ℕ
seconds_before seconds moment = moment - seconds * 1000000

abbrev answer : Bool → Bool → HeadState
answer true saw_other = matched
answer false true = mismatch
answer false false = absent

module _ (h : Host) (lookup_limit : ℕ) where
  -- The loop of `recent_dispatch_head_state` with its two flags
  unfoldable pub scan_heads : String → ℕ → Bool → Bool → List Fields → Result HeadState
  scan_heads sha threshold saw_expected saw_other [] = ok (answer saw_expected saw_other)
  scan_heads sha threshold saw_expected saw_other (run ∷ runs) =
      and_then (utc_moment h lookup_limit (get_str h.repr "createdAt" run)) (λ created.
        let is_old = ltb created threshold in
        let is_expected = lower_hex (get_str h.repr "headSha" run) == lower_hex sha in
        scan_heads sha threshold (saw_expected || (not is_old && is_expected))
          (saw_other || (not is_old && not is_expected)) runs)

  unfoldable pub recent_dispatch_head_state :
      String → String → String → String → String → ℕ → Act h.World HeadState
  recent_dispatch_head_state repository workflow title ref sha not_before = do
    let threshold = seconds_before 30 not_before
    runs ←
        list_recent_runs h lookup_limit repository workflow (record {
          branch = some ref;
          commit = none;
          created_after = some threshold;
          status = none;
        })
    matches ← lift (matches_or_fail h lookup_limit (title_ref_fit h lookup_limit title ref) runs)
    lift (scan_heads sha threshold false false matches)

  abbrev pub judge : HeadState → Act h.World Bool → Act h.World Bool
  judge matched more = pure true
  judge mismatch more = throw dispatch_error "materialized at a different head SHA"
  judge absent more = more

  module _ (state : ℕ → Act h.World HeadState) where
    abbrev pub wait_more : ℕ → ℕ → Act h.World Unit
    wait_more zero attempt = pure tt
    wait_more (suc left) attempt = sleep_for h (confirm_delay attempt)

    -- The loop of `confirm_expected_dispatch_head`, with the number of rounds to go
    unfoldable pub confirm_rounds : ℕ → ℕ → Act h.World Bool
    confirm_rounds zero attempt = pure false
    confirm_rounds (suc left) attempt = do
      seen ← recover dispatch_error (state attempt) (λ _. pure absent)
      let more = wait_more left attempt >> confirm_rounds left (attempt + 1)
      judge seen more

  unfoldable pub confirm_expected_dispatch_head :
      String → String → String → String → String → ℕ → ℕ → Act h.World Bool
  confirm_expected_dispatch_head repository workflow title ref sha started confirm_attempts =
      confirm_rounds (λ _. recent_dispatch_head_state repository workflow title ref sha started)
        confirm_attempts 0

  -- The loop of `exact_active_exists` over the states of a run that has not completed
  unfoldable pub exact_active_among :
      List String → String → String → String → String → Option String → Act h.World Bool
  unfolding ◌>>=◌
  exact_active_among [] repository workflow title ref sha = pure false
  exact_active_among (status ∷ statuses) repository workflow title ref sha = do
    runs ←
        exact_runs_or_fail_closed h lookup_limit repository workflow title ref sha none
          (some status)
    if is_empty runs
        then exact_active_among statuses repository workflow title ref sha
        else pure true

  unfoldable pub exact_active_exists :
      String → String → String → String → Option String → Act h.World Bool
  exact_active_exists = exact_active_among active_statuses

  -- The loop of `exact_exists_since`
  unfoldable pub any_since : ℕ → List Fields → Result Bool
  any_since threshold [] = ok false
  any_since threshold (run ∷ runs) =
      let rest = any_since threshold runs in
      and_then (utc_moment h lookup_limit (get_str h.repr "createdAt" run))
        (λ created. if leb threshold created then ok true else rest)

  unfoldable pub exact_exists_since :
      String → String → String → String → ℕ → ℕ → Option String → Act h.World Bool
  unfolding ◌>>=◌
  exact_exists_since repository workflow title ref not_before grace_seconds sha = do
    let threshold = seconds_before grace_seconds not_before
    runs ←
        exact_runs_or_fail_closed h lookup_limit repository workflow title ref sha (some threshold)
          none
    lift (any_since threshold runs)

  unfoldable pub exact_recent_exists :
      String → String → String → String → ℕ → Option String → Act h.World Bool
  exact_recent_exists repository workflow title ref not_before sha =
      exact_exists_since repository workflow title ref not_before 30 sha
