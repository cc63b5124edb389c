-- ===== src/Dispatch/Once/Laws.antt =====
-- `dispatch_once` sends at most one dispatch, and none if it finds the run or refuses.
use chromium_compile.Prelude.{
  ℕ, zero, suc, ◌+◌, ◌≤◌, String, true, false, ◌≡◌, refl, inl, inr, Option, none, some, List, arith,
  Bool-cases, Option-cases,
}
use chromium_compile.Host.{Host, State}
use chromium_compile.Host.Tally.{
  Quiet-bind, Quiet-pure, Quiet-recover, Quiet-if, Quiet-throw, Quiet-lift, quiet_rules, tally,
  Quiet-now, AtMostOnce, AtMostOnce-of_Quiet, AtMostOnce-bind, AtMostOnce-then,
  AtMostOnce-of_ExactlyOnce, ExactlyOnce, ExactlyOnce-start, ExactlyOnce-then, ExactlyOnce-recover,
}
use chromium_compile.Dispatch.Lookup.{normalize_optional, run_gh, ended_well}
use chromium_compile.Dispatch.Once.{
  accepted_after_client_error, Request, all_pairs, dispatch_command, seen_since, find_duplicate,
  check_lineage, recent_rounds, pause, after_error, after_accept, send, dispatch_new, dispatch_once,
}
use chromium_compile.Dispatch.Once.Sends.{
  is_dispatch, Silent, created_at-Silent, resolve-Silent, confirm-Silent, active-Silent,
  since-Silent, recent-Silent,
}

abbrev pub sent : {W : Type 0} → State W → ℕ
sent s = tally is_dispatch s.calls

module _ (h : Host) (lookup_limit : ℕ) where
  seen_since-Silent :
      (r : Request) (sha : Option String) (run_id : String)
      → Silent h lookup_limit (seen_since h lookup_limit r sha run_id)
  seen_since-Silent r sha run_id = search (quiet_rules, created_at-Silent, since-Silent)

  pub find_duplicate-Silent :
      (r : Request) (sha : Option String)
      → Silent h lookup_limit (find_duplicate h lookup_limit r sha)
  unfolding find_duplicate
  find_duplicate-Silent r sha = elim (Bool-cases r.dedupe_completed) [
    | inl b ↦ rw b (elim (Option-cases r.dedupe_since_run_id) [
      | inl e ↦ rw e (search quiet_rules)
      | inr (run_id, e) ↦ rw e (search (quiet_rules, seen_since-Silent))
    ])
    | inr b ↦ rw b (search (quiet_rules, active-Silent))
  ]

  pub check_lineage-Silent :
      (r : Request) (sha : Option String)
      → Silent h lookup_limit (check_lineage h lookup_limit r sha)
  unfolding check_lineage
  check_lineage-Silent r none = search quiet_rules
  check_lineage-Silent r (some sha) = search (quiet_rules, resolve-Silent)

  pause-Silent : (left attempt : ℕ) → Silent h lookup_limit (pause h lookup_limit left attempt)
  pause-Silent zero attempt = search quiet_rules
  pause-Silent (suc left) attempt = search quiet_rules

  recent_rounds-Silent :
      (r : Request) (started left attempt : ℕ) (why : String)
      → Silent h lookup_limit (recent_rounds h lookup_limit r started left attempt why)
  unfolding recent_rounds
  recent_rounds-Silent r started zero attempt why = search quiet_rules
  recent_rounds-Silent r started (suc left) attempt why =
      let next = recent_rounds-Silent r started left (attempt + 1) why in
      Quiet-bind is_dispatch _ _
        (Quiet-recover is_dispatch _ _ _
          (recent-Silent h lookup_limit r.repository r.workflow r.title r.ref started none)
          (λ _. Quiet-pure is_dispatch false))
        (λ seen.
          Quiet-if is_dispatch seen _ _ (Quiet-pure is_dispatch accepted_after_client_error)
            (Quiet-bind is_dispatch _ _ (pause-Silent left attempt) (λ _. next)))

  pub after_error-Silent :
      (r : Request) (sha : Option String) (started : ℕ) (why : String)
      → Silent h lookup_limit (after_error h lookup_limit r sha started why)
  unfolding after_error
  after_error-Silent r none started why = recent_rounds-Silent r started r.confirm_attempts 0 why
  after_error-Silent r (some sha) started why = search (quiet_rules, confirm-Silent)

  pub after_accept-Silent :
      (r : Request) (sha : Option String) (started : ℕ)
      → Silent h lookup_limit (after_accept h lookup_limit r sha started)
  unfolding after_accept
  after_accept-Silent r none started = search quiet_rules
  after_accept-Silent r (some sha) started = search (quiet_rules, confirm-Silent)

  run_gh_once :
      (args : List String) (timeout : ℕ)
      → is_dispatch args ≡ true
      → ExactlyOnce is_dispatch (run_gh h lookup_limit args timeout)
  unfolding run_gh
  run_gh_once args timeout e =
      ExactlyOnce-then is_dispatch _ _ (ExactlyOnce-start is_dispatch h args timeout e)
        (λ ended. Quiet-lift is_dispatch (ended_well h lookup_limit ended))

  pub send_once : (r : Request) → ExactlyOnce is_dispatch (send h lookup_limit r)
  unfolding send dispatch_command
  send_once r =
      ExactlyOnce-recover is_dispatch _ _ _
        (ExactlyOnce-then is_dispatch _ _ (run_gh_once (dispatch_command r) 120 refl)
          (λ _. search quiet_rules))
        (λ why. search quiet_rules)

  dispatch_new_once :
      (r : Request) (sha : Option String)
      → AtMostOnce is_dispatch (dispatch_new h lookup_limit r sha)
  unfolding dispatch_new
  dispatch_new_once r sha = AtMostOnce-bind is_dispatch _ _ (check_lineage-Silent r sha) (λ _.
      AtMostOnce-bind is_dispatch _ _ (Quiet-now is_dispatch h) (λ started.
        AtMostOnce-then is_dispatch _ _ (AtMostOnce-of_ExactlyOnce is_dispatch _ (send_once r))
          (elim [
            | none ↦ after_accept-Silent r sha started
            | some why ↦ after_error-Silent r sha started why
          ])))

  pub dispatch_once-AtMostOnce :
      (r : Request) → AtMostOnce is_dispatch (dispatch_once h lookup_limit r)
  unfolding dispatch_once
  dispatch_once-AtMostOnce r =
      AtMostOnce-bind is_dispatch _ _
        (Quiet-lift is_dispatch (normalize_optional r.expected_head_sha))
        (λ sha.
          AtMostOnce-bind is_dispatch _ _
            (Quiet-if is_dispatch (all_pairs r.inputs) _ _ (Quiet-pure is_dispatch tt)
              (Quiet-throw is_dispatch _ _))
            (λ _. AtMostOnce-bind is_dispatch _ _ (find_duplicate-Silent r sha) (elim [
              | none ↦ dispatch_new_once r sha
              | some outcome ↦ AtMostOnce-of_Quiet is_dispatch _ (Quiet-pure is_dispatch outcome)
            ])))

  -- However the client, the server and the listings behave, and whether it returns or raises, a call
  -- sends at most one dispatch.
  pub dispatch_once_at_most :
      (r : Request) (s : State h.World) → sent (dispatch_once h lookup_limit r s).1 ≤ sent s + 1
  dispatch_once_at_most r s = omega (arith, (dispatch_once-AtMostOnce r).at s)
