-- ===== src/Issue/Laws.antt =====
-- An issue is created at most once, and only where none with its title was found.
use chromium_compile.Prelude.{
  ℕ, zero, suc, ◌+◌, ◌≤◌, String, Bool, false, ◌≡◌, refl, sym, ap, ◌∙◌, ◌&&◌, subst, Option, none,
  some, List, [], ◌∷◌, ◌==◌, arith,
}
use chromium_compile.Result.{ok}
use chromium_compile.Host.{Host, State, Act}
use chromium_compile.Host.Bounded.{
  AtMost, AtMost-of_Quiet, AtMost-bind, AtMost-le, AtMost-recover, AtMost-start,
}
use chromium_compile.Host.Laws.{bind_of_ok}
use chromium_compile.Host.Tally.{
  tally, Quiet, Quiet-start, Quiet-sleep, Quiet-bind, Quiet-pure, Quiet-recover, quiet_rules,
}
use chromium_compile.Issue.{
  Upserted, run_gh, list_command, list_attempts, find_issue, attempt_gh, settle_round,
  confirm_rounds, visible, after_create, upsert_found, upsert_issue,
}

-- A command `gh issue create …`
abbrev pub is_creation : List String → Bool
is_creation (a ∷ b ∷ _) = a == "issue" && b == "create"
is_creation _ = false

module _ (h : Host) where
  abbrev Looking : {A : Type 0} → Act h.World A → Type 0
  Looking m = Quiet is_creation m

  run-Looking :
      (args : List String) (timeout : ℕ)
      → is_creation args ≡ false
      → Looking (run_gh h args timeout)
  unfolding run_gh
  run-Looking args timeout e = search (quiet_rules, Quiet-start)

  list-Looking :
      (left attempt : ℕ) (repository : String) → Looking (list_attempts h left attempt repository)
  unfolding list_attempts
  list-Looking zero attempt repository = search (quiet_rules, run-Looking)
  list-Looking (suc left) attempt repository =
      let next = list-Looking left (attempt + 1) repository in
      Quiet-recover is_creation _ _ _ (run-Looking (list_command h repository) 90 refl)
        (λ _. Quiet-bind is_creation _ _ (Quiet-sleep is_creation h _) (λ _. next))

  find-Looking :
      (left : ℕ) (repository title : String) → Looking (find_issue h left repository title)
  unfolding find_issue
  find-Looking left repository title = search (quiet_rules, list-Looking)

  attempt-Looking :
      (args : List String) (timeout : ℕ)
      → is_creation args ≡ false
      → Looking (attempt_gh h args timeout)
  unfolding attempt_gh
  attempt-Looking args timeout e = search (quiet_rules, run-Looking)

  confirm_tail :
      (o : Option String) (next : Act h.World Upserted)
      → Looking next
      → Looking (settle_round h next o)
  confirm_tail none next q = q
  confirm_tail (some number) next q = Quiet-pure is_creation _

  confirm-Looking :
      (left : ℕ) (repository title why : String)
      → Looking (confirm_rounds h left repository title why)
  unfolding confirm_rounds
  confirm-Looking zero repository title why = search quiet_rules
  confirm-Looking (suc left) repository title why =
      let next = confirm-Looking left repository title why in
      Quiet-bind is_creation _ _ (Quiet-sleep is_creation h 3) (λ _.
        Quiet-bind is_creation _ _
          (Quiet-recover is_creation _ _ _ (find-Looking 0 repository title)
            (λ _. Quiet-pure is_creation none))
          (λ confirmed. confirm_tail confirmed _ next))

  visible-Looking : (o : Option String) → Looking (visible h o)
  visible-Looking none = search quiet_rules
  visible-Looking (some number) = search quiet_rules

  after_create-Looking :
      (repository title : String) (failure : Option String)
      → Looking (after_create h repository title failure)
  after_create-Looking repository title none = search (quiet_rules, find-Looking, visible-Looking)
  after_create-Looking repository title (some why) = confirm-Looking 6 repository title why

  create-AtMost :
      (args : List String) (timeout : ℕ) → AtMost is_creation 1 (attempt_gh h args timeout)
  unfolding attempt_gh run_gh
  create-AtMost args timeout =
      AtMost-recover is_creation 1 _ _ _
        (AtMost-bind is_creation 1 0 _ _
          (AtMost-bind is_creation 1 0 _ _ (AtMost-start is_creation h args timeout)
            (λ _. AtMost-of_Quiet is_creation 0 _ (search quiet_rules)))
          (λ _. AtMost-of_Quiet is_creation 0 _ (search quiet_rules)))
        (λ why. Quiet-pure is_creation (some why))

  -- How many issues an upsert creates at most: none, if one was found
  abbrev pub allowance : Option String → ℕ
  allowance none = 1
  allowance (some existing) = 0

  found-AtMost :
      (repository title body_file : String) (existing : Option String)
      → AtMost is_creation (allowance existing) (upsert_found h repository title body_file existing)
  found-AtMost repository title body_file none =
      AtMost-bind is_creation 1 0 _ _ (create-AtMost _ 120)
        (λ failure. AtMost-of_Quiet is_creation 0 _ (after_create-Looking repository title failure))
  found-AtMost repository title body_file (some existing) = AtMost-of_Quiet is_creation 0 _ (
      Quiet-bind is_creation _ _
        (attempt-Looking
          ("issue" ∷ "comment" ∷ existing ∷ "--repo" ∷ repository ∷ "--body-file" ∷ body_file ∷ [])
          90 refl)
        (λ _. Quiet-pure is_creation _))

  within :
      (repository title body_file : String) (existing : Option String)
      → AtMost is_creation 1 (upsert_found h repository title body_file existing)
  within repository title body_file none = found-AtMost repository title body_file none
  within repository title body_file (some existing) =
      AtMost-le is_creation 0 1 _ (omega arith)
        (found-AtMost repository title body_file (some existing))

  -- An upsert creates at most one issue, and none where it found one with the title, whether it returns
  -- or raises.
  pub upsert_issue_once :
      (repository title body_file : String) (s : State h.World)
      → ((existing : Option String) (t : State h.World)
          → find_issue h 2 repository title s ≡ (ok existing, t)
          → tally is_creation (upsert_issue h repository title body_file s).1.calls
            ≤ tally is_creation s.calls + allowance existing)
        × (tally is_creation (upsert_issue h repository title body_file s).1.calls
            ≤ tally is_creation s.calls + 1)
  unfolding upsert_issue
  upsert_issue_once repository title body_file s = (
    λ existing t e.
        let moved : tally is_creation t.calls ≡ tally is_creation s.calls =
          ap (λ r. tally is_creation r.1.calls) (sym e) ∙ (find-Looking 2 repository title).at s in
        subst (λ r. tally is_creation r.1.calls ≤ tally is_creation s.calls + allowance existing)
          (sym (
            bind_of_ok (find_issue h 2 repository title) (upsert_found h repository title body_file)
              s t existing e))
          (omega (arith, (found-AtMost repository title body_file existing).at t, moved)),
    (AtMost-bind is_creation 0 1 _ _
          (AtMost-of_Quiet is_creation 0 _ (find-Looking 2 repository title))
          (λ existing. within repository title body_file existing)).at
        s,
  )
