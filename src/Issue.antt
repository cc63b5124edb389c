-- ===== src/Issue.antt =====
-- scripts/github_maintenance_issue.py: one open issue for each title, also if the client fails.
pub mod Laws
pub mod Listed
mod Tests
use chromium_compile.Prelude.{
  ℕ, zero, suc, ◌+◌, ◌-◌, ◌^◌, min, String, Bool, true, false, Option, none, some, List, [], ◌∷◌,
  ◌==◌, eqb, leb, length, if◌then◌else◌,
}
use chromium_compile.Result.{
  Result, ok, raise, issue_error, issue_state_error, os_error, and_then, map_ok,
}
use chromium_compile.Json.{
  Json, bool, int, neg, str, obj, Fields, as_list, objects, get, concat, show,
}
use chromium_compile.Host.{
  Host, Completed, Ended, exited, timed_out, broken, Act, pure, throw, lift, recover, start_gh,
  sleep_for, ◌>>=◌, ◌>>◌,
}
use chromium_compile.Watcher.Gh.{or_text}

abbrev pub issue_list_limit : ℕ
issue_list_limit = 1000

-- What the two operations return; an issue's number is given by its text.
pub data Upserted : Type 0 where
  updated created_after_client_error created : String → Upserted

pub data Closed : Type 0 where
  already_closed : Closed
  closed closed_after_client_error : String → Closed

module _ (h : Host) where
  -- `int(item["number"])`
  unfoldable pub number_of : Json → Result String
  unfolding show concat
  number_of (int n) = ok (show n)
  number_of (neg n) = ok (concat ("-" ∷ show (n + 1) ∷ []))
  number_of (bool true) = ok "1"
  number_of (bool false) = ok "0"
  number_of other = elim (h.int_text other) [
    | none ↦ raise issue_state_error "gh issue list returned an invalid issue number"
    | some n ↦ ok n
  ]

  abbrev is_titled : String → Option Json → Bool
  is_titled title (some (str s)) = s == title
  is_titled title _ = false

  -- The comprehension of `find_issue`
  unfoldable pub exact_numbers : String → List Fields → Result (List String)
  unfolding get number_of
  exact_numbers title [] = ok []
  exact_numbers title (item ∷ items) =
      let rest = exact_numbers title items in
      if is_titled title (get "title" item)
      then (elim (get "number" item) [
        | none ↦ rest
        | some n ↦ and_then (number_of n) λ number. map_ok (λ numbers. number ∷ numbers) rest
      ])
      else rest

  abbrev only : List String → Result (Option String)
  only [] = ok none
  only (number ∷ []) = ok (some number)
  only (_ ∷ _) = raise issue_state_error "Multiple open issues have the exact maintenance title"

  unfoldable pub pick_issue : String → Completed → Result (Option String)
  unfolding exact_numbers objects
  pick_issue title c = elim (h.loads (or_text c.stdout "[]")) [
    | none ↦ raise issue_state_error "gh issue list returned invalid JSON"
    | some payload ↦ elim (as_list payload) [
      | none ↦ raise issue_state_error "gh issue list returned non-list JSON"
      | some items ↦
          if leb issue_list_limit (length items)
          then raise issue_state_error "Open issue lookup saturated"
          else and_then (exact_numbers title (objects items)) only
    ]
  ]

  abbrev ended_well : Ended → Result Completed
  ended_well timed_out = raise issue_error "timed out"
  ended_well broken = raise os_error "gh"
  ended_well (exited c) = if eqb c.returncode 0 then ok c else raise issue_error "failed"

  unfoldable pub run_gh : List String → ℕ → Act h.World Completed
  unfolding ◌>>=◌
  run_gh args timeout = do ended ← start_gh h args timeout; lift (ended_well ended)

  abbrev pub list_command : String → List String
  list_command repository =
      "issue" ∷ "list" ∷ "--repo" ∷ repository ∷ "--state" ∷ "open" ∷ "--limit" ∷ "1000" ∷ "--json"
      ∷ "number,title" ∷ []

  -- The attempts to list the issues, with the number of those that are left after this one
  unfoldable pub list_attempts : ℕ → ℕ → String → Act h.World Completed
  list_attempts zero attempt repository = run_gh (list_command repository) 90
  list_attempts (suc left) attempt repository =
      recover issue_error (run_gh (list_command repository) 90)
        λ _. do sleep_for h (min (2 ^ (attempt - 1)) 5); list_attempts left (attempt + 1) repository

  -- `find_issue(repository, title, attempts=left + 1)`
  unfoldable pub find_issue : ℕ → String → String → Act h.World (Option String)
  unfolding ◌>>=◌
  find_issue left repository title = do
    result ← list_attempts left 1 repository
    lift (pick_issue title result)

  abbrev pub create_command : String → String → String → List String
  create_command repository title body_file =
      "issue" ∷ "create" ∷ "--repo" ∷ repository ∷ "--title" ∷ title ∷ "--body-file" ∷ body_file
      ∷ []

  -- A command whose failure is looked into: `some why` is the client's error.
  unfoldable pub attempt_gh : List String → ℕ → Act h.World (Option String)
  unfolding ◌>>=◌
  attempt_gh args timeout =
      recover issue_error (do _ ← run_gh args timeout; pure none) (λ why. pure (some why))

  abbrev pub look_once : String → String → Act h.World (Option String)
  look_once repository title = recover issue_error (find_issue 0 repository title) (λ _. pure none)

  abbrev pub settle_round : Act h.World Upserted → Option String → Act h.World Upserted
  settle_round next none = next
  settle_round next (some number) = pure (created_after_client_error number)

  -- The rounds after a creation whose client failed
  unfoldable pub confirm_rounds : ℕ → String → String → String → Act h.World Upserted
  unfolding ◌>>=◌
  confirm_rounds zero repository title why = throw issue_error why
  confirm_rounds (suc left) repository title why = do
    sleep_for h 3
    confirmed ← look_once repository title
    settle_round (confirm_rounds left repository title why) confirmed

  abbrev pub visible : Option String → Act h.World Upserted
  visible none = throw issue_error "the exact issue is not visible"
  visible (some number) = pure (created number)

  abbrev pub after_create : String → String → Option String → Act h.World Upserted
  after_create repository title none = do
    confirmed ← find_issue 2 repository title
    visible confirmed
  after_create repository title (some why) = confirm_rounds 6 repository title why

  -- An issue that is there is commented on, and its number is returned even if that fails.
  abbrev pub upsert_found : String → String → String → Option String → Act h.World Upserted
  upsert_found repository title body_file (some existing) = do
    _ ←
        attempt_gh
          ("issue" ∷ "comment" ∷ existing ∷ "--repo" ∷ repository ∷ "--body-file" ∷ body_file ∷ [])
          90
    pure (updated existing)
  upsert_found repository title body_file none = do
    failure ← attempt_gh (create_command repository title body_file) 120
    after_create repository title failure

  unfoldable pub upsert_issue : String → String → String → Act h.World Upserted
  unfolding ◌>>=◌
  upsert_issue repository title body_file = do
    existing ← find_issue 2 repository title
    upsert_found repository title body_file existing

  abbrev pub after_close : String → String → String → Option String → Act h.World Closed
  after_close repository title existing none = pure (closed existing)
  after_close repository title existing (some why) = do
    confirmed ← find_issue 0 repository title
    elim confirmed [
      | none ↦ pure (closed_after_client_error existing)
      | some _ ↦ throw issue_error why
    ]

  abbrev pub close_found : String → String → Option String → Act h.World Closed
  close_found repository title none = pure already_closed
  close_found repository title (some existing) = do
    failure ←
        attempt_gh
          ("issue" ∷ "close" ∷ existing ∷ "--repo" ∷ repository ∷ "--reason" ∷ "completed" ∷ []) 90
    after_close repository title existing failure

  unfoldable pub close_issue_if_open : String → String → Act h.World Closed
  unfolding ◌>>=◌
  close_issue_if_open repository title = do
    existing ← find_issue 2 repository title
    close_found repository title existing
