-- ===== src/Release/Tag/Creation.antt =====
-- A tag is created at most once, and no existing tag is changed.
use chromium_compile.Prelude.{
  ℕ, zero, suc, ◌+◌, ◌≤◌, String, Bool, false, ◌≡◌, ◌&&◌, Option, none, some, List, [], ◌∷◌, ◌==◌,
}
use chromium_compile.Host.{Host, Completed, State, Act}
use chromium_compile.Host.Bounded.{
  AtMost, AtMost-of_Quiet, AtMost-bind, AtMost-recover, AtMost-start,
}
use chromium_compile.Host.Tally.{
  tally, Quiet, Quiet-start, Quiet-bind, Quiet-pure, Quiet-lift, Quiet-recover, quiet_rules,
}
use chromium_compile.Release.Tag.{
  run_gh, read_target, follow, resolve_tag_commit, pause, compare, confirm_rounds, confirm_tag,
  create, finish, settle, ensure_exact_tag,
}

-- A command that writes to the repository's references
abbrev pub is_creation : List String → Bool
is_creation (a ∷ b ∷ c ∷ _) = a == "api" && b == "--method"
is_creation _ = false

module _ (h : Host) where
  abbrev pub Reading : {A : Type 0} → Act h.World A → Type 0
  Reading m = Quiet is_creation m

  run-Reading : (args : List String) → is_creation args ≡ false → Reading (run_gh h args)
  unfolding run_gh
  run-Reading args e = search (quiet_rules, Quiet-start)

  target-Reading : (path : String) → Reading (read_target h ("api" ∷ path ∷ []))
  unfolding read_target
  target-Reading path = search (quiet_rules, run-Reading)

  follow-Reading :
      (left : ℕ) (repository kind sha : String) → Reading (follow h left repository kind sha)
  unfolding follow
  follow-Reading zero repository kind sha = search quiet_rules
  follow-Reading (suc left) repository kind sha =
      let next : (kind sha : String) → Reading (follow h left repository kind sha) =
        λ kind sha. follow-Reading left repository kind sha in
      search (quiet_rules, target-Reading, next) depth 12

  pub resolve-Reading : (repository tag : String) → Reading (resolve_tag_commit h repository tag)
  unfolding resolve_tag_commit
  resolve-Reading repository tag = search (quiet_rules, run-Reading, follow-Reading) depth 12

  compare-Reading :
      (sha : String) (again : Act h.World Unit) (seen : Option String)
      → Reading again
      → Reading (compare h sha again seen)
  compare-Reading sha again none q = q
  compare-Reading sha again (some commit) q = search quiet_rules

  pause-Reading : (left : ℕ) → Reading (pause h left)
  pause-Reading zero = search quiet_rules
  pause-Reading (suc left) = search quiet_rules

  rounds-Reading :
      (left : ℕ) (repository tag sha : String) → Reading (confirm_rounds h left repository tag sha)
  unfolding confirm_rounds
  rounds-Reading zero repository tag sha = search quiet_rules
  rounds-Reading (suc left) repository tag sha =
      let next = rounds-Reading left repository tag sha in
      Quiet-bind is_creation _ _
        (Quiet-recover is_creation _ _ _ (resolve-Reading repository tag)
          (λ _. Quiet-pure is_creation none))
        (λ seen.
          compare-Reading sha _ seen (Quiet-bind is_creation _ _ (pause-Reading left) (λ _. next)))

  confirm-Reading : (repository tag sha : String) → Reading (confirm_tag h repository tag sha)
  unfolding confirm_tag
  confirm-Reading repository tag sha = rounds-Reading 5 repository tag sha

  finish-Reading :
      (repository tag sha : String) (result : Option Completed)
      → Reading (finish h repository tag sha result)
  finish-Reading repository tag sha none = search (quiet_rules, confirm-Reading)
  finish-Reading repository tag sha (some result) = search (quiet_rules, confirm-Reading)

  create-AtMost : (repository tag sha : String) → AtMost is_creation 1 (create h repository tag sha)
  unfolding create run_gh
  create-AtMost repository tag sha =
      AtMost-recover is_creation 1 _ _ _
        (AtMost-bind is_creation 1 0 _ _
          (AtMost-bind is_creation 1 0 _ _ (AtMost-start is_creation h _ 60)
            (λ _. AtMost-of_Quiet is_creation 0 _ (search quiet_rules)))
          (λ _. AtMost-of_Quiet is_creation 0 _ (search quiet_rules)))
        (λ _. Quiet-pure is_creation none)

  settle-AtMost :
      (repository tag sha : String) (existing : Option String)
      → AtMost is_creation 1 (settle h repository tag sha existing)
  settle-AtMost repository tag sha none =
      AtMost-bind is_creation 1 0 _ _ (create-AtMost repository tag sha)
        (λ result. AtMost-of_Quiet is_creation 0 _ (finish-Reading repository tag sha result))
  settle-AtMost repository tag sha (some existing) =
      AtMost-of_Quiet is_creation 1 _ (search quiet_rules)

  pub ensure-AtMost :
      (repository tag sha token : String)
      → AtMost is_creation 1 (ensure_exact_tag h repository tag sha token)
  unfolding ensure_exact_tag
  ensure-AtMost repository tag sha token =
      AtMost-bind is_creation 0 1 _ _ (AtMost-of_Quiet is_creation 0 _ (Quiet-lift is_creation _))
        (λ _.
          AtMost-bind is_creation 0 1 _ _
            (AtMost-of_Quiet is_creation 0 _ (resolve-Reading repository tag))
            (λ existing. settle-AtMost repository tag sha existing))

  -- A call creates the tag at most once, whether it returns or raises: an error of the client does not
  -- lead to a second creation.
  pub ensure_exact_tag_once :
      (repository tag sha token : String) (s : State h.World)
      → tally is_creation (ensure_exact_tag h repository tag sha token s).1.calls
        ≤ tally is_creation s.calls + 1
  ensure_exact_tag_once repository tag sha token s = (ensure-AtMost repository tag sha token).at s
