-- ===== src/Release/Tag.antt =====
-- scripts/github_release_tag.py
pub mod Laws
pub mod Creation
use chromium_compile.Prelude.{
  ℕ, zero, suc, String, Bool, true, false, not, ◌||◌, Option, none, some, List, [], ◌∷◌, ◌==◌, eqb,
  if◌then◌else◌,
}
use chromium_compile.Result.{Result, ok, raise, value_error, tag_error, and_then}
use chromium_compile.Json.{Json, obj, Fields, done, as_object, get, get_str, truthy, concat}
use chromium_compile.Host.{
  Host, Completed, Ended, exited, timed_out, broken, Act, pure, throw, lift, recover, start_gh,
  sleep_for, ◌>>=◌, ◌>>◌,
}
use chromium_compile.Text.Digits.{is_ascii_digit}
use chromium_compile.Text.Pattern.{framed, is_repository}
use chromium_compile.Text.Search.{reports_404}
use chromium_compile.Text.Strip.{is_lower_sha}
use chromium_compile.Watcher.Gh.{or_text}

abbrev is_some : Option String → Bool
is_some none = false
is_some (some _) = true

-- `^chromium-[0-9]+\.[0-9]+\.[0-9]+\.[0-9]+-(?:linux|windows)-i686$`
unfoldable pub is_release_tag : String → Bool
unfolding framed is_ascii_digit
is_release_tag tag =
    is_some (framed is_ascii_digit "chromium-" "-linux-i686" tag)
    || is_some (framed is_ascii_digit "chromium-" "-windows-i686" tag)

unfoldable pub validate_inputs : String → String → String → String → Result (Unit {0})
unfolding is_repository is_release_tag is_lower_sha
validate_inputs repository tag sha token =
    if not (is_repository repository)
    then raise value_error "Invalid GitHub repository"
    else if not (is_release_tag tag)
    then raise value_error "Invalid Chromium i686 release tag"
    else if not (is_lower_sha sha)
    then raise value_error "Invalid build SHA"
    else if token == ""
    then raise tag_error "GitHub token is required for release-tag provenance"
    else ok tt

-- What `ensure_exact_tag` returns
pub data TagOutcome : Type 0 where
  already_exact created_after_client_error created : TagOutcome

module _ (h : Host) where
  abbrev completed : Ended → Result Completed
  completed timed_out = raise tag_error "GitHub tag operation failed"
  completed broken = raise tag_error "GitHub tag operation failed"
  completed (exited c) = ok c

  unfoldable pub run_gh : List String → Act h.World Completed
  unfolding ◌>>=◌
  run_gh args = do ended ← start_gh h args 60; lift (completed ended)

  unfoldable pub is_404 : Completed → Bool
  unfolding concat reports_404
  is_404 c = reports_404 (concat (c.stderr ∷ "\n" ∷ c.stdout ∷ []))

  unfoldable pub json_or_error : Completed → Result Fields
  json_or_error c =
      if not (eqb c.returncode 0)
      then raise tag_error "gh api failed"
      else elim (h.loads (or_text c.stdout "{}")) [
        | none ↦ raise tag_error "GitHub returned invalid JSON"
        | some payload ↦ elim (as_object payload) [
          | none ↦ raise tag_error "GitHub returned non-object JSON"
          | some fields ↦ ok fields
        ]
      ]

  -- `payload.get("object") or {}`
  abbrev object_of : Option Json → Result Fields
  object_of value = if not (truthy value) then ok done else elim value [
    | none ↦ ok done
    | some j ↦ elim (as_object j) [
      | none ↦ raise tag_error "invalid object metadata"
      | some fields ↦ ok fields
    ]
  ]

  -- The type and the commit name of an answer's object
  unfoldable pub target_of : Fields → Result (String × String)
  unfolding get get_str truthy is_lower_sha
  target_of payload = and_then (object_of (get "object" payload)) λ object.
      if is_lower_sha (get_str h.repr "sha" object)
      then ok (get_str h.repr "type" object, get_str h.repr "sha" object)
      else raise tag_error "GitHub returned an invalid object SHA"

  unfoldable pub read_target : List String → Act h.World (String × String)
  unfolding ◌>>=◌
  read_target args = do result ← run_gh args; lift (and_then (json_or_error result) target_of)

  -- The loop that follows an annotated tag, with the steps that are left
  unfoldable pub follow : ℕ → String → String → String → Act h.World String
  unfolding ◌>>=◌ concat
  follow zero repository kind sha =
      if kind == "commit"
      then pure sha
      else if not (kind == "tag")
      then throw tag_error "targets unsupported object type"
      else throw tag_error "exceeded maximum dereference depth"
  follow (suc left) repository kind sha =
      if kind == "commit"
      then pure sha
      else if not (kind == "tag")
      then throw tag_error "targets unsupported object type"
      else do
        (kind', sha') ←
            read_target ("api" ∷ concat ("repos/" ∷ repository ∷ "/git/tags/" ∷ sha ∷ []) ∷ [])
        follow left repository kind' sha'

  unfoldable pub resolve_tag_commit : String → String → Act h.World (Option String)
  unfolding ◌>>=◌ concat
  resolve_tag_commit repository tag = do
    result ← run_gh ("api" ∷ concat ("repos/" ∷ repository ∷ "/git/ref/tags/" ∷ tag ∷ []) ∷ [])
    if not (eqb result.returncode 0)
        then (if is_404 result then pure none else throw tag_error "GitHub tag-ref lookup failed")
        else do
          (kind, sha) ← lift (and_then (json_or_error result) target_of)
          commit ← follow 5 repository kind sha
          pure (some commit)

  -- A round of `_confirm_tag`: an error and an absent tag both leave it open.
  abbrev pub look : String → String → Act h.World (Option String)
  look repository tag = recover tag_error (resolve_tag_commit repository tag) (λ _. pure none)

  abbrev pub pause : ℕ → Act h.World Unit
  pause zero = pure tt
  pause (suc left) = sleep_for h 2

  abbrev pub compare : String → Act h.World Unit → Option String → Act h.World Unit
  compare sha again none = again
  compare sha again (some commit) =
      if commit == sha then pure tt else throw tag_error "not validated build"

  unfoldable pub confirm_rounds : ℕ → String → String → String → Act h.World Unit
  unfolding ◌>>=◌
  confirm_rounds zero repository tag sha = throw tag_error "Could not confirm release tag"
  confirm_rounds (suc left) repository tag sha = do
    resolved ← look repository tag
    compare sha (do pause left; confirm_rounds left repository tag sha) resolved

  unfoldable pub confirm_tag : String → String → String → Act h.World Unit
  confirm_tag repository tag sha = confirm_rounds 5 repository tag sha

  abbrev pub create_command : String → String → String → List String
  create_command repository tag sha =
      "api"
      ∷ "--method"
      ∷ "POST"
      ∷ concat ("repos/" ∷ repository ∷ "/git/refs" ∷ [])
      ∷ "-f"
      ∷ concat ("ref=refs/tags/" ∷ tag ∷ [])
      ∷ "-f"
      ∷ concat ("sha=" ∷ sha ∷ [])
      ∷ []

  -- The creation, where `none` is an error of the client
  unfoldable pub create : String → String → String → Act h.World (Option Completed)
  unfolding ◌>>=◌
  create repository tag sha =
      recover tag_error (do result ← run_gh (create_command repository tag sha); pure (some result))
        (λ _. pure none)

  abbrev pub finish : String → String → String → Option Completed → Act h.World TagOutcome
  finish repository tag sha none = do
    confirm_tag repository tag sha
    pure created_after_client_error
  finish repository tag sha (some result) =
      if not (eqb result.returncode 0)
      then (do confirm_tag repository tag sha; pure created_after_client_error)
      else do _ ← lift (json_or_error result); confirm_tag repository tag sha; pure created

  abbrev pub settle : String → String → String → Option String → Act h.World TagOutcome
  settle repository tag sha none = do
    result ← create repository tag sha
    finish repository tag sha result
  settle repository tag sha (some existing) =
      if existing == sha then pure already_exact else throw tag_error "not validated build"

  unfoldable pub ensure_exact_tag : String → String → String → String → Act h.World TagOutcome
  unfolding ◌>>=◌
  ensure_exact_tag repository tag sha token = do
    _ ← lift (validate_inputs repository tag sha token)
    existing ← resolve_tag_commit repository tag
    settle repository tag sha existing
