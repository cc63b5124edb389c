-- ===== src/Cleanup/Guard.antt =====
-- What must hold before each phase of a cleanup.
use chromium_compile.Prelude.{
  String, code, Bool, true, false, not, ◌&&◌, Option, none, some, List, [], ◌∷◌, ◌==◌, mem,
  if◌then◌else◌,
}
use chromium_compile.Result.{Result, ok, raise, cleanup_error}
use chromium_compile.Json.{Json, obj, Fields, get, get_str, concat}
use chromium_compile.Host.{Host, Act, pure, throw, lift, ◌>>=◌, ◌>>◌}
use chromium_compile.Dispatch.Lookup.{active_statuses}
use chromium_compile.Text.Digits.{is_ascii_digit}
use chromium_compile.Text.Pattern.{drop_prefix, dotted}
use chromium_compile.Text.Search.{is_space}
use chromium_compile.Cleanup.{Target, validate_inputs, list_of, read_object}
use chromium_compile.Cleanup.Release.{ReleaseIdentity, same_identity, read_release_identity}

abbrev ends_word : String → Bool
ends_word String.[] = true
ends_word (String.◌∷◌ c s) = is_space (code c)

-- `ACTIVE_RUN_VERSION_RE` at the head of a title, with the version
unfoldable pub active_version : String → Option String
unfolding drop_prefix dotted is_space is_ascii_digit
active_version title = elim (drop_prefix "Chromium i686 " title) [
  | none ↦ none
  | some rest ↦ elim (dotted is_ascii_digit 3 rest) [
    | none ↦ none
    | some (version, tail) ↦ if ends_word tail then some version else none
  ]
]

abbrev pub is_version_of : String → Option String → Bool
is_version_of version none = false
is_version_of version (some v) = v == version

module _ (h : Host) where
  -- The run is an active build of the version.
  abbrev pub is_active_build : String → Fields → Bool
  is_active_build version run =
      mem (get_str h.repr "status" run) active_statuses
      && is_version_of version (active_version (get_str h.repr "display_title" run))

  unfoldable pub refuse_active : String → List Json → Result (Unit {0})
  unfolding mem get_str active_version
  refuse_active version [] = ok tt
  refuse_active version (obj run ∷ runs) =
      let rest = refuse_active version runs in
      if is_active_build version run
      then raise cleanup_error "still has an active staged build"
      else rest
  refuse_active version (_ ∷ runs) =
      raise cleanup_error "active build listing contains malformed run metadata"

  unfoldable pub check_listing : String → Fields → Result (Unit {0})
  unfolding get refuse_active
  check_listing version payload = elim (list_of (get "workflow_runs" payload)) [
    | none ↦ raise cleanup_error "active build listing lacks a workflow_runs array"
    | some runs ↦ refuse_active version runs
  ]

  abbrev pub active_listing : Target → List String
  active_listing t =
      "api"
      ∷ concat (
          "repos/" ∷ t.repository ∷ "/actions/workflows/chromium-i686.yml/runs?branch="
          ∷ t.default_branch ∷ "&per_page=100" ∷ [])
      ∷ []

  unfoldable pub ensure_no_active_build : Target → Act h.World Unit
  unfolding ◌>>=◌
  ensure_no_active_build t = do
    payload ← read_object h (active_listing t)
    lift (check_listing t.version payload)

  -- `revalidate_release_identity`, and `verify_healthy_release` where there is no proof
  abbrev pub verify_release : Target → Bool → Option ReleaseIdentity → Act h.World Unit
  verify_release t dry_run none =
      if not dry_run
      then throw cleanup_error "requires a verified immutable release proof"
      else read_release_identity h t >>= (λ _. pure tt)
  verify_release t dry_run (some identity) = do
    current ← read_release_identity h t
    if same_identity current identity
        then pure tt
        else throw cleanup_error "release identity changed after immutable-byte proof"

  unfoldable pub guard_cleanup_phase : Target → Bool → Option ReleaseIdentity → Act h.World Unit
  unfolding ◌>>=◌
  guard_cleanup_phase t dry_run identity = do
    lift (validate_inputs t)
    verify_release t dry_run identity
    ensure_no_active_build t
