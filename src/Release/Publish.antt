-- ===== src/Release/Publish.antt =====
-- scripts/github_immutable_release.py
pub mod Laws
use chromium_compile.Prelude.{
  ℕ, zero, suc, String, Bool, true, false, not, ◌&&◌, ◌||◌, Option, none, some, List, [], ◌∷◌, ◌==◌,
  ltb, eqb, if◌then◌else◌, is_empty, map, diff,
}
use chromium_compile.Result.{Result, ok, raise, immutable_error, tag_error, and_then, map_ok}
use chromium_compile.Json.{Json, bool, obj, Fields, as_object, as_list, get, get_str}
use chromium_compile.Host.{
  Host, Completed, Ended, exited, timed_out, broken, Act, pure, throw, lift, recover, start_gh,
  ◌>>=◌,
}
use chromium_compile.Text.Pattern.{is_repository, is_tag, is_digest}
use chromium_compile.Text.Search.{has_folded}
use chromium_compile.Text.Strip.{is_lower_sha, lower_hex}
use chromium_compile.Watcher.Gh.{or_text}
use chromium_compile.Watcher.Manifest.{Pairs, find, has, positive_int}
use chromium_compile.Release.Tag.{TagOutcome, ensure_exact_tag}

-- A file to publish: its path, its name, whether it is a non-empty regular file, and `_sha256` of it
pub record Asset : Type 0 where
  pub path : String
  pub name : String
  pub is_regular : Bool
  pub digest : String

abbrev pub asset_names : List Asset → List String
asset_names assets = map (λ a. a.name) assets

-- The answer of `gh release view`
pub record View : Type 0 where
  pub is_draft : Bool
  pub is_immutable : Bool
  pub assets : List Json

pub data Published : Type 0 where
  already_published_identical published_immutable : Published

has_asset : String → List Asset → Bool
has_asset name [] = false
has_asset name (a ∷ assets) = (a.name == name) || has_asset name assets

-- The loop of `_local_assets`, with the assets before
unfoldable pub check_local : List Asset → List Asset → Result (Unit {0})
unfolding has_asset
check_local [] before = ok tt
check_local (a ∷ assets) before =
    let rest = check_local assets (a ∷ before) in
    if not a.is_regular
    then raise immutable_error "Release asset is not a non-empty regular file"
    else if has_asset a.name before
    then raise immutable_error "Duplicate local release asset name"
    else rest

unfoldable pub local_assets : List Asset → Result (List Asset)
unfolding check_local
local_assets [] = raise immutable_error "At least one release asset is required"
local_assets (a ∷ assets) = map_ok (λ _. a ∷ assets) (check_local (a ∷ assets) [])

abbrev is_some : Option ℕ → Bool
is_some none = false
is_some (some _) = true

module _ (h : Host) where
  abbrev completed : Ended → Result Completed
  completed timed_out = raise immutable_error "gh could not complete"
  completed broken = raise immutable_error "gh could not complete"
  completed (exited c) = ok c

  -- `_run_gh(args, check=False)`
  unfoldable pub run_gh : List String → ℕ → Act h.World Completed
  unfolding ◌>>=◌
  run_gh args timeout = do ended ← start_gh h args timeout; lift (completed ended)

  abbrev a_bool : Option Json → Result Bool
  a_bool (some (bool b)) = ok b
  a_bool _ = raise immutable_error "GitHub CLI did not expose release authority fields"

  abbrev a_list : Option Json → Result (List Json)
  a_list none = raise immutable_error "GitHub release response lacks assets list"
  a_list (some j) = elim (as_list j) [
    | none ↦ raise immutable_error "GitHub release response lacks assets list"
    | some js ↦ ok js
  ]

  unfoldable pub view_of : Completed → Result (Option View)
  unfolding get has_folded
  view_of c =
      if not (eqb c.returncode 0)
      then (if has_folded "not found" (or_text c.stderr c.stdout)
          then ok none
          else raise immutable_error "Could not inspect release")
      else elim (h.loads c.stdout) [
        | none ↦ raise immutable_error "gh release view returned malformed JSON"
        | some payload ↦ elim (as_object payload) [
          | none ↦ raise immutable_error "gh release view returned non-object JSON"
          | some fields ↦ and_then (a_bool (get "isDraft" fields)) λ is_draft.
              and_then (a_bool (get "isImmutable" fields)) λ is_immutable.
                and_then (a_list (get "assets" fields)) λ assets. ok (
                  some
                    (record { is_draft = is_draft; is_immutable = is_immutable; assets = assets }))
        ]
      ]

  unfoldable pub release_view : String → String → Act h.World (Option View)
  unfolding ◌>>=◌
  release_view repository tag = do
    result ←
        run_gh
          ("release" ∷ "view" ∷ tag ∷ "--repo" ∷ repository ∷ "--json"
            ∷ "isDraft,isImmutable,targetCommitish,assets" ∷ [])
          120
    lift (view_of result)

  unfoldable pub remote_asset : Fields → Pairs → Result Pairs
  unfolding get get_str find is_digest
  remote_asset raw resolved =
      let name = get_str h.repr "name" raw in
      let digest = get_str h.repr "digest" raw in
      if (name == "") || has name resolved
      then raise immutable_error "Release contains duplicate/empty asset name"
      else if not (get_str h.repr "state" raw == "uploaded")
          || not (is_some (positive_int (get "size" raw)))
      then raise immutable_error "Release asset is not a complete upload"
      else if is_digest digest
      then ok ((name, digest) ∷ resolved)
      else raise immutable_error "Release asset lacks GitHub SHA-256 digest authority"

  -- `_remote_assets`, with the assets before
  unfoldable pub remote_assets : List Json → Pairs → Result Pairs
  unfolding remote_asset
  remote_assets [] resolved = ok resolved
  remote_assets (raw ∷ raws) resolved = elim (as_object raw) [
    | none ↦ raise immutable_error "Release contains malformed asset metadata"
    | some fields ↦ and_then (remote_asset fields resolved) (remote_assets raws)
  ]

  abbrev pub pair_names : Pairs → List String
  pair_names pairs = map (λ p. p.0) pairs

  -- The loop over the local assets, which returns those that are missing
  unfoldable pub missing_assets : Bool → Pairs → List Asset → Result (List Asset)
  unfolding find
  missing_assets allow_missing remote [] = ok []
  missing_assets allow_missing remote (a ∷ assets) =
      let rest = missing_assets allow_missing remote assets in
      elim (find a.name remote) [
        | none ↦
            if allow_missing
            then map_ok (λ missing. a ∷ missing) rest
            else raise immutable_error "Release is missing required asset"
        | some digest ↦
            if digest == a.digest
            then rest
            else raise immutable_error "Release asset differs from validated local bytes"
      ]

  unfoldable pub validate_asset_state : View → List Asset → Bool → Result (List Asset)
  unfolding remote_assets missing_assets diff
  validate_asset_state view local allow_missing = and_then (remote_assets view.assets []) λ remote.
      if is_empty (diff (pair_names remote) (asset_names local))
      then missing_assets allow_missing remote local
      else raise immutable_error "Release contains unexpected assets"

  abbrev pub present : Option View → String → Result View
  present none why = raise immutable_error why
  present (some view) why = ok view

  abbrev pub require : Bool → String → Result (Unit {0})
  require test why = if test then ok tt else raise immutable_error why

  module _ (repository tag sha token : String) where
    unfoldable pub upload : List Asset → Asset → Act h.World Unit
    unfolding ◌>>=◌ find
    upload local a = do
      _ ← run_gh ("release" ∷ "upload" ∷ tag ∷ a.path ∷ "--repo" ∷ repository ∷ []) 900
      seen ← release_view repository tag
      view ← lift (present seen "Draft release disappeared during asset upload")
      _ ← lift (validate_asset_state view local true)
      remote ← lift (remote_assets view.assets [])
      lift (require (has a.name remote) "Could not establish uploaded asset")

    unfoldable pub upload_all : List Asset → List Asset → Act h.World Unit
    unfolding ◌>>=◌
    upload_all local [] = pure tt
    upload_all local (a ∷ missing) = do _ ← upload local a; upload_all local missing

    -- The draft that is there, or the one that this call creates
    unfoldable pub establish : String → String → Option View → Act h.World View
    unfolding ◌>>=◌
    establish title notes (some view) = pure view
    establish title notes none = do
      _ ←
          run_gh
            ("release" ∷ "create" ∷ tag ∷ "--repo" ∷ repository ∷ "--draft" ∷ "--title" ∷ title
              ∷ "--notes" ∷ notes ∷ [])
            120
      seen ← release_view repository tag
      view ← lift (present seen "Could not establish draft release")
      _ ← lift (require view.is_draft "A non-draft release appeared during draft creation")
      pure view

    -- The last two checks of either branch
    unfoldable pub check_final : List Asset → View → Published → Act h.World Published
    unfolding ◌>>=◌
    check_final local view outcome = do
      _ ← lift (validate_asset_state view local false)
      _ ← ensure_exact_tag h repository tag sha token
      pure outcome

    -- A release that is published already is only compared.
    unfoldable pub compare_published : List Asset → View → Act h.World Published
    unfolding ◌>>=◌
    compare_published local view = do
      _ ← lift (require view.is_immutable "Existing published release is mutable")
      check_final local view already_published_identical

    -- The steps before a draft is published: it is completed, and checked once more.
    unfoldable pub prepare : List Asset → View → Act h.World Unit
    unfolding ◌>>=◌
    prepare local view = do
      _ ←
          lift
            (require (not view.is_immutable) "GitHub reported an impossible immutable draft state")
      missing ← lift (validate_asset_state view local true)
      _ ← upload_all local missing
      seen ← release_view repository tag
      ready ← lift (present seen "Draft release state changed before publication")
      _ ← lift (require ready.is_draft "Draft release state changed before publication")
      _ ← lift (validate_asset_state ready local false)
      _ ← ensure_exact_tag h repository tag sha token
      pure tt

    -- The publication, which counts only by what the release shows afterwards
    unfoldable pub transition : List Asset → Act h.World Published
    unfolding ◌>>=◌
    transition local = do
      _ ← run_gh ("release" ∷ "edit" ∷ tag ∷ "--repo" ∷ repository ∷ "--draft=false" ∷ []) 120
      last ← release_view repository tag
      final ← lift (present last "did not become GitHub-immutable")
      _ ←
          lift
            (require (not final.is_draft && final.is_immutable) "did not become GitHub-immutable")
      check_final local final published_immutable

    unfoldable pub publish_draft : List Asset → View → Act h.World Published
    unfolding ◌>>=◌
    publish_draft local view = do _ ← prepare local view; transition local

    abbrev pub conclude : List Asset → View → Act h.World Published
    conclude local view =
        if view.is_draft then publish_draft local view else compare_published local view

    abbrev pub accepted : Result (Unit {0})
    accepted = and_then (require (is_repository repository) "Invalid repository") λ _.
        and_then (require (is_tag tag) "Invalid release tag") λ _.
          and_then (require (is_lower_sha sha) "Release SHA must be exactly 40 characters")
            λ _. require (not (token == "")) "GH_TOKEN is required"

    unfoldable pub publish_checked : String → String → List Asset → Act h.World Published
    unfolding ◌>>=◌ is_repository is_tag is_lower_sha local_assets
    publish_checked title notes assets = do
      _ ← lift accepted
      local ← lift (local_assets assets)
      _ ←
          recover tag_error (ensure_exact_tag h repository tag sha token)
            (λ why. throw immutable_error why)
      seen ← release_view repository tag
      view ← establish title notes seen
      conclude local view

  -- `sha` is lowered first.
  unfoldable pub publish_immutable_release :
      String → String → String → String → String → List Asset → String → Act h.World Published
  unfolding lower_hex
  publish_immutable_release repository tag sha title notes assets token =
      publish_checked repository tag (lower_hex sha) token title notes assets
