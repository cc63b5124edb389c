-- ===== src/Release/Tests.antt =====
-- Runs of the tag and the publisher at concrete inputs.
use chromium_compile.Prelude.{◌+◌, ◌≤◌, String, true, false, ◌≡◌, refl, List, [], ◌∷◌, diff}
use chromium_compile.Result.{ok, raise, tag_error}
use chromium_compile.Json.{
  Json, int, bool, str, arr, obj, field, done, of_list, get_str, concat, get, truthy,
}
use chromium_compile.Host.{Host, State, Ended, recover, sleep_for, start_gh, ◌>>=◌}
use chromium_compile.Host.Canned.{canned, out, failed, start}
use chromium_compile.Host.Tally.{tally}
use chromium_compile.Text.Pattern.{is_repository, is_tag, is_digest}
use chromium_compile.Text.Search.{has_folded, reports_404}
use chromium_compile.Text.Strip.{is_lower_sha, lower_hex}
use chromium_compile.Watcher.Manifest.{find}
use chromium_compile.Release.Tag.{
  created_after_client_error, is_release_tag, validate_inputs, run_gh, is_404, json_or_error,
  target_of, read_target, follow, resolve_tag_commit, confirm_rounds, confirm_tag, create,
  ensure_exact_tag,
}
use chromium_compile.Release.Tag.Laws.{Resolves, ensure_exact_tag-Resolves}
use chromium_compile.Release.Tag.Creation.{is_creation, ensure_exact_tag_once}
use chromium_compile.Release.Publish
use chromium_compile.Release.Publish.{
  Asset, already_published_identical, check_local, local_assets, view_of, release_view,
  remote_asset, remote_assets, missing_assets, validate_asset_state, establish, check_final,
  compare_published, publish_checked, publish_immutable_release,
}
use chromium_compile.Release.Publish.Laws.{IsPublished, publish_immutable_release-IsPublished}

tagging : Unit {0}
unfolding start_gh get_str concat get truthy recover sleep_for ◌>>=◌ is_repository is_lower_sha
    lower_hex reports_404 is_release_tag validate_inputs run_gh is_404 json_or_error target_of
    read_target follow resolve_tag_commit confirm_rounds confirm_tag create ensure_exact_tag
tagging = tt

publishing : Unit {0}
unfolding tagging diff is_tag is_digest has_folded find Publish.run_gh check_local local_assets
    view_of release_view remote_asset remote_assets missing_assets validate_asset_state establish
    check_final compare_published publish_checked publish_immutable_release
publishing = tt

abbrev sha : String
sha = "0123456789abcdef0123456789abcdef01234567"

abbrev tag : String
tag = "chromium-155.0.1.2-linux-i686"

abbrev ref_answer : Json
ref_answer =
    obj (field "object" (obj (field "type" (str "commit") (field "sha" (str sha) done))) done)

abbrev view_answer : Json
view_answer = obj (
    field "isDraft" (bool false) (
      field "isImmutable" (bool true) (
        field "assets"
          (arr (
            of_list (
              obj (
                field "name" (str "a.tar.xz") (
                  field "digest"
                    (str "sha256:0123456789abcdef0123456789abcdef0123456789abcdef0123456789abcdef")
                    (field "state" (str "uploaded") (field "size" (int 5) done))))
              ∷ [])))
          done)))

abbrev h : Host
h = canned (("{t}", ref_answer) ∷ ("{v}", view_answer) ∷ [])

-- The tag is absent, the client fails, and the tag is there at the second look.
abbrev racing : State (List Ended)
racing = start (failed "HTTP 404" ∷ failed "HTTP 502" ∷ failed "HTTP 404" ∷ out "{t}" ∷ [])

raced :
    ensure_exact_tag h "o/r" tag sha "token" racing
    ≡ (ok created_after_client_error, (ensure_exact_tag h "o/r" tag sha "token" racing).1)
unfolding tagging
raced = refl

other_commit :
    (ensure_exact_tag h "o/r" tag "ffffffffffffffffffffffffffffffffffffffff" "token"
      (start (out "{t}" ∷ []))).0
    ≡ raise tag_error "not validated build"
unfolding tagging
other_commit = refl

ensure_exact_tag-Resolves_example : Resolves h "o/r" tag sha
ensure_exact_tag-Resolves_example =
    ensure_exact_tag-Resolves h "o/r" tag sha "token" created_after_client_error racing
      (ensure_exact_tag h "o/r" tag sha "token" racing).1 raced

ensure_exact_tag_once_example :
    tally is_creation (ensure_exact_tag h "o/r" tag sha "token" racing).1.calls
    ≤ tally is_creation racing.calls + 1
ensure_exact_tag_once_example = ensure_exact_tag_once h "o/r" tag sha "token" racing

abbrev asset : Asset
asset = record {
  path = "out/a.tar.xz";
  name = "a.tar.xz";
  is_regular = true;
  digest = "sha256:0123456789abcdef0123456789abcdef0123456789abcdef0123456789abcdef";
}

abbrev there : State (List Ended)
there = start (out "{t}" ∷ out "{v}" ∷ out "{t}" ∷ [])

identical : publish_immutable_release h "o/r" tag sha "title" "notes" (asset ∷ []) "token" there ≡ (
  ok already_published_identical,
  (publish_immutable_release h "o/r" tag sha "title" "notes" (asset ∷ []) "token" there).1,
)
unfolding publishing
identical = refl

publish_immutable_release-IsPublished_example :
    (local : List Asset) × (local_assets (asset ∷ []) ≡ ok local)
    × IsPublished h "o/r" tag (lower_hex sha) "token" local
publish_immutable_release-IsPublished_example =
    publish_immutable_release-IsPublished h "o/r" tag sha "title" "notes" (asset ∷ []) "token"
      already_published_identical there
      (publish_immutable_release h "o/r" tag sha "title" "notes" (asset ∷ []) "token" there).1
      identical
