-- ===== src/Watcher/Health/Tests.antt =====
-- A release at concrete inputs.
use chromium_compile.Prelude.{String, true, false, ◌≡◌, refl, List, [], ◌∷◌}
use chromium_compile.Result.{ok}
use chromium_compile.Json.{
  Json, int, bool, str, arr, obj, Fields, field, done, of_list, objects, get_str, concat, get,
  truthy, show,
}
use chromium_compile.Host.{Host, State, Ended, recover, sleep_for, ◌>>=◌}
use chromium_compile.Host.Canned.{canned, out, start}
use chromium_compile.Text.Lines.{splitlines, split_once, utf8_size}
use chromium_compile.Text.Pattern.{is_digest}
use chromium_compile.Text.Strip.{lower_hex, is_lower_sha}
use chromium_compile.Watcher.Gh.{
  Settings, gh_json, run_gh, json_attempts, read_json, read_text, text_attempts, gh_resource_text,
}
use chromium_compile.Watcher.Lane.{linux_lane}
use chromium_compile.Watcher.Manifest.{
  parse_fields, find, is_key, read_fields, asset_identity, check_bytes, manifest_sha,
  read_release_manifest_build_sha, tag_commit, read_release_tag_commit, verify_release_provenance,
}
use chromium_compile.Watcher.Manifest.Laws.{IsManifest, read_release_manifest_build_sha-IsManifest}
use chromium_compile.Watcher.Rest.{list_rest_items, fetch_rest, collect}
use chromium_compile.Watcher.Health.{
  Health, tag_version, expected_assets, find_asset, has_duplicate, is_positive, is_complete_asset,
  all_complete, is_complete, assets_of, is_immutable, is_candidate, has_provenance, is_healthy,
  judge_all, list_release_health, blocked_by, issue_version,
}
use chromium_compile.Watcher.Health.Survey.{IsSurvey, list_release_health-IsSurvey}

reading : Unit {0}
unfolding objects get_str concat get truthy show recover sleep_for ◌>>=◌ splitlines split_once
    utf8_size is_digest lower_hex is_lower_sha gh_json run_gh json_attempts read_json read_text
    text_attempts gh_resource_text parse_fields find is_key read_fields asset_identity check_bytes
    manifest_sha read_release_manifest_build_sha tag_commit read_release_tag_commit
    verify_release_provenance list_rest_items fetch_rest collect tag_version expected_assets
    find_asset has_duplicate is_positive is_complete_asset all_complete is_complete assets_of
    is_immutable is_candidate has_provenance is_healthy judge_all list_release_health blocked_by
    issue_version
reading = tt

abbrev settings : Settings
settings = record {
  gh_timeout_seconds = 30;
  gh_read_attempts = 1;
  run_history_days = 1095;
  run_history_max_pages = 1;
  rest_max_pages = 1;
  version_api_max_pages = 2;
}

abbrev hex : String
hex = "0123456789abcdef0123456789abcdef0123456789abcdef0123456789abcdef"

abbrev sha : String
sha = "0123456789abcdef0123456789abcdef01234567"

abbrev text : String
text =
    "version=155.0.1.2\ntarget_cpu=x86\ntarget_os=linux\ngithub_sha=0123456789abcdef0123456789abcdef01234567\npackaged_files:\nchrome"

abbrev asset : String → Fields
asset name = field "name" (str name) (
    field "state" (str "uploaded") (
      field "id" (int 7) (
        field "size" (int 123) (
          field "digest"
            (str "sha256:0123456789abcdef0123456789abcdef0123456789abcdef0123456789abcdef") done))))

abbrev release : Fields
release = field "tag_name" (str "chromium-155.0.1.2-linux-i686") (
    field "draft" (bool false) (
      field "prerelease" (bool false) (
        field "immutable" (bool true) (
          field "assets"
            (arr (
              of_list (
                obj (asset "chromium-155.0.1.2-linux-i686.tar.xz")
                ∷ obj (asset "chromium-155.0.1.2-linux-i686.tar.xz.sha256")
                ∷ obj (asset "chromium-155.0.1.2-linux-i686-manifest.txt")
                ∷ [])))
            done))))

abbrev table : List (String × Json)
table = ("[r]", arr (of_list (obj release ∷ []))) ∷ ("{c}", obj (field "sha" (str sha) done)) ∷ []

abbrev h : Host
h = record (canned table) { sha256 = λ s. hex }

abbrev before : State (List Ended)
before = start (out "[r]" ∷ out text ∷ out "{c}" ∷ [])

abbrev health : Health
health = record { healthy = "155.0.1.2" ∷ []; broken = [] }

abbrev after : State (List Ended)
after = (list_release_health h settings "o/r" linux_lane [] before).1

healthy_read : list_release_health h settings "o/r" linux_lane [] before ≡ (ok health, after)
unfolding reading
healthy_read = refl

list_release_health-IsSurvey_example : IsSurvey h settings "o/r" linux_lane [] before health
list_release_health-IsSurvey_example =
    list_release_health-IsSurvey h settings "o/r" linux_lane [] health before after healthy_read

abbrev with_text : State (List Ended)
with_text = start (out text ∷ [])

abbrev manifest : Fields
manifest = asset "chromium-155.0.1.2-linux-i686-manifest.txt"

manifest_read :
    read_release_manifest_build_sha h settings "o/r" "155.0.1.2" manifest linux_lane with_text ≡ (
      ok sha,
      (read_release_manifest_build_sha h settings "o/r" "155.0.1.2" manifest linux_lane
          with_text).1,
    )
unfolding reading
manifest_read = refl

read_release_manifest_build_sha-IsManifest_example :
    IsManifest h settings "o/r" "155.0.1.2" manifest linux_lane sha
read_release_manifest_build_sha-IsManifest_example =
    read_release_manifest_build_sha-IsManifest h settings "o/r" "155.0.1.2" manifest linux_lane sha
      with_text
      (read_release_manifest_build_sha h settings "o/r" "155.0.1.2" manifest linux_lane with_text).1
      manifest_read

abbrev issue : String → Fields
issue title = field "title" (str title) done

blocked_test :
    blocked_by h linux_lane (
      issue "[i686-port] Chromium 155.0.1.2 requires maintenance"
      ∷ issue "[windows-i686-port] Chromium 154.0.1.2 requires maintenance"
      ∷ [])
    ≡ "155.0.1.2" ∷ []
unfolding reading
blocked_test = refl
