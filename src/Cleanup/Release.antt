-- ===== src/Cleanup/Release.antt =====
-- `read_release_identity`: what identifies the published release of a version.
use chromium_compile.Prelude.{
  ℕ, String, Bool, true, false, not, ◌&&◌, Option, none, some, List, [], ◌∷◌, ◌==◌, eqb, leb, ltb,
  keep_if, if◌then◌else◌,
}
use chromium_compile.Result.{Result, ok, raise, cleanup_error, and_then, map_ok}
use chromium_compile.Json.{Json, int, obj, Fields, get, get_str, concat}
use chromium_compile.Host.{Host, Act, pure, lift, ◌>>=◌}
use chromium_compile.Prune.{equals}
use chromium_compile.Text.Digits.{is_hex, all_chars, size}
use chromium_compile.Text.Pattern.{drop_prefix}
use chromium_compile.Text.Strip.{strip, lower_hex, is_sha}
use chromium_compile.Cleanup.{
  Target, require, is_bool, list_of, parse_github_timestamp, run_gh, read_object,
}

pub record ReleaseAsset : Type 0 where
  pub name : String
  pub digest : String
  pub size_bytes : ℕ
  pub created_at : ℕ
  pub updated_at : ℕ

pub record ReleaseIdentity : Type 0 where
  pub tag : String
  pub tag_commit : String
  pub published_at : ℕ
  pub assets : List ReleaseAsset

abbrev same_asset : ReleaseAsset → ReleaseAsset → Bool
same_asset a b =
    a.name == b.name
    && (a.digest == b.digest
        && (eqb a.size_bytes b.size_bytes
            && (eqb a.created_at b.created_at && eqb a.updated_at b.updated_at)))

abbrev same_assets : List ReleaseAsset → List ReleaseAsset → Bool
same_assets [] [] = true
same_assets (a ∷ as') (b ∷ bs) = same_asset a b && same_assets as' bs
same_assets _ _ = false

-- `==` of the frozen dataclass
unfoldable pub same_identity : ReleaseIdentity → ReleaseIdentity → Bool
same_identity i j =
    i.tag == j.tag
    && (i.tag_commit == j.tag_commit
        && (eqb i.published_at j.published_at && same_assets i.assets j.assets))

abbrev pub tag_of : String → String
tag_of version = concat ("chromium-" ∷ version ∷ "-linux-i686" ∷ [])

-- `_release_asset_limits`, with the names in the order in which they sort
abbrev pub asset_limits : String → List (String × ℕ)
asset_limits version =
    (concat (tag_of version ∷ "-manifest.txt" ∷ []), 4194304)
    ∷ (concat (tag_of version ∷ ".tar.xz" ∷ []), 17179869184)
    ∷ (concat (tag_of version ∷ ".tar.xz.sha256" ∷ []), 65536)
    ∷ []

abbrev limit_of : List (String × ℕ) → String → Option ℕ
limit_of [] name = none
limit_of ((n, limit) ∷ rest) name = if n == name then some limit else limit_of rest name

-- `SHA256_DIGEST_RE`
abbrev is_any_digest : Option String → Bool
is_any_digest none = false
is_any_digest (some digits) = all_chars is_hex digits && eqb (size digits) 64

abbrev bounded_size : ℕ → Option Json → Option ℕ
bounded_size limit (some (int n)) = if ltb 0 n && leb n limit then some n else none
bounded_size limit _ = none

module _ (h : Host) where
  -- One asset with a name that is required
  unfoldable pub parse_asset : String → ℕ → Fields → Result ReleaseAsset
  unfolding get get_str drop_prefix all_chars size lower_hex is_hex
  parse_asset name limit item =
      let digest = get_str h.repr "digest" item in
      and_then (require (is_any_digest (drop_prefix "sha256:" digest)) "lacks a verifiable digest")
        λ _.
          and_then (require (equals (get "state" item) "uploaded") "is not in uploaded state") λ _.
            and_then (parse_github_timestamp h (get "createdAt" item)) λ created_at.
              and_then (parse_github_timestamp h (get "updatedAt" item)) λ updated_at.
                and_then (require (leb created_at updated_at) "updatedAt precedes createdAt") λ _.
                  elim (bounded_size limit (get "size" item)) [
                    | none ↦ raise cleanup_error "size violates bounded contract"
                    | some n ↦ ok (record {
                      name = name;
                      digest = lower_hex digest;
                      size_bytes = n;
                      created_at = created_at;
                      updated_at = updated_at;
                    })
                  ]

  -- The loop over the assets; those with other names are passed over.
  unfoldable pub parse_assets : List (String × ℕ) → List Json → Result (List ReleaseAsset)
  unfolding get_str parse_asset
  parse_assets limits [] = ok []
  parse_assets limits (obj item ∷ items) =
      let rest = parse_assets limits items in
      elim (limit_of limits (get_str h.repr "name" item)) [
        | none ↦ rest
        | some limit ↦
            and_then (parse_asset (get_str h.repr "name" item) limit item)
              λ asset. map_ok (λ assets. asset ∷ assets) rest
      ]
  parse_assets limits (_ ∷ items) = raise cleanup_error "contains malformed asset metadata"

  abbrev only : List ReleaseAsset → Result ReleaseAsset
  only (asset ∷ []) = ok asset
  only _ = raise cleanup_error "does not have exactly one of each required asset"

  -- Exactly one of each required asset, sorted by name
  unfoldable pub pick_assets : List (String × ℕ) → List ReleaseAsset → Result (List ReleaseAsset)
  unfolding keep_if
  pick_assets [] assets = ok []
  pick_assets ((name, limit) ∷ limits) assets =
      and_then (only (keep_if (λ a. a.name == name) assets))
        λ asset. map_ok (λ rest. asset ∷ rest) (pick_assets limits assets)

  unfoldable pub check_release : String → Fields → Result (ℕ × List ReleaseAsset)
  unfolding get parse_assets pick_assets concat
  check_release version payload =
      and_then
        (require
          (is_bool false (get "isDraft" payload) && is_bool false (get "isPrerelease" payload))
          "is draft/prerelease")
        λ _. and_then (require (is_bool true (get "isImmutable" payload)) "is mutable") λ _.
          and_then (require (equals (get "tagName" payload) (tag_of version)) "unexpected tag name")
            λ _. and_then (parse_github_timestamp h (get "publishedAt" payload)) λ published_at.
              elim (list_of (get "assets" payload)) [
                | none ↦ raise cleanup_error "lacks an assets array"
                | some items ↦ and_then (parse_assets (asset_limits version) items) λ assets.
                    map_ok (λ picked. (published_at, picked))
                      (pick_assets (asset_limits version) assets)
              ]

  -- The commit that the tag names, which must be the expected one
  unfoldable pub check_commit : String → String → Result String
  unfolding is_sha lower_hex
  check_commit expected commit =
      if not (is_sha commit)
      then raise cleanup_error "did not resolve to a 40-hex commit"
      else if lower_hex commit == lower_hex expected
      then ok (lower_hex commit)
      else raise cleanup_error "resolves to another commit"

  unfoldable pub read_release_identity : Target → Act h.World ReleaseIdentity
  unfolding ◌>>=◌
  read_release_identity t = do
    payload ← read_object h (
        "release"
        ∷ "view"
        ∷ tag_of t.version
        ∷ "--repo"
        ∷ t.repository
        ∷ "--json"
        ∷ "isDraft,isPrerelease,isImmutable,assets,publishedAt,tagName"
        ∷ [])
    (published_at, assets) ← lift (check_release t.version payload)
    resolved ← run_gh h (
        "api"
        ∷ concat ("repos/" ∷ t.repository ∷ "/commits/" ∷ tag_of t.version ∷ [])
        ∷ "--jq"
        ∷ ".sha"
        ∷ [])
    commit ← lift (check_commit t.expected_build_sha (strip resolved.stdout))
    pure (record {
      tag = tag_of t.version;
      tag_commit = commit;
      published_at = published_at;
      assets = assets;
    })
