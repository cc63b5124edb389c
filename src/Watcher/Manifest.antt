-- ===== src/Watcher/Manifest.antt =====
-- scripts/chromium_stable_watcher.py: the manifest of a release and the commit of its tag.
pub mod Laws
use chromium_compile.Prelude.{
  ℕ, zero, suc, ◌*◌, String, code, Bool, true, false, not, ◌&&◌, ◌||◌, Option, none, some, List, [],
  ◌∷◌, ◌==◌, eqb, ltb, leb, if◌then◌else◌,
}
use chromium_compile.Result.{Result, ok, raise, value_error, watcher_error, and_then}
use chromium_compile.Json.{Json, int, Fields, as_object, get, get_str, concat, show}
use chromium_compile.Host.{Host, Act, pure, throw, lift, ◌>>=◌}
use chromium_compile.Text.Digits.{is_ascii_digit, all_chars}
use chromium_compile.Text.Lines.{splitlines, split_once, utf8_size}
use chromium_compile.Text.Pattern.{is_digest}
use chromium_compile.Text.Strip.{lower_hex, is_lower_sha}
use chromium_compile.Watcher.Gh.{Settings, gh_resource_text}
use chromium_compile.Watcher.Lane.{LaneConfig}

abbrev pub release_manifest_max_bytes : ℕ
release_manifest_max_bytes = 64 * 1024

-- `[a-z]` and `[a-z0-9_]`
abbrev is_letter : ℕ → Bool
is_letter c = leb b'a' c && leb c b'z'

-- `[a-z][a-z0-9_]*`
unfoldable pub is_key : String → Bool
unfolding all_chars is_ascii_digit
is_key String.[] = false
is_key (String.◌∷◌ c s) =
    is_letter (code c) && all_chars (λ d. is_letter d || is_ascii_digit d || eqb d b'_') s

-- The `fields` of the manifest, the latest first; no key occurs twice.
abbrev pub Pairs : Type 0
Pairs = List (String × String)

unfoldable pub find : String → Pairs → Option String
find key [] = none
find key ((k, v) ∷ pairs) = let rest = find key pairs in if k == key then some v else rest

abbrev pub has : String → Pairs → Bool
has key pairs = elim (find key pairs) [ none ↦ false | some _ ↦ true ]

abbrev required_seen : Pairs → Bool
required_seen pairs =
    has "version" pairs && has "target_cpu" pairs && has "target_os" pairs && has "github_sha" pairs

-- The loop over the lines. (`rstrip("\r")` takes nothing off, as `splitlines` ends a line there.)
unfoldable pub parse_fields : List String → Pairs → Result Pairs
unfolding find is_key split_once
parse_fields [] fields = ok fields
parse_fields (line ∷ lines) fields =
    let skipped = parse_fields lines fields in
    if line == ""
    then skipped
    else if line == "packaged_files:"
    then ok fields
    else elim (split_once b'=' line) [
      | none ↦
          if required_seen fields
          then ok fields
          else raise value_error "release manifest contains malformed metadata line"
      | some (key, value) ↦
          let rest = parse_fields lines ((key, value) ∷ fields) in
          if not (is_key key) || has key fields
          then raise value_error "release manifest contains invalid/duplicate key"
          else rest
    ]

abbrev pub or_empty : Option String → String
or_empty none = ""
or_empty (some s) = s

-- `fields.get(key) == value`
abbrev pub is_field : Pairs → String → String → Bool
is_field fields key value = elim (find key fields) [ none ↦ false | some v ↦ v == value ]

-- What the fields have to say, and the commit that they name
unfoldable pub read_fields : String → LaneConfig → Pairs → Result String
unfolding find lower_hex is_lower_sha
read_fields version lane fields =
    let build_sha = lower_hex (or_empty (find "github_sha" fields)) in
    if not (is_field fields "version" version)
    then raise value_error "release manifest version does not match tag version"
    else if not (is_field fields "target_cpu" "x86")
        || not (is_field fields "target_os" lane.target_os)
    then raise value_error "release manifest does not describe the x86 target"
    else if is_lower_sha build_sha
    then ok build_sha
    else raise value_error "release manifest github_sha is missing or malformed"

-- `isinstance(value, int) and not isinstance(value, bool) and value > 0`
abbrev pub positive_int : Option Json → Option ℕ
positive_int (some (int (suc n))) = some (suc n)
positive_int _ = none

abbrev some_int : Option Json → String → Result ℕ
some_int value why = elim (positive_int value) [ none ↦ raise value_error why | some n ↦ ok n ]

module _ (h : Host) (settings : Settings) (repository : String) where
  -- The checks of the asset's metadata: its id, its size and its digest
  unfoldable pub asset_identity : Fields → Result (ℕ × ℕ × String)
  unfolding get get_str is_digest
  asset_identity asset =
      let digest = get_str h.repr "digest" asset in
      and_then (some_int (get "id" asset) "release manifest asset lacks a positive numeric id")
        λ asset_id.
          and_then
            (some_int (get "size" asset) "release manifest asset lacks a positive numeric size")
            λ size.
              if ltb release_manifest_max_bytes size
              then raise value_error "release manifest is above the watcher limit"
              else if is_digest digest
              then ok (asset_id, size, digest)
              else raise value_error "release manifest asset lacks a valid SHA-256 digest"

  -- What was downloaded has to be what the metadata describe.
  unfoldable pub check_bytes : ℕ → String → String → Result (Unit {0})
  unfolding utf8_size
  check_bytes size digest text =
      if not (eqb (utf8_size text) size)
      then raise value_error "release manifest byte length changed"
      else if concat ("sha256:" ∷ h.sha256 text ∷ []) == digest
      then ok tt
      else raise value_error "release manifest digest changed"

  unfoldable pub manifest_sha : String → LaneConfig → ℕ → String → String → Result String
  unfolding parse_fields splitlines
  manifest_sha version lane size digest text =
      and_then (check_bytes size digest text)
        λ _. and_then (parse_fields (splitlines text) []) (read_fields version lane)

  abbrev pub asset_command : ℕ → List String
  asset_command asset_id =
      "api"
      ∷ "-H"
      ∷ "Accept: application/octet-stream"
      ∷ concat ("repos/" ∷ repository ∷ "/releases/assets/" ∷ show asset_id ∷ [])
      ∷ []

  unfoldable pub read_release_manifest_build_sha : String → Fields → LaneConfig → Act h.World String
  unfolding ◌>>=◌
  read_release_manifest_build_sha version asset lane = do
    (asset_id, size, digest) ← lift (asset_identity asset)
    text ← gh_resource_text h settings (asset_command asset_id)
    lift (manifest_sha version lane size digest text)

  abbrev pub release_tag : String → LaneConfig → String
  release_tag version lane = concat ("chromium-" ∷ version ∷ "-" ∷ lane.tag_suffix ∷ [])

  unfoldable pub tag_commit : String → Result String
  unfolding get_str lower_hex is_lower_sha
  tag_commit text = elim (h.loads text) [
    | none ↦ raise watcher_error "GitHub returned invalid commit JSON for release tag"
    | some payload ↦ elim (as_object payload) [
      | none ↦ raise watcher_error "GitHub returned non-object commit JSON for release tag"
      | some fields ↦
          let commit = lower_hex (get_str h.repr "sha" fields) in
          if is_lower_sha commit
          then ok commit
          else raise watcher_error "GitHub returned invalid commit SHA for release tag"
    ]
  ]

  unfoldable pub read_release_tag_commit : String → LaneConfig → Act h.World String
  unfolding ◌>>=◌
  read_release_tag_commit version lane = do
    text ← gh_resource_text h settings (
        "api"
        ∷ concat ("repos/" ∷ repository ∷ "/commits/" ∷ h.quote (release_tag version lane) ∷ [])
        ∷ [])
    lift (tag_commit text)

  unfoldable pub verify_release_provenance : String → Fields → LaneConfig → Act h.World Unit
  unfolding ◌>>=◌
  verify_release_provenance version manifest_asset lane = do
    manifest_sha ← read_release_manifest_build_sha version manifest_asset lane
    tag_sha ← read_release_tag_commit version lane
    if tag_sha == manifest_sha
        then pure tt
        else throw value_error "release tag resolves to another commit"
