-- ===== src/Cleanup/Bytes.antt =====
-- `verify_release_archive_bytes`: the assets are downloaded and compared with what the release says of
-- them, and with one another.
pub mod Laws
pub mod Checksum
use chromium_compile.Prelude.{
  ℕ, ◌+◌, String, Bool, true, false, not, ◌&&◌, ◌||◌, Option, none, some, List, [], ◌∷◌, ◌==◌, eqb,
  leb, if◌then◌else◌,
}
use chromium_compile.Result.{Result, ok, raise, cleanup_error, key_error, and_then}
use chromium_compile.Json.{concat}
use chromium_compile.Host.{
  Host, Completed, Ended, exited, timed_out, broken, State, Act, pure, lift, outside, ◌>>=◌, ◌>>◌,
}
use chromium_compile.Text.Digits.{is_hex, some_chars, size}
use chromium_compile.Text.Lines.{splitlines, split_once}
use chromium_compile.Text.Pattern.{span, drop_prefix, is_name_char}
use chromium_compile.Text.Strip.{strip, lower_hex}
use chromium_compile.Cleanup.{Target, require, try_gh, succeeded}
use chromium_compile.Cleanup.Release.{
  ReleaseAsset, ReleaseIdentity, same_identity, tag_of, read_release_identity,
}
use chromium_compile.Watcher.Manifest.{Pairs, find, has, or_empty}

-- The temporary directory, and what the script asks of the files in it
pub record Files (W : Type 0) : Type 0 where
  pub root : String
  -- `shutil.disk_usage(root).free`
  pub free : W → ℕ
  -- `path.is_file() and not path.is_symlink()`, `path.stat().st_size`, `_sha256_file(path)`
  pub is_regular : String → W → Bool
  pub size_of : String → W → ℕ
  pub digest_of : String → W → String
  -- `path.read_text(encoding="utf-8")`, where `none` is OSError or UnicodeError
  pub read_text : String → W → Option String
  -- the process of validate_release_archive.py
  pub validator : String → W → Ended × W

-- `by_name[name]`
abbrev pub asset_named : String → List ReleaseAsset → Option ReleaseAsset
asset_named name [] = none
asset_named name (a ∷ as') =
    let rest = asset_named name as' in
    elim rest [ some b ↦ some b | none ↦ if a.name == name then some a else none ]

abbrev pub lookup_asset : String → Option ReleaseAsset → Result ReleaseAsset
lookup_asset name none = raise key_error name
lookup_asset name (some a) = ok a

-- `digest.removeprefix("sha256:")`
abbrev pub bare_digest : String → String
bare_digest s = elim (drop_prefix "sha256:" s) [ none ↦ s | some rest ↦ rest ]

abbrev pub with_name : String → Option String → Option (String × String)
with_name digest none = none
with_name digest (some name) =
    if eqb (size digest) 64 && some_chars is_name_char name then some (digest, name) else none

-- `CHECKSUM_LINE_RE`, with its two groups
unfoldable pub checksum_line : String → Option (String × String)
unfolding span drop_prefix some_chars size is_hex
checksum_line s = let (digest, rest) = span is_hex s in with_name digest (drop_prefix "  " rest)

abbrev pub check_line : String → String → Option (String × String) → Result (Unit {0})
check_line package_name package_sha none =
    raise cleanup_error "does not name exactly the expected package"
check_line package_name package_sha (some (digest, name)) =
    and_then (require (name == package_name) "does not name exactly the expected package") λ _.
      require (lower_hex digest == lower_hex package_sha)
        "does not match the immutable package bytes"

unfoldable pub check_checksum : String → String → Option String → Result (Unit {0})
unfolding strip checksum_line lower_hex
check_checksum package_name package_sha none =
    raise cleanup_error "could not read release checksum sidecar"
check_checksum package_name package_sha (some text) =
    check_line package_name package_sha (checksum_line (strip text))

-- `_parse_release_manifest`, from the lines on
unfoldable pub parse_release_manifest : List String → Pairs → Result Pairs
unfolding find split_once
parse_release_manifest [] fields = raise cleanup_error "lacks packaged_files section"
parse_release_manifest (line ∷ lines) fields =
    let skipped = parse_release_manifest lines fields in
    if line == "packaged_files:"
    then ok fields
    else if line == ""
    then skipped
    else elim (split_once b'=' line) [
      | none ↦ raise cleanup_error "contains malformed metadata line"
      | some (key, value) ↦
          let rest = parse_release_manifest lines ((key, value) ∷ fields) in
          if key == "" || has key fields
          then raise cleanup_error "contains invalid/duplicate key"
          else rest
    ]

-- `fields.get(key, "")`
abbrev pub value_of : String → Pairs → String
value_of key fields = or_empty (find key fields)

unfoldable pub check_fields : Target → String → Pairs → Result (Unit {0})
unfolding find lower_hex
check_fields t package_sha fields =
    let why : String = "does not match cleanup proof" in
    and_then (require (value_of "manifest_schema" fields == "2") why) λ _.
      and_then (require (value_of "version" fields == t.version) why) λ _.
        and_then (require (value_of "target_cpu" fields == "x86") why) λ _.
          and_then (require (value_of "target_os" fields == "linux") why) λ _.
            and_then (require (lower_hex (value_of "package_sha256" fields) == package_sha) why)
              λ _.
                require (lower_hex (value_of "github_sha" fields) == lower_hex t.expected_build_sha)
                  why

abbrev pub check_manifest : Target → String → Option String → Result (Unit {0})
check_manifest t package_sha none = raise cleanup_error "could not read release manifest"
check_manifest t package_sha (some text) =
    and_then (parse_release_manifest (splitlines text) []) (check_fields t package_sha)

abbrev pub validated : Ended → Result (Unit {0})
validated timed_out = raise cleanup_error "timed out after 600s"
validated broken = raise cleanup_error "could not run release archive validator"
validated (exited c) = require (eqb c.returncode 0) "validation failed"

module _ (h : Host) (files : Files h.World) where
  -- What the script sees of the files
  abbrev pub seen : {A : Type 0} → (h.World → A) → Act h.World A
  seen look = outside (λ w. (ok (look w), w))

  unfoldable pub run_release_archive_validator : String → Act h.World Unit
  unfolding ◌>>=◌
  run_release_archive_validator path = do
    ended ← outside (λ w. let (ended, w') = files.validator path w in (ok ended, w'))
    lift (validated ended)

  -- A download, which must make a regular file
  unfoldable pub fetch_file : Target → String → String → String → ℕ → Act h.World Unit
  unfolding ◌>>=◌
  fetch_file t tag name path timeout = do
    answer ←
        try_gh h
          ("release" ∷ "download" ∷ tag ∷ "--repo" ∷ t.repository ∷ "--pattern" ∷ name ∷ "--output"
            ∷ path ∷ [])
          timeout
    _ ← lift (succeeded h answer)
    regular ← seen (files.is_regular path)
    lift (require regular "did not materialize a regular asset")

  -- The file has the size and the digest of the asset; its digest is given.
  unfoldable pub compare_file : List ReleaseAsset → String → String → Act h.World String
  unfolding ◌>>=◌
  compare_file assets name path = do
    actual_size ← seen (files.size_of path)
    asset ← lift (lookup_asset name (asset_named name assets))
    lift (require (eqb actual_size asset.size_bytes) "size changed")
    digest ← seen (files.digest_of path)
    lift (
        require (lower_hex digest == lower_hex (bare_digest asset.digest))
          "does not match its GitHub SHA-256 digest")
    pure (lower_hex digest)

  unfoldable pub download_asset :
      Target → ReleaseIdentity → String → String → ℕ → Act h.World String
  unfolding ◌>>=◌
  download_asset t identity name path timeout = do
    fetch_file t identity.tag name path timeout
    compare_file identity.assets name path

  abbrev pub path_of : String → String
  path_of name = concat (files.root ∷ "/" ∷ name ∷ [])

  abbrev pub package_name : String → String
  package_name version = concat (tag_of version ∷ ".tar.xz" ∷ [])

  abbrev pub checksum_name : String → String
  checksum_name version = concat (tag_of version ∷ ".tar.xz.sha256" ∷ [])

  abbrev pub manifest_name : String → String
  manifest_name version = concat (tag_of version ∷ "-manifest.txt" ∷ [])

  -- `sum(by_name[name].size_bytes for name, _ in downloads)`
  unfoldable pub required_bytes : List String → List ReleaseAsset → Result ℕ
  required_bytes [] assets = ok 0
  required_bytes (name ∷ names) assets =
      and_then (lookup_asset name (asset_named name assets))
        λ a. and_then (required_bytes names assets) λ rest. ok (a.size_bytes + rest)

  -- The comparisons between the files, after the downloads
  unfoldable pub cross_check : Target → String → Act h.World Unit
  unfolding ◌>>=◌
  cross_check t package_sha = do
    run_release_archive_validator (path_of "release-package.tar.xz")
    checksum ← seen (files.read_text (path_of "release-package.sha256"))
    lift (check_checksum (package_name t.version) package_sha checksum)
    manifest ← seen (files.read_text (path_of "release-manifest.txt"))
    lift (check_manifest t package_sha manifest)

  unfoldable pub verify_release_archive_bytes : Target → ReleaseIdentity → Act h.World Unit
  unfolding ◌>>=◌
  verify_release_archive_bytes t identity = do
    current ← read_release_identity h t
    lift (require (same_identity current identity) "changed before immutable-byte validation")
    needed ← lift (
        required_bytes
          (package_name t.version ∷ checksum_name t.version ∷ manifest_name t.version ∷ [])
          identity.assets)
    free ← seen files.free
    lift (require (leb needed free) "insufficient temporary-disk space")
    package_sha ←
        download_asset t identity (package_name t.version) (path_of "release-package.tar.xz") 600
    _ ← download_asset t identity (checksum_name t.version) (path_of "release-package.sha256") 120
    _ ← download_asset t identity (manifest_name t.version) (path_of "release-manifest.txt") 120
    cross_check t package_sha
