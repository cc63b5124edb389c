-- ===== src/Cleanup/Bytes/Laws.antt =====
-- What a comparison of the downloaded assets has shown.
use chromium_compile.Prelude.{
  sym, subst, ℕ, String, ◌≡◌, refl, ◌==◌, Option, none, some, [], eqb, leb, ◌∙◌, ap,
}
use chromium_compile.Result.{raise-ne-ok, ok, ok-injective, and_then-eq-ok}
use chromium_compile.Host.{Host, State, lift, outside}
use chromium_compile.Host.Laws.{bind-eq-ok, lift-eq-ok, pure-eq-ok}
use chromium_compile.Text.Lines.{splitlines}
use chromium_compile.Text.Strip.{strip, lower_hex}
use chromium_compile.Cleanup.{Target, require}
use chromium_compile.Cleanup.Release.{
  ReleaseAsset, ReleaseIdentity, same_identity, read_release_identity,
}
use chromium_compile.Cleanup.Workflow.Laws.{require-eq}
use chromium_compile.Cleanup.Bytes.{
  Files, asset_named, lookup_asset, bare_digest, checksum_line, check_line, check_checksum,
  parse_release_manifest, value_of, check_fields, check_manifest, seen,
  run_release_archive_validator, fetch_file, compare_file, download_asset, path_of, package_name,
  required_bytes, cross_check, verify_release_archive_bytes,
}
use chromium_compile.Watcher.Manifest.{Pairs}

-- The sidecar was read, and is one line that names the package with this digest.
pub record Sidecar (found : Option String) (name sha : String) : Type 0 where
  pub text : String
  pub read : found ≡ some text
  pub digest : String
  pub line : checksum_line (strip text) ≡ some (digest, name)
  pub same : lower_hex digest ≡ lower_hex sha

-- The manifest was read, is of this version and build, and names this digest.
pub record Manifest (t : Target) (found : Option String) (sha : String) : Type 0 where
  pub text : String
  pub read : found ≡ some text
  pub fields : Pairs
  pub parsed : parse_release_manifest (splitlines text) [] ≡ ok fields
  pub version : value_of "version" fields ≡ t.version
  pub archive : lower_hex (value_of "package_sha256" fields) ≡ sha
  pub build : lower_hex (value_of "github_sha" fields) ≡ lower_hex t.expected_build_sha

lookup_asset-some :
    (name : String) (o : Option ReleaseAsset) (a : ReleaseAsset)
    → lookup_asset name o ≡ ok a
    → o ≡ some a
lookup_asset-some name none a e = absurd (raise-ne-ok _ _ a e)
lookup_asset-some name (some b) a e = cc

line-Sidecar :
    (name sha text : String) (line : Option (String × String))
    → checksum_line (strip text) ≡ line
    → check_line name sha line ≡ ok tt
    → Sidecar (some text) name sha
line-Sidecar name sha text none p e = absurd (raise-ne-ok _ _ tt e)
line-Sidecar name sha text (some (digest, found)) p e =
    let (_, a, b) = and_then-eq-ok (require (found == name) _) _ tt e in
    record {
      text = text;
      read = refl;
      digest = digest;
      line = p ∙ ap (λ n. some (digest, n)) (require-eq found name _ a);
      same = require-eq (lower_hex digest) (lower_hex sha) _ b;
    }

checksum-Sidecar :
    (name sha : String) (text : Option String)
    → check_checksum name sha text ≡ ok tt
    → Sidecar text name sha
unfolding check_checksum
checksum-Sidecar name sha none e = absurd (raise-ne-ok _ _ tt e)
checksum-Sidecar name sha (some text) e =
    line-Sidecar name sha text (checksum_line (strip text)) refl e

manifest-Manifest :
    (t : Target) (sha : String) (text : Option String)
    → check_manifest t sha text ≡ ok tt
    → Manifest t text sha
unfolding check_fields
manifest-Manifest t sha none e = absurd (raise-ne-ok _ _ tt e)
manifest-Manifest t sha (some text) e =
    let (fields, parsed, e₁) =
      and_then-eq-ok (parse_release_manifest (splitlines text) []) (check_fields t sha) tt e in
    let (_, _, e₂) =
      and_then-eq-ok (require (value_of "manifest_schema" fields == "2") _) _ tt e₁ in
    let (_, v, e₃) = and_then-eq-ok (require (value_of "version" fields == t.version) _) _ tt e₂ in
    let (_, _, e₄) = and_then-eq-ok (require (value_of "target_cpu" fields == "x86") _) _ tt e₃ in
    let (_, _, e₅) = and_then-eq-ok (require (value_of "target_os" fields == "linux") _) _ tt e₄ in
    let (_, p, b) =
      and_then-eq-ok (require (lower_hex (value_of "package_sha256" fields) == sha) _) _ tt e₅ in
    record {
      text = text;
      read = refl;
      fields = fields;
      parsed = parsed;
      version = require-eq (value_of "version" fields) t.version _ v;
      archive = require-eq (lower_hex (value_of "package_sha256" fields)) sha _ p;
      build =
          require-eq (lower_hex (value_of "github_sha" fields)) (lower_hex t.expected_build_sha) _
            b;
    }

module _ (h : Host) (files : Files h.World) where
  -- A file whose digest is the one that the release says of the asset, in lower case
  pub record Downloaded (identity : ReleaseIdentity) (name path sha : String) : Type 0 where
    pub asset : ReleaseAsset
    pub world : h.World
    pub known : asset_named name identity.assets ≡ some asset
    pub digest : lower_hex (files.digest_of path world) ≡ lower_hex (bare_digest asset.digest)
    pub result : lower_hex (files.digest_of path world) ≡ sha

  seen-eq :
      {A : Type 0} (look : h.World → A) (a : A) (s u : State h.World)
      → seen h files look s ≡ (ok a, u)
      → look s.world ≡ a
  unfolding outside
  seen-eq look a s u e = ok-injective (look s.world) a (ap (λ p. p.0) e)

  compare-Downloaded :
      (identity : ReleaseIdentity) (name path sha : String) (s u : State h.World)
      → compare_file h files identity.assets name path s ≡ (ok sha, u)
      → Downloaded identity name path sha
  unfolding compare_file
  compare-Downloaded identity name path sha s u e =
      let (actual, s₁, _, r₁) = bind-eq-ok (seen h files (files.size_of path)) _ s u sha e in
      let (asset, s₂, e₂, r₂) =
        bind-eq-ok (lift (lookup_asset name (asset_named name identity.assets))) _ s₁ u sha r₁ in
      let (_, s₃, _, r₃) =
        bind-eq-ok (lift (require (eqb actual asset.size_bytes) _)) _ s₂ u sha r₂ in
      let (digest, s₄, e₄, r₄) = bind-eq-ok (seen h files (files.digest_of path)) _ s₃ u sha r₃ in
      let (_, s₅, e₅, r₅) =
        bind-eq-ok (lift (require (lower_hex digest == lower_hex (bare_digest asset.digest)) _)) _
          s₄ u sha r₄ in
      let same =
        require-eq (lower_hex digest) (lower_hex (bare_digest asset.digest)) _
          (lift-eq-ok _ tt s₄ s₅ e₅).0 in
      let digest_is = ap lower_hex (seen-eq (files.digest_of path) digest s₃ s₄ e₄) in
      record {
        asset = asset;
        world = s₃.world;
        known = lookup_asset-some name _ asset (lift-eq-ok _ asset s₁ s₂ e₂).0;
        digest = digest_is ∙ same;
        result = digest_is ∙ (pure-eq-ok (lower_hex digest) sha s₅ u r₅).0;
      }

  download-Downloaded :
      (t : Target) (identity : ReleaseIdentity) (name path : String) (timeout : ℕ) (sha : String)
      (s u : State h.World)
      → download_asset h files t identity name path timeout s ≡ (ok sha, u)
      → Downloaded identity name path sha
  unfolding download_asset
  download-Downloaded t identity name path timeout sha s u e =
      let (_, v, _, r) =
        bind-eq-ok (fetch_file h files t identity.tag name path timeout) _ s u sha e in
      compare-Downloaded identity name path sha v u r

  -- The validator accepted the package; then the two other files were read and agree with the digest.
  pub record Crossed (t : Target) (sha : String) : Type 0 where
    pub start : State h.World
    pub safe : State h.World
    pub later : State h.World
    pub accepted :
        run_release_archive_validator h files (path_of h files "release-package.tar.xz") start
        ≡ (ok tt, safe)
    pub sidecar :
        Sidecar
          (files.read_text (path_of h files "release-package.sha256") safe.world)
          (package_name h files t.version)
          sha
    pub manifest :
        Manifest t (files.read_text (path_of h files "release-manifest.txt") later.world) sha

  cross-Crossed :
      (t : Target) (sha : String) (s u : State h.World)
      → cross_check h files t sha s ≡ (ok tt, u)
      → Crossed t sha
  unfolding cross_check
  cross-Crossed t sha s u e =
      let package_path = path_of h files "release-package.tar.xz" in
      let sidecar_text = files.read_text (path_of h files "release-package.sha256") in
      let manifest_text = files.read_text (path_of h files "release-manifest.txt") in
      let name = package_name h files t.version in
      let (_, s₁, e₁, r₁) =
        bind-eq-ok (run_release_archive_validator h files package_path) _ s u tt e in
      let (checksum, s₂, e₂, r₂) = bind-eq-ok (seen h files sidecar_text) _ s₁ u tt r₁ in
      let (_, s₃, e₃, r₃) = bind-eq-ok (lift (check_checksum name sha checksum)) _ s₂ u tt r₂ in
      let (manifest, s₄, e₄, r₄) = bind-eq-ok (seen h files manifest_text) _ s₃ u tt r₃ in
      record {
        start = s;
        safe = s₁;
        later = s₃;
        accepted = e₁;
        sidecar =
            subst (λ o. Sidecar o name sha) (sym (seen-eq sidecar_text checksum s₁ s₂ e₂))
              (checksum-Sidecar name sha checksum (lift-eq-ok _ tt s₂ s₃ e₃).0);
        manifest =
            subst (λ o. Manifest t o sha) (sym (seen-eq manifest_text manifest s₃ s₄ e₄))
              (manifest-Manifest t sha manifest
                (lift-eq-ok (check_manifest t sha manifest) tt s₄ u r₄).0);
      }

  -- The package is the one of the release, and the two other assets agree with it.
  pub record Matching (t : Target) (identity : ReleaseIdentity) : Type 0 where
    pub sha : String
    pub archive :
        Downloaded identity
          (package_name h files t.version)
          (path_of h files "release-package.tar.xz")
          sha
    pub crossed : Crossed t sha

  pub verify-Matching :
      (t : Target) (identity : ReleaseIdentity) (s u : State h.World)
      → verify_release_archive_bytes h files t identity s ≡ (ok tt, u)
      → Matching t identity
  unfolding verify_release_archive_bytes
  verify-Matching t identity s u e =
      let archive = package_name h files t.version in
      let path = path_of h files "release-package.tar.xz" in
      let (current, s₁, _, r₁) = bind-eq-ok (read_release_identity h t) _ s u tt e in
      let (_, s₂, _, r₂) =
        bind-eq-ok (lift (require (same_identity current identity) _)) _ s₁ u tt r₁ in
      let (needed, s₃, _, r₃) =
        bind-eq-ok (lift (required_bytes h files _ identity.assets)) _ s₂ u tt r₂ in
      let (free, s₄, _, r₄) = bind-eq-ok (seen h files files.free) _ s₃ u tt r₃ in
      let (_, s₅, _, r₅) = bind-eq-ok (lift (require (leb needed free) _)) _ s₄ u tt r₄ in
      let (sha, s₆, e₆, r₆) =
        bind-eq-ok (download_asset h files t identity archive path 600) _ s₅ u tt r₅ in
      let (_, s₇, _, r₇) = bind-eq-ok (download_asset h files t identity _ _ 120) _ s₆ u tt r₆ in
      let (_, s₈, _, r₈) = bind-eq-ok (download_asset h files t identity _ _ 120) _ s₇ u tt r₇ in
      record {
        sha = sha;
        archive = download-Downloaded t identity archive path 600 sha s₅ s₆ e₆;
        crossed = cross-Crossed t sha s₈ u r₈;
      }
