-- ===== src/Watcher/Manifest/Laws.antt =====
-- What a verified release rests on.
use chromium_compile.Prelude.{
  ℕ, ◌≤◌, String, Bool, true, ◌≡◌, Option, some, [], ◌∷◌, ◌==◌, eq_iff, arith, inl, inr, Bool-cases,
  Option-cases, sym, ap, subst, ltb, if◌then◌else◌, ◌∙◌,
}
use chromium_compile.Result.{ok, raise, value_error, and_then-eq-ok}
use chromium_compile.Json.{Json, Fields, get, get_str, concat}
use chromium_compile.Host.{Host, State, lift}
use chromium_compile.Host.Laws.{bind-eq-ok, lift-eq-ok, throw-ne-ok}
use chromium_compile.Text.Lines.{splitlines, utf8_size}
use chromium_compile.Text.Pattern.{is_digest}
use chromium_compile.Text.Strip.{lower_hex, is_lower_sha}
use chromium_compile.Watcher.Gh.{Settings, gh_resource_text}
use chromium_compile.Watcher.Lane.{LaneConfig}
use chromium_compile.Watcher.Manifest.{
  Pairs, find, or_empty, is_field, parse_fields, read_fields, positive_int, some_int,
  release_manifest_max_bytes, asset_identity, check_bytes, manifest_sha, asset_command,
  read_release_manifest_build_sha, read_release_tag_commit, verify_release_provenance,
}

-- The fields describe a build of the version for the lane at the commit.
pub record IsDescribed (version : String) (lane : LaneConfig) (sha : String) (fields : Pairs)
    : Type 0 where
  pub version_field : find "version" fields ≡ some version
  pub cpu_field : find "target_cpu" fields ≡ some "x86"
  pub os_field : find "target_os" fields ≡ some lane.target_os
  pub sha_field : lower_hex (or_empty (find "github_sha" fields)) ≡ sha
  pub sha_form : is_lower_sha sha ≡ true

is_field-eq :
    (fields : Pairs) (key value : String)
    → is_field fields key value ≡ true
    → find key fields ≡ some value
is_field-eq fields key value e = elim (Option-cases (find key fields)) [
  | inl p ↦ absurd (cc (rw (p, is_field) at e))
  | inr (v, p) ↦ let q : v ≡ value = (eq_iff v value).0 (rw (p, is_field) at e) in cc
]

read_fields-IsDescribed :
    (version : String) (lane : LaneConfig) (fields : Pairs) (sha : String)
    → read_fields version lane fields ≡ ok sha
    → IsDescribed version lane sha fields
unfolding read_fields
read_fields-IsDescribed version lane fields sha e = record {
  version_field = is_field-eq fields "version" version (ground arith);
  cpu_field = is_field-eq fields "target_cpu" "x86" (ground arith);
  os_field = is_field-eq fields "target_os" lane.target_os (ground arith);
  sha_field = ground arith;
  sha_form = ground arith;
}

some_int-eq :
    (value : Option Json) (why : String) (n : ℕ)
    → some_int value why ≡ ok n
    → positive_int value ≡ some n
some_int-eq value why n e = ground arith

within :
    (b : Bool) (k : ℕ) (r r' : ℕ × ℕ × String)
    → (if ltb release_manifest_max_bytes k
        then raise value_error "release manifest is above the watcher limit"
        else if b
        then ok r
        else raise value_error "release manifest asset lacks a valid SHA-256 digest")
      ≡ ok r'
    → (r ≡ r') × (k ≤ release_manifest_max_bytes)
within b k r r' e = (ground arith, ground arith)

module _ (h : Host) (settings : Settings) (repository : String) where
  -- The manifest that was downloaded at one moment of the run is the asset that the metadata
  -- describe, byte for byte, and describes the build.
  pub record IsManifest (version : String) (asset : Fields) (lane : LaneConfig) (sha : String)
      : Type 0 where
    pub asset_id : ℕ
    pub size : ℕ
    pub text : String
    pub fields : Pairs
    pub before : State h.World
    pub after : State h.World
    pub id_field : positive_int (get "id" asset) ≡ some asset_id
    pub size_field : positive_int (get "size" asset) ≡ some size
    pub bounded : size ≤ release_manifest_max_bytes
    pub downloaded :
        gh_resource_text h settings (asset_command h settings repository asset_id) before
        ≡ (ok text, after)
    pub same_size : utf8_size text ≡ size
    pub same_digest : concat ("sha256:" ∷ h.sha256 text ∷ []) ≡ get_str h.repr "digest" asset
    pub parsed : parse_fields (splitlines text) [] ≡ ok fields
    pub described : IsDescribed version lane sha fields

  identity_checked :
      (asset : Fields) (n size : ℕ) (digest : String)
      → asset_identity h settings repository asset ≡ ok (n, size, digest)
      → (positive_int (get "id" asset) ≡ some n)
        × (positive_int (get "size" asset) ≡ some size)
        × (size ≤ release_manifest_max_bytes)
        × (digest ≡ get_str h.repr "digest" asset)
  unfolding asset_identity
  identity_checked asset n size digest e =
      let (i, p, e₁) = and_then-eq-ok (some_int (get "id" asset) _) _ _ e in
      let (k, q, e₂) = and_then-eq-ok (some_int (get "size" asset) _) _ _ e₁ in
      let (r, bound) =
        within (is_digest (get_str h.repr "digest" asset)) k (i, k, get_str h.repr "digest" asset)
          (n, size, digest) e₂ in
      (
        subst (λ j. positive_int (get "id" asset) ≡ some j) (ap (λ r. r.0) r)
            (some_int-eq (get "id" asset) _ i p),
        subst (λ j. positive_int (get "size" asset) ≡ some j) (ap (λ r. r.1) r)
            (some_int-eq (get "size" asset) _ k q),
        subst (λ j. j ≤ release_manifest_max_bytes) (ap (λ r. r.1) r) bound,
        sym (ap (λ r. r.2) r),
      )

  bytes_checked :
      (size : ℕ) (digest text : String)
      → check_bytes h settings repository size digest text ≡ ok tt
      → (utf8_size text ≡ size) × (concat ("sha256:" ∷ h.sha256 text ∷ []) ≡ digest)
  unfolding check_bytes
  bytes_checked size digest text e =
      (ground arith, (eq_iff (concat ("sha256:" ∷ h.sha256 text ∷ [])) digest).0 (ground arith))

  -- A manifest is accepted only if its bytes have the size and the digest that the release's metadata
  -- state, within the limit, and its fields name the version, the target and a commit, which is the
  -- result.
  pub read_release_manifest_build_sha-IsManifest :
      (version : String) (asset : Fields) (lane : LaneConfig) (sha : String) (s t : State h.World)
      → read_release_manifest_build_sha h settings repository version asset lane s ≡ (ok sha, t)
      → IsManifest version asset lane sha
  unfolding read_release_manifest_build_sha manifest_sha
  read_release_manifest_build_sha-IsManifest version asset lane sha s t e =
      let ((n, size, digest), u, p, e₁) =
        bind-eq-ok (lift (asset_identity h settings repository asset)) _ s t sha e in
      let (text, v, q, e₂) =
        bind-eq-ok (gh_resource_text h settings (asset_command h settings repository n)) _ u t sha
          e₁ in
      let (m, _) =
        lift-eq-ok (manifest_sha h settings repository version lane size digest text) sha v t e₂ in
      let (_, b, m₁) =
        and_then-eq-ok (check_bytes h settings repository size digest text) _ sha m in
      let (fields, f, m₂) = and_then-eq-ok (parse_fields (splitlines text) []) _ sha m₁ in
      let (i, k, bound, d) = identity_checked asset n size digest (lift-eq-ok _ _ s u p).0 in
      let (same, matches) = bytes_checked size digest text b in
      record {
        asset_id = n;
        size = size;
        text = text;
        fields = fields;
        before = u;
        after = v;
        id_field = i;
        size_field = k;
        bounded = bound;
        downloaded = q;
        same_size = same;
        same_digest = matches ∙ d;
        parsed = f;
        described = read_fields-IsDescribed version lane fields sha m₂;
      }

  -- The release's manifest and its tag name one commit.
  pub record IsVerified (version : String) (asset : Fields) (lane : LaneConfig) : Type 0 where
    pub sha : String
    pub manifest : IsManifest version asset lane sha
    pub before : State h.World
    pub after : State h.World
    pub tag : read_release_tag_commit h settings repository version lane before ≡ (ok sha, after)

  pub verify_release_provenance-IsVerified :
      (version : String) (asset : Fields) (lane : LaneConfig) (s t : State h.World)
      → verify_release_provenance h settings repository version asset lane s ≡ (ok tt, t)
      → IsVerified version asset lane
  unfolding verify_release_provenance
  verify_release_provenance-IsVerified version asset lane s t e =
      let (sha, u, p, e₁) =
        bind-eq-ok (read_release_manifest_build_sha h settings repository version asset lane) _ s t
          tt e in
      let (tag_sha, v, q, e₂) =
        bind-eq-ok (read_release_tag_commit h settings repository version lane) _ u t tt e₁ in
      elim (Bool-cases (tag_sha == sha)) [
        | inl b ↦ record {
          sha = sha;
          manifest = read_release_manifest_build_sha-IsManifest version asset lane sha s u p;
          before = u;
          after = v;
          tag =
              subst (λ c. read_release_tag_commit h settings repository version lane u ≡ (ok c, v))
                ((eq_iff tag_sha sha).0 b) q;
        }
        | inr b ↦ throw-ne-ok _ _ tt v t (rw b at e₂)
      ]
