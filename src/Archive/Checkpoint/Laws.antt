-- ===== src/Archive/Checkpoint/Laws.antt =====
-- What an accepted checkpoint holds.
use chromium_compile.Prelude.{
  ℕ, ◌+◌, ◌≤◌, String, true, false, ◌≡◌, sym, ap, ◌∙◌, subst, List, [], ◌∷◌, mem, arith, Any,
  length, ◌⊎◌, inl, inr, diff, is_empty, eqb, keep_if,
}
use chromium_compile.Result.{ok, check, and_then-eq-ok, ok-injective, value_error}
use chromium_compile.Json.{concat}
use chromium_compile.Archive.{Member, Archive, Stats, Environ}
use chromium_compile.Archive.Limits.{check-eq-ok}
use chromium_compile.Text.Paths.{reverse_onto}
use chromium_compile.Archive.Checkpoint.{
  Limits, Scan, empty_scan, validate_root, counted, scan_member, scan_all, limits, resolve_links,
  required_regular, validate_checkpoint,
}
use chromium_compile.Archive.Checkpoint.Inside.{validate_root-eq}
use chromium_compile.Archive.Checkpoint.Scanning.{
  AllFit, Fresh, total_bytes, bytes_of, IsFile, Resolved, Stepped, scan_member-Stepped,
  file_member-Filed,
}

record Scanned (root : String) (lim : Limits) (present : List String) (ms : List Member)
    (s t : Scan) : Type 0 where
  names : List String
  fits : AllFit root present ms names
  seen : t.seen ≡ reverse_onto names s.seen
  fresh : Fresh s.seen names
  count : t.member_count ≡ s.member_count + length ms
  bytes : t.unpacked_bytes ≡ s.unpacked_bytes + total_bytes ms
  count_le : t.member_count ≤ lim.max_members
  bytes_le : t.unpacked_bytes ≤ lim.max_unpacked
  links : Resolved present s.links
  files :
      (x : String)
      → mem x t.regular_names ≡ true
      → (mem x s.regular_names ≡ true) ⊎ Any (IsFile root x) ms

module _ (root : String) (lim : Limits) (present : List String) where
  Scanned-next :
      (m : Member) (ms : List Member) (s u t : Scan)
      → (st : Stepped root lim m s u) → Scanned root lim present ms u t
      → Scanned root lim present (m ∷ ms) s t
  Scanned-next m ms s u t st r =
      let f =
        file_member-Filed root st.name m.kind m.linkname present (counted s st.name st.bytes) u
          st.filed in
      let (old, fits) = f.links r.links in
      record {
        names = st.name ∷ r.names;
        fits = (
          record { normal = st.normal; bytes = st.bytes; sized = st.sized; link = fits },
          r.fits,
        );
        seen = r.seen ∙ ap (reverse_onto r.names) f.seen;
        fresh = (st.fresh, subst (λ seen. Fresh seen r.names) f.seen r.fresh);
        count = omega (arith, r.count, f.count);
        bytes = omega (arith, r.bytes, f.bytes, ap bytes_of st.sized);
        count_le = r.count_le;
        bytes_le = r.bytes_le;
        links = old;
        files = λ x h. elim (r.files x h) [
          | inl p ↦ elim (f.files x p) [
            | inl q ↦ inl q
            | inr (k, e) ↦ inr (inl (k, st.normal ∙ ap ok e))
          ]
          | inr p ↦ inr (inr p)
        ];
      }

  scan_all-Scanned :
      (ms : List Member) (s t : Scan)
      → scan_all root lim ms s ≡ ok t
      → s.member_count ≤ lim.max_members
      → s.unpacked_bytes ≤ lim.max_unpacked
      → Resolved present t.links
      → Scanned root lim present ms s t
  unfolding scan_all
  scan_all-Scanned [] s t h a b r =
      let e = ok-injective s t h in
      record {
        names = [];
        fits = tt;
        seen = ap (λ x. x.seen) (sym e);
        fresh = tt;
        count = ap (λ x. x.member_count) (sym e) ∙ omega arith;
        bytes = ap (λ x. x.unpacked_bytes) (sym e) ∙ omega arith;
        count_le = rw e at a;
        bytes_le = rw e at b;
        links = rw (← e) at r;
        files = λ x f. inl (rw (← e) at f);
      }
  scan_all-Scanned (m ∷ ms) s t h a b r =
      let (u, p, q) = and_then-eq-ok (scan_member root lim m s) (scan_all root lim ms) t h in
      let st = scan_member-Stepped root lim m s u p in
      let f =
        file_member-Filed root st.name m.kind m.linkname present (counted s st.name st.bytes) u
          st.filed in
      Scanned-next m ms s u t st (
        scan_all-Scanned ms u t q (omega (arith, f.count, st.within))
          (omega (arith, f.bytes, st.small)) r)

resolve_links-Resolved :
    (seen : List String) (ls : List (String × String))
    → resolve_links seen ls ≡ true
    → Resolved seen ls
resolve_links-Resolved seen [] h = tt
resolve_links-Resolved seen ((name, target) ∷ ls) h =
    (ground arith, resolve_links-Resolved seen ls (ground arith))

required-files :
    (root : String) (files : List String)
    → is_empty (diff (required_regular root) files) ≡ true
    → (mem (concat (root ∷ "/build.ninja" ∷ [])) files ≡ true)
      × (mem (concat (root ∷ "/args.gn" ∷ [])) files ≡ true)
unfolding diff keep_if
required-files root files h = (ground arith, ground arith)

-- What the validator accepts: `names` are the members' normal paths, in their order.
pub record IsSafe (e : Environ) (root : String) (archive : Archive) (status : ℕ) (stats : Stats)
    : Type 0 where
  pub valid_root : validate_root root ≡ ok root
  pub lim : Limits
  pub limited : limits e ≡ ok lim
  pub names : List String
  pub fits : AllFit root (reverse_onto names []) archive.members names
  pub distinct : Fresh [] names
  pub count : stats.member_count ≡ length archive.members
  pub bytes : stats.unpacked_bytes ≡ total_bytes archive.members
  pub count_le : stats.member_count ≤ lim.max_members
  pub bytes_le : stats.unpacked_bytes ≤ lim.max_unpacked
  pub ninja : Any (IsFile root (concat (root ∷ "/build.ninja" ∷ []))) archive.members
  pub args : Any (IsFile root (concat (root ∷ "/args.gn" ∷ []))) archive.members
  pub ended : archive.ending ≡ ok tt
  pub decompressed : status ≡ 0

listed : {A : Type 0} → (false ≡ true) ⊎ A → A
listed (inl h) = absurd (cc)
listed (inr a) = a

-- The loop and the tests behind it passed.
pub record Accepted (e : Environ) (root : String) (archive : Archive) (status : ℕ) (stats : Stats)
    (lim : Limits) (s : Scan) : Type 0 where
  valid_root : validate_root root ≡ ok root
  limited : limits e ≡ ok lim
  scanned : scan_all root lim archive.members empty_scan ≡ ok s
  ended : archive.ending ≡ ok tt
  decompressed : eqb status 0 ≡ true
  required : is_empty (diff (required_regular root) s.regular_names) ≡ true
  resolved : resolve_links s.seen s.links ≡ true
  count : s.member_count ≡ stats.member_count
  bytes : s.unpacked_bytes ≡ stats.unpacked_bytes

pub accepted :
    (e : Environ) (root : String) (archive : Archive) (status : ℕ) (stats : Stats)
    → validate_checkpoint e root archive status ≡ ok stats
    → (lim : Limits) × (s : Scan) × Accepted e root archive status stats lim s
unfolding validate_checkpoint
accepted e root archive status stats h =
    let (r, a, h₁) = and_then-eq-ok (validate_root root) _ stats h in
    let same = validate_root-eq root r a in
    let (lim, b, h₂) = and_then-eq-ok (limits e) _ stats h₁ in
    let (s, c, h₃) = and_then-eq-ok (scan_all r lim archive.members empty_scan) _ stats h₂ in
    let (_, d, h₄) = and_then-eq-ok archive.ending _ stats h₃ in
    let (_, f, h₅) = and_then-eq-ok (check (eqb status 0) value_error _) _ stats h₄ in
    let (_, g, h₆) =
      and_then-eq-ok (check (is_empty (diff (required_regular r) s.regular_names)) value_error _) _
        stats h₅ in
    let (_, k, h₇) =
      and_then-eq-ok (check (resolve_links s.seen s.links) value_error _) _ stats h₆ in
    let out = ok-injective _ stats h₇ in
    (
      lim,
      s,
      record {
        valid_root = a ∙ ap ok same;
        limited = b;
        scanned = ap (λ x. scan_all x lim archive.members empty_scan) (sym same) ∙ c;
        ended = d;
        decompressed = check-eq-ok _ _ _ _ f;
        required =
            ap (λ x. is_empty (diff (required_regular x) s.regular_names)) (sym same)
            ∙ check-eq-ok _ _ _ _ g;
        resolved = check-eq-ok _ _ _ _ k;
        count = ap (λ x. x.member_count) out;
        bytes = ap (λ x. x.unpacked_bytes) out;
      },
    )

pub accepted-IsSafe :
    (e : Environ) (root : String) (archive : Archive) (status : ℕ) (stats : Stats) (lim : Limits)
    (s : Scan)
    → Accepted e root archive status stats lim s
    → IsSafe e root archive status stats
unfolding mem
accepted-IsSafe e root archive status stats lim s a =
    let w =
      scan_all-Scanned root lim s.seen archive.members empty_scan s a.scanned (omega arith)
        (omega arith) (resolve_links-Resolved s.seen s.links a.resolved) in
    let (ninja, args) = required-files root s.regular_names a.required in
    record {
      valid_root = a.valid_root;
      lim = lim;
      limited = a.limited;
      names = w.names;
      fits = subst (λ seen. AllFit root seen archive.members w.names) w.seen w.fits;
      distinct = w.fresh;
      count = omega (arith, a.count, w.count);
      bytes = omega (arith, a.bytes, w.bytes);
      count_le = omega (arith, a.count, w.count_le);
      bytes_le = omega (arith, a.bytes, w.bytes_le);
      ninja = listed (w.files _ ninja);
      args = listed (w.files _ args);
      ended = a.ended;
      decompressed = ground (arith, a.decompressed);
    }
