-- ===== src/Archive/Checkpoint/Complete.antt =====
-- Every archive that fits the description is accepted, so the validator decides it.
use chromium_compile.Prelude.{
  ℕ, ◌+◌, ◌*◌, ◌≤◌, String, Bool, true, false, ◌≡◌, refl, sym, ap, ◌∙◌, subst, List, [], ◌∷◌, leb,
  mem, insert, mem-insert, ◌↔◌, Option, none, some, arith, All-append, Any, length, ◌⊎◌, inl, inr,
  eq_iff, diff, is_empty, keep_if,
}
use chromium_compile.Result.{ok, and_then, map_ok, map_ok-eq-ok, and_then-eq-ok, ok-injective}
use chromium_compile.Json.{concat}
use chromium_compile.Archive.{
  Kind, regular, directory, symlink, hardlink, special, Member, Archive, Stats, Environ, env_limit,
}
use chromium_compile.Archive.Limits.{env_limit_bounds}
use chromium_compile.Text.Paths.{reverse_onto}
use chromium_compile.Archive.Checkpoint.{
  gib, Limits, Scan, empty_scan, normalise_link, file_member, counted, scan_member, scan_all,
  add_link, limits, bytes_limit, resolve_links, required_regular, validate_checkpoint,
}
use chromium_compile.Archive.Checkpoint.Scanning.{
  LinkFits, Fits, AllFit, Fresh, total_bytes, bytes_of, IsFile, Resolved,
}
use chromium_compile.Archive.Checkpoint.Laws.{IsSafe, accepted, accepted-IsSafe}

-- A member that fits is filed.
record Files (root name link : String) (present : List String) (k : Kind) (c : Scan) : Type 0 where
  u : Scan
  filed : file_member root name k link c ≡ ok u
  seen : u.seen ≡ c.seen
  bytes : u.unpacked_bytes ≡ c.unpacked_bytes
  count : u.member_count ≡ c.member_count
  links : Resolved present u.links
  files :
      (x : String)
      → (mem x c.regular_names ≡ true) ⊎ ((k ≡ regular) × (name ≡ x))
      → mem x u.regular_names ≡ true

module _ (root name link : String) (present : List String) (c : Scan) where
  add_link-Files :
      (is_symlink : Bool) (k : Kind) (t : String)
      → normalise_link root is_symlink name link ≡ ok t
      → mem t present ≡ true
      → Resolved present c.links
      → (k ≡ regular → ⊥)
      → file_member root name k link c
        ≡ map_ok (add_link c name) (normalise_link root is_symlink name link)
      → Files root name link present k c
  add_link-Files is_symlink k t p q r other e = record {
    u = add_link c name t;
    filed = e ∙ ap (map_ok (add_link c name)) p;
    seen = refl;
    bytes = refl;
    count = refl;
    links = All-append (λ l. mem l.1 present ≡ true) c.links ((name, t) ∷ []) r (q, tt);
    files = λ x f. elim f [ inl h ↦ h | inr h ↦ absurd (other h.0) ];
  }

  file_member-Files :
      (k : Kind)
      → LinkFits root present name k link
      → Resolved present c.links
      → Files root name link present k c
  unfolding file_member
  file_member-Files regular fits r = record {
    u = record c { regular_names = insert name c.regular_names };
    filed = refl;
    seen = refl;
    bytes = refl;
    count = refl;
    links = r;
    files = λ x f. ground (arith, mem-insert x name c.regular_names, eq_iff name x);
  }
  file_member-Files directory fits r = record {
    u = c;
    filed = refl;
    seen = refl;
    bytes = refl;
    count = refl;
    links = r;
    files = λ x f. elim f [ inl h ↦ h | inr h ↦ absurd (cc (h.0)) ];
  }
  file_member-Files symlink (t, p, q) r = add_link-Files true symlink t p q r (λ e. cc) refl
  file_member-Files hardlink (t, p, q) r = add_link-Files false hardlink t p q r (λ e. cc) refl
  file_member-Files special fits r = absurd fits

record Passes (root : String) (lim : Limits) (present : List String) (ms : List Member)
    (names : List String) (s : Scan) : Type 0 where
  t : Scan
  scanned : scan_all root lim ms s ≡ ok t
  seen : t.seen ≡ reverse_onto names s.seen
  count : t.member_count ≡ s.member_count + length ms
  bytes : t.unpacked_bytes ≡ s.unpacked_bytes + total_bytes ms
  links : Resolved present t.links
  files :
      (x : String)
      → (mem x s.regular_names ≡ true) ⊎ Any (IsFile root x) ms
      → mem x t.regular_names ≡ true

module _ (root : String) (lim : Limits) (present : List String) where
  scan_member-passes :
      (m : Member) (name : String) (s u : Scan)
      → (f : Fits root present m name) → s.member_count + 1 ≤ lim.max_members
      → s.unpacked_bytes + f.bytes ≤ lim.max_unpacked
      → mem name s.seen ≡ false
      → file_member root name m.kind m.linkname (counted s name f.bytes) ≡ ok u
      → scan_member root lim m s ≡ ok u
  unfolding scan_member
  scan_member-passes m name s u f a b c d =
      let count_ok : leb (s.member_count + 1) lim.max_members ≡ true = ground arith in
      let bytes_ok : leb (s.unpacked_bytes + f.bytes) lim.max_unpacked ≡ true = ground arith in
      rw (count_ok, f.sized, bytes_ok, f.normal, c) d

  named-of_file :
      (m : Member) (name x : String)
      → Fits root present m name
      → IsFile root x m
      → (m.kind ≡ regular) × (name ≡ x)
  named-of_file m name x f (k, e) = (k, ok-injective name x (sym f.normal ∙ e))

  scan_all-Passes :
      (ms : List Member) (names : List String) (s : Scan)
      → AllFit root present ms names
      → Fresh s.seen names
      → s.member_count + length ms ≤ lim.max_members
      → s.unpacked_bytes + total_bytes ms ≤ lim.max_unpacked
      → Resolved present s.links
      → Passes root lim present ms names s
  unfolding scan_all
  scan_all-Passes [] [] s fits fresh a b r = record {
    t = s;
    scanned = refl;
    seen = refl;
    count = omega arith;
    bytes = omega arith;
    links = r;
    files = λ x f. elim f [ inl h ↦ h | inr h ↦ absurd h ];
  }
  scan_all-Passes [] (name ∷ names) s fits fresh a b r = absurd fits
  scan_all-Passes (m ∷ ms) [] s fits fresh a b r = absurd fits
  scan_all-Passes (m ∷ ms) (name ∷ names) s (fit, fits) (new, fresh) a b r =
      let size = ap bytes_of fit.sized in
      let f =
        file_member-Files root name m.linkname present (counted s name fit.bytes) m.kind fit.link
          r in
      let step = scan_member-passes m name s f.u fit (omega arith) (omega arith) new f.filed in
      let w =
        scan_all-Passes ms names f.u fits (subst (λ seen. Fresh seen names) (sym f.seen) fresh)
          (omega (arith, f.count)) (omega (arith, f.bytes, size)) f.links in
      record {
        t = w.t;
        scanned = ap (λ q. and_then q (scan_all root lim ms)) step ∙ w.scanned;
        seen = w.seen ∙ ap (reverse_onto names) f.seen;
        count = omega (arith, w.count, f.count);
        bytes = omega (arith, w.bytes, f.bytes, size);
        links = w.links;
        files = λ x g. w.files x (elim g [
          | inl h ↦ inl (f.files x (inl h))
          | inr h ↦ elim h [
            | inl here ↦ inl (f.files x (inr (named-of_file m name x fit here)))
            | inr there ↦ inr there
          ]
        ]);
      }

Resolved-resolve_links :
    (seen : List String) (ls : List (String × String))
    → Resolved seen ls
    → resolve_links seen ls ≡ true
Resolved-resolve_links seen [] h = refl
Resolved-resolve_links seen ((name, target) ∷ ls) (h, hs) =
    rw (h, Resolved-resolve_links seen ls hs) refl

present-required :
    (root : String) (files : List String)
    → mem (concat (root ∷ "/build.ninja" ∷ [])) files ≡ true
    → mem (concat (root ∷ "/args.gn" ∷ [])) files ≡ true
    → is_empty (diff (required_regular root) files) ≡ true
unfolding diff keep_if
present-required root files a b = rw (a, b) refl

stats_of :
    (t : Scan) (stats : Stats)
    → t.member_count ≡ stats.member_count
    → t.unpacked_bytes ≡ stats.unpacked_bytes
    → ◌≡◌ {A = Stats}
        (record { member_count = t.member_count; unpacked_bytes = t.unpacked_bytes })
        stats
stats_of t stats a b = ground arith

IsSafe-accepted :
    (e : Environ) (root : String) (archive : Archive) (status : ℕ) (stats : Stats)
    → IsSafe e root archive status stats
    → validate_checkpoint e root archive status ≡ ok stats
unfolding validate_checkpoint mem
IsSafe-accepted e root archive status stats a =
    let w =
      scan_all-Passes root a.lim (reverse_onto a.names []) archive.members a.names empty_scan a.fits
        a.distinct (omega (arith, a.count, a.count_le)) (omega (arith, a.bytes, a.bytes_le)) tt in
    let resolved : resolve_links w.t.seen w.t.links ≡ true =
      ap (λ seen. resolve_links seen w.t.links) w.seen
      ∙ Resolved-resolve_links (reverse_onto a.names []) w.t.links w.links in
    let required =
      present-required root w.t.regular_names (w.files _ (inr a.ninja)) (w.files _ (inr a.args)) in
    rw (a.valid_root, a.limited, w.scanned, a.ended, a.decompressed, required, resolved)
      (ap ok
        (stats_of w.t stats (omega (arith, w.count, a.count)) (omega (arith, w.bytes, a.bytes))))

-- A checkpoint is accepted exactly when it is safe: its names are distinct normal paths below the
-- root, each of its links names one of them, it holds the two required files, nothing in it is a
-- special file, its members and their bytes are within the limits, and it was read and decompressed
-- to its end.
pub validate_checkpoint_iff :
    (e : Environ) (root : String) (archive : Archive) (status : ℕ) (stats : Stats)
    → (validate_checkpoint e root archive status ≡ ok stats) ↔ IsSafe e root archive status stats
validate_checkpoint_iff e root archive status stats = (
  λ h.
      let (lim, s, a) = accepted e root archive status stats h in
      accepted-IsSafe e root archive status stats lim s a,
  IsSafe-accepted e root archive status stats,
)

bytes_limit-le : (e : Environ) (o : Option String) (n : ℕ) → bytes_limit e o ≡ ok n → n ≤ 80 * gib
bytes_limit-le e none n h =
    let (g, p, q) = map_ok-eq-ok (λ n. n * gib) (env_limit e _ 40 80) n h in
    omega (arith, q, (env_limit_bounds e _ 40 80 g p).1)
bytes_limit-le e (some raw) n h = (env_limit_bounds e _ (40 * gib) (80 * gib) n h).1

-- Whatever the environment says, an accepted checkpoint has at most 4,000,000 members and 80 GiB.
pub validate_checkpoint_bounds :
    (e : Environ) (root : String) (archive : Archive) (status : ℕ) (stats : Stats)
    → validate_checkpoint e root archive status ≡ ok stats
    → (length archive.members ≤ 4000000) × (total_bytes archive.members ≤ 80 * gib)
unfolding limits
validate_checkpoint_bounds e root archive status stats h =
    let a = (validate_checkpoint_iff e root archive status stats).0 h in
    let (n, p, h₁) =
      and_then-eq-ok (bytes_limit e (e.get "CHROMIUM_I686_MAX_CHECKPOINT_UNPACKED_BYTES")) _ a.lim
        a.limited in
    let (k, q, h₂) =
      and_then-eq-ok (env_limit e "CHROMIUM_I686_MAX_CHECKPOINT_MEMBERS" 2000000 4000000) _ a.lim
        h₁ in
    let lim = ok-injective _ a.lim h₂ in
    (
      omega (
        arith,
        a.count,
        a.count_le,
        ap (λ l. l.max_members) lim,
        (env_limit_bounds e _ 2000000 4000000 k q).1,
      ),
      omega (arith, a.bytes, a.bytes_le, ap (λ l. l.max_unpacked) lim, bytes_limit-le e _ n p),
    )
