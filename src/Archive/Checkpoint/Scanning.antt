-- ===== src/Archive/Checkpoint/Scanning.antt =====
-- The loop over the members of a checkpoint, against a description of the members.
use chromium_compile.Prelude.{
  ℕ, ◌+◌, ◌≤◌, String, Bool, true, false, not, ◌≡◌, refl, List, [], ◌∷◌, ◌++◌, leb, leb→le, mem,
  mem-insert, arith, All, ◌⊎◌, inl, eq_iff,
}
use chromium_compile.Result.{
  ok, check, and_then-eq-ok, map_ok, map_ok-eq-ok, ok-injective, value_error,
}
use chromium_compile.Archive.{
  ℤ, pos, negsuc, Kind, regular, directory, symlink, hardlink, special, Member, size_of,
}
use chromium_compile.Archive.Limits.{clear, check-eq-ok, size_of-eq-ok}
use chromium_compile.Archive.Checkpoint.{
  Limits, Scan, normalise_member, normalise_link, file_member, counted, scan_member, add_link,
}

-- What is asked of a link, by the kind of its member: its target is one of the names present.
abbrev pub LinkFits : String → List String → String → Kind → String → Type 0
LinkFits root present name regular link = Unit
LinkFits root present name directory link = Unit
LinkFits root present name symlink link =
    (target : String) × (normalise_link root true name link ≡ ok target)
    × (mem target present ≡ true)
LinkFits root present name hardlink link =
    (target : String) × (normalise_link root false name link ≡ ok target)
    × (mem target present ≡ true)
LinkFits root present name special link = ⊥

pub record Fits (root : String) (present : List String) (m : Member) (name : String) : Type 0 where
  pub normal : normalise_member root m.name ≡ ok name
  pub bytes : ℕ
  pub sized : m.size ≡ pos bytes
  pub link : LinkFits root present name m.kind m.linkname

module _ (root : String) (present : List String) where
  -- The members, each with its name
  abbrev pub AllFit : List Member → List String → Type 0
  AllFit [] [] = Unit
  AllFit (m ∷ ms) (name ∷ names) = Fits root present m name × AllFit ms names
  AllFit _ _ = ⊥

-- No name was met before.
abbrev pub Fresh : List String → List String → Type 0
Fresh seen [] = Unit
Fresh seen (x ∷ xs) = (mem x seen ≡ false) × Fresh (x ∷ seen) xs

abbrev pub bytes_of : ℤ → ℕ
bytes_of (pos n) = n
bytes_of (negsuc n) = 0

abbrev pub total_bytes : List Member → ℕ
total_bytes [] = 0
total_bytes (m ∷ ms) = bytes_of m.size + total_bytes ms

abbrev pub IsFile : String → String → Member → Type 0
IsFile root name m = (m.kind ≡ regular) × (normalise_member root m.name ≡ ok name)

abbrev pub Resolved : List String → List (String × String) → Type 0
Resolved present ls = All (λ l. mem l.1 present ≡ true) ls

pub record Stepped (root : String) (lim : Limits) (m : Member) (s u : Scan) : Type 0 where
  pub bytes : ℕ
  pub sized : m.size ≡ pos bytes
  pub within : s.member_count + 1 ≤ lim.max_members
  pub small : s.unpacked_bytes + bytes ≤ lim.max_unpacked
  pub name : String
  pub normal : normalise_member root m.name ≡ ok name
  pub fresh : mem name s.seen ≡ false
  pub filed : file_member root name m.kind m.linkname (counted s name bytes) ≡ ok u

pub scan_member-Stepped :
    (root : String) (lim : Limits) (m : Member) (s u : Scan)
    → scan_member root lim m s ≡ ok u
    → Stepped root lim m s u
unfolding scan_member
scan_member-Stepped root lim m s u h =
    let (_, a, h₁) =
      and_then-eq-ok (check (leb (s.member_count + 1) lim.max_members) value_error _) _ u h in
    let (n, b, h₂) = and_then-eq-ok (size_of m.size) _ u h₁ in
    let (_, c, h₃) =
      and_then-eq-ok (check (leb (s.unpacked_bytes + n) lim.max_unpacked) value_error _) _ u h₂ in
    let (name, d, h₄) = and_then-eq-ok (normalise_member root m.name) _ u h₃ in
    let (_, e, h₅) = and_then-eq-ok (check (not (mem name s.seen)) value_error _) _ u h₄ in
    record {
      bytes = n;
      sized = size_of-eq-ok m.size n b;
      within = leb→le _ _ (check-eq-ok _ _ _ _ a);
      small = leb→le _ _ (check-eq-ok _ _ _ _ c);
      name = name;
      normal = d;
      fresh = clear (check-eq-ok _ _ _ _ e);
      filed = h₅;
    }

-- What the filing of a member keeps, and what it adds
pub record Filed (root name link : String) (present : List String) (k : Kind) (c u : Scan)
    : Type 0 where
  pub seen : u.seen ≡ c.seen
  pub bytes : u.unpacked_bytes ≡ c.unpacked_bytes
  pub count : u.member_count ≡ c.member_count
  pub links :
      Resolved present u.links → Resolved present c.links × LinkFits root present name k link
  pub files :
      (x : String)
      → mem x u.regular_names ≡ true
      → (mem x c.regular_names ≡ true) ⊎ ((k ≡ regular) × (name ≡ x))

All-last {ℓ κ} :
    {A : Type ℓ} (P : A → Type κ) (xs : List A) (y : A) → All P (xs ++ y ∷ []) → All P xs × P y
All-last P [] y h = (tt, h.0)
All-last P (x ∷ xs) y (p, h) = let (q, r) = All-last P xs y h in ((p, q), r)

add_link-Filed :
    (root name link : String) (present : List String) (is_symlink : Bool) (k : Kind) (c u : Scan)
    → map_ok (add_link c name) (normalise_link root is_symlink name link) ≡ ok u
    → ((t : String)
        → normalise_link root is_symlink name link ≡ ok t
        → mem t present ≡ true
        → LinkFits root present name k link)
    → Filed root name link present k c u
add_link-Filed root name link present is_symlink k c u h fits =
    let (t, p, q) = map_ok-eq-ok (add_link c name) (normalise_link root is_symlink name link) u h in
    rw (← q) (record {
      seen = refl;
      bytes = refl;
      count = refl;
      links = λ r.
          let (old, new) = All-last (λ l. mem l.1 present ≡ true) c.links (name, t) r in
          (old, fits t p new);
      files = λ x f. inl f;
    })

pub file_member-Filed :
    (root name : String) (k : Kind) (link : String) (present : List String) (c u : Scan)
    → file_member root name k link c ≡ ok u
    → Filed root name link present k c u
unfolding file_member
file_member-Filed root name regular link present c u h = rw (← (ok-injective _ _ h)) (record {
  seen = refl;
  bytes = refl;
  count = refl;
  links = λ r. (r, tt);
  files = λ x f. ground (arith, mem-insert x name c.regular_names, eq_iff name x);
})
file_member-Filed root name directory link present c u h =
    rw (← (ok-injective _ _ h)) (record {
      seen = refl;
      bytes = refl;
      count = refl;
      links = λ r. (r, tt);
      files = λ x f. inl f;
    })
file_member-Filed root name symlink link present c u h =
    add_link-Filed root name link present true symlink c u h (λ t p q. (t, p, q))
file_member-Filed root name hardlink link present c u h =
    add_link-Filed root name link present false hardlink c u h (λ t p q. (t, p, q))
file_member-Filed root name special link present c u h = absurd (cc)
