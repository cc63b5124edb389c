-- ===== src/Archive/Checkpoint/Inside.antt =====
-- A checkpoint's names and links are accepted exactly when a walk along them stays in the directory
-- where the archive is extracted and ends below the root.
use chromium_compile.Prelude.{
  String, Bool, true, false, not, ◌||◌, ◌≡◌, refl, sym, subst, ◌∙◌, ap, ◌↔◌, ◌⊎◌, keep_if, List, [],
  ◌∷◌, some, ◌==◌, mem, arith, All, inl, inr, Bool-cases, eq_iff,
}
use chromium_compile.Result.{ok, check, and_then-eq-ok, ok-injective, value_error}
use chromium_compile.Text.Version.{split}
use chromium_compile.Text.Paths.{
  slashed, normpath, parts, is_absolute, starts_slash, norm_stack, reverse_onto, or_dot, tail_parts,
  dirname,
}
use chromium_compile.Text.Paths.Walk.{walk, norm_stack-walk}
use chromium_compile.Text.Paths.Parts.{
  IsPart, components, components-IsPart, normpath_relative, parts-normpath, joined-slashed,
}
use chromium_compile.Text.Paths.Relative.{dirname-relative, join-relative}
use chromium_compile.Archive.Limits.{check-eq-ok, clear}
use chromium_compile.Archive.Checkpoint.{
  validate_root, is_clean, is_inside, begins_with, normalise_member, normalise_link, link_path,
}

-- From the extraction directory the path leads to `normal`, at or below the root, and at no point
-- above the extraction directory.
pub record Reaches (root path normal : String) : Type 0 where
  pub dirs : List String
  pub walked : walk [] (split b'/' path) ≡ some dirs
  pub rest : List String
  pub below : reverse_onto dirs [] ≡ root ∷ rest
  pub text : normal ≡ slashed (root ∷ rest)

mem-reverse :
    (x : String) (xs acc : List String) → mem x (reverse_onto xs acc) ≡ (mem x xs || mem x acc)
unfolding mem
mem-reverse x [] acc = refl
mem-reverse x (y ∷ xs) acc = ground (arith, mem-reverse x xs (y ∷ acc))

begins :
    (root : String) (ps : List String)
    → begins_with root ps ≡ true
    → (rest : List String) × (ps ≡ root ∷ rest)
begins root [] h = absurd (cc)
begins root (p ∷ ps) h = (ps, ap (λ q. q ∷ ps) ((eq_iff p root).0 h))

inside→Reaches :
    (root path : String)
    → starts_slash path ≡ false
    → is_inside root (parts (normpath path)) ≡ true
    → Reaches root path (normpath path)
unfolding is_inside
inside→Reaches root path rel h =
    let stack = norm_stack false [] (split b'/' path) in
    let h' = rw (parts-normpath path rel) at h in
    let clean : mem ".." stack ≡ false = ground (arith, mem-reverse ".." stack []) in
    let (rest, below) = begins root (components path) (ground arith) in
    record {
      dirs = stack;
      walked = (norm_stack-walk (split b'/' path) stack).1 (refl, clean);
      rest = rest;
      below = below;
      text =
          normpath_relative path rel
          ∙ ap (λ ps. or_dot (slashed ps)) below
          ∙ joined-slashed root rest (subst (All IsPart) below (components-IsPart path));
    }

reached-parts :
    (root path : String) {normal : String}
    → starts_slash path ≡ false
    → (r : Reaches root path normal)
    → (components path ≡ root ∷ r.rest) × (normpath path ≡ normal) × (mem ".." r.dirs ≡ false)
reached-parts root path {normal} rel r =
    let (e, clean) = (norm_stack-walk (split b'/' path) r.dirs).0 r.walked in
    let q : components path ≡ root ∷ r.rest = rw e r.below in
    (
      q,
      normpath_relative path rel
          ∙ (rw q (joined-slashed root r.rest (rw q at (components-IsPart path))) ∙ sym r.text),
      clean,
    )

Reaches→inside :
    (root path : String) {normal : String}
    → starts_slash path ≡ false
    → Reaches root path normal
    → (is_inside root (parts (normpath path)) ≡ true) × (normpath path ≡ normal)
unfolding is_inside mem
Reaches→inside root path {normal} rel r =
    let (q, e, clean) = reached-parts root path rel r in
    let none_left : mem ".." (root ∷ r.rest) ≡ false =
      ground (arith, mem-reverse ".." r.dirs [], clean, ap (mem "..") r.below) in
    (rw (parts-normpath path rel, q) (rw (none_left, (eq_iff root root).1 refl) refl), e)

pub validate_root-eq : (root r : String) → validate_root root ≡ ok r → r ≡ root
unfolding validate_root
validate_root-eq root r h = ground arith

empty-parts :
    (text : String) (root : String) (rest : List String)
    → (text ≡ ".") ⊎ (text ≡ "")
    → parts text ≡ root ∷ rest
    → ⊥
unfolding parts tail_parts keep_if split starts_slash
empty-parts text root rest (inl e) h = cc (rw e at h)
empty-parts text root rest (inr e) h = cc (rw e at h)

-- A normal path below a root is neither empty nor the directory itself.
named :
    (root path : String) {normal : String}
    → starts_slash path ≡ false
    → Reaches root path normal
    → (normal == "." || normal == "") ≡ false
named root path {normal} rel r =
    let (q, e, _) = reached-parts root path rel r in
    let ps : parts normal ≡ root ∷ r.rest = rw (← e) (parts-normpath path rel ∙ q) in
    elim (Bool-cases (normal == ".")) [
      | inl d ↦ absurd (empty-parts normal root r.rest (inl ((eq_iff normal ".").0 d)) ps)
      | inr d ↦ elim (Bool-cases (normal == "")) [
        | inl f ↦ absurd (empty-parts normal root r.rest (inr ((eq_iff normal "").0 f)) ps)
        | inr f ↦ rw (d, f) refl
      ]
    ]

-- A member is accepted exactly when its name is clean and relative and leads below a valid root.
pub normalise_member_iff :
    (root name normal : String)
    → (normalise_member root name ≡ ok normal) ↔ (
        (validate_root root ≡ ok root)
        × (is_clean name ≡ true)
        × (is_absolute name ≡ false)
        × Reaches root name normal)
unfolding normalise_member is_absolute
normalise_member_iff root name normal = (
  λ h.
      let (r, p, h₁) = and_then-eq-ok (validate_root root) _ normal h in
      let (_, q, h₂) = and_then-eq-ok (check (is_clean name) value_error _) _ normal h₁ in
      let (_, a, h₃) = and_then-eq-ok (check (not (is_absolute name)) value_error _) _ normal h₂ in
      let (_, d, h₄) =
        and_then-eq-ok (check (not (normpath name == "." || normpath name == "")) value_error _) _
          normal h₃ in
      let (_, i, h₅) =
        and_then-eq-ok (check (is_inside r (parts (normpath name))) value_error _) _ normal h₄ in
      let e = validate_root-eq root r p in
      let rel : starts_slash name ≡ false = clear (check-eq-ok _ _ _ _ a) in
      let inside = rw e at (check-eq-ok (is_inside r (parts (normpath name))) _ _ _ i) in
      let n : normpath name ≡ normal = ok-injective _ _ h₅ in
      (rw e at p, check-eq-ok _ _ _ _ q, rel, rw n at (inside→Reaches root name rel inside)),
  λ (p, q, rel, r).
      let (inside, n) = Reaches→inside root name rel r in
      rw (p, q, rel, n) (rw (named root name rel r) (rw (rw n at inside) refl)),
)

link-relative :
    (is_symlink : Bool) (member link : String)
    → is_absolute member ≡ false
    → is_absolute link ≡ false
    → starts_slash (link_path is_symlink member link) ≡ false
unfolding is_absolute starts_slash
link-relative true member link h k =
    join-relative (dirname member) link (dirname-relative member h) k
link-relative false member link h k = join-relative "" link refl k

-- A link of a relative member is accepted exactly when its target is clean and relative and leads
-- below a valid root, from the member's directory for a symbolic link and from the top for a hard one.
pub normalise_link_iff :
    (root : String) (is_symlink : Bool) (member link normal : String)
    → is_absolute member ≡ false
    → (normalise_link root is_symlink member link ≡ ok normal) ↔ (
        (validate_root root ≡ ok root)
        × (is_clean link ≡ true)
        × (is_absolute link ≡ false)
        × Reaches root (link_path is_symlink member link) normal)
unfolding normalise_link
normalise_link_iff root is_symlink member link normal flat = (
  λ h.
      let path = link_path is_symlink member link in
      let (r, p, h₁) = and_then-eq-ok (validate_root root) _ normal h in
      let (_, q, h₂) = and_then-eq-ok (check (is_clean link) value_error _) _ normal h₁ in
      let (_, a, h₃) = and_then-eq-ok (check (not (is_absolute link)) value_error _) _ normal h₂ in
      let (_, i, h₄) =
        and_then-eq-ok (check (is_inside r (parts (normpath path))) value_error _) _ normal h₃ in
      let e = validate_root-eq root r p in
      let rel : is_absolute link ≡ false = clear (check-eq-ok _ _ _ _ a) in
      let inside = rw e at (check-eq-ok (is_inside r (parts (normpath path))) _ _ _ i) in
      let n : normpath path ≡ normal = ok-injective _ _ h₄ in
      (
        rw e at p,
        check-eq-ok _ _ _ _ q,
        rel,
        rw n at (inside→Reaches root path (link-relative is_symlink member link flat rel) inside),
      ),
  λ (p, q, rel, r).
      let (inside, n) =
        Reaches→inside root (link_path is_symlink member link)
          (link-relative is_symlink member link flat rel) r in
      rw (p, q, rel, n) (rw (rw n at inside) refl),
)
