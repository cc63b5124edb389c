-- ===== src/Text/Paths/Relative.antt =====
-- Relative paths stay relative under `dirname` and `join`.
use Prim.Native.String
use text.Mathlib.TextLemmas.{nil-append, cons-append}
use chromium_compile.Prelude.{
  String, code, false, ◌≡◌, refl, ◌==◌, eqb, not, ◌&&◌, arith, inl, inr, Bool-cases,
}
use chromium_compile.Text.Paths.{starts_slash, ends_slash, head_part, rstrip_slash, dirname, join}

head-relative : (s : String) → starts_slash s ≡ false → starts_slash (head_part s) ≡ false
unfolding starts_slash
head-relative String.[] h = refl
head-relative (String.◌∷◌ c s) h =
    elim (Bool-cases (head_part s == "" && not (eqb (code c) b'/'))) [
      | inl e ↦ rw e refl
      | inr e ↦ rw e h
    ]

rstrip-relative : (s : String) → starts_slash s ≡ false → starts_slash (rstrip_slash s) ≡ false
unfolding starts_slash rstrip_slash
rstrip-relative String.[] h = refl
rstrip-relative (String.◌∷◌ c s) h = ground arith

pub dirname-relative : (s : String) → starts_slash s ≡ false → starts_slash (dirname s) ≡ false
unfolding dirname
dirname-relative s h = let p = head-relative s h in ground (arith, rstrip-relative (head_part s) p)

append-relative :
    (base path : String)
    → starts_slash base ≡ false
    → starts_slash path ≡ false
    → starts_slash (String.◌++◌ base path) ≡ false
unfolding starts_slash
append-relative String.[] path h k = rw (nil-append path) k
append-relative (String.◌∷◌ c s) path h k = rw (cons-append c s path) h

between-relative :
    (base path : String)
    → starts_slash base ≡ false
    → (base == "") ≡ false
    → starts_slash (String.◌++◌ (String.◌++◌ base "/") path) ≡ false
unfolding starts_slash
between-relative String.[] path h e = absurd (cc)
between-relative (String.◌∷◌ c s) path h e =
    rw (cons-append c s "/", cons-append c (String.◌++◌ s "/") path) h

pub join-relative :
    (base path : String)
    → starts_slash base ≡ false
    → starts_slash path ≡ false
    → starts_slash (join base path) ≡ false
unfolding join
join-relative base path h k = elim (Bool-cases (base == "")) [
  | inl e ↦ rw (k, e) (append-relative base path h k)
  | inr e ↦ elim (Bool-cases (ends_slash base)) [
    | inl d ↦ rw (k, e, d) (append-relative base path h k)
    | inr d ↦ rw (k, e, d) (between-relative base path h e)
  ]
]
