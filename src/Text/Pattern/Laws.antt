-- ===== src/Text/Pattern/Laws.antt =====
-- A literal and a run of a class, taken off a text and put back.
use Prim.Native.String
use chromium_compile.Prelude.{
  ℕ, String, code, Bool, true, ◌≡◌, refl, ap, ◌∙◌, sym, none, some, Bool-cases, inl, inr, arith,
  eqb,
}
use text.Mathlib.TextEquality.{Char-path}
use text.Mathlib.TextLemmas.{nil-append, cons-append}
use chromium_compile.Text.Digits.{all_chars}
use chromium_compile.Text.Pattern.{drop_prefix, span}

cons_eq :
    {c d : Prim.Native.Char.Char} {s t : String} → c ≡ d → s ≡ t → String.◌∷◌ c s ≡ String.◌∷◌ d t
cons_eq p q = cc

none_ne_some : {A : Type 0} (a : A) → none ≡ some a → ⊥
none_ne_some a e = cc

pub drop_prefix-append : (p s : String) → drop_prefix p (String.◌++◌ p s) ≡ some s
unfolding drop_prefix
drop_prefix-append String.[] s = ap some (nil-append s)
drop_prefix-append (String.◌∷◌ c p) s =
    rw (cons-append c p s) (ground (arith, drop_prefix-append p s))

pub drop_prefix-some : (p s rest : String) → drop_prefix p s ≡ some rest → s ≡ String.◌++◌ p rest
unfolding drop_prefix
drop_prefix-some String.[] s rest e = rw (nil-append rest) (cc)
drop_prefix-some (String.◌∷◌ c p) String.[] rest e = absurd (cc)
drop_prefix-some (String.◌∷◌ c p) (String.◌∷◌ d s) rest e =
    elim (Bool-cases (eqb (code c) (code d))) [
      | inl b ↦
          rw (cons-append c p rest)
            (cons_eq (Char-path d c (ground arith)) (drop_prefix-some p s rest (rw b at e)))
      | inr b ↦ absurd (none_ne_some rest (rw b at e))
    ]

-- A run of the class that is followed by what has none at its head
pub span-append :
    (p : ℕ → Bool) (s t : String)
    → all_chars p s ≡ true
    → span p t ≡ ("", t)
    → span p (String.◌++◌ s t) ≡ (s, t)
unfolding span all_chars
span-append p String.[] t a e = rw (nil-append t) e
span-append p (String.◌∷◌ c s) t a e =
    let rest = span-append p s t (ground arith) e in
    let head : p (code c) ≡ true = ground arith in rw (cons-append c s t, rest, head) refl

pub span-splits :
    (p : ℕ → Bool) (s : String)
    → (s ≡ String.◌++◌ (span p s).0 (span p s).1) × (all_chars p (span p s).0 ≡ true)
unfolding span all_chars
span-splits p String.[] = (sym (nil-append ""), refl)
span-splits p (String.◌∷◌ c s) =
    let (joined, all) = span-splits p s in
    elim (Bool-cases (p (code c))) [
      | inl b ↦
          rw b (cons_eq refl joined ∙ sym (cons-append c (span p s).0 (span p s).1), ground arith)
      | inr b ↦ rw b (sym (nil-append (String.◌∷◌ c s)), refl)
    ]
