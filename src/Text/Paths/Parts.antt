-- ===== src/Text/Paths/Parts.antt =====
-- `split` undoes `"/".join`, so the parts of a normal path are the components it was joined from.
use Prim.Native.String
use text.Mathlib.TextLemmas.{nil-append, cons-append, append-nil, append_assoc, cons-ne-nil}
use chromium_compile.Prelude.{
  String, Char, code, Bool, true, false, ◌≡◌, refl, List, [], ◌∷◌, ◌==◌, ◌||◌, eqb, ap, arith, ◌∙◌,
  All, All-imp, eq_iff, keep_if, inl, inr, Bool-cases,
}
use chromium_compile.Text.Version.{split, push_char}
use chromium_compile.Text.Paths.{
  is_real, slashed, tail_text, starts_slash, tail_parts, parts, push_comp, norm_stack, reverse_onto,
  root_of, or_dot, normpath,
}

-- `"/" in s`
unfoldable pub has_slash : String → Bool
has_slash String.[] = false
has_slash (String.◌∷◌ c s) = eqb (code c) b'/' || has_slash s

abbrev pub IsPart : String → Type 0
IsPart s = (is_real s ≡ true) × (has_slash s ≡ false)

slash-append : (s : String) → String.◌++◌ "/" s ≡ String.◌∷◌ "/" s
slash-append s = cons-append "/" "" s ∙ ap (String.◌∷◌ "/") (nil-append s)

split-append :
    (x s : String)
    → has_slash x ≡ false
    → split b'/' (String.◌++◌ x (String.◌∷◌ "/" s)) ≡ x ∷ split b'/' s
unfolding split has_slash
split-append String.[] s h = rw (nil-append (String.◌∷◌ "/" s)) refl
split-append (String.◌∷◌ c x) s h = elim (Bool-cases (eqb (code c) b'/')) [
  | inl e ↦ absurd (cc (rw e at h))
  | inr e ↦
      rw
        (
          cons-append c x (String.◌∷◌ "/" s),
          e,
          split-append x s (rw e at h),
          cons-append c "" x,
          nil-append x,
        )
        refl
]

split-part : (x : String) → has_slash x ≡ false → split b'/' x ≡ x ∷ []
unfolding split has_slash
split-part String.[] h = refl
split-part (String.◌∷◌ c x) h = elim (Bool-cases (eqb (code c) b'/')) [
  | inl e ↦ absurd (cc (rw e at h))
  | inr e ↦ rw (e, split-part x (rw e at h), cons-append c "" x, nil-append x) refl
]

IsPlain : String → Type 0
IsPlain s = has_slash s ≡ false

split-slashed :
    (x : String) (xs : List String)
    → IsPlain x
    → All IsPlain xs
    → split b'/' (slashed (x ∷ xs)) ≡ x ∷ xs
unfolding slashed IsPlain
split-slashed x [] h hs = rw (append-nil x) (split-part x h)
split-slashed x (y ∷ ys) h (k, ks) =
    rw (append_assoc "/" y (tail_text ys), slash-append (String.◌++◌ y (tail_text ys)))
      (split-append x (slashed (y ∷ ys)) h ∙ ap (λ l. x ∷ l) (split-slashed y ys k ks))

keep_if-real : (xs : List String) → All IsPart xs → keep_if is_real xs ≡ xs
unfolding keep_if
keep_if-real [] h = refl
keep_if-real (x ∷ xs) (h, hs) = rw (h.0, keep_if-real xs hs) refl

starts-slashed :
    (x : String) (xs : List String) → IsPart x → starts_slash (slashed (x ∷ xs)) ≡ false
unfolding slashed has_slash starts_slash
starts-slashed String.[] xs (r, h) = absurd (cc)
starts-slashed (String.◌∷◌ c x) xs (r, h) = rw (cons-append c x (tail_text xs)) (ground arith)

cons-nonempty : (c : Char) (s : String) → (String.◌∷◌ c s == "") ≡ false
cons-nonempty c s = elim (Bool-cases (String.◌∷◌ c s == "")) [
  | inl e ↦ absurd (cons-ne-nil c s ((eq_iff (String.◌∷◌ c s) "").0 e))
  | inr e ↦ e
]

slashed-nonempty : (x : String) (xs : List String) → IsPart x → (slashed (x ∷ xs) == "") ≡ false
unfolding slashed
slashed-nonempty String.[] xs (r, h) = absurd (cc)
slashed-nonempty (String.◌∷◌ c x) xs (r, h) =
    rw (cons-append c x (tail_text xs)) (cons-nonempty c (String.◌++◌ x (tail_text xs)))

pub parts-slashed :
    (x : String) (xs : List String) → All IsPart (x ∷ xs) → parts (slashed (x ∷ xs)) ≡ x ∷ xs
unfolding parts tail_parts IsPlain
parts-slashed x xs h =
    let plain = All-imp IsPart IsPlain (x ∷ xs) (λ y p. p.1) h in
    rw (starts-slashed x xs h.0, split-slashed x xs plain.0 plain.1) (keep_if-real (x ∷ xs) h)

split-push :
    (c : Char) (xs : List String)
    → eqb (code c) b'/' ≡ false
    → All IsPlain xs
    → All IsPlain (push_char (String.◌∷◌ c String.[]) xs)
unfolding has_slash IsPlain
split-push c [] e h = rw e (refl, tt)
split-push c (x ∷ xs) e (h, hs) = rw (cons-append c "" x, nil-append x, e) (h, hs)

split-IsPlain : (s : String) → All IsPlain (split b'/' s)
unfolding split has_slash IsPlain
split-IsPlain String.[] = (refl, tt)
split-IsPlain (String.◌∷◌ c s) = elim (Bool-cases (eqb (code c) b'/')) [
  | inl e ↦ rw e (refl, split-IsPlain s)
  | inr e ↦ rw e (split-push c (split b'/' s) e (split-IsPlain s))
]

push-IsPart :
    (rooted : Bool) (stack : List String) (c : String)
    → IsPlain c
    → All IsPart stack
    → All IsPart (push_comp rooted stack c)
unfolding push_comp IsPlain
push-IsPart rooted [] c p h = ground arith
push-IsPart rooted (x ∷ xs) c p h = ground arith

norm_stack-IsPart :
    (rooted : Bool) (stack cs : List String)
    → All IsPlain cs
    → All IsPart stack
    → All IsPart (norm_stack rooted stack cs)
unfolding norm_stack
norm_stack-IsPart rooted stack [] p h = h
norm_stack-IsPart rooted stack (c ∷ cs) (p, ps) h =
    norm_stack-IsPart rooted (push_comp rooted stack c) cs ps (push-IsPart rooted stack c p h)

reverse_onto-IsPart :
    (xs acc : List String) → All IsPart xs → All IsPart acc → All IsPart (reverse_onto xs acc)
reverse_onto-IsPart [] acc h k = k
reverse_onto-IsPart (x ∷ xs) acc (h, hs) k = reverse_onto-IsPart xs (x ∷ acc) hs (h, k)

-- The components of a relative path without the detours
abbrev pub components : String → List String
components path = reverse_onto (norm_stack false [] (split b'/' path)) []

pub components-IsPart : (path : String) → All IsPart (components path)
components-IsPart path =
    reverse_onto-IsPart _ [] (norm_stack-IsPart false [] (split b'/' path) (split-IsPlain path) tt)
      tt

pub joined-slashed :
    (x : String) (xs : List String)
    → All IsPart (x ∷ xs)
    → or_dot (slashed (x ∷ xs)) ≡ slashed (x ∷ xs)
joined-slashed x xs h = rw (slashed-nonempty x xs h.0) refl

joined-parts : (xs : List String) → All IsPart xs → parts (or_dot (slashed xs)) ≡ xs
unfolding slashed parts tail_parts keep_if split starts_slash
joined-parts [] h = refl
joined-parts (x ∷ xs) h = rw (slashed-nonempty x xs h.0) (parts-slashed x xs h)

root-relative : (path : String) → starts_slash path ≡ false → root_of path ≡ ""
unfolding starts_slash root_of
root-relative String.[] h = refl
root-relative (String.◌∷◌ c s) h = rw h refl

pub normpath_relative :
    (path : String) → starts_slash path ≡ false → normpath path ≡ or_dot (slashed (components path))
unfolding normpath
normpath_relative String.[] h = refl
normpath_relative (String.◌∷◌ c s) h =
    rw (cons-nonempty c s, root-relative (String.◌∷◌ c s) h, nil-append) (rw h refl)

-- `parts` of a normal relative path are its components.
pub parts-normpath :
    (path : String) → starts_slash path ≡ false → parts (normpath path) ≡ components path
parts-normpath path h =
    rw (normpath_relative path h) (joined-parts (components path) (components-IsPart path))
