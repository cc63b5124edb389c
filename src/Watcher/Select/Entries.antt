-- ===== src/Watcher/Select/Entries.antt =====
-- Facts about lists of versions with their keys, for `select_candidates`.
use chromium_compile.Prelude.{
  ℕ, zero, suc, String, Bool, true, ◌≡◌, refl, ◌==◌, List, [], ◌∷◌, length, mem, take, keep_if,
  arith, All, All-imp, All-keep_if, All-take, Bool-cases, inl, inr, ◌⊎◌, eq_iff, ap,
}
use chromium_compile.Result.{ok}
use chromium_compile.Text.Version.{Key, version_key, key_leb}
use chromium_compile.Text.Version.Sorting.{Entry, names, IsKeyed, IsSorted}

-- By the order of version numbers, v is not above w.
abbrev pub Precedes : String → String → Type 0
Precedes v w =
    (k : Key) × (l : Key) × (version_key v ≡ ok k) × (version_key w ≡ ok l) × (key_leb k l ≡ true)

-- Each version precedes the later ones.
abbrev pub IsAscending : List String → Type 0
IsAscending [] = Unit
IsAscending (v ∷ vs) = All (Precedes v) vs × IsAscending vs

pub All-names {κ} :
    (Q : String → Type κ) (es : List Entry) → All (λ e. Q e.name) es → All Q (names es)
unfolding names
All-names Q [] h = tt
All-names Q (e ∷ es) (q, h) = (q, All-names Q es h)

pub length-names : (es : List Entry) → length (names es) ≡ length es
unfolding names
length-names [] = refl
length-names (e ∷ es) = ap suc (length-names es)

pub All-listed :
    (ns : List String) (es : List Entry)
    → ((v : String) → mem v (names es) ≡ true → mem v ns ≡ true)
    → All (λ e. mem e.name ns ≡ true) es
unfolding names mem
All-listed ns [] f = tt
All-listed ns (e ∷ es) f =
    (f e.name (ground (arith, eq_iff e.name e.name)), All-listed ns es (λ v h. f v (ground arith)))

-- The entry of a listed name
pub find_entry {κ} :
    (P : Entry → Type κ) (v : String) (es : List Entry)
    → All P es
    → mem v (names es) ≡ true
    → (e : Entry) × (e.name ≡ v) × P e
unfolding names mem
find_entry P v [] h m = absurd (cc)
find_entry P v (e ∷ es) (p, h) m = elim (Bool-cases (e.name == v)) [
  | inl b ↦ (e, (eq_iff e.name v).0 b, p)
  | inr b ↦ find_entry P v es h (ground arith)
]

pub keep_if-IsSorted : (p : Entry → Bool) (es : List Entry) → IsSorted es → IsSorted (keep_if p es)
unfolding keep_if
keep_if-IsSorted p [] h = tt
keep_if-IsSorted p (e ∷ es) (q, h) = elim (Bool-cases (p e)) [
  | inl b ↦ rw b (
    All-imp _ (λ y. key_leb e.key y.key ≡ true) (keep_if p es) (λ x pair. pair.0)
        (All-keep_if (λ y. key_leb e.key y.key ≡ true) p es q),
    keep_if-IsSorted p es h,
  )
  | inr b ↦ rw b (keep_if-IsSorted p es h)
]

pub Precedes-of_keys :
    (x : Entry) (es : List Entry)
    → IsKeyed x
    → All IsKeyed es
    → All (λ y. key_leb x.key y.key ≡ true) es
    → All (λ y. Precedes x.name y.name) es
Precedes-of_keys x [] k ks h = tt
Precedes-of_keys x (y ∷ es) k (l, ks) (q, h) =
    ((x.key, y.key, k, l, q), Precedes-of_keys x es k ks h)

pub names-IsAscending : (es : List Entry) → All IsKeyed es → IsSorted es → IsAscending (names es)
unfolding names
names-IsAscending [] ks h = tt
names-IsAscending (e ∷ es) (k, ks) (q, h) =
    (All-names (Precedes e.name) es (Precedes-of_keys e es k ks q), names-IsAscending es ks h)

pub take-IsSorted : (n : ℕ) (es : List Entry) → IsSorted es → IsSorted (take n es)
take-IsSorted zero es h = tt
take-IsSorted (suc n) [] h = tt
take-IsSorted (suc n) (e ∷ es) (q, h) =
    (All-take (λ y. key_leb e.key y.key ≡ true) n es q, take-IsSorted n es h)

-- A prefix of a sorted list either holds a listed name or is full of versions that precede it.
pub take_complete :
    (n : ℕ) (v : String) (es : List Entry)
    → All IsKeyed es
    → IsSorted es
    → mem v (names es) ≡ true
    → (mem v (names (take n es)) ≡ true)
      ⊎ ((length (names (take n es)) ≡ n) × All (λ w. Precedes w v) (names (take n es)))
unfolding names mem
take_complete zero v es ks h m = inr (refl, tt)
take_complete (suc n) v [] ks h m = absurd (cc)
take_complete (suc n) v (e ∷ es) (k, ks) (q, h) m = elim (Bool-cases (e.name == v)) [
  | inl b ↦ inl (rw b refl)
  | inr b ↦
      let deeper : mem v (names es) ≡ true = ground arith in
      let both = Precedes-of_keys e es k ks q in
      let (f, named, p) = find_entry (λ y. Precedes e.name y.name) v es both deeper in
      elim (take_complete n v es ks h deeper) [
        | inl found ↦ inl (rw (b, found))
        | inr (full, before) ↦ inr (ap suc full, (rw named at p, before))
      ]
]

pub mem-keep_entries :
    (p : Entry → Bool) (v : String) (es : List Entry)
    → All (λ f. f.name ≡ v → p f ≡ true) es
    → mem v (names es) ≡ true
    → mem v (names (keep_if p es)) ≡ true
unfolding names mem keep_if
mem-keep_entries p v [] h m = m
mem-keep_entries p v (e ∷ es) (q, h) m = elim (Bool-cases (e.name == v)) [
  | inl b ↦ rw (q ((eq_iff e.name v).0 b), b)
  | inr b ↦
      let deeper : mem v (names (keep_if p es)) ≡ true = mem-keep_entries p v es h (ground arith) in
      ground arith
]
