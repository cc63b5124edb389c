-- ===== src/Text/Paths/Walk.antt =====
-- `normpath` against a walk that starts at a directory and may not leave it.
use chromium_compile.Prelude.{
  String, Bool, true, false, not, ◌≡◌, refl, List, [], ◌∷◌, Option, none, some, ◌==◌, mem, ap, sym,
  ◌∙◌, eq_iff, arith, if◌then◌else◌, ◌↔◌, inl, inr, Option-cases,
}
use chromium_compile.Text.Paths.{is_real, push_comp, norm_stack}

abbrev parent : List String → Option (List String)
parent [] = none
parent (_ ∷ dirs) = some dirs

-- One component, from a directory below the start; `..` at the start leaves it.
abbrev pub enter : List String → String → Option (List String)
enter dirs comp =
    if not (is_real comp)
    then some dirs
    else if comp == ".."
    then parent dirs
    else some (comp ∷ dirs)

-- The directory where a path ends, the innermost first, or none if it leaves the start on its way
unfoldable pub walk : List String → List String → Option (List String)
walk dirs [] = some dirs
walk dirs (c ∷ cs) = elim (enter dirs c) [ none ↦ none | some dirs' ↦ walk dirs' cs ]

enter-push :
    (dirs : List String) (c : String) (dirs' : List String)
    → mem ".." dirs ≡ false
    → enter dirs c ≡ some dirs'
    → (push_comp false dirs c ≡ dirs') × (mem ".." dirs' ≡ false)
unfolding push_comp mem
enter-push [] c dirs' clean e = ground (arith, eq_iff c "..")
enter-push (d ∷ dirs) c dirs' clean e = ground (arith, eq_iff c "..", eq_iff d "..")

walk-norm :
    (dirs cs ds : List String)
    → mem ".." dirs ≡ false
    → walk dirs cs ≡ some ds
    → (norm_stack false dirs cs ≡ ds) × (mem ".." ds ≡ false)
unfolding walk norm_stack
walk-norm dirs [] ds clean e = ground arith
walk-norm dirs (c ∷ cs) ds clean e = elim (Option-cases (enter dirs c)) [
  | inl p ↦ absurd (cc (rw (p, walk) at e))
  | inr (dirs', p) ↦
      let (q, clean') = enter-push dirs c dirs' clean p in
      rw q (walk-norm dirs' cs ds clean' (rw (p, walk) at e))
]

-- The path has left the start: its first component is `..`.
abbrev is_above : List String → Bool
is_above [] = false
is_above (x ∷ []) = x == ".."
is_above (_ ∷ y ∷ xs) = is_above (y ∷ xs)

push-above :
    (stack : List String) (c : String)
    → is_above stack ≡ true
    → is_above (push_comp false stack c) ≡ true
unfolding push_comp
push-above [] c h = cc
push-above (x ∷ []) c h = ground arith
push-above (x ∷ y ∷ xs) c h = ground arith

norm-above :
    (stack cs : List String) → is_above stack ≡ true → is_above (norm_stack false stack cs) ≡ true
unfolding norm_stack
norm-above stack [] h = h
norm-above stack (c ∷ cs) h = norm-above (push_comp false stack c) cs (push-above stack c h)

above-mem : (stack : List String) → is_above stack ≡ true → mem ".." stack ≡ true
unfolding mem
above-mem [] h = h
above-mem (x ∷ []) h = rw h
above-mem (x ∷ y ∷ xs) h = ground (arith, above-mem (y ∷ xs) h)

enter-above :
    (dirs : List String) (c : String)
    → enter dirs c ≡ none
    → is_above (push_comp false dirs c) ≡ true
unfolding push_comp
enter-above [] c e = ground arith
enter-above (d ∷ dirs) c e = ground arith

walk-above :
    (dirs cs : List String)
    → mem ".." dirs ≡ false
    → walk dirs cs ≡ none
    → is_above (norm_stack false dirs cs) ≡ true
unfolding walk norm_stack
walk-above dirs [] clean e = cc
walk-above dirs (c ∷ cs) clean e = elim (Option-cases (enter dirs c)) [
  | inl p ↦ norm-above (push_comp false dirs c) cs (enter-above dirs c p)
  | inr (dirs', p) ↦
      let (q, clean') = enter-push dirs c dirs' clean p in
      rw q (walk-above dirs' cs clean' (rw (p, walk) at e))
]

-- What `normpath` leaves of a relative path holds no `..` exactly when the walk stays below the start,
-- and is then where the walk ends.
pub norm_stack-walk :
    (cs ds : List String)
    → (walk [] cs ≡ some ds) ↔ ((norm_stack false [] cs ≡ ds) × (mem ".." ds ≡ false))
unfolding mem
norm_stack-walk cs ds = (
  walk-norm [] cs ds refl,
  λ (e, clean). elim (Option-cases (walk [] cs)) [
    | inl p ↦ absurd (cc (above-mem ds (rw e at (walk-above [] cs refl p))))
    | inr (dirs, p) ↦ p ∙ ap some (sym (walk-norm [] cs dirs refl p).0 ∙ e)
  ],
)
