-- ===== src/Prelude/Sets.antt =====
-- Python's `set` of strings. A set is used by membership alone, or by iteration behind a sort, so
-- it is a list without an order that matters.
use Prim.Native.String.{String}
use mathlib.Core.Path.{◌≡◌, refl, ap}
use mathlib.Core.Bool.{Bool, false, not, ◌||◌, ◌&&◌}
use mathlib.Core.List.{List, [], ◌∷◌}
use native.Mathlib.Omega.{arith}
use text.Mathlib.Text.{◌==◌}
use text.Mathlib.TextEquality.{eq_iff}
use chromium_compile.Prelude.Tests.{if◌then◌else◌}
use chromium_compile.Prelude.Lists.{keep_if}

-- `x in s`
unfoldable pub mem : String → List String → Bool
mem x [] = false
mem x (y ∷ ys) = (y == x) || mem x ys

-- `s.add(x)`
unfoldable pub insert : String → List String → List String
unfolding mem
insert x s = if mem x s then s else x ∷ s

-- `set(xs)`
unfoldable pub to_set : List String → List String
unfolding insert
to_set [] = []
to_set (x ∷ xs) = insert x (to_set xs)

-- `s - t`, `s & t`, `s | t`
unfoldable pub diff : List String → List String → List String
unfolding keep_if mem
diff s t = keep_if (λ x. not (mem x t)) s

unfoldable pub inter : List String → List String → List String
unfolding keep_if mem
inter s t = keep_if (λ x. mem x t) s

unfoldable pub union : List String → List String → List String
unfolding insert
union [] t = t
union (x ∷ s) t = insert x (union s t)

pub mem-insert : (x y : String) (s : List String) → mem x (insert y s) ≡ ((y == x) || mem x s)
unfolding insert
mem-insert x y s = ground (arith, eq_iff y x, eq_iff x y)

pub mem-to_set : (x : String) (xs : List String) → mem x (to_set xs) ≡ mem x xs
unfolding to_set mem
mem-to_set x [] = refl
mem-to_set x (y ∷ ys) = ground (arith, mem-to_set x ys, mem-insert x y (to_set ys))

pub mem-union : (x : String) (s t : List String) → mem x (union s t) ≡ (mem x s || mem x t)
unfolding union mem
mem-union x [] t = refl
mem-union x (y ∷ s) t = ground (arith, mem-union x s t, mem-insert x y (union s t))

pub mem-keep_if :
    (p : String → Bool) (x : String) (s : List String) → mem x (keep_if p s) ≡ (mem x s && p x)
unfolding mem keep_if
mem-keep_if p x [] = refl
mem-keep_if p x (y ∷ s) = ground (arith, mem-keep_if p x s, eq_iff y x, λ (e : y ≡ x). ap p e)

pub mem-diff : (x : String) (s t : List String) → mem x (diff s t) ≡ (mem x s && not (mem x t))
unfolding diff
mem-diff x s t = mem-keep_if (λ y. not (mem y t)) x s

pub mem-inter : (x : String) (s t : List String) → mem x (inter s t) ≡ (mem x s && mem x t)
unfolding inter
mem-inter x s t = mem-keep_if (λ y. mem y t) x s
