-- ===== src/Host/Returns.antt =====
-- What holds of the value that an action returns, if it returns, with a rule for each way to build
-- an action.
use chromium_compile.Prelude.{String, Bool, true, false, ◌≡◌, refl, inl, inr, if◌then◌else◌, subst}
use chromium_compile.Result.{Exc, Result, ok}
use chromium_compile.Host.{State, Act, pure, throw, lift, ◌>>=◌, recover}
use chromium_compile.Host.Laws.{bind-eq-ok, pure-eq-ok, lift-eq-ok, throw-ne-ok, recover-eq-ok}

pub record Returns {W A : Type 0} (P : A → Type 0) (m : Act W A) : Type 0 where
  pub at : (a : A) (s t : State W) → m s ≡ (ok a, t) → P a

module _ {W A : Type 0} (P : A → Type 0) where
  pub Returns-pure : (a : A) → P a → Returns P (pure {W = W} a)
  Returns-pure a p = record { at = λ b s t e. subst P (pure-eq-ok a b s t e).0 p }

  pub Returns-throw : (x : Exc) (m : String) → Returns P (throw {W = W} x m)
  Returns-throw x m = record { at = λ b s t e. throw-ne-ok x m b s t e }

  pub Returns-lift : (r : Result A) → ((a : A) → r ≡ ok a → P a) → Returns P (lift {W = W} r)
  Returns-lift r f = record { at = λ b s t e. f b (lift-eq-ok r b s t e).0 }

  pub Returns-if :
      (b : Bool) (m n : Act W A)
      → (b ≡ true → Returns P m)
      → (b ≡ false → Returns P n)
      → Returns P (if b then m else n)
  Returns-if true m n p q = p refl
  Returns-if false m n p q = q refl

  pub Returns-recover :
      (x : Exc) (m : Act W A) (k : String → Act W A)
      → Returns P m
      → ((text : String) → Returns P (k text))
      → Returns P (recover x m k)
  Returns-recover x m k p q = record {
    at = λ b s t e. elim (recover-eq-ok x m k s t b e) [
      | inl h ↦ p.at b s t h
      | inr (y, text, u, h, c, h') ↦ (q text).at b u t h'
    ];
  }

  pub Returns-bind :
      {B : Type 0} (m : Act W B) (f : B → Act W A)
      → ((b : B) → Returns P (f b))
      → Returns P (m >>= f)
  Returns-bind m f q = record {
    at = λ a s t e. let (b, u, h, h') = bind-eq-ok m f s t a e in (q b).at a u t h';
  }

pub ruleset returns_rules = (Returns-pure, Returns-throw, Returns-bind, Returns-recover, Returns-if)
