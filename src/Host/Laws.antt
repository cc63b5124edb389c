-- ===== src/Host/Laws.antt =====
-- Inversion of the actions that returned a value.
use chromium_compile.Prelude.{String, ◌≡◌, refl, ap, ◌⊎◌, inl, inr, true, Bool-cases}
use chromium_compile.Result.{Exc, Result, ok, raise}
use chromium_compile.Host.{State, Act, pure, throw, lift, resume, ◌>>=◌, recover, is_a, handle}

module _ {W A B : Type 0} where
  resume-eq-ok :
      (r : Result A) (u : State W) (f : A → Act W B) (b : B) (t : State W)
      → resume r f u ≡ (ok b, t)
      → (a : A) × (r ≡ ok a) × (f a u ≡ (ok b, t))
  resume-eq-ok (ok a) u f b t h = (a, refl, h)
  resume-eq-ok (raise x m) u f b t h = absurd (cc)

  -- A block that returned had a first step that returned.
  pub bind-eq-ok :
      (m : Act W A) (f : A → Act W B) (s t : State W) (b : B)
      → (m >>= f) s ≡ (ok b, t)
      → (a : A) × (u : State W) × (m s ≡ (ok a, u)) × (f a u ≡ (ok b, t))
  unfolding ◌>>=◌
  bind-eq-ok m f s t b h =
      let (a, p, q) = resume-eq-ok (m s).0 (m s).1 f b t h in
      (a, (m s).1, ap (λ r. (r, (m s).1)) p, q)

  -- A block whose first step returned goes on.
  pub bind_of_ok :
      (m : Act W A) (f : A → Act W B) (s u : State W) (a : A)
      → m s ≡ (ok a, u)
      → (m >>= f) s ≡ f a u
  unfolding ◌>>=◌
  bind_of_ok m f s u a h = rw (ap (λ p. p.0) h, ap (λ p. p.1) h)

module _ {W A : Type 0} where
  pub pure-eq-ok : (a b : A) (s t : State W) → pure a s ≡ (ok b, t) → (a ≡ b) × (s ≡ t)
  unfolding pure
  pure-eq-ok a b s t h = (cc, cc)

  pub lift-eq-ok :
      (r : Result A) (b : A) (s t : State W) → lift r s ≡ (ok b, t) → (r ≡ ok b) × (s ≡ t)
  unfolding lift
  lift-eq-ok r b s t h = (cc, cc)

  pub throw-ne-ok :
      {C : Type 0} (x : Exc) (m : String) (b : A) (s t : State W) → throw x m s ≡ (ok b, t) → C
  unfolding throw
  throw-ne-ok x m b s t h = absurd (cc)

  handle-eq-ok :
      (x : Exc) (r : Result A) (k : String → Act W A) (u t : State W) (b : A)
      → handle x r k u ≡ (ok b, t)
      → ((r ≡ ok b) × (u ≡ t))
        ⊎ ((y : Exc) × (m : String) × (r ≡ raise y m) × (is_a y x ≡ true) × (k m u ≡ (ok b, t)))
  handle-eq-ok x (ok a) k u t b h = inl (cc, cc)
  handle-eq-ok x (raise y m) k u t b h = elim (Bool-cases (is_a y x)) [
    | inl c ↦ inr (y, m, refl, c, rw c at h)
    | inr c ↦ absurd (throw-ne-ok y m b u t (unfold throw in rw c at h))
  ]

  -- A guarded block that returned did so by itself, or raised the exception and was recovered.
  pub recover-eq-ok :
      (x : Exc) (m : Act W A) (k : String → Act W A) (s t : State W) (b : A)
      → recover x m k s ≡ (ok b, t)
      → (m s ≡ (ok b, t))
        ⊎ ((y : Exc) × (text : String) × (u : State W) × (m s ≡ (raise y text, u))
            × (is_a y x ≡ true)
            × (k text u ≡ (ok b, t)))
  unfolding recover
  recover-eq-ok x m k s t b h = elim (handle-eq-ok x (m s).0 k (m s).1 t b h) [
    | inl (p, q) ↦ inl (cc)
    | inr (y, text, p, c, q) ↦ inr (y, text, (m s).1, ap (λ r. (r, (m s).1)) p, c, q)
  ]
