-- ===== src/Watchdog/Child/Grace.antt =====
-- The wait for the child ends, and a child that was ended is gone.
use chromium_compile.Prelude.{
  ℕ, zero, suc, ◌+◌, ◌*◌, ◌≤◌, true, some, ◌≡◌, refl, ap, ◌∙◌, arith, ltb, ◌⊎◌, inl, inr,
  Bool-cases, Option-cases, max,
}
use chromium_compile.Result.{ok, ok-injective}
use chromium_compile.Host.{State, pure, ◌>>=◌}
use chromium_compile.Host.Laws.{bind-eq-ok, throw-ne-ok}
use chromium_compile.Archive.{ℤ}
use chromium_compile.Watchdog.Progress.{second}
use chromium_compile.Watchdog.Machine.{Machine, ask, pass_time, IsSteady}
use chromium_compile.Watchdog.Child.{
  when_running, signal_child, kill_child, sigterm, wait_grace, grace_rounds, await_end,
  terminate_child,
}

module _ (m : Machine) (steady : IsSteady m) where
  open steady use {time, monotonic_le, sleep_le, poll_le}

  wait_grace-step :
      (left deadline : ℕ) (s : State m.World)
      → ((t : State m.World)
          → time s.world + 200000 ≤ time t.world
          → ltb (m.monotonic (m.poll s.world).1).0 deadline ≡ true
          → (wait_grace m left deadline t).0 ≡ ok true)
      → (wait_grace m (suc left) deadline s).0 ≡ ok true
  unfolding wait_grace ask pass_time ◌>>=◌ pure
  wait_grace-step left deadline s next = elim (Option-cases (m.poll s.world).0) [
    | inr (code, e) ↦ rw e refl
    | inl e ↦ elim (Bool-cases (ltb (m.monotonic (m.poll s.world).1).0 deadline)) [
      | inr late ↦ rw (e, late) refl
      | inl early ↦
          let (a, b) = monotonic_le (m.poll s.world).1 in
          rw (e, early)
            (next
              (record {
                world = m.sleep 200000 (m.monotonic (m.poll s.world).1).1;
                calls = s.calls;
              })
              (omega
                (arith, poll_le s.world, a, b, sleep_le 200000 (m.monotonic (m.poll s.world).1).1))
              early)
    ]
  ]

  wait_grace-total :
      (left deadline : ℕ) (s : State m.World)
      → deadline ≤ time s.world + 200000 * left
      → (wait_grace m (suc left) deadline s).0 ≡ ok true
  wait_grace-total zero deadline s h = wait_grace-step zero deadline s (λ t p e.
      let a = (monotonic_le (m.poll s.world).1).0 in
      absurd (ground (arith, poll_le s.world, a, e, h)))
  wait_grace-total (suc left) deadline s h =
      wait_grace-step (suc left) deadline s
        (λ t p e. wait_grace-total left deadline t (omega arith))

  -- On a clock that does not run backwards, the wait that `terminate_child` makes ends by its test.
  pub wait_grace_ends :
      (grace now : ℕ) (s : State m.World)
      → now ≤ time s.world
      → (wait_grace m (grace_rounds m grace) (now + grace * second) s).0 ≡ ok true
  wait_grace_ends grace now s h =
      let e : 5 * grace + 1 ≡ suc (5 * grace) = omega arith in
      rw e (wait_grace-total (5 * grace) (now + grace * second) s (omega arith))

module _ (m : Machine) where
  -- The child was seen to have ended.
  abbrev pub IsEnded : Type 0
  IsEnded =
      ((w : m.World) × (code : ℤ) × ((m.poll w).0 ≡ some code))
      ⊎ ((w : m.World) × (seconds : ℕ) × ((m.wait seconds w).0 ≡ true))

  pub ask-eq-ok :
      {A : Type 0} (f : m.World → A × m.World) (a : A) (s t : State m.World)
      → ask f s ≡ (ok a, t)
      → (f s.world).0 ≡ a
  unfolding ask
  ask-eq-ok f a s t h = ok-injective _ a (ap (λ p. p.0) h)

  await_end-IsEnded :
      (grace : ℕ) (u : Unit) (s t : State m.World) → await_end m grace s ≡ (ok u, t) → IsEnded
  unfolding await_end
  await_end-IsEnded grace u s t h =
      let (ended, v, p, q) = bind-eq-ok (ask (m.wait (max grace 1))) _ s t u h in
      elim (Bool-cases ended) [
        | inl e ↦ inr (s.world, max grace 1, ask-eq-ok (m.wait (max grace 1)) ended s v p ∙ e)
        | inr e ↦ throw-ne-ok _ _ u v t (rw e at q)
      ]

  -- A child that `terminate_child` returned for has ended.
  pub terminate_child-IsEnded :
      (grace : ℕ) (u : Unit) (s t : State m.World) → terminate_child m grace s ≡ (ok u, t) → IsEnded
  unfolding terminate_child
  terminate_child-IsEnded grace u s t h =
      let (polled, v, p, q) = bind-eq-ok (ask m.poll) _ s t u h in
      elim (Option-cases polled) [
        | inr (code, e) ↦ inl (s.world, code, ask-eq-ok m.poll polled s v p ∙ e)
        | inl e ↦
            let (_, v₁, _, q₁) = bind-eq-ok (signal_child m sigterm) _ v t u (rw e at q) in
            let (now, v₂, _, q₂) = bind-eq-ok (ask m.monotonic) _ v₁ t u q₁ in
            let (_, v₃, _, q₃) =
              bind-eq-ok (wait_grace m (grace_rounds m grace) (now + grace * second)) _ v₂ t u q₂ in
            let (still, v₄, _, q₄) = bind-eq-ok (ask m.poll) _ v₃ t u q₃ in
            let (_, v₅, _, q₅) = bind-eq-ok (when_running m (kill_child m) still) _ v₄ t u q₄ in
            await_end-IsEnded grace u v₅ t q₅
      ]
