-- ===== src/Watchdog/Run/Ends.antt =====
-- With a timeout, on a clock that runs, the loop of the watchdog ends.
use chromium_compile.Prelude.{
  ℕ, zero, suc, ◌+◌, ◌*◌, ◌≤◌, ◌<◌, Bool, Option, none, some, ◌∷◌, ◌≡◌, ◌≢◌, refl, ap, sym, ◌∙◌,
  arith, String, subst, not, is_empty,
}
use chromium_compile.Result.{ok, ok-injective, and_then-eq-ok, map_ok-eq-ok, check, watchdog_error}
use chromium_compile.Host.{State, Act, pure, lift, ◌>>=◌}
use chromium_compile.Host.Laws.{bind-eq-ok, pure-eq-ok, lift-eq-ok, throw-ne-ok}
use chromium_compile.Archive.{ℤ, pos, negsuc}
use chromium_compile.Watchdog.Progress.{
  progress_fingerprint, Settings, Progress, note_progress, Verdict, deadline_reached, stalled,
  sleep_for, decide, tick, second,
}
use chromium_compile.Watchdog.Progress.Stall.{decide_bounds}
use chromium_compile.Watchdog.Machine.{Machine, ask, perform, pass_time, IsSteady}
use chromium_compile.Watchdog.Child.{terminate_child}
use chromium_compile.Watchdog.Child.Grace.{ask-eq-ok}
use chromium_compile.Watchdog.Run.{
  Request, validate_request, in_range, optional, all_arguments, validate_compiler_timeout_seconds,
  exit_code, need, drain, finish, write_stall_marker, clear_marker, act_on, look_on, by_poll,
  by_pump, watch_rounds, deadline_at, run_with_watchdog,
}
use chromium_compile.Watchdog.Run.Laws.{ensure-eq-ok}

in_range_bounds : (value : ℤ) (lo hi n : ℕ) → in_range value lo hi ≡ ok n → (lo ≤ n) × (n ≤ hi)
in_range_bounds (negsuc v) lo hi n h = absurd (cc)
in_range_bounds (pos v) lo hi n h = ground arith

-- What an accepted request says of the polls and the timeout
pub request_bounds :
    (r : Request) (c : Settings) (timeout : Option ℕ)
    → validate_request r ≡ ok (c, timeout)
    → (0 < c.poll_seconds) × (optional r.timeout ≡ ok timeout)
unfolding validate_request
request_bounds r c timeout h =
    let (_, _, h₁) = and_then-eq-ok (check (not (is_empty r.command)) watchdog_error _) _ _ h in
    let (_, _, h₂) = and_then-eq-ok (check (all_arguments r.command) watchdog_error _) _ _ h₁ in
    let (stall, _, h₃) = and_then-eq-ok (in_range r.stall 1 86400) _ _ h₂ in
    let (poll, p, h₄) = and_then-eq-ok (in_range r.poll 1 60) _ _ h₃ in
    let (grace, _, h₅) = and_then-eq-ok (in_range r.kill_grace 1 120) _ _ h₄ in
    let (timeout_grace, _, h₆) = and_then-eq-ok (in_range r.timeout_kill_grace 1 180) _ _ h₅ in
    let (o, q, h₇) = and_then-eq-ok (optional r.timeout) _ _ h₆ in
    let e = ok-injective _ (c, timeout) h₇ in
    let (low, _) = in_range_bounds r.poll 1 60 poll p in
    (omega (arith, low, ap (λ x. x.0.poll_seconds) e), q ∙ ap (λ x. ok x.1) e)

pub timeout_bounds :
    (value : ℤ) (timeout : Option ℕ)
    → optional (some value) ≡ ok timeout
    → (n : ℕ) × (timeout ≡ some n) × (n ≤ 20400)
unfolding validate_compiler_timeout_seconds
timeout_bounds value timeout h =
    let (n, p, q) = map_ok-eq-ok some (validate_compiler_timeout_seconds value) timeout h in
    (n, sym q, (in_range_bounds value 1 20400 n p).1)

module _ (m : Machine) where
  ask-world :
      {A : Type 0} (f : m.World → A × m.World) (a : A) (s t : State m.World)
      → ask f s ≡ (ok a, t)
      → t.world ≡ (f s.world).1
  unfolding ask
  ask-world f a s t h = ap (λ p. p.1.world) (sym h)

  finish-some :
      (has_log : Bool) (returncode : ℤ) (s t : State m.World)
      → finish m has_log returncode s ≡ (ok none, t)
      → ⊥
  unfolding finish
  finish-some has_log returncode s t h =
      let (_, u, _, q) = bind-eq-ok (drain m has_log) _ s t none h in
      let (signum, v, _, q₁) = bind-eq-ok (ask m.forwarded) _ u t none q in
      cc ((pure-eq-ok (some (exit_code signum returncode)) none v t q₁).0)

  pump-goes :
      (c : Settings) (go_on : Act m.World (Option ℤ)) (failure : Option String)
      (s t : State m.World)
      → by_pump m c go_on failure s ≡ (ok none, t)
      → go_on s ≡ (ok none, t)
  pump-goes c go_on none s t h = h
  pump-goes c go_on (some why) s t h =
      let (_, u, _, q) = bind-eq-ok (terminate_child m c.kill_grace_seconds) _ s t none h in
      throw-ne-ok _ _ none u t q

  poll-goes :
      (r : Request) (running : Act m.World (Option ℤ)) (polled : Option ℤ) (s t : State m.World)
      → by_poll m r running polled s ≡ (ok none, t)
      → running s ≡ (ok none, t)
  poll-goes r running none s t h = h
  poll-goes r running (some returncode) s t h =
      absurd (finish-some r.has_output_log returncode s t h)

  -- Only a sleep lets the loop go on.
  verdict-sleeps :
      (r : Request) (c : Settings) (again : Act m.World (Option ℤ)) (v : Verdict)
      (s t : State m.World)
      → act_on m r c again v s ≡ (ok none, t)
      → (n : ℕ) × (v ≡ sleep_for n)
        × (again (record s { world = m.sleep n s.world }) ≡ (ok none, t))
  unfolding act_on pass_time ◌>>=◌
  verdict-sleeps r c again deadline_reached s t h =
      let (_, u, _, q) =
        bind-eq-ok (terminate_child m c.timeout_kill_grace_seconds) (λ _. pure _) s t none h in
      absurd (cc ((pure-eq-ok _ none u t q).0))
  verdict-sleeps r c again stalled s t h =
      let (_, u, _, q) = bind-eq-ok (write_stall_marker m r.stall_marker) _ s t none h in
      let (_, u', _, q') = bind-eq-ok (terminate_child m c.kill_grace_seconds) _ u t none q in
      absurd (cc ((pure-eq-ok _ none u' t q').0))
  verdict-sleeps r c again (sleep_for n) s t h = (n, refl, h)

module _ (m : Machine) (steady : IsSteady m) where
  open steady use {time, monotonic_le, sleep_le, poll_le, lstat_le, pump_le}

  later :
      {A : Type 0} (f : m.World → A × m.World) (a : A) (s t : State m.World)
      → ask f s ≡ (ok a, t)
      → time s.world ≤ time (f s.world).1
      → time s.world ≤ time t.world
  later f a s t h le = rw (ask-world m f a s t h) le

  -- A round that does not end takes at least a tick, and is before the deadline.
  look_on-takes :
      (r : Request) (c : Settings) (deadline : ℕ) (p : Progress)
      (again : Progress → Act m.World (Option ℤ)) (s t : State m.World)
      → 0 < c.poll_seconds
      → look_on m r c (some deadline) p again s ≡ (ok none, t)
      → (q : Progress) × (u : State m.World) × (again q u ≡ (ok none, t))
        × (time s.world + tick ≤ time u.world)
        × (time s.world < deadline)
  unfolding look_on
  look_on-takes r c deadline p again s t polls h =
      let (info, s₁, p₁, h₁) = bind-eq-ok (ask m.lstat) _ s t none h in
      let (current, s₂, p₂, h₂) = bind-eq-ok (lift (progress_fingerprint info)) _ s₁ t none h₁ in
      let (now, s₃, p₃, h₃) = bind-eq-ok (ask m.monotonic) _ s₂ t none h₂ in
      let q = note_progress current now p in
      let (n, v, e) = verdict-sleeps m r c (again q) (decide c (some deadline) now q) s₃ t h₃ in
      let (long, _, early, _, _) = decide_bounds c deadline now n q polls v in
      let a : time s.world ≤ time s₁.world = later m.lstat info s s₁ p₁ (lstat_le s.world) in
      let b : time s₁.world ≡ time s₂.world =
        ap (λ x. time x.world) (lift-eq-ok _ current s₁ s₂ p₂).1 in
      let (le, ge) = monotonic_le s₂.world in
      let read = ask-eq-ok m m.monotonic now s₂ s₃ p₃ in
      let g : time s₃.world ≡ time (m.monotonic s₂.world).1 =
        ap time (ask-world m m.monotonic now s₂ s₃ p₃) in
      (
        q,
        record s₃ { world = m.sleep n s₃.world },
        e,
        omega (arith, a, b, le, ge, g, long, sleep_le n s₃.world),
        omega (arith, a, b, le, read, early),
      )

  watch_rounds-step :
      (left : ℕ) (r : Request) (c : Settings) (deadline : ℕ) (p : Progress) (s t : State m.World)
      → 0 < c.poll_seconds
      → watch_rounds m (suc left) r c (some deadline) p s ≡ (ok none, t)
      → (q : Progress) × (u : State m.World) × (watch_rounds m left r c (some deadline) q u
          ≡ (ok none, t))
        × (time s.world + tick ≤ time u.world)
        × (time s.world < deadline)
  unfolding watch_rounds
  watch_rounds-step left r c deadline p s t polls h =
      let (failure, s₁, p₁, h₁) = bind-eq-ok (ask m.pump_error) _ s t none h in
      let (polled, s₂, p₂, h₂) =
        bind-eq-ok (ask m.poll) _ s₁ t none (pump-goes m c _ failure s₁ t h₁) in
      let (q, u, e, a, b) =
        look_on-takes r c deadline p (watch_rounds m left r c (some deadline)) s₂ t polls
          (poll-goes m r _ polled s₂ t h₂) in
      let x = later m.pump_error failure s s₁ p₁ (pump_le s.world) in
      let y = later m.poll polled s₁ s₂ p₂ (poll_le s₁.world) in
      (q, u, e, omega (arith, x, y, a), omega (arith, x, y, b))

  watch_rounds-ends :
      (left : ℕ) (r : Request) (c : Settings) (deadline : ℕ) (p : Progress) (s t : State m.World)
      → 0 < c.poll_seconds
      → deadline ≤ time s.world + tick * left
      → watch_rounds m (suc left) r c (some deadline) p s ≡ (ok none, t)
      → ⊥
  watch_rounds-ends zero r c deadline p s t polls h e =
      let (q, u, e', a, b) = watch_rounds-step zero r c deadline p s t polls e in
      absurd (omega (arith, b, h))
  watch_rounds-ends (suc left) r c deadline p s t polls h e =
      let (q, u, e', a, b) = watch_rounds-step (suc left) r c deadline p s t polls e in
      watch_rounds-ends left r c deadline q u t polls (omega (arith, a, h)) e'

  loop_ends :
      (fuel : ℕ) (r : Request) (c : Settings) (timeout : Option ℕ) (n started : ℕ) (p : Progress)
      (s t : State m.World)
      → 408001 ≤ fuel
      → timeout ≡ some n
      → n ≤ 20400
      → 0 < c.poll_seconds
      → started ≤ time s.world
      → watch_rounds m fuel r c (deadline_at m started timeout) p s ≡ (ok none, t)
      → ⊥
  loop_ends zero r c timeout n started p s t enough some_n small polls begun e =
      absurd (omega arith)
  loop_ends (suc left) r c timeout n started p s t enough some_n small polls begun e =
      watch_rounds-ends left r c (started + n * second) p s t polls (omega arith) (
        subst (λ o. watch_rounds m (suc left) r c (deadline_at m started o) p s ≡ (ok none, t))
          some_n e)

  -- With a timeout, on a clock that does not run backwards and whose sleeps last as long as they are
  -- asked to, 408001 rounds are enough: the loop of a run does not outlast them.
  pub run_with_watchdog-ends :
      (fuel : ℕ) (r : Request) (value : ℤ) (s t : State m.World)
      → 408001 ≤ fuel
      → r.timeout ≡ some value
      → run_with_watchdog m fuel r s ≢ (ok none, t)
  unfolding run_with_watchdog
  run_with_watchdog-ends fuel r value s t enough given h =
      let ((c, timeout), s₁, p₁, h₁) = bind-eq-ok (lift (validate_request r)) _ s t none h in
      let (_, s₂, _, h₂) = bind-eq-ok (clear_marker m r.stall_marker) _ s₁ t none h₁ in
      let (spawned, s₃, _, h₃) =
        bind-eq-ok (perform ("spawn" ∷ r.command) (m.spawn r.command)) _ s₂ t none h₂ in
      let (_, s₄, _, h₄) = bind-eq-ok (need m spawned _) _ s₃ t none h₃ in
      let (info, s₅, _, h₅) = bind-eq-ok (ask m.lstat) _ s₄ t none h₄ in
      let (fingerprint, s₆, _, h₆) = bind-eq-ok (lift (progress_fingerprint info)) _ s₅ t none h₅ in
      let (started, s₇, p₇, h₇) = bind-eq-ok (ask m.monotonic) _ s₆ t none h₆ in
      let start : Progress = record { fingerprint = fingerprint; since = started } in
      let (u, e, _) =
        ensure-eq-ok m (watch_rounds m fuel r c (deadline_at m started timeout) start) _ none s₇ t
          h₇ in
      let (polls, o) = request_bounds r c timeout (lift-eq-ok _ (c, timeout) s s₁ p₁).0 in
      let (n, some_n, small) = timeout_bounds value timeout (ap optional (sym given) ∙ o) in
      let read = ask-eq-ok m m.monotonic started s₆ s₇ p₇ in
      let after = ap time (ask-world m m.monotonic started s₆ s₇ p₇) in
      let begun : started ≤ time s₇.world = omega (arith, (monotonic_le s₆.world).1, read, after) in
      loop_ends fuel r c timeout n started start s₇ u enough some_n small polls begun e
