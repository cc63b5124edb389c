-- ===== src/Watchdog/Run/Laws.antt =====
-- Why the watchdog returned the code that it returned.
use chromium_compile.Prelude.{
  ℕ, zero, suc, ◌-◌, ◌*◌, ◌≤◌, Bool, true, Option, none, some, List, ◌∷◌, ◌≡◌, refl, ap, ◌∙◌, All,
  ◌⊎◌, inl, inr, String,
}
use chromium_compile.Result.{Result, ok}
use chromium_compile.Host.{State, Act, lift}
use chromium_compile.Host.Laws.{bind-eq-ok, pure-eq-ok, lift-eq-ok, throw-ne-ok}
use chromium_compile.Archive.{ℤ}
use chromium_compile.Watchdog.Progress.{
  Fingerprint, progress_fingerprint, Settings, Progress, note_progress, Verdict, deadline_reached,
  stalled, sleep_for, decide, is_due, second,
}
use chromium_compile.Watchdog.Progress.Stall.{
  Look, Unchanged, note-Unchanged, decide-stalled, decide-deadline,
}
use chromium_compile.Watchdog.Machine.{Machine, ask, pass_time}
use chromium_compile.Watchdog.Child.{terminate_child}
use chromium_compile.Watchdog.Child.Grace.{IsEnded, ask-eq-ok}
use chromium_compile.Watchdog.Run.{
  Request, validate_request, exit_code, timeout_exit_code, stall_exit_code, drain, finish,
  write_stall_marker, act_on, look_on, by_poll, by_pump, watch_rounds, ensure, after_all,
  deadline_at,
}

module _ (m : Machine) where
  -- The look was had: the fingerprint and the time are those that the log and the clock gave.
  abbrev pub IsRead : Look → Type 0
  IsRead look =
      ((w : m.World) × (progress_fingerprint (m.lstat w).0 ≡ ok look.current))
      × ((w : m.World) × ((m.monotonic w).0 ≡ look.now))

  -- The log did not change for the time that makes a stall, up to the latest look.
  pub record IsStalled (c : Settings) (start : Progress) : Type 0 where
    pub latest : Look
    pub earlier : List Look
    pub looks : All IsRead (latest ∷ earlier)
    pub fingerprint : Fingerprint
    pub since : ℕ
    pub unchanged : Unchanged fingerprint since start (latest ∷ earlier)
    pub long : c.stall_seconds * second ≤ latest.now - since

  pub data Reason (c : Settings) (deadline : Option ℕ) (start : Progress) (code : ℤ) : Type 0 where
    exited :
        (w : m.World) (returncode : ℤ) (signum : Option ℕ)
        → (m.poll w).0 ≡ some returncode
        → code ≡ exit_code signum returncode
        → Reason c deadline start code
    timed_out :
        (w : m.World)
        → is_due deadline (m.monotonic w).0 ≡ true
        → code ≡ timeout_exit_code
        → Reason c deadline start code
    stuck : IsStalled c start → code ≡ stall_exit_code → Reason c deadline start code

  finish-exits :
      (has_log : Bool) (returncode code : ℤ) (s t : State m.World)
      → finish m has_log returncode s ≡ (ok (some code), t)
      → (signum : Option ℕ) × (code ≡ exit_code signum returncode)
  unfolding finish
  finish-exits has_log returncode code s t h =
      let (_, u, _, q) = bind-eq-ok (drain m has_log) _ s t (some code) h in
      let (signum, v, _, q₁) = bind-eq-ok (ask m.forwarded) _ u t (some code) q in
      let e = (pure-eq-ok _ _ v t q₁).0 in (signum, cc)

  judged :
      (r : Request) (c : Settings) (deadline : Option ℕ) (start q : Progress) (look : Look)
      (looks : List Look) (w : m.World)
      → (m.monotonic w).0 ≡ look.now
      → (again : Act m.World (Option ℤ)) (code : ℤ) (v : Verdict) (s t : State m.World)
      → decide c deadline look.now q ≡ v
      → All IsRead (look ∷ looks)
      → Unchanged q.fingerprint q.since start (look ∷ looks)
      → ((u : State m.World) → again u ≡ (ok (some code), t) → Reason c deadline start code)
      → act_on m r c again v s ≡ (ok (some code), t)
      → Reason c deadline start code
  unfolding act_on
  judged r c deadline start q look looks w e again code deadline_reached s t v seen quiet next h =
      let (_, u, _, h') =
        bind-eq-ok (terminate_child m c.timeout_kill_grace_seconds) _ s t (some code) h in
      timed_out w (ap (is_due deadline) e ∙ decide-deadline c deadline look.now q v)
        (cc ((pure-eq-ok _ _ u t h').0))
  judged r c deadline start q look looks w e again code stalled s t v seen quiet next h =
      let (_, u, _, h') = bind-eq-ok (write_stall_marker m r.stall_marker) _ s t (some code) h in
      let (_, u', _, h'') =
        bind-eq-ok (terminate_child m c.kill_grace_seconds) _ u t (some code) h' in
      stuck
        (record {
          latest = look;
          earlier = looks;
          looks = seen;
          fingerprint = q.fingerprint;
          since = q.since;
          unchanged = quiet;
          long = (decide-stalled c deadline look.now q v).0;
        })
        (cc ((pure-eq-ok _ _ u' t h'').0))
  judged r c deadline start q look looks w e again code (sleep_for n) s t v seen quiet next h =
      let (_, u, _, h') = bind-eq-ok (pass_time (m.sleep n)) _ s t (some code) h in next u h'

  pump-passed :
      (c : Settings) (go_on : Act m.World (Option ℤ)) (failure : Option String) (code : ℤ)
      (s t : State m.World)
      → by_pump m c go_on failure s ≡ (ok (some code), t)
      → go_on s ≡ (ok (some code), t)
  pump-passed c go_on none code s t h = h
  pump-passed c go_on (some why) code s t h =
      let (_, u, _, q) = bind-eq-ok (terminate_child m c.kill_grace_seconds) _ s t (some code) h in
      throw-ne-ok _ _ (some code) u t q

  poll-passed :
      (r : Request) (running : Act m.World (Option ℤ)) (polled : Option ℤ) (code : ℤ)
      (s t : State m.World)
      → by_poll m r running polled s ≡ (ok (some code), t)
      → ((returncode : ℤ) × (signum : Option ℕ) × (polled ≡ some returncode)
          × (code ≡ exit_code signum returncode))
        ⊎ (running s ≡ (ok (some code), t))
  poll-passed r running none code s t h = inr h
  poll-passed r running (some returncode) code s t h =
      let (signum, k) = finish-exits r.has_output_log returncode code s t h in
      inl (returncode, signum, refl, k)

  -- One round while the child runs: it ends for a reason, or the next one does.
  look_on-Reason :
      (r : Request) (c : Settings) (deadline : Option ℕ) (start p : Progress) (looks : List Look)
      (again : Progress → Act m.World (Option ℤ)) (code : ℤ) (s t : State m.World)
      → All IsRead looks
      → Unchanged p.fingerprint p.since start looks
      → ((q : Progress) (look : Look) (u : State m.World)
          → IsRead look
          → Unchanged q.fingerprint q.since start (look ∷ looks)
          → again q u ≡ (ok (some code), t)
          → Reason c deadline start code)
      → look_on m r c deadline p again s ≡ (ok (some code), t)
      → Reason c deadline start code
  unfolding look_on
  look_on-Reason r c deadline start p looks again code s t seen quiet next h =
      let (info, s₃, p₃, h₃) = bind-eq-ok (ask m.lstat) _ s t (some code) h in
      let (current, s₄, p₄, h₄) =
        bind-eq-ok (lift (progress_fingerprint info)) _ s₃ t (some code) h₃ in
      let (now, s₅, p₅, h₅) = bind-eq-ok (ask m.monotonic) _ s₄ t (some code) h₄ in
      let look : Look = record { current = current; now = now } in
      let read : IsRead look = (
        (
          s.world,
          ap progress_fingerprint (ask-eq-ok m m.lstat info s s₃ p₃)
              ∙ (lift-eq-ok _ current s₃ s₄ p₄).0,
        ),
        (s₄.world, ask-eq-ok m m.monotonic now s₄ s₅ p₅),
      ) in
      judged r c deadline start (note_progress current now p) look looks s₄.world
        (ask-eq-ok m m.monotonic now s₄ s₅ p₅) (again (note_progress current now p)) code
        (decide c deadline now (note_progress current now p)) s₅ t refl (read, seen)
        (note-Unchanged current now p start looks quiet)
        (λ u q.
          next (note_progress current now p) look u read
            (note-Unchanged current now p start looks quiet) q)
        h₅

  pub watch_rounds-Reason :
      (left : ℕ) (r : Request) (c : Settings) (deadline : Option ℕ) (start p : Progress)
      (looks : List Look) (code : ℤ) (s t : State m.World)
      → All IsRead looks
      → Unchanged p.fingerprint p.since start looks
      → watch_rounds m left r c deadline p s ≡ (ok (some code), t)
      → Reason c deadline start code
  unfolding watch_rounds
  watch_rounds-Reason zero r c deadline start p looks code s t seen quiet h =
      absurd (cc ((pure-eq-ok {W = m.World} {A = Option ℤ} none (some code) s t h).0))
  watch_rounds-Reason (suc left) r c deadline start p looks code s t seen quiet h =
      let (failure, s₁, _, h₁) = bind-eq-ok (ask m.pump_error) _ s t (some code) h in
      let (polled, s₂, p₂, h₂) =
        bind-eq-ok (ask m.poll) _ s₁ t (some code) (pump-passed c _ failure code s₁ t h₁) in
      elim (poll-passed r _ polled code s₂ t h₂) [
        | inl (returncode, signum, e, k) ↦
            exited s₁.world returncode signum (ask-eq-ok m m.poll polled s₁ s₂ p₂ ∙ e) k
        | inr q ↦
            look_on-Reason r c deadline start p looks (watch_rounds m left r c deadline) code s₂ t
              seen quiet
              (λ p' look u read quiet' e.
                watch_rounds-Reason left r c deadline start p' (look ∷ looks) code u t (read, seen)
                  quiet' e)
              q
      ]

  after-eq-ok :
      (result : Result (Option ℤ)) (clean : Act m.World Unit) (o : Option ℤ) (u t : State m.World)
      → after_all m result clean u ≡ (ok o, t)
      → (result ≡ ok o) × (clean u ≡ (ok tt, t))
  after-eq-ok result clean o u t h =
      let (_, v, p, q) = bind-eq-ok clean (λ _. lift result) u t o h in
      let (e, f) = lift-eq-ok result o v t q in (e, p ∙ ap (λ x. (ok tt, x)) f)

  pub ensure-eq-ok :
      (body : Act m.World (Option ℤ)) (clean : Act m.World Unit) (o : Option ℤ)
      (s t : State m.World)
      → ensure m body clean s ≡ (ok o, t)
      → (u : State m.World) × (body s ≡ (ok o, u)) × (clean u ≡ (ok tt, t))
  unfolding ensure
  ensure-eq-ok body clean o s t h =
      let (e, f) = after-eq-ok (body s).0 clean o (body s).1 t h in
      ((body s).1, ap (λ r. (r, (body s).1)) e, f)

  -- A run began with valid arguments at this time, and the log's fingerprint was this.
  pub record IsExplained (r : Request) (code : ℤ) : Type 0 where
    pub settings : Settings
    pub timeout : Option ℕ
    pub valid : validate_request r ≡ ok (settings, timeout)
    pub start : Progress
    pub reason : Reason settings (deadline_at m start.since timeout) start code
    pub ended : IsEnded m
