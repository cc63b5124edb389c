-- ===== src/Dispatch/Once/Outcomes.antt =====
-- The outcome of `dispatch_once` tells how many dispatches were sent.
use chromium_compile.Prelude.{
  ℕ, zero, suc, ◌+◌, String, Bool, true, false, ◌≡◌, refl, Option, none, some, if◌then◌else◌, arith,
  sym, ◌∙◌, ap, Bool-cases, Option-cases, inl, inr, ◌==◌,
}
use chromium_compile.Result.{ok}
use chromium_compile.Host.{Host, State, Act, lift, time_now}
use chromium_compile.Host.Tally.{Quiet-lift, Quiet-if, Quiet-pure, Quiet-throw, Quiet-now}
use chromium_compile.Host.Laws.{bind-eq-ok, pure-eq-ok}
use chromium_compile.Host.Returns.{Returns, Returns-bind, Returns-if, Returns-pure, returns_rules}
use chromium_compile.Dispatch.Lookup.{normalize_optional}
use chromium_compile.Dispatch.Once.{
  Outcome, already_seen, already_active, accepted_after_client_error, Request, all_pairs,
  find_duplicate, check_lineage, recent_rounds, after_error, after_accept, send, react, conclude,
  checked, dispatch_new, dispatch_once,
}
use chromium_compile.Dispatch.Once.Sends.{is_dispatch, Silent}
use chromium_compile.Dispatch.Once.Laws.{
  sent, find_duplicate-Silent, check_lineage-Silent, after_error-Silent, after_accept-Silent,
  send_once,
}

-- Whether an outcome says that a dispatch was sent
abbrev pub is_new : Outcome → Bool
is_new already_seen = false
is_new already_active = false
is_new _ = true

abbrev New : Outcome → Type 0
New o = is_new o ≡ true

-- A duplicate's outcome is not new.
abbrev pub Old : Option Outcome → Type 0
Old found = (o : Outcome) → found ≡ some o → is_new o ≡ false

module _ (h : Host) (lookup_limit : ℕ) where
  after_accept-New :
      (r : Request) (sha : Option String) (started : ℕ)
      → Returns New (after_accept h lookup_limit r sha started)
  unfolding after_accept
  after_accept-New r none started = search returns_rules
  after_accept-New r (some sha) started = search returns_rules

  recent_rounds-New :
      (r : Request) (started left attempt : ℕ) (why : String)
      → Returns New (recent_rounds h lookup_limit r started left attempt why)
  unfolding recent_rounds
  recent_rounds-New r started zero attempt why = search returns_rules
  recent_rounds-New r started (suc left) attempt why =
      let next = recent_rounds-New r started left (attempt + 1) why in
      Returns-bind New _ _ (λ seen.
        Returns-if New seen _ _ (λ _. Returns-pure New accepted_after_client_error refl)
          (λ _. Returns-bind New _ _ (λ _. next)))

  after_error-New :
      (r : Request) (sha : Option String) (started : ℕ) (why : String)
      → Returns New (after_error h lookup_limit r sha started why)
  unfolding after_error
  after_error-New r none started why = recent_rounds-New r started r.confirm_attempts 0 why
  after_error-New r (some sha) started why = search returns_rules

  Old-if : (b : Bool) (o : Outcome) → is_new o ≡ false → Old (if b then some o else none)
  Old-if true o e o' p = ground (arith, ap (λ x. x) p)
  Old-if false o e o' p = absurd (cc)

  pub find_duplicate-Old :
      (r : Request) (sha : Option String) → Returns Old (find_duplicate h lookup_limit r sha)
  unfolding find_duplicate
  find_duplicate-Old r sha = elim (Bool-cases r.dedupe_completed) [
    | inl b ↦ rw b (elim (Option-cases r.dedupe_since_run_id) [
      | inl e ↦ rw e (search returns_rules)
      | inr (run_id, e) ↦ rw e (
          Returns-if Old (run_id == "") _ _ (λ _. search returns_rules)
            (λ _. Returns-bind Old _ _ (λ started.
              Returns-bind Old _ _ (λ seen. Returns-pure Old _ (Old-if seen already_seen refl)))))
    ])
    | inr b ↦
        rw b
          (Returns-bind Old _ _ (λ active. Returns-pure Old _ (Old-if active already_active refl)))
  ]

  moved :
      {A : Type 0} {m : Act h.World A} {a : A} {s t : State h.World}
      → Silent h lookup_limit m
      → m s ≡ (ok a, t)
      → sent t ≡ sent s
  moved {s} q e = ap (λ p. sent p.1) (sym e) ∙ q.at s

  counted :
      (r : Request) (a : Option String) (s t : State h.World)
      → send h lookup_limit r s ≡ (ok a, t)
      → sent t ≡ suc (sent s)
  counted r a s t e = ap (λ p. sent p.1) (sym e) ∙ (send_once h lookup_limit r).at s

  settled :
      (r : Request) (sha : Option String) (started : ℕ) (failure : Option String) (o : Outcome)
      (s u v w t : State h.World)
      → sent u ≡ sent s
      → sent v ≡ sent u
      → sent w ≡ suc (sent v)
      → react h lookup_limit r sha started failure w ≡ (ok o, t)
      → (is_new o ≡ true) × (sent t ≡ suc (sent s))
  settled r sha started none o s u v w t p q c e = (
    (after_accept-New r sha started).at o w t e,
    moved (after_accept-Silent h lookup_limit r sha started) e ∙ omega arith,
  )
  settled r sha started (some why) o s u v w t p q c e = (
    (after_error-New r sha started why).at o w t e,
    moved (after_error-Silent h lookup_limit r sha started why) e ∙ omega arith,
  )

  dispatch_new_exact :
      (r : Request) (sha : Option String) (o : Outcome) (s t : State h.World)
      → dispatch_new h lookup_limit r sha s ≡ (ok o, t)
      → (is_new o ≡ true) × (sent t ≡ suc (sent s))
  unfolding dispatch_new
  dispatch_new_exact r sha o s t e =
      let (_, u, c, e₁) = bind-eq-ok (check_lineage h lookup_limit r sha) _ s t o e in
      let (started, v, n, e₂) = bind-eq-ok (time_now h) _ u t o e₁ in
      let (failure, w, p, e₃) = bind-eq-ok (send h lookup_limit r) _ v t o e₂ in
      settled r sha started failure o s u v w t
        (moved (check_lineage-Silent h lookup_limit r sha) c) (moved (Quiet-now is_dispatch h) n)
        (counted r failure v w p) e₃

  checked-Silent : (r : Request) → Silent h lookup_limit (checked h lookup_limit r)
  checked-Silent r =
      Quiet-if is_dispatch (all_pairs r.inputs) _ _ (Quiet-pure is_dispatch tt)
        (Quiet-throw is_dispatch _ _)

  finish :
      (r : Request) (sha : Option String) (duplicate : Option Outcome) (o : Outcome)
      (s t : State h.World)
      → Old duplicate
      → conclude h lookup_limit r sha duplicate s ≡ (ok o, t)
      → sent t ≡ (if is_new o then suc (sent s) else sent s)
  finish r sha none o s t old e = let (b, c) = dispatch_new_exact r sha o s t e in rw b c
  finish r sha (some o') o s t old e =
      let (same, still) = pure-eq-ok o' o s t e in
      rw (ap is_new (sym same) ∙ old o' refl) (ap sent (sym still))

  -- A call that returns tells how many dispatches it sent: none if it says that the run was there
  -- already, and exactly one in every other case.
  pub dispatch_once_exact :
      (r : Request) (o : Outcome) (s t : State h.World)
      → dispatch_once h lookup_limit r s ≡ (ok o, t)
      → sent t ≡ (if is_new o then sent s + 1 else sent s)
  unfolding dispatch_once
  dispatch_once_exact r o s t e =
      let (sha, u, n, e₁) = bind-eq-ok (lift (normalize_optional r.expected_head_sha)) _ s t o e in
      let (_, v, i, e₂) = bind-eq-ok (checked h lookup_limit r) _ u t o e₁ in
      let (duplicate, w, f, e₃) = bind-eq-ok (find_duplicate h lookup_limit r sha) _ v t o e₂ in
      let quiet : sent w ≡ sent s =
        moved (find_duplicate-Silent h lookup_limit r sha) f
        ∙ (moved (checked-Silent r) i
            ∙ moved (Quiet-lift is_dispatch (normalize_optional r.expected_head_sha)) n) in
      let old = (find_duplicate-Old r sha).at duplicate v w f in
      let last = finish r sha duplicate o w t old e₃ in ground (arith, quiet, last)
