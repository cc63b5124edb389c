-- ===== src/Release/Tag/Laws.antt =====
-- A tag that is confirmed resolves to the commit, and is created at most once.
use chromium_compile.Prelude.{
  ℕ, zero, suc, String, true, ◌≡◌, subst, inl, inr, Option, none, some, ◌==◌, eq_iff, Bool-cases,
  eqb,
}
use chromium_compile.Result.{ok, tag_error}
use chromium_compile.Host.{Host, Completed, State, lift, ◌>>=◌}
use chromium_compile.Host.Laws.{bind-eq-ok, pure-eq-ok, throw-ne-ok, recover-eq-ok}
use chromium_compile.Release.Tag.{
  TagOutcome, validate_inputs, resolve_tag_commit, look, pause, compare, confirm_rounds,
  confirm_tag, create, json_or_error, finish, settle, ensure_exact_tag,
}

module _ (h : Host) where
  -- At one moment of the run the tag resolved to the commit.
  pub record Resolves (repository tag sha : String) : Type 0 where
    pub before : State h.World
    pub after : State h.World
    pub resolved : resolve_tag_commit h repository tag before ≡ (ok (some sha), after)

  resolved_as :
      (repository tag sha commit : String) (s t : State h.World)
      → commit == sha ≡ true
      → resolve_tag_commit h repository tag s ≡ (ok (some commit), t)
      → Resolves repository tag sha
  resolved_as repository tag sha commit s t b e = record {
    before = s;
    after = t;
    resolved =
        subst (λ c. resolve_tag_commit h repository tag s ≡ (ok (some c), t))
          ((eq_iff commit sha).0 b) e;
  }

  some-ne-none : {C : Type 0} (c : String) → none ≡ some c → C
  some-ne-none c e = absurd (cc e)

  looked :
      (repository tag commit : String) (s t : State h.World)
      → look h repository tag s ≡ (ok (some commit), t)
      → resolve_tag_commit h repository tag s ≡ (ok (some commit), t)
  looked repository tag commit s t e =
      elim (recover-eq-ok tag_error (resolve_tag_commit h repository tag) _ s t (some commit) e) [
        | inl p ↦ p
        | inr (y, text, u, p, c, q) ↦ some-ne-none commit (pure-eq-ok none (some commit) u t q).0
      ]

  compared :
      (left : ℕ) (repository tag sha : String) (seen : Option String) (s u t : State h.World)
      → look h repository tag s ≡ (ok seen, u)
      → ((v w : State h.World)
          → confirm_rounds h left repository tag sha v ≡ (ok tt, w)
          → Resolves repository tag sha)
      → compare h sha (pause h left >>= λ _. confirm_rounds h left repository tag sha) seen u
        ≡ (ok tt, t)
      → Resolves repository tag sha
  compared left repository tag sha none s u t p ih q =
      let (_, v, _, r) = bind-eq-ok (pause h left) _ u t tt q in ih v t r
  compared left repository tag sha (some commit) s u t p ih q = elim (Bool-cases (commit == sha)) [
    | inl b ↦ resolved_as repository tag sha commit s u b (looked repository tag commit s u p)
    | inr b ↦ throw-ne-ok _ _ tt u t (rw b at q)
  ]

  confirm_rounds-Resolves :
      (left : ℕ) (repository tag sha : String) (s t : State h.World)
      → confirm_rounds h left repository tag sha s ≡ (ok tt, t)
      → Resolves repository tag sha
  unfolding confirm_rounds
  confirm_rounds-Resolves zero repository tag sha s t e = throw-ne-ok _ _ tt s t e
  confirm_rounds-Resolves (suc left) repository tag sha s t e =
      let (resolved, u, p, q) = bind-eq-ok (look h repository tag) _ s t tt e in
      compared left repository tag sha resolved s u t p
        (confirm_rounds-Resolves left repository tag sha) q

  confirm_tag-Resolves :
      (repository tag sha : String) (s t : State h.World)
      → confirm_tag h repository tag sha s ≡ (ok tt, t)
      → Resolves repository tag sha
  unfolding confirm_tag
  confirm_tag-Resolves repository tag sha s t e = confirm_rounds-Resolves 5 repository tag sha s t e

  finish-Resolves :
      (repository tag sha : String) (result : Option Completed) (o : TagOutcome)
      (s t : State h.World)
      → finish h repository tag sha result s ≡ (ok o, t)
      → Resolves repository tag sha
  finish-Resolves repository tag sha none o s t e =
      let (_, u, p, _) = bind-eq-ok (confirm_tag h repository tag sha) _ s t o e in
      confirm_tag-Resolves repository tag sha s u p
  finish-Resolves repository tag sha (some result) o s t e =
      elim (Bool-cases (eqb result.returncode 0)) [
        | inl b ↦
            let (_, u, _, q) = bind-eq-ok (lift (json_or_error h result)) _ s t o (rw b at e) in
            let (_, v, p, _) = bind-eq-ok (confirm_tag h repository tag sha) _ u t o q in
            confirm_tag-Resolves repository tag sha u v p
        | inr b ↦
            let (_, u, p, _) = bind-eq-ok (confirm_tag h repository tag sha) _ s t o (rw b at e) in
            confirm_tag-Resolves repository tag sha s u p
      ]

  settle-Resolves :
      (repository tag sha : String) (existing : Option String) (o : TagOutcome)
      (r s t : State h.World)
      → resolve_tag_commit h repository tag r ≡ (ok existing, s)
      → settle h repository tag sha existing s ≡ (ok o, t)
      → Resolves repository tag sha
  settle-Resolves repository tag sha none o r s t p e =
      let (result, u, _, q) = bind-eq-ok (create h repository tag sha) _ s t o e in
      finish-Resolves repository tag sha result o u t q
  settle-Resolves repository tag sha (some commit) o r s t p e = elim (Bool-cases (commit == sha)) [
    | inl b ↦ resolved_as repository tag sha commit r s b p
    | inr b ↦ throw-ne-ok _ _ o s t (rw b at e)
  ]

  -- Whatever the outcome, a call that returns has seen the tag resolve to the commit: before, or after
  -- the creation, also if the client reported an error for it.
  pub ensure_exact_tag-Resolves :
      (repository tag sha token : String) (o : TagOutcome) (s t : State h.World)
      → ensure_exact_tag h repository tag sha token s ≡ (ok o, t)
      → Resolves repository tag sha
  unfolding ensure_exact_tag
  ensure_exact_tag-Resolves repository tag sha token o s t e =
      let (_, u, _, p) = bind-eq-ok (lift (validate_inputs repository tag sha token)) _ s t o e in
      let (existing, v, q, r) = bind-eq-ok (resolve_tag_commit h repository tag) _ u t o p in
      settle-Resolves repository tag sha existing o u v t q r
