-- ===== src/Cleanup/Counts.antt =====
-- How many deletions a cleanup sends.
use chromium_compile.Prelude.{
  ℕ, suc, ◌+◌, String, Bool, true, false, ◌≡◌, refl, ap, ◌∙◌, sym, arith, Option, List, [], ◌∷◌,
  length,
}
use chromium_compile.Result.{ok}
use chromium_compile.Host.{Host, State, Act}
use chromium_compile.Host.Laws.{bind-eq-ok, pure-eq-ok}
use chromium_compile.Host.Tally.{
  tally, Quiet, Quiet-bind, Quiet-pure, Quiet-lift, ExactlyOnce, ExactlyOnce-start,
  ExactlyOnce-then, quiet_rules,
}
use chromium_compile.Prune.Laws.{is_deletion}
use chromium_compile.Cleanup.{Target, try_gh}
use chromium_compile.Cleanup.Release.{ReleaseIdentity}
use chromium_compile.Cleanup.Guard.{guard_cleanup_phase}
use chromium_compile.Cleanup.Checkpoints.{
  CheckpointArtifact, find_version_checkpoints, delete_checkpoint, treat, treat_all, guard_again,
  cleanup_released_version,
}
use chromium_compile.Cleanup.Caches.{
  SourceCache, list_source_caches, settle, delete_source_cache, treat_cache, treat_caches,
  cleanup_released_source_caches,
}
use chromium_compile.Cleanup.Quietly.{
  guard-Looks, again-Looks, find-Looks, missing-Looks, must-Looks, after-Looks, caches-Looks, still,
}

-- The number of deletions that a run may send for so many results
abbrev pub spent : Bool → ℕ → ℕ
spent true n = 0
spent false n = n

spent_none : (dry_run : Bool) (n : ℕ) → n ≡ n + spent dry_run 0
spent_none true n = omega arith
spent_none false n = omega arith

spent_more :
    (dry_run : Bool) (a b c n : ℕ)
    → b ≡ a + spent dry_run 1
    → c ≡ b + spent dry_run n
    → c ≡ a + spent dry_run (suc n)
spent_more true a b c n p q = omega arith
spent_more false a b c n p q = omega arith

module _ (h : Host) where
  try-Once :
      (args : List String) (timeout : ℕ)
      → is_deletion args ≡ true
      → ExactlyOnce is_deletion (try_gh h args timeout)
  unfolding try_gh
  try-Once args timeout e =
      ExactlyOnce-then is_deletion _ _ (ExactlyOnce-start is_deletion h args timeout e)
        (λ ended. Quiet-lift is_deletion _)

  delete-Once :
      (t : Target) (a : CheckpointArtifact) → ExactlyOnce is_deletion (delete_checkpoint h t a)
  unfolding delete_checkpoint
  delete-Once t a = ExactlyOnce-then is_deletion _ _ (try-Once _ 120 refl) (λ c.
      Quiet-bind is_deletion _ _ (after-Looks h t a.artifact_id _) (λ _.
        Quiet-bind is_deletion _ _ (missing-Looks h t a.artifact_id) (λ gone.
          Quiet-bind is_deletion _ _ (must-Looks h gone _) (λ _. Quiet-pure is_deletion _))))

  settle-Quiet :
      (accepted absent : Bool) (c : SourceCache) → Quiet is_deletion (settle h accepted absent c)
  settle-Quiet accepted true c = search quiet_rules
  settle-Quiet accepted false c = search quiet_rules

  delete_cache-Once :
      (t : Target) (c : SourceCache) → ExactlyOnce is_deletion (delete_source_cache h t c)
  unfolding delete_source_cache
  delete_cache-Once t c =
      ExactlyOnce-then is_deletion _ _ (try-Once _ 120 refl)
        (λ answer. Quiet-bind is_deletion _ _ (caches-Looks h t) (λ left. settle-Quiet _ _ c))

  -- What a step with one deletion that returned adds to the count
  counted_once :
      {A : Type 0} (m : Act h.World A) (a : A) (s u : State h.World)
      → ExactlyOnce is_deletion m
      → m s ≡ (ok a, u)
      → tally is_deletion u.calls ≡ suc (tally is_deletion s.calls)
  counted_once m a s u q e = ap (λ p. tally is_deletion p.1.calls) (sym e) ∙ q.at s

  treat-count :
      (t : Target) (dry_run : Bool) (a : CheckpointArtifact) (line : String) (s u : State h.World)
      → treat h t dry_run a s ≡ (ok line, u)
      → tally is_deletion u.calls ≡ tally is_deletion s.calls + spent dry_run 1
  treat-count t true a line s u e = omega (arith, still h _ line s u (Quiet-pure is_deletion _) e)
  treat-count t false a line s u e = omega (arith, counted_once _ line s u (delete-Once t a) e)

  treat_all-count :
      (items : List CheckpointArtifact) (t : Target) (dry_run : Bool) (lines : List String)
      (s u : State h.World)
      → treat_all h t dry_run items s ≡ (ok lines, u)
      → (tally is_deletion u.calls ≡ tally is_deletion s.calls + spent dry_run (length items))
        × (length lines ≡ length items)
  unfolding treat_all
  treat_all-count [] t dry_run lines s u e =
      let (p, q) = pure-eq-ok [] lines s u e in
      (rw (sym q) (spent_none dry_run _), ap length (sym p))
  treat_all-count (a ∷ items) t dry_run lines s u e =
      let (line, v, e₁, r₁) = bind-eq-ok (treat h t dry_run a) _ s u lines e in
      let (rest, w, e₂, r₂) = bind-eq-ok (treat_all h t dry_run items) _ v u lines r₁ in
      let (p, q) = pure-eq-ok (line ∷ rest) lines w u r₂ in
      let (c, l) = treat_all-count items t dry_run rest v w e₂ in
      let head = treat-count t dry_run a line s v e₁ in
      (rw (sym q) (spent_more dry_run _ _ _ (length items) head c), ap length (sym p) ∙ ap suc l)

  treat_cache-count :
      (t : Target) (dry_run : Bool) (c : SourceCache) (line : String) (s u : State h.World)
      → treat_cache h t dry_run c s ≡ (ok line, u)
      → tally is_deletion u.calls ≡ tally is_deletion s.calls + spent dry_run 1
  treat_cache-count t true c line s u e =
      omega (arith, still h _ line s u (Quiet-pure is_deletion _) e)
  treat_cache-count t false c line s u e =
      omega (arith, counted_once _ line s u (delete_cache-Once t c) e)

  treat_caches-count :
      (caches : List SourceCache) (t : Target) (dry_run : Bool) (lines : List String)
      (s u : State h.World)
      → treat_caches h t dry_run caches s ≡ (ok lines, u)
      → (tally is_deletion u.calls ≡ tally is_deletion s.calls + spent dry_run (length caches))
        × (length lines ≡ length caches)
  unfolding treat_caches
  treat_caches-count [] t dry_run lines s u e =
      let (p, q) = pure-eq-ok [] lines s u e in
      (rw (sym q) (spent_none dry_run _), ap length (sym p))
  treat_caches-count (c ∷ caches) t dry_run lines s u e =
      let (line, v, e₁, r₁) = bind-eq-ok (treat_cache h t dry_run c) _ s u lines e in
      let (rest, w, e₂, r₂) = bind-eq-ok (treat_caches h t dry_run caches) _ v u lines r₁ in
      let (p, q) = pure-eq-ok (line ∷ rest) lines w u r₂ in
      let (k, l) = treat_caches-count caches t dry_run rest v w e₂ in
      let head = treat_cache-count t dry_run c line s v e₁ in
      (rw (sym q) (spent_more dry_run _ _ _ (length caches) head k), ap length (sym p) ∙ ap suc l)

  -- A cleanup of a version that returns has sent exactly one deletion for each result it reports, and
  -- a dry run has sent none.
  pub cleanup_released_version_count :
      (t : Target) (dry_run : Bool) (identity : Option ReleaseIdentity) (lines : List String)
      (bytes : ℕ) (s u : State h.World)
      → cleanup_released_version h t dry_run identity s ≡ (ok (lines, bytes), u)
      → tally is_deletion u.calls ≡ tally is_deletion s.calls + spent dry_run (length lines)
  unfolding cleanup_released_version
  cleanup_released_version_count t dry_run identity lines bytes s u e =
      let (_, s₁, e₁, r₁) = bind-eq-ok (guard_cleanup_phase h t dry_run identity) _ s u _ e in
      let (found, s₂, e₂, r₂) = bind-eq-ok (find_version_checkpoints h t) _ s₁ u _ r₁ in
      let (_, s₃, e₃, r₃) = bind-eq-ok (guard_again h t dry_run identity) _ s₂ u _ r₂ in
      let (results, s₄, e₄, r₄) = bind-eq-ok (treat_all h t dry_run found) _ s₃ u _ r₃ in
      let (p, q) = pure-eq-ok _ (lines, bytes) s₄ u r₄ in
      let (c, l) = treat_all-count found t dry_run results s₃ s₄ e₄ in
      rw (sym q, sym (ap (λ r. length r.0) p), l)
        (c
          ∙ ap (λ n. n + spent dry_run (length found))
              (still h _ tt s₂ s₃ (again-Looks h t dry_run identity) e₃
                ∙ (still h _ found s₁ s₂ (find-Looks h t) e₂
                    ∙ still h _ tt s s₁ (guard-Looks h t dry_run identity) e₁)))

  -- The same for the source caches of a version
  pub cleanup_released_source_caches_count :
      (t : Target) (dry_run : Bool) (identity : Option ReleaseIdentity) (lines : List String)
      (bytes : ℕ) (s u : State h.World)
      → cleanup_released_source_caches h t dry_run identity s ≡ (ok (lines, bytes), u)
      → tally is_deletion u.calls ≡ tally is_deletion s.calls + spent dry_run (length lines)
  unfolding cleanup_released_source_caches
  cleanup_released_source_caches_count t dry_run identity lines bytes s u e =
      let (_, s₁, e₁, r₁) = bind-eq-ok (guard_cleanup_phase h t dry_run identity) _ s u _ e in
      let (found, s₂, e₂, r₂) = bind-eq-ok (list_source_caches h t) _ s₁ u _ r₁ in
      let (_, s₃, e₃, r₃) = bind-eq-ok (guard_again h t dry_run identity) _ s₂ u _ r₂ in
      let (results, s₄, e₄, r₄) = bind-eq-ok (treat_caches h t dry_run found) _ s₃ u _ r₃ in
      let (p, q) = pure-eq-ok _ (lines, bytes) s₄ u r₄ in
      let (c, l) = treat_caches-count found t dry_run results s₃ s₄ e₄ in
      rw (sym q, sym (ap (λ r. length r.0) p), l)
        (c
          ∙ ap (λ n. n + spent dry_run (length found))
              (still h _ tt s₂ s₃ (again-Looks h t dry_run identity) e₃
                ∙ (still h _ found s₁ s₂ (caches-Looks h t) e₂
                    ∙ still h _ tt s s₁ (guard-Looks h t dry_run identity) e₁)))
