-- ===== src/Cleanup/Grounds.antt =====
-- What the guards of a phase and the search for checkpoints have seen.
use chromium_compile.Prelude.{
  ℕ, Bool, true, false, ◌≡◌, refl, ap, ◌∙◌, subst, inl, inr, Option, none, some, List, [], ◌∷◌, eqb,
  arith, Bool-cases, All,
}
use chromium_compile.Result.{ok}
use chromium_compile.Json.{Fields}
use chromium_compile.Host.{Host, State, Act, lift}
use chromium_compile.Host.Laws.{bind-eq-ok, pure-eq-ok, lift-eq-ok, throw-ne-ok}
use chromium_compile.Cleanup.{Target, validate_inputs, read_object}
use chromium_compile.Cleanup.Release.{ReleaseIdentity, same_identity, read_release_identity}
use chromium_compile.Cleanup.Guard.{
  active_listing, check_listing, ensure_no_active_build, verify_release, guard_cleanup_phase,
}
use chromium_compile.Cleanup.Listing.{list_checkpoint_artifacts}
use chromium_compile.Cleanup.Checkpoints.{
  CheckpointArtifact, RunCache, cached, insert_artifact, sort_artifacts, is_run_of, run_path,
  fetch_run, run_matches_checkpoint, checkpoint_of, judge, match_all, find_version_checkpoints,
  guard_again, add_if,
}

module _ (P : CheckpointArtifact → Type 0) where
  All-insert :
      (as' : List CheckpointArtifact) (a : CheckpointArtifact)
      → P a
      → All P as'
      → All P (insert_artifact a as')
  unfolding insert_artifact
  All-insert [] a p ps = (p, tt)
  All-insert (b ∷ bs) a p (q, qs) = ground (arith, All-insert bs a p qs)

  All-sort : (as' : List CheckpointArtifact) → All P as' → All P (sort_artifacts as')
  unfolding sort_artifacts
  All-sort [] ps = tt
  All-sort (a ∷ as') (p, ps) = All-insert (sort_artifacts as') a p (All-sort as' ps)

module _ (h : Host) where
  -- A time at which the guards of a phase held: the inputs are valid, the release was read and is the
  -- same as this one, and the listing that was read next shows no active build of the version.
  pub record Guarded (t : Target) (identity : ReleaseIdentity) : Type 0 where
    pub before : State h.World
    pub middle : State h.World
    pub after : State h.World
    pub current : ReleaseIdentity
    pub listing : Fields
    pub arguments : validate_inputs t ≡ ok tt
    pub read : read_release_identity h t before ≡ (ok current, middle)
    pub same : same_identity current identity ≡ true
    pub looked : read_object h (active_listing h t) middle ≡ (ok listing, after)
    pub idle : check_listing h t.version listing ≡ ok tt

  -- The run of this id was read, and it is a finished build of the version that ended with the stage.
  pub record MadeBy (t : Target) (a : CheckpointArtifact) : Type 0 where
    pub before : State h.World
    pub after : State h.World
    pub run : Fields
    pub read : read_object h (run_path h t a.run_id) before ≡ (ok run, after)
    pub fits : is_run_of h t a.stage run ≡ true

  verify-Guarded :
      (t : Target) (identity : ReleaseIdentity) (dry_run : Bool) (s u : State h.World)
      → verify_release h t dry_run (some identity) s ≡ (ok tt, u)
      → (current : ReleaseIdentity) × (read_release_identity h t s ≡ (ok current, u))
        × (same_identity current identity ≡ true)
  verify-Guarded t identity dry_run s u e =
      let (current, v, e₁, r₁) = bind-eq-ok (read_release_identity h t) _ s u tt e in
      elim (Bool-cases (same_identity current identity)) [
        | inl b ↦
            let q = (pure-eq-ok tt tt v u (rw b at r₁)).1 in
            (current, subst (λ w. read_release_identity h t s ≡ (ok current, w)) q e₁, b)
        | inr b ↦ throw-ne-ok _ _ tt v u (rw b at r₁)
      ]

  pub guard-Guarded :
      (t : Target) (identity : ReleaseIdentity) (dry_run : Bool) (s u : State h.World)
      → guard_cleanup_phase h t dry_run (some identity) s ≡ (ok tt, u)
      → Guarded t identity
  unfolding guard_cleanup_phase ensure_no_active_build
  guard-Guarded t identity dry_run s u e =
      let (_, s₁, e₁, r₁) = bind-eq-ok (lift (validate_inputs t)) _ s u tt e in
      let (_, s₂, e₂, r₂) = bind-eq-ok (verify_release h t dry_run (some identity)) _ s₁ u tt r₁ in
      let (listing, s₃, e₃, r₃) = bind-eq-ok (read_object h (active_listing h t)) _ s₂ u tt r₂ in
      let (current, read, same) = verify-Guarded t identity dry_run s₁ s₂ e₂ in
      record {
        before = s₁;
        middle = s₂;
        after = s₃;
        current = current;
        listing = listing;
        arguments = (lift-eq-ok (validate_inputs t) tt s s₁ e₁).0;
        read = read;
        same = same;
        looked = e₃;
        idle = (lift-eq-ok (check_listing h t.version listing) tt s₃ u r₃).0;
      }

  -- Every run of the cache was read under its id.
  abbrev WasRead : Target → ℕ × Fields → Type 0
  WasRead t entry =
      (s : State h.World) × (u : State h.World) × (read_object h (run_path h t entry.0) s
        ≡ (ok entry.1, u))

  pair_eq : {a b : ℕ} {c d : Fields} → a ≡ b → c ≡ d → ◌≡◌ {A = ℕ × Fields} (a, c) (b, d)
  pair_eq p q = cc

  cached-WasRead :
      (cache : RunCache) (t : Target) (id : ℕ) (run : Fields)
      → All (WasRead t) cache
      → cached cache id ≡ some run
      → WasRead t (id, run)
  cached-WasRead [] t id run ps e = absurd (cc)
  cached-WasRead ((i, r) ∷ cache) t id run ((s, u, p), ps) e = elim (Bool-cases (eqb i id)) [
    | inl b ↦
        let same : i ≡ id = ground arith in
        let found : r ≡ run = ground arith in
        (s, u, subst (λ x. read_object h (run_path h t x.0) s ≡ (ok x.1, u)) (pair_eq same found) p)
    | inr b ↦ cached-WasRead cache t id run ps (rw b at e)
  ]

  fetch-WasRead :
      (t : Target) (id : ℕ) (cache : RunCache) (o : Option Fields) (m : Fields × RunCache)
      (s u : State h.World)
      → ((run : Fields) → o ≡ some run → WasRead t (id, run))
      → All (WasRead t) cache
      → fetch_run h t id cache o s ≡ (ok m, u)
      → WasRead t (id, m.0) × All (WasRead t) m.1
  fetch-WasRead t id cache (some run) m s u f ps e =
      let (p, q) = pure-eq-ok (run, cache) m s u e in
      subst (λ m. WasRead t (id, m.0) × All (WasRead t) m.1) p (f run refl, ps)
  fetch-WasRead t id cache none m s u f ps e =
      let (run, v, e₁, r₁) = bind-eq-ok (read_object h (run_path h t id)) _ s u m e in
      let (p, q) = pure-eq-ok (run, (id, run) ∷ cache) m v u r₁ in
      subst (λ m. WasRead t (id, m.0) × All (WasRead t) m.1) p ((s, v, e₁), ((s, v, e₁), ps))

  matches-WasRead :
      (t : Target) (a : CheckpointArtifact) (cache : RunCache) (m : Bool × RunCache)
      (s u : State h.World)
      → All (WasRead t) cache
      → run_matches_checkpoint h t a.run_id a.stage cache s ≡ (ok m, u)
      → (m.0 ≡ true → MadeBy t a) × All (WasRead t) m.1
  unfolding run_matches_checkpoint
  matches-WasRead t a cache m s u ps e =
      let (found, v, e₁, r₁) =
        bind-eq-ok (fetch_run h t a.run_id cache (cached cache a.run_id)) _ s u m e in
      let (p, q) = pure-eq-ok (is_run_of h t a.stage found.0, found.1) m v u r₁ in
      let ((before, after, read), all) =
        fetch-WasRead t a.run_id cache (cached cache a.run_id) found s v
          (λ run c. cached-WasRead cache t a.run_id run ps c) ps e₁ in
      (
        (λ b. record {
          before = before;
          after = after;
          run = found.0;
          read = read;
          fits = ap (λ x. x.0) p ∙ b;
        }),
        subst (λ x. All (WasRead t) x.1) p all,
      )

  All-add :
      (t : Target) (fits : Bool) (a : CheckpointArtifact) (found : List CheckpointArtifact)
      → (fits ≡ true → MadeBy t a)
      → All (MadeBy t) found
      → All (MadeBy t) (add_if h fits a found)
  All-add t true a found f ps = (f refl, ps)
  All-add t false a found f ps = ps

  judge-MadeBy :
      (t : Target) (cache : RunCache) (o : Option CheckpointArtifact)
      (next : RunCache → Act h.World (List CheckpointArtifact)) (found : List CheckpointArtifact)
      (s u : State h.World)
      → ((c : RunCache) (rest : List CheckpointArtifact) (v w : State h.World)
          → All (WasRead t) c
          → next c v ≡ (ok rest, w)
          → All (MadeBy t) rest)
      → All (WasRead t) cache
      → judge h t cache o next s ≡ (ok found, u)
      → All (MadeBy t) found
  judge-MadeBy t cache none next found s u f ps e = f cache found s u ps e
  judge-MadeBy t cache (some a) next found s u f ps e =
      let (m, v, e₁, r₁) =
        bind-eq-ok (run_matches_checkpoint h t a.run_id a.stage cache) _ s u found e in
      let (rest, w, e₂, r₂) = bind-eq-ok (next m.1) _ v u found r₁ in
      let (p, q) = pure-eq-ok (add_if h m.0 a rest) found w u r₂ in
      let (made, all) = matches-WasRead t a cache m s v ps e₁ in
      subst (All (MadeBy t)) p (All-add t m.0 a rest made (f m.1 rest v w all e₂))

  match_all-MadeBy :
      (items : List Fields) (t : Target) (cache : RunCache) (found : List CheckpointArtifact)
      (s u : State h.World)
      → All (WasRead t) cache
      → match_all h t cache items s ≡ (ok found, u)
      → All (MadeBy t) found
  unfolding match_all
  match_all-MadeBy [] t cache found s u ps e =
      subst (All (MadeBy t)) (pure-eq-ok [] found s u e).0 tt
  match_all-MadeBy (item ∷ items) t cache found s u ps e =
      let again = match_all-MadeBy items t in
      let (o, v, e₁, r₁) = bind-eq-ok (lift (checkpoint_of h item)) _ s u found e in
      judge-MadeBy t cache o _ found v u again ps r₁

  pub find-MadeBy :
      (t : Target) (found : List CheckpointArtifact) (s u : State h.World)
      → find_version_checkpoints h t s ≡ (ok found, u)
      → All (MadeBy t) found
  unfolding find_version_checkpoints
  find-MadeBy t found s u e =
      let (items, v, e₁, r₁) = bind-eq-ok (list_checkpoint_artifacts h t) _ s u found e in
      let (some_found, w, e₂, r₂) = bind-eq-ok (match_all h t [] items) _ v u found r₁ in
      subst (All (MadeBy t)) (pure-eq-ok (sort_artifacts some_found) found w u r₂).0
        (All-sort (MadeBy t) some_found (match_all-MadeBy items t [] some_found v w tt e₂))

  -- What the second look of a cleanup that deletes has seen
  pub again-Guarded :
      (t : Target) (identity : Option ReleaseIdentity) (s u : State h.World)
      → guard_again h t false identity s ≡ (ok tt, u)
      → (release : ReleaseIdentity) × (identity ≡ some release) × Guarded t release
  again-Guarded t none s u e = throw-ne-ok _ _ tt s u e
  again-Guarded t (some release) s u e = (release, refl, guard-Guarded t release false s u e)
