-- ===== src/Cleanup/Quietly.antt =====
-- Which steps of a cleanup send no deletion: all but the deletions themselves.
use chromium_compile.Prelude.{
  ℕ, zero, suc, ◌+◌, String, Bool, true, false, ◌≡◌, refl, ap, ◌∙◌, sym, arith, Option, none, some,
  List, [], ◌∷◌, ◌++◌, ◌-◌, ◌/◌, max, eqb, length,
}
use chromium_compile.Result.{ok}
use chromium_compile.Json.{Fields, get}
use chromium_compile.Host.{Host, State, Act, lift}
use chromium_compile.Host.Tally.{
  tally, Quiet, Quiet-start, Quiet-bind, Quiet-if, Quiet-pure, Quiet-throw, Quiet-lift, quiet_rules,
}
use chromium_compile.Prune.Laws.{is_deletion}
use chromium_compile.Cleanup.{Target, try_gh, run_gh, read_object}
use chromium_compile.Cleanup.Release.{ReleaseIdentity, read_release_identity}
use chromium_compile.Cleanup.Guard.{ensure_no_active_build, verify_release, guard_cleanup_phase}
use chromium_compile.Cleanup.Listing.{
  bounded_total, page_items, counted, stage_name, later_pages, list_stage, list_stages,
  list_checkpoint_artifacts,
}
use chromium_compile.Cleanup.Checkpoints.{
  CheckpointArtifact, RunCache, fetch_run, cached, run_matches_checkpoint, judge, match_all,
  find_version_checkpoints, artifact_is_missing, must, after_delete, guard_again,
}
use chromium_compile.Cleanup.Caches.{
  Filter, SourceCache, read_filter, read_filters, list_source_caches,
}

module _ (h : Host) where
  abbrev pub Looks : {A : Type 0} → Act h.World A → Type 0
  Looks m = Quiet is_deletion m

  try-Looks :
      (args : List String) (timeout : ℕ) → is_deletion args ≡ false → Looks (try_gh h args timeout)
  unfolding try_gh
  try-Looks args timeout e = search (quiet_rules, Quiet-start)

  run-Looks : (args : List String) → is_deletion args ≡ false → Looks (run_gh h args)
  unfolding run_gh
  run-Looks args e = search (quiet_rules, try-Looks)

  object-Looks : (args : List String) → is_deletion args ≡ false → Looks (read_object h args)
  unfolding read_object
  object-Looks args e = search (quiet_rules, run-Looks)

  identity-Looks : (t : Target) → Looks (read_release_identity h t)
  unfolding read_release_identity
  identity-Looks t = Quiet-bind is_deletion _ _ (object-Looks _ refl) (λ payload.
      Quiet-bind is_deletion _ _ (Quiet-lift is_deletion _) (λ checked.
        Quiet-bind is_deletion _ _ (run-Looks _ (ground arith)) (λ resolved.
          Quiet-bind is_deletion _ _ (Quiet-lift is_deletion _)
            (λ commit. Quiet-pure is_deletion _))))

  active-Looks : (t : Target) → Looks (ensure_no_active_build h t)
  unfolding ensure_no_active_build
  active-Looks t = search (quiet_rules, object-Looks)

  verify-Looks :
      (t : Target) (dry_run : Bool) (identity : Option ReleaseIdentity)
      → Looks (verify_release h t dry_run identity)
  verify-Looks t dry_run none = search (quiet_rules, identity-Looks)
  verify-Looks t dry_run (some identity) = search (quiet_rules, identity-Looks)

  pub guard-Looks :
      (t : Target) (dry_run : Bool) (identity : Option ReleaseIdentity)
      → Looks (guard_cleanup_phase h t dry_run identity)
  unfolding guard_cleanup_phase
  guard-Looks t dry_run identity = search (quiet_rules, verify-Looks, active-Looks)

  pub again-Looks :
      (t : Target) (dry_run : Bool) (identity : Option ReleaseIdentity)
      → Looks (guard_again h t dry_run identity)
  again-Looks t true identity = search quiet_rules
  again-Looks t false none = search quiet_rules
  again-Looks t false (some identity) = guard-Looks t false (some identity)

  pages-Looks :
      (t : Target) (name : String) (left page : ℕ) → Looks (later_pages h t name left page)
  unfolding later_pages
  pages-Looks t name zero page = search quiet_rules
  pages-Looks t name (suc left) page =
      let next = pages-Looks t name left (page + 1) in
      Quiet-bind is_deletion _ _ (object-Looks _ refl) (λ payload.
        Quiet-bind is_deletion _ _ (Quiet-lift is_deletion _)
          (λ items. Quiet-bind is_deletion _ _ next (λ rest. Quiet-pure is_deletion _)))

  stage-Looks : (t : Target) (stage : ℕ) → Looks (list_stage h t stage)
  unfolding list_stage
  stage-Looks t stage = Quiet-bind is_deletion _ _ (object-Looks _ refl) (λ payload.
      Quiet-bind is_deletion (lift (counted h (bounded_total 1000 (get "total_count" payload)))) _
        (Quiet-lift is_deletion _)
        (λ total.
          Quiet-bind is_deletion (lift (page_items (stage_name h stage) payload)) _
            (Quiet-lift is_deletion _)
            (λ items.
              Quiet-bind is_deletion _ _
                (pages-Looks t (stage_name h stage) (max 1 ((total + 99) / 100) - 1) 2)
                (λ rest.
                  Quiet-if is_deletion (eqb (length (items ++ rest)) total) _ _
                    (Quiet-pure is_deletion _) (Quiet-throw is_deletion _ _)))))

  stages-Looks : (t : Target) (left stage : ℕ) → Looks (list_stages h t left stage)
  unfolding list_stages
  stages-Looks t zero stage = search quiet_rules
  stages-Looks t (suc left) stage =
      let next = stages-Looks t left (stage + 1) in
      Quiet-bind is_deletion _ _ (stage-Looks t stage)
        (λ items. Quiet-bind is_deletion _ _ next (λ rest. Quiet-pure is_deletion _))

  fetch-Looks :
      (t : Target) (id : ℕ) (cache : RunCache) (o : Option Fields)
      → Looks (fetch_run h t id cache o)
  fetch-Looks t id cache none =
      Quiet-bind is_deletion _ _ (object-Looks _ refl) (λ run. Quiet-pure is_deletion _)
  fetch-Looks t id cache (some run) = search quiet_rules

  matches-Looks :
      (t : Target) (id stage : ℕ) (cache : RunCache)
      → Looks (run_matches_checkpoint h t id stage cache)
  unfolding run_matches_checkpoint
  matches-Looks t id stage cache =
      Quiet-bind is_deletion _ _ (fetch-Looks t id cache (cached cache id))
        (λ found. Quiet-pure is_deletion _)

  judge-Looks :
      (t : Target) (cache : RunCache) (o : Option CheckpointArtifact)
      (next : RunCache → Act h.World (List CheckpointArtifact))
      → ((c : RunCache) → Looks (next c))
      → Looks (judge h t cache o next)
  judge-Looks t cache none next q = q cache
  judge-Looks t cache (some a) next q =
      Quiet-bind is_deletion _ _ (matches-Looks t a.run_id a.stage cache)
        (λ m. Quiet-bind is_deletion _ _ (q m.1) (λ found. Quiet-pure is_deletion _))

  match-Looks :
      (items : List Fields) (t : Target) (cache : RunCache) → Looks (match_all h t cache items)
  unfolding match_all
  match-Looks [] t cache = search quiet_rules
  match-Looks (item ∷ items) t cache =
      let next = match-Looks items t in
      Quiet-bind is_deletion _ _ (Quiet-lift is_deletion _) (λ o. judge-Looks t cache o _ next)

  pub find-Looks : (t : Target) → Looks (find_version_checkpoints h t)
  unfolding find_version_checkpoints list_checkpoint_artifacts
  find-Looks t = Quiet-bind is_deletion _ _ (stages-Looks t 50 1) (λ items.
      Quiet-bind is_deletion _ _ (match-Looks items t []) (λ found. Quiet-pure is_deletion _))

  pub missing-Looks : (t : Target) (id : ℕ) → Looks (artifact_is_missing h t id)
  unfolding artifact_is_missing
  missing-Looks t id = search (quiet_rules, try-Looks)

  pub must-Looks : (b : Bool) (why : String) → Looks (must h b why)
  must-Looks true why = search quiet_rules
  must-Looks false why = search quiet_rules

  pub after-Looks : (t : Target) (id : ℕ) (b : Bool) → Looks (after_delete h t id b)
  after-Looks t id true = search quiet_rules
  after-Looks t id false = search (quiet_rules, missing-Looks, must-Looks)

  filter-Looks :
      (t : Target) (f : Filter) (found : List SourceCache) → Looks (read_filter h t f found)
  unfolding read_filter
  filter-Looks t f found = search (quiet_rules, object-Looks)

  filters-Looks :
      (fs : List Filter) (t : Target) (found : List SourceCache) → Looks (read_filters h t fs found)
  unfolding read_filters
  filters-Looks [] t found = search quiet_rules
  filters-Looks (f ∷ fs) t found =
      let next = filters-Looks fs t in Quiet-bind is_deletion _ _ (filter-Looks t f found) next

  pub caches-Looks : (t : Target) → Looks (list_source_caches h t)
  unfolding list_source_caches
  caches-Looks t = search (quiet_rules, filters-Looks)

  -- What a quiet step that returned leaves of the count
  pub still :
      {A : Type 0} (m : Act h.World A) (a : A) (s t : State h.World)
      → Looks m
      → m s ≡ (ok a, t)
      → tally is_deletion t.calls ≡ tally is_deletion s.calls
  still m a s t q e = ap (λ p. tally is_deletion p.1.calls) (sym e) ∙ q.at s
