-- ===== src/Watcher/Main/Cleared.antt =====
-- On what grounds a version is dispatched.
use chromium_compile.Prelude.{
  ℕ, String, Bool, true, false, ◌≡◌, refl, subst, inl, inr, Option, some, List, [], ◌∷◌, ◌==◌,
  arith, if◌then◌else◌, is_empty, mem, diff, All, Bool-cases,
}
use chromium_compile.Result.{Result, ok, raise, watcher_error, and_then-eq-ok, ok-injective}
use chromium_compile.Json.{Json}
use chromium_compile.Host.{Host, State, lift}
use chromium_compile.Host.Laws.{bind-eq-ok, pure-eq-ok, lift-eq-ok}
use chromium_compile.Text.Version.{Key, version_key, key_ltb, key_leb}
use chromium_compile.Watcher.Gh.{Settings}
use chromium_compile.Watcher.Lane.{LaneConfig}
use chromium_compile.Watcher.RunState.{RunState, list_port_run_state}
use chromium_compile.Watcher.Health.{Health, list_release_health, list_blocked_versions}
use chromium_compile.Watcher.Feed.{Baseline, fetch_stable_versions}
use chromium_compile.Watcher.Select.{PortState, select_candidates}
use chromium_compile.Watcher.Select.Laws.{IsEligible}
use chromium_compile.Watcher.Main.{
  Args, Plan, refuse_broken, choose_forced, plan_forced, plan_listed, plan_builds,
}

pub busy_empty :
    (versions : List String) (minimum : String) (state : PortState) (limit : ℕ) (vs : List String)
    → select_candidates versions minimum state limit ≡ ok vs
    → is_empty state.active ≡ false
    → vs ≡ []
unfolding select_candidates
busy_empty versions minimum state limit vs e b = ground arith

above_of : (k m : Key) → key_leb k m ≡ false → key_ltb m k ≡ true
unfolding key_leb
above_of k m e = ground arith

pub both_ways : {C : Type 0} (b : Bool) → b ≡ true → b ≡ false → C
both_ways b p q = absurd (cc)

pub eligible_above :
    (versions : List String) (minimum : String) (state : PortState) (v : String)
    → IsEligible versions minimum state v
    → (k : Key) × (m : Key) × (version_key v ≡ ok k)
      × (version_key minimum ≡ ok m)
      × (key_ltb m k ≡ true)
      × (mem v state.released ≡ false)
eligible_above versions minimum state v e =
    (e.key, e.baseline, e.parses, e.minimum_parses, e.above, e.not_released)

module _ (h : Host) (settings : Settings) (lookup_limit : ℕ) (lane : LaneConfig)
    (open_url : String → List (String × String) → h.World → Result (Option Json) × h.World)
    (fetch_metadata : String → h.World → Result (Unit {0}) × h.World) (api_url : String) where
  module _ (args : Args) (baseline : Baseline) where
    -- The run state and the release health that a run has read, without a broken release that no
    -- active run may still complete
    pub record Grounds : Type 0 where
      pub runs : RunState
      pub health : Health
      pub run_before : State h.World
      pub run_after : State h.World
      pub health_before : State h.World
      pub health_after : State h.World
      pub run_read :
          list_port_run_state h settings (some args.ref) lane args.repository run_before
          ≡ (ok runs, run_after)
      pub health_read :
          list_release_health h settings args.repository lane baseline.legacy_mutable health_before
          ≡ (ok health, health_after)
      pub unbroken : is_empty (diff health.broken runs.active) ≡ true

    -- No run is active, the version has no healthy release, and it is above the baseline.
    pub record IsCleared (g : Grounds) (v : String) : Type 0 where
      pub idle : is_empty g.runs.active ≡ true
      pub unreleased : mem v g.health.healthy ≡ false
      pub key : Key
      pub minimum : Key
      pub parses : version_key v ≡ ok key
      pub minimum_parses : version_key baseline.minimum ≡ ok minimum
      pub above : key_ltb minimum key ≡ true

    pub record IsGrounded (plan : Plan) : Type 0 where
      pub grounds : Grounds
      pub active : plan.state.active ≡ grounds.runs.active
      pub released : plan.state.released ≡ grounds.health.healthy
      pub forced : (args.force_version == "") ≡ false → All (IsCleared grounds) plan.candidates

    refused :
        (health : Health) (runs : RunState)
        → refuse_broken h settings lookup_limit lane open_url fetch_metadata api_url health runs
          ≡ ok tt
        → is_empty (diff health.broken runs.active) ≡ true
    unfolding refuse_broken
    refused health runs e = ground arith

    newer-IsCleared :
        (g : Grounds) (v : String) (k m : Key) (vs : List String)
        → is_empty g.runs.active ≡ true
        → mem v g.health.healthy ≡ false
        → version_key v ≡ ok k
        → version_key baseline.minimum ≡ ok m
        → (if key_leb k m then raise watcher_error "is not newer than baseline" else ok (v ∷ []))
          ≡ ok vs
        → All (IsCleared g) vs
    newer-IsCleared g v k m vs idle unreleased p q e = elim (Bool-cases (key_leb k m)) [
      | inl le ↦ absurd (cc (rw le at e))
      | inr gt ↦ subst (All (IsCleared g)) (ok-injective (v ∷ []) vs (rw gt at e)) (
        record {
          idle = idle;
          unreleased = unreleased;
          key = k;
          minimum = m;
          parses = p;
          minimum_parses = q;
          above = above_of k m gt;
        },
        tt,
      )
    ]

    forced-IsCleared :
        (g : Grounds) (v : String) (vs : List String)
        → choose_forced h settings lookup_limit lane open_url fetch_metadata api_url v baseline
            g.runs g.health
          ≡ ok vs
        → All (IsCleared g) vs
    unfolding choose_forced
    forced-IsCleared g v vs e = elim (Bool-cases (is_empty g.runs.active)) [
      | inr b ↦ subst (All (IsCleared g)) (ok-injective [] vs (rw b at e)) tt
      | inl idle ↦ elim (Bool-cases (mem v g.health.healthy)) [
        | inl r ↦ subst (All (IsCleared g)) (ok-injective [] vs (rw (idle, r) at e)) tt
        | inr unreleased ↦
            let (k, p, e₁) = and_then-eq-ok (version_key v) _ vs (rw (idle, unreleased) at e) in
            let (m, q, e₂) = and_then-eq-ok (version_key baseline.minimum) _ vs e₁ in
            newer-IsCleared g v k m vs idle unreleased p q e₂
      ]
    ]

    plan_forced-IsGrounded :
        (plan : Plan) (s t : State h.World)
        → plan_forced h settings lookup_limit lane open_url fetch_metadata api_url args baseline s
          ≡ (ok plan, t)
        → IsGrounded plan
    unfolding plan_forced
    plan_forced-IsGrounded plan s t e =
        let (_, s₁, _, e₁) = bind-eq-ok (lift (version_key args.force_version)) _ s t plan e in
        let (runs, s₂, r, e₂) =
          bind-eq-ok (list_port_run_state h settings (some args.ref) lane args.repository) _ s₁ t
            plan e₁ in
        let (health, s₃, l, e₃) =
          bind-eq-ok (list_release_health h settings args.repository lane baseline.legacy_mutable) _
            s₂ t plan e₂ in
        let (_, s₄, b, e₄) =
          bind-eq-ok
            (lift (
              refuse_broken h settings lookup_limit lane open_url fetch_metadata api_url health
                runs))
            _ s₃ t plan e₃ in
        let (vs, s₅, c, e₅) =
          bind-eq-ok
            (lift (
              choose_forced h settings lookup_limit lane open_url fetch_metadata api_url
                args.force_version baseline runs health))
            _ s₄ t plan e₄ in
        let g : Grounds = record {
          runs = runs;
          health = health;
          run_before = s₁;
          run_after = s₂;
          health_before = s₂;
          health_after = s₃;
          run_read = r;
          health_read = l;
          unbroken = refused health runs (lift-eq-ok _ tt s₃ s₄ b).0;
        } in
        subst IsGrounded (pure-eq-ok _ plan s₅ t e₅).0 (record {
          grounds = g;
          active = refl;
          released = refl;
          forced = λ _. forced-IsCleared g args.force_version vs (lift-eq-ok _ vs s₄ s₅ c).0;
        })

    plan_listed-IsGrounded :
        (plan : Plan) (s t : State h.World)
        → (args.force_version == "") ≡ true
        → plan_listed h settings lookup_limit lane open_url fetch_metadata api_url args baseline s
          ≡ (ok plan, t)
        → IsGrounded plan
    unfolding plan_listed
    plan_listed-IsGrounded plan s t unforced e =
        let (versions, s₁, _, e₁) =
          bind-eq-ok (fetch_stable_versions h settings open_url api_url baseline.minimum) _ s t plan
            e in
        let (blocked, s₂, _, e₂) =
          bind-eq-ok (list_blocked_versions h settings args.repository lane) _ s₁ t plan e₁ in
        let (runs, s₃, r, e₃) =
          bind-eq-ok (list_port_run_state h settings (some args.ref) lane args.repository) _ s₂ t
            plan e₂ in
        let (health, s₄, l, e₄) =
          bind-eq-ok (list_release_health h settings args.repository lane baseline.legacy_mutable) _
            s₃ t plan e₃ in
        let (_, s₅, b, e₅) =
          bind-eq-ok
            (lift (
              refuse_broken h settings lookup_limit lane open_url fetch_metadata api_url health
                runs))
            _ s₄ t plan e₄ in
        let (vs, s₆, c, e₆) =
          bind-eq-ok (lift (select_candidates versions baseline.minimum _ args.max_new_builds)) _ s₅
            t plan e₅ in
        subst IsGrounded (pure-eq-ok _ plan s₆ t e₆).0 (record {
          grounds = record {
            runs = runs;
            health = health;
            run_before = s₂;
            run_after = s₃;
            health_before = s₃;
            health_after = s₄;
            run_read = r;
            health_read = l;
            unbroken = refused health runs (lift-eq-ok _ tt s₄ s₅ b).0;
          };
          active = refl;
          released = refl;
          forced = λ f. both_ways (args.force_version == "") unforced f;
        })

    pub plan-IsGrounded :
        (plan : Plan) (s t : State h.World)
        → plan_builds h settings lookup_limit lane open_url fetch_metadata api_url args baseline s
          ≡ (ok plan, t)
        → IsGrounded plan
    unfolding plan_builds
    plan-IsGrounded plan s t e = elim (Bool-cases (args.force_version == "")) [
      | inl b ↦ plan_listed-IsGrounded plan s t b (rw b at e)
      | inr b ↦ plan_forced-IsGrounded plan s t (rw b at e)
    ]
