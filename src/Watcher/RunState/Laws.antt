-- ===== src/Watcher/RunState/Laws.antt =====
-- What the run state records of the runs that were read.
use chromium_compile.Prelude.{
  ℕ, ◌-◌, String, Bool, true, false, ◌≡◌, refl, sym, ◌&&◌, ◌||◌, not, Option, none, some, List, [],
  ◌∷◌, ◌++◌, ◌==◌, ◌∙◌, ap, arith, mem, mem-insert, All, All-append, subst,
}
use chromium_compile.Result.{ok, and_then-eq-ok, ok-injective}
use chromium_compile.Json.{Fields, get_str}
use chromium_compile.Host.{Host, State, lift, time_now}
use chromium_compile.Host.Laws.{bind-eq-ok, pure-eq-ok, lift-eq-ok}
use chromium_compile.Watcher.Gh.{Settings}
use chromium_compile.Watcher.Lane.{LaneConfig}
use chromium_compile.Watcher.Rest.{
  active_run_states, quarantine_run_conclusions, list_workflow_runs,
}
use chromium_compile.Watcher.RunState.{
  RunState, extract_port_version, quarantine, settle, consume, consume_all, queries, read_all, days,
  list_port_run_state,
}

unfoldable pub any_run : (Fields → Bool) → List Fields → Bool
any_run p [] = false
any_run p (run ∷ runs) = p run || any_run p runs

any_run-append :
    (p : Fields → Bool) (xs ys : List Fields)
    → any_run p (xs ++ ys) ≡ (any_run p xs || any_run p ys)
unfolding any_run
any_run-append p [] ys = refl
any_run-append p (x ∷ xs) ys = ground (arith, any_run-append p xs ys)

any_run-single : (p : Fields → Bool) (run : Fields) → any_run p (run ∷ []) ≡ p run
unfolding any_run
any_run-single p run = ground arith

or_chain : (a b c x y z : Bool) → b ≡ (a || x) → c ≡ (b || y) → z ≡ (x || y) → c ≡ (a || z)
or_chain a b c x y z p q r = ground arith

module _ (h : Host) (settings : Settings) (production_ref : Option String) (lane : LaneConfig) where
  -- A run's version, if its title has one
  abbrev pub port_version : Fields → Option String
  port_version run = extract_port_version (get_str h.repr "display_title" run) lane

  abbrev pub is_active : Fields → Bool
  is_active run = mem (get_str h.repr "status" run) active_run_states

  abbrev pub on_ref : Option String → Fields → Bool
  on_ref none run = true
  on_ref (some ref) run = get_str h.repr "head_branch" run == ref

  -- A run that ended badly, on the production ref if one is given
  abbrev pub is_failure : Fields → Bool
  is_failure run =
      not (is_active run)
      && (get_str h.repr "status" run == "completed"
          && mem (get_str h.repr "conclusion" run) quarantine_run_conclusions)
      && on_ref production_ref run

  abbrev pub names : String → Option String → Bool
  names v none = false
  names v (some w) = w == v

  abbrev pub active_as : String → Fields → Bool
  active_as v run = is_active run && names v (port_version run)

  abbrev pub failed_as : String → Fields → Bool
  failed_as v run = is_failure run && names v (port_version run)

  -- An active run has a version.
  abbrev pub IsNamed : Fields → Type 0
  IsNamed run = is_active run ≡ true → (v : String) × (port_version run ≡ some v)

  -- How the sets grow over some runs
  pub record Records (runs : List Fields) (state state' : RunState) : Type 0 where
    pub active :
        (v : String) → mem v state'.active ≡ (mem v state.active || any_run (active_as v) runs)
    pub quarantined :
        (v : String)
        → mem v state'.quarantined ≡ (mem v state.quarantined || any_run (failed_as v) runs)
    pub named : All IsNamed runs

  quarantine_sets :
      (version : String) (run : Fields) (state state' : RunState)
      → quarantine h settings production_ref lane version run state ≡ ok state'
      → (state'.active ≡ state.active)
        × ((v : String)
            → mem v state'.quarantined
              ≡ (mem v state.quarantined || (on_ref production_ref run && (version == v))))
  unfolding quarantine
  quarantine_sets version run state state' e =
      (ground arith, λ v. ground (arith, mem-insert v version state.quarantined))

  module _ (run : Fields) (state state' : RunState) where
    settle_sets :
        (version : Option String) (a f : Bool)
        → settle h settings production_ref lane version a f run state ≡ ok state'
        → ((v : String) → mem v state'.active ≡ (mem v state.active || (a && names v version)))
          × ((v : String)
              → mem v state'.quarantined ≡ (
                  mem v state.quarantined
                  || ((not a && f && on_ref production_ref run) && names v version)))
          × (a ≡ true → (v : String) × (version ≡ some v))
    unfolding settle
    settle_sets none a f e = (λ v. ground arith, λ v. ground arith, λ t. absurd (ground arith))
    settle_sets (some version) true f e = (
      λ v. ground (arith, mem-insert v version state.active),
      λ v. ground arith,
      λ t. (version, refl),
    )
    settle_sets (some version) false true e =
        let (same, sets) = quarantine_sets version run state state' e in
        (λ v. ground (arith, ap (mem v) same), λ v. ground (arith, sets v), λ t. (version, refl))
    settle_sets (some version) false false e =
        (λ v. ground arith, λ v. ground arith, λ t. (version, refl))

    consume-Records :
        consume h settings production_ref lane run state ≡ ok state'
        → Records (run ∷ []) state state'
    unfolding consume any_run
    consume-Records e =
        let (active, quarantined, named) = settle_sets (port_version run) (is_active run) _ e in
        record {
          active = λ v.
              active v ∙ ap (λ b. mem v state.active || b) (sym (any_run-single (active_as v) run));
          quarantined = λ v.
              quarantined v
              ∙ ap (λ b. mem v state.quarantined || b) (sym (any_run-single (failed_as v) run));
          named = (named, tt);
        }

  Records-append :
      (xs ys : List Fields) (s t u : RunState)
      → Records xs s t
      → Records ys t u
      → Records (xs ++ ys) s u
  Records-append xs ys s t u p q = record {
    active =
        λ v. or_chain _ _ _ _ _ _ (p.active v) (q.active v) (any_run-append (active_as v) xs ys);
    quarantined = λ v.
        or_chain _ _ _ _ _ _ (p.quarantined v) (q.quarantined v)
          (any_run-append (failed_as v) xs ys);
    named = All-append IsNamed xs ys p.named q.named;
  }

  or_false : (b : Bool) → b ≡ (b || false)
  or_false b = ground arith

  Records-none : (s : RunState) → Records [] s s
  unfolding any_run
  Records-none s = record {
    active = λ v. or_false (mem v s.active);
    quarantined = λ v. or_false (mem v s.quarantined);
    named = tt;
  }

  consume_all-Records :
      (runs : List Fields) (s t : RunState)
      → consume_all h settings production_ref lane runs s ≡ ok t
      → Records runs s t
  unfolding consume_all
  consume_all-Records [] s t e = subst (Records [] s) (ok-injective s t e) (Records-none s)
  consume_all-Records (run ∷ runs) s t e =
      let (u, p, q) = and_then-eq-ok (consume h settings production_ref lane run s) _ t e in
      Records-append (run ∷ []) runs s u t (consume-Records run s u p)
        (consume_all-Records runs u t q)

  -- The reads of some queries, one after the other, and the runs that they gave together
  pub data Reads (repository : String) (cutoff : ℕ)
      : List (String × String) → State h.World → State h.World → List Fields → Type 0 where
    read_none : {s : State h.World} → Reads repository cutoff [] s s []
    read_more :
        {workflow filter : String} {rest : List (String × String)} {s t u v : State h.World}
        {runs more : List Fields}
        → list_workflow_runs h settings repository workflow cutoff (some filter) s ≡ (ok runs, t)
        → t ≡ u
        → Reads repository cutoff rest u v more
        → Reads repository cutoff ((workflow, filter) ∷ rest) s v (runs ++ more)

  read_all-Records :
      (repository : String) (cutoff : ℕ) (qs : List (String × String)) (state state' : RunState)
      (s t : State h.World)
      → read_all h settings production_ref lane repository cutoff qs state s ≡ (ok state', t)
      → (runs : List Fields) × Reads repository cutoff qs s t runs × Records runs state state'
  unfolding read_all
  read_all-Records repository cutoff [] state state' s t e =
      let (same, still) = pure-eq-ok state state' s t e in
      (
        [],
        subst (λ t. Reads repository cutoff [] s t []) still read_none,
        subst (Records [] state) same (Records-none state),
      )
  read_all-Records repository cutoff ((workflow, filter) ∷ rest) state state' s t e =
      let (runs, u, l, e₁) =
        bind-eq-ok (list_workflow_runs h settings repository workflow cutoff (some filter)) _ s t
          state' e in
      let (between, v, c, e₂) =
        bind-eq-ok (lift (consume_all h settings production_ref lane runs state)) _ u t state' e₁ in
      let (consumed, still) = lift-eq-ok _ between u v c in
      let (more, reads, records) = read_all-Records repository cutoff rest between state' v t e₂ in
      (
        runs ++ more,
        read_more l still reads,
        Records-append runs more state between state'
            (consume_all-Records runs state between consumed) records,
      )

  -- What a run state stands for: a listing of every workflow of the lane by every state and
  -- conclusion, whose runs the two sets record
  pub record IsRead (repository : String) (s t : State h.World) (state : RunState) : Type 0 where
    pub now : ℕ
    pub start : State h.World
    pub runs : List Fields
    pub clock : time_now h s ≡ (ok now, start)
    pub reads :
        Reads repository
          (now - days h settings production_ref lane settings.run_history_days)
          (queries h settings production_ref lane lane.workflows)
          start
          t
          runs
    pub active : (v : String) → mem v state.active ≡ any_run (active_as v) runs
    pub quarantined : (v : String) → mem v state.quarantined ≡ any_run (failed_as v) runs
    pub named : All IsNamed runs

  -- A run state that is returned rests on listings of each workflow of the lane by each active state
  -- and each bad conclusion. Its active versions are those of the listed active runs, its quarantined
  -- ones those of the listed runs that failed on the production ref, and no listed active run had a
  -- title without a version.
  pub list_port_run_state-IsRead :
      (repository : String) (state : RunState) (s t : State h.World)
      → list_port_run_state h settings production_ref lane repository s ≡ (ok state, t)
      → IsRead repository s t state
  unfolding list_port_run_state mem
  list_port_run_state-IsRead repository state s t e =
      let (now, u, clock, e₁) = bind-eq-ok (time_now h) _ s t state e in
      let (runs, reads, records) = read_all-Records repository _ _ _ state u t e₁ in
      record {
        now = now;
        start = u;
        runs = runs;
        clock = clock;
        reads = reads;
        active = λ v. records.active v;
        quarantined = λ v. records.quarantined v;
        named = records.named;
      }
