-- ===== src/Watcher/Main/Laws.antt =====
-- What a run of the watcher sends, and for which versions.
use chromium_compile.Prelude.{
  ℕ, ◌+◌, ◌≤◌, max, String, false, ◌≡◌, Option, List, [], ◌∷◌, ◌++◌, arith, leb, length,
  length-append,
}
use chromium_compile.Result.{Result}
use chromium_compile.Json.{Json}
use chromium_compile.Host.{Host, State, Act, ◌>>=◌}
use chromium_compile.Host.Bounded.{
  AtMost, AtMost-of_Quiet, AtMost-of_once, AtMost-bind, AtMost-known, AtMost-le, AtMost-if,
  AtMost-recover,
}
use chromium_compile.Host.Returns.{Returns, Returns-pure, Returns-bind, Returns-if}
use chromium_compile.Host.Tally.{Quiet, Quiet-pure, Quiet-throw, Quiet-lift, quiet_rules}
use chromium_compile.Dispatch.Once.Laws.{sent, dispatch_once-AtMostOnce}
use chromium_compile.Dispatch.Once.Sends.{is_dispatch}
use chromium_compile.Watcher.Gh.{Settings}
use chromium_compile.Watcher.Lane.{LaneConfig}
use chromium_compile.Watcher.Feed.{Baseline, load_baseline}
use chromium_compile.Watcher.Main.{
  Args, source_object_is_ready, preflight_request, dispatch_preflight, plan_forced, plan_listed,
  plan_builds, pick_ready, dispatch_all, watch,
}
use chromium_compile.Watcher.Main.Sends.{
  Silent, run_state-Silent, health-Silent, blocked-Silent, fetch-Silent,
}

shorter : (n l k : ℕ) → k ≡ l + 1 → l + 1 ≤ max 1 n → k ≤ max 1 n
shorter n l k e b = omega (arith, e, b)

longer : (n l k : ℕ) → k ≡ l + 1 → leb n k ≡ false → k + 1 ≤ max 1 n
longer n l k e c = ground arith

module _ (h : Host) (settings : Settings) (lookup_limit : ℕ) (lane : LaneConfig)
    (open_url : String → List (String × String) → h.World → Result (Option Json) × h.World)
    (fetch_metadata : String → h.World → Result (Unit {0}) × h.World) (api_url : String) where
  ready-Silent :
      (version : String)
      → Silent h settings (
          source_object_is_ready h settings lookup_limit lane open_url fetch_metadata api_url
            version)
  unfolding source_object_is_ready
  ready-Silent version = search quiet_rules

  plan-Silent :
      (args : Args) (baseline : Baseline)
      → Silent h settings
          (plan_builds h settings lookup_limit lane open_url fetch_metadata api_url args baseline)
  unfolding plan_builds plan_forced plan_listed
  plan-Silent args baseline =
      search (quiet_rules, run_state-Silent, health-Silent, blocked-Silent, fetch-Silent) depth 16

  pick-Silent :
      (n : ℕ) (versions ready : List String)
      → Silent h settings
          (pick_ready h settings lookup_limit lane open_url fetch_metadata api_url n versions ready)
  unfolding pick_ready
  pick-Silent n [] ready = Quiet-pure is_dispatch ready
  pick-Silent n (version ∷ versions) ready =
      let next : (ready : List String)
          → Silent h settings (
              pick_ready h settings lookup_limit lane open_url fetch_metadata api_url n versions
                ready) =
        λ ready. pick-Silent n versions ready in
      search (quiet_rules, ready-Silent, next)

  pick-length :
      (n : ℕ) (versions ready : List String)
      → length ready + 1 ≤ max 1 n
      → Returns
          (λ picked. length picked ≤ max 1 n)
          (pick_ready h settings lookup_limit lane open_url fetch_metadata api_url n versions ready)
  unfolding pick_ready
  pick-length n [] ready b = Returns-pure _ ready (omega (arith, b))
  pick-length n (version ∷ versions) ready b =
      let one_more = length-append ready (version ∷ []) in
      Returns-bind _ _ _ (λ is_ready.
        Returns-if _ is_ready _ _
          (λ _.
            Returns-if _ (leb n (length (ready ++ version ∷ []))) _ _
              (λ _. Returns-pure _ (ready ++ version ∷ []) (shorter n (length ready) _ one_more b))
              (λ c.
                pick-length n versions (ready ++ version ∷ [])
                  (longer n (length ready) _ one_more c)))
          (λ _. pick-length n versions ready b))

  preflight-AtMost :
      (args : Args) (version : String)
      → AtMost is_dispatch 1 (
          dispatch_preflight h settings lookup_limit lane open_url fetch_metadata api_url args
            version)
  unfolding dispatch_preflight
  preflight-AtMost args version =
      AtMost-if is_dispatch 1 args.dry_run _ _
        (AtMost-of_Quiet is_dispatch 1 _ (Quiet-pure is_dispatch tt))
        (AtMost-bind is_dispatch 1 0 _ _
          (AtMost-recover is_dispatch 1 _ _ _
            (AtMost-recover is_dispatch 1 _ _ _
              (AtMost-of_once is_dispatch _ (
                dispatch_once-AtMostOnce h lookup_limit (
                  preflight_request h settings lookup_limit lane open_url fetch_metadata api_url
                    args version)))
              (λ _. Quiet-throw is_dispatch _ _))
            (λ _. Quiet-throw is_dispatch _ _))
          (λ _. AtMost-of_Quiet is_dispatch 0 _ (Quiet-pure is_dispatch tt)))

  all-AtMost :
      (args : Args) (versions : List String)
      → AtMost is_dispatch
          (length versions)
          (dispatch_all h settings lookup_limit lane open_url fetch_metadata api_url args versions)
  unfolding dispatch_all
  all-AtMost args [] = AtMost-of_Quiet is_dispatch 0 _ (Quiet-pure is_dispatch tt)
  all-AtMost args (version ∷ versions) =
      AtMost-le is_dispatch (1 + length versions) (length (version ∷ versions)) _ (omega arith) (
        AtMost-bind is_dispatch 1 (length versions) _ _ (preflight-AtMost args version)
          (λ _. all-AtMost args versions))

  free_step :
      {A B : Type 0} (n : ℕ) (m : Act h.World A) (f : A → Act h.World B)
      → Quiet is_dispatch m
      → ((a : A) → AtMost is_dispatch n (f a))
      → AtMost is_dispatch n (m >>= f)
  free_step n m f q p =
      AtMost-le is_dispatch (0 + n) n _ (omega arith)
        (AtMost-bind is_dispatch 0 n m f (AtMost-of_Quiet is_dispatch 0 m q) p)

  watch-AtMost :
      (args : Args) (file : Json)
      → AtMost is_dispatch
          (max 1 args.max_new_builds)
          (watch h settings lookup_limit lane open_url fetch_metadata api_url args file)
  unfolding watch
  watch-AtMost args file =
      let n = max 1 args.max_new_builds in
      free_step n _ _ (Quiet-lift is_dispatch (load_baseline file lane)) (λ baseline.
        free_step n _ _ (plan-Silent args baseline) (λ plan.
          free_step n _ _ (Quiet-lift is_dispatch _) (λ eligible.
            AtMost-known is_dispatch (λ picked. length picked ≤ n) n _ _
              (pick-Silent args.max_new_builds eligible [])
              (pick-length args.max_new_builds eligible [] (omega arith))
              (λ picked b. AtMost-le is_dispatch (length picked + 0) n _ (omega (arith, b)) (
                AtMost-bind is_dispatch (length picked) 0 _ _ (all-AtMost args picked)
                  (λ _. AtMost-of_Quiet is_dispatch 0 _ (Quiet-pure is_dispatch picked)))))))

  -- However the service answers, and whether it returns or raises, a run of the watcher sends at most
  -- as many dispatches as it may start builds, or one where it may start none.
  pub watch_at_most :
      (args : Args) (file : Json) (s : State h.World)
      → sent (watch h settings lookup_limit lane open_url fetch_metadata api_url args file s).1
        ≤ sent s + max 1 args.max_new_builds
  watch_at_most args file s = (watch-AtMost args file).at s
