-- ===== src/Handoff/Laws.antt =====
-- A handoff dispatches the publisher at most once, and only for a build that succeeded.
use chromium_compile.Prelude.{
  ℕ, zero, suc, ◌≤◌, ◌+◌, String, Bool, true, false, ◌≡◌, some, [], ◌∷◌, ◌==◌,
}
use chromium_compile.Result.{ok}
use chromium_compile.Json.{Fields, get, get_str, concat}
use chromium_compile.Host.{Host, State, Act, lift, ◌>>=◌}
use chromium_compile.Host.Bounded.{AtMost, AtMost-of_Quiet, AtMost-of_once, AtMost-bind}
use chromium_compile.Host.Tally.{Quiet-bind, Quiet-if, Quiet-pure, Quiet-lift, quiet_rules}
use chromium_compile.Dispatch.Once.Laws.{sent, dispatch_once-AtMostOnce}
use chromium_compile.Dispatch.Once.Sends.{
  is_dispatch, Silent, run_gh-Silent, created_at-Silent, since-Silent,
}
use chromium_compile.Prune.{is_lane, equals}
use chromium_compile.Handoff.{
  Build, require, validate_inputs, read_build_run, validate_build_identity, publish_workflow, pause,
  judge, wait_rounds, wait_for_successful_build, legacy_rounds, wait_for_legacy_publisher,
  publish_request, publish, handoff_release,
}

module _ (h : Host) (lookup_limit : ℕ) where
  read-Silent :
      (repository run_id : String)
      → Silent h lookup_limit (read_build_run h lookup_limit repository run_id)
  unfolding read_build_run
  read-Silent repository run_id = search (quiet_rules, run_gh-Silent)

  pause-Silent : (left seconds : ℕ) → Silent h lookup_limit (pause h lookup_limit left seconds)
  pause-Silent zero seconds = search quiet_rules
  pause-Silent (suc left) seconds = search quiet_rules

  judge-Silent :
      (payload : Fields) (again : Act h.World Fields)
      → Silent h lookup_limit again
      → Silent h lookup_limit (judge h lookup_limit payload again)
  judge-Silent payload again q = search quiet_rules

  wait-Silent :
      (left : ℕ) (b : Build) (sha : String)
      → Silent h lookup_limit (wait_rounds h lookup_limit left b sha)
  unfolding wait_rounds
  wait-Silent zero b sha = search quiet_rules
  wait-Silent (suc left) b sha =
      let next = wait-Silent left b sha in
      Quiet-bind is_dispatch _ _ (read-Silent b.repository b.run_id) (λ payload.
        Quiet-bind is_dispatch _ _ (Quiet-lift is_dispatch _) (λ _.
          judge-Silent payload _ (Quiet-bind is_dispatch _ _ (pause-Silent left 5) (λ _. next))))

  legacy-Silent :
      (left : ℕ) (b : Build) (sha title : String) (started : ℕ)
      → Silent h lookup_limit (legacy_rounds h lookup_limit left b sha title started)
  unfolding legacy_rounds
  legacy-Silent zero b sha title started = search quiet_rules
  legacy-Silent (suc left) b sha title started =
      let next = legacy-Silent left b sha title started in
      Quiet-bind is_dispatch _ _
        (since-Silent h lookup_limit b.repository (publish_workflow b.lane) title b.branch started
          30 (some sha))
        (λ present.
          Quiet-if is_dispatch present _ _ (Quiet-pure is_dispatch true)
            (Quiet-bind is_dispatch _ _ (pause-Silent left 2) (λ _. next)))

  publish-AtMost :
      (b : Build) (sha : String) (present : Bool)
      → AtMost is_dispatch 1 (publish h lookup_limit b sha present)
  publish-AtMost b sha true = AtMost-of_Quiet is_dispatch 1 _ (search quiet_rules)
  publish-AtMost b sha false =
      AtMost-bind is_dispatch 1 0 _ _
        (AtMost-of_once is_dispatch _
          (dispatch_once-AtMostOnce h lookup_limit (publish_request h lookup_limit b sha)))
        (λ o. AtMost-of_Quiet is_dispatch 0 _ (search quiet_rules))

  free :
      {A B : Type 0} (m : Act h.World A) (f : A → Act h.World B)
      → Silent h lookup_limit m
      → ((a : A) → AtMost is_dispatch 1 (f a))
      → AtMost is_dispatch 1 (m >>= f)
  free m f q p = AtMost-bind is_dispatch 0 1 m f (AtMost-of_Quiet is_dispatch 0 m q) p

  handoff-AtMost : (b : Build) → AtMost is_dispatch 1 (handoff_release h lookup_limit b)
  unfolding handoff_release wait_for_successful_build wait_for_legacy_publisher
  handoff-AtMost b =
      free {A = Unit {0}} (lift (require (is_lane b.lane) "unsupported release lane")) _
        (Quiet-lift is_dispatch _)
        (λ _. free (lift (validate_inputs b)) _ (Quiet-lift is_dispatch _) (λ sha.
          free (wait_rounds h lookup_limit 60 b sha) _ (wait-Silent 60 b sha) (λ payload.
            free {A = String} (lift (validate_build_identity h lookup_limit b sha payload)) _
              (Quiet-lift is_dispatch _)
              (λ title.
                free _ _ (created_at-Silent h lookup_limit b.repository b.run_id) (λ started.
                  free _ _ (legacy-Silent 4 b sha (concat ("Publish " ∷ title ∷ [])) started)
                    (publish-AtMost b sha))))))

  -- A handoff sends at most one dispatch, whether it returns or raises.
  pub handoff_release_once :
      (b : Build) (s : State h.World) → sent (handoff_release h lookup_limit b s).1 ≤ sent s + 1
  handoff_release_once b s = (handoff-AtMost b).at s

  -- A read of the run showed it completed with success and of the right identity.
  pub record IsBuilt (b : Build) (sha : String) : Type 0 where
    pub payload : Fields
    pub before : State h.World
    pub after : State h.World
    pub read : read_build_run h lookup_limit b.repository b.run_id before ≡ (ok payload, after)
    pub title : String
    pub identity : validate_build_identity h lookup_limit b sha payload ≡ ok title
    pub completed : (get_str h.repr "status" payload == "completed") ≡ true
    pub success : equals (get "conclusion" payload) "success" ≡ true
