-- ===== src/Watcher/Main/Dispatched.antt =====
-- The versions that a run of the watcher dispatches.
use chromium_compile.Prelude.{ℕ, String, true, ◌≡◌, Option, List, All}
use chromium_compile.Result.{Result, ok}
use chromium_compile.Json.{Json}
use chromium_compile.Host.{Host, State}
use chromium_compile.Watcher.Gh.{Settings}
use chromium_compile.Watcher.Lane.{LaneConfig}
use chromium_compile.Watcher.Feed.{Baseline, load_baseline}
use chromium_compile.Watcher.Main.{Args, source_object_is_ready, pick_ready}
use chromium_compile.Watcher.Main.Cleared.{Grounds, IsCleared}

module _ (h : Host) (settings : Settings) (lookup_limit : ℕ) (lane : LaneConfig)
    (open_url : String → List (String × String) → h.World → Result (Option Json) × h.World)
    (fetch_metadata : String → h.World → Result (Unit {0}) × h.World) (api_url : String) where
  -- The source of the version was found at one moment of the run.
  pub record IsReady (v : String) : Type 0 where
    pub before : State h.World
    pub after : State h.World
    pub found :
        source_object_is_ready h settings lookup_limit lane open_url fetch_metadata api_url v before
        ≡ (ok true, after)

  module _ (P : String → Type 0) (n : ℕ) where
    abbrev Picked : List String → Type 0
    Picked vs = All (λ v. P v × IsReady v) vs

    abbrev Pick : List String → List String → State h.World → Result (List String) × State h.World
    Pick versions ready =
        pick_ready h settings lookup_limit lane open_url fetch_metadata api_url n versions ready

  module _ (args : Args) (baseline : Baseline) where
    abbrev Ground : Type 0
    Ground = Grounds h settings lookup_limit lane open_url fetch_metadata api_url args baseline

    abbrev Cleared : Ground → String → Type 0
    Cleared g =
        IsCleared h settings lookup_limit lane open_url fetch_metadata api_url args baseline g

  -- What a run has read when it dispatches
  pub record IsJustified (args : Args) (file : Json) (dispatched : List String) : Type 0 where
    pub baseline : Baseline
    pub grounds : Ground args baseline
    pub loaded : load_baseline file lane ≡ ok baseline
    pub cleared : All (λ v. Cleared args baseline grounds v × IsReady v) dispatched
