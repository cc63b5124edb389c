-- ===== src/Dispatch/Once/Confirmed.antt =====
-- A confirmed outcome rests on a listing, and an expected commit binds the ref.
use chromium_compile.Prelude.{ℕ, String, Bool, ◌≡◌}
use chromium_compile.Result.{ok}
use chromium_compile.Host.{Host, State, Act}
use chromium_compile.Dispatch.Lookup.{resolve_ref_sha}
use chromium_compile.Dispatch.Confirm.{confirm_expected_dispatch_head}
use chromium_compile.Dispatch.Confirm.Evidence.{IsSeen}
use chromium_compile.Dispatch.Once.{Request}

module _ (h : Host) (lookup_limit : ℕ) where
  -- The ref resolved to the commit at one moment of the call.
  pub record Resolved (r : Request) (sha : String) : Type 0 where
    pub before : State h.World
    pub after : State h.World
    pub resolves : resolve_ref_sha h lookup_limit r.repository r.ref before ≡ (ok sha, after)

  -- A call with an expected commit that sent a dispatch has seen the ref at that commit before, and a
  -- run at that commit after.
  pub record IsBacked (r : Request) (sha : String) : Type 0 where
    pub lineage : Resolved r sha
    pub started : ℕ
    pub seen : IsSeen h lookup_limit r.repository r.workflow r.title r.ref sha started

  abbrev Confirm : Request → String → ℕ → Act h.World Bool
  Confirm r sha started =
      confirm_expected_dispatch_head h lookup_limit r.repository r.workflow r.title r.ref sha
        started r.confirm_attempts

  abbrev Seen : Request → String → ℕ → Type 0
  Seen r sha started = IsSeen h lookup_limit r.repository r.workflow r.title r.ref sha started
