-- ===== src/Issue/Listed.antt =====
-- The number that an upsert reports is that of the one open issue with the title.
use chromium_compile.Prelude.{ℕ, String, ◌≡◌, some}
use chromium_compile.Result.{ok}
use chromium_compile.Host.{Host, State}
use chromium_compile.Issue.{Upserted, updated, created_after_client_error, created, find_issue}

module _ (h : Host) where
  -- At one moment of the run the listing showed the issue, and no second one, under the title.
  pub record IsListed (repository title number : String) : Type 0 where
    pub left : ℕ
    pub before : State h.World
    pub after : State h.World
    pub lookup : find_issue h left repository title before ≡ (ok (some number), after)

  -- The number that an outcome reports
  abbrev pub reported : Upserted → String
  reported (updated number) = number
  reported (created_after_client_error number) = number
  reported (created number) = number

  module _ (repository title : String) where
    abbrev Listed : Upserted → Type 0
    Listed o = IsListed repository title (reported o)
