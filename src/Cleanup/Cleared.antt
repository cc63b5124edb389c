-- ===== src/Cleanup/Cleared.antt =====
-- What the cleanup of the source caches of a version rests on.
use chromium_compile.Prelude.{String, true, ◌≡◌, Option, some, List, [], ◌∷◌, map, All}
use chromium_compile.Result.{ok}
use chromium_compile.Json.{concat, show}
use chromium_compile.Host.{Completed, Host, State}
use chromium_compile.Cleanup.{Target, try_gh}
use chromium_compile.Cleanup.Release.{ReleaseIdentity}
use chromium_compile.Cleanup.Caches.{
  cache_deletion, SourceCache, source_cache_filters, list_source_caches, is_absent,
}
use chromium_compile.Cleanup.Grounds.{Guarded}
use chromium_compile.Cleanup.Sources.{Named}

module _ (h : Host) where
  -- The deletion was sent, and the listing of the version's caches that followed it did not show the
  -- cache.
  pub record Vanished (t : Target) (c : SourceCache) : Type 0 where
    pub start : State h.World
    pub before : State h.World
    pub after : State h.World
    pub answer : Completed
    pub left : List SourceCache
    pub sent : try_gh h (cache_deletion h t c) 120 start ≡ (ok answer, before)
    pub listing : list_source_caches h t before ≡ (ok left, after)
    pub absent : is_absent h c.cache_id left ≡ true

  abbrev pub settled : SourceCache → String
  settled c = concat ("deleted-cache:" ∷ show c.cache_id ∷ ":key=" ∷ c.key ∷ [])

  -- The grounds of a cleanup that deletes source caches
  pub record Cleared (t : Target) (identity : Option ReleaseIdentity) (lines : List String)
      : Type 0 where
    pub release : ReleaseIdentity
    pub given : identity ≡ some release
    pub guarded : Guarded h t release
    pub found : List SourceCache
    pub named : All (Named (source_cache_filters t.version)) found
    pub gone : All (Vanished t) found
    pub reported : map settled found ≡ lines
