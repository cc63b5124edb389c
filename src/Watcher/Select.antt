-- ===== src/Watcher/Select.antt =====
-- scripts/chromium_stable_watcher.py: `PortState` and `select_candidates`.
pub mod Entries
pub mod Scan
pub mod Laws
use chromium_compile.Prelude.{
  ℕ, String, Bool, true, false, ◌≡◌, refl, ◌||◌, not, List, [], ◌∷◌, ◌++◌, ltb, leb, length,
  if◌then◌else◌, mem, is_empty, ◌+◌,
}
use chromium_compile.Result.{Result, ok, raise, value_error, ◌>>=◌}
use chromium_compile.Text.Version.{Key, version_key, key_leb}
use chromium_compile.Text.Version.Sorting.{Entry, sorted_versions}

pub record PortState : Type 0 where
  pub known : List String
  pub released : List String
  pub blocked : List String
  pub active : List String

-- The three `continue`s of the loop
unfoldable pub skips : Key → PortState → Entry → Bool
skips minimum state e =
    key_leb e.key minimum
    || (mem e.name state.known || mem e.name state.released)
    || mem e.name state.blocked

-- The loop of `select_candidates`, with its `break`
unfoldable pub scan : Key → PortState → ℕ → List String → List Entry → List String
unfolding skips
scan minimum state limit selected [] = selected
scan minimum state limit selected (e ∷ es) =
    let passed = scan minimum state limit selected es in
    let taken = scan minimum state limit (selected ++ e.name ∷ []) es in
    if skips minimum state e
    then passed
    else if leb limit (length (selected ++ e.name ∷ []))
    then selected ++ e.name ∷ []
    else taken

-- `version_key(minimum)` stands inside the loop, so no version, no call.
unfoldable pub scan_all : String → PortState → ℕ → List Entry → Result (List String)
unfolding scan
scan_all minimum state limit [] = ok []
scan_all minimum state limit (e ∷ es) = do
  m ← version_key minimum
  ok (scan m state limit [] (e ∷ es))

unfoldable pub select_candidates : List String → String → PortState → ℕ → Result (List String)
unfolding scan_all
select_candidates versions minimum state limit =
    if ltb limit 1
    then raise value_error "limit must be at least 1"
    else if not (is_empty state.active)
    then ok []
    else do entries ← sorted_versions versions; scan_all minimum state limit entries
