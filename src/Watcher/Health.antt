-- ===== src/Watcher/Health.antt =====
-- scripts/chromium_stable_watcher.py: `list_release_health`, `list_release_versions` and
-- `list_blocked_versions`.
pub mod Laws
pub mod Survey
mod Tests
use chromium_compile.Prelude.{
  ℕ, zero, suc, String, Bool, true, false, not, ◌&&◌, ◌||◌, Option, none, some, List, [], ◌∷◌, ◌==◌,
  ltb, if◌then◌else◌, mem, insert,
}
use chromium_compile.Result.{Result, ok, raise, value_error, type_error, and_then, map_ok}
use chromium_compile.Json.{
  Json, null, bool, int, neg, real, str, arr, obj, end, done, Fields, as_list, objects, get,
  get_str, concat, truthy,
}
use chromium_compile.Host.{Host, Act, pure, lift, ◌>>=◌, recover}
use chromium_compile.Text.Digits.{is_digit}
use chromium_compile.Text.Pattern.{framed, is_digest}
use chromium_compile.Watcher.Gh.{Settings}
use chromium_compile.Watcher.Lane.{LaneConfig}
use chromium_compile.Watcher.Manifest.{verify_release_provenance}
use chromium_compile.Watcher.Rest.{list_rest_items}

-- The version in a release's tag
unfoldable pub tag_version : LaneConfig → String → Option String
unfolding framed is_digit
tag_version lane tag = framed is_digit "chromium-" (concat ("-" ∷ lane.tag_suffix ∷ [])) tag

abbrev pub manifest_name : String → LaneConfig → String
manifest_name version lane =
    concat ("chromium-" ∷ version ∷ "-" ∷ lane.tag_suffix ∷ "-manifest.txt" ∷ [])

unfoldable pub expected_assets : String → LaneConfig → List String
unfolding concat
expected_assets version lane =
    concat ("chromium-" ∷ version ∷ "-" ∷ lane.package_suffix ∷ [])
    ∷ concat ("chromium-" ∷ version ∷ "-" ∷ lane.package_suffix ∷ ".sha256" ∷ [])
    ∷ manifest_name version lane
    ∷ []

-- The healthy and the broken versions
pub record Health : Type 0 where
  pub healthy : List String
  pub broken : List String

module _ (h : Host) where
  -- `asset_map`; of two assets with one name the later counts.
  unfoldable pub find_asset : String → List Fields → Option Fields
  unfolding get_str
  find_asset name [] = none
  find_asset name (asset ∷ assets) = elim (find_asset name assets) [
    | some later ↦ some later
    | none ↦ if get_str h.repr "name" asset == name then some asset else none
  ]

  unfoldable pub has_duplicate : List Fields → Bool
  unfolding find_asset
  has_duplicate [] = false
  has_duplicate (asset ∷ assets) = elim (find_asset (get_str h.repr "name" asset) assets) [
    | some _ ↦ true
    | none ↦ has_duplicate assets
  ]

  -- `int(value or 0) > 0`
  unfoldable pub is_positive : Option Json → Result Bool
  is_positive none = ok false
  is_positive (some null) = ok false
  is_positive (some (bool b)) = ok b
  is_positive (some (int n)) = ok (ltb 0 n)
  is_positive (some (neg n)) = ok false
  is_positive (some (str s)) = if s == "" then ok false else h.int_positive (str s)
  is_positive (some (arr end)) = ok false
  is_positive (some (obj done)) = ok false
  is_positive (some other) = h.int_positive other

  -- One asset of those that a release needs
  unfoldable pub is_complete_asset : Fields → Result Bool
  unfolding is_positive is_digest get get_str
  is_complete_asset asset =
      if not (get_str h.repr "state" asset == "uploaded")
      then ok false
      else and_then (is_positive (get "size" asset))
          λ positive. ok (positive && is_digest (get_str h.repr "digest" asset))

  -- The loop over `expected_assets`, which stands after the test that all of them are there. Python
  -- takes a set's members in no fixed order, which only matters where `int` raises.
  unfoldable pub all_complete : List String → List Fields → Result Bool
  all_complete [] assets = ok true
  all_complete (name ∷ names) assets = elim (find_asset name assets) [
    | none ↦ ok false
    | some asset ↦
        and_then (is_complete_asset asset)
          λ complete. if complete then all_complete names assets else ok false
  ]

  abbrev all_present : List String → List Fields → Bool
  all_present [] assets = true
  all_present (name ∷ names) assets = elim (find_asset name assets) [
    | none ↦ false
    | some _ ↦ all_present names assets
  ]

  unfoldable pub is_complete : String → LaneConfig → List Fields → Result Bool
  is_complete version lane assets =
      if not (has_duplicate assets) && all_present (expected_assets version lane) assets
      then all_complete (expected_assets version lane) assets
      else ok false

  -- `release.get("assets", [])`, where only the objects count, and only if it is a list
  unfoldable pub assets_of : Fields → List Fields
  unfolding get objects
  assets_of release = elim (get "assets" release) [
    | none ↦ []
    | some assets ↦ elim (as_list assets) [ none ↦ [] | some items ↦ objects items ]
  ]

  abbrev is_true : Option Json → Bool
  is_true (some (bool b)) = b
  is_true _ = false

  -- `immutable_ok`
  unfoldable pub is_immutable : String → List String → Fields → Bool
  unfolding get mem
  is_immutable version legacy release = is_true (get "immutable" release) || mem version legacy

  -- `healthy_candidate`, before the provenance
  unfoldable pub is_candidate : String → LaneConfig → List String → Fields → Result Bool
  unfolding get truthy
  is_candidate version lane legacy release =
      and_then (is_complete version lane (assets_of release)) λ complete. ok (
        not (
          truthy (get "draft" release)
          || truthy (get "prerelease" release)
          || not complete
          || not (is_immutable version legacy release)))

  module _ (settings : Settings) (repository : String) (lane : LaneConfig)
      (legacy : List String) where
    -- A ValueError of the provenance means that the release is not healthy.
    unfoldable pub has_provenance : String → Fields → Act h.World Bool
    unfolding ◌>>=◌
    has_provenance version release =
        elim (find_asset (manifest_name version lane) (assets_of release)) [
          | none ↦ pure false
          | some asset ↦
              recover value_error
                (do
                  _ ← verify_release_provenance h settings repository version asset lane
                  pure true)
                (λ _. pure false)
        ]

    unfoldable pub is_healthy : String → Fields → Act h.World Bool
    unfolding ◌>>=◌
    is_healthy version release = do
      candidate ← lift (is_candidate version lane legacy release)
      if candidate then has_provenance version release else pure false

    abbrev pub sorted_out : String → Bool → Health → Health
    sorted_out version true health = record health { healthy = insert version health.healthy }
    sorted_out version false health = record health { broken = insert version health.broken }

    unfoldable pub judge_all : List Fields → Health → Act h.World Health
    unfolding insert ◌>>=◌ get_str
    judge_all [] health = pure health
    judge_all (release ∷ releases) health =
        elim (tag_version lane (get_str h.repr "tag_name" release)) [
          | none ↦ judge_all releases health
          | some version ↦ do
            healthy ← is_healthy version release
            judge_all releases (sorted_out version healthy health)
        ]

    unfoldable pub list_release_health : Act h.World Health
    unfolding ◌>>=◌
    list_release_health = do
      releases ← list_rest_items h settings repository "releases"
      judge_all releases (record { healthy = []; broken = [] })

    unfoldable pub list_release_versions : Act h.World (List String)
    unfolding ◌>>=◌
    list_release_versions = do health ← list_release_health; pure health.healthy

  -- The version of a maintenance issue's title
  unfoldable pub issue_version : LaneConfig → Fields → Option String
  unfolding framed is_digit get get_str
  issue_version lane issue = elim (get "pull_request" issue) [
    | some _ ↦ none
    | none ↦
        framed is_digit (concat ("[" ∷ lane.issue_prefix ∷ "] Chromium " ∷ []))
          " requires maintenance" (get_str h.repr "title" issue)
  ]

  unfoldable pub blocked_by : LaneConfig → List Fields → List String
  unfolding insert
  blocked_by lane [] = []
  blocked_by lane (issue ∷ issues) =
      let rest = blocked_by lane issues in
      elim (issue_version lane issue) [ none ↦ rest | some version ↦ insert version rest ]

  unfoldable pub list_blocked_versions : Settings → String → LaneConfig → Act h.World (List String)
  unfolding ◌>>=◌
  list_blocked_versions settings repository lane = do
    issues ← list_rest_items h settings repository "issues?state=open"
    pure (blocked_by lane issues)
