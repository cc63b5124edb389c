-- ===== src/Watcher/Feed.antt =====
-- scripts/chromium_stable_watcher.py: `load_baseline` and `fetch_stable_versions`. A `type_error`
-- also stands for Python's KeyError and AttributeError, which nothing catches.
use chromium_compile.Prelude.{
  ℕ, zero, suc, String, not, ◌&&◌, Option, none, some, List, [], ◌∷◌, ◌==◌, if◌then◌else◌, mem,
  insert,
}
use chromium_compile.Result.{
  Result, ok, raise, value_error, watcher_error, type_error, and_then, map_ok,
}
use chromium_compile.Json.{Json, str, Fields, as_object, as_list, get, get_str, concat, obj, done}
use chromium_compile.Host.{Host, Act, throw, lift, outside, ◌>>=◌}
use chromium_compile.Text.Version.{is_version, version_key, key_ltb}
use chromium_compile.Text.Version.Sorting.{sorted_versions, names}
use chromium_compile.Watcher.Gh.{Settings}
use chromium_compile.Watcher.Lane.{LaneConfig}

-- A text where the code needs one
abbrev as_text : Option Json → Result String
as_text (some (str s)) = ok s
as_text none = ok ""
as_text (some _) = raise type_error "expected string"

abbrev object_of : Json → Result Fields
object_of j = elim (as_object j) [ none ↦ raise type_error "no attribute get" | some fs ↦ ok fs ]

abbrev list_of : Option Json → Result (List Json)
list_of none = ok []
list_of (some (str s)) = if s == "" then ok [] else raise type_error "no attribute get"
list_of (some (obj done)) = ok []
list_of (some j) = elim (as_list j) [ none ↦ raise type_error "not iterable" | some js ↦ ok js ]

-- What `load_baseline` returns
pub record Baseline : Type 0 where
  pub minimum : String
  pub known : List String
  pub legacy_mutable : List String

-- The comprehension over the verified builds
unfoldable pub known_versions : List Json → Result (List String)
unfolding get insert is_version
known_versions [] = ok []
known_versions (entry ∷ entries) =
    let rest = known_versions entries in
    and_then (object_of entry) λ fields.
      and_then (as_text (get "version" fields))
        λ version. if is_version version then map_ok (insert version) rest else rest

abbrev version_text : Json → Option String
version_text (str s) = if is_version s then some s else none
version_text _ = none

-- The loop over the legacy releases
unfoldable pub legacy_versions : List Json → List String → Result (List String)
unfolding mem is_version
legacy_versions [] seen = ok seen
legacy_versions (raw ∷ raws) seen = elim (version_text raw) [
  | none ↦ raise value_error "Invalid legacy mutable release version"
  | some version ↦
      if mem version seen
      then raise value_error "Duplicate legacy mutable release version"
      else legacy_versions raws (version ∷ seen)
]

abbrev minimum_text : Option Json → Result String
minimum_text (some (str s)) = ok s
minimum_text _ = raise type_error "minimum version"

abbrev legacy_list : Option Json → Result (List Json)
legacy_list none = ok []
legacy_list (some j) = elim (as_list j) [
  | none ↦ raise value_error "legacy_mutable_releases must be a JSON list"
  | some js ↦ ok js
]

-- `load_baseline`, from the value of the file
unfoldable pub load_baseline : Json → LaneConfig → Result Baseline
unfolding get version_key known_versions legacy_versions
load_baseline file lane = and_then (object_of file) λ top.
    and_then (minimum_text (get lane.minimum_key top)) λ minimum.
      and_then (version_key minimum) λ _. and_then (list_of (get lane.verified_key top)) λ entries.
        and_then (known_versions entries) λ known.
          and_then (legacy_list (get lane.legacy_mutable_key top)) λ raws.
            and_then (legacy_versions raws [])
              λ legacy. ok (record { minimum = minimum; known = known; legacy_mutable = legacy })

module _ (h : Host) (settings : Settings)
    -- `urlopen` and `json.load`, from the address and the parameters; `none` is any exception.
    (open_url : String → List (String × String) → h.World → Result (Option Json) × h.World)
    (api_url minimum : String) where
  -- The loop over the versions of a page
  unfoldable pub newer_versions : List Json → List String → Result (List String)
  unfolding get insert is_version version_key key_ltb
  newer_versions [] versions = ok versions
  newer_versions (item ∷ items) versions = and_then (object_of item) λ fields.
      and_then (as_text (get "version" fields)) λ version.
        if is_version version
        then (and_then (version_key version) λ k.
            and_then (version_key minimum)
              λ m. newer_versions items (if key_ltb m k then insert version versions else versions))
        else newer_versions items versions

  abbrev page_versions : Json → List String → Result (List String × String)
  page_versions payload versions = and_then (object_of payload) λ fields.
      and_then (list_of (get "versions" fields)) λ items.
        and_then (newer_versions items versions)
          λ found. ok (found, get_str h.repr "nextPageToken" fields)

  abbrev token_pair : String → List (String × String)
  token_pair page_token = if page_token == "" then [] else ("page_token", page_token) ∷ []

  abbrev in_order : List String → Result (List String)
  in_order versions = map_ok names (sorted_versions versions)

  -- The loop over the pages, with the number of those that are left
  unfoldable pub version_pages : ℕ → String → List String → List String → Act h.World (List String)
  unfolding ◌>>=◌ get get_str mem sorted_versions
  version_pages zero page_token seen versions =
      throw watcher_error "VersionHistory exceeded the configured page horizon"
  version_pages (suc left) page_token seen versions =
      if not (page_token == "") && mem page_token seen
      then throw watcher_error "VersionHistory repeated a page token"
      else do
        answer ← outside (
            open_url api_url (
              ("filter", concat ("version>" ∷ minimum ∷ []))
              ∷ ("order_by", "version asc")
              ∷ ("page_size", "100")
              ∷ token_pair page_token))
        payload ← lift (elim answer [
          | none ↦ raise watcher_error "VersionHistory request failed"
          | some payload ↦ ok payload
        ])
        (found, next) ← lift (page_versions payload versions)
        if next == ""
            then lift (in_order found)
            else version_pages left next (if page_token == "" then seen else insert page_token seen)
                found

  unfoldable pub fetch_stable_versions : Act h.World (List String)
  fetch_stable_versions = version_pages settings.version_api_max_pages "" [] []
