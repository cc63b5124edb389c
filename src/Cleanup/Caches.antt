-- ===== src/Cleanup/Caches.antt =====
-- The source caches of a version: the listing under each of its key filters, and the deletion.
use chromium_compile.Prelude.{
  ℕ, ◌+◌, String, code, Bool, true, false, not, ◌&&◌, ◌||◌, Option, none, some, List, [], ◌∷◌, ◌==◌,
  eqb, leb, ltb, length, if◌then◌else◌,
}
use chromium_compile.Result.{Result, ok, raise, cleanup_error, and_then}
use chromium_compile.Json.{Json, int, obj, Fields, get, get_str, concat, show}
use chromium_compile.Host.{Host, Act, pure, throw, lift, ◌>>=◌, ◌>>◌}
use chromium_compile.Text.Digits.{int_of, is_ascii_digit, all_chars, size}
use chromium_compile.Text.Pattern.{is_run_id, drop_prefix}
use chromium_compile.Cleanup.{Target, list_of, try_gh, read_object}
use chromium_compile.Cleanup.Release.{ReleaseIdentity}
use chromium_compile.Cleanup.Guard.{guard_cleanup_phase}
use chromium_compile.Cleanup.Listing.{bounded_total}
use chromium_compile.Cleanup.Checkpoints.{guard_again}

pub record SourceCache : Type 0 where
  pub cache_id : ℕ
  pub key : String
  pub size_bytes : ℕ

-- A filter of the API with the keys that its answer may hold: this text, and where it is set, a
-- generation after it
pub record Filter : Type 0 where
  pub prefix : String
  pub with_generation : Bool

-- `source_cache_filters`
abbrev pub source_cache_filters : String → List Filter
source_cache_filters version =
    record { prefix = concat ("chromium-src-v4-" ∷ version ∷ "-" ∷ []); with_generation = true }
    ∷ record { prefix = concat ("chromium-src-v3-" ∷ version ∷ []); with_generation = false }
    ∷ record { prefix = concat ("chromium-src-v2-" ∷ version ∷ []); with_generation = false }
    ∷ record { prefix = concat ("chromium-src-" ∷ version ∷ []); with_generation = false }
    ∷ []

-- `[1-9][0-9]{0,39}`
unfoldable pub is_generation : String → Bool
unfolding all_chars size is_ascii_digit
is_generation String.[] = false
is_generation (String.◌∷◌ c s) =
    (leb b'1' (code c) && leb (code c) b'9') && (all_chars is_ascii_digit s && leb (size s) 39)

-- `key_pattern.fullmatch(key)`
abbrev pub key_fits : Filter → String → Bool
key_fits f key = elim (drop_prefix f.prefix key) [
  | none ↦ false
  | some rest ↦ if f.with_generation then is_generation rest else rest == ""
]

abbrev pub same_cache : SourceCache → SourceCache → Bool
same_cache a b = eqb a.cache_id b.cache_id && (a.key == b.key && eqb a.size_bytes b.size_bytes)

abbrev pub find_cache : ℕ → List SourceCache → Option SourceCache
find_cache id [] = none
find_cache id (c ∷ cs) = if eqb c.cache_id id then some c else find_cache id cs

-- `found[numeric_id] = candidate`, which must not differ from what is there
abbrev pub add_known :
    SourceCache → List SourceCache → Option SourceCache → Result (List SourceCache)
add_known c found none = ok (c ∷ found)
add_known c found (some previous) =
    if same_cache previous c
    then ok found
    else raise cleanup_error "appeared with conflicting metadata"

unfoldable pub add_cache : SourceCache → List SourceCache → Result (List SourceCache)
add_cache c found = add_known c found (find_cache c.cache_id found)

-- `str` order, which is by code points
abbrev text_ltb : String → String → Bool
text_ltb a String.[] = false
text_ltb String.[] (String.◌∷◌ d t) = true
text_ltb (String.◌∷◌ c s) (String.◌∷◌ d t) =
    let rest = text_ltb s t in if eqb (code c) (code d) then rest else ltb (code c) (code d)

abbrev pub before : SourceCache → SourceCache → Bool
before a b = text_ltb a.key b.key || (a.key == b.key && leb a.cache_id b.cache_id)

unfoldable pub insert_cache : SourceCache → List SourceCache → List SourceCache
insert_cache a [] = a ∷ []
insert_cache a (b ∷ bs) =
    let rest = insert_cache a bs in if before a b then a ∷ b ∷ bs else b ∷ rest

unfoldable pub sort_caches : List SourceCache → List SourceCache
unfolding insert_cache
sort_caches [] = []
sort_caches (a ∷ as') = insert_cache a (sort_caches as')

abbrev pub total_cached : List SourceCache → ℕ
total_cached [] = 0
total_cached (a ∷ as') = a.size_bytes + total_cached as'

module _ (h : Host) where
  abbrev pub ref_of : Target → String
  ref_of t = concat ("refs/heads/" ∷ t.default_branch ∷ [])

  abbrev pub sized : ℕ → String → Option Json → Result SourceCache
  sized id key (some (int n)) = ok (record { cache_id = id; key = key; size_bytes = n })
  sized id key _ = raise cleanup_error "has invalid size metadata"

  -- One listed cache, which must have a key of the filter and the ref
  unfoldable pub cache_of : Target → Filter → Fields → Result SourceCache
  unfolding get get_str drop_prefix is_generation is_run_id int_of concat
  cache_of t f item =
      let key = get_str h.repr "key" item in
      let id = get_str h.repr "id" item in
      if not (get_str h.repr "ref" item == ref_of t && key_fits f key)
      then raise cleanup_error "returned unexpected cache key/ref"
      else if not (is_run_id id)
      then raise cleanup_error "has invalid id"
      else sized (int_of id) key (get "size_in_bytes" item)

  unfoldable pub collect :
      Target → Filter → List Json → List SourceCache → Result (List SourceCache)
  unfolding cache_of add_cache
  collect t f [] found = ok found
  collect t f (obj item ∷ items) found =
      and_then (cache_of t f item)
        λ c. and_then (add_cache c found) λ found'. collect t f items found'
  collect t f (_ ∷ items) found = raise cleanup_error "contains malformed metadata"

  abbrev pub listed :
      Target → Filter → Option ℕ → Option (List Json) → List SourceCache → Result (List SourceCache)
  listed t f none items found = raise cleanup_error "source cache count exceeds bounded contract"
  listed t f (some total) none found = raise cleanup_error "lacks an actions_caches array"
  listed t f (some total) (some items) found =
      if eqb (length items) total
      then collect t f items found
      else raise cleanup_error "returned another number of caches"

  unfoldable pub read_filter : Target → Filter → List SourceCache → Act h.World (List SourceCache)
  unfolding ◌>>=◌
  read_filter t f found = do
    payload ← read_object h (
        "api"
        ∷ concat (
            "repos/"
            ∷ t.repository
            ∷ "/actions/caches?ref="
            ∷ h.quote (ref_of t)
            ∷ "&key="
            ∷ h.quote f.prefix
            ∷ "&per_page=100"
            ∷ [])
        ∷ [])
    lift (
        listed t f (bounded_total 100 (get "total_count" payload))
          (list_of (get "actions_caches" payload)) found)

  unfoldable pub read_filters :
      Target → List Filter → List SourceCache → Act h.World (List SourceCache)
  unfolding ◌>>=◌
  read_filters t [] found = pure found
  read_filters t (f ∷ fs) found = do found' ← read_filter t f found; read_filters t fs found'

  unfoldable pub list_source_caches : Target → Act h.World (List SourceCache)
  unfolding ◌>>=◌
  list_source_caches t = do
    found ← read_filters t (source_cache_filters t.version) []
    pure (sort_caches found)

  -- `all(item.cache_id != cache_id for item in …)`
  abbrev pub is_absent : ℕ → List SourceCache → Bool
  is_absent id [] = true
  is_absent id (c ∷ cs) = not (eqb c.cache_id id) && is_absent id cs

  abbrev pub settle : Bool → Bool → SourceCache → Act h.World String
  settle accepted false c =
      throw cleanup_error (if accepted then "is still visible after DELETE" else "delete failed")
  settle accepted true c = pure (concat ("deleted-cache:" ∷ show c.cache_id ∷ ":key=" ∷ c.key ∷ []))

  abbrev pub cache_deletion : Target → SourceCache → List String
  cache_deletion t c =
      "api"
      ∷ "--method"
      ∷ "DELETE"
      ∷ concat ("repos/" ∷ t.repository ∷ "/actions/caches/" ∷ show c.cache_id ∷ [])
      ∷ []

  unfoldable pub delete_source_cache : Target → SourceCache → Act h.World String
  unfolding ◌>>=◌
  delete_source_cache t c = do
    answer ← try_gh h (cache_deletion t c) 120
    left ← list_source_caches t
    settle (eqb answer.returncode 0) (is_absent c.cache_id left) c

  abbrev pub dry_line : SourceCache → String
  dry_line c =
      concat
        ("dry-run-cache:" ∷ show c.cache_id ∷ ":key=" ∷ c.key ∷ ":bytes=" ∷ show c.size_bytes ∷ [])

  abbrev pub treat_cache : Target → Bool → SourceCache → Act h.World String
  treat_cache t true c = pure (dry_line c)
  treat_cache t false c = delete_source_cache t c

  unfoldable pub treat_caches : Target → Bool → List SourceCache → Act h.World (List String)
  unfolding ◌>>=◌
  treat_caches t dry_run [] = pure []
  treat_caches t dry_run (c ∷ cs) = do
    line ← treat_cache t dry_run c
    rest ← treat_caches t dry_run cs
    pure (line ∷ rest)

  unfoldable pub cleanup_released_source_caches :
      Target → Bool → Option ReleaseIdentity → Act h.World (List String × ℕ)
  unfolding ◌>>=◌
  cleanup_released_source_caches t dry_run identity = do
    guard_cleanup_phase h t dry_run identity
    caches ← list_source_caches t
    guard_again h t dry_run identity
    results ← treat_caches t dry_run caches
    pure (results, total_cached caches)
