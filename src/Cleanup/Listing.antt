-- ===== src/Cleanup/Listing.antt =====
-- The listing of the checkpoint artifacts, stage by stage and page by page.
use chromium_compile.Prelude.{
  ℕ, zero, suc, ◌+◌, ◌-◌, ◌/◌, max, String, Option, none, some, List, [], ◌∷◌, ◌++◌, eqb, leb,
  length, if◌then◌else◌,
}
use chromium_compile.Result.{Result, ok, raise, cleanup_error, map_ok}
use chromium_compile.Json.{Json, int, obj, Fields, get, concat, show}
use chromium_compile.Host.{Host, Act, pure, throw, lift, ◌>>=◌}
use chromium_compile.Prune.{equals}
use chromium_compile.Cleanup.{Target, list_of, read_object}

abbrev pub bounded_total : ℕ → Option Json → Option ℕ
bounded_total limit (some (int n)) = if leb n limit then some n else none
bounded_total limit _ = none

-- The items of one page, which all must have the name
unfoldable pub named_items : String → List Json → Result (List Fields)
unfolding get
named_items name [] = ok []
named_items name (obj item ∷ items) =
    let rest = named_items name items in
    if equals (get "name" item) name
    then map_ok (λ found. item ∷ found) rest
    else raise cleanup_error "artifact name filter returned unexpected artifact"
named_items name (_ ∷ items) = raise cleanup_error "contains malformed metadata"

unfoldable pub page_items : String → Fields → Result (List Fields)
unfolding get named_items
page_items name payload = elim (list_of (get "artifacts" payload)) [
  | none ↦ raise cleanup_error "lacks an artifacts array"
  | some items ↦ named_items name items
]

module _ (h : Host) where
  abbrev pub page_of : Target → String → ℕ → Act h.World Fields
  page_of t name page = read_object h (
      "api"
      ∷ concat (
          "repos/"
          ∷ t.repository
          ∷ "/actions/artifacts?name="
          ∷ name
          ∷ "&per_page=100&page="
          ∷ show page
          ∷ [])
      ∷ [])

  -- The pages after the first
  unfoldable pub later_pages : Target → String → ℕ → ℕ → Act h.World (List Fields)
  unfolding ◌>>=◌
  later_pages t name zero page = pure []
  later_pages t name (suc left) page = do
    payload ← page_of t name page
    items ← lift (page_items name payload)
    rest ← later_pages t name left (page + 1)
    pure (items ++ rest)

  abbrev pub stage_name : ℕ → String
  stage_name stage = concat ("chromium-i686-out-stage-" ∷ show stage ∷ [])

  abbrev pub counted : Option ℕ → Result ℕ
  counted none = raise cleanup_error "checkpoint artifact count exceeds bounded contract"
  counted (some total) = ok total

  unfoldable pub list_stage : Target → ℕ → Act h.World (List Fields)
  unfolding ◌>>=◌
  list_stage t stage = do
    first ← page_of t (stage_name stage) 1
    total ← lift (counted (bounded_total 1000 (get "total_count" first)))
    items ← lift (page_items (stage_name stage) first)
    rest ← later_pages t (stage_name stage) (max 1 ((total + 99) / 100) - 1) 2
    if eqb (length (items ++ rest)) total
        then pure (items ++ rest)
        else throw cleanup_error "artifact pagination returned another number of artifacts"

  -- The stages from one on, with the number that is left
  unfoldable pub list_stages : Target → ℕ → ℕ → Act h.World (List Fields)
  unfolding ◌>>=◌
  list_stages t zero stage = pure []
  list_stages t (suc left) stage = do
    items ← list_stage t stage
    rest ← list_stages t left (stage + 1)
    pure (items ++ rest)

  unfoldable pub list_checkpoint_artifacts : Target → Act h.World (List Fields)
  list_checkpoint_artifacts t = list_stages t 50 1
