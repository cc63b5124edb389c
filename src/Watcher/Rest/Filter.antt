-- ===== src/Watcher/Rest/Filter.antt =====
-- The runs that a filtered read hands out match the filter, whatever the service sends.
use chromium_compile.Prelude.{
  ℕ, String, true, ◌≡◌, some, List, [], ◌∷◌, arith, eqb, length, All, All-append, Bool-cases, inl,
  inr, sym, ap, ◌∙◌,
}
use chromium_compile.Result.{ok, map_ok-eq-ok}
use chromium_compile.Json.{Json, Fields, objects}
use chromium_compile.Host.{Host, State}
use chromium_compile.Watcher.Gh.{Settings}
use chromium_compile.Watcher.Rest.{matches_filter, check_filter, accept_runs, list_workflow_runs}
use chromium_compile.Watcher.Rest.Pages.{IsWhole, short, more, horizon, list_workflow_runs_iff}

module _ (h : Host) (settings : Settings) (status_filter : String) where
  abbrev Match : Fields → Type 0
  Match run = matches_filter h settings status_filter run ≡ true

  check_filter-Match :
      (runs kept : List Fields)
      → check_filter h settings (some status_filter) runs ≡ ok kept
      → (kept ≡ runs) × All Match runs
  unfolding check_filter
  check_filter-Match [] kept e = ground arith
  check_filter-Match (run ∷ runs) kept e =
      elim (Bool-cases (matches_filter h settings status_filter run)) [
        | inl b ↦
            let (rest, p, q) =
              map_ok-eq-ok (λ l. run ∷ l) (check_filter h settings (some status_filter) runs) kept
                (rw b at e) in
            let (same, all) = check_filter-Match runs rest p in
            (sym q ∙ ap (λ l. run ∷ l) same, (b, all))
        | inr b ↦ absurd (cc (rw b at e))
      ]

  accept_runs-Match :
      (items : List Json) (kept : List Fields)
      → accept_runs h settings (some status_filter) items ≡ ok kept
      → All Match kept
  unfolding accept_runs
  accept_runs-Match items kept e = elim (Bool-cases (eqb (length (objects items)) (length items))) [
    | inl b ↦ let (same, all) = check_filter-Match (objects items) kept (rw b at e) in rw same all
    | inr b ↦ absurd (cc (rw b at e))
  ]

  IsWhole-Match :
      (fetch : _) {page : ℕ} {s t : State h.World} {found : List Fields}
      → IsWhole fetch
          (accept_runs h settings (some status_filter))
          settings.run_history_max_pages
          page
          s
          t
          found
      → All Match found
  IsWhole-Match fetch (short items _ _ _ a) = accept_runs-Match items _ a
  IsWhole-Match fetch (more items kept later u _ _ _ a w e) =
      rw e (All-append Match kept later (accept_runs-Match items kept a) (IsWhole-Match fetch w))
  IsWhole-Match fetch (horizon _ _ e) = rw e tt

-- Every run that a read with a filter returns has the status that the filter names, or is completed
-- with the conclusion that it names, also where the service ignores the filter.
pub list_workflow_runs_match :
    (h : Host) (settings : Settings) (status_filter repository workflow : String)
    (created_after : ℕ) (found : List Fields) (s t : State h.World)
    → list_workflow_runs h settings repository workflow created_after (some status_filter) s
      ≡ (ok found, t)
    → All (λ run. matches_filter h settings status_filter run ≡ true) found
list_workflow_runs_match h settings status_filter repository workflow created_after found s t e =
    IsWhole-Match h settings status_filter _
      ((list_workflow_runs_iff h settings repository workflow created_after (some status_filter)
          found s t).0
        e).2
