-- ===== src/Watcher/Rest/Pages.antt =====
-- A paged read that succeeds has seen every page: it stops at a short page, or at an empty page past
-- the horizon, and never hands out a truncated collection.
use chromium_compile.Prelude.{
  ℕ, zero, suc, ◌+◌, ◌≤◌, ◌<◌, String, true, false, ◌≡◌, refl, ◌↔◌, Option, List, [], ◌∷◌, ◌++◌,
  ltb, arith, if◌then◌else◌, length, is_empty, Bool-cases, inl, inr, sym, ◌∙◌, ap, ltb→lt,
}
use mathlib.Core.List.{append_assoc, append-nil}
use chromium_compile.Result.{Result, ok, watcher_error, assertion_error}
use chromium_compile.Json.{Json, Fields}
use chromium_compile.Host.{Host, State, Act, pure, throw, lift, ◌>>=◌}
use chromium_compile.Host.Laws.{bind-eq-ok, bind_of_ok, pure-eq-ok, lift-eq-ok, throw-ne-ok}
use chromium_compile.Watcher.Gh.{Settings}
use chromium_compile.Watcher.Rest.{collect, accept_runs, fetch_runs, list_workflow_runs, supported}

module _ {W : Type 0} (fetch : ℕ → Act W (List Json)) (accept : List Json → Result (List Fields))
    (max_pages : ℕ) where
  -- The pages from the first number on, read from the first state, are complete at the second state
  -- and hold these items.
  pub data IsWhole : ℕ → State W → State W → List Fields → Type 0 where
    short :
        {page : ℕ} {s t : State W} {found : List Fields} (items : List Json)
        → page ≤ max_pages
        → fetch page s ≡ (ok items, t)
        → length items < 100
        → accept items ≡ ok found
        → IsWhole page s t found
    more :
        {page : ℕ} {s t : State W} {found : List Fields} (items : List Json)
        (kept later : List Fields) (u : State W)
        → page ≤ max_pages
        → fetch page s ≡ (ok items, u)
        → 100 ≤ length items
        → accept items ≡ ok kept
        → IsWhole (page + 1) u t later
        → found ≡ kept ++ later
        → IsWhole page s t found
    horizon :
        {page : ℕ} {s t : State W} {found : List Fields}
        → max_pages < page
        → fetch page s ≡ (ok [], t)
        → found ≡ []
        → IsWhole page s t found

  abbrev body : ℕ → ℕ → List Fields → List Json → Act W (List Fields)
  body left page found items =
      if ltb max_pages page
      then (if is_empty items then pure found else throw watcher_error "horizon saturated")
      else do
        kept ← lift (accept items)
        if ltb (length items) 100
            then pure (found ++ kept)
            else collect fetch accept max_pages left (page + 1) (found ++ kept)

  abbrev Extends : ℕ → List Fields → State W → State W → List Fields → Type 0
  Extends page before s t found =
      (items : List Fields) × (found ≡ before ++ items) × IsWhole page s t items

  probe_whole :
      (page : ℕ) (before found : List Fields) (items : List Json) (s u t : State W)
      → max_pages < page
      → fetch page s ≡ (ok items, u)
      → (if is_empty items then pure before else throw watcher_error "horizon saturated") u
        ≡ (ok found, t)
      → Extends page before s t found
  probe_whole page before found [] s u t late f e =
      let (p, q) = pure-eq-ok before found u t e in
      ([], sym p ∙ sym (append-nil before), horizon late (f ∙ ap (λ w. (ok [], w)) q) refl)
  probe_whole page before found (i ∷ is) s u t late f e =
      throw-ne-ok watcher_error "horizon saturated" found u t e

  abbrev Continues : ℕ → ℕ → Type 0
  Continues left page =
      (before found : List Fields) (s t : State W)
      → collect fetch accept max_pages left page before s ≡ (ok found, t)
      → Extends page before s t found

  kept_whole :
      (left page : ℕ) (before found kept : List Fields) (items : List Json) (s u t : State W)
      → Continues left (page + 1)
      → page ≤ max_pages
      → fetch page s ≡ (ok items, u)
      → accept items ≡ ok kept
      → (if ltb (length items) 100
            then pure (before ++ kept)
            else collect fetch accept max_pages left (page + 1) (before ++ kept))
          u
        ≡ (ok found, t)
      → Extends page before s t found
  kept_whole left page before found kept items s u t ih early f a e =
      elim (Bool-cases (ltb (length items) 100)) [
        | inl few ↦
            let (p, q) = pure-eq-ok (before ++ kept) found u t (rw few at e) in
            (
              kept,
              sym p,
              short items early (f ∙ ap (λ w. (ok items, w)) q) (ltb→lt (length items) 100 few) a,
            )
        | inr full ↦
            let (rest, p, w) = ih (before ++ kept) found u t (rw full at e) in
            (
              kept ++ rest,
              p ∙ append_assoc before kept rest,
              more items kept rest u early f (ground arith) a w refl,
            )
      ]

  body_whole :
      (left page : ℕ) (before found : List Fields) (items : List Json) (s u t : State W)
      → Continues left (page + 1)
      → fetch page s ≡ (ok items, u)
      → body left page before items u ≡ (ok found, t)
      → Extends page before s t found
  body_whole left page before found items s u t ih f e = elim (Bool-cases (ltb max_pages page)) [
    | inl late ↦
        probe_whole page before found items s u t (ltb→lt max_pages page late) f (rw late at e)
    | inr early ↦
        let (kept, v, l, e') = bind-eq-ok (lift (accept items)) _ u t found (rw early at e) in
        let (a, same) = lift-eq-ok (accept items) kept u v l in
        kept_whole left page before found kept items s v t ih (ground arith)
          (f ∙ ap (λ w. (ok items, w)) same) a e'
  ]

  collect_whole : (left page : ℕ) → Continues left page
  unfolding collect
  collect_whole zero page before found s t e =
      throw-ne-ok assertion_error "unreachable pagination state" found s t e
  collect_whole (suc left) page before found s t e =
      let (items, u, f, e') = bind-eq-ok (fetch page) (body left page before) s t found e in
      body_whole left page before found items s u t (collect_whole left (page + 1)) f e'

  body_of_accepted :
      (left page : ℕ) (before kept : List Fields) (items : List Json) (u : State W)
      → page ≤ max_pages
      → accept items ≡ ok kept
      → body left page before items u
        ≡ (if ltb (length items) 100
              then pure (before ++ kept)
              else collect fetch accept max_pages left (page + 1) (before ++ kept))
            u
  unfolding ◌>>=◌
  body_of_accepted left page before kept items u early a =
      let b : ltb max_pages page ≡ false = ground arith in rw (b, a)

  whole_collect :
      (left page : ℕ) (before items : List Fields) {s t : State W}
      → left + page ≡ max_pages + 2
      → page ≤ max_pages + 1
      → IsWhole page s t items
      → collect fetch accept max_pages left page before s ≡ (ok (before ++ items), t)
  unfolding collect pure
  whole_collect zero page before items fuel room w = absurd (omega arith)
  whole_collect (suc left) page before items {s} {t} fuel room (short js early f few a) =
      let b : ltb (length js) 100 ≡ true = ground arith in
      bind_of_ok (fetch page) (body left page before) s t js f
      ∙ (body_of_accepted left page before items js t early a ∙ rw b)
  whole_collect (suc left) page before items {s} {t} fuel room
        (more js kept rest u early f full a w e) =
      let b : ltb (length js) 100 ≡ false = ground arith in
      let ih = whole_collect left (page + 1) (before ++ kept) rest (omega arith) (omega arith) w in
      bind_of_ok (fetch page) (body left page before) s u js f
      ∙ (body_of_accepted left page before kept js u early a
          ∙ rw (b, e) (ih ∙ ap (λ l. (ok l, t)) (append_assoc before kept rest)))
  whole_collect (suc left) page before items {s} {t} fuel room (horizon late f e) =
      let b : ltb max_pages page ≡ true = ground arith in
      bind_of_ok (fetch page) (body left page before) s t [] f
      ∙ rw (b, e) (ap (λ l. (ok l, t)) (sym (append-nil before)))

  pub collect_iff :
      (found : List Fields) (s t : State W)
      → (collect fetch accept max_pages (max_pages + 1) 1 [] s ≡ (ok found, t))
        ↔ IsWhole 1 s t found
  collect_iff found s t = (
    λ e. let (items, p, w) = collect_whole (max_pages + 1) 1 [] found s t e in rw p w,
    λ w. whole_collect (max_pages + 1) 1 [] found (omega arith) (omega arith) w,
  )

module _ (h : Host) (settings : Settings) where
  -- A read of a workflow's runs returns a list exactly when its filter is a supported state or
  -- conclusion, or is absent, and the pages are complete in the same sense, where no page
  -- holds a value that is not an object or a run that does not match the filter.
  pub list_workflow_runs_iff :
      (repository workflow : String) (created_after : ℕ) (status_filter : Option String)
      (found : List Fields) (s t : State h.World)
      → (list_workflow_runs h settings repository workflow created_after status_filter s
          ≡ (ok found, t))
        ↔ ((1 ≤ settings.run_history_max_pages)
            × (supported status_filter ≡ true)
            × IsWhole
                (fetch_runs h settings repository workflow created_after status_filter)
                (accept_runs h settings status_filter)
                settings.run_history_max_pages
                1
                s
                t
                found)
  unfolding list_workflow_runs
  list_workflow_runs_iff repository workflow created_after status_filter found s t =
      let whole =
        collect_iff (fetch_runs h settings repository workflow created_after status_filter)
          (accept_runs h settings status_filter) settings.run_history_max_pages found s t in
      elim (Bool-cases (ltb settings.run_history_max_pages 1)) [
        | inl b ↦ rw b (λ e. throw-ne-ok _ _ found s t e, λ p. absurd (ground arith))
        | inr b ↦ elim (Bool-cases (supported status_filter)) [
          | inl c ↦ rw (b, c) (λ e. (ground arith, refl, whole.0 e), λ p. whole.1 p.2)
          | inr c ↦ rw (b, c) (λ e. throw-ne-ok _ _ found s t e, λ p. absurd (cc))
        ]
      ]
