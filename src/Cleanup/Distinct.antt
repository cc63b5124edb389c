-- ===== src/Cleanup/Distinct.antt =====
-- No cache is listed twice.
use chromium_compile.Prelude.{
  ℕ, true, false, ◌≡◌, refl, subst, inl, inr, Option, none, some, List, [], ◌∷◌, eqb, length, arith,
  Bool-cases,
}
use chromium_compile.Result.{raise-ne-ok, ok, ok-injective, and_then-eq-ok}
use chromium_compile.Json.{Json, obj, get}
use chromium_compile.Host.{Host, State}
use chromium_compile.Host.Laws.{bind-eq-ok, pure-eq-ok, lift-eq-ok}
use chromium_compile.Cleanup.{Target, read_object, list_of}
use chromium_compile.Cleanup.Listing.{bounded_total}
use chromium_compile.Cleanup.Caches.{
  Filter, SourceCache, source_cache_filters, find_cache, same_cache, add_known, add_cache,
  insert_cache, is_absent, before, list_source_caches, read_filters, sort_caches, cache_of, collect,
  listed, read_filter, read_filters, list_source_caches,
}

some_ne_none : {A : Type 0} (a : A) → some a ≡ none → ⊥
some_ne_none a e = cc

module _ (h : Host) where
  -- No two of the caches have one id.
  abbrev pub IsDistinct : List SourceCache → Type 0
  IsDistinct [] = Unit
  IsDistinct (c ∷ cs) = (is_absent h c.cache_id cs ≡ true) × IsDistinct cs

  find_cache-absent :
      (id : ℕ) (cs : List SourceCache) → find_cache id cs ≡ none → is_absent h id cs ≡ true
  find_cache-absent id [] e = refl
  find_cache-absent id (c ∷ cs) e = elim (Bool-cases (eqb c.cache_id id)) [
    | inl b ↦ absurd (some_ne_none c (rw b at e))
    | inr b ↦ rw b (find_cache-absent id cs (rw b at e))
  ]

  add_known-IsDistinct :
      (c : SourceCache) (found next : List SourceCache) (o : Option SourceCache)
      → find_cache c.cache_id found ≡ o
      → IsDistinct found
      → add_known c found o ≡ ok next
      → IsDistinct next
  add_known-IsDistinct c found next none p ps e =
      subst IsDistinct (ok-injective _ _ e) (find_cache-absent c.cache_id found p, ps)
  add_known-IsDistinct c found next (some previous) p ps e =
      elim (Bool-cases (same_cache previous c)) [
        | inl b ↦ subst IsDistinct (ok-injective found next (rw b at e)) ps
        | inr b ↦ absurd (raise-ne-ok _ _ next (rw b at e))
      ]

  collect-IsDistinct :
      (items : List Json) (t : Target) (f : Filter) (found next : List SourceCache)
      → IsDistinct found
      → collect h t f items found ≡ ok next
      → IsDistinct next
  unfolding collect add_cache
  collect-IsDistinct [] t f found next ps e = subst IsDistinct (ok-injective found next e) ps
  collect-IsDistinct (obj item ∷ items) t f found next ps e =
      let (c, e₁, r₁) = and_then-eq-ok (cache_of h t f item) _ next e in
      let (found', e₂, r₂) =
        and_then-eq-ok (add_known c found (find_cache c.cache_id found)) _ next r₁ in
      collect-IsDistinct items t f found' next (add_known-IsDistinct c found found' _ refl ps e₂) r₂
  collect-IsDistinct (_ ∷ items) t f found next ps e = absurd (raise-ne-ok _ _ next e)

  listed-IsDistinct :
      (t : Target) (f : Filter) (total : Option ℕ) (items : Option (List Json))
      (found next : List SourceCache)
      → IsDistinct found
      → listed h t f total items found ≡ ok next
      → IsDistinct next
  listed-IsDistinct t f none items found next ps e = absurd (raise-ne-ok _ _ next e)
  listed-IsDistinct t f (some total) none found next ps e = absurd (raise-ne-ok _ _ next e)
  listed-IsDistinct t f (some total) (some items) found next ps e =
      elim (Bool-cases (eqb (length items) total)) [
        | inl b ↦ collect-IsDistinct items t f found next ps (rw b at e)
        | inr b ↦ absurd (raise-ne-ok _ _ next (rw b at e))
      ]

  filters-IsDistinct :
      (fs : List Filter) (t : Target) (found next : List SourceCache) (s u : State h.World)
      → IsDistinct found
      → read_filters h t fs found s ≡ (ok next, u)
      → IsDistinct next
  unfolding read_filters read_filter
  filters-IsDistinct [] t found next s u ps e = subst IsDistinct (pure-eq-ok found next s u e).0 ps
  filters-IsDistinct (f ∷ fs) t found next s u ps e =
      let (found', v, e₁, r₁) = bind-eq-ok (read_filter h t f found) _ s u next e in
      let (payload, w, e₂, r₂) = bind-eq-ok (read_object h _) _ s v found' e₁ in
      let l = (lift-eq-ok _ found' w v r₂).0 in
      filters-IsDistinct fs t found' next v u
        (listed-IsDistinct t f (bounded_total 100 (get "total_count" payload))
          (list_of (get "actions_caches" payload)) found found' ps l)
        r₁

  absent-insert :
      (cs : List SourceCache) (c : SourceCache) (id : ℕ)
      → (eqb c.cache_id id ≡ false)
      → is_absent h id cs ≡ true
      → is_absent h id (insert_cache c cs) ≡ true
  unfolding insert_cache
  absent-insert [] c id p q = rw p refl
  absent-insert (b ∷ bs) c id p q = ground (arith, absent-insert bs c id p)

  absent-sort :
      (cs : List SourceCache) (id : ℕ)
      → is_absent h id cs ≡ true
      → is_absent h id (sort_caches cs) ≡ true
  unfolding sort_caches
  absent-sort [] id p = refl
  absent-sort (c ∷ cs) id p =
      absent-insert (sort_caches cs) c id (ground arith) (absent-sort cs id (ground arith))

  insert-IsDistinct :
      (cs : List SourceCache) (c : SourceCache)
      → is_absent h c.cache_id cs ≡ true
      → IsDistinct cs
      → IsDistinct (insert_cache c cs)
  unfolding insert_cache
  insert-IsDistinct [] c p ps = (refl, tt)
  insert-IsDistinct (b ∷ bs) c p (q, qs) = elim (Bool-cases (before c b)) [
    | inl k ↦ rw k (p, (q, qs))
    | inr k ↦
        rw k
          (absent-insert bs c b.cache_id (ground arith) q, insert-IsDistinct bs c (ground arith) qs)
  ]

  sort-IsDistinct : (cs : List SourceCache) → IsDistinct cs → IsDistinct (sort_caches cs)
  unfolding sort_caches
  sort-IsDistinct [] ps = tt
  sort-IsDistinct (c ∷ cs) (p, ps) =
      insert-IsDistinct (sort_caches cs) c (absent-sort cs c.cache_id p) (sort-IsDistinct cs ps)

  -- A listing of the source caches that returns has no cache twice, though the filters of the API
  -- overlap.
  pub list_source_caches-IsDistinct :
      (t : Target) (found : List SourceCache) (s u : State h.World)
      → list_source_caches h t s ≡ (ok found, u)
      → IsDistinct found
  unfolding list_source_caches
  list_source_caches-IsDistinct t found s u e =
      let (all, v, e₁, r₁) =
        bind-eq-ok (read_filters h t (source_cache_filters t.version) []) _ s u found e in
      subst IsDistinct (pure-eq-ok (sort_caches all) found v u r₁).0 (
        sort-IsDistinct all
          (filters-IsDistinct (source_cache_filters t.version) t [] all s v tt e₁))
