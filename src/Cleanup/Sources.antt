-- ===== src/Cleanup/Sources.antt =====
-- What is listed as a source cache of a version has a key of the version.
use chromium_compile.Prelude.{
  ℕ, String, Bool, true, false, not, ◌&&◌, ◌||◌, ◌≡◌, refl, ap, ◌∙◌, sym, subst, inl, inr, Option,
  none, some, List, [], ◌∷◌, ◌==◌, eqb, length, if◌then◌else◌, arith, Bool-cases, All,
}
use chromium_compile.Result.{
  raise-ne-ok, Result, ok, raise, ok-injective, and_then-eq-ok, cleanup_error,
}
use chromium_compile.Json.{Json, obj, Fields, get, get_str}
use chromium_compile.Host.{Host, State}
use chromium_compile.Host.Laws.{bind-eq-ok, pure-eq-ok, lift-eq-ok}
use chromium_compile.Cleanup.{Target, read_object, list_of}
use chromium_compile.Cleanup.Listing.{bounded_total}
use chromium_compile.Cleanup.Caches.{
  Filter, SourceCache, source_cache_filters, key_fits, find_cache, same_cache, add_known, add_cache,
  insert_cache, sort_caches, ref_of, sized, cache_of, collect, listed, read_filter, read_filters,
  list_source_caches,
}

-- The key fits one of the filters.
abbrev pub fits_any : List Filter → String → Bool
fits_any [] key = false
fits_any (f ∷ fs) key = key_fits f key || fits_any fs key

first :
    (f : Filter) (fs : List Filter) (key : String)
    → key_fits f key ≡ true
    → fits_any (f ∷ fs) key ≡ true
first f fs key b = rw b refl

later :
    (f : Filter) (fs : List Filter) (key : String)
    → fits_any fs key ≡ true
    → fits_any (f ∷ fs) key ≡ true
later f fs key b = ground arith

abbrev pub Named : List Filter → SourceCache → Type 0
Named fs c = fits_any fs c.key ≡ true

module _ (P : SourceCache → Type 0) where
  All-insert :
      (cs : List SourceCache) (c : SourceCache) → P c → All P cs → All P (insert_cache c cs)
  unfolding insert_cache
  All-insert [] c p ps = (p, tt)
  All-insert (b ∷ bs) c p (q, qs) = ground (arith, All-insert bs c p qs)

  All-sort : (cs : List SourceCache) → All P cs → All P (sort_caches cs)
  unfolding sort_caches
  All-sort [] ps = tt
  All-sort (c ∷ cs) (p, ps) = All-insert (sort_caches cs) c p (All-sort cs ps)

  add_known-All :
      (c : SourceCache) (found next : List SourceCache) (o : Option SourceCache)
      → P c
      → All P found
      → add_known c found o ≡ ok next
      → All P next
  add_known-All c found next none p ps e = subst (All P) (ok-injective _ _ e) (p, ps)
  add_known-All c found next (some previous) p ps e = elim (Bool-cases (same_cache previous c)) [
    | inl b ↦ subst (All P) (ok-injective found next (rw b at e)) ps
    | inr b ↦ absurd (raise-ne-ok _ _ next (rw b at e))
  ]

-- The two tests before the size of a cache is read
checked :
    (same_ref fits valid : Bool) (r : Result SourceCache) (c : SourceCache)
    → (if not (same_ref && fits)
        then raise cleanup_error "returned unexpected cache key/ref"
        else if not valid
        then raise cleanup_error "has invalid id"
        else r)
      ≡ ok c
    → (fits ≡ true) × (r ≡ ok c)
checked true true true r c e = (refl, e)
checked true true false r c e = absurd (raise-ne-ok _ _ c e)
checked true false valid r c e = absurd (raise-ne-ok _ _ c e)
checked false fits valid r c e = absurd (raise-ne-ok _ _ c e)

module _ (h : Host) where
  sized-key :
      (id : ℕ) (key : String) (o : Option Json) (c : SourceCache)
      → sized h id key o ≡ ok c
      → key ≡ c.key
  sized-key id key none c e = absurd (raise-ne-ok _ _ c e)
  sized-key id key (some j) c e = ground arith

  cache_of-fits :
      (t : Target) (f : Filter) (item : Fields) (c : SourceCache)
      → cache_of h t f item ≡ ok c
      → key_fits f c.key ≡ true
  unfolding cache_of
  cache_of-fits t f item c e =
      let key = get_str h.repr "key" item in
      let (fits, s) = checked (get_str h.repr "ref" item == ref_of h t) (key_fits f key) _ _ c e in
      let p = sized-key _ key (get "size_in_bytes" item) c s in
      ap (λ k. key_fits f k) (sym p) ∙ fits

  collect-All :
      (items : List Json) (t : Target) (f : Filter) (P : SourceCache → Type 0)
      (found next : List SourceCache)
      → ((c : SourceCache) → key_fits f c.key ≡ true → P c)
      → All P found
      → collect h t f items found ≡ ok next
      → All P next
  unfolding collect add_cache
  collect-All [] t f P found next k ps e = subst (All P) (ok-injective found next e) ps
  collect-All (obj item ∷ items) t f P found next k ps e =
      let (c, e₁, r₁) = and_then-eq-ok (cache_of h t f item) _ next e in
      let (found', e₂, r₂) =
        and_then-eq-ok (add_known c found (find_cache c.cache_id found)) _ next r₁ in
      collect-All items t f P found' next k
        (add_known-All P c found found' _ (k c (cache_of-fits t f item c e₁)) ps e₂) r₂
  collect-All (_ ∷ items) t f P found next k ps e = absurd (raise-ne-ok _ _ next e)

  listed-All :
      (t : Target) (f : Filter) (P : SourceCache → Type 0) (total : Option ℕ)
      (items : Option (List Json)) (found next : List SourceCache)
      → ((c : SourceCache) → key_fits f c.key ≡ true → P c)
      → All P found
      → listed h t f total items found ≡ ok next
      → All P next
  listed-All t f P none items found next k ps e = absurd (raise-ne-ok _ _ next e)
  listed-All t f P (some total) none found next k ps e = absurd (raise-ne-ok _ _ next e)
  listed-All t f P (some total) (some items) found next k ps e =
      elim (Bool-cases (eqb (length items) total)) [
        | inl b ↦ collect-All items t f P found next k ps (rw b at e)
        | inr b ↦ absurd (raise-ne-ok _ _ next (rw b at e))
      ]

  filters-All :
      (fs : List Filter) (t : Target) (P : SourceCache → Type 0) (found next : List SourceCache)
      (s u : State h.World)
      → ((c : SourceCache) → Named fs c → P c)
      → All P found
      → read_filters h t fs found s ≡ (ok next, u)
      → All P next
  unfolding read_filters read_filter
  filters-All [] t P found next s u k ps e = subst (All P) (pure-eq-ok found next s u e).0 ps
  filters-All (f ∷ fs) t P found next s u k ps e =
      let (found', v, e₁, r₁) = bind-eq-ok (read_filter h t f found) _ s u next e in
      let (payload, w, e₂, r₂) = bind-eq-ok (read_object h _) _ s v found' e₁ in
      let l = (lift-eq-ok _ found' w v r₂).0 in
      filters-All fs t P found' next v u (λ c n. k c (later f fs c.key n))
        (listed-All t f P (bounded_total 100 (get "total_count" payload))
          (list_of (get "actions_caches" payload)) found found' (λ c b. k c (first f fs c.key b)) ps
          l)
        r₁

  pub list-Named :
      (t : Target) (found : List SourceCache) (s u : State h.World)
      → list_source_caches h t s ≡ (ok found, u)
      → All (Named (source_cache_filters t.version)) found
  unfolding list_source_caches
  list-Named t found s u e =
      let P = Named (source_cache_filters t.version) in
      let (all, v, e₁, r₁) =
        bind-eq-ok (read_filters h t (source_cache_filters t.version) []) _ s u found e in
      subst (All P) (pure-eq-ok (sort_caches all) found v u r₁).0 (
        All-sort P all
          (filters-All (source_cache_filters t.version) t P [] all s v (λ c n. n) tt e₁))
