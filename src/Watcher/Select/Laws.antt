-- ===== src/Watcher/Select/Laws.antt =====
-- What `select_candidates` promises, stated by membership and the order of version numbers.
use chromium_compile.Prelude.{
  ℕ, zero, suc, String, Bool, true, false, ◌≡◌, refl, not, List, [], ◌∷◌, length, mem, take, ◌≤◌,
  arith, All, Bool-cases, inl, inr, ◌⊎◌, sym, ◌∙◌, is_empty, length-take-le, All-imp, All-keep_if,
  All-take, All-zip,
}
use chromium_compile.Result.{ok, ◌>>=◌, and_then-eq-ok, ok-injective}
use chromium_compile.Text.Version.{Key, version_key, key_ltb, key_leb}
use chromium_compile.Text.Version.Sorting.{
  Entry, names, IsKeyed, IsSortOf, sorted_versions, sorted_versions-IsSortOf,
}
use chromium_compile.Watcher.Select.{PortState, skips, scan_all, select_candidates}
use chromium_compile.Watcher.Select.Entries.{
  IsAscending, All-names, All-listed, length-names, keep_if-IsSorted, names-IsAscending,
  take-IsSorted,
}
use chromium_compile.Watcher.Select.Scan.{chosen, scan-eq-take}

-- A version above the baseline that nothing records as processed
pub record IsEligible (versions : List String) (minimum : String) (state : PortState) (v : String)
    : Type 0 where
  pub key : Key
  pub baseline : Key
  pub parses : version_key v ≡ ok key
  pub minimum_parses : version_key minimum ≡ ok baseline
  pub above : key_ltb baseline key ≡ true
  pub listed : mem v versions ≡ true
  pub not_known : mem v state.known ≡ false
  pub not_released : mem v state.released ≡ false
  pub not_blocked : mem v state.blocked ≡ false

module _ (versions : List String) (minimum : String) (state : PortState) where
  entry-IsEligible :
      (m : Key) (ns : List String) (e : Entry)
      → version_key minimum ≡ ok m
      → IsKeyed e
      → mem e.name versions ≡ true
      → not (skips m state e) ≡ true
      → IsEligible versions minimum state e.name
  unfolding skips key_leb
  entry-IsEligible m ns e hm k l h = record {
    key = e.key;
    baseline = m;
    parses = k;
    minimum_parses = hm;
    above = ground arith;
    listed = l;
    not_known = ground arith;
    not_released = ground arith;
    not_blocked = ground arith;
  }

  abbrev Scanned : ℕ → List String → List Entry → Type 0
  Scanned limit xs es =
      ((xs ≡ []) × (es ≡ []))
      ⊎ ((m : Key) × (version_key minimum ≡ ok m) × (xs ≡ names (take limit (chosen m state es))))

  scan_all-Scanned :
      (k : ℕ) (xs : List String) (es : List Entry)
      → scan_all minimum state (suc k) es ≡ ok xs
      → Scanned (suc k) xs es
  unfolding scan_all
  scan_all-Scanned k xs [] h = inl (sym (ok-injective _ _ h), refl)
  scan_all-Scanned k xs (e ∷ es) h =
      let (m, p, q) = and_then-eq-ok (version_key minimum) _ _ h in
      inr
        (m, p, sym (ok-injective _ _ q) ∙ scan-eq-take m state (suc k) k [] (e ∷ es) (omega arith))

  idle_call :
      (k : ℕ)
      → is_empty state.active ≡ true
      → select_candidates versions minimum state (suc k)
        ≡ (sorted_versions versions >>= scan_all minimum state (suc k))
  unfolding select_candidates
  idle_call k idle = rw idle (ground arith)

  -- The scan behind a successful call: the first versions that no `continue` skips.
  select_candidates-Scanned :
      (limit : ℕ) (xs : List String)
      → is_empty state.active ≡ true
      → select_candidates versions minimum state limit ≡ ok xs
      → (es : List Entry) × IsSortOf versions es × Scanned limit xs es
  unfolding select_candidates
  select_candidates-Scanned zero xs idle h = absurd (cc)
  select_candidates-Scanned (suc k) xs idle h =
      let (es, p, q) = and_then-eq-ok (sorted_versions versions) _ _ (sym (idle_call k idle) ∙ h) in
      (es, sorted_versions-IsSortOf versions es p, scan_all-Scanned k xs es q)

  chosen-IsEligible :
      (m : Key) (es : List Entry)
      → version_key minimum ≡ ok m
      → IsSortOf versions es
      → All (λ e. IsEligible versions minimum state e.name) (chosen m state es)
  chosen-IsEligible m es hm s =
      let listed = All-listed versions es (λ v h. sym (s.same v) ∙ h) in
      let test : Entry → Bool = λ e. not (skips m state e) in
      let both = All-zip IsKeyed (λ e. mem e.name versions ≡ true) es s.keys listed in
      All-imp _ (λ e. IsEligible versions minimum state e.name) (chosen m state es)
        (λ e p. entry-IsEligible m [] e hm p.0.0 p.0.1 p.1)
        (All-keep_if (λ e. IsKeyed e × (mem e.name versions ≡ true)) test es both)

  chosen-IsAscending :
      (m : Key) (n : ℕ) (es : List Entry)
      → IsSortOf versions es
      → IsAscending (names (take n (chosen m state es)))
  chosen-IsAscending m n es s =
      let test : Entry → Bool = λ e. not (skips m state e) in
      let kept : All IsKeyed (chosen m state es) =
        All-imp _ IsKeyed (chosen m state es) (λ e p. p.0) (All-keep_if IsKeyed test es s.keys) in
      names-IsAscending (take n (chosen m state es)) (All-take IsKeyed n _ kept)
        (take-IsSorted n _ (keep_if-IsSorted test es s.ordered))

  Scanned-sound :
      (limit : ℕ) (xs : List String) (es : List Entry)
      → IsSortOf versions es
      → Scanned limit xs es
      → All (IsEligible versions minimum state) xs × IsAscending xs × (length xs ≤ limit)
  Scanned-sound limit xs es s (inl (e, _)) = rw e (tt, tt, omega arith)
  Scanned-sound limit xs es s (inr (m, hm, e)) =
      let l = take limit (chosen m state es) in
      rw e (
        All-names (IsEligible versions minimum state) l (
            All-take (λ x. IsEligible versions minimum state x.name) limit _
              (chosen-IsEligible m es hm s)),
        chosen-IsAscending m limit es s,
        omega (arith, length-names l, length-take-le limit (chosen m state es)),
      )

  busy_result :
      (limit : ℕ) (xs : List String)
      → is_empty state.active ≡ false
      → select_candidates versions minimum state limit ≡ ok xs
      → xs ≡ []
  unfolding select_candidates
  busy_result zero xs busy h = absurd (cc)
  busy_result (suc k) xs busy h = ok-injective xs [] (sym h ∙ rw busy (ground arith))

  -- Every candidate is a listed version above the baseline that is not known, released or blocked;
  -- the candidates ascend by version number, and there are at most `limit` of them.
  pub select_candidates_sound :
      (limit : ℕ) (xs : List String)
      → select_candidates versions minimum state limit ≡ ok xs
      → All (IsEligible versions minimum state) xs × IsAscending xs × (length xs ≤ limit)
  select_candidates_sound limit xs h = elim (Bool-cases (is_empty state.active)) [
    | inl idle ↦
        let (es, s, r) = select_candidates-Scanned limit xs idle h in Scanned-sound limit xs es s r
    | inr busy ↦ rw (busy_result limit xs busy h) (tt, tt, omega arith)
  ]
