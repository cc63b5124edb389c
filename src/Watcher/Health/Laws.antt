-- ===== src/Watcher/Health/Laws.antt =====
-- What a healthy release has passed.
use chromium_compile.Prelude.{
  String, Bool, true, false, not, ◌≡◌, subst, ◌||◌, inl, inr, some, List, arith, Bool-cases,
  Option-cases,
}
use chromium_compile.Result.{ok, value_error, and_then-eq-ok, ok-injective}
use chromium_compile.Json.{Fields, get, truthy}
use chromium_compile.Host.{Host, State, lift}
use chromium_compile.Host.Laws.{bind-eq-ok, pure-eq-ok, lift-eq-ok, recover-eq-ok}
use chromium_compile.Watcher.Gh.{Settings}
use chromium_compile.Watcher.Lane.{LaneConfig}
use chromium_compile.Watcher.Manifest.{verify_release_provenance}
use chromium_compile.Watcher.Manifest.Laws.{IsVerified, verify_release_provenance-IsVerified}
use chromium_compile.Watcher.Health.{
  manifest_name, find_asset, is_complete, assets_of, is_immutable, is_candidate, has_provenance,
  is_healthy,
}

false-ne-true : {C : Type 0} → false ≡ true → C
false-ne-true e = absurd (cc e)

module _ (h : Host) (settings : Settings) (repository : String) (lane : LaneConfig)
    (legacy : List String) where
  -- A release that is published, complete, immutable and traced to its commit
  pub record IsHealthyRelease (version : String) (release : Fields) : Type 0 where
    pub published : truthy (get "draft" release) ≡ false
    pub final : truthy (get "prerelease" release) ≡ false
    pub complete : is_complete h version lane (assets_of h release) ≡ ok true
    pub immutable : is_immutable h version legacy release ≡ true
    pub asset : Fields
    pub manifest : find_asset h (manifest_name version lane) (assets_of h release) ≡ some asset
    pub verified : IsVerified h settings repository version asset lane

  four_guards :
      (a b c d : Bool)
      → not (a || b || not c || not d) ≡ true
      → (a ≡ false) × (b ≡ false) × (c ≡ true) × (d ≡ true)
  four_guards a b c d e = (ground arith, ground arith, ground arith, ground arith)

  candidate_guards :
      (version : String) (release : Fields)
      → is_candidate h version lane legacy release ≡ ok true
      → (truthy (get "draft" release) ≡ false)
        × (truthy (get "prerelease" release) ≡ false)
        × (is_complete h version lane (assets_of h release) ≡ ok true)
        × (is_immutable h version legacy release ≡ true)
  unfolding is_candidate
  candidate_guards version release e =
      let (complete, p, q) =
        and_then-eq-ok (is_complete h version lane (assets_of h release)) _ true e in
      let (a, b, c, d) = four_guards _ _ complete _ (ok-injective _ true q) in
      (a, b, subst (λ c. is_complete h version lane (assets_of h release) ≡ ok c) c p, d)

  provenance-IsVerified :
      (version : String) (release : Fields) (s t : State h.World)
      → has_provenance h settings repository lane legacy version release s ≡ (ok true, t)
      → (asset : Fields) × (find_asset h (manifest_name version lane) (assets_of h release)
          ≡ some asset)
        × IsVerified h settings repository version asset lane
  unfolding has_provenance
  provenance-IsVerified version release s t e =
      elim (Option-cases (find_asset h (manifest_name version lane) (assets_of h release))) [
        | inl p ↦ false-ne-true (pure-eq-ok false true s t (rw (p, has_provenance) at e)).0
        | inr (asset, p) ↦
            elim (recover-eq-ok value_error _ _ s t true (rw (p, has_provenance) at e)) [
              | inl q ↦
                  let (_, u, r, _) =
                    bind-eq-ok (verify_release_provenance h settings repository version asset lane)
                      _ s t true q in
                  (
                    asset,
                    p,
                    verify_release_provenance-IsVerified h settings repository version asset lane s
                        u r,
                  )
              | inr (y, text, u, q, c, r) ↦ false-ne-true (pure-eq-ok false true u t r).0
            ]
      ]

  pub is_healthy-IsHealthyRelease :
      (version : String) (release : Fields) (s t : State h.World)
      → is_healthy h settings repository lane legacy version release s ≡ (ok true, t)
      → IsHealthyRelease version release
  unfolding is_healthy
  is_healthy-IsHealthyRelease version release s t e =
      let (candidate, u, p, q) =
        bind-eq-ok (lift (is_candidate h version lane legacy release)) _ s t true e in
      elim (Bool-cases candidate) [
        | inl b ↦
            let (a, c, d, i) = candidate_guards version release (
              subst (λ b. is_candidate h version lane legacy release ≡ ok b) b
                (lift-eq-ok _ candidate s u p).0) in
            let (asset, m, v) = provenance-IsVerified version release u t (rw b at q) in
            record {
              published = a;
              final = c;
              complete = d;
              immutable = i;
              asset = asset;
              manifest = m;
              verified = v;
            }
        | inr b ↦ false-ne-true (pure-eq-ok false true u t (rw b at q)).0
      ]
