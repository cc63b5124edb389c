-- ===== src/Watcher/Health/Survey.antt =====
-- Every tagged release is sorted into the healthy or the broken ones.
use chromium_compile.Prelude.{
  String, Bool, true, false, ◌≡◌, refl, sym, ap, subst, ◌∙◌, ◌||◌, ◌⊎◌, inl, inr, none, some, List,
  [], ◌∷◌, ◌==◌, eq_iff, arith, Any, Bool-cases, Option-cases, mem, mem-insert,
}
use chromium_compile.Result.{ok}
use chromium_compile.Json.{Fields, get_str}
use chromium_compile.Host.{Host, State}
use chromium_compile.Host.Laws.{bind-eq-ok, pure-eq-ok}
use chromium_compile.Watcher.Gh.{Settings}
use chromium_compile.Watcher.Lane.{LaneConfig}
use chromium_compile.Watcher.Rest.{list_rest_items}
use chromium_compile.Watcher.Health.{
  Health, tag_version, is_healthy, sorted_out, judge_all, list_release_health,
}
use chromium_compile.Watcher.Health.Laws.{IsHealthyRelease, is_healthy-IsHealthyRelease}

some-injective : (a b : String) → some a ≡ some b → a ≡ b
some-injective a b e = cc

module _ (h : Host) (settings : Settings) (repository : String) (lane : LaneConfig)
    (legacy : List String) where
  -- The release's tag names the version.
  abbrev pub IsTagged : String → Fields → Type 0
  IsTagged version release = tag_version lane (get_str h.repr "tag_name" release) ≡ some version

  -- What the two sets say of the releases
  pub record Judged (releases : List Fields) (before after : Health) : Type 0 where
    pub sound :
        (v : String)
        → mem v after.healthy ≡ true
        → (mem v before.healthy ≡ true)
          ⊎ Any
              (λ release.
                IsTagged v release × IsHealthyRelease h settings repository lane legacy v release)
              releases
    pub kept :
        (v : String)
        → (mem v before.healthy || mem v before.broken) ≡ true
        → (mem v after.healthy || mem v after.broken) ≡ true
    pub total :
        (v : String)
        → Any (IsTagged v) releases
        → (mem v after.healthy || mem v after.broken) ≡ true

  sorted_kept :
      (version v : String) (b : Bool) (health : Health)
      → (mem v health.healthy || mem v health.broken) ≡ true
      → (mem v (sorted_out h settings repository lane legacy version b health).healthy
          || mem v (sorted_out h settings repository lane legacy version b health).broken)
        ≡ true
  sorted_kept version v true health e = ground (arith, mem-insert v version health.healthy)
  sorted_kept version v false health e = ground (arith, mem-insert v version health.broken)

  sorted_in :
      (version : String) (b : Bool) (health : Health)
      → (mem version (sorted_out h settings repository lane legacy version b health).healthy
          || mem version (sorted_out h settings repository lane legacy version b health).broken)
        ≡ true
  sorted_in version true health =
      ground (arith, mem-insert version version health.healthy, eq_iff version version)
  sorted_in version false health =
      ground (arith, mem-insert version version health.broken, eq_iff version version)

  sorted_sound :
      (version v : String) (b : Bool) (health : Health)
      → mem v (sorted_out h settings repository lane legacy version b health).healthy ≡ true
      → (mem v health.healthy ≡ true) ⊎ ((version ≡ v) × (b ≡ true))
  sorted_sound version v true health e = elim (Bool-cases (version == v)) [
    | inl p ↦ inr ((eq_iff version v).0 p, refl)
    | inr p ↦ inl (ground (arith, mem-insert v version health.healthy))
  ]
  sorted_sound version v false health e = inl e

  -- A release that was looked at, and those after it
  judge_step :
      (release : Fields) (releases : List Fields) (version : String) (b : Bool)
      (before after : Health) (s t : State h.World)
      → IsTagged version release
      → is_healthy h settings repository lane legacy version release s ≡ (ok b, t)
      → Judged releases (sorted_out h settings repository lane legacy version b before) after
      → Judged (release ∷ releases) before after
  judge_step release releases version b before after s t tagged e rest = record {
    sound = λ v m. elim (rest.sound v m) [
      | inr found ↦ inr (inr found)
      | inl old ↦ elim (sorted_sound version v b before old) [
        | inl older ↦ inl older
        | inr (same, good) ↦ inr (
            inl (
              tagged ∙ ap (λ w. some w) same,
              subst (λ w. IsHealthyRelease h settings repository lane legacy w release) same
                  (is_healthy-IsHealthyRelease h settings repository lane legacy version release s t
                    (subst
                      (λ b.
                        is_healthy h settings repository lane legacy version release s ≡ (ok b, t))
                      good e)),
            ))
      ]
    ];
    kept = λ v m. rest.kept v (sorted_kept version v b before m);
    total = λ v m. elim m [
      | inl this ↦
          let same : version ≡ v = some-injective version v (sym tagged ∙ this) in
          rest.kept v (
            subst
              (λ w.
                (mem w (sorted_out h settings repository lane legacy version b before).healthy
                  || mem w (sorted_out h settings repository lane legacy version b before).broken)
                ≡ true)
              same (sorted_in version b before))
      | inr later ↦ rest.total v later
    ];
  }

  judge_skip :
      (release : Fields) (releases : List Fields) (before after : Health)
      → tag_version lane (get_str h.repr "tag_name" release) ≡ none
      → Judged releases before after
      → Judged (release ∷ releases) before after
  judge_skip release releases before after untagged rest = record {
    sound = λ v m. elim (rest.sound v m) [ inl old ↦ inl old | inr found ↦ inr (inr found) ];
    kept = λ v m. rest.kept v m;
    total = λ v m. elim m [
      | inl this ↦ absurd (cc (sym untagged ∙ this))
      | inr later ↦ rest.total v later
    ];
  }

  judge_all-Judged :
      (releases : List Fields) (before after : Health) (s t : State h.World)
      → judge_all h settings repository lane legacy releases before s ≡ (ok after, t)
      → Judged releases before after
  unfolding judge_all
  judge_all-Judged [] before after s t e =
      subst (Judged [] before) (pure-eq-ok before after s t e).0
        (record { sound = λ v m. inl m; kept = λ v m. m; total = λ v m. absurd m })
  judge_all-Judged (release ∷ releases) before after s t e =
      elim (Option-cases (tag_version lane (get_str h.repr "tag_name" release))) [
        | inl p ↦
            judge_skip release releases before after p
              (judge_all-Judged releases before after s t (rw (p, judge_all) at e))
        | inr (version, p) ↦
            let (b, u, q, e₁) =
              bind-eq-ok (is_healthy h settings repository lane legacy version release) _ s t after
                (rw (p, judge_all) at e) in
            judge_step release releases version b before after s u p q (
              judge_all-Judged releases
                (sorted_out h settings repository lane legacy version b before) after u t e₁)
      ]

  -- The listing, and what the two sets say of its releases
  pub record IsSurvey (s : State h.World) (health : Health) : Type 0 where
    pub releases : List Fields
    pub after : State h.World
    pub listing : list_rest_items h settings repository "releases" s ≡ (ok releases, after)
    pub sound :
        (v : String)
        → mem v health.healthy ≡ true
        → Any
            (λ release.
              IsTagged v release × IsHealthyRelease h settings repository lane legacy v release)
            releases
    pub total :
        (v : String)
        → Any (IsTagged v) releases
        → (mem v health.healthy || mem v health.broken) ≡ true

  -- A version counts as healthy only for a listed release that is published, complete, immutable by
  -- the service's word or by the legacy list, and whose manifest and tag name one commit. Each
  -- version that a listed release is tagged for is in one of the two sets.
  pub list_release_health-IsSurvey :
      (health : Health) (s t : State h.World)
      → list_release_health h settings repository lane legacy s ≡ (ok health, t)
      → IsSurvey s health
  unfolding list_release_health mem
  list_release_health-IsSurvey health s t e =
      let (releases, u, p, e₁) =
        bind-eq-ok (list_rest_items h settings repository "releases") _ s t health e in
      let judged = judge_all-Judged releases (record { healthy = []; broken = [] }) health u t e₁ in
      record {
        releases = releases;
        after = u;
        listing = p;
        sound = λ v m. elim (judged.sound v m) [
          | inl none_before ↦ absurd (cc none_before)
          | inr found ↦ found
        ];
        total = λ v m. judged.total v m;
      }
