-- ===== src/Release/Publish/Laws.antt =====
-- A release that is reported as published is immutable, complete and identical to the local files.
use chromium_compile.Prelude.{
  String, Bool, true, false, not, ◌≡◌, subst, inl, inr, ◌&&◌, Option, none, some, List, [], ◌∷◌,
  ◌==◌, eq_iff, arith, Bool-cases, Option-cases, All, is_empty, diff,
}
use chromium_compile.Result.{ok, tag_error, immutable_error, and_then-eq-ok}
use chromium_compile.Host.{Host, State, throw, lift, recover}
use chromium_compile.Host.Laws.{bind-eq-ok, pure-eq-ok, lift-eq-ok}
use chromium_compile.Watcher.Manifest.{Pairs, find}
use chromium_compile.Release.Tag.{ensure_exact_tag}
use chromium_compile.Release.Tag.Laws.{Resolves, ensure_exact_tag-Resolves}
use chromium_compile.Text.Strip.{lower_hex}
use chromium_compile.Release.Publish.{
  Asset, asset_names, View, Published, local_assets, run_gh, release_view, remote_assets,
  pair_names, missing_assets, validate_asset_state, present, require, establish, check_final,
  compare_published, prepare, transition, already_published_identical, published_immutable,
  publish_draft, conclude, accepted, publish_checked, publish_immutable_release,
}

module _ (h : Host) where
  -- The release has exactly the local files, each with the digest of its local bytes.
  pub record IsIdentical (view : View) (local : List Asset) : Type 0 where
    pub remote : Pairs
    pub listed : remote_assets h view.assets [] ≡ ok remote
    pub none_more : is_empty (diff (pair_names h remote) (asset_names local)) ≡ true
    pub same : All (λ a. find a.name remote ≡ some a.digest) local

  none_missing :
      (remote : Pairs) (local missing : List Asset)
      → missing_assets h false remote local ≡ ok missing
      → All (λ a. find a.name remote ≡ some a.digest) local
  unfolding missing_assets
  none_missing remote [] missing e = tt
  none_missing remote (a ∷ local) missing e = elim (Option-cases (find a.name remote)) [
    | inl p ↦ absurd (cc (rw (p, missing_assets) at e))
    | inr (digest, p) ↦ elim (Bool-cases (digest == a.digest)) [
      | inl b ↦ (
        subst (λ d. find a.name remote ≡ some d) ((eq_iff digest a.digest).0 b) p,
        none_missing remote local missing (rw (p, b, missing_assets) at e),
      )
      | inr b ↦ absurd (cc (rw (p, b, missing_assets) at e))
    ]
  ]

  validate-IsIdentical :
      (view : View) (local missing : List Asset)
      → validate_asset_state h view local false ≡ ok missing
      → IsIdentical view local
  unfolding validate_asset_state
  validate-IsIdentical view local missing e =
      let (remote, p, q) = and_then-eq-ok (remote_assets h view.assets []) _ missing e in
      elim (Bool-cases (is_empty (diff (pair_names h remote) (asset_names local)))) [
        | inl b ↦ record {
          remote = remote;
          listed = p;
          none_more = b;
          same = none_missing remote local missing (rw b at q);
        }
        | inr b ↦ absurd (cc (rw b at q))
      ]

  required : (b : Bool) (why : String) → require h b why ≡ ok tt → b ≡ true
  required b why e = ground arith

  module _ (repository tag sha token : String) where
    abbrev Seen : View → Type 0
    Seen view =
        (s : State h.World) × (t : State h.World) × (release_view h repository tag s
          ≡ (ok (some view), t))

    -- A view of the release showed it published, immutable and identical to the files, and the tag
    -- resolved to the commit.
    pub record IsPublished (local : List Asset) : Type 0 where
      pub view : View
      pub before : State h.World
      pub after : State h.World
      pub seen : release_view h repository tag before ≡ (ok (some view), after)
      pub published : view.is_draft ≡ false
      pub immutable : view.is_immutable ≡ true
      pub identical : IsIdentical view local
      pub tagged : Resolves h repository tag sha

    presented :
        (o : Option View) (why : String) (view : View) (s t : State h.World)
        → release_view h repository tag s ≡ (ok o, t)
        → present h o why ≡ ok view
        → release_view h repository tag s ≡ (ok (some view), t)
    presented none why view s t p e = absurd (cc e)
    presented (some v) why view s t p e =
        subst (λ v. release_view h repository tag s ≡ (ok (some v), t)) (cc e) p

    module _ (local : List Asset) where
      check_final-IsPublished :
          (view : View) (outcome o : Published) (s t : State h.World)
          → Seen view
          → view.is_draft ≡ false
          → view.is_immutable ≡ true
          → check_final h repository tag sha token local view outcome s ≡ (ok o, t)
          → IsPublished local
      unfolding check_final
      check_final-IsPublished view outcome o s t (u, v, p) d i e =
          let (missing, s₁, m, e₁) =
            bind-eq-ok (lift (validate_asset_state h view local false)) _ s t o e in
          let (r, s₂, x, _) =
            bind-eq-ok (ensure_exact_tag h repository tag sha token) _ s₁ t o e₁ in
          record {
            view = view;
            before = u;
            after = v;
            seen = p;
            published = d;
            immutable = i;
            identical = validate-IsIdentical view local missing (lift-eq-ok _ missing s s₁ m).0;
            tagged = ensure_exact_tag-Resolves h repository tag sha token r s₁ s₂ x;
          }

      compare_published-IsPublished :
          (view : View) (o : Published) (s t : State h.World)
          → Seen view
          → view.is_draft ≡ false
          → compare_published h repository tag sha token local view s ≡ (ok o, t)
          → IsPublished local
      unfolding compare_published
      compare_published-IsPublished view o s t seen d e =
          let (_, s₁, i, e₁) = bind-eq-ok (lift (require h view.is_immutable _)) _ s t o e in
          check_final-IsPublished view already_published_identical o s₁ t seen d
            (required view.is_immutable _ (lift-eq-ok _ tt s s₁ i).0) e₁

      both : (a b : Bool) → not a && b ≡ true → (a ≡ false) × (b ≡ true)
      both a b e = (ground arith, ground arith)

      transition-IsPublished :
          (o : Published) (s t : State h.World)
          → transition h repository tag sha token local s ≡ (ok o, t)
          → IsPublished local
      unfolding transition
      transition-IsPublished o s t e =
          let (_, s₁, _, e₁) = bind-eq-ok (run_gh h _ 120) _ s t o e in
          let (last, s₂, p, e₂) = bind-eq-ok (release_view h repository tag) _ s₁ t o e₁ in
          let (final, s₃, q, e₃) = bind-eq-ok (lift (present h last _)) _ s₂ t o e₂ in
          let (_, s₄, i, e₄) =
            bind-eq-ok (lift (require h (not final.is_draft && final.is_immutable) _)) _ s₃ t o
              e₃ in
          let (d, im) = both _ _ (required _ _ (lift-eq-ok _ tt s₃ s₄ i).0) in
          check_final-IsPublished final published_immutable o s₄ t
            (s₁, s₂, presented last _ final s₁ s₂ p (lift-eq-ok _ final s₂ s₃ q).0) d im e₄

      publish_draft-IsPublished :
          (view : View) (o : Published) (s t : State h.World)
          → publish_draft h repository tag sha token local view s ≡ (ok o, t)
          → IsPublished local
      unfolding publish_draft
      publish_draft-IsPublished view o s t e =
          let (_, u, _, e₁) =
            bind-eq-ok (prepare h repository tag sha token local view) _ s t o e in
          transition-IsPublished o u t e₁

    established :
        (title notes : String) (o : Option View) (view : View) (r s t : State h.World)
        → release_view h repository tag r ≡ (ok o, s)
        → establish h repository tag sha token title notes o s ≡ (ok view, t)
        → Seen view
    unfolding establish
    established title notes (some v) view r s t p e = (
      r,
      s,
      subst (λ v. release_view h repository tag r ≡ (ok (some v), s)) (pure-eq-ok v view s t e).0 p,
    )
    established title notes none view r s t p e =
        let (_, s₁, _, e₁) = bind-eq-ok (run_gh h _ 120) _ s t view e in
        let (seen, s₂, q, e₂) = bind-eq-ok (release_view h repository tag) _ s₁ t view e₁ in
        let (v, s₃, x, e₃) = bind-eq-ok (lift (present h seen _)) _ s₂ t view e₂ in
        let (_, s₄, _, e₄) = bind-eq-ok (lift (require h v.is_draft _)) _ s₃ t view e₃ in
        let here = presented seen _ v s₁ s₂ q (lift-eq-ok _ v s₂ s₃ x).0 in
        (
          s₁,
          s₂,
          subst (λ v. release_view h repository tag s₁ ≡ (ok (some v), s₂))
              (pure-eq-ok v view s₄ t e₄).0 here,
        )

    conclude-IsPublished :
        (local : List Asset) (view : View) (o : Published) (s t : State h.World)
        → Seen view
        → conclude h repository tag sha token local view s ≡ (ok o, t)
        → IsPublished local
    unfolding publish_draft prepare validate_asset_state compare_published check_final
    conclude-IsPublished local view o s t seen e = elim (Bool-cases view.is_draft) [
      | inl b ↦ publish_draft-IsPublished local view o s t (rw b at e)
      | inr b ↦ compare_published-IsPublished local view o s t seen b (rw b at e)
    ]

    publish_checked-IsPublished :
        (title notes : String) (assets : List Asset) (o : Published) (s t : State h.World)
        → publish_checked h repository tag sha token title notes assets s ≡ (ok o, t)
        → (local : List Asset) × (local_assets assets ≡ ok local) × IsPublished local
    unfolding publish_checked
    publish_checked-IsPublished title notes assets o s t e =
        let (_, s₁, _, e₁) = bind-eq-ok (lift (accepted h repository tag sha token)) _ s t o e in
        let (local, s₂, p, e₂) = bind-eq-ok (lift (local_assets assets)) _ s₁ t o e₁ in
        let (_, s₃, _, e₃) =
          bind-eq-ok
            (recover tag_error (ensure_exact_tag h repository tag sha token)
              (λ why. throw immutable_error why))
            _ s₂ t o e₂ in
        let (seen, s₄, q, e₄) = bind-eq-ok (release_view h repository tag) _ s₃ t o e₃ in
        let (view, s₅, r, e₅) =
          bind-eq-ok (establish h repository tag sha token title notes seen) _ s₄ t o e₄ in
        (
          local,
          (lift-eq-ok _ local s₁ s₂ p).0,
          conclude-IsPublished local view o s₅ t (established title notes seen view s₃ s₄ s₅ q r)
              e₅,
        )

  -- Whichever outcome a call returns, it has seen the release published and immutable, with exactly the
  -- validated files, each with the digest of its local bytes, and the tag at the commit.
  pub publish_immutable_release-IsPublished :
      (repository tag sha title notes : String) (assets : List Asset) (token : String)
      (o : Published) (s t : State h.World)
      → publish_immutable_release h repository tag sha title notes assets token s ≡ (ok o, t)
      → (local : List Asset) × (local_assets assets ≡ ok local)
        × IsPublished repository tag (lower_hex sha) token local
  unfolding publish_immutable_release
  publish_immutable_release-IsPublished repository tag sha title notes assets token o s t e =
      publish_checked-IsPublished repository tag (lower_hex sha) token title notes assets o s t e
