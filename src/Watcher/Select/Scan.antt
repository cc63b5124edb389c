-- ===== src/Watcher/Select/Scan.antt =====
-- The scan of `select_candidates` is a filter and a prefix: it takes the first versions, up to the
-- limit, that no `continue` skips.
use chromium_compile.Prelude.{
  ℕ, String, true, false, ◌≡◌, not, List, [], ◌∷◌, ◌++◌, leb, length, take, keep_if, ◌+◌, suc, zero,
  arith, Bool-cases, inl, inr, length-append, sym, ◌∙◌,
}
use mathlib.Core.List.{append_assoc, append-nil}
use chromium_compile.Text.Version.{Key}
use chromium_compile.Text.Version.Sorting.{Entry, names}
use chromium_compile.Watcher.Select.{PortState, skips, scan}

abbrev pub chosen : Key → PortState → List Entry → List Entry
chosen minimum state es = keep_if (λ e. not (skips minimum state e)) es

full :
    (limit : ℕ) (selected : List String) (e : Entry)
    → limit ≡ length selected + 1
    → leb limit (length (selected ++ e.name ∷ [])) ≡ true
full limit selected e h = ground (arith, length-append selected (e.name ∷ []))

room :
    (limit k : ℕ) (selected : List String) (e : Entry)
    → limit ≡ length selected + suc (suc k)
    → leb limit (length (selected ++ e.name ∷ [])) ≡ false
room limit k selected e h = ground (arith, length-append selected (e.name ∷ []))

module _ (minimum : Key) (state : PortState) where
  -- With room for k more versions the scan adds the first k that are not skipped.
  pub scan-eq-take :
      (limit k : ℕ) (selected : List String) (es : List Entry)
      → limit ≡ length selected + suc k
      → scan minimum state limit selected es
        ≡ selected ++ names (take (suc k) (chosen minimum state es))
  unfolding scan keep_if names
  scan-eq-take limit k selected [] h = sym (append-nil selected)
  scan-eq-take limit zero selected (e ∷ es) h = elim (Bool-cases (skips minimum state e)) [
    | inl b ↦ rw b (scan-eq-take limit zero selected es h)
    | inr b ↦ rw (b, full limit selected e h)
  ]
  scan-eq-take limit (suc k) selected (e ∷ es) h = elim (Bool-cases (skips minimum state e)) [
    | inl b ↦ rw b (scan-eq-take limit (suc k) selected es h)
    | inr b ↦
        let more : List String = selected ++ e.name ∷ [] in
        let ih =
          scan-eq-take limit k more es (omega (arith, length-append selected (e.name ∷ []))) in
        rw (b, room limit k selected e h) (ih ∙ append_assoc selected (e.name ∷ []) _)
  ]
