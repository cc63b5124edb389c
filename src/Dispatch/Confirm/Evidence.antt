-- ===== src/Dispatch/Confirm/Evidence.antt =====
-- A confirmation rests on a run that a listing showed.
use chromium_compile.Prelude.{
  ℕ, zero, suc, ◌+◌, ◌≤◌, String, Bool, true, false, ◌≡◌, ◌≢◌, ◌&&◌, ◌||◌, not, ◌==◌, inl, inr,
  none, some, List, [], ◌∷◌, Any, ltb, arith, Bool-cases, keep_if, eq_iff, subst,
}
use chromium_compile.Result.{Result, ok, dispatch_error, and_then-eq-ok, ok-injective}
use chromium_compile.Json.{Fields, get_str}
use chromium_compile.Host.{Host, State, Act, pure, lift, ◌>>◌, recover}
use chromium_compile.Host.Laws.{bind-eq-ok, pure-eq-ok, lift-eq-ok, throw-ne-ok, recover-eq-ok}
use chromium_compile.Text.Strip.{lower_hex}
use chromium_compile.Dispatch.Lookup.{list_recent_runs, title_ref_fit, matches_or_fail, utc_moment}
use chromium_compile.Dispatch.Confirm.{
  HeadState, matched, mismatch, absent, answer, seconds_before, scan_heads,
  recent_dispatch_head_state, judge, wait_more, confirm_rounds, confirm_expected_dispatch_head,
}

Any-keep_if :
    (P : Fields → Type 0) (p : Fields → Bool) (runs : List Fields)
    → Any P (keep_if p runs)
    → Any (λ run. P run × (p run ≡ true)) runs
unfolding keep_if
Any-keep_if P p [] h = h
Any-keep_if P p (run ∷ runs) h = elim (Bool-cases (p run)) [
  | inl b ↦ elim (rw b at h) [ inl q ↦ inl (q, b) | inr q ↦ inr (Any-keep_if P p runs q) ]
  | inr b ↦ inr (Any-keep_if P p runs (rw b at h))
]

module _ (h : Host) (lookup_limit : ℕ) where
  -- The run was created at the threshold or later, at the expected commit.
  pub record IsRecent (sha : String) (threshold : ℕ) (run : Fields) : Type 0 where
    pub created : ℕ
    pub moment : utc_moment h lookup_limit (get_str h.repr "createdAt" run) ≡ ok created
    pub after : threshold ≤ created
    pub commit : lower_hex (get_str h.repr "headSha" run) ≡ lower_hex sha

  no_match : (b : Bool) → answer false b ≢ matched
  no_match true = cc
  no_match false = cc

  abbrev go_on : String → ℕ → ℕ → Bool → Fields → List Fields → Result HeadState
  go_on sha threshold created saw_other run runs =
      let is_old = ltb created threshold in
      let is_expected = lower_hex (get_str h.repr "headSha" run) == lower_hex sha in
      scan_heads h lookup_limit sha threshold (not is_old && is_expected)
        (saw_other || (not is_old && not is_expected)) runs

  round-Any :
      (sha : String) (threshold created : ℕ) (saw_other : Bool) (run : Fields) (runs : List Fields)
      → utc_moment h lookup_limit (get_str h.repr "createdAt" run) ≡ ok created
      → ((b : Bool)
          → scan_heads h lookup_limit sha threshold false b runs ≡ ok matched
          → Any (IsRecent sha threshold) runs)
      → go_on sha threshold created saw_other run runs ≡ ok matched
      → Any (IsRecent sha threshold) (run ∷ runs)
  round-Any sha threshold created saw_other run runs p ih e =
      elim (Bool-cases (ltb created threshold)) [
        | inl old ↦ inr (ih _ (rw old at e))
        | inr new ↦ elim (Bool-cases (lower_hex (get_str h.repr "headSha" run) == lower_hex sha)) [
          | inl same ↦ inl (record {
            created = created;
            moment = p;
            after = ground arith;
            commit = (eq_iff _ _).0 same;
          })
          | inr other ↦ inr (ih _ (rw (new, other) at e))
        ]
      ]

  scan_heads-Any :
      (sha : String) (threshold : ℕ) (saw_other : Bool) (runs : List Fields)
      → scan_heads h lookup_limit sha threshold false saw_other runs ≡ ok matched
      → Any (IsRecent sha threshold) runs
  unfolding scan_heads
  scan_heads-Any sha threshold saw_other [] e = absurd (no_match saw_other (ok-injective _ _ e))
  scan_heads-Any sha threshold saw_other (run ∷ runs) e =
      let (created, p, e') =
        and_then-eq-ok (utc_moment h lookup_limit (get_str h.repr "createdAt" run)) _ matched e in
      round-Any sha threshold created saw_other run runs p
        (λ b. scan_heads-Any sha threshold b runs) e'

  -- A listing of the ref's runs since half a minute before the dispatch, read at one moment of the
  -- call, showed a run with the title and the ref at the expected commit.
  pub record IsSeen (repository workflow title ref sha : String) (started : ℕ) : Type 0 where
    pub before : State h.World
    pub after : State h.World
    pub runs : List Fields
    pub listing :
        list_recent_runs h lookup_limit repository workflow
          (record {
            branch = some ref;
            commit = none;
            created_after = some (seconds_before 30 started);
            status = none;
          })
          before
        ≡ (ok runs, after)
    pub shown :
        Any
          (λ run.
            IsRecent sha (seconds_before 30 started) run
            × (title_ref_fit h lookup_limit title ref run ≡ true))
          runs

  kept_matches :
      (fits : Fields → Bool) (runs matches : List Fields)
      → matches_or_fail h lookup_limit fits runs ≡ ok matches
      → matches ≡ keep_if fits runs
  unfolding matches_or_fail
  kept_matches fits runs matches e = ground arith

  head_state-IsSeen :
      (repository workflow title ref sha : String) (started : ℕ) (s t : State h.World)
      → recent_dispatch_head_state h lookup_limit repository workflow title ref sha started s
        ≡ (ok matched, t)
      → IsSeen repository workflow title ref sha started
  unfolding recent_dispatch_head_state
  head_state-IsSeen repository workflow title ref sha started s t e =
      let fits = title_ref_fit h lookup_limit title ref in
      let threshold = seconds_before 30 started in
      let (runs, u, l, e₁) =
        bind-eq-ok (list_recent_runs h lookup_limit repository workflow _) _ s t matched e in
      let (matches, v, k, e₂) =
        bind-eq-ok (lift (matches_or_fail h lookup_limit fits runs)) _ u t matched e₁ in
      let shows =
        scan_heads-Any sha threshold false matches
          (lift-eq-ok (scan_heads h lookup_limit sha threshold false false matches) matched v t
            e₂).0 in
      let same = kept_matches fits runs matches (lift-eq-ok _ matches u v k).0 in
      record {
        before = s;
        after = u;
        runs = runs;
        listing = l;
        shown =
            Any-keep_if (IsRecent sha threshold) fits runs
              (subst (Any (IsRecent sha threshold)) same shows);
      }

  module _ (state : Act h.World HeadState) where
    abbrev Matched : Type 0
    Matched = (s : State h.World) × (t : State h.World) × (state s ≡ (ok matched, t))

    recovered_matched :
        (s t : State h.World)
        → recover dispatch_error state (λ _. pure absent) s ≡ (ok matched, t)
        → Matched
    recovered_matched s t e = elim (recover-eq-ok dispatch_error state _ s t matched e) [
      | inl p ↦ (s, t, p)
      | inr (y, text, u, p, c, q) ↦ absurd (cc ((pure-eq-ok absent matched u t q).0))
    ]

    judged :
        (seen : HeadState) (left attempt : ℕ) (s u t : State h.World)
        → ((v w : State h.World)
            → confirm_rounds h lookup_limit (λ _. state) left (attempt + 1) v ≡ (ok true, w)
            → Matched)
        → recover dispatch_error state (λ _. pure absent) s ≡ (ok seen, u)
        → judge h lookup_limit seen
            (wait_more h lookup_limit (λ _. state) left attempt
              >> confirm_rounds h lookup_limit (λ _. state) left (attempt + 1))
            u
          ≡ (ok true, t)
        → Matched
    judged matched left attempt s u t ih p q = recovered_matched s u p
    judged mismatch left attempt s u t ih p q = throw-ne-ok _ _ true u t q
    judged absent left attempt s u t ih p q =
        let (_, v, _, r) =
          bind-eq-ok (wait_more h lookup_limit (λ _. state) left attempt) _ u t true q in
        ih v t r

    confirm_rounds_Matched :
        (left attempt : ℕ) (s t : State h.World)
        → confirm_rounds h lookup_limit (λ _. state) left attempt s ≡ (ok true, t)
        → Matched
    unfolding confirm_rounds
    confirm_rounds_Matched zero attempt s t e = absurd (cc ((pure-eq-ok false true s t e).0))
    confirm_rounds_Matched (suc left) attempt s t e =
        let (seen, u, p, q) =
          bind-eq-ok (recover dispatch_error state (λ _. pure absent)) _ s t true e in
        judged seen left attempt s u t (confirm_rounds_Matched left (attempt + 1)) p q

  pub confirmed-IsSeen :
      (repository workflow title ref sha : String) (started n : ℕ) (s t : State h.World)
      → confirm_expected_dispatch_head h lookup_limit repository workflow title ref sha started n s
        ≡ (ok true, t)
      → IsSeen repository workflow title ref sha started
  unfolding confirm_expected_dispatch_head
  confirmed-IsSeen repository workflow title ref sha started n s t e =
      let (u, v, p) = confirm_rounds_Matched _ n 0 s t e in
      head_state-IsSeen repository workflow title ref sha started u v p
