-- ===== src/Cleanup/Workflow/Laws.antt =====
-- What a proof of the publication has checked.
use chromium_compile.Prelude.{
  refl, sym, subst, ℕ, String, Bool, true, ◌&&◌, ◌≤◌, ◌≡◌, ◌==◌, inl, inr, Option, none, some, List,
  [], ◌∷◌, leb, keep_if, arith, Bool-cases, All, eq_iff,
}
use chromium_compile.Result.{raise-ne-ok, ok, and_then-eq-ok}
use chromium_compile.Json.{Json, Fields, get, objects}
use chromium_compile.Host.{Host, State, lift}
use chromium_compile.Host.Laws.{bind-eq-ok, lift-eq-ok}
use chromium_compile.Prune.{equals}
use chromium_compile.Text.Pattern.{is_run_id}
use chromium_compile.Cleanup.{Target, require, list_of, parse_github_timestamp, read_object}
use chromium_compile.Cleanup.Release.{ReleaseAsset, ReleaseIdentity}
use chromium_compile.Cleanup.Checkpoints.{field_of}
use chromium_compile.Cleanup.Workflow.{
  run_of, publish_workflow_path, complete_jobs, dicts, publish_step, publish_name,
  normalized_workflow_path, check_publish_run, select_jobs, all_before, check_steps, check_jobs,
  verify_release_workflow_proof,
}

pub require-le : (a b : ℕ) (why : String) → require (leb a b) why ≡ ok tt → a ≤ b
require-le a b why e = ground arith

pub require-true : (b : Bool) (why : String) → require b why ≡ ok tt → b ≡ true
require-true b why e = ground arith

pub require-eq : (x y why : String) → require (x == y) why ≡ ok tt → x ≡ y
require-eq x y why e = (eq_iff x y).0 (require-true (x == y) why e)

-- The asset was complete when the step ended.
abbrev pub Settled : ℕ → ReleaseAsset → Type 0
Settled completed a = (a.created_at ≤ a.updated_at) × (a.updated_at ≤ completed)

module _ (h : Host) where
  all_before-Settled :
      (as' : List ReleaseAsset) (completed : ℕ)
      → all_before h completed as' ≡ ok tt
      → All (Settled completed) as'
  all_before-Settled [] completed e = tt
  all_before-Settled (a ∷ as') completed e =
      let test = leb a.created_at a.updated_at && leb a.updated_at completed in
      elim (Bool-cases test) [
        | inl b ↦ ((ground arith, ground arith), all_before-Settled as' completed (rw b at e))
        | inr b ↦ absurd (raise-ne-ok _ _ tt (rw b at e))
      ]

  -- The one publishing step was successful, and no part of the release is younger than its end.
  pub record Dated (identity : ReleaseIdentity) (steps : Option (List Json)) : Type 0 where
    pub listed : List Json
    pub given : steps ≡ some listed
    pub step : Fields
    pub unique :
        publish_step (keep_if (λ step. equals (get "name" step) (publish_name h)) (objects listed))
        ≡ ok step
    pub completed : ℕ
    pub ended : parse_github_timestamp h (get "completed_at" step) ≡ ok completed
    pub in_time : identity.published_at ≤ completed
    pub settled : All (Settled completed) identity.assets

  steps-Dated :
      (identity : ReleaseIdentity) (steps : Option (List Json))
      → check_steps h identity steps ≡ ok tt
      → Dated identity steps
  unfolding check_steps
  steps-Dated identity none e = absurd (raise-ne-ok _ _ tt e)
  steps-Dated identity (some steps) e =
      let named = keep_if (λ step. equals (get "name" step) (publish_name h)) (objects steps) in
      let (step, unique, e₁) = and_then-eq-ok (publish_step named) _ tt e in
      let (started, _, e₂) =
        and_then-eq-ok (parse_github_timestamp h (get "started_at" step)) _ tt e₁ in
      let (completed, ended, e₃) =
        and_then-eq-ok (parse_github_timestamp h (get "completed_at" step)) _ tt e₂ in
      let (_, _, e₄) = and_then-eq-ok (require (leb started completed) _) _ tt e₃ in
      let (_, p, e₅) = and_then-eq-ok (require (leb identity.published_at completed) _) _ tt e₄ in
      record {
        listed = steps;
        given = refl;
        step = step;
        unique = unique;
        completed = completed;
        ended = ended;
        in_time = require-le identity.published_at completed _ p;
        settled = all_before-Settled identity.assets completed e₅;
      }

  -- The run of this id was read and is one of the trusted workflow; the listing of its jobs that was
  -- read next is complete, its required jobs were successful, and the publishing step dates the release.
  pub record Published (t : Target) (run_id : String) (identity : ReleaseIdentity) : Type 0 where
    pub before : State h.World
    pub middle : State h.World
    pub after : State h.World
    pub run : Fields
    pub payload : Fields
    pub read : read_object h ("api" ∷ run_of h t run_id "" ∷ []) before ≡ (ok run, middle)
    pub trusted : normalized_workflow_path h (get "path" run) ≡ publish_workflow_path
    pub in_repository :
        equals (field_of "full_name" (get "head_repository" run)) t.repository ≡ true
    pub on_branch : equals (get "head_branch" run) t.default_branch ≡ true
    pub listing :
        read_object h ("api" ∷ run_of h t run_id "/jobs?per_page=100&page=1" ∷ []) middle
        ≡ (ok payload, after)
    pub raw : List Json
    pub complete : complete_jobs (get "total_count" payload) (list_of (get "jobs" payload)) ≡ ok raw
    pub jobs : List Fields
    pub all_dicts : dicts raw ≡ ok jobs
    pub publish : Fields
    pub selected : select_jobs h jobs ≡ ok publish
    pub dated : Dated identity (list_of (get "steps" publish))

  pub verify-Published :
      (t : Target) (run_id : String) (identity : ReleaseIdentity) (s u : State h.World)
      → verify_release_workflow_proof h t run_id identity s ≡ (ok tt, u)
      → Published t run_id identity
  unfolding verify_release_workflow_proof check_publish_run check_jobs
  verify-Published t run_id identity s u e =
      let (_, s₁, _, r₁) = bind-eq-ok (lift (require (is_run_id run_id) _)) _ s u tt e in
      let (run, s₂, e₂, r₂) =
        bind-eq-ok (read_object h ("api" ∷ run_of h t run_id "" ∷ [])) _ s₁ u tt r₁ in
      let (_, s₃, e₃, r₃) = bind-eq-ok (lift (check_publish_run h t run)) _ s₂ u tt r₂ in
      let (payload, s₄, e₄, r₄) =
        bind-eq-ok (read_object h ("api" ∷ run_of h t run_id "/jobs?per_page=100&page=1" ∷ [])) _ s₃
          u tt r₃ in
      let (checked, still_there) = lift-eq-ok (check_publish_run h t run) tt s₂ s₃ e₃ in
      let (_, a, c₁) =
        and_then-eq-ok
          (require (normalized_workflow_path h (get "path" run) == publish_workflow_path) _) _ tt
          checked in
      let (_, b, c₂) =
        and_then-eq-ok
          (require (equals (field_of "full_name" (get "head_repository" run)) t.repository) _) _ tt
          c₁ in
      let (_, c, _) =
        and_then-eq-ok (require (equals (get "head_branch" run) t.default_branch) _) _ tt c₂ in
      let (raw, complete, j₁) =
        and_then-eq-ok (complete_jobs (get "total_count" payload) (list_of (get "jobs" payload))) _
          tt (lift-eq-ok (check_jobs h identity payload) tt s₄ u r₄).0 in
      let (jobs, all_dicts, j₂) = and_then-eq-ok (dicts raw) _ tt j₁ in
      let (publish, selected, j₃) = and_then-eq-ok (select_jobs h jobs) _ tt j₂ in
      record {
        before = s₁;
        middle = s₂;
        after = s₄;
        run = run;
        payload = payload;
        read = e₂;
        trusted = require-eq _ _ _ a;
        in_repository = require-true _ _ b;
        on_branch = require-true _ _ c;
        listing =
            subst
              (λ v.
                read_object h ("api" ∷ run_of h t run_id "/jobs?per_page=100&page=1" ∷ []) v
                ≡ (ok payload, s₄))
              (sym still_there) e₄;
        raw = raw;
        complete = complete;
        jobs = jobs;
        all_dicts = all_dicts;
        publish = publish;
        selected = selected;
        dated = steps-Dated identity (list_of (get "steps" publish)) j₃;
      }
