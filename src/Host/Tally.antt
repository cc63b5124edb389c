-- ===== src/Host/Tally.antt =====
-- How often an action starts a process of a certain kind, with a rule for each way to build an
-- action. The rules serve `search`.
use chromium_compile.Prelude.{
  ℕ, suc, ◌≤◌, String, Bool, true, false, ◌≡◌, refl, inl, inr, List, [], ◌∷◌, arith, if◌then◌else◌,
  ◌∙◌, Bool-cases,
}
use chromium_compile.Result.{Exc, Result, ok, raise}
use chromium_compile.Host.{
  Host, State, Act, pure, throw, lift, resume, ◌>>=◌, recover, is_a, handle, start_gh, sleep_for,
  outside, time_now,
}

-- The number of commands of a kind among those that were sent
unfoldable pub tally : (List String → Bool) → List (List String) → ℕ
tally kind [] = 0
tally kind (args ∷ calls) = let rest = tally kind calls in if kind args then suc rest else rest

module _ (kind : List String → Bool) where
  -- The action sends no command of the kind, whether it returns or raises.
  pub record Quiet {W A : Type 0} (m : Act W A) : Type 0 where
    pub at : (s : State W) → tally kind (m s).1.calls ≡ tally kind s.calls

  module _ {W A : Type 0} where
    pub Quiet-pure : (a : A) → Quiet (pure {W = W} a)
    unfolding pure
    Quiet-pure a = record { at = λ s. refl }

    pub Quiet-throw : (x : Exc) (m : String) → Quiet (throw {W = W} {A = A} x m)
    unfolding throw
    Quiet-throw x m = record { at = λ s. refl }

    pub Quiet-lift : (r : Result A) → Quiet (lift {W = W} r)
    unfolding lift
    Quiet-lift r = record { at = λ s. refl }

    pub Quiet-outside : (f : W → Result A × W) → Quiet (outside f)
    unfolding outside
    Quiet-outside f = record { at = λ s. refl }

    pub Quiet-if : (b : Bool) (m n : Act W A) → Quiet m → Quiet n → Quiet (if b then m else n)
    Quiet-if true m n p q = p
    Quiet-if false m n p q = q

    pub handle-Quiet :
        (x : Exc) (r : Result A) (k : String → Act W A) (s : State W)
        → ((text : String) → Quiet (k text))
        → tally kind (handle x r k s).1.calls ≡ tally kind s.calls
    handle-Quiet x (ok a) k s q = refl
    handle-Quiet x (raise y m) k s q = elim (Bool-cases (is_a y x)) [
      | inl b ↦ rw b ((q m).at s)
      | inr b ↦ rw b refl
    ]

    pub Quiet-recover :
        (x : Exc) (m : Act W A) (k : String → Act W A)
        → Quiet m
        → ((text : String) → Quiet (k text))
        → Quiet (recover x m k)
    unfolding recover
    Quiet-recover x m k p q = record { at = λ s. handle-Quiet x (m s).0 k (m s).1 q ∙ p.at s }

  module _ {W A B : Type 0} where
    resume-Quiet :
        (r : Result A) (f : A → Act W B) (s : State W)
        → ((a : A) → Quiet (f a))
        → tally kind (resume r f s).1.calls ≡ tally kind s.calls
    resume-Quiet (ok a) f s q = (q a).at s
    resume-Quiet (raise x m) f s q = refl

    pub Quiet-bind :
        (m : Act W A) (f : A → Act W B) → Quiet m → ((a : A) → Quiet (f a)) → Quiet (m >>= f)
    unfolding ◌>>=◌
    Quiet-bind m f p q = record { at = λ s. resume-Quiet (m s).0 f (m s).1 q ∙ p.at s }

  module _ (h : Host) where
    pub Quiet-start :
        (args : List String) (timeout : ℕ) → kind args ≡ false → Quiet (start_gh h args timeout)
    unfolding start_gh tally
    Quiet-start args timeout e = record { at = λ s. rw e }

    pub Quiet-sleep : (n : ℕ) → Quiet (sleep_for h n)
    unfolding sleep_for
    Quiet-sleep n = record { at = λ s. refl }

    pub Quiet-now : Quiet (time_now h)
    unfolding time_now
    Quiet-now = record { at = λ s. refl }

pub ruleset quiet_rules = (
  Quiet-pure, Quiet-throw, Quiet-lift, Quiet-if, Quiet-recover, Quiet-bind, Quiet-sleep, Quiet-now,
  Quiet-outside,
)

module _ (kind : List String → Bool) where
  -- The action sends at most one command of the kind.
  pub record AtMostOnce {W A : Type 0} (m : Act W A) : Type 0 where
    pub at : (s : State W) → tally kind (m s).1.calls ≤ suc (tally kind s.calls)

  pub AtMostOnce-of_Quiet : {W A : Type 0} (m : Act W A) → Quiet kind m → AtMostOnce m
  AtMostOnce-of_Quiet m q = record { at = λ s. omega (arith, q.at s) }

  module _ {W A B : Type 0} where
    resume_once :
        (r : Result A) (f : A → Act W B) (s : State W)
        → ((a : A) → AtMostOnce (f a))
        → tally kind (resume r f s).1.calls ≤ suc (tally kind s.calls)
    resume_once (ok a) f s q = (q a).at s
    resume_once (raise x m) f s q = omega arith

    -- A quiet step, then at most one command
    pub AtMostOnce-bind :
        (m : Act W A) (f : A → Act W B)
        → Quiet kind m
        → ((a : A) → AtMostOnce (f a))
        → AtMostOnce (m >>= f)
    unfolding ◌>>=◌
    AtMostOnce-bind m f p q = record {
      at = λ s. omega (arith, resume_once (m s).0 f (m s).1 q, p.at s);
    }

    resume_still :
        (r : Result A) (f : A → Act W B) (s : State W)
        → ((a : A) → Quiet kind (f a))
        → tally kind (resume r f s).1.calls ≡ tally kind s.calls
    resume_still (ok a) f s q = (q a).at s
    resume_still (raise x m) f s q = refl

    -- At most one command, then quiet steps
    pub AtMostOnce-then :
        (m : Act W A) (f : A → Act W B)
        → AtMostOnce m
        → ((a : A) → Quiet kind (f a))
        → AtMostOnce (m >>= f)
    unfolding ◌>>=◌
    AtMostOnce-then m f p q = record {
      at = λ s. omega (arith, resume_still (m s).0 f (m s).1 q, p.at s);
    }

  -- The action sends exactly one command of the kind.
  pub record ExactlyOnce {W A : Type 0} (m : Act W A) : Type 0 where
    pub at : (s : State W) → tally kind (m s).1.calls ≡ suc (tally kind s.calls)

  pub AtMostOnce-of_ExactlyOnce : {W A : Type 0} (m : Act W A) → ExactlyOnce m → AtMostOnce m
  AtMostOnce-of_ExactlyOnce m q = record { at = λ s. omega (arith, q.at s) }

  pub ExactlyOnce-start :
      (h : Host) (args : List String) (timeout : ℕ)
      → kind args ≡ true
      → ExactlyOnce (start_gh h args timeout)
  unfolding start_gh tally
  ExactlyOnce-start h args timeout e = record { at = λ s. rw e }

  module _ {W A B : Type 0} where
    pub ExactlyOnce-then :
        (m : Act W A) (f : A → Act W B)
        → ExactlyOnce m
        → ((a : A) → Quiet kind (f a))
        → ExactlyOnce (m >>= f)
    unfolding ◌>>=◌
    ExactlyOnce-then m f p q = record {
      at = λ s. omega (arith, resume_still (m s).0 f (m s).1 q, p.at s);
    }

  pub ExactlyOnce-recover :
      {W A : Type 0} (x : Exc) (m : Act W A) (k : String → Act W A)
      → ExactlyOnce m
      → ((text : String) → Quiet kind (k text))
      → ExactlyOnce (recover x m k)
  unfolding recover
  ExactlyOnce-recover x m k p q = record {
    at = λ s. omega (arith, handle-Quiet kind x (m s).0 k (m s).1 q, p.at s);
  }
