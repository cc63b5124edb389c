-- ===== src/Host/Bounded.antt =====
-- A bound on how often an action starts a process of a certain kind.
use chromium_compile.Prelude.{
  ℕ, suc, ◌+◌, ◌≤◌, ◌≡◌, String, Bool, true, false, if◌then◌else◌, List, arith, refl, ap,
}
use chromium_compile.Result.{Exc, Result, ok, raise}
use chromium_compile.Host.{Host, State, Act, start_gh, resume, ◌>>=◌, recover}
use chromium_compile.Host.Returns.{Returns}
use chromium_compile.Host.Tally.{tally, Quiet, handle-Quiet, AtMostOnce}

counted : (b : Bool) (n : ℕ) → (if b then suc n else n) ≤ n + 1
counted b n = ground arith

module _ (kind : List String → Bool) where
  -- The action sends at most n commands of the kind, whether it returns or raises.
  pub record AtMost {W A : Type 0} (n : ℕ) (m : Act W A) : Type 0 where
    pub at : (s : State W) → tally kind (m s).1.calls ≤ tally kind s.calls + n

  pub AtMost-of_Quiet : {W A : Type 0} (n : ℕ) (m : Act W A) → Quiet kind m → AtMost n m
  AtMost-of_Quiet n m q = record { at = λ s. omega (arith, q.at s) }

  pub AtMost-of_once : {W A : Type 0} (m : Act W A) → AtMostOnce kind m → AtMost 1 m
  AtMost-of_once m q = record { at = λ s. omega (arith, q.at s) }

  module _ {W A B : Type 0} where
    resume_bounded :
        (k : ℕ) (r : Result A) (f : A → Act W B) (s : State W)
        → ((a : A) → AtMost k (f a))
        → tally kind (resume r f s).1.calls ≤ tally kind s.calls + k
    resume_bounded k (ok a) f s q = (q a).at s
    resume_bounded k (raise x m) f s q = omega arith

    pub AtMost-bind :
        (n k : ℕ) (m : Act W A) (f : A → Act W B)
        → AtMost n m
        → ((a : A) → AtMost k (f a))
        → AtMost (n + k) (m >>= f)
    unfolding ◌>>=◌
    AtMost-bind n k m f p q = record {
      at = λ s. omega (arith, resume_bounded k (m s).0 f (m s).1 q, p.at s);
    }

    resume_known :
        (P : A → Type 0) (k : ℕ) (r : Result A) (f : A → Act W B) (s : State W)
        → ((a : A) → r ≡ ok a → P a)
        → ((a : A) → P a → AtMost k (f a))
        → tally kind (resume r f s).1.calls ≤ tally kind s.calls + k
    resume_known P k (ok a) f s p q = (q a (p a refl)).at s
    resume_known P k (raise x m) f s p q = omega arith

    -- A quiet step with a property of its result, on which the bound of the rest depends
    pub AtMost-known :
        (P : A → Type 0) (k : ℕ) (m : Act W A) (f : A → Act W B)
        → Quiet kind m
        → Returns P m
        → ((a : A) → P a → AtMost k (f a))
        → AtMost k (m >>= f)
    unfolding ◌>>=◌
    AtMost-known P k m f p r q = record {
      at = λ s. omega (
        arith,
        resume_known P k (m s).0 f (m s).1 (λ a e. r.at a s (m s).1 (ap (λ o. (o, (m s).1)) e)) q,
        p.at s,
      );
    }

  module _ {W A : Type 0} where
    pub AtMost-le : (n k : ℕ) (m : Act W A) → n ≤ k → AtMost n m → AtMost k m
    AtMost-le n k m b p = record { at = λ s. omega (arith, p.at s, b) }

    pub AtMost-if :
        (n : ℕ) (b : Bool) (m k : Act W A) → AtMost n m → AtMost n k → AtMost n (if b then m else k)
    AtMost-if n true m k p q = p
    AtMost-if n false m k p q = q

    -- A guarded block whose handler sends nothing
    pub AtMost-recover :
        (n : ℕ) (x : Exc) (m : Act W A) (k : String → Act W A)
        → AtMost n m
        → ((text : String) → Quiet kind (k text))
        → AtMost n (recover x m k)
    unfolding recover
    AtMost-recover n x m k p q = record {
      at = λ s. omega (arith, handle-Quiet kind x (m s).0 k (m s).1 q, p.at s);
    }

  pub AtMost-start :
      (h : Host) (args : List String) (timeout : ℕ) → AtMost 1 (start_gh h args timeout)
  unfolding start_gh tally
  AtMost-start h args timeout = record { at = λ s. counted (kind args) (tally kind s.calls) }
