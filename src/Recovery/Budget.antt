-- ===== src/Recovery/Budget.antt =====
-- The retry budget is spent one at a time and never exceeded.
use chromium_compile.Prelude.{ℕ, ◌+◌, ◌≤◌, String, ◌≡◌, ◌↔◌, true, arith, sym, subst}
use chromium_compile.Result.{ok, check, and_then-eq-ok}
use chromium_compile.Text.Digits.{int_of}
use chromium_compile.Text.Version.{is_ascii_version}
use chromium_compile.Recovery.{
  is_short_integer, bounded_int, next_retry, hard_max_stage, hard_max_retries,
}

-- What `bounded_int` accepts: a short numeral whose value lies in the range.
pub record IsBounded (value : String) (maximum minimum n : ℕ) : Type 0 where
  pub numeral : is_short_integer value ≡ true
  pub denotes : int_of value ≡ n
  pub at_least : minimum ≤ n
  pub at_most : n ≤ maximum

bounded_int_iff :
    (value : String) (maximum minimum n : ℕ)
    → (bounded_int value maximum minimum ≡ ok n) ↔ IsBounded value maximum minimum n
unfolding bounded_int
bounded_int_iff value maximum minimum n = (
  λ h. record {
    numeral = ground arith;
    denotes = ground arith;
    at_least = ground arith;
    at_most = ground arith;
  },
  λ b. ground arith,
)

-- What a granted recovery has checked, and the attempt that it starts
pub record IsGranted (version stage retry_count max_retries : String) (n : ℕ) : Type 0 where
  pub version_ok : is_ascii_version version ≡ true
  pub stage_ok : IsBounded stage hard_max_stage 1 (int_of stage)
  pub current_ok : IsBounded retry_count hard_max_retries 0 (int_of retry_count)
  pub maximum_ok : IsBounded max_retries hard_max_retries 0 (int_of max_retries)
  pub next : n ≡ int_of retry_count + 1
  pub within : n ≤ int_of max_retries

self-IsBounded :
    (value : String) (maximum minimum n : ℕ)
    → bounded_int value maximum minimum ≡ ok n
    → (n ≡ int_of value) × IsBounded value maximum minimum (int_of value)
self-IsBounded value maximum minimum n h =
    let b = (bounded_int_iff value maximum minimum n).0 h in
    (sym b.denotes, subst (IsBounded value maximum minimum) (sym b.denotes) b)

granted :
    (version stage retry_count max_retries : String) (n : ℕ)
    → next_retry version stage retry_count max_retries ≡ ok n
    → IsGranted version stage retry_count max_retries n
unfolding next_retry
granted version stage retry_count max_retries n h =
    let (_, hv, h₁) = and_then-eq-ok (check (is_ascii_version version) _ _) _ _ h in
    let (s, hs, h₂) = and_then-eq-ok (bounded_int stage hard_max_stage 1) _ _ h₁ in
    let (c, hc, h₃) = and_then-eq-ok (bounded_int retry_count hard_max_retries 0) _ _ h₂ in
    let (m, hm, h₄) = and_then-eq-ok (bounded_int max_retries hard_max_retries 0) _ _ h₃ in
    let (es, bs) = self-IsBounded stage hard_max_stage 1 s hs in
    let (ec, bc) = self-IsBounded retry_count hard_max_retries 0 c hc in
    let (em, bm) = self-IsBounded max_retries hard_max_retries 0 m hm in
    record {
      version_ok = ground arith;
      stage_ok = bs;
      current_ok = bc;
      maximum_ok = bm;
      next = ground arith;
      within = ground arith;
    }

grants :
    (version stage retry_count max_retries : String) (n : ℕ)
    → IsGranted version stage retry_count max_retries n
    → next_retry version stage retry_count max_retries ≡ ok n
unfolding next_retry
grants version stage retry_count max_retries n g =
    let s = (bounded_int_iff stage hard_max_stage 1 (int_of stage)).1 g.stage_ok in
    let c = (bounded_int_iff retry_count hard_max_retries 0 (int_of retry_count)).1 g.current_ok in
    let m = (bounded_int_iff max_retries hard_max_retries 0 (int_of max_retries)).1 g.maximum_ok in
    rw (g.version_ok, s, c, m) (ground (arith, g.within, g.next))

-- A recovery is granted exactly when the version is well formed, the stage is a number from 1 to 50,
-- both retry numbers are from 0 to 10 and the count is below the maximum; the attempt that it
-- returns is the count's successor, so it never exceeds the maximum.
pub next_retry_iff :
    (version stage retry_count max_retries : String) (n : ℕ)
    → (next_retry version stage retry_count max_retries ≡ ok n)
      ↔ IsGranted version stage retry_count max_retries n
next_retry_iff version stage retry_count max_retries n = (
  granted version stage retry_count max_retries n,
  grants version stage retry_count max_retries n,
)
