-- ===== src/Archive/Limits.antt =====
-- Every limit that is accepted lies between 1 and its hard maximum.
use chromium_compile.Prelude.{
  ℕ, ◌<◌, ◌≤◌, ◌≡◌, String, Bool, true, false, not, inl, inr, arith, Option-cases,
}
use chromium_compile.Result.{Exc, ok, check}
use chromium_compile.Archive.{ℤ, pos, negsuc, Environ, bounded, env_limit, or_default, size_of}

pub bounded_bounds :
    (value : ℤ) (hard_max n : ℕ) → bounded value hard_max ≡ ok n → (0 < n) × (n ≤ hard_max)
bounded_bounds (negsuc v) hard_max n h = absurd (cc)
bounded_bounds (pos v) hard_max n h = ground arith

pub env_limit_bounds :
    (e : Environ) (name : String) (default hard_max n : ℕ)
    → env_limit e name default hard_max ≡ ok n
    → (0 < n) × (n ≤ hard_max)
unfolding env_limit
env_limit_bounds e name default hard_max n h =
    elim (Option-cases (e.to_int (or_default (e.get name) default))) [
      | inl p ↦ absurd (cc (rw (p, env_limit) at h))
      | inr (value, p) ↦ bounded_bounds value hard_max n (rw (p, env_limit) at h)
    ]

pub clear : {b : Bool} → not b ≡ true → b ≡ false
clear {b} h = ground arith

pub check-eq-ok :
    (test : Bool) (x : Exc) (why : String) (u : Unit {0}) → check test x why ≡ ok u → test ≡ true
check-eq-ok test x why u h = ground arith

pub size_of-eq-ok : (size : ℤ) (n : ℕ) → size_of size ≡ ok n → size ≡ pos n
size_of-eq-ok (pos m) n h = cc
size_of-eq-ok (negsuc m) n h = absurd (cc)
