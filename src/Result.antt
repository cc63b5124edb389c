-- ===== src/Result.antt =====
-- Exceptions as values. A raise keeps the exception's class, by which the scripts catch it, and the
-- fixed part of its message.
use chromium_compile.Prelude.{String, ◌≡◌, ◌⊎◌, inl, inr, refl, Bool, true, false}

-- `value_error`, `os_error`, `assertion_error`, `type_error` and `key_error` are Python's; the others
-- are the scripts'.
-- (RecoveryPolicyError and SourceObjectNotFound are subclasses of ValueError, IssueStateError of
-- IssueError.)
pub data Exc : Type 0 where
  value_error recovery_error watcher_error dispatch_error : Exc
  watchdog_error prune_error handoff_error tag_error immutable_error issue_error : Exc
  issue_state_error release_state_error source_not_found : Exc
  os_error assertion_error type_error key_error cleanup_error : Exc

-- What a call gives: the exception with its message, or the value it returns
pub data Result {ℓ} (A : Type ℓ) : Type ℓ where
  raise : Exc → String → Result A
  ok : A → Result A

module _ {ℓ κ} {A : Type ℓ} {B : Type κ} where
  -- An exception ends the block, and a value is passed on.
  abbrev pub and_then : Result A → (A → Result B) → Result B
  and_then (raise x why) next = raise x why
  and_then (ok value) next = next value

  -- A function of the value alone
  abbrev pub map_ok : (A → B) → Result A → Result B
  map_ok g (raise x why) = raise x why
  map_ok g (ok value) = ok (g value)

  infixl 5 ◌>>=◌
  abbrev pub ◌>>=◌ : Result A → (A → Result B) → Result B
  step >>= next = and_then step next

module _ {κ} {B : Type κ} where
  infixl 5 ◌>>◌
  abbrev pub ◌>>◌ : Result (Unit {0}) → Result B → Result B
  test >> rest = and_then test (λ _. rest)

-- `if not test: raise x(why)`
abbrev pub check : Bool → Exc → String → Result (Unit {0})
check test x why = elim test [ true ↦ ok tt | false ↦ raise x why ]

pub raise-ne-ok {ℓ} : {A : Type ℓ} (x : Exc) (why : String) (a : A) → raise x why ≡ ok a → ⊥
raise-ne-ok x why a e = cc

pub ok-injective {ℓ} : {A : Type ℓ} (a b : A) → ok a ≡ ok b → a ≡ b
ok-injective a b h = cc

module _ {ℓ κ} {A : Type ℓ} {B : Type κ} where
  -- A block that returned had a first step that returned.
  pub and_then-eq-ok :
      (r : Result A) (next : A → Result B) (b : B)
      → and_then r next ≡ ok b
      → (a : A) × (r ≡ ok a) × (next a ≡ ok b)
  and_then-eq-ok (raise x why) next b returned = absurd (cc)
  and_then-eq-ok (ok value) next b returned = (value, refl, returned)

  pub map_ok-eq-ok :
      (g : A → B) (r : Result A) (b : B) → map_ok g r ≡ ok b → (a : A) × (r ≡ ok a) × (g a ≡ b)
  map_ok-eq-ok g (raise x why) b returned = absurd (cc)
  map_ok-eq-ok g (ok value) b returned = (value, refl, ok-injective (g value) b returned)

pub Result-cases {ℓ} :
    {A : Type ℓ} (r : Result A)
    → ((a : A) × (r ≡ ok a)) ⊎ ((x : Exc) × (why : String) × (r ≡ raise x why))
Result-cases (raise x why) = inr (x, why, refl)
Result-cases (ok value) = inl (value, refl)
