-- ===== src/Recovery.antt =====
-- scripts/chromium_runner_recovery.py: how often a build is moved to a fresh runner.
pub mod Budget
mod Tests
use chromium_compile.Prelude.{
  ℕ, suc, ◌+◌, String, code, Bool, false, ◌&&◌, ◌||◌, ◌==◌, ltb, leb, eqb, if◌then◌else◌,
}
use Prim.Native.String
use chromium_compile.Result.{Result, ok, raise, recovery_error, ◌>>=◌, ◌>>◌, check}
use chromium_compile.Text.Digits.{is_ascii_digit, all_chars, size, int_of}
use chromium_compile.Text.Version.{is_ascii_version}

abbrev pub hard_max_stage : ℕ
hard_max_stage = 50

abbrev pub hard_max_retries : ℕ
hard_max_retries = 10

-- `[1-9]`
abbrev pub is_nonzero_digit : ℕ → Bool
is_nonzero_digit c = leb b'1' c && leb c b'9'

-- `^(0|[1-9][0-9]?)$`
unfoldable pub is_short_integer : String → Bool
unfolding all_chars size is_ascii_digit
is_short_integer String.[] = false
is_short_integer (String.◌∷◌ c s) =
    (eqb (code c) b'0' && s == "")
    || (is_nonzero_digit (code c) && (leb (size s) 1 && all_chars is_ascii_digit s))

unfoldable pub bounded_int : String → ℕ → ℕ → Result ℕ
unfolding is_short_integer int_of
bounded_int value maximum minimum = do
  check (is_short_integer value) recovery_error "must be a short non-negative integer"
  let parsed = int_of value
  if ltb parsed minimum || ltb maximum parsed
      then raise recovery_error "must be between"
      else ok parsed

unfoldable pub next_retry : String → String → String → String → Result ℕ
next_retry version stage retry_count max_retries = do
  check (is_ascii_version version) recovery_error "invalid Chromium version"
  bounded_stage ← bounded_int stage hard_max_stage 1
  current ← bounded_int retry_count hard_max_retries 0
  maximum ← bounded_int max_retries hard_max_retries 0
  if leb maximum current
      then raise recovery_error "fresh-runner recovery budget exhausted"
      else ok (current + 1)
