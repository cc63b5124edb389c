-- ===== src/Recovery/Tests.antt =====
-- Runs of the recovery policy, and an instance of its theorem.
use chromium_compile.Prelude.{◌≡◌, refl, ◌↔◌}
use chromium_compile.Result.{ok, raise, recovery_error}
use chromium_compile.Text.Version.{is_ascii_version}
use chromium_compile.Recovery.{bounded_int, next_retry}
use chromium_compile.Recovery.Budget.{IsGranted, next_retry_iff}

granted_test : next_retry "150.0.7871.186" "7" "1" "2" ≡ ok 2
unfolding next_retry bounded_int is_ascii_version
granted_test = refl

exhausted_test :
    next_retry "150.0.7871.186" "7" "2" "2"
    ≡ raise recovery_error "fresh-runner recovery budget exhausted"
unfolding next_retry bounded_int is_ascii_version
exhausted_test = refl

leading_zero_test :
    next_retry "150.0.7871.186" "07" "0" "2"
    ≡ raise recovery_error "must be a short non-negative integer"
unfolding next_retry bounded_int is_ascii_version
leading_zero_test = refl

next_retry_iff_example :
    (next_retry "150.0.7871.186" "7" "1" "2" ≡ ok 2) ↔ IsGranted "150.0.7871.186" "7" "1" "2" 2
next_retry_iff_example = next_retry_iff "150.0.7871.186" "7" "1" "2" 2
