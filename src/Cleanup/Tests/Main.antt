-- ===== src/Cleanup/Tests/Main.antt =====
-- A run of the whole command.
use chromium_compile.Prelude.{
  ◌↔◌, String, true, ◌≡◌, refl, some, List, [], ◌∷◌, ◌++◌, keep_if, mem, ◌==◌, if◌then◌else◌,
}
use chromium_compile.Result.{raise, cleanup_error}
use chromium_compile.Json.{get, get_str, concat, show, truthy, py_str, objects}
use chromium_compile.Host.{State, Ended, outside, ◌>>=◌}
use chromium_compile.Host.Canned.{out, start}
use chromium_compile.Text.Digits.{all_chars, some_chars}
use chromium_compile.Text.Lines.{splitlines, split_once}
use chromium_compile.Text.Pattern.{is_run_id, drop_prefix, span}
use chromium_compile.Text.Strip.{strip, lower_hex}
use chromium_compile.Text.Title.{before_at}
use chromium_compile.Watcher.Manifest.{find}
use chromium_compile.Cleanup.{parse_github_timestamp, read_object}
use chromium_compile.Cleanup.Release.{same_identity, read_release_identity}
use chromium_compile.Cleanup.Workflow.{
  is_among, normalized_workflow_path, check_publish_run, select_jobs, check_steps, check_jobs,
  verify_release_workflow_proof,
}
use chromium_compile.Cleanup.Bytes.{
  Files, checksum_line, check_checksum, parse_release_manifest, check_fields,
  run_release_archive_validator, fetch_file, compare_file, download_asset, required_bytes,
  cross_check, verify_release_archive_bytes,
}
use chromium_compile.Cleanup.Bytes.Checksum.{print_line, IsEntry, checksum_line_iff}
use chromium_compile.Cleanup.Main.{Cleaned, prepare_release_cleanup_proof, cleanup_main}
use chromium_compile.Cleanup.Tests.{cleaning, sha, target, h, times, one, cached}

whole : Unit {0}
unfolding cleaning get get_str concat show truthy py_str objects keep_if mem outside ◌>>=◌ all_chars
    some_chars splitlines split_once is_run_id drop_prefix span strip lower_hex before_at find
    parse_github_timestamp read_object same_identity read_release_identity is_among
    normalized_workflow_path check_publish_run select_jobs check_steps check_jobs
    verify_release_workflow_proof checksum_line check_checksum parse_release_manifest check_fields
    run_release_archive_validator fetch_file compare_file download_asset required_bytes cross_check
    verify_release_archive_bytes prepare_release_cleanup_proof cleanup_main
whole = tt

abbrev sum : String
sum = "aaaaaaaaaaaaaaaabbbbbbbbbbbbbbbbccccccccccccccccdddddddddddddddd"

abbrev manifest : String
manifest = concat (
    "manifest_schema=2\nversion=155.0.1.2\ntarget_cpu=x86\ntarget_os=linux\npackage_sha256=" ∷ sum
    ∷ "\ngithub_sha=" ∷ sha ∷ "\npackaged_files:\nchrome\n" ∷ [])

abbrev sidecar : String → String
sidecar name = concat (sum ∷ "  " ∷ name ∷ "\n" ∷ [])

abbrev files : String → Files (List Ended)
files name = record {
  root = "/t";
  free = λ w. 1000;
  is_regular = λ path w. true;
  size_of = λ path w. 9;
  digest_of = λ path w. sum;
  read_text = λ path w. some (if path == "/t/release-manifest.txt" then manifest else sidecar name);
  validator = λ path w. (out "", w);
}

abbrev good : Files (List Ended)
good = files "chromium-155.0.1.2-linux-i686.tar.xz"

abbrev reading : List Ended
reading = out "{r}" ∷ out sha ∷ []

abbrev proving : List Ended
proving = reading ++ (reading ++ (times 3 (out "") ++ (out "{p}" ∷ out "{j}" ∷ reading)))

abbrev proof_start : State (List Ended)
proof_start = start proving

abbrev all_start : State (List Ended)
all_start = start (proving ++ (one.world ++ cached.world))

abbrev cleaned : Cleaned
cleaned = record {
  results = "deleted:77" ∷ [];
  total_bytes = 5;
  cache_results = "deleted-cache:88:key=chromium-src-v3-155.0.1.2" ∷ [];
  cache_bytes = 6;
}

-- Without the id of a run nothing is deleted.
no_id_run :
    (cleanup_main h good target "" true all_start).0
    ≡ raise cleanup_error "--apply requires a trusted release workflow run ID"
unfolding whole
no_id_run = refl

-- The sidecar names another file.
other_name_run :
    (prepare_release_cleanup_proof h (files "other.tar.xz") target "7" true proof_start).0
    ≡ raise cleanup_error "does not name exactly the expected package"
unfolding whole
other_name_run = refl

checksum_line_iff_example :
    (checksum_line (print_line sum "a.xz") ≡ some (sum, "a.xz"))
    ↔ ((print_line sum "a.xz" ≡ print_line sum "a.xz") × IsEntry sum "a.xz")
checksum_line_iff_example = checksum_line_iff (print_line sum "a.xz") sum "a.xz"

checksum_line_read : checksum_line (print_line sum "a.xz") ≡ some (sum, "a.xz")
unfolding whole
checksum_line_read = refl
