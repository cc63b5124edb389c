-- ===== src/Archive/Tests.antt =====
-- Archives at which the validators' theorems apply.
use chromium_compile.Prelude.{
  ◌*◌, ◌≤◌, String, true, false, ◌≡◌, refl, [], ◌∷◌, ◌==◌, Option, none, some, length, keep_if, mem,
  insert, diff, if◌then◌else◌,
}
use chromium_compile.Result.{ok, raise, value_error}
use chromium_compile.Json.{concat, show}
use chromium_compile.Text.Digits.{all_chars, size, is_ascii_digit}
use chromium_compile.Text.Version.{split}
use chromium_compile.Text.Paths.{normpath, dirname, join, parts, is_absolute, starts_slash}
use chromium_compile.Archive.{
  ℤ, pos, Kind, regular, directory, symlink, hardlink, Member, Archive, Stats, Environ, env_limit,
}
use chromium_compile.Archive.Checkpoint.{
  gib, is_root, validate_root, is_clean, is_inside, link_path, normalise_member, normalise_link,
  limits, file_member, scan_member, scan_all, validate_checkpoint,
}
use chromium_compile.Archive.Checkpoint.Inside.{Reaches, normalise_link_iff}
use chromium_compile.Archive.Checkpoint.Scanning.{total_bytes}
use chromium_compile.Archive.Checkpoint.Laws.{IsSafe}
use chromium_compile.Archive.Checkpoint.Complete.{
  validate_checkpoint_iff, validate_checkpoint_bounds,
}

checking : Unit {0}
unfolding keep_if mem insert diff concat show all_chars size is_ascii_digit split normpath dirname
    join parts is_absolute starts_slash env_limit is_root validate_root is_clean is_inside
    normalise_member normalise_link limits file_member scan_member scan_all validate_checkpoint
checking = tt

abbrev member : String → Kind → String → Member
member name kind link = record {
  name = name;
  kind = kind;
  size = pos 10;
  linkname = link;
  mode = 0o755;
}

-- `int` knows the numerals of the defaults.
abbrev numeral : String → Option ℤ
numeral raw =
    if raw == "40" then some (pos 40) else if raw == "2000000" then some (pos 2000000) else none

abbrev e : Environ
e = record { get = λ name. none; to_int = numeral }

abbrev checkpoint : Archive
checkpoint = record {
  members =
      member "Release_x86/" directory ""
      ∷ member "Release_x86/build.ninja" regular ""
      ∷ member "./Release_x86/args.gn" regular ""
      ∷ member "Release_x86/gen/link" symlink "../build.ninja"
      ∷ member "Release_x86/hard" hardlink "Release_x86/args.gn"
      ∷ [];
  ending = ok tt;
}

abbrev stats : Stats
stats = record { member_count = 5; unpacked_bytes = 50 }

accepted_run : validate_checkpoint e "Release_x86" checkpoint 0 ≡ ok stats
unfolding checking
accepted_run = refl

escaping_run :
    normalise_link "Release_x86" true "Release_x86/gen/link" "../../../Release_x86/args.gn"
    ≡ raise value_error "Checkpoint link escapes"
unfolding checking
escaping_run = refl

validate_checkpoint_iff_example : IsSafe e "Release_x86" checkpoint 0 stats
validate_checkpoint_iff_example =
    (validate_checkpoint_iff e "Release_x86" checkpoint 0 stats).0 accepted_run

validate_checkpoint_bounds_example :
    (length checkpoint.members ≤ 4000000) × (total_bytes checkpoint.members ≤ 80 * gib)
validate_checkpoint_bounds_example =
    validate_checkpoint_bounds e "Release_x86" checkpoint 0 stats accepted_run

link_run :
    normalise_link "Release_x86" true "Release_x86/gen/link" "../build.ninja"
    ≡ ok "Release_x86/build.ninja"
unfolding checking
link_run = refl

normalise_link_iff_example :
    (validate_root "Release_x86" ≡ ok "Release_x86")
    × (is_clean "../build.ninja" ≡ true)
    × (is_absolute "../build.ninja" ≡ false)
    × Reaches "Release_x86"
        (link_path true "Release_x86/gen/link" "../build.ninja")
        "Release_x86/build.ninja"
unfolding checking
normalise_link_iff_example =
    (normalise_link_iff "Release_x86" true "Release_x86/gen/link" "../build.ninja"
        "Release_x86/build.ninja" refl).0
      link_run
