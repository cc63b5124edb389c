-- ===== src/Archive/Checkpoint.antt =====
-- scripts/validate_checkpoint_archive.py: what a checkpoint archive may hold before it is extracted.
pub mod Inside
pub mod Scanning
pub mod Laws
pub mod Complete
use chromium_compile.Prelude.{
  ℕ, ◌+◌, ◌*◌, ◌^◌, String, code, Bool, true, false, not, ◌&&◌, ◌||◌, Option, none, some, List, [],
  ◌∷◌, ◌++◌, ◌==◌, leb, eqb, mem, insert, diff, is_empty, if◌then◌else◌,
}
use chromium_compile.Result.{Result, raise, ok, value_error, check, map_ok, ◌>>=◌, ◌>>◌}
use chromium_compile.Json.{concat}
use chromium_compile.Text.Digits.{all_chars, size, is_ascii_digit}
use chromium_compile.Text.Pattern.{is_name_char}
use chromium_compile.Text.Paths.{normpath, dirname, join, parts, is_absolute}
use chromium_compile.Archive.{
  Kind, regular, directory, symlink, hardlink, special, Member, Archive, Stats, Environ, env_limit,
  size_of,
}

-- `ROOT_RE`
unfoldable pub is_root : String → Bool
unfolding all_chars size is_ascii_digit
is_root String.[] = false
is_root (String.◌∷◌ c s) =
    (is_ascii_digit (code c)
      || (leb b'a' (code c) && leb (code c) b'z')
      || (leb b'A' (code c) && leb (code c) b'Z'))
    && (all_chars is_name_char s && leb (size s) 63)

unfoldable pub validate_root : String → Result String
unfolding is_root
validate_root root =
    if is_root root && not (root == "." || root == "..")
    then ok root
    else raise value_error "Unsafe checkpoint root"

-- `not text or "\x00" in text or "\\" in text`, negated
unfoldable pub is_clean : String → Bool
unfolding all_chars
is_clean text = not (text == "") && all_chars (λ c. not (eqb c 0 || eqb c b'\\')) text

abbrev pub begins_with : String → List String → Bool
begins_with root [] = false
begins_with root (p ∷ _) = p == root

-- `not parts or parts[0] != root or ".." in parts`, negated
unfoldable pub is_inside : String → List String → Bool
unfolding mem
is_inside root ps = begins_with root ps && not (mem ".." ps)

unfoldable pub normalise_member : String → String → Result String
normalise_member root name = do
  root' ← validate_root root
  check (is_clean name) value_error "Unsafe checkpoint member name"
  check (not (is_absolute name)) value_error "Absolute checkpoint member path"
  check (not (normpath name == "." || normpath name == "")) value_error
      "Empty checkpoint member path"
  check (is_inside root' (parts (normpath name))) value_error "Checkpoint member escapes"
  ok (normpath name)

-- The path that a link names: a symbolic link is read from its own directory.
abbrev pub link_path : Bool → String → String → String
link_path is_symlink member link = join (if is_symlink then dirname member else "") link

unfoldable pub normalise_link : String → Bool → String → String → Result String
normalise_link root is_symlink member link = do
  root' ← validate_root root
  check (is_clean link) value_error "Unsafe checkpoint link target"
  check (not (is_absolute link)) value_error "Absolute checkpoint link target"
  check (is_inside root' (parts (normpath (link_path is_symlink member link)))) value_error
      "Checkpoint link escapes"
  ok (normpath (link_path is_symlink member link))

pub record Limits : Type 0 where
  pub max_unpacked : ℕ
  pub max_members : ℕ

abbrev pub gib : ℕ
gib = 1073741824

abbrev pub bytes_limit : Environ → Option String → Result ℕ
bytes_limit e (some _) =
    env_limit e "CHROMIUM_I686_MAX_CHECKPOINT_UNPACKED_BYTES" (40 * gib) (80 * gib)
bytes_limit e none =
    map_ok (λ n. n * gib) (env_limit e "CHROMIUM_I686_MAX_CHECKPOINT_UNPACKED_GIB" 40 80)

unfoldable pub limits : Environ → Result Limits
limits e = do
  max_unpacked ← bytes_limit e (e.get "CHROMIUM_I686_MAX_CHECKPOINT_UNPACKED_BYTES")
  max_members ← env_limit e "CHROMIUM_I686_MAX_CHECKPOINT_MEMBERS" 2000000 4000000
  ok (record { max_unpacked = max_unpacked; max_members = max_members })

-- The variables of the loop over the members; a link is its member's name and its target.
pub record Scan : Type 0 where
  pub seen : List String
  pub regular_names : List String
  pub links : List (String × String)
  pub unpacked_bytes : ℕ
  pub member_count : ℕ

abbrev pub empty_scan : Scan
empty_scan = record {
  seen = [];
  regular_names = [];
  links = [];
  unpacked_bytes = 0;
  member_count = 0;
}

abbrev add_link : Scan → String → String → Scan
add_link s name target = record s { links = s.links ++ (name, target) ∷ [] }

-- What the loop does by the kind of a member
unfoldable pub file_member : String → String → Kind → String → Scan → Result Scan
file_member root name regular link s = ok (record s { regular_names = insert name s.regular_names })
file_member root name directory link s = ok s
file_member root name symlink link s = map_ok (add_link s name) (normalise_link root true name link)
file_member root name hardlink link s =
    map_ok (add_link s name) (normalise_link root false name link)
file_member root name special link s = raise value_error "Unsupported special checkpoint member"

abbrev pub counted : Scan → String → ℕ → Scan
counted s name n = record s {
  seen = name ∷ s.seen;
  unpacked_bytes = s.unpacked_bytes + n;
  member_count = s.member_count + 1;
}

unfoldable pub scan_member : String → Limits → Member → Scan → Result Scan
scan_member root lim m s = do
  check (leb (s.member_count + 1) lim.max_members) value_error "exceeds configured member limit"
  n ← size_of m.size
  check (leb (s.unpacked_bytes + n) lim.max_unpacked) value_error "unpacked limit"
  name ← normalise_member root m.name
  check (not (mem name s.seen)) value_error "Duplicate checkpoint archive member"
  file_member root name m.kind m.linkname (counted s name n)

unfoldable pub scan_all : String → Limits → List Member → Scan → Result Scan
scan_all root lim [] s = ok s
scan_all root lim (m ∷ ms) s = scan_member root lim m s >>= scan_all root lim ms

abbrev pub resolve_links : List String → List (String × String) → Bool
resolve_links seen [] = true
resolve_links seen ((name, target) ∷ ls) = mem target seen && resolve_links seen ls

abbrev pub required_regular : String → List String
required_regular root = concat (root ∷ "/build.ninja" ∷ []) ∷ concat (root ∷ "/args.gn" ∷ []) ∷ []

-- `validate_checkpoint`, with the archive as `tarfile` reads it and the exit status of `zstd`
unfoldable pub validate_checkpoint : Environ → String → Archive → ℕ → Result Stats
validate_checkpoint e root archive status = do
  root' ← validate_root root
  lim ← limits e
  s ← scan_all root' lim archive.members empty_scan
  archive.ending
  check (eqb status 0) value_error "zstd failed while validating checkpoint archive"
  check (is_empty (diff (required_regular root') s.regular_names)) value_error
      "lacks required regular files"
  check (resolve_links s.seen s.links) value_error "Checkpoint link target is absent from archive"
  ok (record { member_count = s.member_count; unpacked_bytes = s.unpacked_bytes })
