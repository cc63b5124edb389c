-- ===== src/Text/Paths.antt =====
-- Python's `posixpath` (normpath, dirname, join) and what the scripts use of `PurePosixPath`.
pub mod Walk
pub mod Parts
pub mod Relative
use Prim.Native.String
use chromium_compile.Prelude.{
  ℕ, suc, String, code, Bool, true, false, not, ◌&&◌, ◌||◌, ◌≡◌, refl, List, [], ◌∷◌, ◌==◌, eqb,
  is_empty, keep_if, if◌then◌else◌,
}
use chromium_compile.Text.Version.{split}

-- `path.startswith("/")`, `path.endswith("/")`
unfoldable pub starts_slash : String → Bool
starts_slash String.[] = false
starts_slash (String.◌∷◌ c s) = eqb (code c) b'/'

unfoldable pub ends_slash : String → Bool
ends_slash String.[] = false
ends_slash (String.◌∷◌ c s) = if s == "" then eqb (code c) b'/' else ends_slash s

-- The number of slashes at the head, and the root that POSIX reads there: two slashes are kept, and
-- three are one.
abbrev slashes : String → ℕ
slashes String.[] = 0
slashes (String.◌∷◌ c s) = if eqb (code c) b'/' then suc (slashes s) else 0

unfoldable pub root_of : String → String
root_of s = if eqb (slashes s) 0 then "" else if eqb (slashes s) 2 then "//" else "/"

-- `"/".join(parts)`
abbrev pub tail_text : List String → String
tail_text [] = ""
tail_text (x ∷ xs) = String.◌++◌ (String.◌++◌ "/" x) (tail_text xs)

unfoldable pub slashed : List String → String
slashed [] = ""
slashed (x ∷ xs) = String.◌++◌ x (tail_text xs)

-- A component that names something
abbrev pub is_real : String → Bool
is_real comp = not (comp == "" || comp == ".")

abbrev pub top_is_dots : List String → Bool
top_is_dots [] = false
top_is_dots (x ∷ _) = x == ".."

abbrev pub drop_top : List String → List String
drop_top [] = []
drop_top (_ ∷ xs) = xs

-- One round of the loop of `normpath`; the list of components is kept with its last one first.
unfoldable pub push_comp : Bool → List String → String → List String
push_comp rooted stack comp =
    if not (is_real comp)
    then stack
    else if not (comp == "..") || ((not rooted && is_empty stack) || top_is_dots stack)
    then comp ∷ stack
    else drop_top stack

unfoldable pub norm_stack : Bool → List String → List String → List String
unfolding push_comp
norm_stack rooted stack [] = stack
norm_stack rooted stack (c ∷ cs) = norm_stack rooted (push_comp rooted stack c) cs

abbrev pub reverse_onto : List String → List String → List String
reverse_onto [] acc = acc
reverse_onto (x ∷ xs) acc = reverse_onto xs (x ∷ acc)

abbrev pub or_dot : String → String
or_dot text = if text == "" then "." else text

-- `posixpath.normpath(path)`
unfoldable pub normpath : String → String
unfolding norm_stack root_of slashed split starts_slash
normpath path =
    if path == ""
    then "."
    else or_dot (
        String.◌++◌ (root_of path)
          (slashed (reverse_onto (norm_stack (starts_slash path) [] (split b'/' path)) [])))

-- `path.rstrip("/")`
unfoldable pub rstrip_slash : String → String
rstrip_slash String.[] = String.[]
rstrip_slash (String.◌∷◌ c s) =
    let rest = rstrip_slash s in
    if rest == "" && eqb (code c) b'/' then String.[] else String.◌∷◌ c rest

-- `path[: path.rfind("/") + 1]`
abbrev pub head_part : String → String
head_part String.[] = String.[]
head_part (String.◌∷◌ c s) =
    let rest = head_part s in
    if rest == "" && not (eqb (code c) b'/') then String.[] else String.◌∷◌ c rest

-- `posixpath.dirname(path)`; a head of slashes alone stays.
unfoldable pub dirname : String → String
unfolding rstrip_slash
dirname path =
    let head = head_part path in
    let short = rstrip_slash head in if short == "" then head else short

-- `posixpath.join(base, path)`
unfoldable pub join : String → String → String
unfolding starts_slash ends_slash
join base path =
    if starts_slash path
    then path
    else if base == "" || ends_slash base
    then String.◌++◌ base path
    else String.◌++◌ (String.◌++◌ base "/") path

-- `PurePosixPath(path).is_absolute()`, `.parts`, `.as_posix()`
unfoldable pub is_absolute : String → Bool
unfolding starts_slash
is_absolute path = starts_slash path

unfoldable pub tail_parts : String → List String
unfolding keep_if split
tail_parts path = keep_if is_real (split b'/' path)

unfoldable pub parts : String → List String
unfolding root_of tail_parts
parts path = if starts_slash path then root_of path ∷ tail_parts path else tail_parts path

unfoldable pub as_posix : String → String
unfolding root_of tail_parts slashed
as_posix path = or_dot (String.◌++◌ (root_of path) (slashed (tail_parts path)))

normpath_test : normpath "a/./b//../c/" ≡ "a/c"
unfolding normpath
normpath_test = refl

normpath_above : normpath "a/../../b" ≡ "../b"
unfolding normpath
normpath_above = refl

normpath_rooted : normpath "//../x" ≡ "//x"
unfolding normpath
normpath_rooted = refl

dirname_test : dirname "a/b//c" ≡ "a/b"
unfolding dirname
dirname_test = refl

as_posix_test : as_posix "./a//b/." ≡ "a/b"
unfolding as_posix
as_posix_test = refl

parts_test : parts "/a/b" ≡ "/" ∷ "a" ∷ "b" ∷ []
unfolding parts starts_slash
parts_test = refl
