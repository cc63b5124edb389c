-- ===== src/Text/Version.antt =====
-- Chromium version numbers: the expression that each script calls VERSION_RE, and `version_key`.
pub mod Order
pub mod Sorting
use Prim.Native.String
use chromium_compile.Prelude.{
  ℕ, String, code, Bool, true, false, ◌≡◌, refl, ◌&&◌, not, List, [], ◌∷◌, arith, ltb, eqb,
  if◌then◌else◌,
}
use chromium_compile.Result.{Result, ok, raise, value_error, ◌>>=◌}
use chromium_compile.Text.Digits.{is_ascii_digit, is_digit, some_chars, int_of}

abbrev pub push_char : String → List String → List String
push_char c [] = c ∷ []
push_char c (part ∷ parts) = String.◌++◌ c part ∷ parts

-- `s.split(sep)` for a separator of one character
unfoldable pub split : ℕ → String → List String
split sep String.[] = "" ∷ []
split sep (String.◌∷◌ c s) =
    let rest = split sep s in
    if eqb (code c) sep then "" ∷ rest else push_char (String.◌∷◌ c String.[]) rest

four_parts : (String → Bool) → List String → Bool
four_parts p (a ∷ b ∷ c ∷ d ∷ []) = p a && p b && p c && p d
four_parts p _ = false

-- `^\d+\.\d+\.\d+\.\d+$` against a whole text. No class holds the dot, so the text's parts between
-- dots are what the four groups match.
unfoldable pub is_version : String → Bool
unfolding four_parts split some_chars is_digit
is_version s = four_parts (some_chars is_digit) (split b'.' s)

-- `^[0-9]+\.[0-9]+\.[0-9]+\.[0-9]+$`
unfoldable pub is_ascii_version : String → Bool
unfolding four_parts split some_chars is_ascii_digit
is_ascii_version s = four_parts (some_chars is_ascii_digit) (split b'.' s)

-- The four numbers of a version, compared as a tuple
pub record Key : Type 0 where
  pub major : ℕ
  pub minor : ℕ
  pub build : ℕ
  pub patch : ℕ

key_of_parts : List String → Result Key
key_of_parts (a ∷ b ∷ c ∷ d ∷ []) =
    ok (record { major = int_of a; minor = int_of b; build = int_of c; patch = int_of d })
key_of_parts _ = raise value_error "Invalid Chromium version"

unfoldable pub version_key : String → Result Key
unfolding is_version key_of_parts int_of
version_key version =
    if is_version version
    then key_of_parts (split b'.' version)
    else raise value_error "Invalid Chromium version"

-- `k < l` for tuples of four numbers
unfoldable pub key_ltb : Key → Key → Bool
key_ltb k l =
    if eqb k.major l.major
    then if eqb k.minor l.minor
      then if eqb k.build l.build then ltb k.patch l.patch else ltb k.build l.build
      else ltb k.minor l.minor
    else ltb k.major l.major

unfoldable pub key_leb : Key → Key → Bool
unfolding key_ltb
key_leb k l = not (key_ltb l k)

key_test :
    version_key "150.0.7871.186" ≡ ok (record { major = 150; minor = 0; build = 7871; patch = 186 })
unfolding version_key
key_test = refl

key_test_error : version_key "150.0..186" ≡ raise value_error "Invalid Chromium version"
unfolding version_key
key_test_error = refl
