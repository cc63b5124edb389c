-- ===== src/Text/Strip.antt =====
-- `str.strip`, `str.lower`, `str.replace` of a character, and the hexadecimal commit names.
use Prim.Native.String
use Prim.Native.Char.{code}
use chromium_compile.Prelude.{ℕ, String, Bool, ◌&&◌, ◌==◌, ◌≡◌, refl, eqb, if◌then◌else◌}
use chromium_compile.Text.Digits.{is_hex, is_lower_hex, all_chars, size}
use chromium_compile.Text.Search.{is_space, skip_spaces}

rstrip : String → String
unfolding is_space
rstrip String.[] = String.[]
rstrip (String.◌∷◌ c s) =
    let rest = rstrip s in if rest == "" && is_space (code c) then String.[] else String.◌∷◌ c rest

-- `s.strip()`
unfoldable pub strip : String → String
unfolding rstrip skip_spaces
strip s = rstrip (skip_spaces s)

-- `s.replace(c, text)` for a character c
unfoldable pub replace_char : ℕ → String → String → String
replace_char c text String.[] = String.[]
replace_char c text (String.◌∷◌ d s) =
    let rest = replace_char c text s in
    if eqb (code d) c then String.◌++◌ text rest else String.◌∷◌ d rest

-- The lower case of a letter that a commit name may hold. `s.lower()` changes other characters too;
-- the scripts only compare its result with a commit name, and no other character has a lower case
-- among the hexadecimal digits.
lower_char : ℕ → String → String
lower_char c text =
    if eqb c b'A'
    then "a"
    else if eqb c b'B'
    then "b"
    else if eqb c b'C'
    then "c"
    else if eqb c b'D'
    then "d"
    else if eqb c b'E'
    then "e"
    else if eqb c b'F'
    then "f"
    else text

unfoldable pub lower_hex : String → String
unfolding lower_char
lower_hex String.[] = String.[]
lower_hex (String.◌∷◌ c s) =
    String.◌++◌ (lower_char (code c) (String.◌∷◌ c String.[])) (lower_hex s)

-- `^[0-9a-fA-F]{40}$` and `^[0-9a-f]{40}$`
unfoldable pub is_sha : String → Bool
unfolding all_chars size is_hex
is_sha s = all_chars is_hex s && eqb (size s) 40

unfoldable pub is_lower_sha : String → Bool
unfolding all_chars size is_lower_hex
is_lower_sha s = all_chars is_lower_hex s && eqb (size s) 40

strip_test : strip "  a b\n" ≡ "a b"
unfolding strip
strip_test = refl

replace_test : replace_char b'Z' "+00:00" "2026-01-02T03:04:05Z" ≡ "2026-01-02T03:04:05+00:00"
unfolding replace_char
replace_test = refl
