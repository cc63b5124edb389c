-- ===== src/Text/Lines.antt =====
-- `str.splitlines`, `str.split` with a count of one, and the length of a text in UTF-8.
use Prim.Native.String
use chromium_compile.Prelude.{
  ℕ, ◌+◌, String, code, Option, none, some, Bool, false, ◌≡◌, refl, ◌||◌, ◌&&◌, eqb, ltb, leb,
  if◌then◌else◌, List, [], ◌∷◌,
}

-- The characters that end a line
unfoldable pub is_line_end : ℕ → Bool
is_line_end c =
    (leb 0xa c && leb c 0xd)
    || (leb 0x1c c && leb c 0x1e)
    || eqb c 0x85
    || eqb c 0x2028
    || eqb c 0x2029

abbrev push_char : String → List String → List String
push_char c [] = c ∷ []
push_char c (line ∷ lines) = String.◌++◌ c line ∷ lines

-- The lines of a text; `\r\n` is one end, and after `\r` (where `after_return` is set) a `\n` is
-- passed over.
lines_from : Bool → String → List String
unfolding is_line_end
lines_from after_return String.[] = []
lines_from after_return (String.◌∷◌ c s) =
    let next_line = lines_from (eqb (code c) 0xd) s in
    let same_line = lines_from false s in
    if after_return && eqb (code c) 0xa
    then same_line
    else if is_line_end (code c)
    then "" ∷ next_line
    else push_char (String.◌∷◌ c String.[]) same_line

-- `s.splitlines()`
unfoldable pub splitlines : String → List String
unfolding lines_from
splitlines s = lines_from false s

-- `s.split(sep, 1)` for a separator of one character, where the separator occurs
unfoldable pub split_once : ℕ → String → Option (String × String)
split_once sep String.[] = none
split_once sep (String.◌∷◌ c s) =
    let rest = split_once sep s in
    if eqb (code c) sep
    then some ("", s)
    else elim rest [ none ↦ none | some (head, tail) ↦ some (String.◌∷◌ c head, tail) ]

-- `len(s.encode("utf-8"))`
unfoldable pub utf8_size : String → ℕ
utf8_size String.[] = 0
utf8_size (String.◌∷◌ c s) =
    let rest = utf8_size s in
    (if ltb (code c) 0x80
      then 1
      else if ltb (code c) 0x800
      then 2
      else if ltb (code c) 0x10000
      then 3
      else 4)
    + rest

lines_test : splitlines "a=1\r\n\nb" ≡ "a=1" ∷ "" ∷ "b" ∷ []
unfolding splitlines
lines_test = refl
