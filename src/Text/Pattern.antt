-- ===== src/Text/Pattern.antt =====
-- Parts of the scripts' regular expressions that stand inside a longer text: a literal, and a version
-- number `\d+\.\d+\.\d+\.\d+`. A greedy run of digits ends at the first other character, so a match
-- is found without a second try.
pub mod Laws
use chromium_compile.Prelude.{
  ℕ, zero, suc, String, code, List, [], ◌∷◌, Option, none, some, Bool, false, ◌≡◌, refl, eqb, ◌==◌,
  ◌&&◌, ◌||◌, leb, if◌then◌else◌,
}
use chromium_compile.Json.{concat}
use chromium_compile.Text.Digits.{
  is_digit, is_ascii_digit, is_lower_hex, all_chars, some_chars, size,
}
use chromium_compile.Text.Version.{split}

-- What follows a literal
unfoldable pub drop_prefix : String → String → Option String
drop_prefix String.[] s = some s
drop_prefix (String.◌∷◌ p ps) String.[] = none
drop_prefix (String.◌∷◌ p ps) (String.◌∷◌ c s) =
    let rest = drop_prefix ps s in if eqb (code p) (code c) then rest else none

-- The longest head of characters of a class, and what follows it
unfoldable pub span : (ℕ → Bool) → String → String × String
span p String.[] = (String.[], String.[])
span p (String.◌∷◌ c s) =
    let (head, rest) = span p s in
    if p (code c) then (String.◌∷◌ c head, rest) else (String.[], String.◌∷◌ c s)

-- A sequence of runs of a class with dots between them, and what follows it
unfoldable pub dotted : (ℕ → Bool) → ℕ → String → Option (String × String)
unfolding span drop_prefix
dotted p zero s =
    let (digits, rest) = span p s in if digits == "" then none else some (digits, rest)
dotted p (suc dots) s =
    let (digits, rest) = span p s in
    if digits == "" then none else elim (drop_prefix "." rest) [
      | none ↦ none
      | some rest' ↦ elim (dotted p dots rest') [
        | none ↦ none
        | some (version, rest'') ↦ some (concat (digits ∷ "." ∷ version ∷ []), rest'')
      ]
    ]

-- `prefix(\d+\.\d+\.\d+\.\d+)suffix` against a whole text, with the group's text
unfoldable pub framed : (ℕ → Bool) → String → String → String → Option String
unfolding dotted
framed p prefix suffix s = elim (drop_prefix prefix s) [
  | none ↦ none
  | some rest ↦ elim (dotted p 3 rest) [
    | none ↦ none
    | some (version, rest') ↦ if rest' == suffix then some version else none
  ]
]

-- `sha256:[0-9a-f]{64}`
unfoldable pub is_digest : String → Bool
unfolding drop_prefix all_chars size is_lower_hex
is_digest s = elim (drop_prefix "sha256:" s) [
  | none ↦ false
  | some digits ↦ all_chars is_lower_hex digits && eqb (size digits) 64
]

-- `[A-Za-z0-9_.-]`
abbrev pub is_name_char : ℕ → Bool
is_name_char c =
    is_ascii_digit c
    || (leb b'a' c && leb c b'z')
    || (leb b'A' c && leb c b'Z')
    || eqb c b'_'
    || eqb c b'.'
    || eqb c b'-'

abbrev two_names : List String → Bool
two_names (owner ∷ name ∷ []) = some_chars is_name_char owner && some_chars is_name_char name
two_names _ = false

-- `^[A-Za-z0-9_.-]+/[A-Za-z0-9_.-]+$`
unfoldable pub is_repository : String → Bool
unfolding some_chars split is_ascii_digit
is_repository s = two_names (split b'/' s)

-- `^[A-Za-z0-9._-]{1,200}$`
unfoldable pub is_tag : String → Bool
unfolding some_chars size is_ascii_digit
is_tag s = some_chars is_name_char s && leb (size s) 200

-- `^[1-9][0-9]{0,19}$`
unfoldable pub is_run_id : String → Bool
unfolding all_chars size is_ascii_digit
is_run_id String.[] = false
is_run_id (String.◌∷◌ c s) =
    (leb b'1' (code c) && leb (code c) b'9') && (all_chars is_ascii_digit s && leb (size s) 19)

framed_test :
    framed is_digit "chromium-" "-linux-i686" "chromium-150.0.7871.186-linux-i686"
    ≡ some "150.0.7871.186"
unfolding framed dotted span is_digit concat drop_prefix
framed_test = refl

framed_other : framed is_digit "chromium-" "-linux-i686" "chromium-150.0.7871-linux-i686" ≡ none
unfolding framed dotted span is_digit concat drop_prefix
framed_other = refl
