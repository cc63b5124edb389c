-- ===== src/Text/Search.antt =====
-- `re.search` for the message by which the GitHub CLI reports a missing resource, and white space.
use chromium_compile.Prelude.{
  ℕ, ◌+◌, String, code, Bool, true, false, ◌&&◌, ◌||◌, Option, none, some, ◌≡◌, refl, leb, eqb,
  if◌then◌else◌,
}

-- `\s` on a `str`
unfoldable pub is_space : ℕ → Bool
is_space c =
    (leb 0x9 c && leb c 0xd)
    || (leb 0x1c c && leb c 0x20)
    || eqb c 0x85
    || eqb c 0xa0
    || eqb c 0x1680
    || (leb 0x2000 c && leb c 0x200a)
    || eqb c 0x2028
    || eqb c 0x2029
    || eqb c 0x202f
    || eqb c 0x205f
    || eqb c 0x3000

-- The letters that `re.I` identifies, as far as the expressions here hold letters: the ASCII ones,
-- and the long s, which matches `s`.
fold_case : ℕ → ℕ
fold_case c = if leb b'A' c && leb c b'Z' then c + 32 else if eqb c 0x17f then b's' else c

-- What follows a literal, given in lower case
unfoldable pub after : String → String → Option String
unfolding fold_case
after String.[] s = some s
after (String.◌∷◌ p ps) String.[] = none
after (String.◌∷◌ p ps) (String.◌∷◌ c s) =
    let rest = after ps s in if eqb (fold_case (code c)) (code p) then rest else none

unfoldable pub skip_spaces : String → String
unfolding is_space
skip_spaces String.[] = String.[]
skip_spaces (String.◌∷◌ c s) =
    let rest = skip_spaces s in if is_space (code c) then rest else String.◌∷◌ c s

starts_with_space : String → Bool
starts_with_space String.[] = false
starts_with_space (String.◌∷◌ c s) = is_space (code c)

is_some : Option String → Bool
is_some none = false
is_some (some _) = true

-- `HTTP\s+404`, `status\s*404` and `Not Found\s*\(HTTP 404\)` at the head of a text
http_404 : String → Bool
unfolding after skip_spaces starts_with_space is_some
http_404 s = elim (after "http" s) [
  | none ↦ false
  | some r ↦ starts_with_space r && is_some (after "404" (skip_spaces r))
]

status_404 : String → Bool
unfolding after skip_spaces is_some
status_404 s = elim (after "status" s) [
  | none ↦ false
  | some r ↦ is_some (after "404" (skip_spaces r))
]

not_found_404 : String → Bool
unfolding after skip_spaces is_some
not_found_404 s = elim (after "not found" s) [
  | none ↦ false
  | some r ↦ is_some (after "(http 404)" (skip_spaces r))
]

-- `part in text.lower()`, for a part of lower-case ASCII letters without an s
unfoldable pub has_folded : String → String → Bool
unfolding after is_some
has_folded part String.[] = is_some (after part String.[])
has_folded part (String.◌∷◌ c s) = is_some (after part (String.◌∷◌ c s)) || has_folded part s

-- `re.search(r"(?:HTTP\s+404|Not Found\s*\(HTTP 404\)|status\s*404)", detail, re.I)`
unfoldable pub reports_404 : String → Bool
unfolding http_404 status_404 not_found_404
reports_404 String.[] = false
reports_404 (String.◌∷◌ c s) =
    (http_404 (String.◌∷◌ c s) || not_found_404 (String.◌∷◌ c s) || status_404 (String.◌∷◌ c s))
    || reports_404 s

reports_404_test : reports_404 "gh: Not Found (HTTP 404)" ≡ true
unfolding reports_404
reports_404_test = refl

reports_404_other : reports_404 "gh: HTTP 4040, status 40" ≡ true
unfolding reports_404
reports_404_other = refl
