-- ===== src/Text/Title.antt =====
-- The titles of build runs, and the checks of a run's origin that several scripts share.
use chromium_compile.Prelude.{
  ℕ, String, code, Bool, true, false, not, ◌&&◌, ◌||◌, Option, none, some, ◌≡◌, refl, eqb, leb,
  if◌then◌else◌,
}
use chromium_compile.Json.{concat}
use chromium_compile.Text.Digits.{is_ascii_digit, all_chars, some_chars, size}
use chromium_compile.Text.Lines.{split_once}
use chromium_compile.Text.Pattern.{drop_prefix, span, dotted}

-- `[1-9][0-9]*`
unfoldable pub is_stage : String → Bool
unfolding all_chars is_ascii_digit
is_stage String.[] = false
is_stage (String.◌∷◌ c s) = (leb b'1' (code c) && leb (code c) b'9') && all_chars is_ascii_digit s

-- `[1-9][0-9]?`
unfoldable pub is_short_stage : String → Bool
unfolding is_stage size
is_short_stage s = is_stage s && leb (size s) 2

-- What follows a literal, if it stands there
abbrev followed {ℓ} : {A : Type ℓ} → String → String → (String → Option A) → Option A
followed literal s next = elim (drop_prefix literal s) [ none ↦ none | some rest ↦ next rest ]

-- `^product (V) - stage (S) - attempt ([0-9]+)$`, where V is a version in ASCII digits: the version and
-- the stage
unfoldable pub build_title : (String → Bool) → String → String → Option (String × String)
unfolding drop_prefix span dotted some_chars is_ascii_digit
build_title stage_form product title = followed product title λ rest.
    elim (dotted is_ascii_digit 3 rest) [
      | none ↦ none
      | some (version, rest') ↦ followed " - stage " rest' λ rest''.
          let (stage, tail) = span is_ascii_digit rest'' in
          if not (stage_form stage)
          then none
          else (followed " - attempt " tail
              λ attempt. if some_chars is_ascii_digit attempt then some (version, stage) else none)
    ]

-- `s.split("@", 1)[0]`
unfoldable pub before_at : String → String
unfolding split_once
before_at s = elim (split_once b'@' s) [ none ↦ s | some (head, _) ↦ head ]

-- `[A-Za-z0-9._/-]`
abbrev is_branch_char : ℕ → Bool
is_branch_char c =
    is_ascii_digit c
    || (leb b'a' c && leb c b'z')
    || (leb b'A' c && leb c b'Z')
    || eqb c b'.'
    || eqb c b'_'
    || eqb c b'/'
    || eqb c b'-'

-- `".." in s`
unfoldable pub has_dots : String → Bool
unfolding drop_prefix
has_dots String.[] = false
has_dots (String.◌∷◌ c s) =
    (elim (drop_prefix ".." (String.◌∷◌ c s)) [ none ↦ false | some _ ↦ true ]) || has_dots s

-- `^[A-Za-z0-9._/-]+$`, and no `..`
unfoldable pub is_branch : String → Bool
unfolding some_chars has_dots is_ascii_digit
is_branch s = some_chars is_branch_char s && not (has_dots s)

title_test :
    build_title is_stage "Chromium i686 " "Chromium i686 155.0.1.2 - stage 12 - attempt 3"
    ≡ some ("155.0.1.2", "12")
unfolding build_title concat is_stage
title_test = refl
