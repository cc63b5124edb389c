-- ===== src/Text/Digits.antt =====
-- Character classes and decimal numerals of Python's `str` and `re`.
use native.Mathlib.Nat.{pow-suc}
use chromium_compile.Prelude.{
  ℕ, suc, ◌+◌, ◌-◌, ◌*◌, ◌<◌, String, code, Option, none, some, Bool, true, false, ◌≡◌, not, ◌&&◌,
  ◌||◌, ◌==◌, inl, inr, Option-cases, List, [], ◌∷◌, arith, ltb, leb, eqb, if◌then◌else◌, ◌^◌,
}

-- `[0-9]`
unfoldable pub is_ascii_digit : ℕ → Bool
is_ascii_digit c = leb b'0' c && leb c b'9'

-- `[0-9a-f]` and `[0-9a-fA-F]`
unfoldable pub is_lower_hex : ℕ → Bool
unfolding is_ascii_digit
is_lower_hex c = is_ascii_digit c || (leb b'a' c && leb c b'f')

unfoldable pub is_hex : ℕ → Bool
unfolding is_lower_hex
is_hex c = is_lower_hex c || (leb b'A' c && leb c b'F')

-- The zeros of the scripts whose digits `\d` and `int` accept: Unicode's category Nd consists of
-- runs of ten characters, one for each value.
abbrev decimal_zeros : List ℕ
decimal_zeros =
    0x30 ∷ 0x660 ∷ 0x6f0 ∷ 0x7c0 ∷ 0x966 ∷ 0x9e6 ∷ 0xa66 ∷ 0xae6 ∷ 0xb66 ∷ 0xbe6 ∷ 0xc66 ∷ 0xce6
    ∷ 0xd66 ∷ 0xde6 ∷ 0xe50 ∷ 0xed0 ∷ 0xf20 ∷ 0x1040 ∷ 0x1090 ∷ 0x17e0 ∷ 0x1810 ∷ 0x1946 ∷ 0x19d0
    ∷ 0x1a80 ∷ 0x1a90 ∷ 0x1b50 ∷ 0x1bb0 ∷ 0x1c40 ∷ 0x1c50 ∷ 0xa620 ∷ 0xa8d0 ∷ 0xa900 ∷ 0xa9d0
    ∷ 0xa9f0 ∷ 0xaa50 ∷ 0xabf0 ∷ 0xff10 ∷ 0x104a0 ∷ 0x10d30 ∷ 0x11066 ∷ 0x110f0 ∷ 0x11136 ∷ 0x111d0
    ∷ 0x112f0 ∷ 0x11450 ∷ 0x114d0 ∷ 0x11650 ∷ 0x116c0 ∷ 0x11730 ∷ 0x118e0 ∷ 0x11950 ∷ 0x11c50
    ∷ 0x11d50 ∷ 0x11da0 ∷ 0x16a60 ∷ 0x16ac0 ∷ 0x16b50 ∷ 0x1d7ce ∷ 0x1d7d8 ∷ 0x1d7e2 ∷ 0x1d7ec
    ∷ 0x1d7f6 ∷ 0x1e140 ∷ 0x1e2f0 ∷ 0x1e950 ∷ 0x1fbf0 ∷ []

digit_in : List ℕ → ℕ → Option ℕ
digit_in [] c = none
digit_in (z ∷ zs) c =
    let rest = digit_in zs c in if leb z c && ltb c (z + 10) then some (c - z) else rest

-- The value of a character that `\d` matches.
unfoldable pub digit_value : ℕ → Option ℕ
unfolding digit_in
digit_value c = digit_in decimal_zeros c

-- A character of `\d`
unfoldable pub is_digit : ℕ → Bool
unfolding digit_value
is_digit c = elim (digit_value c) [ none ↦ false | some _ ↦ true ]

-- `[class]*` against a whole text
unfoldable pub all_chars : (ℕ → Bool) → String → Bool
all_chars p String.[] = true
all_chars p (String.◌∷◌ c s) = p (code c) && all_chars p s

-- `len(s)`
unfoldable pub size : String → ℕ
size String.[] = 0
size (String.◌∷◌ c s) = suc (size s)

-- `[class]+` against a whole text
unfoldable pub some_chars : (ℕ → Bool) → String → Bool
unfolding all_chars
some_chars p s = not (s == "") && all_chars p s

abbrev pub or_zero : Option ℕ → ℕ
or_zero none = 0
or_zero (some n) = n

-- `int(s)` of a text of digits
unfoldable pub int_from : ℕ → String → ℕ
int_from n String.[] = n
int_from n (String.◌∷◌ c s) = int_from (n * 10 + or_zero (digit_value (code c))) s

unfoldable pub int_of : String → ℕ
unfolding int_from digit_value
int_of s = int_from 0 s

digit_in-lt : (zs : List ℕ) (c d : ℕ) → digit_in zs c ≡ some d → d < 10
unfolding digit_in
digit_in-lt [] c d h = cc
digit_in-lt (z ∷ zs) c d h = ground (arith, digit_in-lt zs c d)

pub digit_value-lt : (c : ℕ) → or_zero (digit_value c) < 10
unfolding digit_value
digit_value-lt c = elim (Option-cases (digit_in decimal_zeros c)) [
  | inl e ↦ rw e (omega arith)
  | inr (d, e) ↦ rw e (digit_in-lt decimal_zeros c d e)
]

-- A text of k digits denotes a number below 10 ^ k.
pub int_from-lt : (n : ℕ) (s : String) → int_from n s < (n + 1) * 10 ^ size s
unfolding int_from size
int_from-lt n String.[] = omega arith
int_from-lt n (String.◌∷◌ c s) =
    let d = or_zero (digit_value (code c)) in
    let k : ℕ = 10 ^ size s in
    rw pow-suc (grind (arith, int_from-lt (n * 10 + d) s, digit_value-lt (code c)))

-- `chr(c) in s`
unfoldable pub has_char : ℕ → String → Bool
has_char c String.[] = false
has_char c (String.◌∷◌ d s) = eqb (code d) c || has_char c s

-- The characters that `str.isdigit` accepts beside the decimal digits, as ranges
abbrev digit_ranges : List (ℕ × ℕ)
digit_ranges =
    (0xb2, 0xb3)
    ∷ (0xb9, 0xb9)
    ∷ (0x1369, 0x1371)
    ∷ (0x19da, 0x19da)
    ∷ (0x2070, 0x2070)
    ∷ (0x2074, 0x2079)
    ∷ (0x2080, 0x2089)
    ∷ (0x2460, 0x2468)
    ∷ (0x2474, 0x247c)
    ∷ (0x2488, 0x2490)
    ∷ (0x24ea, 0x24ea)
    ∷ (0x24f5, 0x24fd)
    ∷ (0x24ff, 0x24ff)
    ∷ (0x2776, 0x277e)
    ∷ (0x2780, 0x2788)
    ∷ (0x278a, 0x2792)
    ∷ (0x10a40, 0x10a43)
    ∷ (0x10e60, 0x10e68)
    ∷ (0x11052, 0x1105a)
    ∷ (0x1f100, 0x1f10a)
    ∷ []

in_ranges : List (ℕ × ℕ) → ℕ → Bool
in_ranges [] c = false
in_ranges ((a, b) ∷ rs) c = (leb a c && leb c b) || in_ranges rs c

-- `s.isdigit()`
unfoldable pub is_digits : String → Bool
unfolding is_digit in_ranges some_chars
is_digits s = some_chars (λ c. is_digit c || in_ranges digit_ranges c) s
