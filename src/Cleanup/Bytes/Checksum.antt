-- ===== src/Cleanup/Bytes/Checksum.antt =====
-- The line of a checksum file, read and written.
use Prim.Native.String
use text.Mathlib.TextLemmas.{cons-append}
use chromium_compile.Prelude.{
  String, true, ◌&&◌, ◌≡◌, ◌↔◌, refl, ap, ◌∙◌, sym, Option, none, some, Bool-cases, inl, inr, arith,
  eqb,
}
use chromium_compile.Text.Digits.{is_hex, all_chars, some_chars, size}
use chromium_compile.Text.Pattern.{drop_prefix, span, is_name_char}
use chromium_compile.Text.Pattern.Laws.{
  drop_prefix-append, drop_prefix-some, span-append, span-splits,
}
use chromium_compile.Cleanup.Bytes.{with_name, checksum_line}

-- The line that `sha256sum` writes for a file
abbrev pub print_line : String → String → String
print_line digest name = String.◌++◌ digest (String.◌++◌ "  " name)

-- A digest of 64 hexadecimal digits and a plain name
abbrev pub IsEntry : String → String → Type 0
IsEntry digest name =
    (all_chars is_hex digest ≡ true) × (size digest ≡ 64) × (some_chars is_name_char name ≡ true)

pair_of :
    (a b c d : String)
    → ◌≡◌ {A = Option (String × String)} (some (a, b)) (some (c, d))
    → (a ≡ c) × (b ≡ d)
pair_of a b c d e = (cc, cc)

none_ne_pair : (d n : String) → ◌≡◌ {A = Option (String × String)} none (some (d, n)) → ⊥
none_ne_pair d n e = cc

with_name-some :
    (digest : String) (o : Option String) (d n : String)
    → with_name digest o ≡ some (d, n)
    → (digest ≡ d) × (o ≡ some n) × (size digest ≡ 64) × (some_chars is_name_char n ≡ true)
with_name-some digest none d n e = absurd (none_ne_pair d n e)
with_name-some digest (some name) d n e =
    elim (Bool-cases (eqb (size digest) 64 && some_chars is_name_char name)) [
      | inl b ↦
          let (p, q) = pair_of digest name d n (rw b at e) in
          let chars : some_chars is_name_char name ≡ true = ground arith in
          (p, ap some q, ground arith, rw (sym q) chars)
      | inr b ↦ absurd (none_ne_pair d n (rw b at e))
    ]

with_name-entry :
    (digest name : String)
    → size digest ≡ 64
    → some_chars is_name_char name ≡ true
    → with_name digest (some name) ≡ some (digest, name)
with_name-entry digest name p q = rw (p, q) refl

spaces-stop : (name : String) → span is_hex (String.◌++◌ "  " name) ≡ ("", String.◌++◌ "  " name)
unfolding span is_hex
spaces-stop name = rw (cons-append " " " " name) refl

-- What is read of a line is exactly what was written: a text is read as this digest and this name if
-- and only if it is the line of both, and the digest has 64 hexadecimal digits and the name is plain.
pub checksum_line_iff :
    (s digest name : String)
    → (checksum_line s ≡ some (digest, name)) ↔ ((s ≡ print_line digest name) × IsEntry digest name)
unfolding checksum_line
checksum_line_iff s digest name = (
  λ e.
      let (joined, hex) = span-splits is_hex s in
      let (p, q, sized, plain) =
        with_name-some (span is_hex s).0 (drop_prefix "  " (span is_hex s).1) digest name e in
      let tail = drop_prefix-some "  " (span is_hex s).1 name q in
      (
        joined
            ∙ (ap (λ t. String.◌++◌ (span is_hex s).0 t) tail
                ∙ ap (λ d. String.◌++◌ d (String.◌++◌ "  " name)) p),
        (ap (λ d. all_chars is_hex d) (sym p) ∙ hex, ap size (sym p) ∙ sized, plain),
      ),
  λ (line, (hex, sized, plain)).
      rw
        (
          line,
          span-append is_hex digest (String.◌++◌ "  " name) hex (spaces-stop name),
          drop_prefix-append "  " name,
        )
        (with_name-entry digest name sized plain),
)
