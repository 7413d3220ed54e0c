-- ===== src/Printf/Formats.antt =====
-- What printf makes of a format: text up to a conversion, the conversion, and the rest.
use martian_os.Prelude.{
  ◌+◌, ◌∙◌, ℕ, ◌<◌, ◌^◌, ◌≡◌, ◌≢◌, refl, ap, Bool, true, false, List, [], ◌∷◌, ◌++◌, none, some,
  length, ◌==◌, ◌>>=◌, arith,
}
use martian_os.Prelude.Int.{pos}
use martian_os.Printf.{
  Arg, word, in_text, conversion, convert, advance, print_hex, print_signed, print_from, printf,
}
use martian_os.Printf.Numbers.{IsHex, print_hex-IsHex, IsSigned, print_signed-IsSigned}

-- Text that is printed as it is.
abbrev pub IsLiteral : List ℕ → Type 0
IsLiteral [] = Unit
IsLiteral (c ∷ s) = (c ≢ 0) × (c ≢ b'%') × IsLiteral s

print_literal :
    (s buf : List ℕ) (args : List Arg) (k : ℕ) (out : List ℕ)
    → IsLiteral s
    → print_from in_text buf args ≡ some (k, out)
    → print_from in_text (s ++ buf) args ≡ some (length s + k, s ++ out)
unfolding print_from advance
print_literal [] buf args k out h e = e ∙ ap (λ m. some (m, out)) (omega arith)
print_literal (c ∷ s) buf args k out h e =
    let char : (c == 0) ≡ false = ground arith in
    let other : (c == b'%') ≡ false = ground arith in
    rw (char, other)
      (ap (advance (c ∷ [])) (print_literal s buf args k out h.2 e)
        ∙ ap (λ m. some (m, c ∷ (s ++ out))) (omega arith))

-- `%d`, and `%x` with or without `#`.
print_d :
    (n : ℕ) (buf : List ℕ) (args : List Arg) (k : ℕ) (out : List ℕ)
    → print_from in_text buf args ≡ some (k, out)
    → print_from in_text (b'%' ∷ b'd' ∷ buf) (word n ∷ args)
      ≡ some (k + 1 + 1, print_signed n ++ out)
unfolding print_from advance conversion convert
print_d n buf args k out e = ap (λ r. advance [] (advance (print_signed n) r)) e

abbrev pub hex_format : Bool → List ℕ
hex_format true = b'%' ∷ b'#' ∷ b'x' ∷ []
hex_format false = b'%' ∷ b'x' ∷ []

print_x :
    (alternate : Bool) (n : ℕ) (buf : List ℕ) (args : List Arg) (k : ℕ) (out : List ℕ)
    → print_from in_text buf args ≡ some (k, out)
    → print_from in_text (hex_format alternate ++ buf) (word n ∷ args)
      ≡ some (length (hex_format alternate) + k, print_hex alternate n ++ out)
unfolding print_from advance conversion convert
print_x true n buf args k out e =
    ap (λ r. advance [] (advance [] (advance (print_hex true n) r))) e
    ∙ ap (λ m. some (m, print_hex true n ++ out)) (omega arith)
print_x false n buf args k out e =
    ap (λ r. advance [] (advance (print_hex false n) r)) e
    ∙ ap (λ m. some (m, print_hex false n ++ out)) (omega arith)

printf_text :
    (format : List ℕ) (args : List Arg) (k : ℕ) (out : List ℕ)
    → print_from in_text format args ≡ some (k, out)
    → printf format args ≡ some (pos k, out)
unfolding printf
printf_text format args k out e = ap (λ r. r >>= λ o. some (pos o.0, o.1)) e

-- A format of text, `%d` and more, where the rest moves by `k` characters and prints `out`: printf
-- prints the text, then a signed number as its shortest decimal numeral, with a minus sign just if
-- it is negative, then `out`; and it returns the length of the text, 2 for the conversion and `k`.
pub printf-IsSigned :
    (s : List ℕ) (n : ℕ) (buf : List ℕ) (args : List Arg) (k : ℕ) (out : List ℕ)
    → IsLiteral s
    → n < 2 ^ 32
    → print_from in_text buf args ≡ some (k, out)
    → (d : List ℕ) × (printf (s ++ b'%' ∷ b'd' ∷ buf) (word n ∷ args)
        ≡ some (pos (length s + (k + 1 + 1)), s ++ (d ++ out)))
      × IsSigned n d
printf-IsSigned s n buf args k out plain h e = (
  print_signed n,
  printf_text (s ++ b'%' ∷ b'd' ∷ buf) (word n ∷ args) _ _
      (print_literal s (b'%' ∷ b'd' ∷ buf) (word n ∷ args) _ _ plain (print_d n buf args k out e)),
  print_signed-IsSigned n h,
)

-- The same of `%x` and `%#x`: the shortest hexadecimal numeral of the number, or with `#` the one of
-- eight digits.
pub printf-IsHex :
    (alternate : Bool) (s : List ℕ) (n : ℕ) (buf : List ℕ) (args : List Arg) (k : ℕ) (out : List ℕ)
    → IsLiteral s
    → n < 2 ^ 32
    → print_from in_text buf args ≡ some (k, out)
    → (d : List ℕ) × (printf (s ++ (hex_format alternate ++ buf)) (word n ∷ args)
        ≡ some (pos (length s + (length (hex_format alternate) + k)), s ++ (d ++ out)))
      × IsHex alternate n d
printf-IsHex alternate s n buf args k out plain h e = (
  print_hex alternate n,
  printf_text (s ++ (hex_format alternate ++ buf)) (word n ∷ args) _ _ (
      print_literal s (hex_format alternate ++ buf) (word n ∷ args) _ _ plain
        (print_x alternate n buf args k out e)),
  print_hex-IsHex alternate n h,
)

print_open_end :
    (s : List ℕ) (args : List Arg) → IsLiteral s → print_from in_text (s ++ b'%' ∷ []) args ≡ none
unfolding print_from advance
print_open_end [] args h = refl
print_open_end (c ∷ s) args h =
    let char : (c == 0) ≡ false = ground arith in
    let other : (c == b'%') ≡ false = ground arith in
    rw (char, other) (ap (advance (c ∷ [])) (print_open_end s args h.2))

-- A format that ends with a `%`, behind text: the run goes on behind the NUL.
pub printf-open_end :
    (s : List ℕ) (args : List Arg) → IsLiteral s → printf (s ++ b'%' ∷ []) args ≡ none
unfolding printf
printf-open_end s args h = ap (λ r. r >>= λ o. some (pos o.0, o.1)) (print_open_end s args h)
