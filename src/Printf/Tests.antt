-- ===== src/Printf/Tests.antt =====
-- Formats at concrete arguments.
use martian_os.Prelude.{ℕ, ◌≡◌, refl, true, List, [], ◌∷◌, ◌++◌, some, arith}
use martian_os.Prelude.Int.{pos}
use martian_os.CString.{codes, strlen}
use martian_os.Printf.{
  word, text, in_text, convert, advance, convert_text, conversion, puts, print_from, printf,
}
use martian_os.Printf.Numbers.{IsHex, IsSigned}
use martian_os.Printf.Formats.{IsLiteral, printf-IsSigned, printf-IsHex}

-- A string and a character.
hello :
    printf (codes "%s%c 100%%") (text (codes "hello") ∷ word 0x121 ∷ [])
    ≡ some (pos 10, codes "hello! 100%")
unfolding printf print_from advance conversion convert convert_text puts strlen
hello = refl

newline_prints : print_from in_text (codes "\n") [] ≡ some (1, codes "\n")
unfolding print_from advance
newline_prints = refl

pid_text : IsLiteral (codes "pid")
pid_text = (
  (λ e. omega (arith, e)),
  (λ e. omega (arith, e)),
  (
    (λ e. omega (arith, e)),
    (λ e. omega (arith, e)),
    ((λ e. omega (arith, e)), (λ e. omega (arith, e)), tt),
  ),
)

-- -3
printf-IsSigned_example :
    (d : List ℕ) × (printf (codes "pid%d\n") (word 4294967293 ∷ [])
      ≡ some (pos 6, codes "pid" ++ (d ++ codes "\n")))
    × IsSigned 4294967293 d
printf-IsSigned_example =
    printf-IsSigned (codes "pid") 4294967293 (codes "\n") [] 1 (codes "\n") pid_text (omega arith)
      newline_prints

printf-IsHex_example :
    (d : List ℕ) × (printf (codes "pid%#x\n") (word 0xE ∷ [])
      ≡ some (pos 7, codes "pid" ++ (d ++ codes "\n")))
    × IsHex true 0xE d
printf-IsHex_example =
    printf-IsHex true (codes "pid") 0xE (codes "\n") [] 1 (codes "\n") pid_text (omega arith)
      newline_prints
