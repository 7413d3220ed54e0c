-- ===== src/Printf.antt =====
-- mp3_Final/student-distrib/lib.c, printf and puts: the characters that they hand to nb_putc, in
-- their order.
pub mod Numbers
pub mod Formats
pub mod Tests
use martian_os.Prelude.{
  ℕ, zero, suc, ◌+◌, ◌-◌, ◌%◌, ◌^◌, Bool, true, false, List, [], ◌∷◌, ◌++◌, Option, none, some,
  replicate, ltb, ◌==◌, if◌then◌else◌, ◌>>=◌,
}
use martian_os.Prelude.Int.{ℤ, pos}
use martian_os.CString.{strlen, itoa}

-- `puts`, which ends at the NUL.
pub puts : List ℕ → List ℕ
puts [] = []
puts (c ∷ s) = let rest = puts s in if c == 0 then [] else c ∷ rest

-- An argument on the stack: a word of 32 bits, or a pointer to a string.
pub data Arg : Type 0 where
  word : ℕ → Arg
  text : List ℕ → Arg

-- `-value`, for a negative `int32_t` as the `uint32_t` that `itoa` takes.
pub negated : ℕ → ℕ
negated value = (2 ^ 32 - value) % 2 ^ 32

-- `%x` and `%#x`: eight digits or more, filled with zeros from the left.
pub print_hex : Bool → ℕ → List ℕ
print_hex false n = puts (itoa n 16)
print_hex true n = replicate (8 - strlen (itoa n 16)) b'0' ++ puts (itoa n 16)

-- `%d`; a word from 2 ^ 31 on is negative.
pub print_signed : ℕ → List ℕ
print_signed n = if ltb n (2 ^ 31) then puts (itoa n 10) else b'-' ∷ puts (itoa (negated n) 10)

-- A conversion that takes an argument: what it prints, if the argument is there.
pub convert : (ℕ → List ℕ) → List Arg → Option (List ℕ × List Arg)
convert print [] = none
convert print (word n ∷ args) = some (print n, args)
convert print (text s ∷ args) = none

pub convert_text : List Arg → Option (List ℕ × List Arg)
convert_text [] = none
convert_text (word n ∷ args) = none
convert_text (text s ∷ args) = some (puts s, args)

-- The inner `switch`, for a character other than `#`.
pub conversion : ℕ → Bool → List Arg → Option (List ℕ × List Arg)
conversion c alternate args =
    if c == b'%'
    then some (b'%' ∷ [], args)
    else if c == b'x'
    then convert (print_hex alternate) args
    else if c == b'u'
    then convert (λ n. puts (itoa n 10)) args
    else if c == b'd'
    then convert print_signed args
    else if c == b'c'
    then convert (λ n. (n % 2 ^ 8) ∷ []) args
    else if c == b's'
    then convert_text args
    else some ([], args)

-- Where the loop stands: in the text, or behind a `%`, with `alternate`.
pub data Place : Type 0 where
  in_text : Place
  in_conversion : Bool → Place

-- `buf++`, behind characters that were printed; then the rest.
pub advance : List ℕ → Option (ℕ × List ℕ) → Option (ℕ × List ℕ)
advance printed none = none
advance printed (some (moved, out)) = some (moved + 1, printed ++ out)

-- From `buf` on: how far `buf` moves, and the characters. `none` is a run that reads behind the NUL,
-- or an argument that is not there.
pub print_from : Place → List ℕ → List Arg → Option (ℕ × List ℕ)
print_from in_text [] args = some (0, [])
print_from in_text (c ∷ buf) args =
    let behind = print_from (in_conversion false) buf args in
    let rest = print_from in_text buf args in
    if c == 0 then some (0, []) else if c == b'%' then advance [] behind else advance (c ∷ []) rest
print_from (in_conversion alternate) [] args = none
print_from (in_conversion alternate) (c ∷ buf) args =
    let behind = print_from (in_conversion true) buf args in
    if c == 0
    then none
    else if c == b'#'
    then advance [] behind
    else (do (out, args') ← conversion c alternate args; advance out (print_from in_text buf args'))

-- The result, `buf - format`, and the characters.
pub printf : List ℕ → List Arg → Option (ℤ × List ℕ)
printf format args = do (moved, out) ← print_from in_text format args; some (pos moved, out)
