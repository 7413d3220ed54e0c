-- ===== src/CString.antt =====
-- The string functions of mp3_Final/student-distrib/lib.c. An object in memory is the list of its
-- bytes, and a read just behind the list gives the NUL that ends a literal; a write outside of it
-- changes nothing.
pub mod Compare
pub mod Copy
pub mod Bytes
pub mod Fill
pub mod Reverse
pub mod Digits
pub mod Tests
use Prim.Native.String.{String}
use Prim.Native.Char.{code}
use martian_os.Prelude.{
  ℕ, zero, suc, ◌+◌, ◌-◌, ◌/◌, ◌%◌, Bool, true, false, not, ◌&&◌, ◌||◌, List, [], ◌∷◌, ◌++◌, get_or,
  set, ltb, ◌==◌, if◌then◌else◌,
}
use martian_os.Prelude.Int.{ℤ, pos, negsuc, sub_ℕ, pos_part, neg_part}

-- A string literal.
abbrev pub codes : String → List ℕ
codes String.[] = []
codes (String.◌∷◌ c s) = code c ∷ codes s

-- The number that an `int8_t` of this bit pattern stands for.
abbrev pub signed8 : ℕ → ℤ
signed8 c = if ltb c 128 then pos c else negsuc (255 - c)

-- `s1[i] - s2[i]`, an `int`.
abbrev pub char_diff : ℕ → ℕ → ℤ
char_diff a b =
    sub_ℕ (pos_part (signed8 a) + neg_part (signed8 b))
      (neg_part (signed8 a) + pos_part (signed8 b))

unfoldable pub strlen : List ℕ → ℕ
strlen [] = 0
strlen (c ∷ s) = let rest = strlen s in if not (c == 0) then rest + 1 else 0

-- The loop from index `i` on, with `n` rounds left.
unfoldable pub strncmp_from : List ℕ → List ℕ → ℕ → ℕ → ℤ
strncmp_from s1 s2 zero i = pos 0
strncmp_from s1 s2 (suc n) i =
    let rest = strncmp_from s1 s2 n (i + 1) in
    if not (get_or s1 i 0 == get_or s2 i 0) || get_or s1 i 0 == 0
    then char_diff (get_or s1 i 0) (get_or s2 i 0)
    else rest

unfoldable pub strncmp : List ℕ → List ℕ → ℕ → ℤ
unfolding strncmp_from
strncmp s1 s2 n = strncmp_from s1 s2 n 0

-- The second loop of `strncpy`, from index `i` on with `n` rounds left.
unfoldable pub fill_zero : List ℕ → ℕ → ℕ → List ℕ
fill_zero dest zero i = dest
fill_zero dest (suc n) i = fill_zero (set dest i 0) n (i + 1)

-- The first loop, which goes over to the second at the NUL of `src` or at the limit.
pub copy_from : List ℕ → List ℕ → ℕ → ℕ → List ℕ
copy_from dest src zero i = dest
copy_from dest src (suc n) i =
    let rest = copy_from (set dest i (get_or src i 0)) src n (i + 1) in
    if not (get_or src i 0 == 0) then rest else fill_zero dest (suc n) i

unfoldable pub strncpy : List ℕ → List ℕ → ℕ → List ℕ
unfolding copy_from fill_zero
strncpy dest src n = copy_from dest src n 0

-- `tmp = s[end]; s[end] = s[beg]; s[beg] = tmp;`
pub swap_at : List ℕ → ℕ → ℕ → List ℕ
swap_at s beg end = set (set s end (get_or s beg 0)) beg (get_or s end 0)

-- The loop of `strrev`, on fuel.
pub swap_ends : ℕ → List ℕ → ℕ → ℕ → List ℕ
swap_ends zero s beg end = s
swap_ends (suc fuel) s beg end =
    let rest = swap_ends fuel (swap_at s beg end) (beg + 1) (end - 1) in
    if ltb beg end then rest else s

-- Of an empty string `end` is -1 and the loop does nothing. A round takes two characters.
pub strrev : List ℕ → List ℕ
unfolding swap_ends swap_at strlen
strrev s = if strlen s == 0 then s else swap_ends (strlen s) s 0 (strlen s - 1)

-- `lookup[i]`: the digits, then the capital letters.
pub digit_char : ℕ → ℕ
digit_char i = get_or (codes "0123456789ABCDEFGHIJKLMNOPQRSTUVWXYZ") i 0

-- `while (newval > 0)`, on fuel: the characters that are put down, the lowest digit first.
pub put_digits : ℕ → ℕ → ℕ → List ℕ
put_digits zero newval radix = []
put_digits (suc fuel) newval radix =
    let rest = put_digits fuel (newval / radix) radix in
    if ltb 0 newval then digit_char (newval % radix) ∷ rest else []

-- The bytes from `buf` on; a `uint32_t` has at most 32 digits.
pub itoa : ℕ → ℕ → List ℕ
unfolding put_digits strrev digit_char
itoa value radix =
    if value == 0 then b'0' ∷ 0 ∷ [] else strrev (put_digits 32 value radix ++ (0 ∷ []))
