-- ===== src/Printf/Numbers.antt =====
-- The numbers that printf writes, read back.
use martian_os.Prelude.{
  ℕ, zero, suc, ◌+◌, ◌-◌, ◌*◌, ◌%◌, ◌^◌, ◌≤◌, ◌<◌, ◌≡◌, refl, ap, ◌∙◌, inl, inr, Bool, true, false,
  ◌⊎◌, List, [], ◌∷◌, ◌++◌, length, get_or, replicate, length-replicate, length-append, ltb,
  Bool-cases, arith,
}
use martian_os.CString.{strlen, itoa}
use martian_os.CString.Digits.{digit_value, read_number, IsDigit, first_and_rest}
use martian_os.CString.Digits.Itoa.{itoa-read_number, itoa-IsDigit, itoa_short}
use martian_os.Printf.{puts, print_hex, print_signed, negated}

length-puts : (s : List ℕ) → length (puts s) ≡ strlen s
unfolding puts strlen
length-puts [] = refl
length-puts (c ∷ s) = ground (arith, length-puts s)

get_or-puts : (s : List ℕ) (i : ℕ) → i < strlen s → get_or (puts s) i 0 ≡ get_or s i 0
unfolding puts strlen
get_or-puts [] i h = elim h [ ]
get_or-puts (c ∷ s) zero h = ground arith
get_or-puts (c ∷ s) (suc i) h = ground (arith, get_or-puts s i)

-- Texts with the same first `n` characters are the same numeral.
read_number-same :
    (radix : ℕ) (s t : List ℕ) (n : ℕ)
    → ((i : ℕ) → i < n → get_or s i 0 ≡ get_or t i 0)
    → read_number radix s n ≡ read_number radix t n
unfolding read_number
read_number-same radix s t zero h = refl
read_number-same radix s t (suc n) h =
    let before = read_number-same radix s t n (λ i hi. h i (omega arith)) in
    λ i. before i * radix + digit_value (h n (omega arith) i)

-- What a text of digits stands for.
abbrev pub value_of : ℕ → List ℕ → ℕ
value_of radix s = read_number radix s (length s)

pub puts-itoa :
    (n radix : ℕ) → 2 ≤ radix → radix ≤ 36 → n < 2 ^ 32 → value_of radix (puts (itoa n radix)) ≡ n
puts-itoa n radix lo hi h =
    let s = itoa n radix in
    ap (read_number radix (puts s)) (length-puts s)
    ∙ read_number-same radix (puts s) s (strlen s) (get_or-puts s)
    ∙ itoa-read_number n radix lo hi h

-- Zeros in front change nothing.
read_number-zero :
    (radix : ℕ) (s : List ℕ) (m : ℕ) → read_number radix (b'0' ∷ s) (suc m) ≡ read_number radix s m
unfolding read_number
read_number-zero radix s zero = omega arith
read_number-zero radix s (suc m) =
    ap (λ t. t * radix + digit_value (get_or s m 0)) (read_number-zero radix s m)

value_of-zeros :
    (radix k : ℕ) (s : List ℕ) → value_of radix (replicate k b'0' ++ s) ≡ value_of radix s
value_of-zeros radix zero s = refl
value_of-zeros radix (suc k) s =
    read_number-zero radix (replicate k b'0' ++ s) (length (replicate k b'0' ++ s))
    ∙ value_of-zeros radix k s

-- A numeral: at least one character, and each a digit of the base.
abbrev pub IsNumeral : ℕ → List ℕ → Type 0
IsNumeral radix d = (0 < length d) × ((j : ℕ) → j < length d → IsDigit radix (get_or d j 0))

pub puts-IsNumeral :
    (n radix : ℕ) → 2 ≤ radix → radix ≤ 36 → n < 2 ^ 32 → IsNumeral radix (puts (itoa n radix))
puts-IsNumeral n radix lo hi h =
    let s = itoa n radix in
    let d = itoa-IsDigit n radix lo hi h in
    (
      omega (arith, length-puts s, d.0),
      λ j k.
          let inside : j < strlen s = omega (arith, length-puts s, k) in
          rw (get_or-puts s j inside) (d.1 j inside),
    )

-- A numeral of a number with no more digits than it needs.
abbrev pub IsShortest : ℕ → ℕ → List ℕ → Type 0
IsShortest radix n d =
    IsNumeral radix d × (value_of radix d ≡ n) × ((k : ℕ) → 0 < k → n < radix ^ k → length d ≤ k)

pub puts-IsShortest :
    (n radix : ℕ) → 2 ≤ radix → radix ≤ 36 → n < 2 ^ 32 → IsShortest radix n (puts (itoa n radix))
puts-IsShortest n radix lo hi h = (
  puts-IsNumeral n radix lo hi h,
  puts-itoa n radix lo hi h,
  λ k some_digit below.
      omega (arith, length-puts (itoa n radix), itoa_short n radix k lo hi some_digit below),
)

zeros-IsNumeral :
    (radix k : ℕ) (s : List ℕ)
    → 2 ≤ radix
    → IsNumeral radix s
    → IsNumeral radix (replicate k b'0' ++ s)
zeros-IsNumeral radix zero s lo h = h
zeros-IsNumeral radix (suc k) s lo h =
    let rest = zeros-IsNumeral radix k s lo h in
    (omega arith, first_and_rest radix b'0' (replicate k b'0' ++ s) (refl, omega arith) rest.1)

-- In hexadecimal: the shortest numeral, or with `#` the one of eight digits.
abbrev pub IsHex : Bool → ℕ → List ℕ → Type 0
IsHex false n d = IsShortest 16 n d
IsHex true n d = IsNumeral 16 d × (value_of 16 d ≡ n) × (length d ≡ 8)

pub print_hex-IsHex :
    (alternate : Bool) (n : ℕ) → n < 2 ^ 32 → IsHex alternate n (print_hex alternate n)
unfolding print_hex
print_hex-IsHex false n h = puts-IsShortest n 16 (omega arith) (omega arith) h
print_hex-IsHex true n h = (
  zeros-IsNumeral 16 (8 - strlen (itoa n 16)) (puts (itoa n 16)) (omega arith)
      (puts-IsNumeral n 16 (omega arith) (omega arith) h),
  value_of-zeros 16 (8 - strlen (itoa n 16)) (puts (itoa n 16))
      ∙ puts-itoa n 16 (omega arith) (omega arith) h,
  omega (
    arith,
    length-append (replicate (8 - strlen (itoa n 16)) b'0') (puts (itoa n 16)),
    length-replicate {A = ℕ} (8 - strlen (itoa n 16)) b'0',
    length-puts (itoa n 16),
    itoa_short n 16 8 (omega arith) (omega arith) (omega arith) (omega arith),
  ),
)

-- The text of a signed number: the shortest numeral of one that is not negative, or a minus sign and
-- the shortest numeral of its size.
abbrev pub IsSigned : ℕ → List ℕ → Type 0
IsSigned n d =
    ((n < 2 ^ 31) × IsShortest 10 n d)
    ⊎ ((e : List ℕ) × (d ≡ b'-' ∷ e) × (2 ^ 31 ≤ n) × IsShortest 10 (2 ^ 32 - n) e)

pub print_signed-IsSigned : (n : ℕ) → n < 2 ^ 32 → IsSigned n (print_signed n)
unfolding print_signed negated
print_signed-IsSigned n h = elim (Bool-cases (ltb n (2 ^ 31))) [
  | inl small ↦ rw small (inl (ground arith, puts-IsShortest n 10 (omega arith) (omega arith) h))
  | inr large ↦
      let big : 2 ^ 31 ≤ n = ground arith in
      let size : (2 ^ 32 - n) % 2 ^ 32 ≡ 2 ^ 32 - n = omega arith in
      rw (large, size)
        (inr (
          puts (itoa (2 ^ 32 - n) 10),
          refl,
          big,
          puts-IsShortest (2 ^ 32 - n) 10 (omega arith) (omega arith) (omega arith),
        ))
]
