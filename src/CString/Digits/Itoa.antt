-- ===== src/CString/Digits/Itoa.antt =====
-- itoa: the digits read back give the number.
use martian_os.Prelude.{
  inr, inl, Bool-cases, ℕ, zero, suc, ◌-◌, ◌^◌, ◌<◌, ◌≤◌, ◌≡◌, refl, ap, sym, ◌∙◌, List, [], ◌∷◌,
  ◌++◌, length, get_or, ◌==◌, arith,
}
use martian_os.CString.{strlen, strrev, itoa, put_digits}
use martian_os.CString.Reverse.{strrev_lem}
use martian_os.CString.Digits.{
  read_number, IsDigit, put_digits-AreDigits, AreDigits, put_digits-IsDigit, strlen-digits,
  get_or-append_nul, AreDigits-get_or, read_number-mirrored, low_first-put_digits, get_or-beyond,
  strlen_unique, length-put_digits,
}

module _ (value radix : ℕ) (lo : 2 ≤ radix) (hi : radix ≤ 36) where
  digits : List ℕ
  digits = put_digits 32 value radix

  buffer : List ℕ
  unfolding digits
  buffer = digits ++ (0 ∷ [])

  digits-AreDigits : AreDigits digits
  unfolding digits
  digits-AreDigits = put_digits-AreDigits 32 value radix (omega arith) hi

  strrev-buffer :
      (j : ℕ)
      → j < length digits
      → get_or (strrev buffer) j 0 ≡ get_or digits (length digits - 1 - j) 0
  unfolding buffer
  strrev-buffer j h = ground (
    arith,
    strrev_lem buffer j,
    strlen-digits digits digits-AreDigits,
    get_or-append_nul digits (length digits - 1 - j),
  )

  strlen-strrev-buffer : strlen (strrev buffer) ≡ length digits
  unfolding buffer
  strlen-strrev-buffer =
      strlen_unique (strrev buffer) (length digits)
        (ground (
          arith,
          strrev_lem buffer (length digits),
          strlen-digits digits digits-AreDigits,
          get_or-append_nul digits (length digits),
          get_or-beyond digits (length digits) (omega arith),
        ))
        (λ j h e.
          AreDigits-get_or digits (length digits - 1 - j) digits-AreDigits (omega arith)
            (sym (strrev-buffer j h) ∙ e))

  strrev-buffer-IsDigit :
      (j : ℕ) → j < strlen (strrev buffer) → IsDigit radix (get_or (strrev buffer) j 0)
  unfolding digits
  strrev-buffer-IsDigit j h =
      let k : j < length digits = omega (arith, h, strlen-strrev-buffer) in
      rw (strrev-buffer j k)
        (put_digits-IsDigit 32 value radix (length digits - 1 - j) (omega arith) hi (omega arith))

  read_number-buffer :
      value < 2 ^ 32 → read_number radix (strrev buffer) (strlen (strrev buffer)) ≡ value
  unfolding buffer digits
  read_number-buffer h = rw strlen-strrev-buffer (
      read_number-mirrored radix (strrev buffer) digits (length digits) 0 (omega arith)
        strrev-buffer
      ∙ low_first-put_digits 32 value radix lo hi h)

-- For every base from 2 to 36 and every `uint32_t`, the text that `itoa` makes is a numeral of that
-- number: reading its characters as digits, the highest first, gives the number back.
pub itoa-read_number :
    (value radix : ℕ)
    → 2 ≤ radix
    → radix ≤ 36
    → value < 2 ^ 32
    → read_number radix (itoa value radix) (strlen (itoa value radix)) ≡ value
unfolding itoa
itoa-read_number value radix lo hi h = elim (Bool-cases (value == 0)) [
  | inl e ↦ rw e (unfold strlen read_number in ground arith)
  | inr e ↦ rw e (unfold buffer digits in read_number-buffer value radix lo hi h)
]

zero-IsDigit :
    (radix : ℕ) → 2 ≤ radix → (j : ℕ) → j < 1 → IsDigit radix (get_or (b'0' ∷ 0 ∷ []) j 0)
zero-IsDigit radix lo zero h = (refl, omega arith)
zero-IsDigit radix lo (suc j) h = absurd (omega arith)

-- The text that `itoa` makes has no more digits than the number needs.
pub itoa_short :
    (value radix k : ℕ)
    → 2 ≤ radix
    → radix ≤ 36
    → 0 < k
    → value < radix ^ k
    → strlen (itoa value radix) ≤ k
unfolding itoa
itoa_short value radix k lo hi some_digit h = elim (Bool-cases (value == 0)) [
  | inl e ↦ rw e (unfold strlen in omega arith)
  | inr e ↦ rw e (
      unfold buffer digits in
      omega (
        arith,
        strlen-strrev-buffer value radix lo hi,
        length-put_digits 32 value radix k (omega arith) h,
      ))
]

-- The text that `itoa` makes is not empty, and each of its characters is a digit of the base.
pub itoa-IsDigit :
    (value radix : ℕ)
    → 2 ≤ radix
    → radix ≤ 36
    → value < 2 ^ 32
    → (0 < strlen (itoa value radix))
      × ((j : ℕ) → j < strlen (itoa value radix) → IsDigit radix (get_or (itoa value radix) j 0))
unfolding itoa read_number
itoa-IsDigit value radix lo hi h = elim (Bool-cases (value == 0)) [
  | inl e ↦ rw e (unfold strlen in (omega arith, zero-IsDigit radix lo))
  | inr e ↦
      let back = itoa-read_number value radix lo hi h in
      (
        elim (Bool-cases (strlen (itoa value radix) == 0)) [
          | inl empty ↦
              let none_there : strlen (itoa value radix) ≡ 0 = ground arith in
              absurd
                (ground (arith, sym back ∙ ap (read_number radix (itoa value radix)) none_there))
          | inr some_there ↦ ground arith
        ],
        rw e (unfold buffer digits in strrev-buffer-IsDigit value radix lo hi),
      )
]
