-- ===== src/CString/Digits.antt =====
-- The digits that itoa puts down, and what they stand for.
pub mod Itoa
use native.Mathlib.Nat.{pow-zero, pow-suc, div-add-mod, div-add-mod', mod-lt}
use martian_os.Prelude.{
  false, inr, inl, Bool-cases, if◌then◌else◌, ℕ, zero, suc, ◌+◌, ◌-◌, ◌*◌, ◌/◌, ◌%◌, ◌^◌, ◌<◌, ◌≤◌,
  ◌≡◌, ◌≢◌, refl, ap, sym, ◌∙◌, List, [], ◌∷◌, ◌++◌, length, get_or, drop, ltb, leb, ◌==◌, ◌&&◌,
  ◌||◌, if◌then◌else◌, Bool, true, Bool-cases, inl, inr, arith,
}
use martian_os.CString.{strlen, strrev, itoa, put_digits, digit_char}
use martian_os.CString.Compare.{strlen_lem}
use martian_os.CString.Reverse.{strrev_lem}

-- The value of a digit character.
abbrev pub digit_value : ℕ → ℕ
digit_value c = if leb c b'9' then c - b'0' else c - b'A' + 10

-- The number that the first `n` characters stand for, the highest digit first.
unfoldable pub read_number : ℕ → List ℕ → ℕ → ℕ
read_number radix s zero = 0
read_number radix s (suc n) = read_number radix s n * radix + digit_value (get_or s n 0)

-- A character that a numeral may have, and a digit of a base.
abbrev pub digit_class : ℕ → Bool
digit_class c = (leb b'0' c && leb c b'9') || (leb b'A' c && leb c b'Z')

abbrev pub IsDigit : ℕ → ℕ → Type 0
IsDigit radix c = (digit_class c ≡ true) × (digit_value c < radix)

-- Digit `i` is written as such a character, and read back.
good_digit : ℕ → Bool
good_digit i = digit_class (digit_char i) && digit_value (digit_char i) == i

-- The digits from 0 up to `n`, looked at one by one.
good_digits : ℕ → Bool
good_digits zero = true
good_digits (suc i) = if good_digit i then good_digits i else false

digit_table : good_digits 36 ≡ true
unfolding good_digits good_digit digit_char
digit_table = refl

good_digits_at : (i n : ℕ) → i < n → good_digits n ≡ true → good_digit i ≡ true
unfolding good_digits
good_digits_at i zero h e = elim h [ ]
good_digits_at i (suc n) h e = elim (Bool-cases (i == n)) [
  | inl last ↦ let same : i ≡ n = ground arith in rw same (ground (arith))
  | inr other ↦ ground (arith, good_digits_at i n)
]

digit_char_lem :
    (i : ℕ)
    → i < 36
    → (digit_value (digit_char i) ≡ i) × (digit_char i ≢ 0) × (digit_class (digit_char i) ≡ true)
unfolding good_digit
digit_char_lem i h = split (good_digits_at i 36 h digit_table)
  where
    split :
        good_digit i ≡ true
        → (digit_value (digit_char i) ≡ i)
          × (digit_char i ≢ 0)
          × (digit_class (digit_char i) ≡ true)
    split e = ground arith

-- The number that digits stand for, the lowest first.
pub low_first : ℕ → List ℕ → ℕ
low_first radix [] = 0
low_first radix (c ∷ ds) = digit_value c + low_first radix ds * radix

halves : (v radix m : ℕ) → 2 ≤ radix → v < 2 * m → v / radix < m
halves v radix m h hv = grind (arith, div-add-mod v radix)

pub low_first-put_digits :
    (fuel v radix : ℕ)
    → 2 ≤ radix
    → radix ≤ 36
    → v < 2 ^ fuel
    → low_first radix (put_digits fuel v radix) ≡ v
unfolding low_first put_digits
low_first-put_digits zero v radix lo hi h = omega arith
low_first-put_digits (suc fuel) v radix lo hi h = elim (Bool-cases (ltb 0 v)) [
  | inl e ↦
      let rest =
        low_first-put_digits fuel (v / radix) radix lo hi
          (halves v radix (2 ^ fuel) lo (omega (arith, pow-suc 2 fuel))) in
      rw e (
        omega (
          arith,
          (digit_char_lem (v % radix) (omega (arith, mod-lt v {m = radix} (omega arith)))).0,
          ap (λ (t : ℕ). t * radix) rest,
          div-add-mod' v radix,
        ))
  | inr e ↦ rw e (ground arith)
]

-- Every digit is a character that is not NUL.
pub AreDigits : List ℕ → Type 0
AreDigits [] = Unit
AreDigits (c ∷ ds) = (c ≢ 0) × AreDigits ds

pub put_digits-AreDigits :
    (fuel v radix : ℕ) → 0 < radix → radix ≤ 36 → AreDigits (put_digits fuel v radix)
unfolding AreDigits put_digits
put_digits-AreDigits zero v radix lo hi = tt
put_digits-AreDigits (suc fuel) v radix lo hi = elim (Bool-cases (ltb 0 v)) [
  | inl e ↦ rw e (
    (digit_char_lem (v % radix) (omega (arith, mod-lt v {m = radix} lo))).1,
    put_digits-AreDigits fuel (v / radix) radix lo hi,
  )
  | inr e ↦ rw e tt
]

-- A number below a power of the base has at most as many digits.
less_by_base : (v radix m : ℕ) → 0 < radix → v < radix * m → v / radix < m
less_by_base v radix m h hv = grind (arith, div-add-mod v radix)

pub length-put_digits :
    (fuel v radix k : ℕ) → 0 < radix → v < radix ^ k → length (put_digits fuel v radix) ≤ k
unfolding put_digits
length-put_digits zero v radix k lo h = omega arith
length-put_digits (suc fuel) v radix zero lo h =
    let none_left : ltb 0 v ≡ false = ground (arith, pow-zero radix) in rw none_left (omega arith)
length-put_digits (suc fuel) v radix (suc k) lo h = elim (Bool-cases (ltb 0 v)) [
  | inl e ↦
      let rest =
        length-put_digits fuel (v / radix) radix k lo
          (less_by_base v radix (radix ^ k) lo (omega (arith, pow-suc radix k, h))) in
      rw e (omega (arith, rest))
  | inr e ↦ rw e (omega arith)
]

pub first_and_rest :
    (radix c : ℕ) (ds : List ℕ)
    → IsDigit radix c
    → ((k : ℕ) → k < length ds → IsDigit radix (get_or ds k 0))
    → (j : ℕ) → j < length (c ∷ ds)
    → IsDigit radix (get_or (c ∷ ds) j 0)
first_and_rest radix c ds first rest zero h = first
first_and_rest radix c ds first rest (suc j) h = rest j (omega arith)

pub put_digits-IsDigit :
    (fuel v radix j : ℕ)
    → 0 < radix
    → radix ≤ 36
    → j < length (put_digits fuel v radix)
    → IsDigit radix (get_or (put_digits fuel v radix) j 0)
unfolding put_digits
put_digits-IsDigit zero v radix j lo hi = λ h. absurd (omega (arith, h))
put_digits-IsDigit (suc fuel) v radix j lo hi = elim (Bool-cases (ltb 0 v)) [
  | inl e ↦ rw e (
      let small = mod-lt v {m = radix} lo in
      let d = digit_char_lem (v % radix) (omega (arith, small)) in
      first_and_rest radix (digit_char (v % radix)) (put_digits fuel (v / radix) radix)
        (d.2, omega (arith, d.0, small))
        (λ k h. put_digits-IsDigit fuel (v / radix) radix k lo hi h) j)
  | inr e ↦ rw e (λ h. absurd (omega (arith, h)))
]

pub strlen-digits : (ds : List ℕ) → AreDigits ds → strlen (ds ++ (0 ∷ [])) ≡ length ds
unfolding AreDigits strlen
strlen-digits [] h = refl
strlen-digits (c ∷ ds) h = ground (arith, strlen-digits ds h.1)

pub get_or-append_nul : (ds : List ℕ) (j : ℕ) → get_or (ds ++ (0 ∷ [])) j 0 ≡ get_or ds j 0
get_or-append_nul [] zero = refl
get_or-append_nul [] (suc j) = refl
get_or-append_nul (c ∷ ds) zero = refl
get_or-append_nul (c ∷ ds) (suc j) = get_or-append_nul ds j

pub AreDigits-get_or : (ds : List ℕ) (j : ℕ) → AreDigits ds → j < length ds → get_or ds j 0 ≢ 0
unfolding AreDigits
AreDigits-get_or [] j h lt = absurd (omega arith)
AreDigits-get_or (c ∷ ds) zero h lt = h.0
AreDigits-get_or (c ∷ ds) (suc j) h lt = AreDigits-get_or ds j h.1 (omega arith)

drop-step :
    (ds : List ℕ) (radix k : ℕ)
    → k < length ds
    → low_first radix (drop k ds)
      ≡ digit_value (get_or ds k 0) + low_first radix (drop (suc k) ds) * radix
unfolding low_first
drop-step [] radix k h = absurd (omega arith)
drop-step (c ∷ ds) radix zero h = refl
drop-step (c ∷ ds) radix (suc k) h = drop-step ds radix k (omega arith)

low_first-drop_all :
    (radix : ℕ) (ds : List ℕ) (k : ℕ) → length ds ≡ k → low_first radix (drop k ds) ≡ 0
unfolding low_first
low_first-drop_all radix [] zero h = refl
low_first-drop_all radix [] (suc k) h = absurd (omega arith)
low_first-drop_all radix (c ∷ ds) zero h = absurd (omega arith)
low_first-drop_all radix (c ∷ ds) (suc k) h = low_first-drop_all radix ds k (omega arith)

-- Characters in the opposite order of `ds`, read from the front.
pub read_number-mirrored :
    (radix : ℕ) (s ds : List ℕ) (n k : ℕ)
    → n + k ≡ length ds
    → ((j : ℕ) → j < length ds → get_or s j 0 ≡ get_or ds (length ds - 1 - j) 0)
    → read_number radix s n ≡ low_first radix (drop k ds)
unfolding read_number low_first
read_number-mirrored radix s ds zero k e h = sym (low_first-drop_all radix ds k (omega arith))
read_number-mirrored radix s ds (suc n) k e h =
    let last : length ds - 1 - n ≡ k = omega arith in
    omega (
      arith,
      ap (λ (t : ℕ). t * radix) (read_number-mirrored radix s ds n (suc k) (omega arith) h),
      ap digit_value (h n (omega arith) ∙ ap (λ i. get_or ds i 0) last),
      drop-step ds radix k (omega arith),
    )

pub get_or-beyond : (ds : List ℕ) (j : ℕ) → length ds ≤ j → get_or ds j 0 ≡ 0
get_or-beyond [] j h = refl
get_or-beyond (c ∷ ds) zero h = absurd (omega arith)
get_or-beyond (c ∷ ds) (suc j) h = get_or-beyond ds j (omega arith)

-- The first NUL is found by `strlen`.
pub strlen_unique :
    (s : List ℕ) (n : ℕ) → get_or s n 0 ≡ 0 → ((j : ℕ) → j < n → get_or s j 0 ≢ 0) → strlen s ≡ n
strlen_unique s n end before = elim (Bool-cases (ltb (strlen s) n)) [
  | inl e ↦ absurd (before (strlen s) (ground arith) (strlen_lem s).1)
  | inr e ↦ elim (Bool-cases (ltb n (strlen s))) [
    | inl e' ↦ absurd ((strlen_lem s).2 n (ground arith) end)
    | inr e' ↦ ground arith
  ]
]
