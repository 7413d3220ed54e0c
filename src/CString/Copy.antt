-- ===== src/CString/Copy.antt =====
-- strncpy: what stands in the destination afterwards.
use martian_os.Prelude.{
  ℕ, zero, suc, ◌+◌, ◌≤◌, ◌≡◌, refl, List, length, get_or, set, length-set, get_or-set, ltb, leb,
  ◌&&◌, ◌∙◌, if◌then◌else◌, false, arith, ◌<◌, ◌≢◌, ◌==◌, Bool-cases, inl, inr, ap,
}
use martian_os.CString.{strncpy, copy_from, fill_zero}
use martian_os.CString.Compare.{text, text_from}

pub length-fill_zero : (dest : List ℕ) (n i : ℕ) → length (fill_zero dest n i) ≡ length dest
unfolding fill_zero
length-fill_zero dest zero i = refl
length-fill_zero dest (suc n) i = length-fill_zero (set dest i 0) n (i + 1) ∙ length-set dest i 0

length-copy_from : (dest src : List ℕ) (n i : ℕ) → length (copy_from dest src n i) ≡ length dest
unfolding copy_from
length-copy_from dest src zero i = refl
length-copy_from dest src (suc n) i = ground (
  arith,
  length-fill_zero dest (suc n) i,
  length-copy_from (set dest i (get_or src i 0)) src n (i + 1),
  length-set dest i (get_or src i 0),
)

pub get_or-fill_zero :
    (dest : List ℕ) (n i j : ℕ)
    → i + n ≤ length dest
    → get_or (fill_zero dest n i) j 0 ≡ (if leb i j && ltb j (i + n) then 0 else get_or dest j 0)
unfolding fill_zero
get_or-fill_zero dest zero i j h = ground arith
get_or-fill_zero dest (suc n) i j h = ground (
  arith,
  get_or-fill_zero (set dest i 0) n (i + 1) j (omega (arith, length-set dest i 0)),
  get_or-set dest i j 0 0 (omega arith),
)

-- Outside of the `n` bytes from `i` on nothing changes.
pub copy_from_outside :
    (dest src : List ℕ) (n i j : ℕ)
    → i + n ≤ length dest
    → (leb i j && ltb j (i + n)) ≡ false
    → get_or (copy_from dest src n i) j 0 ≡ get_or dest j 0
unfolding copy_from
copy_from_outside dest src zero i j h out = refl
copy_from_outside dest src (suc n) i j h out = ground (
  arith,
  get_or-fill_zero dest (suc n) i j h,
  copy_from_outside (set dest i (get_or src i 0)) src n (i + 1) j
      (omega (arith, length-set dest i (get_or src i 0))),
  get_or-set dest i j (get_or src i 0) 0 (omega arith),
)

text-copy_from :
    (dest src : List ℕ) (n i : ℕ)
    → i + n ≤ length dest
    → text_from (copy_from dest src n i) n i ≡ text_from src n i
unfolding copy_from text_from
text-copy_from dest src zero i h = refl
text-copy_from dest src (suc n) i h = ground (
  arith,
  get_or-fill_zero dest (suc n) i i h,
  copy_from_outside (set dest i (get_or src i 0)) src n (i + 1) i
      (omega (arith, length-set dest i (get_or src i 0))),
  get_or-set dest i i (get_or src i 0) 0 (omega arith),
  text-copy_from (set dest i (get_or src i 0)) src n (i + 1)
      (omega (arith, length-set dest i (get_or src i 0))),
)

-- A byte that is not NUL stands in front of the one that is.
not_end :
    (src : List ℕ) (i e : ℕ) → i ≤ e → (get_or src i 0 == 0) ≡ false → get_or src e 0 ≡ 0 → i < e
not_end src i e h n nul = elim (Bool-cases (i == e)) [
  | inl same ↦
      let q : i ≡ e = ground arith in
      let at : get_or src i 0 ≡ 0 = ap (λ k. get_or src k 0) q ∙ nul in absurd (ground arith)
  | inr other ↦ ground arith
]

-- The copy of a string that ends at `e`, from `i` on: its bytes, and zeros behind it.
get_or-copy_from :
    (dest src : List ℕ) (n i e j : ℕ)
    → i + n ≤ length dest
    → ((x : ℕ) → x < e → get_or src x 0 ≢ 0)
    → get_or src e 0 ≡ 0
    → i ≤ e
    → i ≤ j
    → j < i + n
    → get_or (copy_from dest src n i) j 0 ≡ (if ltb j e then get_or src j 0 else 0)
unfolding copy_from
get_or-copy_from dest src zero i e j room some_char nul ie ij jn = absurd (omega arith)
get_or-copy_from dest src (suc n) i e j room some_char nul ie ij jn =
    elim (Bool-cases (get_or src i 0 == 0)) [
      | inl ends ↦ rw ends (ground (arith, some_char i, get_or-fill_zero dest (suc n) i j))
      | inr goes_on ↦
          let dest' = set dest i (get_or src i 0) in
          let len = length-set dest i (get_or src i 0) in
          let later : i < e = not_end src i e ie goes_on nul in
          rw goes_on (elim (Bool-cases (i == j)) [
            | inl here ↦
                let q : i ≡ j = ground arith in
                ground (
                  arith,
                  ap (λ k. get_or src k 0) q,
                  copy_from_outside dest' src n (i + 1) j (omega (arith, len)),
                  get_or-set dest i j (get_or src i 0) 0 (omega arith),
                )
            | inr away ↦
                get_or-copy_from dest' src n (i + 1) e j (omega (arith, len)) some_char nul
                  (omega arith) (ground arith) (omega arith)
          ])
    ]

-- A string that ends at `e`, copied to a buffer of at least `n` bytes: its bytes, and zeros behind.
pub get_or-strncpy :
    (dest src : List ℕ) (n e j : ℕ)
    → n ≤ length dest
    → ((x : ℕ) → x < e → get_or src x 0 ≢ 0)
    → get_or src e 0 ≡ 0
    → j < n
    → get_or (strncpy dest src n) j 0 ≡ (if ltb j e then get_or src j 0 else 0)
unfolding strncpy
get_or-strncpy dest src n e j room some_char nul h =
    get_or-copy_from dest src n 0 e j (omega arith) some_char nul (omega arith) (omega arith)
      (omega arith)

-- Where `n` bytes of room are there, `strncpy` leaves the same text in the first `n` bytes as `src`
-- begins with, changes no byte behind them, and writes nothing outside of the destination.
pub strncpy_lem :
    (dest src : List ℕ) (n : ℕ)
    → n ≤ length dest
    → (text n (strncpy dest src n) ≡ text n src)
      × ((j : ℕ) → n ≤ j → get_or (strncpy dest src n) j 0 ≡ get_or dest j 0)
      × (length (strncpy dest src n) ≡ length dest)
unfolding strncpy
strncpy_lem dest src n h = (
  text-copy_from dest src n 0 (omega arith),
  λ j hj. copy_from_outside dest src n 0 j (omega arith) (ground arith),
  length-copy_from dest src n 0,
)

pub length-strncpy : (dest src : List ℕ) (n : ℕ) → length (strncpy dest src n) ≡ length dest
unfolding strncpy
length-strncpy dest src n = length-copy_from dest src n 0
