-- ===== src/Process/Pids/Laws.antt =====
-- What is handed out as a process id, and that the blocks of two processes are apart.
use martian_os.Prelude.{
  ℕ, zero, suc, ◌+◌, ◌<◌, ◌≤◌, ◌≡◌, ◌≢◌, refl, ap, ◌⊎◌, inl, inr, List, [], ◌∷◌, get_or, set,
  length, get_or-set, set-set, ◌==◌, Bool-cases, arith,
}
use martian_os.Prelude.Int.{ℤ, pos, minus_one}
use martian_os.Process.Pids.{
  first_free_pid, record_process, decord_process, get_pcb_ptr, size_8k, size_8m,
}

-- What the loop returns: the least free id of its range, or -1.
abbrev pub FindsPid : List ℕ → ℕ → ℕ → ℤ → Type 0
FindsPid bitmap i k r =
    ((r ≡ minus_one) × ((j : ℕ) → i ≤ j → j < k → get_or bitmap j 0 ≢ 0))
    ⊎ ((m : ℕ) × (r ≡ pos m)
        × (i ≤ m)
        × (m < k)
        × (get_or bitmap m 0 ≡ 0)
        × ((j : ℕ) → i ≤ j → j < m → get_or bitmap j 0 ≢ 0))

pub first_free_pid-FindsPid :
    (bitmap : List ℕ) (n i k : ℕ) → i + n ≡ k → FindsPid bitmap i k (first_free_pid bitmap n i)
unfolding first_free_pid
first_free_pid-FindsPid bitmap zero i k e = inl (refl, λ j lo hi. absurd (omega arith))
first_free_pid-FindsPid bitmap (suc n) i k e = elim (Bool-cases (0 == get_or bitmap i 0)) [
  | inl h ↦ inr (i, rw h, omega arith, omega arith, ground arith, λ j lo hi. absurd (omega arith))
  | inr h ↦
      let taken : get_or bitmap i 0 ≢ 0 = ground arith in
      rw h (elim (first_free_pid-FindsPid bitmap n (i + 1) k (omega arith)) [
        | inl (r, rest) ↦ inl (r, λ j lo hi. later i j k taken rest lo hi)
        | inr (m, r, lo, hi, free, rest) ↦
            inr (m, r, omega arith, hi, free, λ j lo' hi'. later i j m taken rest lo' hi')
      ])
]
  where
    later :
        (i j k : ℕ)
        → get_or bitmap i 0 ≢ 0
        → ((j : ℕ) → i + 1 ≤ j → j < k → get_or bitmap j 0 ≢ 0)
        → i ≤ j
        → j < k
        → get_or bitmap j 0 ≢ 0
    later i j k taken rest lo hi = elim (Bool-cases (i == j)) [
      | inl here ↦ let s : i ≡ j = ground arith in rw (← s) taken
      | inr away ↦ rest j (ground arith) hi
    ]

-- `record_process` hands out the least free id of the six and marks it alone, or returns -1 with
-- all six in use and changes nothing.
pub record_process_lem :
    (bitmap : List ℕ)
    → length bitmap ≡ 6
    → let r = record_process bitmap in
      ((r ≡ (minus_one, bitmap)) × ((j : ℕ) → j < 6 → get_or bitmap j 0 ≢ 0))
      ⊎ ((m : ℕ) × (r ≡ (pos m, set bitmap m 1))
          × (m < 6)
          × (get_or bitmap m 0 ≡ 0)
          × ((j : ℕ) → j < m → get_or bitmap j 0 ≢ 0))
unfolding record_process
record_process_lem bitmap h = elim (first_free_pid-FindsPid bitmap 6 0 6 refl) [
  | inl (r, taken) ↦ inl (rw r refl, λ j hi. taken j (omega arith) hi)
  | inr (m, r, lo, hi, free, taken) ↦
      inr (m, rw r refl, hi, free, λ j hi'. taken j (omega arith) hi')
]

set_back : (xs : List ℕ) (i v : ℕ) → get_or xs i 0 ≡ v → set xs i v ≡ xs
set_back [] i v e = refl
set_back (x ∷ xs) zero v e = rw e refl
set_back (x ∷ xs) (suc i) v e = ap (◌∷◌ x) (set_back xs i v e)

-- An id that was free and is marked can be given back.
pub decord_marked :
    (bitmap : List ℕ) (k : ℕ)
    → length bitmap ≡ 6
    → k < 6
    → get_or bitmap k 0 ≡ 0
    → decord_process (pos k) (set bitmap k 1) ≡ (pos 0, bitmap)
unfolding decord_process
decord_marked bitmap k h hi free =
    let used : get_or (set bitmap k 1) k 0 ≡ 1 = ground (arith, get_or-set bitmap k k 1 0) in
    rw (used, set-set bitmap k 1 0, set_back bitmap k 0 free) refl

-- Giving back the id that was just handed out succeeds, and all ids are as before.
pub record-decord :
    (bitmap : List ℕ) (m : ℕ)
    → length bitmap ≡ 6
    → (record_process bitmap).0 ≡ pos m
    → decord_process (pos m) (record_process bitmap).1 ≡ (pos 0, bitmap)
record-decord bitmap m h e = elim (record_process_lem bitmap h) [
  | inl (r, taken) ↦ absurd (cc)
  | inr (k, r, hi, free, taken) ↦
      let s : m ≡ k = ground arith in rw (s, r) (decord_marked bitmap k h hi free)
]

-- The 8 KB blocks of two of the six processes, each with its control block at the bottom and its
-- kernel stack at the top, are apart, and all lie in the kernel's page from 4 MB to 8 MB.
pub get_pcb_ptr-apart :
    (p q : ℕ)
    → p < 6
    → q < 6
    → p ≢ q
    → let a = get_pcb_ptr (pos p) in
      let b = get_pcb_ptr (pos q) in
      ((a + size_8k ≤ b) ⊎ (b + size_8k ≤ a)) × (4194304 ≤ a) × (a + size_8k ≤ size_8m)
unfolding get_pcb_ptr
get_pcb_ptr-apart p q hp hq ne = ground arith
