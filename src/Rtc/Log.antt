-- ===== src/Rtc/Log.antt =====
-- The loop that takes the logarithm of a frequency.
use martian_os.Prelude.{
  ℕ, zero, suc, ◌+◌, ◌/◌, ◌^◌, ◌≤◌, ◌<◌, ◌≡◌, inl, inr, some, ◌==◌, Bool-cases, arith,
}
use martian_os.Rtc.{log_loop}

-- Given as many rounds as the number has bits, the loop ends, and it has added the place of the
-- highest bit that is set: k with 2 ^ k ≤ fre < 2 ^ (k + 1).
pub log_loop_ends :
    (n fre log_fre : ℕ)
    → 0 < fre
    → fre < 2 ^ n
    → (k : ℕ) × (log_loop n fre log_fre ≡ some (log_fre + k)) × (2 ^ k ≤ fre) × (fre < 2 ^ suc k)
unfolding log_loop
log_loop_ends zero fre log_fre some_bit fits = absurd (omega arith)
log_loop_ends (suc n) fre log_fre some_bit fits = elim (Bool-cases (fre / 2 == 0)) [
  | inl done ↦ (0, rw done (ground arith), omega arith, ground arith)
  | inr more ↦
      let (k, e, lo, hi) = log_loop_ends n (fre / 2) (log_fre + 1) (ground arith) (omega arith) in
      (suc k, rw more (ground arith), omega arith, omega arith)
]
