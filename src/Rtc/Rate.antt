-- ===== src/Rtc/Rate.antt =====
-- Which frequencies the clock accepts, and what it does with one.
use Prim.Native.Nat.{bit_and, bit_or}
use martian_os.Prelude.{
  ℕ, zero, suc, ◌+◌, ◌-◌, ◌*◌, ◌/◌, ◌%◌, ◌^◌, ◌≤◌, ◌<◌, ◌≡◌, ◌≢◌, refl, ap, ◌∙◌, ◌⊎◌, inl, inr,
  true, false, some, Bool-cases, arith, ◌==◌, step_some,
}
use martian_os.Prelude.Int.{ℤ, pos, negsuc, minus_one, pos_part, eqb_ℤ}
use martian_os.Process.Types.{update}
use martian_os.Ports.{Ports}
use martian_os.Rtc.{bad_frequency, log_loop, set_rate, set_frequency, rtc_write, num_byte}
use martian_os.Rtc.Log.{log_loop_ends}
use martian_os.Rtc.Cmos.{Cmos, low_nibble, power_of_two, power_alone}

-- The frequencies that the chip is given: 2, 4, 8, ..., 1024.
abbrev pub IsRate : ℤ → ℕ → Type 0
IsRate fre k = (1 ≤ k) × (k ≤ 10) × (fre ≡ pos (2 ^ k))

pow_big : (k : ℕ) → 10 < k → 1024 < 2 ^ k
pow_big zero h = absurd (omega arith)
pow_big (suc k) h = elim (Bool-cases (k == 10)) [
  | inl e ↦ let here : k ≡ 10 = ground arith in rw here (omega arith)
  | inr n ↦ omega (arith, pow_big k (ground arith))
]

small_log : (n k : ℕ) → 2 ^ k ≤ n → n ≤ 1024 → k < 11
small_log n k below hi = ground (arith, pow_big k)

two_le : (k : ℕ) → 1 ≤ k → 2 ≤ 2 ^ k
two_le zero h = absurd (omega arith)
two_le (suc zero) h = omega arith
two_le (suc (suc k)) h = omega (arith, two_le (suc k) (omega arith))

small_power :
    (n : ℕ)
    → 2 ≤ n
    → n ≤ 1024
    → bit_and (n - 1) n ≡ 0
    → (k : ℕ) × (log_loop 32 n 0 ≡ some (0 + k)) × (2 ^ k ≤ n) × (n < 2 ^ suc k)
    → (k : ℕ) × IsRate (pos n) k × (log_loop 32 n 0 ≡ some k)
small_power n lo hi alone (k, e, below, above) =
    let same = power_of_two n k (omega arith) (small_log n k below hi) alone below above in
    (
      k,
      (one_le k above, omega (arith, small_log n k below hi), ap pos same),
      e ∙ ap some (omega arith),
    )
  where
    one_le : (k : ℕ) → n < 2 ^ suc k → 1 ≤ k
    one_le zero h = absurd (omega arith)
    one_le (suc k) h = omega arith

accepted :
    (fre : ℤ)
    → bad_frequency fre ≡ false
    → (k : ℕ) × IsRate fre k × (log_loop 32 (pos_part fre) 0 ≡ some k)
unfolding bad_frequency
accepted (negsuc n) good = ground arith
accepted (pos n) good =
    small_power n (ground arith) (ground arith) (ground arith)
      (log_loop_ends 32 n 0 (ground arith) (ground arith))

refused : (fre : ℤ) (k : ℕ) → IsRate fre k → bad_frequency fre ≡ false
unfolding bad_frequency
refused fre k (lo, hi, e) = rw e (ground (arith, two_le k lo, power_alone k (omega arith)))

eqb_eq : (a b : ℤ) → eqb_ℤ a b ≡ true → a ≡ b
eqb_eq (pos a) (pos b) h = ground arith
eqb_eq (pos a) (negsuc b) h = cc
eqb_eq (negsuc a) (pos b) h = cc
eqb_eq (negsuc a) (negsuc b) h = ground arith

eqb_four : (n : ℤ) → eqb_ℤ n num_byte ≡ false → n ≢ num_byte
eqb_four n h e = let four : eqb_ℤ num_byte num_byte ≡ false = rw e at h in ground arith

module _ (p : Ports) (c : Cmos p) where
  open c use {reg, index}

  -- The low nibble of register A is the rate; all else stays.
  reg-set_rate :
      (frame : ℕ) (w : p.World)
      → frame < 16
      → reg (set_rate p frame w) ≡ update (reg w) 10 (reg w 10 / 16 * 16 + frame)
  unfolding set_rate
  reg-set_rate frame w h =
      let w0 = (p.inb 0x70 w).1 in
      let w1 = p.outb (bit_or (p.inb 0x70 w).0 0x80) 0x70 w0 in
      let wa = p.outb 0x8A 0x70 w1 in
      let at_a : index wa ≡ 10 = c.select_index 0x8A w1 in
      let same_a : reg wa ≡ reg w = c.select_reg 0x8A w1 ∙ c.select_reg _ w0 ∙ c.select_read w in
      let w2 = p.outb 0x8A 0x70 (p.inb 0x71 wa).1 in
      let same_2 : reg w2 ≡ reg w = c.select_reg 0x8A _ ∙ c.give_reg wa (ground arith) ∙ same_a in
      let temp : (p.inb 0x71 wa).0 ≡ reg w 10 =
        c.give wa ∙ ap (reg wa) at_a ∙ ap (λ r. r 10) same_a in
      let v = bit_or (bit_and (p.inb 0x71 wa).0 0xF0) frame in
      let byte : v % 2 ^ 8 ≡ reg w 10 / 16 * 16 + frame =
        rw temp (omega (arith, low_nibble (reg w 10) frame (c.bytes w 10) h, c.bytes w 10)) in
      c.select_reg _ _
      ∙ c.select_read _
      ∙ c.take v w2
      ∙ (λ i. update (same_2 i) (c.select_index 0x8A (p.inb 0x71 wa).1 i) (byte i))

  set_frequency_at :
      (fre : ℤ) (k : ℕ) (w : p.World)
      → IsRate fre k
      → log_loop 32 (pos_part fre) 0 ≡ some k
      → set_frequency p fre w ≡ some (pos 0, set_rate p (16 - k) w)
  unfolding set_frequency
  set_frequency_at fre k w r e =
      let frame : (16 + 2 ^ 8 - k) % 2 ^ 8 ≡ 16 - k = omega arith in
      rw (refused fre k r) (step_some _ k _ e ∙ ap (λ x. some (pos 0, set_rate p x w)) frame)

  set_frequency_bad :
      (fre : ℤ) (w : p.World)
      → bad_frequency fre ≡ true
      → set_frequency p fre w ≡ some (minus_one, w)
  unfolding set_frequency
  set_frequency_bad fre w bad = rw bad

  -- What the call does to the registers for a frequency that it takes.
  pub record Sets (nbytes : ℤ) (fre : ℤ) (w : p.World) (r : ℤ) (w' : p.World) : Type 0 where
    pub rate : ℕ
    pub size : nbytes ≡ num_byte
    pub power : IsRate fre rate
    pub result : r ≡ pos 0
    pub regs : reg w' ≡ update (reg w) 10 (reg w 10 / 16 * 16 + (16 - rate))

  -- Why the call refuses, with -1 and nothing touched.
  pub record Refuses (nbytes : ℤ) (fre : ℤ) (w : p.World) (r : ℤ) (w' : p.World) : Type 0 where
    pub reason : (nbytes ≢ num_byte) ⊎ ((k : ℕ) → ¬ IsRate fre k)
    pub result : r ≡ minus_one
    pub same : w' ≡ w

  -- For every number that is pointed to and every size: the call returns. Either the size is 4 and
  -- the number is 2 ^ k with 1 ≤ k ≤ 10; then the result is 0, the low nibble of register A is 16 - k,
  -- its high nibble and every other register are as before. Or the result is -1, nothing is
  -- touched, and the size is not 4 or the number is no such power.
  pub rtc_write-Sets :
      (fre nbytes : ℤ) (w : p.World)
      → (r : ℤ) × (w' : p.World) × (rtc_write p (some fre) nbytes w ≡ some (r, w'))
        × (Sets nbytes fre w r w' ⊎ Refuses nbytes fre w r w')
  unfolding rtc_write
  rtc_write-Sets fre nbytes w = elim (Bool-cases (eqb_ℤ nbytes num_byte)) [
    | inr wrong ↦ (
      minus_one,
      w,
      rw wrong,
      inr (record { reason = inl (eqb_four nbytes wrong); result = refl; same = refl }),
    )
    | inl four ↦ elim (Bool-cases (bad_frequency fre)) [
      | inl bad ↦ (
        minus_one,
        w,
        rw four (set_frequency_bad fre w bad),
        inr (record {
          reason = inr (λ k power. cc (refused fre k power));
          result = refl;
          same = refl;
        }),
      )
      | inr good ↦
          let (k, power, e) = accepted fre good in
          (
            pos 0,
            set_rate p (16 - k) w,
            rw four (set_frequency_at fre k w power e),
            inl (record {
              rate = k;
              size = eqb_eq nbytes num_byte four;
              power = power;
              result = refl;
              regs = reg-set_rate (16 - k) w (omega arith);
            }),
          )
    ]
  ]
