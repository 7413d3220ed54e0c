-- ===== src/Pic/Masks.antt =====
-- Which of the sixteen interrupts a call masks.
use martian_os.Prelude.{
  ℕ, ◌-◌, ◌<◌, ◌≡◌, ◌∙◌, inl, inr, Bool, true, false, length, ltb, leb, ◌==◌, if◌then◌else◌,
  Bool-cases, arith,
}
use martian_os.Word.{test_bit}
use martian_os.Word.Laws.{test_bit-set, test_bit-clear, length-or_word, length-and_word}
use martian_os.Pic.{Pic, enable_irq, disable_irq, irq_num_master}

-- Interrupt `i` does not reach the processor.
abbrev pub masked : Pic → ℕ → Bool
masked s i =
    if leb irq_num_master i
    then test_bit s.slave_data (i - irq_num_master)
    else test_bit s.master_data i

-- Both controllers have masks of eight bits.
pub record IsPic (s : Pic) : Type 0 where
  pub master_bits : length s.master_data ≡ 8
  pub slave_bits : length s.slave_data ≡ 8

-- `enable_irq` lets its own interrupt through and no other one changes; an interrupt above 15 changes
-- nothing.
pub enable_irq-masked :
    (s : Pic) (i j : ℕ)
    → IsPic s
    → j < 16
    → IsPic (enable_irq i s) × (masked (enable_irq i s) j ≡ (if i == j then false else masked s j))
unfolding enable_irq
enable_irq-masked s i j v hj = elim (Bool-cases (ltb 15 i)) [
  | inl bad ↦ rw bad (v, ground arith)
  | inr good ↦ elim (Bool-cases (leb 8 i)) [
    | inl slave ↦
        rw (good, slave)
          (
            record {
              master_bits = v.master_bits;
              slave_bits = length-and_word s.slave_data _ ∙ v.slave_bits;
            },
            ground (arith, test_bit-clear s.slave_data 8 (i - 8) (j - 8) v.slave_bits),
          )
    | inr master ↦
        rw (good, master)
          (
            record {
              master_bits = length-and_word s.master_data _ ∙ v.master_bits;
              slave_bits = v.slave_bits;
            },
            ground (arith, test_bit-clear s.master_data 8 i j v.master_bits),
          )
  ]
]

-- `disable_irq` masks its own interrupt and no other one changes; an interrupt above 15 changes
-- nothing.
pub disable_irq-masked :
    (s : Pic) (i j : ℕ)
    → IsPic s
    → j < 16
    → IsPic (disable_irq i s) × (masked (disable_irq i s) j ≡ (if i == j then true else masked s j))
unfolding disable_irq
disable_irq-masked s i j v hj = elim (Bool-cases (ltb 15 i)) [
  | inl bad ↦ rw bad (v, ground arith)
  | inr good ↦ elim (Bool-cases (leb 8 i)) [
    | inl slave ↦
        rw (good, slave)
          (
            record {
              master_bits = v.master_bits;
              slave_bits = length-or_word s.slave_data _ ∙ v.slave_bits;
            },
            ground (arith, test_bit-set s.slave_data 8 (i - 8) (j - 8) v.slave_bits),
          )
    | inr master ↦
        rw (good, master)
          (
            record {
              master_bits = length-or_word s.master_data _ ∙ v.master_bits;
              slave_bits = v.slave_bits;
            },
            ground (arith, test_bit-set s.master_data 8 i j v.master_bits),
          )
  ]
]
