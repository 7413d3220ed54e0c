-- ===== src/Rtc/Cmos.antt =====
-- What rtc.c relies on of the clock's chip, behind ports 0x70 and 0x71, and the bytes it works on.
use Prim.Native.Nat.{bit_and, bit_or}
use martian_os.Prelude.{
  ℕ, suc, ◌+◌, ◌-◌, ◌*◌, ◌/◌, ◌%◌, ◌^◌, ◌≤◌, ◌<◌, ◌≡◌, ◌≢◌, refl, Bool, true, not, ◌&&◌, ◌||◌, leb,
  ltb, ◌==◌, ==_iff, arith,
}
use martian_os.Prelude.Small.{all_below, all_below_sound}
use martian_os.Process.Types.{update}
use martian_os.Ports.{Ports}

-- A write to port 0x70 selects a register by its low seven bits, and leaves the registers alone, as
-- a read of that port does. Port 0x71 gives and takes the register that is selected. A read of
-- register C, number 12, clears it; a read of any other one leaves the registers alone.
pub record Cmos (p : Ports) : Type 0 where
  pub index : p.World → ℕ
  pub reg : p.World → ℕ → ℕ
  pub bytes : (w : p.World) (i : ℕ) → reg w i < 256
  pub select_index : (v : ℕ) (w : p.World) → index (p.outb v 0x70 w) ≡ v % 128
  pub select_reg : (v : ℕ) (w : p.World) → reg (p.outb v 0x70 w) ≡ reg w
  pub select_read : (w : p.World) → reg (p.inb 0x70 w).1 ≡ reg w
  pub give : (w : p.World) → (p.inb 0x71 w).0 ≡ reg w (index w)
  pub give_reg : (w : p.World) → index w ≢ 12 → reg (p.inb 0x71 w).1 ≡ reg w
  pub give_c : (w : p.World) → index w ≡ 12 → reg (p.inb 0x71 w).1 ≡ update (reg w) 12 0
  pub take : (v : ℕ) (w : p.World) → reg (p.outb v 0x71 w) ≡ update (reg w) (index w) (v % 2 ^ 8)

-- The nibble `f` in place of the low one of `t`.
abbrev rate_test : ℕ → ℕ → Bool
rate_test t f = bit_or (bit_and t 0xF0) f == t / 16 * 16 + f

rate_table : all_below 256 (λ t. all_below 16 (rate_test t)) ≡ true
unfolding all_below
rate_table = refl

pub low_nibble : (t f : ℕ) → t < 256 → f < 16 → bit_or (bit_and t 0xF0) f ≡ t / 16 * 16 + f
low_nibble t f ht hf = (==_iff _ _).0 (
    all_below_sound 16 (rate_test t) f
      (all_below_sound 256 (λ x. all_below 16 (rate_test x)) t rate_table ht) hf)

-- Bit 6, whatever it was.
abbrev six_test : ℕ → Bool
six_test t = bit_or t 0x40 == t / 128 * 128 + (64 + t % 64)

six_table : all_below 256 six_test ≡ true
unfolding all_below
six_table = refl

pub bit_six : (t : ℕ) → t < 256 → bit_or t 0x40 ≡ t / 128 * 128 + (64 + t % 64)
bit_six t h = (==_iff _ _).0 (all_below_sound 256 six_test t six_table h)

-- A number below 1025 that has no bit in common with the one before is a power of two.
abbrev power_test : ℕ → ℕ → Bool
power_test n k =
    not (bit_and (n - 1) n == 0) || (not (leb (2 ^ k) n && ltb n (2 ^ suc k)) || n == 2 ^ k)

power_table : all_below 1025 (λ n. all_below 11 (power_test n)) ≡ true
unfolding all_below
power_table = refl

pub power_of_two :
    (n k : ℕ) → n < 1025 → k < 11 → bit_and (n - 1) n ≡ 0 → 2 ^ k ≤ n → n < 2 ^ suc k → n ≡ 2 ^ k
power_of_two n k hn hk none_common lo hi = ground (
  arith,
  all_below_sound 11 (power_test n) k
      (all_below_sound 1025 (λ x. all_below 11 (power_test x)) n power_table hn) hk,
)

-- A power of two up to 1024 has no bit in common with the number before.
abbrev alone_test : ℕ → Bool
alone_test k = bit_and (2 ^ k - 1) (2 ^ k) == 0 && leb (2 ^ k) 1024

alone_table : all_below 11 alone_test ≡ true
unfolding all_below
alone_table = refl

pub power_alone : (k : ℕ) → k < 11 → (bit_and (2 ^ k - 1) (2 ^ k) ≡ 0) × (2 ^ k ≤ 1024)
power_alone k h = ground (arith, all_below_sound 11 alone_test k alone_table h)
