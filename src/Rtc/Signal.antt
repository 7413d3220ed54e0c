-- ===== src/Rtc/Signal.antt =====
-- The clock's start, and the interrupt that a read waits for.
use Prim.Native.Nat.{bit_or}
use martian_os.Prelude.{
  ℕ, zero, suc, ◌+◌, ◌*◌, ◌/◌, ◌%◌, ◌^◌, ◌<◌, ◌≡◌, refl, ap, ◌∙◌, false, ◌||◌, none, some, ◌==◌,
  if◌then◌else◌, arith,
}
use martian_os.Prelude.Int.{pos}
use martian_os.Process.Types.{update}
use martian_os.Ports.{Ports}
use martian_os.Pic.{enable_irq}
use martian_os.Pic.Masks.{masked, IsPic, enable_irq-masked}
use martian_os.Rtc.{Clock, enable_periodic, rtc_init, rtc_int_handler, wait_signal, rtc_read}
use martian_os.Rtc.Cmos.{Cmos, bit_six}

module _ (p : Ports) where
  -- A read waits for the next interrupt, even if one came before the call: with none to come it
  -- never returns, and with one or more it returns 0 after the first, which is counted and
  -- acknowledged like any other, and leaves no signal behind.
  pub rtc_read-next :
      (n : ℕ) (s : Clock p.World)
      → (rtc_read p 0 s ≡ none)
        × (rtc_read p (suc n) s
            ≡ some (
              pos 0,
              record (rtc_int_handler p (record s { rtc_signal = 0 })) { rtc_signal = 0 },
            ))
  unfolding rtc_read wait_signal rtc_int_handler
  rtc_read-next zero s = (refl, refl)
  rtc_read-next (suc n) s = (refl, refl)

module _ (p : Ports) (c : Cmos p) where
  open c use {reg}

  reg-enable_periodic :
      (w : p.World)
      → reg (enable_periodic p w) ≡ update (reg w) 11 (reg w 11 / 128 * 128 + (64 + reg w 11 % 64))
  unfolding enable_periodic
  reg-enable_periodic w =
      let w0 = (p.inb 0x70 w).1 in
      let w1 = p.outb (bit_or (p.inb 0x70 w).0 0x80) 0x70 w0 in
      let wb = p.outb 0x8B 0x70 w1 in
      let at_b : c.index wb ≡ 11 = c.select_index 0x8B w1 in
      let same_b : reg wb ≡ reg w = c.select_reg 0x8B w1 ∙ c.select_reg _ w0 ∙ c.select_read w in
      let w2 = p.outb 0x8B 0x70 (p.inb 0x71 wb).1 in
      let same_2 : reg w2 ≡ reg w = c.select_reg 0x8B _ ∙ c.give_reg wb (ground arith) ∙ same_b in
      let cur_val : (p.inb 0x71 wb).0 ≡ reg w 11 =
        c.give wb ∙ ap (reg wb) at_b ∙ ap (λ r. r 11) same_b in
      let v = bit_or (p.inb 0x71 wb).0 0x40 in
      let byte : v % 2 ^ 8 ≡ reg w 11 / 128 * 128 + (64 + reg w 11 % 64) =
        rw cur_val (omega (arith, bit_six (reg w 11) (c.bytes w 11), c.bytes w 11)) in
      c.take v w2 ∙ (λ i. update (same_2 i) (c.select_index 0x8B (p.inb 0x71 wb).1 i) (byte i))

  -- The start of the clock sets bit 6 of register B, which turns the periodic interrupt on, and
  -- changes no other bit of the chip; it lets the clock's interrupt and that of the second controller
  -- through, and the other ones stay masked or not as they were; no interrupt is counted yet.
  pub rtc_init_lem :
      (s : Clock p.World) (j : ℕ)
      → IsPic s.pic
      → j < 16
      → let t = rtc_init p s in
        (reg t.world
          ≡ update (reg s.world) 11 (reg s.world 11 / 128 * 128 + (64 + reg s.world 11 % 64)))
        × (masked t.pic j ≡ (if 8 == j || 2 == j then false else masked s.pic j))
        × IsPic t.pic
        × (t.rtc_signal ≡ 0)
        × (t.interrupt_time_count ≡ 0)
  unfolding rtc_init
  rtc_init_lem s j v h =
      let clock = enable_irq-masked s.pic 8 j v h in
      let second = enable_irq-masked (enable_irq 8 s.pic) 2 j clock.0 h in
      (
        c.select_reg _ _ ∙ c.select_read _ ∙ reg-enable_periodic s.world,
        ground (arith, second.1, clock.1),
        second.0,
        refl,
        refl,
      )
