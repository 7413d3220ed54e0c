-- ===== src/Rtc.antt =====
-- mp3_Final/student-distrib/rtc.c: the real-time clock, behind the ports of its register bank.
pub mod Log
pub mod Cmos
pub mod Rate
pub mod Signal
pub mod Tests
use Prim.Native.Nat.{bit_and, bit_or}
use martian_os.Prelude.{
  ℕ, zero, suc, ◌+◌, ◌-◌, ◌/◌, ◌%◌, ◌^◌, Bool, true, false, not, ◌||◌, Option, none, some, ◌==◌,
  if◌then◌else◌, ◌>>=◌,
}
use martian_os.Prelude.Int.{ℤ, pos, minus_one, pos_part, ltb_ℤ, eqb_ℤ}
use martian_os.Ports.{Ports}
use martian_os.Pic.{Pic, enable_irq, send_eoi, slave_irq_line}

-- rtc.h
abbrev pub rtc_irq : ℕ
rtc_irq = 8

abbrev pub rtc_port : ℕ
rtc_port = 0x70

-- `RTC_DATA` and `CMOS_PORT`
abbrev pub rtc_data : ℕ
rtc_data = 0x71

abbrev pub sel_b_dis_nmi : ℕ
sel_b_dis_nmi = 0x8B

abbrev pub sel_a_dis_nmi : ℕ
sel_a_dis_nmi = 0x8A

abbrev pub rtc_reg_c : ℕ
rtc_reg_c = 0x0C

abbrev pub num_byte : ℤ
num_byte = pos 4

abbrev pub low_frequency : ℤ
low_frequency = pos 2

abbrev pub high_frequency : ℤ
high_frequency = pos 1024

-- The variables of rtc.h, with the interrupt controllers, the interrupt flag and the devices.
pub record Clock (World : Type 0) : Type 0 where
  pub rtc_signal : ℕ
  pub test_rtc : ℕ
  pub interrupt_time_count : ℕ
  pub pic : Pic
  pub interrupts : Bool
  pub world : World

-- The test in front of `set_frequency`. `fre - 1` and `fre` are in bounds where their bits count.
pub bad_frequency : ℤ → Bool
bad_frequency fre =
    ltb_ℤ fre low_frequency
    || (ltb_ℤ high_frequency fre || not (bit_and (pos_part fre - 1) (pos_part fre) == 0))

-- `while (fre >>= 1) log_fre += 1`, with as many rounds as there are bits.
pub log_loop : ℕ → ℕ → ℕ → Option ℕ
log_loop zero fre log_fre = none
log_loop (suc n) fre log_fre =
    let rest = log_loop n (fre / 2) (log_fre + 1) in if fre / 2 == 0 then some log_fre else rest

module _ (p : Ports) where
  -- What `set_frequency` writes. Between the accesses the index is selected again, since a read
  -- resets it.
  pub set_rate : ℕ → p.World → p.World
  set_rate frame w0 =
      let temp = p.inb rtc_port w0 in
      let w1 = p.outb (bit_or temp.0 0x80) rtc_port temp.1 in
      let reg_a = p.inb rtc_data (p.outb sel_a_dis_nmi rtc_port w1) in
      let w2 = p.outb sel_a_dis_nmi rtc_port reg_a.1 in
      let w3 = p.outb (bit_or (bit_and reg_a.0 0xF0) frame) rtc_data w2 in
      let last = p.inb rtc_port w3 in p.outb (bit_and last.0 0x7F) rtc_port last.1

  -- `none` is a loop that has not ended.
  pub set_frequency : ℤ → p.World → Option (ℤ × p.World)
  set_frequency fre w = if bad_frequency fre then some (minus_one, w) else (do
    log_fre ← log_loop 32 (pos_part fre) 0
    some (pos 0, set_rate ((16 + 2 ^ 8 - log_fre) % 2 ^ 8) w))

  -- `buf` is the number that it points to, or `none` where it is NULL.
  pub rtc_write : Option ℤ → ℤ → p.World → Option (ℤ × p.World)
  rtc_write none nbytes w = some (minus_one, w)
  rtc_write (some fre) nbytes w =
      if not (eqb_ℤ nbytes num_byte) then some (minus_one, w) else set_frequency fre w

  pub rtc_open : p.World → Option (ℤ × p.World)
  rtc_open w = do r ← set_frequency low_frequency w; some (pos 0, r.1)

  -- Bit 6 of register B turns the periodic interrupt on.
  pub enable_periodic : p.World → p.World
  enable_periodic w0 =
      let temp = p.inb rtc_port w0 in
      let w1 = p.outb (bit_or temp.0 0x80) rtc_port temp.1 in
      let cur_val = p.inb rtc_data (p.outb sel_b_dis_nmi rtc_port w1) in
      p.outb (bit_or cur_val.0 0x40) rtc_data (p.outb sel_b_dis_nmi rtc_port cur_val.1)

  pub rtc_init : Clock p.World → Clock p.World
  rtc_init s =
      let last = p.inb rtc_port (enable_periodic s.world) in
      record s {
        rtc_signal = 0;
        test_rtc = 0;
        interrupt_time_count = 0;
        pic = enable_irq slave_irq_line (enable_irq rtc_irq s.pic);
        world = p.outb (bit_and last.0 0x7F) rtc_port last.1;
      }

  pub rtc_int_handler : Clock p.World → Clock p.World
  rtc_int_handler s = record s {
    interrupt_time_count = (s.interrupt_time_count + 1) % 2 ^ 32;
    rtc_signal = 1;
    world = (p.inb rtc_data (p.outb rtc_reg_c rtc_port s.world)).1;
    pic = send_eoi rtc_irq s.pic;
    interrupts = true;
  }

  -- `while (rtc_signal != 1);` while that many interrupts come in; `none` is a wait without end.
  pub wait_signal : ℕ → Clock p.World → Option (Clock p.World)
  wait_signal zero s = if s.rtc_signal == 1 then some s else none
  wait_signal (suc n) s =
      let rest = wait_signal n (rtc_int_handler s) in if s.rtc_signal == 1 then some s else rest

  pub rtc_read : ℕ → Clock p.World → Option (ℤ × Clock p.World)
  rtc_read interrupts_to_come s = do
    t ← wait_signal interrupts_to_come (record s { rtc_signal = 0 })
    some (pos 0, record t { rtc_signal = 0 })
