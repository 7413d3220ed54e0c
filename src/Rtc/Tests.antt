-- ===== src/Rtc/Tests.antt =====
-- A chip with its registers, and the clock on it.
use martian_os.Prelude.{
  ℕ, suc, ◌+◌, ◌%◌, ◌^◌, ◌<◌, ◌≤◌, ◌≡◌, ◌≢◌, refl, ap, ◌⊎◌, true, some, none, ◌==◌, if◌then◌else◌,
  [], replicate, arith,
}
use martian_os.Prelude.Int.{ℤ, pos}
use martian_os.Process.Types.{update}
use mathlib.Core.Path.{fun_ext}
use martian_os.Ports.{Ports}
use martian_os.Pic.{Pic}
use martian_os.Pic.Masks.{IsPic}
use martian_os.Rtc.{Clock, log_loop, rtc_write, rtc_int_handler, rtc_read, num_byte}
use martian_os.Rtc.Cmos.{Cmos}
use martian_os.Rtc.Log.{log_loop_ends}
use martian_os.Rtc.Rate.{Sets, Refuses, rtc_write-Sets}
use martian_os.Rtc.Signal.{rtc_read-next}

-- The selected register, and the registers, which hold bytes.
record Chip : Type 0 where
  selected : ℕ
  cell : ℕ → ℕ

abbrev read_cell : ℕ → Chip → Chip
read_cell i w = if i == 12 then record w { cell = update w.cell 12 0 } else w

abbrev chip_ports : Ports
chip_ports = record {
  World = Chip;
  inb =
      λ port w. if port == 0x71 then (w.cell w.selected % 256, read_cell w.selected w) else (0, w);
  outb = λ v port w.
      if port == 0x70
      then record w { selected = v % 128 }
      else if port == 0x71
      then record w { cell = update w.cell w.selected (v % 256) }
      else w;
}

abbrev chip : Chip
chip = record { selected = 0; cell = λ i. 0x26 }

chip_cmos : Cmos chip_ports
chip_cmos = record {
  index = λ w. w.selected;
  reg = λ w i. w.cell i % 256;
  bytes = λ w i. omega arith;
  select_index = λ v w. refl;
  select_reg = λ v w. refl;
  select_read = λ w. refl;
  give = λ w. refl;
  give_reg = λ w other. ap (λ t i. t.cell i % 256) (kept w other);
  give_c = λ w here. fun_ext (λ i. cleared w here i);
  take = λ v w. fun_ext (λ i. taken v w i);
}
  where
    kept : (w : Chip) → w.selected ≢ 12 → read_cell w.selected w ≡ w
    kept w other = ground arith

    cleared :
        (w : Chip)
        → w.selected ≡ 12
        → (i : ℕ) → (read_cell w.selected w).cell i % 256 ≡ update (λ j. w.cell j % 256) 12 0 i
    cleared w here i = ground arith

    taken :
        (v : ℕ) (w : Chip) (i : ℕ)
        → update w.cell w.selected (v % 256) i % 256
          ≡ update (λ j. w.cell j % 256) w.selected (v % 2 ^ 8) i
    taken v w i = ground arith

abbrev masked_pic : Pic
masked_pic = record {
  master_data = replicate 8 true;
  slave_data = replicate 8 true;
  master_mask = replicate 8 true;
  slave_mask = replicate 8 true;
  commands = [];
}

masked_pic-IsPic : IsPic masked_pic
masked_pic-IsPic = record { master_bits = refl; slave_bits = refl }

abbrev clock : Clock Chip
clock = record {
  rtc_signal = 1;
  test_rtc = 0;
  interrupt_time_count = 0;
  pic = masked_pic;
  interrupts = true;
  world = chip;
}

log_loop_ends_example :
    (k : ℕ) × (log_loop 32 1000 0 ≡ some (0 + k)) × (2 ^ k ≤ 1000) × (1000 < 2 ^ suc k)
log_loop_ends_example = log_loop_ends 32 1000 0 (omega arith) (omega arith)

rtc_write-Sets_example :
    (r : ℤ) × (w' : Chip) × (rtc_write chip_ports (some (pos 512)) num_byte chip ≡ some (r, w'))
    × (Sets chip_ports chip_cmos num_byte (pos 512) chip r w'
        ⊎ Refuses chip_ports chip_cmos num_byte (pos 512) chip r w')
rtc_write-Sets_example = rtc_write-Sets chip_ports chip_cmos (pos 512) num_byte chip

rtc_read-next_example :
    (rtc_read chip_ports 0 clock ≡ none)
    × (rtc_read chip_ports 1 clock
        ≡ some (
          pos 0,
          record (rtc_int_handler chip_ports (record clock { rtc_signal = 0 })) { rtc_signal = 0 },
        ))
rtc_read-next_example = rtc_read-next chip_ports 0 clock
