-- ===== src/Pic.antt =====
-- mp3_Final/student-distrib/i8259.c: the masks of the two interrupt controllers, and what ends an
-- interrupt. A data port gives back the mask that was written to it last.
pub mod Masks
pub mod Tests
use Prim.Native.Nat.{bit_or}
use martian_os.Prelude.{ℕ, ◌-◌, List, [], ◌∷◌, ltb, leb, if◌then◌else◌}
use martian_os.Word.{Word, one_shl, or_word, and_word, not_word}

-- The registers behind the two data ports, the variables `master_mask` and `slave_mask`, and the
-- bytes written to the command ports, the last one first.
pub record Pic : Type 0 where
  pub master_data : Word
  pub slave_data : Word
  pub master_mask : Word
  pub slave_mask : Word
  pub commands : List (ℕ × ℕ)

-- `IRQ_NUM`, `IRQ_HIGH`, `EOI`, `SLAVE_IRQ_LINE` and the command ports.
abbrev pub irq_num_master : ℕ
irq_num_master = 8

abbrev pub irq_high : ℕ
irq_high = 15

abbrev pub eoi : ℕ
eoi = 0x60

abbrev pub slave_irq_line : ℕ
slave_irq_line = 2

abbrev pub master_port : ℕ
master_port = 0x20

abbrev pub slave_port : ℕ
slave_port = 0xA0

pub enable_irq : ℕ → Pic → Pic
enable_irq irq_num s =
    if ltb irq_high irq_num
    then s
    else if leb irq_num_master irq_num
    then (let mask = and_word s.slave_data (not_word (one_shl 8 (irq_num - irq_num_master))) in
        record s { slave_mask = mask; slave_data = mask })
    else (let mask = and_word s.master_data (not_word (one_shl 8 irq_num)) in
        record s { master_mask = mask; master_data = mask })

pub disable_irq : ℕ → Pic → Pic
disable_irq irq_num s =
    if ltb irq_high irq_num
    then s
    else if leb irq_num_master irq_num
    then (let mask = or_word s.slave_data (one_shl 8 (irq_num - irq_num_master)) in
        record s { slave_mask = mask; slave_data = mask })
    else (let mask = or_word s.master_data (one_shl 8 irq_num) in
        record s { master_mask = mask; master_data = mask })

unfoldable pub send_eoi : ℕ → Pic → Pic
send_eoi irq_num s =
    if ltb irq_high irq_num
    then s
    else if leb irq_num_master irq_num
    then record s {
      commands =
          (master_port, bit_or eoi slave_irq_line)
          ∷ (slave_port, bit_or (irq_num - irq_num_master) eoi)
          ∷ s.commands;
    }
    else record s { commands = (master_port, bit_or irq_num eoi) ∷ s.commands }
