-- ===== src/Pit/Tests.antt =====
-- A tick at a concrete state.
use martian_os.Prelude.{ℕ, ◌≡◌, refl, true, List, [], ◌∷◌, replicate, arith}
use martian_os.Pic.{Pic}
use martian_os.Process.System.State.{resumes}
use martian_os.Process.System.Rounds.{Switched}
use martian_os.Process.System.Tests.{finding, elf_image, a_frame, first_shell, some_pcbs}
use martian_os.Process.Pids.{get_pcb_ptr}
use martian_os.Prelude.Int.{pos}
use martian_os.Ports.{Ports}
use martian_os.Pit.{Timer, pit_init, pit_int_handler}
use martian_os.Pit.Tick.{pit_int_handler-Switched}

abbrev open_pic : Pic
open_pic = record {
  master_data = replicate 8 true;
  slave_data = replicate 8 true;
  master_mask = replicate 8 true;
  slave_mask = replicate 8 true;
  commands = [];
}

-- The shells of three terminals, the first in control.
abbrev a_timer : Timer ℕ
a_timer = record { pic = open_pic; screen_term = 0; system = first_shell }

pit_int_handler-Switched_example :
    let r = pit_int_handler finding elf_image a_frame a_timer in
    let saved = some_pcbs (get_pcb_ptr (pos 1)) in
    (r.0 ≡ resumes saved.esp saved.ebp 0)
    × Switched a_frame 0 1 0 1 first_shell r.1.system
    × (r.1.pic ≡ record open_pic { commands = (0x20, 0x60) ∷ [] })
    × (r.1.screen_term ≡ r.1.system.running_term)
    × (r.1.system.kernel.interrupts ≡ true)
pit_int_handler-Switched_example =
    pit_int_handler-Switched finding elf_image a_frame a_timer 0 1 0 1 refl (omega arith)
      (λ e. omega (arith, e)) (omega arith) (omega arith) (λ e. omega (arith, e)) refl refl refl
      refl refl refl

-- The bytes that reach the timer, the last one first.
abbrev logged : Ports
logged = record { World = List (ℕ × ℕ); inb = λ port w. (0, w); outb = λ v port w. (port, v) ∷ w }

timer_bytes : (pit_init logged (open_pic, [])).1 ≡ (0x40, 0x2E) ∷ (0x40, 0x9C) ∷ (0x43, 0x37) ∷ []
unfolding pit_init
timer_bytes = refl
