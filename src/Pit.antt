-- ===== src/Pit.antt =====
-- mp3_Final/student-distrib/pit.c: the timer whose interrupt switches between the terminals.
pub mod Tick
pub mod Tests
use martian_os.Prelude.{ℕ, ◌/◌, ◌%◌, ◌^◌, Bool, true, false}
use martian_os.Prelude.Int.{ℤ}
use martian_os.Fs.{Image}
use martian_os.Ports.{Ports}
use martian_os.Pic.{Pic, enable_irq, send_eoi}
use martian_os.Process.Types.{Drivers}
use martian_os.Process.System.State.{
  System, Outcome, returns, enters_user, resumes, Frame, term, set_interrupts,
}
use martian_os.Process.System.Schedule.{schedule}

-- `PIT_IRQ`, `_100HZ` and the ports.
abbrev pub pit_irq : ℕ
pit_irq = 0

abbrev pub hz_100 : ℕ
hz_100 = 11932

abbrev pub pit_cmd_reg : ℕ
pit_cmd_reg = 0x43

abbrev pub pit_chnl_0_port : ℕ
pit_chnl_0_port = 0x40

module _ (p : Ports) where
  pub pit_init : Pic × p.World → Pic × p.World
  pit_init (pic, w) =
      let w1 = p.outb 0x37 pit_cmd_reg w in
      let w2 = p.outb (hz_100 % 2 ^ 8) pit_chnl_0_port w1 in
      (enable_irq pit_irq pic, p.outb (hz_100 / 2 ^ 8 % 2 ^ 8) pit_chnl_0_port w2)

-- The kernel as the timer sees it: `screen_term` is the terminal whose cursor `screen_x_ptr` and
-- `screen_y_ptr` point to.
pub record Timer (World : Type 0) : Type 0 where
  pub pic : Pic
  pub screen_term : ℕ
  pub system : System World

module _ (d : Drivers) (image : d.World → Image) where
  -- The process that goes on was saved in its own call of `schedule`, and runs `sti` behind it. A
  -- program that starts is entered with interrupts on by `syscall_execute`.
  abbrev pub after_schedule : Outcome × System d.World → System d.World
  after_schedule (returns r, s) = set_interrupts s true
  after_schedule (resumes esp ebp eax, s) = set_interrupts s true
  after_schedule (enters_user eip, s) = s

  pub pit_int_handler : Frame → Timer d.World → Outcome × Timer d.World
  pit_int_handler fr t =
      let s = set_interrupts t.system false in
      let next = (term s s.running_term).next_term_to_run in
      let r = schedule d image fr s in
      (
        r.0,
        record {
          pic = send_eoi pit_irq t.pic;
          screen_term = (term s next).tid;
          system = after_schedule r;
        },
      )
