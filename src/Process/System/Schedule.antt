-- ===== src/Process/System/Schedule.antt =====
-- syscall_handler.c, schedule and launch_base_shell; pit.c, pit_int_handler, which calls schedule.
use martian_os.Prelude.{ℕ, not, some, set, if◌then◌else◌}
use martian_os.Prelude.Int.{ℤ, minus_one, eqb_ℤ}
use martian_os.CString.{codes}
use martian_os.Fs.{Image}
use martian_os.Process.Types.{Drivers}
use martian_os.Process.Pids.{get_pcb_ptr}
use martian_os.Process.System.State.{
  System, Outcome, returns, enters_user, resumes, Frame, cur_pcb, put_pcb, term,
  setup_paging_and_flush_tlb,
}
use martian_os.Process.System.Execute.{syscall_execute}

module _ {W : Type 0} where
  -- The first part: the running process is saved.
  unfoldable pub save_current : Frame → System W → System W
  save_current fr s0 =
      let s = record s0 {
        term_arr =
            set s0.term_arr s0.running_term (record (term s0 s0.running_term) { pid = s0.cur_pid });
      } in
      if not (eqb_ℤ s.cur_pid minus_one)
      then put_pcb s s.kernel.cur_pcb_ptr
          (record (cur_pcb s) { tss_esp0 = s.tss_esp0; esp = fr.esp; ebp = fr.ebp })
      else s

  -- The second part: the next terminal runs, with its process.
  unfoldable pub next_current : System W → System W
  next_current s =
      let next_terminal = (term s s.running_term).next_term_to_run in
      let next_pid = (term s next_terminal).pid in
      record s {
        running_term = next_terminal;
        kernel = record s.kernel { cur_pcb_ptr = get_pcb_ptr next_pid };
        cur_pid = next_pid;
      }

  -- The last part: the next process's pages and registers.
  unfoldable pub resume_next : ℤ → ℕ → System W → Outcome × System W
  resume_next next_pid next_pcb_ptr s0 =
      let s1 = setup_paging_and_flush_tlb next_pid s0 in
      let s = record s1 { tss_esp0 = (s1.kernel.pcbs next_pcb_ptr).tss_esp0 } in
      let p = s.kernel.pcbs next_pcb_ptr in (resumes p.esp p.ebp 0, s)

module _ (d : Drivers) (image : d.World → Image) where
  -- `syscall_execute((uint8_t *)"shell")`; the message before it is left out.
  pub launch_base_shell : Frame → System d.World → Outcome × System d.World
  launch_base_shell fr s = syscall_execute d image fr (some (codes "shell")) s

  -- `launch_base_shell` comes back only if it fails.
  abbrev pub after_launch : ℤ → ℕ → Outcome × System d.World → Outcome × System d.World
  after_launch pid a (returns r, s) = resume_next pid a s
  after_launch pid a (enters_user eip, s) = (enters_user eip, s)
  after_launch pid a (resumes esp ebp eax, s) = (resumes esp ebp eax, s)

  -- The value of `eax` that a resumed process finds is not one that `schedule` returns.
  unfoldable pub schedule : Frame → System d.World → Outcome × System d.World
  schedule fr s0 =
      let s = next_current (save_current fr s0) in
      if eqb_ℤ s.cur_pid minus_one
      then after_launch s.cur_pid s.kernel.cur_pcb_ptr (launch_base_shell fr s)
      else resume_next s.cur_pid s.kernel.cur_pcb_ptr s
