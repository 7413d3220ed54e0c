-- ===== src/Process/System/Halt.antt =====
-- syscall_handler.c, syscall_halt.
use martian_os.Prelude.{ℕ, zero, suc, ◌+◌, ◌/◌, ◌^◌, false, not, some, set, ◌==◌, if◌then◌else◌}
use martian_os.Prelude.Int.{pos, minus_one, eqb_ℤ}
use martian_os.CString.{codes}
use martian_os.Fs.{Image}
use martian_os.Process.Types.{Drivers, Kernel}
use martian_os.Process.Descriptors.{syscall_close}
use martian_os.Process.Pids.{decord_process, get_pcb_ptr}
use martian_os.Process.System.State.{
  System, Outcome, returns, enters_user, resumes, Frame, cur_pcb, put_pcb, term, set_interrupts,
  setup_paging_and_flush_tlb, switch_usrmap,
}
use martian_os.Process.System.Execute.{syscall_execute}

-- `VIDEO`
abbrev pub video : ℕ
video = 0xB8000

-- `(status == 255) ? 256 : (uint16_t)status`
abbrev pub halt_value : ℕ → ℕ
halt_value status = if status == 255 then 256 else status

module _ {W : Type 0} where
  -- The process and its terminal have no mapping of the screen any more.
  unfoldable pub clear_vidmap : System W → System W
  clear_vidmap s0 =
      let s = put_pcb s0 s0.kernel.cur_pcb_ptr (record (cur_pcb s0) { vidmap_flag = 0 }) in
      record s {
        term_arr =
            set s.term_arr s.running_term (record (term s s.running_term) { vidmap_flag = 0 });
      }

  -- The page of the user's mapping is closed.
  unfoldable pub close_usrmap : System W → System W
  close_usrmap s =
      if (term s s.running_term).tid == (term s s.viewing_term).tid
      then switch_usrmap (video / 2 ^ 12) 0 s
      else switch_usrmap ((term s s.running_term).vid_mem_buffer / 2 ^ 12) 0 s

  -- `if (cur_pcb_ptr->vidmap_flag)`
  unfoldable pub end_vidmap : System W → System W
  end_vidmap s = if not ((cur_pcb s).vidmap_flag == 0) then close_usrmap (clear_vidmap s) else s

module _ (d : Drivers) where
  -- The loop that closes the descriptors from `i` on, with `n` rounds left.
  unfoldable pub close_fds : ℕ → ℕ → Kernel d.World → Kernel d.World
  close_fds zero i k = k
  close_fds (suc n) i k = close_fds n (i + 1) (syscall_close d (pos i) k).1

module _ (d : Drivers) (image : d.World → Image) where
  -- From the parent's stack on to the jump into it.
  unfoldable pub resume_parent : ℕ → System d.World → Outcome × System d.World
  resume_parent status s0 =
      let a = get_pcb_ptr (cur_pcb s0).parent_pid in
      let s1 =
        setup_paging_and_flush_tlb (cur_pcb s0).parent_pid
          (record s0 { tss_esp0 = (s0.kernel.pcbs a).tss_esp0 }) in
      let s2 = end_vidmap (record s1 { kernel = close_fds d 8 0 s1.kernel }) in
      let s = record s2 {
        cur_pid = (cur_pcb s2).parent_pid;
        kernel = record s2.kernel { cur_pcb_ptr = a };
      } in
      (resumes (s.kernel.pcbs a).esp (s.kernel.pcbs a).ebp (halt_value status), s)

  -- A base shell that ends is started again; `execute` comes back only if that fails.
  abbrev pub after_shell : ℕ → Outcome × System d.World → Outcome × System d.World
  after_shell status (returns r, s) = resume_parent status s
  after_shell status (enters_user eip, s) = (enters_user eip, s)
  after_shell status (resumes esp ebp eax, s) = (resumes esp ebp eax, s)

  unfoldable pub syscall_halt : Frame → ℕ → System d.World → Outcome × System d.World
  syscall_halt fr status s0 =
      let s = record (set_interrupts s0 false) {
        pcb_bitmap = (decord_process s0.cur_pid s0.pcb_bitmap).1;
      } in
      if eqb_ℤ (cur_pcb s).parent_pid minus_one
      then (after_shell status
          (syscall_execute d image fr (some (codes "shell")) (record s { cur_pid = minus_one })))
      else resume_parent status s
