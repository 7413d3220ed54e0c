-- ===== src/Process/System/Outcomes.antt =====
-- How syscall_execute ends, and the way from a parent to its child and back.
use martian_os.Prelude.{
  ℕ, ◌+◌, ◌<◌, ◌≡◌, ◌≢◌, refl, ap, sym, ◌∙◌, ◌⊎◌, inl, inr, false, List, ◌++◌, drop, length, Option,
  none, some, get_or, set, ◌==◌, Bool-cases, arith,
}
use martian_os.Prelude.Int.{pos, minus_one}
use martian_os.Fs.{Image, read_data}
use martian_os.Process.Types.{Drivers, Dentry}
use martian_os.Process.Pids.{get_pcb_ptr, record_process, decord_process}
use martian_os.Process.Pids.Laws.{record_process_lem, decord_marked}
use martian_os.Process.Args.{parse_args}
use martian_os.Process.System.State.{
  System, Outcome, returns, enters_user, resumes, Frame, cur_pcb, setup_paging_and_flush_tlb,
}
use martian_os.Process.System.Execute.{
  syscall_execute, check_program, start_process, load_program, enter_process, fails_elf,
}
use martian_os.Process.System.Entry.{with_registers, Started, Untouched, enter_process_lem}
use martian_os.Process.System.Halt.{syscall_halt, halt_value}
use martian_os.Process.System.Return.{syscall_halt-BackIn, get_pcb_ptr_ne}

-- The call failed or found no free id, and touched no process; or it entered process `m`.
abbrev pub Executed : {W : Type 0} → Frame → System W → Outcome × System W → Type 0
Executed fr s (o, s') =
    (((o ≡ returns minus_one)
        ⊎ ((o ≡ returns (pos 0)) × ((j : ℕ) → j < 6 → get_or s.pcb_bitmap j 0 ≢ 0)))
      × Untouched s s')
    ⊎ ((eip : ℕ) × (m : ℕ) × (o ≡ enters_user eip) × Started fr m s s')

with_own_registers :
    {W : Type 0} (fr : Frame) (s : System W) (p : ℕ)
    → s.cur_pid ≡ pos p
    → s.kernel.cur_pcb_ptr ≡ get_pcb_ptr (pos p)
    → with_registers fr s (get_pcb_ptr (pos p)) ≡ record (cur_pcb s) { esp = fr.esp; ebp = fr.ebp }
with_own_registers fr s p pid ptr =
    elim (Bool-cases (s.kernel.cur_pcb_ptr == get_pcb_ptr (pos p))) [
      | inl here ↦
          rw (pid, here)
            (ap (λ x. record (s.kernel.pcbs x) { esp = fr.esp; ebp = fr.ebp }) (sym ptr))
      | inr away ↦ absurd (ground arith)
    ]

module _ (d : Drivers) (image : d.World → Image) where
  load_program_pages :
      (m : ℕ) (dentry : Dentry) (s : System d.World)
      → m < 6
      → (((load_program d image (pos m) dentry s).page_dir_base 32).pg_addr ≡ m + 2)
        × (((load_program d image (pos m) dentry s).page_dir_base 32).present ≡ 1)
  unfolding load_program setup_paging_and_flush_tlb
  load_program_pages m dentry s h = (omega arith, refl)

  entered :
      (fr : Frame) (dentry : Dentry) (args : List ℕ) (s : System d.World) (w : d.World) (m : ℕ)
      → ((a : ℕ) → length (s.kernel.pcbs a).pcb_fds ≡ 8)
      → m < 6
      → get_or s.pcb_bitmap m 0 ≡ 0
      → ((j : ℕ) → j < m → get_or s.pcb_bitmap j 0 ≢ 0)
      → let s1 = record s { kernel = record s.kernel { interrupts = false; world = w } } in
        Executed fr s (
          start_process d image fr dentry args
            (record s1 { pcb_bitmap = set s.pcb_bitmap m 1 })
            (pos m))
  unfolding start_process load_program enter_process setup_paging_and_flush_tlb
  entered fr dentry args s w m fds8 room unused least =
      let s1 = record s {
        kernel = record s.kernel { interrupts = false; world = w };
        pcb_bitmap = set s.pcb_bitmap m 1;
      } in
      let pages = load_program_pages m dentry s1 room in
      inr (
        _,
        m,
        refl,
        enter_process_lem fr m args s (load_program d image (pos m) dentry s1)
            (fds8 (get_pcb_ptr (pos m))) room unused least refl refl pages.0 pages.1 (λ b. refl),
      )

  -- From the allocation of an id on, in a state `s1` that differs from `s` in the interrupt flag
  -- and the drivers' state alone.
  start_process-Executed :
      (fr : Frame) (dentry : Dentry) (args : List ℕ) (s : System d.World) (w : d.World)
      → length s.pcb_bitmap ≡ 6
      → ((a : ℕ) → length (s.kernel.pcbs a).pcb_fds ≡ 8)
      → let s1 = record s { kernel = record s.kernel { interrupts = false; world = w } } in
        let r = record_process s.pcb_bitmap in
        Executed fr s (start_process d image fr dentry args (record s1 { pcb_bitmap = r.1 }) r.0)
  start_process-Executed fr dentry args s w h8 fds8 = elim (record_process_lem s.pcb_bitmap h8) [
    | inl (r, taken) ↦ rw r (unfold start_process in inl (inr (refl, taken), (w, refl)))
    | inr (m, r, room, unused, least) ↦ rw r (entered fr dentry args s w m fds8 room unused least)
  ]

  check_program-Executed :
      (fr : Frame) (args : List ℕ) (s : System d.World) (w : d.World) (found : Option Dentry)
      → length s.pcb_bitmap ≡ 6
      → ((a : ℕ) → length (s.kernel.pcbs a).pcb_fds ≡ 8)
      → Executed fr s (
          check_program d image fr args
            (record s { kernel = record s.kernel { interrupts = false; world = w } })
            found)
  unfolding check_program
  check_program-Executed fr args s w none h8 fds8 = inl (inl refl, (w, refl))
  check_program-Executed fr args s w (some dentry) h8 fds8 =
      let r = read_data (image w) dentry.nr_inode 0 4 in
      elim (Bool-cases (fails_elf r.0 (r.1 ++ drop (length r.1) fr.first_four_bytes))) [
        | inl bad ↦ rw bad (inl (inl refl, (w, refl)))
        | inr good ↦ rw good (start_process-Executed fr dentry args s w h8 fds8)
      ]

  -- Whatever the command and whatever the look-up does: `syscall_execute` returns -1, or 0 when all
  -- six ids are in use, and touches no process; or it enters a new process that has the least free
  -- id, a fresh table of descriptors, its own stack and its own page, with the running process as
  -- its parent, whose registers are saved and whose block is otherwise as it was.
  pub syscall_execute-Executed :
      (fr : Frame) (input : Option (List ℕ)) (s : System d.World)
      → length s.pcb_bitmap ≡ 6
      → ((a : ℕ) → length (s.kernel.pcbs a).pcb_fds ≡ 8)
      → Executed fr s (syscall_execute d image fr input s)
  unfolding syscall_execute
  syscall_execute-Executed fr none s h8 fds8 = inl (inl refl, (s.kernel.world, refl))
  syscall_execute-Executed fr (some input) s h8 fds8 =
      check_program-Executed fr (parse_args (some input) fr.file_name fr.args).2 s _ _ h8 fds8

  -- A program that `syscall_execute` entered and that then ends returns to the process that started
  -- it: `syscall_halt` goes back into the saved frame with the status, and the parent runs again
  -- with the ids, the stack and the page that it had before, its block but for the saved registers
  -- as it was.
  pub execute-halt :
      (fr fr' : Frame) (input : Option (List ℕ)) (s : System d.World) (status p eip : ℕ)
      → length s.pcb_bitmap ≡ 6
      → ((a : ℕ) → length (s.kernel.pcbs a).pcb_fds ≡ 8)
      → p < 6
      → get_or s.pcb_bitmap p 0 ≢ 0
      → s.cur_pid ≡ pos p
      → s.kernel.cur_pcb_ptr ≡ get_pcb_ptr (pos p)
      → (syscall_execute d image fr input s).0 ≡ enters_user eip
      → let r = syscall_halt d image fr' status (syscall_execute d image fr input s).1 in
        (r.0 ≡ resumes fr.esp fr.ebp (halt_value status))
        × (r.1.cur_pid ≡ s.cur_pid)
        × (r.1.kernel.cur_pcb_ptr ≡ s.kernel.cur_pcb_ptr)
        × (r.1.pcb_bitmap ≡ s.pcb_bitmap)
        × ((r.1.page_dir_base 32).pg_addr ≡ p + 2)
        × (r.1.tss_esp0 ≡ (cur_pcb s).tss_esp0)
        × (cur_pcb r.1 ≡ record (cur_pcb s) { esp = fr.esp; ebp = fr.ebp })
  execute-halt fr fr' input s status p eip h8 fds8 hp used pid ptr e =
      elim (syscall_execute-Executed fr input s h8 fds8) [
        | inl (failed, same) ↦ elim failed [ inl q ↦ absurd (cc) | inr (q, full) ↦ absurd (cc) ]
        | inr (eip', m, o, v) ↦
            let s1 = (syscall_execute d image fr input s).1 in
            let ne : m ≢ p = λ q. used (ap (λ x. get_or s.pcb_bitmap x 0) (sym q) ∙ v.unused) in
            let h =
              syscall_halt-BackIn d image fr' status s1 m p v.room hp ne v.pid v.ptr
                (v.parent ∙ pid) in
            let parent = v.blocks (get_pcb_ptr (pos p)) (get_pcb_ptr_ne m p v.room hp ne) in
            let all = parent ∙ with_own_registers fr s p pid ptr in
            let back = h.1 in
            (
              h.0 ∙ ap (λ q. resumes q.esp q.ebp (halt_value status)) all,
              back.pid ∙ sym pid,
              back.ptr ∙ sym ptr,
              back.bitmap
                  ∙ ap (λ x. (decord_process (pos m) x).1) v.bitmap
                  ∙ ap (λ x. x.1) (decord_marked s.pcb_bitmap m h8 v.room v.unused),
              back.pages,
              back.stack ∙ ap (λ q. q.tss_esp0) all,
              ap (λ x. (syscall_halt d image fr' status s1).1.kernel.pcbs x) back.ptr
                  ∙ back.blocks (get_pcb_ptr (pos p)) (get_pcb_ptr_ne m p v.room hp ne)
                  ∙ all,
            )
      ]
