-- ===== src/Process/System/Return.antt =====
-- What syscall_halt leaves, and the way from a parent to its child and back.
use martian_os.Prelude.{ℕ, ◌+◌, ◌<◌, ◌≡◌, ◌≢◌, refl, ap, sym, ◌∙◌, false, arith}
use martian_os.Prelude.Int.{pos}
use martian_os.Fs.{Image}
use martian_os.Process.Types.{Drivers, Kernel}
use martian_os.Process.Pids.{get_pcb_ptr, decord_process}
use martian_os.Process.Pids.Laws.{get_pcb_ptr-apart}
use martian_os.Process.System.State.{
  System, resumes, Frame, cur_pcb, user_page, setup_paging_and_flush_tlb,
}
use martian_os.Process.System.Halt.{syscall_halt, resume_parent, close_fds, end_vidmap, halt_value}
use martian_os.Process.System.Closing.{close_fds-SameBlocks, end_vidmap-KeepsProcesses}

pub get_pcb_ptr_ne : (m p : ℕ) → m < 6 → p < 6 → m ≢ p → get_pcb_ptr (pos m) ≢ get_pcb_ptr (pos p)
get_pcb_ptr_ne m p hm hp ne e = omega (arith, e, get_pcb_ptr-apart m p hm hp ne)

-- Process `p` is back: its block, stack and pages are the current ones, the id of `m` is given
-- back, and no block but that of `m` has changed.
pub record BackIn {W : Type 0} (m p : ℕ) (s s' : System W) : Type 0 where
  pub pid : s'.cur_pid ≡ pos p
  pub ptr : s'.kernel.cur_pcb_ptr ≡ get_pcb_ptr (pos p)
  pub bitmap : s'.pcb_bitmap ≡ (decord_process (pos m) s.pcb_bitmap).1
  pub pages : (s'.page_dir_base user_page).pg_addr ≡ p + 2
  pub mapped : (s'.page_dir_base user_page).present ≡ 1
  pub stack : s'.tss_esp0 ≡ (s.kernel.pcbs (get_pcb_ptr (pos p))).tss_esp0
  pub blocks : (b : ℕ) → get_pcb_ptr (pos m) ≢ b → s'.kernel.pcbs b ≡ s.kernel.pcbs b

-- The state in front of the user's mapping being closed.
abbrev closed : {W : Type 0} → System W → ℕ → Kernel W → System W
closed s p k = record (setup_paging_and_flush_tlb (pos p) s) { kernel = k }

module _ (d : Drivers) (image : d.World → Image) where
  -- When the running process `m` has a parent `p`, `syscall_halt` always returns into the parent's
  -- saved frame, with the status it was given (256 for 255), and the parent runs again in its own
  -- pages and stack. Only the block of `m` changes, and its id is free for the next process.
  pub syscall_halt-BackIn :
      (fr : Frame) (status : ℕ) (s : System d.World) (m p : ℕ)
      → m < 6
      → p < 6
      → m ≢ p
      → s.cur_pid ≡ pos m
      → s.kernel.cur_pcb_ptr ≡ get_pcb_ptr (pos m)
      → (cur_pcb s).parent_pid ≡ pos p
      → let r = syscall_halt d image fr status s in
        let parent = s.kernel.pcbs (get_pcb_ptr (pos p)) in
        (r.0 ≡ resumes parent.esp parent.ebp (halt_value status)) × BackIn m p s r.1
  unfolding syscall_halt resume_parent setup_paging_and_flush_tlb
  syscall_halt-BackIn fr status s m p hm hp ne pid ptr parent =
      let k = record s.kernel { interrupts = false } in
      let c = close_fds-SameBlocks d 8 0 k in
      let b =
        closed
          (record s {
            pcb_bitmap = (decord_process s.cur_pid s.pcb_bitmap).1;
            tss_esp0 = (s.kernel.pcbs (get_pcb_ptr (pos p))).tss_esp0;
          })
          p (close_fds d 8 0 k) in
      let v = end_vidmap-KeepsProcesses b in
      let own : b.kernel.cur_pcb_ptr ≡ get_pcb_ptr (pos m) = c.ptr ∙ ptr in
      let same : (x : ℕ)
          → get_pcb_ptr (pos m) ≢ x
          → (end_vidmap b).kernel.pcbs x ≡ s.kernel.pcbs x =
        λ x nx. v.blocks.others x (λ e. nx (sym own ∙ e)) ∙ c.others x (λ e. nx (sym ptr ∙ e)) in
      let child : (cur_pcb (end_vidmap b)).parent_pid ≡ pos p =
        ap (λ x. ((end_vidmap b).kernel.pcbs x).parent_pid) v.blocks.ptr
        ∙ v.blocks.parent
        ∙ ap (λ x. (b.kernel.pcbs x).parent_pid) c.ptr
        ∙ c.parent
        ∙ parent in
      rw parent (
        ap (λ q. resumes q.esp q.ebp (halt_value status))
            (same (get_pcb_ptr (pos p)) (get_pcb_ptr_ne m p hm hp ne)),
        record {
          pid = child;
          ptr = refl;
          bitmap = v.bitmap ∙ ap (λ x. (decord_process x s.pcb_bitmap).1) pid;
          pages = ap (λ x. x.pg_addr) v.pages ∙ omega arith;
          mapped = ap (λ x. x.present) v.pages;
          stack = v.stack;
          blocks = same;
        },
      )
