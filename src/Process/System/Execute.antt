-- ===== src/Process/System/Execute.antt =====
-- syscall_handler.c, syscall_execute.
use martian_os.Prelude.{
  ℕ, zero, suc, ◌+◌, ◌-◌, Bool, true, false, not, ◌||◌, List, ◌++◌, Option, none, some, get_or, set,
  drop, length, ◌==◌, if◌then◌else◌,
}
use martian_os.Prelude.Int.{ℤ, pos, negsuc, minus_one, eqb_ℤ}
use martian_os.Prelude.Machine.{ones32}
use martian_os.CString.{strncpy}
use martian_os.Fs.{Image, FileEntry, free, read_data, inode_length, load32}
use martian_os.Process.Types.{Drivers, Pcb, Dentry, no_entry}
use martian_os.Process.Descriptors.{init_file_table}
use martian_os.Process.Pids.{record_process, get_pcb_ptr, bits32, size_8k}
use martian_os.Process.Args.{parse_args}
use martian_os.Process.System.State.{
  System, Outcome, returns, enters_user, Frame, cur_pcb, put_pcb, set_interrupts,
  setup_paging_and_flush_tlb, store_virtual, load_virtual,
}

-- `PROGRAM_VIR_ADDR`
abbrev pub program_vir_addr : ℕ
program_vir_addr = 0x08048000

-- `ARG_LEN`
abbrev pub arg_len : ℕ
arg_len = 128

-- The test for the four bytes of an ELF file, on what `read_data` returned and the buffer.
unfoldable pub fails_elf : ℕ → List ℕ → Bool
fails_elf read_result four =
    read_result == ones32
    || (not (get_or four 0 0 == 0x7F)
        || (not (get_or four 1 0 == 0x45)
            || (not (get_or four 2 0 == 0x4C) || not (get_or four 3 0 == 0x46))))

-- The loop that frees the descriptors from `i` on, with `n` rounds left.
unfoldable pub free_fds : ℕ → ℕ → List FileEntry → List FileEntry
free_fds zero i t = t
free_fds (suc n) i t = free_fds n (i + 1) (set t i (record (get_or t i no_entry) { flags = free }))

-- The new process's control block, at address `a`, from what stood there.
unfoldable pub init_pcb : ℤ → ℤ → ℕ → List ℕ → Pcb → Pcb
init_pcb new_pid parent a args old =
    let p =
      init_file_table (record old { pid = bits32 new_pid; parent_pid = parent; vidmap_flag = 0 }) in
    record p {
      tss_esp0 = a + size_8k - 4;
      pcb_fds = free_fds 6 2 p.pcb_fds;
      args = strncpy p.args args arg_len;
    }

module _ {W : Type 0} where
  -- `if (cur_pid != -1)`: the registers go to the control block of the running process.
  unfoldable pub save_registers : Frame → System W → System W
  save_registers fr s =
      if not (eqb_ℤ s.cur_pid minus_one)
      then put_pcb s s.kernel.cur_pcb_ptr (record (cur_pcb s) { esp = fr.esp; ebp = fr.ebp })
      else s

  -- From the control block on to the jump into the program.
  unfoldable pub enter_process : Frame → ℤ → List ℕ → System W → Outcome × System W
  enter_process fr new_pid args s0 =
      let a = get_pcb_ptr new_pid in
      let s =
        save_registers fr (put_pcb s0 a (init_pcb new_pid s0.cur_pid a args (s0.kernel.pcbs a))) in
      let entered = record s {
        kernel = record s.kernel { cur_pcb_ptr = a; interrupts = true };
        cur_pid = new_pid;
        tss_esp0 = (s.kernel.pcbs a).tss_esp0;
      } in
      (
        enters_user (load32 (load_virtual s.page_dir_base s.frames) (program_vir_addr + 24)),
        entered,
      )

module _ (d : Drivers) (image : d.World → Image) where
  -- The pages are set up and the file is copied to the program's address.
  unfoldable pub load_program : ℤ → Dentry → System d.World → System d.World
  load_program new_pid dentry s0 =
      let s = setup_paging_and_flush_tlb new_pid s0 in
      let img = image s.kernel.world in
      let (res, bytes) = read_data img dentry.nr_inode 0 (inode_length img dentry.nr_inode) in
      record s { frames = store_virtual s.page_dir_base s.frames program_vir_addr bytes }

  -- What follows the allocation of a process id.
  unfoldable pub start_process :
      Frame → Dentry → List ℕ → System d.World → ℤ → Outcome × System d.World
  start_process fr dentry args s (negsuc n) = (returns (pos 0), s)
  start_process fr dentry args s (pos pid) =
      enter_process fr (pos pid) args (load_program (pos pid) dentry s)

  -- What follows the look-up of the program's name.
  unfoldable pub check_program :
      Frame → List ℕ → System d.World → Option Dentry → Outcome × System d.World
  check_program fr args s none = (returns minus_one, s)
  check_program fr args s (some dentry) =
      let (res, bytes) = read_data (image s.kernel.world) dentry.nr_inode 0 4 in
      let (new_pid, bitmap) = record_process s.pcb_bitmap in
      if fails_elf res (bytes ++ drop (length bytes) fr.first_four_bytes)
      then (returns minus_one, s)
      else start_process fr dentry args (record s { pcb_bitmap = bitmap }) new_pid

  -- `parse_args` fails on a null pointer alone.
  unfoldable pub syscall_execute :
      Frame → Option (List ℕ) → System d.World → Outcome × System d.World
  syscall_execute fr none s = (returns minus_one, set_interrupts s false)
  syscall_execute fr (some user_input) s0 =
      let s = set_interrupts s0 false in
      let (res, file_name, args) = parse_args (some user_input) fr.file_name fr.args in
      let (found, w) = d.lookup file_name s.kernel.world in
      check_program fr args (record s { kernel = record s.kernel { world = w } }) found
