-- ===== src/Process/System/Tests.antt =====
-- Runs of execute, halt and schedule, and the theorems at concrete inputs.
use martian_os.Prelude.{
  ◌≢◌, suc, zero, ◌<◌, ℕ, ◌+◌, ◌≡◌, refl, true, [], ◌∷◌, some, length, replicate, ◌==◌,
  if◌then◌else◌, arith,
}
use martian_os.Prelude.Int.{ℤ, pos, minus_one}
use martian_os.CString.{codes, strlen, fill_zero}
use martian_os.Fs.{
  Image, FileEntry, OpTable, inode_length, inode_block, slice, has_bad_block, copy_blocks,
  copy_range, read_data,
}
use martian_os.Process.Types.{Drivers, Pcb, no_entry, regular}
use martian_os.Process.Pids.{get_pcb_ptr, record_process}
use martian_os.Process.Args.{parse_args, parse_rounds, parse_round, skip_spaces, count_spaces}
use martian_os.Process.System.State.{
  load_virtual, System, enters_user, resumes, Frame, Terminal, cur_pcb, setup_paging_and_flush_tlb,
  store_virtual,
}
use martian_os.Process.System.Execute.{
  program_vir_addr, syscall_execute, check_program, start_process, load_program, enter_process,
  fails_elf, save_registers,
}
use martian_os.Process.System.Halt.{syscall_halt, halt_value}
use martian_os.Process.System.Schedule.{schedule}
use martian_os.Process.System.Return.{BackIn, syscall_halt-BackIn}
use martian_os.Process.System.Outcomes.{Executed, syscall_execute-Executed, execute-halt}
use martian_os.Process.System.Rounds.{schedule-round}
use martian_os.Fs.Read.{file_byte, GoodBlocks}
use martian_os.Process.System.Loading.{load_program-file}

-- Inode 0 at address 0: 28 bytes in block 0, at 8192, an ELF file that is entered at 16.
abbrev pub elf_mem : ℕ → ℕ
elf_mem a =
    if a == 0
    then 28
    else if a == 8192
    then 0x7F
    else if a == 8193
    then 0x45
    else if a == 8194
    then 0x4C
    else if a == 8195
    then 0x46
    else if a == 8216
    then 16
    else 0

abbrev pub elf_image : ℕ → Image
elf_image w = record {
  mem = elf_mem;
  inode_start = 0;
  data_block_start = 8192;
  num_data_blocks = 2;
}

abbrev pub no_transfer : OpTable → FileEntry → ℕ → ℤ → ℕ → ℤ × FileEntry × ℕ
no_transfer op e b n w = (minus_one, e, w)

-- Drivers that find every name as inode 0.
abbrev pub finding : Drivers
finding = record {
  World = ℕ;
  lookup = λ name w. (some (record { kind = regular; nr_inode = 0 }), w);
  open_rtc = λ w. w;
  read = no_transfer;
  write = no_transfer;
}

-- Process `pid` with parent `parent`, registers from `pid`.
abbrev pub some_pcb : ℕ → ℤ → Pcb
some_pcb pid parent = record {
  parent_pid = parent;
  pid = pid;
  vidmap_flag = 0;
  esp = 100 + pid;
  ebp = 200 + pid;
  tss_esp0 = 300 + pid;
  args = [];
  pcb_fds = replicate 8 no_entry;
}

abbrev pub a_terminal : ℕ → ℤ → ℕ → Terminal
a_terminal tid pid next = record {
  tid = tid;
  pid = pid;
  kbd_buf = [];
  buf_pos = 0;
  kbd_buf_ready = 0;
  cursor_x = pos 0;
  cursor_y = pos 0;
  vid_mem_buffer = 0;
  vidmap_flag = 0;
  next_term_to_run = next;
}

-- The block of process 3 says that 0 started it, and all others that they have no parent.
abbrev pub some_pcbs : ℕ → Pcb
some_pcbs a = if a == 8355840 then some_pcb 3 (pos 0) else some_pcb 0 minus_one

-- Processes 0, 1 and 2 on the three terminals, and process `running` in control.
abbrev pub three_shells : ℕ → ℕ → System ℕ
three_shells running ptr = record {
  kernel = record { interrupts = true; cur_pcb_ptr = ptr; pcbs = some_pcbs; world = 0 };
  cur_pid = pos running;
  pcb_bitmap = 1 ∷ 1 ∷ 1 ∷ 0 ∷ 0 ∷ 0 ∷ [];
  page_dir_base = λ i. record { present = 1; dirty = 0; is_global = 0; pg_addr = i };
  frames = λ f a. 0;
  tss_esp0 = 300;
  term_arr = a_terminal 0 (pos 0) 1 ∷ a_terminal 1 (pos 1) 2 ∷ a_terminal 2 (pos 2) 0 ∷ [];
  running_term = 0;
  viewing_term = 0;
}

abbrev pub a_frame : Frame
a_frame = record {
  esp = 11;
  ebp = 22;
  first_four_bytes = replicate 4 0;
  file_name = replicate 33 0;
  args = replicate 128 0;
}

abbrev pub first_shell : System ℕ
first_shell = three_shells 0 (get_pcb_ptr (pos 0))

abbrev a_child : System ℕ
a_child = three_shells 3 (get_pcb_ptr (pos 3))

eight_entries : (a : ℕ) → length (some_pcbs a).pcb_fds ≡ 8
eight_entries a = ground arith

syscall_execute-Executed_example :
    Executed a_frame first_shell
      (syscall_execute finding elf_image a_frame (some (codes "ls")) first_shell)
syscall_execute-Executed_example =
    syscall_execute-Executed finding elf_image a_frame (some (codes "ls")) first_shell refl
      eight_entries

child_block : (cur_pcb a_child).parent_pid ≡ pos 0
unfolding get_pcb_ptr
child_block = refl

syscall_halt-BackIn_example :
    let r = syscall_halt finding elf_image a_frame 7 a_child in
    let parent = some_pcbs (get_pcb_ptr (pos 0)) in
    (r.0 ≡ resumes parent.esp parent.ebp (halt_value 7)) × BackIn 3 0 a_child r.1
syscall_halt-BackIn_example =
    syscall_halt-BackIn finding elf_image a_frame 7 a_child 3 0 (omega arith) (omega arith)
      (λ e. omega (arith, e)) refl refl child_block

schedule-round_example :
    let s1 = (schedule finding elf_image a_frame first_shell).1 in
    let s2 = (schedule finding elf_image a_frame s1).1 in
    let last = schedule finding elf_image a_frame s2 in
    (last.0 ≡ resumes 11 22 0)
    × (last.1.running_term ≡ 0)
    × (last.1.cur_pid ≡ pos 0)
    × (last.1.kernel.cur_pcb_ptr ≡ get_pcb_ptr (pos 0))
    × ((last.1.page_dir_base 32).pg_addr ≡ 0 + 2)
    × (last.1.tss_esp0 ≡ 300)
schedule-round_example =
    schedule-round finding elf_image a_frame a_frame a_frame first_shell 0 1 2 0 1 2 refl
      (omega arith, omega arith, omega arith)
      ((λ e. omega (arith, e)), (λ e. omega (arith, e)), (λ e. omega (arith, e)))
      (omega arith, omega arith, omega arith)
      ((λ e. omega (arith, e)), (λ e. omega (arith, e)), (λ e. omega (arith, e))) refl refl refl
      (refl, refl, refl) (refl, refl)

-- The program is found, read, loaded and entered.
child_starts :
    (syscall_execute finding elf_image a_frame (some (codes "ls")) first_shell).0 ≡ enters_user 16
unfolding syscall_execute check_program start_process load_program enter_process save_registers
    fails_elf record_process parse_args parse_rounds parse_round skip_spaces count_spaces strlen
    fill_zero inode_length inode_block slice has_bad_block copy_blocks copy_range read_data
    store_virtual setup_paging_and_flush_tlb get_pcb_ptr
child_starts = refl

execute-halt_example :
    let s = first_shell in
    let r =
      syscall_halt finding elf_image a_frame 255
        (syscall_execute finding elf_image a_frame (some (codes "ls")) s).1 in
    (r.0 ≡ resumes 11 22 (halt_value 255))
    × (r.1.cur_pid ≡ s.cur_pid)
    × (r.1.kernel.cur_pcb_ptr ≡ s.kernel.cur_pcb_ptr)
    × (r.1.pcb_bitmap ≡ s.pcb_bitmap)
    × ((r.1.page_dir_base 32).pg_addr ≡ 0 + 2)
    × (r.1.tss_esp0 ≡ (cur_pcb s).tss_esp0)
    × (cur_pcb r.1 ≡ record (cur_pcb s) { esp = 11; ebp = 22 })
execute-halt_example =
    execute-halt finding elf_image a_frame a_frame (some (codes "ls")) first_shell 255 0 16 refl
      eight_entries (omega arith) (λ e. omega (arith, e)) refl refl child_starts

elf_blocks : GoodBlocks (elf_image 0) 0 0 1
unfolding inode_block
elf_blocks zero lo hi = omega arith
elf_blocks (suc j) lo hi = absurd (omega arith)

load_program-file_example :
    let s' =
      load_program finding elf_image
        (pos 3)
        (record { kind = regular; nr_inode = 0 })
        first_shell in
    ((i : ℕ)
      → i < inode_length (elf_image 0) 0
      → load_virtual s'.page_dir_base s'.frames (program_vir_addr + i)
        ≡ file_byte (elf_image 0) 0 i)
    × ((f x : ℕ) → f ≢ 3 + 2 → s'.frames f x ≡ 0)
unfolding inode_length
load_program-file_example =
    load_program-file finding elf_image 3 (record { kind = regular; nr_inode = 0 }) first_shell
      (omega arith) (omega arith) (omega arith) (omega arith) (omega arith) elf_blocks
