-- ===== src/Process/System/Getargs/Tests.antt =====
-- A program that is started with arguments.
use martian_os.Prelude.{ℕ, ◌≡◌, refl, true, List, [], ◌∷◌, some, length, replicate, get_or, arith}
use martian_os.Prelude.Int.{pos}
use martian_os.CString.{strlen, fill_zero}
use martian_os.Fs.{
  inode_length, inode_block, slice, has_bad_block, copy_blocks, copy_range, read_data,
}
use martian_os.Process.Types.{Pcb}
use martian_os.Process.Pids.{get_pcb_ptr, record_process}
use martian_os.Process.Args.{parse_args, parse_rounds, parse_round, skip_spaces, count_spaces}
use martian_os.Process.Args.Split.{command}
use martian_os.Process.System.State.{System, enters_user, setup_paging_and_flush_tlb, store_virtual}
use martian_os.Process.System.Execute.{
  syscall_execute, check_program, start_process, load_program, enter_process, fails_elf,
  save_registers,
}
use martian_os.Process.System.Tests.{finding, elf_image, a_frame, first_shell, some_pcbs}
use martian_os.Process.System.Getargs.{syscall_getargs, execute-getargs}

-- The blocks have their 128 bytes for arguments.
abbrev with_args : ℕ → Pcb
with_args a = record (some_pcbs a) { args = replicate 128 7 }

abbrev a_shell : System ℕ
a_shell = record first_shell { kernel = record first_shell.kernel { pcbs = with_args } }

-- ` ls  -a`
abbrev ls_a : List ℕ
ls_a = command 1 (108 ∷ 115 ∷ []) 1 (45 ∷ 97 ∷ [])

ls_starts : (syscall_execute finding elf_image a_frame (some ls_a) a_shell).0 ≡ enters_user 16
unfolding syscall_execute check_program start_process load_program enter_process save_registers
    fails_elf record_process parse_args parse_rounds parse_round skip_spaces count_spaces strlen
    fill_zero inode_length inode_block slice has_bad_block copy_blocks copy_range read_data
    store_virtual setup_paging_and_flush_tlb get_pcb_ptr
ls_starts = refl

execute-getargs_example :
    let t = (syscall_execute finding elf_image a_frame (some ls_a) a_shell).1 in
    let got = syscall_getargs (λ i. 9) true (pos 1024) t in
    (got.0 ≡ pos 0) × (length got.1 ≡ 1024) × (get_or got.1 1 0 ≡ 97)
execute-getargs_example =
    execute-getargs finding elf_image (λ i. 9) a_frame a_shell 1 108 (115 ∷ []) 1 45 (97 ∷ []) 16
      1024 1
      (
        (λ e. omega (arith, e)),
        (λ e. omega (arith, e)),
        ((λ e. omega (arith, e)), (λ e. omega (arith, e)), tt),
      )
      (λ e. omega (arith, e)) ((λ e. omega (arith, e)), ((λ e. omega (arith, e)), tt)) (omega arith)
      (omega arith) refl (λ b. refl) (omega arith) ls_starts
