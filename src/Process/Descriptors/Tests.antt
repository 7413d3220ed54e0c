-- ===== src/Process/Descriptors/Tests.antt =====
-- Runs of the descriptor calls, and the theorems at concrete inputs.
use martian_os.Prelude.{ℕ, ◌+◌, ◌≡◌, refl, true, false, [], ◌∷◌, some, set, replicate}
use martian_os.Prelude.Int.{ℤ, pos, minus_one}
use martian_os.CString.{codes}
use martian_os.Fs.{FileEntry, OpTable, free}
use martian_os.Process.Types.{Drivers, Kernel, Pcb, fds, fd_entry, no_entry, put_fd, psv_file}
use martian_os.Process.Descriptors.{
  init_file_table, syscall_read, syscall_close, syscall_open, open_slot, open_entry, open_kind,
  first_free_fd, bad_close_fd, bad_read_fd, is_free_fd,
}
use martian_os.Process.Descriptors.Table.{IsTable, KeepsEntries, init_file_table-IsTable}
use martian_os.Process.Descriptors.Outcome.{
  opens, closes, reads, run_calls, run_calls-IsTable, open-IsTable, Opened, syscall_open-Opened,
}
use martian_os.Process.Descriptors.Lifecycle.{open-close}

-- Drivers that find every name as a PSV file with node 5, and count what is read and written.
abbrev counting_read : OpTable → FileEntry → ℕ → ℤ → ℕ → ℤ × FileEntry × ℕ
counting_read op e b n w = (pos 1, record e { file_pos = e.file_pos + 1 }, w + 1)

abbrev counting : Drivers
counting = record {
  World = ℕ;
  lookup = λ name w. (some (record { kind = psv_file; nr_inode = 5 }), w);
  open_rtc = λ w. w;
  read = counting_read;
  write = counting_read;
}

counting-KeepsEntries : KeepsEntries counting
counting-KeepsEntries = record {
  read_flags = λ op e b n w. refl;
  read_table = λ op e b n w. refl;
  write_flags = λ op e b n w. refl;
  write_table = λ op e b n w. refl;
}

abbrev raw_pcb : Pcb
raw_pcb = record {
  parent_pid = minus_one;
  pid = 0;
  vidmap_flag = 0;
  esp = 0;
  ebp = 0;
  tss_esp0 = 0;
  args = [];
  pcb_fds = replicate 8 no_entry;
}

abbrev shell_kernel : Kernel ℕ
shell_kernel = record {
  interrupts = false;
  cur_pcb_ptr = 100;
  pcbs = λ a. init_file_table raw_pcb;
  world = 0;
}

shell_kernel-IsTable : IsTable (fds shell_kernel)
shell_kernel-IsTable = (init_file_table-IsTable raw_pcb refl).0

first_open : (syscall_open counting (some (codes "/a")) shell_kernel).0 ≡ pos 2
unfolding syscall_open open_entry open_slot open_kind first_free_fd init_file_table
first_open = refl

opened_kernel : Kernel ℕ
opened_kernel = (syscall_open counting (some (codes "/a")) shell_kernel).1

opened_kernel-IsTable : IsTable (fds opened_kernel)
unfolding opened_kernel
opened_kernel-IsTable = open-IsTable counting (some (codes "/a")) shell_kernel shell_kernel-IsTable

second_close : (syscall_close counting (pos 2) opened_kernel).0 ≡ pos 0
unfolding opened_kernel syscall_open open_entry open_slot open_kind first_free_fd init_file_table
    syscall_close bad_close_fd put_fd
second_close = refl

syscall_open-Opened_example :
    Opened shell_kernel (syscall_open counting (some (codes "/a")) shell_kernel)
syscall_open-Opened_example = syscall_open-Opened counting (some (codes "/a")) shell_kernel

stdout_is_not_read : (syscall_read counting (pos 1) 0 (pos 4) shell_kernel).0 ≡ minus_one
unfolding syscall_read bad_read_fd
stdout_is_not_read = refl

run_calls-IsTable_example : IsTable (
    fds (
      run_calls counting
        (opens (some (codes "/a")) ∷ reads (pos 2) 0 (pos 4) ∷ closes (pos 2) ∷ [])
        shell_kernel))
run_calls-IsTable_example =
    run_calls-IsTable counting counting-KeepsEntries
      (opens (some (codes "/a")) ∷ reads (pos 2) 0 (pos 4) ∷ closes (pos 2) ∷ []) shell_kernel
      shell_kernel-IsTable

open-close_example :
    let r =
      syscall_close counting (pos 2) (syscall_open counting (some (codes "/a")) shell_kernel).1 in
    (r.0 ≡ pos 0)
    × (is_free_fd (fd_entry shell_kernel 2).flags ≡ true)
    × (e : FileEntry) × (e.flags ≡ free)
    × (fds r.1 ≡ set (fds shell_kernel) 2 e)
open-close_example =
    open-close counting (some (codes "/a")) shell_kernel 2 shell_kernel-IsTable first_open
