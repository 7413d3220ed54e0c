-- ===== src/Process/Types.antt =====
-- syscall_handler.h: the process control block, and the kernel's variables.
use martian_os.Prelude.{ℕ, Bool, List, Option, ◌==◌, if◌then◌else◌, get_or, set}
use martian_os.Prelude.Int.{ℤ}
use martian_os.Fs.{FileEntry, free, OpTable, stdin_ops}

-- The function that differs from `f` at `a` alone.
abbrev pub update {ℓ} : {A : Type ℓ} → (ℕ → A) → ℕ → A → ℕ → A
update f a v b = if a == b then v else f b

-- The fields of `dentry_t` that the calls look at.
pub record Dentry : Type 0 where
  pub kind : ℕ
  pub nr_inode : ℕ

-- The values of `type`.
abbrev pub user_rtc : ℕ
user_rtc = 0

abbrev pub dir : ℕ
dir = 1

abbrev pub regular : ℕ
regular = 2

abbrev pub psv_folder : ℕ
psv_folder = 3

abbrev pub psv_file : ℕ
psv_file = 4

-- `PCB_t`, less the fields that no code uses. `esp` and `ebp` are what the code saves by `asm`.
pub record Pcb : Type 0 where
  pub parent_pid : ℤ
  pub pid : ℕ
  pub vidmap_flag : ℕ
  pub esp : ℕ
  pub ebp : ℕ
  pub tss_esp0 : ℕ
  pub args : List ℕ
  pub pcb_fds : List FileEntry

-- What the system calls use of the other components. `World` is their state.
pub record Drivers : Type 1 where
  pub World : Type 0
  -- `read_dentry_by_name`
  pub lookup : List ℕ → World → Option Dentry × World
  -- `rtc_open`
  pub open_rtc : World → World
  -- The `read` and `write` of an operation table, on an entry, a buffer address and a size.
  pub read : OpTable → FileEntry → ℕ → ℤ → World → ℤ × FileEntry × World
  pub write : OpTable → FileEntry → ℕ → ℤ → World → ℤ × FileEntry × World

-- The variables of the kernel that the file descriptor calls use. PCBs stand at addresses.
pub record Kernel (World : Type 0) : Type 0 where
  pub interrupts : Bool
  pub cur_pcb_ptr : ℕ
  pub pcbs : ℕ → Pcb
  pub world : World

-- An entry that is never looked at: where a table has fewer than eight.
abbrev pub no_entry : FileEntry
no_entry = record { op_ptr = stdin_ops; inode = 0; file_pos = 0; flags = free }

-- `cur_pcb_ptr->pcb_fds`
abbrev pub fds : {W : Type 0} → Kernel W → List FileEntry
fds k = (k.pcbs k.cur_pcb_ptr).pcb_fds

-- `cur_pcb_ptr->pcb_fds[i]`
abbrev pub fd_entry : {W : Type 0} → Kernel W → ℕ → FileEntry
fd_entry k i = get_or (fds k) i no_entry

-- `cur_pcb_ptr->pcb_fds[i] = e`
unfoldable pub put_fd : {W : Type 0} → Kernel W → ℕ → FileEntry → Kernel W
put_fd k i e = record k {
  pcbs = update k.pcbs k.cur_pcb_ptr (record (k.pcbs k.cur_pcb_ptr) { pcb_fds = set (fds k) i e });
}
