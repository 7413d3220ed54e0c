-- ===== src/Process/Descriptors.antt =====
-- syscall_read, syscall_open, syscall_close, syscall_write and init_file_table.
pub mod Table
pub mod Preserve
pub mod Outcome
pub mod Lifecycle
pub mod Tests
use martian_os.Prelude.{
  ℕ, zero, suc, ◌+◌, ◌^◌, ◌-◌, Bool, true, false, ◌||◌, List, [], Option, none, some, get_or, set,
  ltb, ◌==◌, if◌then◌else◌,
}
use martian_os.Prelude.Int.{ℤ, pos, negsuc, minus_one, ltb_ℤ, eqb_ℤ, pos_part}
use martian_os.Fs.{
  FileEntry, Flags, free, in_use, oerror, OpTable, stdin_ops, stdout_ops, rtc_ops, dir_ops,
  regular_file_ops, psv_folder_ops, psv_file_ops,
}
use martian_os.Process.Types.{
  Drivers, Kernel, Pcb, Dentry, user_rtc, dir, regular, psv_folder, psv_file, fds, fd_entry, put_fd,
  no_entry,
}

-- `flags == FREE`
abbrev pub is_free_fd : Flags → Bool
is_free_fd free = true
is_free_fd _ = false

-- The inode number of the first two entries, -1, which no code looks at.
abbrev pub no_inode : ℕ
no_inode = 2 ^ 32 - 1

-- One round of the loop of `init_file_table`, on entry `i`.
pub init_entry : ℕ → FileEntry → FileEntry
init_entry zero e = record e { op_ptr = stdin_ops; inode = no_inode; file_pos = 0; flags = in_use }
init_entry (suc zero) e = record e {
  op_ptr = stdout_ops;
  inode = no_inode;
  file_pos = 0;
  flags = in_use;
}
init_entry (suc (suc i)) e = record e { flags = free }

-- The rounds from `i` on, with `n` left.
pub init_entries : ℕ → ℕ → List FileEntry → List FileEntry
init_entries zero i t = t
init_entries (suc n) i t = init_entries n (i + 1) (set t i (init_entry i (get_or t i no_entry)))

unfoldable pub init_file_table : Pcb → Pcb
unfolding init_entries init_entry
init_file_table pcb = record pcb { pcb_fds = init_entries 8 0 pcb.pcb_fds }

-- The loop of `syscall_open`: the first free entry from `idx` on, with `n` rounds left.
pub first_free_fd : List FileEntry → ℕ → ℕ → Option ℕ
first_free_fd t zero idx = none
first_free_fd t (suc n) idx =
    let rest = first_free_fd t n (idx + 1) in
    if is_free_fd (get_or t idx no_entry).flags then some idx else rest

-- The operation table for a type; the `switch` leaves the old one for any other type.
abbrev pub op_for : ℕ → OpTable → OpTable
op_for kind old =
    if kind == dir
    then dir_ops
    else if kind == user_rtc
    then rtc_ops
    else if kind == regular
    then regular_file_ops
    else if kind == psv_folder
    then psv_folder_ops
    else if kind == psv_file
    then psv_file_ops
    else old

-- `fd >= 8 || fd < 0 || fd == 1`
pub bad_read_fd : ℤ → Bool
bad_read_fd fd = ltb_ℤ (pos 7) fd || (ltb_ℤ fd (pos 0) || eqb_ℤ fd (pos 1))

-- `fd >= 8 || fd <= 0`
pub bad_write_fd : ℤ → Bool
bad_write_fd fd = ltb_ℤ (pos 7) fd || ltb_ℤ fd (pos 1)

-- `fd < 2 || fd > 7`
pub bad_close_fd : ℤ → Bool
bad_close_fd fd = ltb_ℤ fd (pos 2) || ltb_ℤ (pos 7) fd

module _ (d : Drivers) where
  open d use {World, lookup, open_rtc, read as read_op, write as write_op}

  pub syscall_read : ℤ → ℕ → ℤ → Kernel World → ℤ × Kernel World
  syscall_read fd buf nbytes k0 =
      let k = record k0 { interrupts = true } in
      if bad_read_fd fd
      then (minus_one, k)
      else if is_free_fd (fd_entry k (pos_part fd)).flags
      then (minus_one, k)
      else (let (res, e, w) =
            read_op (fd_entry k (pos_part fd)).op_ptr (fd_entry k (pos_part fd)) buf nbytes
              k.world in
          (res, put_fd (record k { world = w }) (pos_part fd) e))

  pub syscall_write : ℤ → ℕ → ℤ → Kernel World → ℤ × Kernel World
  syscall_write fd buf nbytes k =
      if bad_write_fd fd
      then (minus_one, k)
      else if is_free_fd (fd_entry k (pos_part fd)).flags
      then (minus_one, k)
      else (let (res, e, w) =
            write_op (fd_entry k (pos_part fd)).op_ptr (fd_entry k (pos_part fd)) buf nbytes
              k.world in
          (res, put_fd (record k { world = w }) (pos_part fd) e))

  unfoldable pub syscall_close : ℤ → Kernel World → ℤ × Kernel World
  syscall_close fd k =
      if bad_close_fd fd
      then (minus_one, k)
      else if is_free_fd (fd_entry k (pos_part fd)).flags
      then (minus_one, k)
      else (pos 0, put_fd k (pos_part fd) (record (fd_entry k (pos_part fd)) { flags = free }))

  -- What opening does by the type of the entry, before the descriptor is filled in: `dir_open` and
  -- `file_open` look the name up again and fail if it is not found, `rtc_open` sets the frequency.
  pub open_kind : ℕ → List ℕ → World → Bool × World
  open_kind kind filename w =
      if kind == dir || kind == regular
      then (let (found, w') = lookup filename w in
          (elim found [ none ↦ false | some e ↦ true ], w'))
      else if kind == user_rtc
      then (true, open_rtc w)
      else (true, w)

  -- The body of the loop, on the free entry that it stops at.
  pub open_slot : List ℕ → Dentry → Kernel World → Option ℕ → ℤ × Kernel World
  open_slot filename dentry k none = (minus_one, k)
  open_slot filename dentry k (some idx) =
      let (opened, w) = open_kind dentry.kind filename k.world in
      let k' = record k { world = w } in
      if opened
      then (
        pos idx,
        put_fd k' idx (record {
          op_ptr = op_for dentry.kind (fd_entry k idx).op_ptr;
          inode = dentry.nr_inode;
          file_pos = 0;
          flags = in_use;
        }),
      )
      else (minus_one, k')

  -- What follows the look-up of the name.
  pub open_entry : List ℕ → Kernel World → Option Dentry → ℤ × Kernel World
  open_entry filename k none = (minus_one, k)
  open_entry filename k (some dentry) = open_slot filename dentry k (first_free_fd (fds k) 6 2)

  -- `none` is the null pointer.
  pub syscall_open : Option (List ℕ) → Kernel World → ℤ × Kernel World
  syscall_open none k = (minus_one, k)
  syscall_open (some filename) k =
      let (found, w) = lookup filename k.world in open_entry filename (record k { world = w }) found
