-- ===== src/Process/Descriptors/Outcome.antt =====
-- What syscall_open returns and leaves, and how the calls on one descriptor follow one another.
use martian_os.Prelude.{
  ℕ, ◌<◌, ◌≤◌, ◌≡◌, refl, ◌⊎◌, inl, inr, true, false, List, [], ◌∷◌, Option, none, some, set,
  Bool-cases, arith,
}
use martian_os.Prelude.Int.{ℤ, pos, minus_one}
use martian_os.Fs.{FileEntry, in_use}
use martian_os.Process.Types.{Drivers, Kernel, Dentry, fds, fd_entry}
use martian_os.Process.Descriptors.{
  first_free_fd, is_free_fd, syscall_read, syscall_write, syscall_close, syscall_open, open_kind,
  open_slot, open_entry,
}
use martian_os.Process.Descriptors.Table.{IsTable, KeepsEntries, set-IsTable}
use martian_os.Process.Descriptors.Preserve.{
  first_free_fd_lem, put_fd-fds, read-IsTable, write-IsTable, close-IsTable,
}

-- Either -1, with the table as it was, or the least free descriptor from 2 on, whose entry is then
-- in use at position 0, and with every other entry as it was.
abbrev pub Opened : {W : Type 0} → Kernel W → ℤ × Kernel W → Type 0
Opened k (r, k') =
    ((r ≡ minus_one) × (fds k' ≡ fds k))
    ⊎ ((idx : ℕ) × (e : FileEntry) × (r ≡ pos idx)
        × (2 ≤ idx)
        × (idx < 8)
        × (is_free_fd (fd_entry k idx).flags ≡ true)
        × ((j : ℕ) → 2 ≤ j → j < idx → is_free_fd (fd_entry k j).flags ≡ false)
        × (e.flags ≡ in_use)
        × (e.file_pos ≡ 0)
        × (fds k' ≡ set (fds k) idx e))

module _ (d : Drivers) where
  open_slot-Opened :
      (filename : List ℕ) (dentry : Dentry) (k : Kernel d.World) (slot : Option ℕ)
      → first_free_fd (fds k) 6 2 ≡ slot
      → Opened k (open_slot d filename dentry k slot)
  unfolding open_slot
  open_slot-Opened filename dentry k none e = inl (refl, refl)
  open_slot-Opened filename dentry k (some idx) e =
      elim (Bool-cases (open_kind d dentry.kind filename k.world).0) [
        | inl opened ↦
            let f = first_free_fd_lem (fds k) 6 2 idx e in
            rw opened (
              inr (idx, _, refl, f.0, omega (arith, f.1), f.2, f.3, refl, refl, put_fd-fds _ idx _))
        | inr failed ↦ rw failed (inl (refl, refl))
      ]

  open_entry-Opened :
      (filename : List ℕ) (k : Kernel d.World) (found : Option Dentry)
      → Opened k (open_entry d filename k found)
  unfolding open_entry
  open_entry-Opened filename k none = inl (refl, refl)
  open_entry-Opened filename k (some dentry) = open_slot-Opened filename dentry k _ refl

  -- Whatever the name is and whatever the look-up does, `syscall_open` either fails with -1 and
  -- leaves the descriptor table as it was, or returns the least free descriptor from 2 to 7 and
  -- writes that entry alone, in use and at position 0.
  pub syscall_open-Opened :
      (name : Option (List ℕ)) (k : Kernel d.World) → Opened k (syscall_open d name k)
  unfolding syscall_open
  syscall_open-Opened none k = inl (refl, refl)
  syscall_open-Opened (some filename) k =
      open_entry-Opened filename (record k { world = (d.lookup filename k.world).1 }) _

-- A descriptor call of a program.
pub data FdCall : Type 0 where
  opens : Option (List ℕ) → FdCall
  closes : ℤ → FdCall
  reads : ℤ → ℕ → ℤ → FdCall
  writes : ℤ → ℕ → ℤ → FdCall

pub run_call : (d : Drivers) → FdCall → Kernel d.World → ℤ × Kernel d.World
run_call d (opens name) k = syscall_open d name k
run_call d (closes fd) k = syscall_close d fd k
run_call d (reads fd buf n) k = syscall_read d fd buf n k
run_call d (writes fd buf n) k = syscall_write d fd buf n k

pub run_calls : (d : Drivers) → List FdCall → Kernel d.World → Kernel d.World
run_calls d [] k = k
run_calls d (c ∷ cs) k = run_calls d cs (run_call d c k).1

pub open-IsTable :
    (d : Drivers) (name : Option (List ℕ)) (k : Kernel d.World)
    → IsTable (fds k)
    → IsTable (fds (syscall_open d name k).1)
open-IsTable d name k v = elim (syscall_open-Opened d name k) [
  | inl (r, same) ↦ rw same v
  | inr (idx, e, r, lo, hi, f, least, use_, at0, table) ↦
      rw table (set-IsTable (fds k) idx e v hi (λ h. cc) (inl lo))
]

run_call-IsTable :
    (d : Drivers)
    → KeepsEntries d
    → (c : FdCall) (k : Kernel d.World) → IsTable (fds k)
    → IsTable (fds (run_call d c k).1)
unfolding run_call
run_call-IsTable d keeps (opens name) k v = open-IsTable d name k v
run_call-IsTable d keeps (closes fd) k v = close-IsTable d fd k v
run_call-IsTable d keeps (reads fd buf n) k v = read-IsTable d keeps fd buf n k v
run_call-IsTable d keeps (writes fd buf n) k v = write-IsTable d keeps fd buf n k v

-- With drivers that keep flags and table of an entry, no sequence of descriptor calls breaks the
-- table: eight entries, descriptors 0 and 1 open on the standard streams, no entry in error.
pub run_calls-IsTable :
    (d : Drivers)
    → KeepsEntries d
    → (cs : List FdCall) (k : Kernel d.World) → IsTable (fds k)
    → IsTable (fds (run_calls d cs k))
unfolding run_calls
run_calls-IsTable d keeps [] k v = v
run_calls-IsTable d keeps (c ∷ cs) k v =
    run_calls-IsTable d keeps cs (run_call d c k).1 (run_call-IsTable d keeps c k v)
