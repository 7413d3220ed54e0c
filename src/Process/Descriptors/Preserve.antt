-- ===== src/Process/Descriptors/Preserve.antt =====
-- Every descriptor call keeps the table of the running process well formed.
use martian_os.Prelude.{
  ℕ, zero, suc, ◌+◌, ◌<◌, ◌≤◌, ◌≡◌, sym, ◌∙◌, inl, inr, true, false, List, some, get_or, set, ◌==◌,
  Bool-cases, arith,
}
use martian_os.Prelude.Int.{ℤ, pos, negsuc, pos_part}
use martian_os.Fs.{FileEntry}
use martian_os.Process.Types.{Drivers, Kernel, fds, fd_entry, no_entry, put_fd}
use martian_os.Process.Descriptors.{
  bad_read_fd, bad_write_fd, bad_close_fd, first_free_fd, is_free_fd, syscall_read, syscall_write,
  syscall_close,
}
use martian_os.Process.Descriptors.Table.{IsTable, KeepsEntries, set-IsTable}

-- The free entry that the loop finds lies in its range, and every entry before it is taken.
pub first_free_fd_lem :
    (t : List FileEntry) (n i idx : ℕ)
    → first_free_fd t n i ≡ some idx
    → (i ≤ idx)
      × (idx < i + n)
      × (is_free_fd (get_or t idx no_entry).flags ≡ true)
      × ((j : ℕ) → i ≤ j → j < idx → is_free_fd (get_or t j no_entry).flags ≡ false)
unfolding first_free_fd
first_free_fd_lem t zero i idx e = cc
first_free_fd_lem t (suc n) i idx e = elim (Bool-cases (is_free_fd (get_or t i no_entry).flags)) [
  | inl here ↦
      let s : i ≡ idx = ground arith in
      (omega arith, omega arith, rw (← s) here, λ j lo hi. absurd (omega arith))
  | inr taken ↦
      let rest = first_free_fd_lem t n (i + 1) idx (ground arith) in
      (
        omega (arith, rest.0),
        omega (arith, rest.1),
        rest.2,
        λ j lo hi. elim (Bool-cases (i == j)) [
          | inl here ↦ let s : i ≡ j = ground arith in rw (← s) taken
          | inr away ↦ rest.3 j (ground arith) hi
        ],
      )
]

module _ {W : Type 0} where
  pub put_fd-fds : (k : Kernel W) (i : ℕ) (e : FileEntry) → fds (put_fd k i e) ≡ set (fds k) i e
  unfolding put_fd
  put_fd-fds k i e = ground arith

  put_fd-IsTable :
      (k : Kernel W) (i : ℕ) (e : FileEntry)
      → IsTable (set (fds k) i e)
      → IsTable (fds (put_fd k i e))
  put_fd-IsTable k i e v = rw (put_fd-fds k i e) v

pub bad_read_fd_range :
    (fd : ℤ) → bad_read_fd fd ≡ false → (pos_part fd < 8) × (fd ≡ pos (pos_part fd))
unfolding bad_read_fd
bad_read_fd_range (pos n) h = ground arith
bad_read_fd_range (negsuc n) h = ground arith

pub bad_write_fd_range :
    (fd : ℤ)
    → bad_write_fd fd ≡ false
    → (pos_part fd < 8) × (1 ≤ pos_part fd) × (fd ≡ pos (pos_part fd))
unfolding bad_write_fd
bad_write_fd_range (pos n) h = ground arith
bad_write_fd_range (negsuc n) h = ground arith

pub bad_close_fd_range :
    (fd : ℤ)
    → bad_close_fd fd ≡ false
    → (pos_part fd < 8) × (2 ≤ pos_part fd) × (fd ≡ pos (pos_part fd))
unfolding bad_close_fd
bad_close_fd_range (pos n) h = ground arith
bad_close_fd_range (negsuc n) h = ground arith

pub close-IsTable :
    (d : Drivers) (fd : ℤ) (k : Kernel d.World)
    → IsTable (fds k)
    → IsTable (fds (syscall_close d fd k).1)
unfolding syscall_close
close-IsTable d fd k v = elim (Bool-cases (bad_close_fd fd)) [
  | inl bad ↦ rw bad v
  | inr good ↦ elim (Bool-cases (is_free_fd (fd_entry k (pos_part fd)).flags)) [
    | inl f ↦ rw (good, f) v
    | inr u ↦
        let r = bad_close_fd_range fd good in
        rw (good, u)
          (put_fd-IsTable k (pos_part fd) _
            (set-IsTable (fds k) (pos_part fd) _ v r.0 (λ e. cc) (inl r.1)))
  ]
]

module _ (d : Drivers) (keeps : KeepsEntries d) where
  pub read-IsTable :
      (fd : ℤ) (buf : ℕ) (n : ℤ) (k : Kernel d.World)
      → IsTable (fds k)
      → IsTable (fds (syscall_read d fd buf n k).1)
  unfolding syscall_read
  read-IsTable fd buf n k v = elim (Bool-cases (bad_read_fd fd)) [
    | inl bad ↦ rw bad v
    | inr good ↦ elim (Bool-cases (is_free_fd (fd_entry k (pos_part fd)).flags)) [
      | inl f ↦ rw (good, f) v
      | inr u ↦
          let i = pos_part fd in
          let e = fd_entry k i in
          let same = keeps.read_flags e.op_ptr e buf n k.world in
          rw (good, u)
            (put_fd-IsTable _ i _ (
              set-IsTable (fds k) i _ v (bad_read_fd_range fd good).0
                (λ h. v.no_error i (sym same ∙ h))
                (inr (same, keeps.read_table e.op_ptr e buf n k.world))))
    ]
  ]

  pub write-IsTable :
      (fd : ℤ) (buf : ℕ) (n : ℤ) (k : Kernel d.World)
      → IsTable (fds k)
      → IsTable (fds (syscall_write d fd buf n k).1)
  unfolding syscall_write
  write-IsTable fd buf n k v = elim (Bool-cases (bad_write_fd fd)) [
    | inl bad ↦ rw bad v
    | inr good ↦ elim (Bool-cases (is_free_fd (fd_entry k (pos_part fd)).flags)) [
      | inl f ↦ rw (good, f) v
      | inr u ↦
          let i = pos_part fd in
          let e = fd_entry k i in
          let same = keeps.write_flags e.op_ptr e buf n k.world in
          rw (good, u)
            (put_fd-IsTable _ i _ (
              set-IsTable (fds k) i _ v (bad_write_fd_range fd good).0
                (λ h. v.no_error i (sym same ∙ h))
                (inr (same, keeps.write_table e.op_ptr e buf n k.world))))
    ]
  ]
