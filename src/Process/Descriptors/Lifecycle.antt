-- ===== src/Process/Descriptors/Lifecycle.antt =====
-- One descriptor from open to close, and after it.
use martian_os.Prelude.{
  ℕ, ◌<◌, ◌≤◌, ◌≡◌, refl, ap, ◌∙◌, inl, inr, Bool, true, false, List, Option, get_or, set, length,
  get_or-set, set-set, if◌then◌else◌, Bool-cases, arith,
}
use martian_os.Prelude.Int.{ℤ, pos, minus_one, pos_part}
use martian_os.Fs.{FileEntry, free, in_use}
use martian_os.Process.Types.{Drivers, Kernel, fds, fd_entry, no_entry}
use martian_os.Process.Descriptors.{
  is_free_fd, syscall_read, syscall_write, syscall_close, syscall_open, bad_close_fd, bad_read_fd,
  bad_write_fd,
}
use martian_os.Process.Descriptors.Table.{IsTable}
use martian_os.Process.Descriptors.Preserve.{put_fd-fds, bad_close_fd_range}
use martian_os.Process.Descriptors.Outcome.{syscall_open-Opened}

-- What a successful close says of its descriptor, and leaves.
close_inversion :
    (d : Drivers) (fd : ℤ) (k : Kernel d.World)
    → (syscall_close d fd k).0 ≡ pos 0
    → (pos_part fd < 8)
      × (2 ≤ pos_part fd)
      × (fds (syscall_close d fd k).1
          ≡ set (fds k) (pos_part fd) (record (fd_entry k (pos_part fd)) { flags = free }))
unfolding syscall_close
close_inversion d fd k h = elim (Bool-cases (bad_close_fd fd)) [
  | inl bad ↦ absurd (cc (rw bad at h))
  | inr good ↦ elim (Bool-cases (is_free_fd (fd_entry k (pos_part fd)).flags)) [
    | inl f ↦ absurd (cc (rw (good, f) at h))
    | inr u ↦
        let r = bad_close_fd_range fd good in rw (good, u) (r.0, r.1, put_fd-fds k (pos_part fd) _)
  ]
]

close_free :
    (d : Drivers) (fd : ℤ) (k : Kernel d.World)
    → IsTable (fds k)
    → (syscall_close d fd k).0 ≡ pos 0
    → is_free_fd (fd_entry (syscall_close d fd k).1 (pos_part fd)).flags ≡ true
close_free d fd k v h =
    let c = close_inversion d fd k h in
    rw (c.2) (
      ground (
        arith,
        c.0,
        v.size,
        get_or-set (fds k) (pos_part fd) (pos_part fd)
            (record (fd_entry k (pos_part fd)) { flags = free }) no_entry,
      ))

if_same {ℓ} : {A : Type ℓ} (b : Bool) (x : A) → (if b then x else x) ≡ x
if_same true x = refl
if_same false x = refl

read_free :
    (d : Drivers) (fd : ℤ) (buf : ℕ) (n : ℤ) (k : Kernel d.World)
    → is_free_fd (fd_entry k (pos_part fd)).flags ≡ true
    → syscall_read d fd buf n k ≡ (minus_one, record k { interrupts = true })
unfolding syscall_read
read_free d fd buf n k f = rw f (if_same (bad_read_fd fd) _)

write_free :
    (d : Drivers) (fd : ℤ) (buf : ℕ) (n : ℤ) (k : Kernel d.World)
    → is_free_fd (fd_entry k (pos_part fd)).flags ≡ true
    → syscall_write d fd buf n k ≡ (minus_one, k)
unfolding syscall_write
write_free d fd buf n k f = rw f (if_same (bad_write_fd fd) _)

closing_free :
    (d : Drivers) (fd : ℤ) (k : Kernel d.World)
    → is_free_fd (fd_entry k (pos_part fd)).flags ≡ true
    → syscall_close d fd k ≡ (minus_one, k)
unfolding syscall_close
closing_free d fd k f = rw f (if_same (bad_close_fd fd) _)

-- After a descriptor is closed, reading it, writing it and closing it again all fail with -1, and
-- reach no driver: the process's table and the drivers' state stay as the close left them.
pub closed-refused :
    (d : Drivers) (fd : ℤ) (buf : ℕ) (n : ℤ) (k : Kernel d.World)
    → IsTable (fds k)
    → (syscall_close d fd k).0 ≡ pos 0
    → let k' = (syscall_close d fd k).1 in
      (syscall_read d fd buf n k' ≡ (minus_one, record k' { interrupts = true }))
      × (syscall_write d fd buf n k' ≡ (minus_one, k'))
      × (syscall_close d fd k' ≡ (minus_one, k'))
closed-refused d fd buf n k v h =
    let k' = (syscall_close d fd k).1 in
    let f = close_free d fd k v h in
    (read_free d fd buf n k' f, write_free d fd buf n k' f, closing_free d fd k' f)

close_used :
    (d : Drivers) (idx : ℕ) (k : Kernel d.World)
    → 2 ≤ idx
    → idx < 8
    → is_free_fd (fd_entry k idx).flags ≡ false
    → ((syscall_close d (pos idx) k).0 ≡ pos 0)
      × (fds (syscall_close d (pos idx) k).1
          ≡ set (fds k) idx (record (fd_entry k idx) { flags = free }))
unfolding syscall_close
close_used d idx k lo hi u =
    let good : bad_close_fd (pos idx) ≡ false = unfold bad_close_fd in ground arith in
    rw (good, u) (refl, put_fd-fds k idx _)

-- On a table whose entry `idx` was just put in use.
close_over :
    (d : Drivers) (idx : ℕ) (k : Kernel d.World) (t : List FileEntry) (e : FileEntry)
    → 2 ≤ idx
    → idx < 8
    → length t ≡ 8
    → e.flags ≡ in_use
    → fds k ≡ set t idx e
    → ((syscall_close d (pos idx) k).0 ≡ pos 0)
      × (e' : FileEntry) × (e'.flags ≡ free)
      × (fds (syscall_close d (pos idx) k).1 ≡ set t idx e')
close_over d idx k t e lo hi size use_ table =
    let entry : fd_entry k idx ≡ e =
      ap (λ l. get_or l idx no_entry) table ∙ get_or_set_here t idx e (omega arith) in
    let taken : is_free_fd (fd_entry k idx).flags ≡ false =
      ap (λ x. is_free_fd x.flags) entry ∙ ap is_free_fd use_ in
    let c = close_used d idx k lo hi taken in
    let e' = record (fd_entry k idx) { flags = free } in
    (c.0, e', refl, c.1 ∙ ap (λ l. set l idx e') table ∙ set-set t idx e e')
  where
    get_or_set_here :
        (t : List FileEntry) (i : ℕ) (e : FileEntry)
        → i < length t
        → get_or (set t i e) i no_entry ≡ e
    get_or_set_here t i e h = ground (arith, get_or-set t i i e no_entry h)

-- Closing the descriptor that `syscall_open` just returned succeeds and undoes the open: the table
-- is the one before the open, but for that entry, which was free before and is free again.
pub open-close :
    (d : Drivers) (name : Option (List ℕ)) (k : Kernel d.World) (idx : ℕ)
    → IsTable (fds k)
    → (syscall_open d name k).0 ≡ pos idx
    → let r = syscall_close d (pos idx) (syscall_open d name k).1 in
      (r.0 ≡ pos 0)
      × (is_free_fd (fd_entry k idx).flags ≡ true)
      × (e : FileEntry) × (e.flags ≡ free)
      × (fds r.1 ≡ set (fds k) idx e)
open-close d name k idx v h = elim (syscall_open-Opened d name k) [
  | inl (r, same) ↦ absurd (cc)
  | inr (i, e, r, lo, hi, f, least, use_, at0, table) ↦
      let s : idx ≡ i = ground arith in
      let c = close_over d i (syscall_open d name k).1 (fds k) e lo hi v.size use_ table in
      rw s (c.0, f, c.1, c.2, c.3)
]
