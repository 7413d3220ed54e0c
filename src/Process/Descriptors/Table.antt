-- ===== src/Process/Descriptors/Table.antt =====
-- The invariant of a process's descriptor table, and that every call keeps it.
use martian_os.Prelude.{
  ℕ, zero, suc, ◌+◌, ◌<◌, ◌≤◌, ◌≡◌, ◌≢◌, refl, ◌∙◌, ◌⊎◌, inl, inr, true, List, [], ◌∷◌, length,
  get_or, set, get_or-set, length-set, ltb, leb, ◌&&◌, if◌then◌else◌, Bool-cases, arith,
}
use martian_os.Prelude.Int.{ℤ}
use martian_os.Fs.{FileEntry, free, in_use, oerror, OpTable, stdin_ops, stdout_ops}
use martian_os.Process.Types.{Drivers, Pcb, no_entry}
use martian_os.Process.Descriptors.{init_file_table, init_entries, init_entry, is_free_fd}

-- Eight entries, the first two the open standard streams, and none in an error state.
pub record IsTable (t : List FileEntry) : Type 0 where
  pub size : length t ≡ 8
  pub stdin_open : (get_or t 0 no_entry).flags ≡ in_use
  pub stdin_table : (get_or t 0 no_entry).op_ptr ≡ stdin_ops
  pub stdout_open : (get_or t 1 no_entry).flags ≡ in_use
  pub stdout_table : (get_or t 1 no_entry).op_ptr ≡ stdout_ops
  pub no_error : (i : ℕ) → (get_or t i no_entry).flags ≢ oerror

-- The drivers change the position in an entry, and neither its flags nor its table.
pub record KeepsEntries (d : Drivers) : Type 1 where
  pub read_flags :
      (op : OpTable) (e : FileEntry) (b : ℕ) (n : ℤ) (w : d.World)
      → (d.read op e b n w).1.flags ≡ e.flags
  pub read_table :
      (op : OpTable) (e : FileEntry) (b : ℕ) (n : ℤ) (w : d.World)
      → (d.read op e b n w).1.op_ptr ≡ e.op_ptr
  pub write_flags :
      (op : OpTable) (e : FileEntry) (b : ℕ) (n : ℤ) (w : d.World)
      → (d.write op e b n w).1.flags ≡ e.flags
  pub write_table :
      (op : OpTable) (e : FileEntry) (b : ℕ) (n : ℤ) (w : d.World)
      → (d.write op e b n w).1.op_ptr ≡ e.op_ptr

-- A write of an entry above the standard streams, or of one that keeps flags and table.
pub set-IsTable :
    (t : List FileEntry) (i : ℕ) (e : FileEntry)
    → IsTable t
    → i < 8
    → e.flags ≢ oerror
    → (2 ≤ i)
      ⊎ ((e.flags ≡ (get_or t i no_entry).flags) × (e.op_ptr ≡ (get_or t i no_entry).op_ptr))
    → IsTable (set t i e)
set-IsTable t i e v hi ne keep = record {
  size = length-set t i e ∙ v.size;
  stdin_open = ground (arith, v.stdin_open, v.size, get_or-set t i 0 e no_entry);
  stdin_table = ground (arith, v.stdin_table, v.size, get_or-set t i 0 e no_entry);
  stdout_open = ground (arith, v.stdout_open, v.size, get_or-set t i 1 e no_entry);
  stdout_table = ground (arith, v.stdout_table, v.size, get_or-set t i 1 e no_entry);
  no_error = λ j. ground (arith, v.no_error j, v.size, get_or-set t i j e no_entry);
}

length-init_entries : (n i : ℕ) (t : List FileEntry) → length (init_entries n i t) ≡ length t
unfolding init_entries
length-init_entries zero i t = refl
length-init_entries (suc n) i t =
    length-init_entries n (i + 1) (set t i (init_entry i (get_or t i no_entry)))
    ∙ length-set t i (init_entry i (get_or t i no_entry))

get_or-init_entries :
    (n i j : ℕ) (t : List FileEntry)
    → i + n ≤ length t
    → get_or (init_entries n i t) j no_entry ≡ (
        if leb i j && ltb j (i + n)
        then init_entry j (get_or t j no_entry)
        else get_or t j no_entry)
unfolding init_entries
get_or-init_entries zero i j t h = ground arith
get_or-init_entries (suc n) i j t h = ground (
  arith,
  get_or-init_entries n (i + 1) j (set t i (init_entry i (get_or t i no_entry)))
      (omega (arith, length-set t i (init_entry i (get_or t i no_entry)))),
  get_or-set t i j (init_entry i (get_or t i no_entry)) no_entry (omega arith),
)

init_entry_flags :
    (i : ℕ) (e : FileEntry) → (init_entry i e).flags ≡ (if ltb i 2 then in_use else free)
unfolding init_entry
init_entry_flags zero e = refl
init_entry_flags (suc zero) e = refl
init_entry_flags (suc (suc i)) e = ground arith

get_or-beyond_fds : (t : List FileEntry) (j : ℕ) → length t ≤ j → get_or t j no_entry ≡ no_entry
get_or-beyond_fds [] j h = refl
get_or-beyond_fds (e ∷ t) zero h = absurd (omega arith)
get_or-beyond_fds (e ∷ t) (suc j) h = get_or-beyond_fds t j (omega arith)

initial_flags :
    (t : List FileEntry) (j : ℕ)
    → length t ≡ 8
    → (get_or (init_entries 8 0 t) j no_entry).flags ≡ (if ltb j 2 then in_use else free)
initial_flags t j h = elim (Bool-cases (ltb j 8)) [
  | inl e ↦
      ground
        (arith, get_or-init_entries 8 0 j t (omega arith), init_entry_flags j (get_or t j no_entry))
  | inr e ↦
      ground (
        arith,
        get_or-beyond_fds (init_entries 8 0 t) j (ground (arith, length-init_entries 8 0 t)),
      )
]

-- `init_file_table` makes such a table of any eight entries, with the other six free.
pub init_file_table-IsTable :
    (p : Pcb)
    → length p.pcb_fds ≡ 8
    → IsTable (init_file_table p).pcb_fds
      × ((i : ℕ) → 2 ≤ i → is_free_fd (get_or (init_file_table p).pcb_fds i no_entry).flags ≡ true)
init_file_table-IsTable p h = (
  rw table (record {
    size = length-init_entries 8 0 p.pcb_fds ∙ h;
    stdin_open = initial_flags p.pcb_fds 0 h;
    stdin_table = first;
    stdout_open = initial_flags p.pcb_fds 1 h;
    stdout_table = second;
    no_error = λ j. ground (arith, initial_flags p.pcb_fds j h);
  }),
  λ i hi. rw table (ground (arith, initial_flags p.pcb_fds i h)),
)
  where
    table : (init_file_table p).pcb_fds ≡ init_entries 8 0 p.pcb_fds
    table = unfold init_file_table in refl

    first : (get_or (init_entries 8 0 p.pcb_fds) 0 no_entry).op_ptr ≡ stdin_ops
    first = rw (get_or-init_entries 8 0 0 p.pcb_fds (omega arith)) (unfold init_entry in refl)

    second : (get_or (init_entries 8 0 p.pcb_fds) 1 no_entry).op_ptr ≡ stdout_ops
    second = rw (get_or-init_entries 8 0 1 p.pcb_fds (omega arith)) (unfold init_entry in refl)
