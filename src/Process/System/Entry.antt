-- ===== src/Process/System/Entry.antt =====
-- What syscall_execute leaves, on every branch.
use martian_os.Prelude.{
  ℕ, zero, suc, ◌+◌, ◌-◌, ◌<◌, ◌≤◌, ◌≡◌, ◌≢◌, refl, ap, ◌∙◌, inl, inr, false, not, ◌&&◌, List,
  length, get_or, set, get_or-set, length-set, ◌==◌, if◌then◌else◌, Bool-cases, arith,
}
use martian_os.Prelude.Int.{ℤ, pos, minus_one, eqb_ℤ}
use martian_os.Fs.{FileEntry, free}
use martian_os.Process.Types.{Pcb, fds, no_entry}
use martian_os.Process.Descriptors.{init_file_table}
use martian_os.Process.Descriptors.Table.{IsTable, set-IsTable, init_file_table-IsTable}
use martian_os.Process.Pids.{get_pcb_ptr, bits32, size_8k}
use martian_os.Process.System.State.{System, Frame, cur_pcb, put_pcb, user_page}
use martian_os.Process.System.Execute.{enter_process, save_registers, init_pcb, free_fds}
use martian_os.Process.System.Closing.{update_at, update_other}

-- A block after the registers of the running process are saved in its own.
abbrev pub with_registers : {W : Type 0} → Frame → System W → ℕ → Pcb
with_registers fr s b =
    if not (eqb_ℤ s.cur_pid minus_one) && s.kernel.cur_pcb_ptr == b
    then record (s.kernel.pcbs b) { esp = fr.esp; ebp = fr.ebp }
    else s.kernel.pcbs b

-- Process `m` is entered: it has the least free id, a fresh block under the process that started
-- it, its own stack and page, and the registers of the other one are saved.
pub record Started {W : Type 0} (fr : Frame) (m : ℕ) (s s' : System W) : Type 0 where
  pub room : m < 6
  pub unused : get_or s.pcb_bitmap m 0 ≡ 0
  pub least : (j : ℕ) → j < m → get_or s.pcb_bitmap j 0 ≢ 0
  pub bitmap : s'.pcb_bitmap ≡ set s.pcb_bitmap m 1
  pub pid : s'.cur_pid ≡ pos m
  pub ptr : s'.kernel.cur_pcb_ptr ≡ get_pcb_ptr (pos m)
  pub parent : (cur_pcb s').parent_pid ≡ s.cur_pid
  pub table : IsTable (fds s'.kernel)
  pub fresh : (j : ℕ) → 2 ≤ j → j < 8 → (get_or (fds s'.kernel) j no_entry).flags ≡ free
  pub stack : s'.tss_esp0 ≡ get_pcb_ptr (pos m) + size_8k - 4
  pub pages : (s'.page_dir_base user_page).pg_addr ≡ m + 2
  pub mapped : (s'.page_dir_base user_page).present ≡ 1
  pub blocks : (b : ℕ) → get_pcb_ptr (pos m) ≢ b → s'.kernel.pcbs b ≡ with_registers fr s b

-- Nothing but the interrupt flag and the state of the drivers is touched.
abbrev pub Untouched : {W : Type 0} → System W → System W → Type 0
Untouched s s' =
    (w : _) × (s' ≡ record s { kernel = record s.kernel { interrupts = false; world = w } })

free_fds-IsTable :
    (n i : ℕ) (t : List FileEntry) → 2 ≤ i → i + n ≤ 8 → IsTable t → IsTable (free_fds n i t)
unfolding free_fds
free_fds-IsTable zero i t lo hi v = v
free_fds-IsTable (suc n) i t lo hi v = free_fds-IsTable n (i + 1) _ (omega arith) (omega arith) (
    set-IsTable t i (record (get_or t i no_entry) { flags = free }) v (omega arith) (λ e. cc)
      (inl lo))

-- The loop leaves what is in front of it.
free_fds-front :
    (n i j : ℕ) (t : List FileEntry)
    → i + n ≤ length t
    → j < i
    → get_or (free_fds n i t) j no_entry ≡ get_or t j no_entry
unfolding free_fds
free_fds-front zero i j t room h = refl
free_fds-front (suc n) i j t room h =
    let e : FileEntry = record (get_or t i no_entry) { flags = free } in
    let other : (i == j) ≡ false = ground arith in
    free_fds-front n (i + 1) j (set t i e) (omega (arith, length-set t i e)) (omega arith)
    ∙ (get_or-set t i j e no_entry (omega arith) ∙ rw other refl)

-- It frees each entry that it comes to.
free_fds-free :
    (n i j : ℕ) (t : List FileEntry)
    → i + n ≤ length t
    → i ≤ j
    → j < i + n
    → (get_or (free_fds n i t) j no_entry).flags ≡ free
unfolding free_fds
free_fds-free zero i j t room lo hi = absurd (omega arith)
free_fds-free (suc n) i j t room lo hi =
    let e : FileEntry = record (get_or t i no_entry) { flags = free } in
    elim (Bool-cases (i == j)) [
      | inl here ↦
          let put : get_or (set t i e) j no_entry ≡ e =
            get_or-set t i j e no_entry (omega arith) ∙ rw here refl in
          ap (λ x. x.flags)
            (free_fds-front n (i + 1) j (set t i e) (omega (arith, length-set t i e)) (ground arith)
              ∙ put)
      | inr later ↦
          free_fds-free n (i + 1) j (set t i e) (omega (arith, length-set t i e)) (ground arith)
            (omega arith)
    ]

init_pcb-free :
    (new_pid parent : ℤ) (a : ℕ) (args : List ℕ) (p : Pcb) (j : ℕ)
    → length p.pcb_fds ≡ 8
    → 2 ≤ j
    → j < 8
    → (get_or (init_pcb new_pid parent a args p).pcb_fds j no_entry).flags ≡ free
unfolding init_pcb
init_pcb-free new_pid parent a args p j h lo hi =
    let v =
      init_file_table-IsTable
        (record p { pid = bits32 new_pid; parent_pid = parent; vidmap_flag = 0 }) h in
    free_fds-free 6 2 j _ (omega (arith, v.0.size)) lo (omega arith)

init_pcb-IsTable :
    (new_pid parent : ℤ) (a : ℕ) (args : List ℕ) (p : Pcb)
    → length p.pcb_fds ≡ 8
    → IsTable (init_pcb new_pid parent a args p).pcb_fds
unfolding init_pcb
init_pcb-IsTable new_pid parent a args p h =
    free_fds-IsTable 6 2 _ (omega arith) (omega arith)
      (init_file_table-IsTable
        (record p { pid = bits32 new_pid; parent_pid = parent; vidmap_flag = 0 }) h).0

init_pcb_parent :
    (new_pid parent : ℤ) (a : ℕ) (args : List ℕ) (p : Pcb)
    → ((init_pcb new_pid parent a args p).parent_pid ≡ parent)
      × ((init_pcb new_pid parent a args p).tss_esp0 ≡ a + size_8k - 4)
unfolding init_pcb init_file_table
init_pcb_parent new_pid parent a args p = (refl, refl)

module _ {W : Type 0} where
  -- The registers are saved in the running process's block, and that block keeps the rest.
  save_registers_block :
      (fr : Frame) (s : System W) (b : ℕ)
      → (save_registers fr s).kernel.pcbs b ≡ with_registers fr s b
  unfolding save_registers
  save_registers_block fr s b = elim (Bool-cases (eqb_ℤ s.cur_pid minus_one)) [
    | inl e ↦ rw e refl
    | inr e ↦ elim (Bool-cases (s.kernel.cur_pcb_ptr == b)) [
      | inl here ↦
          let n : s.kernel.cur_pcb_ptr ≡ b = ground arith in
          rw (e, here) (ap (λ x. record (s.kernel.pcbs x) { esp = fr.esp; ebp = fr.ebp }) n)
      | inr away ↦ rw (e, away) refl
    ]
  ]

  save_registers_rest :
      (fr : Frame) (s : System W)
      → ((save_registers fr s).pcb_bitmap ≡ s.pcb_bitmap)
        × ((save_registers fr s).page_dir_base ≡ s.page_dir_base)
  unfolding save_registers
  save_registers_rest fr s = elim (Bool-cases (eqb_ℤ s.cur_pid minus_one)) [
    | inl e ↦ rw e (refl, refl)
    | inr e ↦ rw e (refl, refl)
  ]

  with_registers_keeps :
      (fr : Frame) (s : System W) (b : ℕ)
      → ((with_registers fr s b).parent_pid ≡ (s.kernel.pcbs b).parent_pid)
        × ((with_registers fr s b).tss_esp0 ≡ (s.kernel.pcbs b).tss_esp0)
        × ((with_registers fr s b).pcb_fds ≡ (s.kernel.pcbs b).pcb_fds)
        × ((with_registers fr s b).args ≡ (s.kernel.pcbs b).args)
  with_registers_keeps fr s b =
      elim (Bool-cases (not (eqb_ℤ s.cur_pid minus_one) && s.kernel.cur_pcb_ptr == b)) [
        | inl e ↦ rw e (refl, refl, refl, refl)
        | inr e ↦ rw e (refl, refl, refl, refl)
      ]

  -- The new process's block, as it stands when the program is entered.
  pub entered_block :
      (fr : Frame) (s : System W) (a : ℕ) (p : Pcb)
      → let q = (save_registers fr (put_pcb s a p)).kernel.pcbs a in
        (q.parent_pid ≡ p.parent_pid)
        × (q.tss_esp0 ≡ p.tss_esp0)
        × (q.pcb_fds ≡ p.pcb_fds)
        × (q.args ≡ p.args)
  entered_block fr s a p =
      let here = update_at s.kernel.pcbs a p in
      let keeps = with_registers_keeps fr (put_pcb s a p) a in
      rw (save_registers_block fr (put_pcb s a p) a) (
        keeps.0 ∙ ap (λ x. x.parent_pid) here,
        keeps.1 ∙ ap (λ x. x.tss_esp0) here,
        keeps.2 ∙ ap (λ x. x.pcb_fds) here,
        keeps.3 ∙ ap (λ x. x.args) here,
      )

  entered_others :
      (fr : Frame) (s : System W) (a b : ℕ) (p : Pcb)
      → a ≢ b
      → (save_registers fr (put_pcb s a p)).kernel.pcbs b ≡ with_registers fr s b
  entered_others fr s a b p ne =
      save_registers_block fr (put_pcb s a p) b
      ∙ ap
          (λ q.
            if not (eqb_ℤ s.cur_pid minus_one) && s.kernel.cur_pcb_ptr == b
            then record q { esp = fr.esp; ebp = fr.ebp }
            else q)
          (update_other s.kernel.pcbs a b p ne)

  -- Entering process `m` in a state whose ids and pages are already set up for it.
  pub enter_process_lem :
      (fr : Frame) (m : ℕ) (args : List ℕ) (s s0 : System W)
      → length (s0.kernel.pcbs (get_pcb_ptr (pos m))).pcb_fds ≡ 8
      → m < 6
      → get_or s.pcb_bitmap m 0 ≡ 0
      → ((j : ℕ) → j < m → get_or s.pcb_bitmap j 0 ≢ 0)
      → s0.pcb_bitmap ≡ set s.pcb_bitmap m 1
      → s0.cur_pid ≡ s.cur_pid
      → (s0.page_dir_base user_page).pg_addr ≡ m + 2
      → (s0.page_dir_base user_page).present ≡ 1
      → ((b : ℕ) → with_registers fr s0 b ≡ with_registers fr s b)
      → Started fr m s (enter_process fr (pos m) args s0).1
  unfolding enter_process
  enter_process_lem fr m args s s0 fds8 room unused least bits pid page up same =
      let a = get_pcb_ptr (pos m) in
      let p = init_pcb (pos m) s0.cur_pid a args (s0.kernel.pcbs a) in
      let new = entered_block fr s0 a p in
      let rest = save_registers_rest fr (put_pcb s0 a p) in
      let made = init_pcb_parent (pos m) s0.cur_pid a args (s0.kernel.pcbs a) in
      record {
        room = room;
        unused = unused;
        least = least;
        bitmap = rest.0 ∙ bits;
        pid = refl;
        ptr = refl;
        parent = new.0 ∙ made.0 ∙ pid;
        table = rw (new.2) (init_pcb-IsTable (pos m) s0.cur_pid a args (s0.kernel.pcbs a) fds8);
        fresh =
            rw (new.2)
              (λ j lo hi. init_pcb-free (pos m) s0.cur_pid a args (s0.kernel.pcbs a) j fds8 lo hi);
        stack = new.1 ∙ made.1;
        pages = ap (λ x. (x user_page).pg_addr) (rest.1) ∙ page;
        mapped = ap (λ x. (x user_page).present) (rest.1) ∙ up;
        blocks = λ b ne. entered_others fr s0 a b p ne ∙ same b;
      }
