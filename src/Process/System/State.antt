-- ===== src/Process/System/State.antt =====
-- The kernel's variables that starting, ending and switching processes use.
use martian_os.Prelude.{ℕ, ◌+◌, ◌/◌, ◌%◌, ◌^◌, Bool, List, [], ◌∷◌, get_or}
use martian_os.Prelude.Int.{ℤ, pos, minus_one}
use martian_os.Prelude.Machine.{add32}
use martian_os.Process.Types.{Kernel, Pcb, update}
use martian_os.Process.Pids.{bits32}

-- `_4M`
abbrev pub size_4m : ℕ
size_4m = 4194304

-- A `page_dir_entry_4MB_t`, less the bits that every function sets alike.
pub record PageDirEntry : Type 0 where
  pub present : ℕ
  pub dirty : ℕ
  pub is_global : ℕ
  pub pg_addr : ℕ

-- `terminal_t`; `next_term_to_run` is the index of the terminal in `term_arr`.
pub record Terminal : Type 0 where
  pub tid : ℕ
  pub pid : ℤ
  pub kbd_buf : List ℕ
  pub buf_pos : ℕ
  pub kbd_buf_ready : ℕ
  pub cursor_x : ℤ
  pub cursor_y : ℤ
  pub vid_mem_buffer : ℕ
  pub vidmap_flag : ℕ
  pub next_term_to_run : ℕ

-- `frames` is the physical memory, in pages of 4 MB.
pub record System (World : Type 0) : Type 0 where
  pub kernel : Kernel World
  pub cur_pid : ℤ
  pub pcb_bitmap : List ℕ
  pub page_dir_base : ℕ → PageDirEntry
  pub frames : ℕ → ℕ → ℕ
  pub tss_esp0 : ℕ
  pub term_arr : List Terminal
  pub running_term : ℕ
  pub viewing_term : ℕ

-- A terminal that is never looked at: `term_arr` has three.
abbrev pub no_terminal : Terminal
no_terminal = record {
  tid = 0;
  pid = minus_one;
  kbd_buf = [];
  buf_pos = 0;
  kbd_buf_ready = 0;
  cursor_x = pos 0;
  cursor_y = pos 0;
  vid_mem_buffer = 0;
  vidmap_flag = 0;
  next_term_to_run = 0;
}

-- How the system call ends: it returns to its caller, or enters a program at an address, or goes on
-- in the frame that another process saved, with the value it finds in `eax`.
pub data Outcome : Type 0 where
  returns : ℤ → Outcome
  enters_user : ℕ → Outcome
  resumes : ℕ → ℕ → ℕ → Outcome

-- What a call finds in its stack frame: the registers, and its local buffers as they are.
pub record Frame : Type 0 where
  pub esp : ℕ
  pub ebp : ℕ
  pub first_four_bytes : List ℕ
  pub file_name : List ℕ
  pub args : List ℕ

abbrev pub user_page : ℕ
user_page = 32

-- `FISH_VIRTUAL >> 22`
abbrev pub fish_page : ℕ
fish_page = 1016

module _ {W : Type 0} where
  -- `cur_pcb_ptr->...`
  abbrev pub cur_pcb : System W → Pcb
  cur_pcb s = s.kernel.pcbs s.kernel.cur_pcb_ptr

  abbrev pub put_pcb : System W → ℕ → Pcb → System W
  put_pcb s a p = record s { kernel = record s.kernel { pcbs = update s.kernel.pcbs a p } }

  abbrev pub term : System W → ℕ → Terminal
  term s i = get_or s.term_arr i no_terminal

  -- `cli` and `sti`
  abbrev pub set_interrupts : System W → Bool → System W
  set_interrupts s b = record s { kernel = record s.kernel { interrupts = b } }

  -- The entry's address field has ten bits.
  unfoldable pub setup_paging_and_flush_tlb : ℤ → System W → System W
  setup_paging_and_flush_tlb pid s = record s {
    page_dir_base =
        update s.page_dir_base user_page (record {
          present = 1;
          dirty = 0;
          is_global = 0;
          pg_addr = add32 (bits32 pid) 2 % 2 ^ 10;
        });
  }

  unfoldable pub switch_usrmap : ℕ → ℕ → System W → System W
  switch_usrmap index present s = record s {
    page_dir_base = update s.page_dir_base fish_page (record {
      present = present % 2;
      dirty = 1;
      is_global = present % 2;
      pg_addr = index % 2 ^ 10;
    });
  }

-- The byte at a virtual address of a 4 MB page.
abbrev pub load_virtual : (ℕ → PageDirEntry) → (ℕ → ℕ → ℕ) → ℕ → ℕ
load_virtual dir frames a = frames (dir (a / size_4m)).pg_addr (a % size_4m)

-- A write of bytes from a virtual address on.
unfoldable pub store_virtual : (ℕ → PageDirEntry) → (ℕ → ℕ → ℕ) → ℕ → List ℕ → ℕ → ℕ → ℕ
store_virtual dir frames a [] = frames
store_virtual dir frames a (b ∷ bs) =
    let f = (dir (a / size_4m)).pg_addr in
    store_virtual dir (update frames f (update (frames f) (a % size_4m) b)) (a + 1) bs
