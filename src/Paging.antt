-- ===== src/Paging.antt =====
-- mp3_Final/student-distrib/paging.c, init_page_dir; terminal.c, switch_fish_paging and
-- change_vidmem_mapping; syscall_handler.c, syscall_vidmap: what the pages of 4 MB show. The entry
-- of the running process is set in Process/System.
pub mod Frames
pub mod Isolation
pub mod Video
pub mod Tests
use martian_os.Prelude.{
  ℕ, zero, suc, ◌+◌, ◌-◌, ◌*◌, ◌/◌, ◌%◌, ◌^◌, Bool, not, ◌||◌, List, [], ◌∷◌, set, ◌==◌,
  if◌then◌else◌,
}
use martian_os.Prelude.Int.{ℤ, pos, minus_one, pos_part, eqb_ℤ, ltb_ℤ}
use martian_os.Process.Types.{update}
use martian_os.Process.System.State.{
  System, PageDirEntry, Terminal, term, cur_pcb, put_pcb, switch_usrmap, store_virtual, fish_page,
}

-- `VBE_START >> 22`, and the three pages behind it, of the terminals' windows.
abbrev pub vbe_page : ℕ
vbe_page = 1012

-- `ICON_START >> 22`
abbrev pub icon_page : ℕ
icon_page = 35

-- `NUM_PAGE_TABLE_DESC`
abbrev pub num_page_table_desc : ℕ
num_page_table_desc = 1024

-- `VBE_START`
abbrev pub vbe_start : ℕ
vbe_start = 0xFD000000

-- A page that is in memory, as the seven blocks at the head of `init_page_dir` set it.
abbrev pub resident : ℕ → ℕ → PageDirEntry
resident is_global pg_addr = record {
  present = 1;
  dirty = 1;
  is_global = is_global;
  pg_addr = pg_addr % 2 ^ 10;
}

-- The other ones, with their address `i * _4M >> 22`.
abbrev pub absent : ℕ → PageDirEntry
absent i = record { present = 0; dirty = 0; is_global = 0; pg_addr = i * 2 ^ 22 % 2 ^ 32 / 2 ^ 22 }

-- The pages that the loop passes over.
pub skipped : ℕ → Bool
skipped i =
    i == 0
    || (i == 1
        || (i == vbe_page
            || (i == vbe_page + 1
                || (i == vbe_page + 2 || (i == vbe_page + 3 || (i == icon_page || i == 124 / 4))))))

-- The loop from `i` on, with `n` rounds left.
pub init_rest : ℕ → ℕ → (ℕ → PageDirEntry) → ℕ → PageDirEntry
init_rest zero i dir = dir
init_rest (suc n) i dir = init_rest n (i + 1) (if skipped i then dir else update dir i (absent i))

pub init_page_dir : (ℕ → PageDirEntry) → ℕ → PageDirEntry
init_page_dir dir0 =
    let dir1 = update (update dir0 0 (resident 0 0)) 1 (resident 0 1) in
    let dir2 = update dir1 vbe_page (resident 1 vbe_page) in
    let dir3 = update dir2 (vbe_page + 1) (resident 0 (vbe_page + 1)) in
    let dir4 = update dir3 (vbe_page + 2) (resident 0 (vbe_page + 2)) in
    let dir5 = update dir4 (vbe_page + 3) (resident 0 (vbe_page + 3)) in
    let dir6 = update dir5 icon_page (resident 0 icon_page) in init_rest num_page_table_desc 0 dir6

-- `USER_START` and `USER_END`
abbrev pub user_start : ℕ
user_start = 0x8000000

abbrev pub user_end : ℕ
user_end = 0x8400000

-- The bytes of `FISH_VIRTUAL`, the lowest first.
abbrev pub fish_bytes : List ℕ
fish_bytes = 0 ∷ 0 ∷ 0 ∷ 0xFE ∷ []

-- An entry's `pg_addr`, and its `present` too.
abbrev pub show_frame : ℕ → PageDirEntry → PageDirEntry
show_frame frame e = record e { pg_addr = frame % 2 ^ 10 }

abbrev pub show_if : ℕ → ℕ → PageDirEntry → PageDirEntry
show_if flag frame e = record e { present = flag % 2; pg_addr = frame % 2 ^ 10 }

module _ {W : Type 0} where
  pub switch_fish_paging : ℕ → Bool → System W → System W
  switch_fish_paging tid temp_flag s =
      let t = term s tid in
      let frame = (if temp_flag then t.vid_mem_buffer / 2 ^ 22 else vbe_page) in
      let dir = update s.page_dir_base vbe_page (show_frame frame (s.page_dir_base vbe_page)) in
      record s {
        page_dir_base = update dir fish_page (show_if t.vidmap_flag frame (dir fish_page));
      }

  -- The terminal whose cursor the screen functions move, and the pages.
  pub change_vidmem_mapping : ℕ → System W → ℕ × System W
  change_vidmem_mapping tid s =
      (tid, switch_fish_paging tid (not (tid == (term s s.viewing_term).tid)) s)

  -- The last part of `syscall_vidmap`, from `*screen_start = FISH_VIRTUAL` on.
  pub give_screen : ℕ → System W → System W
  give_screen screen_start s0 =
      let s1 = record s0 {
        frames = store_virtual s0.page_dir_base s0.frames screen_start fish_bytes;
      } in
      let s = put_pcb s1 s1.kernel.cur_pcb_ptr (record (cur_pcb s1) { vidmap_flag = 1 }) in
      record s {
        term_arr =
            set s.term_arr s.running_term (record (term s s.running_term) { vidmap_flag = 1 });
      }

  pub map_screen : System W → System W
  map_screen s =
      let t = term s s.running_term in
      if not (t.tid == (term s s.viewing_term).tid)
      then switch_usrmap (t.vid_mem_buffer / 2 ^ 22) 1 s
      else switch_usrmap vbe_page 1 s

  -- `screen_start` is the pointer as an `int32_t`.
  pub syscall_vidmap : ℤ → System W → ℤ × System W
  syscall_vidmap screen_start s =
      if eqb_ℤ screen_start (pos 0)
      then (minus_one, s)
      else if ltb_ℤ screen_start (pos user_start) || ltb_ℤ (pos (user_end - 4)) screen_start
      then (minus_one, s)
      else (pos 0, give_screen (pos_part screen_start) (map_screen s))
