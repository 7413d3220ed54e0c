-- ===== src/Paging/Tests.antt =====
-- The pages at a concrete state.
use martian_os.Prelude.{
  ℕ, ◌+◌, ◌*◌, ◌/◌, ◌^◌, ◌≤◌, ◌<◌, ◌≡◌, ◌≢◌, refl, ◌⊎◌, true, [], ◌∷◌, ◌==◌, if◌then◌else◌, arith,
}
use martian_os.Prelude.Int.{pos, minus_one, pos_part}
use martian_os.Process.Types.{Pcb}
use martian_os.Process.System.State.{System, PageDirEntry, Terminal, no_terminal, term, size_4m}
use martian_os.Terminals.Start.{each}
use martian_os.Paging.{
  init_page_dir, syscall_vidmap, change_vidmem_mapping, vbe_page, user_start, user_end,
}
use martian_os.Paging.Frames.{init_page_dir_lem}
use martian_os.Paging.Isolation.{here, next, ask, draw, init_page_dir-isolated}
use martian_os.Paging.Video.{ScreenGiven, syscall_vidmap-ScreenGiven}

abbrev no_page : PageDirEntry
no_page = record { present = 0; dirty = 0; is_global = 0; pg_addr = 0 }

abbrev window_terminal : ℕ → Terminal
window_terminal i = record no_terminal {
  tid = i;
  vid_mem_buffer = 0xFD000000 + (i + 1) * 2 ^ 22;
  next_term_to_run = (if i == 2 then 0 else i + 1);
}

abbrev empty_block : Pcb
empty_block = record {
  parent_pid = minus_one;
  pid = 0;
  vidmap_flag = 0;
  esp = 0;
  ebp = 0;
  tss_esp0 = 0;
  args = [];
  pcb_fds = [];
}

-- Terminal 1 runs a process, and terminal 0 is viewed.
abbrev machine : System ℕ
machine = record {
  kernel = record { interrupts = true; cur_pcb_ptr = 0; pcbs = λ a. empty_block; world = 0 };
  cur_pid = pos 1;
  pcb_bitmap = 1 ∷ 1 ∷ 0 ∷ 0 ∷ 0 ∷ 0 ∷ [];
  page_dir_base = λ i. no_page;
  frames = λ f x. 0;
  tss_esp0 = 0;
  term_arr = window_terminal 0 ∷ window_terminal 1 ∷ window_terminal 2 ∷ [];
  running_term = 1;
  viewing_term = 0;
}

abbrev paged : System ℕ
paged = record machine { page_dir_base = init_page_dir machine.page_dir_base }

init_page_dir_lem_example :
    ((init_page_dir (λ i. no_page) 1013).present ≡ 1)
    × ((init_page_dir (λ i. no_page) 1013).pg_addr ≡ 1013)
init_page_dir_lem_example = init_page_dir_lem (λ i. no_page) 1013 (omega arith)

-- Process 1 runs, asks for the screen, and terminal 2 is drawn on: page 1016 is shared, with no
-- process.
init_page_dir-isolated_example :
    let t = (change_vidmem_mapping 2 (syscall_vidmap (pos 0x8000010) paged).1).1 in
    ((t.page_dir_base 1016).present ≡ 0) ⊎ ((t.page_dir_base 1016).pg_addr ≢ 1 + 2)
init_page_dir-isolated_example =
    init_page_dir-isolated machine
      (change_vidmem_mapping 2 (syscall_vidmap (pos 0x8000010) paged).1).1 1016 1 refl refl
      (omega arith)
      (each (λ i. (term machine i).vid_mem_buffer / 2 ^ 22 ≡ vbe_page + 1 + i) refl refl refl)
      (next (next here (ask paged (pos 0x8000010)))
        (draw (syscall_vidmap (pos 0x8000010) paged).1 2 (omega arith)))
      (omega arith) (λ e. omega (arith, e)) (omega arith)

syscall_vidmap-ScreenGiven_example :
    ((syscall_vidmap (pos 0x8000010) machine ≡ (minus_one, machine))
      × ((pos_part (pos 0x8000010) < user_start) ⊎ (user_end < pos_part (pos 0x8000010) + 4)))
    ⊎ ((o : ℕ) × (pos 0x8000010 ≡ pos (user_start + o))
        × (o + 4 ≤ size_4m)
        × ((syscall_vidmap (pos 0x8000010) machine).0 ≡ pos 0)
        × ScreenGiven machine (syscall_vidmap (pos 0x8000010) machine).1 o)
syscall_vidmap-ScreenGiven_example = syscall_vidmap-ScreenGiven (pos 0x8000010) machine
