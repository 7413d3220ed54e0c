-- ===== src/Paging/Isolation.antt =====
-- No page but that of the running process shows the memory of a process.
use martian_os.Prelude.{
  ℕ, ◌+◌, ◌-◌, ◌/◌, ◌%◌, ◌^◌, ◌<◌, ◌≡◌, ◌≢◌, refl, ap, ◌∙◌, ◌⊎◌, inl, inr, Bool, true, false, not,
  ◌||◌, length, length-set, get_or, get_or-set, set, ◌==◌, if◌then◌else◌, Bool-cases, arith,
}
use martian_os.Prelude.Int.{ℤ, pos, eqb_ℤ, ltb_ℤ, pos_part}
use martian_os.Process.Types.{update}
use martian_os.Process.System.State.{
  System, PageDirEntry, no_terminal, term, user_page, fish_page, setup_paging_and_flush_tlb,
  switch_usrmap,
}
use martian_os.Paging.{
  init_page_dir, switch_fish_paging, change_vidmem_mapping, syscall_vidmap, give_screen, map_screen,
  vbe_page, show_frame, user_start, user_end,
}
use martian_os.Paging.Frames.{kernel_page, init_page_dir_lem}

-- An entry that is not that of the running process: it shows nothing, or a frame of the kernel or
-- the screen.
abbrev IsShared : PageDirEntry → Type 0
IsShared e = (e.present ≡ 0) ⊎ (kernel_page e.pg_addr ≡ true)

-- The directory shares nothing else, and the windows of the terminals are the three pages behind
-- the screen's.
pub record IsMapped {W : Type 0} (s : System W) : Type 0 where
  pub shared : (i : ℕ) → i < 1024 → i ≢ user_page → IsShared (s.page_dir_base i)
  pub three : length s.term_arr ≡ 3
  pub running : s.running_term < 3
  pub windows : (t : ℕ) → t < 3 → (term s t).vid_mem_buffer / 2 ^ 22 ≡ vbe_page + 1 + t

-- Entry `i` becomes `e`, which shares no more than it may.
IsShared-update :
    (dir : ℕ → PageDirEntry) (a i : ℕ) (e : PageDirEntry)
    → IsShared e
    → IsShared (dir i)
    → IsShared (update dir a e i)
IsShared-update dir a i e new old = elim (Bool-cases (a == i)) [
  | inl here ↦ rw here new
  | inr away ↦ rw away old
]

-- The frame of the screen, or of the window of terminal `t`.
IsShared-frame :
    (t frame : ℕ)
    → t < 3
    → (frame ≡ vbe_page) ⊎ (frame ≡ vbe_page + 1 + t)
    → kernel_page (frame % 2 ^ 10) ≡ true
IsShared-frame t frame h (inl screen) = rw screen (refl)
IsShared-frame t frame h (inr window) = rw window (ground arith)

module _ {W : Type 0} where
  -- A step that changes the pages: a process runs, a program asks for the screen, the kernel draws
  -- on a terminal.
  pub data Remap : System W → System W → Type 0 where
    run : (s : System W) (pid : ℕ) → pid < 6 → Remap s (setup_paging_and_flush_tlb (pos pid) s)
    ask : (s : System W) (a : ℤ) → Remap s (syscall_vidmap a s).1
    draw : (s : System W) (tid : ℕ) → tid < 3 → Remap s (change_vidmem_mapping tid s).1

  pub data Reach (s : System W) : System W → Type 0 where
    here : Reach s s
    next : {t u : System W} → Reach s t → Remap t u → Reach s u

  run-IsMapped :
      (s : System W) (pid : ℕ) → IsMapped s → IsMapped (setup_paging_and_flush_tlb (pos pid) s)
  unfolding setup_paging_and_flush_tlb
  run-IsMapped s pid v = record {
    shared = λ i h other. ground (arith, v.shared i h other);
    three = v.three;
    running = v.running;
    windows = v.windows;
  }

  -- Which frame `change_vidmem_mapping` shows.
  shown_frame :
      (s : System W) (tid : ℕ) (b : Bool)
      → tid < 3
      → IsMapped s
      → let frame = (if b then (term s tid).vid_mem_buffer / 2 ^ 22 else vbe_page) in
        kernel_page (frame % 2 ^ 10) ≡ true
  shown_frame s tid true h v = IsShared-frame tid _ h (inr (v.windows tid h))
  shown_frame s tid false h v = refl

  fish-IsMapped :
      (s : System W) (tid : ℕ) (b : Bool)
      → tid < 3
      → IsMapped s
      → IsMapped (switch_fish_paging tid b s)
  unfolding switch_fish_paging
  fish-IsMapped s tid b h v =
      let frame = (if b then (term s tid).vid_mem_buffer / 2 ^ 22 else vbe_page) in
      let good = shown_frame s tid b h v in
      record {
        shared = λ i hi other.
            IsShared-update
              (update s.page_dir_base vbe_page (show_frame frame (s.page_dir_base vbe_page)))
              fish_page i _ (inr good)
              (IsShared-update s.page_dir_base vbe_page i
                (show_frame frame (s.page_dir_base vbe_page)) (inr good) (v.shared i hi other));
        three = v.three;
        running = v.running;
        windows = v.windows;
      }

  usrmap-IsMapped :
      (s : System W) (frame : ℕ)
      → kernel_page (frame % 2 ^ 10) ≡ true
      → IsMapped s
      → IsMapped (switch_usrmap frame 1 s)
  unfolding switch_usrmap
  usrmap-IsMapped s frame good v = record {
    shared = λ i hi other.
        IsShared-update s.page_dir_base fish_page i _ (inr good) (v.shared i hi other);
    three = v.three;
    running = v.running;
    windows = v.windows;
  }

  map_screen-IsMapped : (s : System W) → IsMapped s → IsMapped (map_screen s)
  unfolding map_screen
  map_screen-IsMapped s v =
      if_then (not ((term s s.running_term).tid == (term s s.viewing_term).tid))
        (usrmap-IsMapped s _
          (IsShared-frame s.running_term _ v.running (inr (v.windows _ v.running))) v)
        (usrmap-IsMapped s vbe_page refl v)
    where
      if_then :
          {a b : System W} (t : Bool) → IsMapped a → IsMapped b → IsMapped (if t then a else b)
      if_then true x y = x
      if_then false x y = y

  give_screen-IsMapped : (s : System W) (a : ℕ) → IsMapped s → IsMapped (give_screen a s)
  unfolding give_screen
  give_screen-IsMapped s a v = record {
    shared = v.shared;
    three = length-set s.term_arr s.running_term _ ∙ v.three;
    running = v.running;
    windows = λ t h. window t h;
  }
    where
      window :
          (t : ℕ)
          → t < 3
          → (get_or
                (set s.term_arr s.running_term (record (term s s.running_term) { vidmap_flag = 1 }))
                t
                no_terminal).vid_mem_buffer
              / 2 ^ 22
            ≡ vbe_page + 1 + t
      window t h = elim (Bool-cases (s.running_term == t)) [
        | inl same ↦
            rw
              (
                get_or-set s.term_arr s.running_term t
                    (record (term s s.running_term) { vidmap_flag = 1 }) no_terminal
                    (omega (arith, v.three, v.running)),
                same,
              )
              (let e : s.running_term ≡ t = ground arith in
                v.windows s.running_term v.running ∙ ap (λ x. vbe_page + 1 + x) e)
        | inr other ↦
            rw
              (
                get_or-set s.term_arr s.running_term t
                    (record (term s s.running_term) { vidmap_flag = 1 }) no_terminal
                    (omega (arith, v.three, v.running)),
                other,
              )
              (v.windows t h)
      ]

  draw-IsMapped :
      (s : System W) (tid : ℕ) → tid < 3 → IsMapped s → IsMapped (change_vidmem_mapping tid s).1
  unfolding change_vidmem_mapping
  draw-IsMapped s tid h v = fish-IsMapped s tid _ h v

  ask-IsMapped : (s : System W) (a : ℤ) → IsMapped s → IsMapped (syscall_vidmap a s).1
  unfolding syscall_vidmap
  ask-IsMapped s a v = elim (Bool-cases (eqb_ℤ a (pos 0))) [
    | inl null ↦ rw null v
    | inr set ↦ elim (Bool-cases (ltb_ℤ a (pos user_start) || ltb_ℤ (pos (user_end - 4)) a)) [
      | inl bad ↦ rw (set, bad) v
      | inr good ↦
          rw (set, good)
            (give_screen-IsMapped (map_screen s) (pos_part a) (map_screen-IsMapped s v))
    ]
  ]

  Remap-IsMapped : {s t : System W} → Remap s t → IsMapped s → IsMapped t
  Remap-IsMapped (run s pid h) v = run-IsMapped s pid v
  Remap-IsMapped (ask s a) v = ask-IsMapped s a v
  Remap-IsMapped (draw s tid h) v = draw-IsMapped s tid h v

  pub Reach-IsMapped : {s t : System W} → Reach s t → IsMapped s → IsMapped t
  Reach-IsMapped here v = v
  Reach-IsMapped (next r m) v = Remap-IsMapped m (Reach-IsMapped r v)

  -- After the start of paging, whatever processes run, whatever programs ask for the screen, with
  -- good and bad pointers, and whatever terminals are drawn on: each page but that of the running
  -- process is absent, or shows a frame that belongs to none of the six processes. The windows of
  -- the three terminals must be where terminal_init puts them, and page 31 must not be in memory
  -- before.
  pub init_page_dir-isolated :
      (s t : System W) (i pid : ℕ)
      → (s.page_dir_base 31).present ≡ 0
      → length s.term_arr ≡ 3
      → s.running_term < 3
      → ((t : ℕ) → t < 3 → (term s t).vid_mem_buffer / 2 ^ 22 ≡ vbe_page + 1 + t)
      → Reach (record s { page_dir_base = init_page_dir s.page_dir_base }) t
      → i < 1024
      → i ≢ user_page
      → pid < 6
      → ((t.page_dir_base i).present ≡ 0) ⊎ ((t.page_dir_base i).pg_addr ≢ pid + 2)
  init_page_dir-isolated s t i pid clear three running windows reach hi other hp =
      apart ((Reach-IsMapped reach start).shared i hi other)
    where
      shared : (j : ℕ) → j < 1024 → IsShared (init_page_dir s.page_dir_base j)
      shared j h = ground (arith, init_page_dir_lem s.page_dir_base j h)

      start : IsMapped (record s { page_dir_base = init_page_dir s.page_dir_base })
      start = record {
        shared = λ j h o. shared j h;
        three = three;
        running = running;
        windows = windows;
      }

      apart :
          IsShared (t.page_dir_base i)
          → ((t.page_dir_base i).present ≡ 0) ⊎ ((t.page_dir_base i).pg_addr ≢ pid + 2)
      apart (inl absent) = inl absent
      apart (inr kernel) =
          inr (λ e. let no : kernel_page (pid + 2) ≡ true = rw e at kernel in ground arith)
