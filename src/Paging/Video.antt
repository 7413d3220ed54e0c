-- ===== src/Paging/Video.antt =====
-- What a program gets that asks for the screen.
use martian_os.Prelude.{
  ℕ, ◌+◌, ◌-◌, ◌*◌, ◌/◌, ◌%◌, ◌^◌, ◌≤◌, ◌<◌, ◌≡◌, ◌≢◌, refl, ap, ◌∙◌, ◌⊎◌, inl, inr, true, ◌&&◌,
  ◌||◌, get_or, leb, ltb, ◌==◌, if◌then◌else◌, Bool-cases, arith,
}
use martian_os.Prelude.Int.{ℤ, pos, negsuc, minus_one, pos_part, eqb_ℤ, ltb_ℤ}
use martian_os.Fs.{load32}
use martian_os.Process.Types.{update}
use martian_os.Process.System.State.{
  System, PageDirEntry, term, fish_page, size_4m, load_virtual, store_virtual, switch_usrmap,
}
use martian_os.Process.System.Loading.{store_virtual_lem}
use martian_os.Paging.{
  syscall_vidmap, give_screen, map_screen, vbe_page, user_start, user_end, fish_bytes,
}

-- The frame that a program on the running terminal draws on: the screen if its terminal is viewed,
-- else the window's.
abbrev pub screen_frame : {W : Type 0} → System W → ℕ
screen_frame s =
    if (term s s.running_term).tid == (term s s.viewing_term).tid
    then vbe_page
    else (term s s.running_term).vid_mem_buffer / 2 ^ 22 % 2 ^ 10

-- What changes in the system when the screen's address goes to `user_start + o`.
pub record ScreenGiven {W : Type 0} (s s' : System W) (o : ℕ) : Type 0 where
  pub present : (s'.page_dir_base fish_page).present ≡ 1
  pub frame : (s'.page_dir_base fish_page).pg_addr ≡ screen_frame s
  pub pages : (i : ℕ) → fish_page ≢ i → s'.page_dir_base i ≡ s.page_dir_base i
  pub pointer :
      load32 (load_virtual s'.page_dir_base s'.frames) (user_start + o) ≡ fish_page * size_4m
  pub memory :
      (f x : ℕ)
      → s'.frames f x ≡ (
          if (s.page_dir_base 32).pg_addr == f && (leb o x && ltb x (o + 4))
          then get_or fish_bytes (x - o) 0
          else s.frames f x)

-- The bytes that were written, read back.
stored_at :
    (dir : ℕ → PageDirEntry) (frames : ℕ → ℕ → ℕ) (o i : ℕ)
    → o + 4 ≤ size_4m
    → i < 4
    → load_virtual dir (store_virtual dir frames (user_start + o) fish_bytes) (user_start + o + i)
      ≡ get_or fish_bytes i 0
stored_at dir frames o i room h =
    let page : (user_start + o + i) / size_4m ≡ 32 = omega arith in
    let offset : (user_start + o + i) % size_4m ≡ o + i = omega arith in
    let place : o + i - o ≡ i = omega arith in
    rw (page, offset)
      (ground (
        arith,
        ap (λ k. get_or fish_bytes k 0) place,
        store_virtual_lem dir frames o fish_bytes (dir 32).pg_addr (o + i) room,
      ))

pointer_at :
    (dir : ℕ → PageDirEntry) (frames : ℕ → ℕ → ℕ) (o : ℕ)
    → o + 4 ≤ size_4m
    → load32
        (load_virtual dir (store_virtual dir frames (user_start + o) fish_bytes))
        (user_start + o)
      ≡ fish_page * size_4m
pointer_at dir frames o room =
    let mem = load_virtual dir (store_virtual dir frames (user_start + o) fish_bytes) in
    let zeroth : mem (user_start + o) ≡ 0 =
      ap mem (omega arith) ∙ stored_at dir frames o 0 room (omega arith) in
    rw
      (
        zeroth,
        stored_at dir frames o 1 room (omega arith),
        stored_at dir frames o 2 room (omega arith),
        stored_at dir frames o 3 room (omega arith),
      )
      refl

module _ {W : Type 0} where
  pub record Shown (s s' : System W) : Type 0 where
    pub entry : s'.page_dir_base ≡ update s.page_dir_base fish_page (s'.page_dir_base fish_page)
    pub present : (s'.page_dir_base fish_page).present ≡ 1
    pub frame : (s'.page_dir_base fish_page).pg_addr ≡ screen_frame s
    pub frames : s'.frames ≡ s.frames

  map_screen-Shown : (s : System W) → Shown s (map_screen s)
  unfolding map_screen switch_usrmap
  map_screen-Shown s =
      elim (Bool-cases ((term s s.running_term).tid == (term s s.viewing_term).tid)) [
        | inl viewed ↦
            rw viewed (record { entry = refl; present = refl; frame = ground arith; frames = refl })
        | inr hidden ↦
            rw hidden (record { entry = refl; present = refl; frame = ground arith; frames = refl })
      ]

  kept :
      (s m : System W) (i : ℕ) → Shown s m → fish_page ≢ i → m.page_dir_base i ≡ s.page_dir_base i
  kept s m i v other = ap (λ f. f i) v.entry ∙ away (s.page_dir_base) (m.page_dir_base fish_page)
    where
      away : (f : ℕ → PageDirEntry) (e : PageDirEntry) → update f fish_page e i ≡ f i
      away f e = ground arith

  give_screen-ScreenGiven :
      (s m : System W) (o : ℕ)
      → Shown s m
      → o + 4 ≤ size_4m
      → ScreenGiven s (give_screen (user_start + o) m) o
  unfolding give_screen
  give_screen-ScreenGiven s m o v room =
      let user : (m.page_dir_base 32).pg_addr ≡ (s.page_dir_base 32).pg_addr =
        ap (λ x. x.pg_addr) (kept s m 32 v (omega arith)) in
      record {
        present = v.present;
        frame = v.frame;
        pages = λ i other. kept s m i v other;
        pointer = pointer_at m.page_dir_base m.frames o room;
        memory = λ f x. ground (
          arith,
          user,
          ap (λ g. g f x) v.frames,
          store_virtual_lem m.page_dir_base m.frames o fish_bytes f x room,
        );
      }

  refused :
      (a : ℤ) (s : System W)
      → (ltb_ℤ a (pos user_start) || ltb_ℤ (pos (user_end - 4)) a) ≡ true
      → syscall_vidmap a s ≡ (minus_one, s)
  unfolding syscall_vidmap
  refused a s bad = elim (Bool-cases (eqb_ℤ a (pos 0))) [
    | inl null ↦ rw null refl
    | inr other ↦ rw (other, bad) refl
  ]

  granted :
      (o : ℕ) (s : System W)
      → o + 4 ≤ size_4m
      → syscall_vidmap (pos (user_start + o)) s
        ≡ (pos 0, give_screen (user_start + o) (map_screen s))
  unfolding syscall_vidmap
  granted o s room = ground arith

  -- A pointer is refused, with -1 and nothing changed, if it does not point to four bytes of the
  -- program's page, from `user_start` to `user_end`. Any other is given the screen's address: the page
  -- there shows the screen if the program's terminal is viewed, else the terminal's window; every
  -- other page is as before; and of the memory only the four bytes pointed to are written.
  pub syscall_vidmap-ScreenGiven :
      (a : ℤ) (s : System W)
      → ((syscall_vidmap a s ≡ (minus_one, s))
          × ((pos_part a < user_start) ⊎ (user_end < pos_part a + 4)))
        ⊎ ((o : ℕ) × (a ≡ pos (user_start + o))
            × (o + 4 ≤ size_4m)
            × ((syscall_vidmap a s).0 ≡ pos 0)
            × ScreenGiven s (syscall_vidmap a s).1 o)
  syscall_vidmap-ScreenGiven (negsuc n) s =
      inl (refused (negsuc n) s (ground arith), inl (omega arith))
  syscall_vidmap-ScreenGiven (pos n) s =
      elim (Bool-cases (ltb_ℤ (pos n) (pos user_start) || ltb_ℤ (pos (user_end - 4)) (pos n))) [
        | inl bad ↦ inl (refused (pos n) s bad, ground arith)
        | inr good ↦
            let o = n - user_start in
            let e : n ≡ user_start + o = ground arith in
            let room : o + 4 ≤ size_4m = ground arith in
            let given = give_screen-ScreenGiven s (map_screen s) o (map_screen-Shown s) room in
            let done = ap (λ k. syscall_vidmap (pos k) s) e ∙ granted o s room in
            inr (o, ap pos e, room, ap (λ r. r.0) done, rw done given)
      ]
