-- ===== src/Terminals.antt =====
-- mp3_Final/student-distrib/terminal.c: the start of the terminals, and the calls by which a program
-- reads a line and writes to the screen; keyboard.c, keyboard_init and the wait for a line.
pub mod Start
pub mod Line
pub mod Typed
pub mod Tests
use martian_os.Prelude.{
  ℕ, zero, suc, ◌+◌, ◌*◌, ◌^◌, Bool, false, not, ◌||◌, List, [], ◌∷◌, Option, none, some, length,
  get_or, set, ◌==◌, if◌then◌else◌, ◌>>=◌,
}
use martian_os.Prelude.Int.{ℤ, pos, negsuc, minus_one, ltb_ℤ}
use martian_os.Process.System.State.{Terminal, no_terminal}
use martian_os.Keyboard.{Display, Input, terminal, keyboard_int_handler, read_from_kbd_buf_to_buf}

-- The loop of `terminal_init` from `i` on, with `n` rounds left.
pub clear_terms : ℕ → ℕ → List Terminal → List Terminal
clear_terms zero i t = t
clear_terms (suc n) i t = clear_terms n (i + 1) (
    set t i (record (get_or t i no_terminal) {
      tid = i;
      pid = minus_one;
      buf_pos = 0;
      kbd_buf_ready = 0;
      vidmap_flag = 0;
    }))

-- The rest of a terminal's fields: where its text begins, its window's memory, and which terminal
-- runs after it.
pub place : ℕ → ℤ → ℤ → ℕ → ℕ → List Terminal → List Terminal
place i x y vid_mem_buffer next t = set t i (record (get_or t i no_terminal) {
  cursor_x = x;
  cursor_y = y;
  vid_mem_buffer = vid_mem_buffer;
  next_term_to_run = next;
})

-- `WINDOW1_X + TEXT_OFF_X` and so on; `TERM_1_4M_VIDEO` and so on.
pub init_terms : List Terminal → List Terminal
init_terms t = place 2 (pos 302) (pos 322) (0xFD000000 + 3 * 2 ^ 22) 0 (
    place 1 (pos 202) (pos 222) (0xFD000000 + 2 * 2 ^ 22) 2
      (place 0 (pos 102) (pos 122) (0xFD000000 + 2 ^ 22) 1 (clear_terms 3 0 t)))

module _ {W : Type 0} where
  -- `kbd_buf` and the cursor pointers go to terminal 0.
  pub terminal_init : Input W → Input W
  terminal_init s = record s { term_arr = init_terms s.term_arr; kbd_owner = 0; buf_pos = 0 }

  -- The interrupt controllers aside, which `enable_irq` changes.
  pub keyboard_init : Input W → Input W
  keyboard_init s = record s {
    left_shift_flag = false;
    right_shift_flag = false;
    ctrl_flag = false;
    capslock_flag = false;
    alt_flag = false;
  }

module _ (d : Display) where
  -- `while (!(running_term_ptr->kbd_buf_ready))`, while these scan codes come in: those that are
  -- left, or `none` for a wait without end.
  pub wait_line : List ℕ → Input d.World → Option (List ℕ × Input d.World)
  wait_line [] s =
      if not ((terminal s s.running_term).kbd_buf_ready == 0) then some ([], s) else none
  wait_line (c ∷ cs) s =
      let rest = wait_line cs (keyboard_int_handler d c s) in
      if not ((terminal s s.running_term).kbd_buf_ready == 0) then some (c ∷ cs, s) else rest

  -- What a read gives: the result, the bytes in `buf`, and what comes in later.
  pub record Got : Type 0 where
    pub result : ℤ
    pub bytes : List ℕ
    pub later : List ℕ
    pub state : Input d.World

  -- `has_buf` is false where `buf` is NULL.
  pub terminal_read : Bool → ℤ → List ℕ → Input d.World → Option Got
  terminal_read has_buf (negsuc n) codes s =
      some (record { result = minus_one; bytes = []; later = codes; state = s })
  terminal_read has_buf (pos nbytes) codes s =
      if not has_buf || nbytes == 0
      then some (record { result = minus_one; bytes = []; later = codes; state = s })
      else (do
        (later, t) ← wait_line codes s
        let got = read_from_kbd_buf_to_buf nbytes t
        some (record { result = pos (length got.0); bytes = got.0; later = later; state = got.1 }))

  -- The loop from `i` on, with `n` rounds left: the characters go to the screen of the terminal that
  -- runs.
  pub write_chars : ℕ → ℕ → List ℕ → ℕ → d.World → d.World
  write_chars zero i buf tid w = w
  write_chars (suc n) i buf tid w = write_chars n (i + 1) buf tid (d.nb_putc tid (get_or buf i 0) w)

  pub terminal_write : Option (List ℕ) → ℤ → Input d.World → ℤ × Input d.World
  terminal_write none nbytes s = (minus_one, s)
  terminal_write (some buf) (negsuc n) s = (minus_one, s)
  terminal_write (some buf) (pos nbytes) s = if nbytes == 0 then (minus_one, s) else (
    pos nbytes,
    record s { screen = write_chars nbytes 0 buf (terminal s s.running_term).tid s.screen },
  )
