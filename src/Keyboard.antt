-- ===== src/Keyboard.antt =====
-- mp3_Final/student-distrib/keyboard.c, and switch_terminal of terminal.c: from scan codes to the
-- line buffers of the terminals, and from there to a program. What is drawn goes through the
-- interface `Display`.
pub mod Codes
pub mod Bounds
pub mod Tests
use martian_os.Prelude.{
  ℕ, zero, suc, ◌+◌, ◌-◌, ◌%◌, ◌^◌, Bool, true, false, not, ◌&&◌, ◌||◌, List, [], ◌∷◌, Option, none,
  some, get_or, set, ltb, leb, ◌==◌, if◌then◌else◌,
}
use martian_os.Prelude.Int.{ℤ, pos, negsuc, minus_one}
use martian_os.Process.System.State.{Terminal, no_terminal}
use martian_os.Keyboard.Codes.{
  Key, ctrl_down, ctrl_up, left_shift_down, left_shift_up, right_shift_down, right_shift_up,
  capslock_down, backspace, alt_down, alt_up, no_effect, function_key, key_of, scan_normal,
  scan_shifted, is_letter,
}

-- What is drawn on the screen: a character at the cursor of a terminal, by a key or by the system,
-- a cleared window, the copy of a terminal's window, and the order of the three windows.
pub record Display : Type 1 where
  pub World : Type 0
  pub kbd_putc : ℕ → ℕ → World → World
  pub nb_putc : ℕ → ℕ → World → World
  pub clear : World → World
  pub copy_window : ℕ → World → World
  pub arrange : ℕ → ℕ → ℕ → World → World

-- `kbd_buf` points into the terminal `kbd_owner` of `term_arr`; `buf_pos` is a `uint8_t`.
pub record Input (World : Type 0) : Type 0 where
  pub left_shift_flag : Bool
  pub right_shift_flag : Bool
  pub ctrl_flag : Bool
  pub capslock_flag : Bool
  pub alt_flag : Bool
  pub kbd_owner : ℕ
  pub buf_pos : ℕ
  pub term_arr : List Terminal
  pub running_term : ℕ
  pub viewing_term : ℕ
  pub layers : List ℕ
  pub screen : World

-- `KBD_BUF_SIZE`
abbrev pub kbd_buf_size : ℕ
kbd_buf_size = 128

module _ {W : Type 0} where
  abbrev pub terminal : Input W → ℕ → Terminal
  terminal s i = get_or s.term_arr i no_terminal

  abbrev pub put_terminal : Input W → ℕ → Terminal → Input W
  put_terminal s i t = record s { term_arr = set s.term_arr i t }

  -- `kbd_buf[buf_pos] = c`
  unfoldable pub put_in_buf : ℕ → Input W → Input W
  put_in_buf c s =
      let t = terminal s s.kbd_owner in
      put_terminal s s.kbd_owner (record t { kbd_buf = set t.kbd_buf s.buf_pos c })

  -- `buf_pos = 0; viewing_term_ptr->kbd_buf_ready = 1;`
  unfoldable pub end_line : Input W → Input W
  end_line s =
      record (put_terminal s s.viewing_term
        (record (terminal s s.viewing_term) { kbd_buf_ready = 1 })) { buf_pos = 0 }

  -- What the handler does to the line buffer with a character.
  unfoldable pub store_char : ℕ → Input W → Input W
  store_char c s =
      if leb s.buf_pos (kbd_buf_size - 2)
      then (if c == b'\n'
          then end_line (put_in_buf c s)
          else (let s1 = put_in_buf c s in record s1 { buf_pos = (s1.buf_pos + 1) % 2 ^ 8 }))
      else if s.buf_pos == kbd_buf_size - 1 && c == b'\n'
      then end_line (put_in_buf b'\n' s)
      else s

  -- The character of a scan code: shift and caps lock change letters, shift alone the rest.
  unfoldable pub what_to_put : ℕ → Input W → ℕ
  what_to_put input_code s =
      let shift = s.left_shift_flag || s.right_shift_flag in
      let should_modify =
        (if is_letter input_code
          then (if shift then not s.capslock_flag else s.capslock_flag)
          else shift) in
      if should_modify then get_or scan_shifted input_code 0 else get_or scan_normal input_code 0

module _ (d : Display) where
  pub switch_terminal : ℕ → Input d.World → Input d.World
  switch_terminal target_tid s =
      let two = (terminal s s.viewing_term).tid in
      let three = 3 - target_tid - two in
      let saved =
        put_terminal s s.viewing_term
          (record (terminal s s.viewing_term) { buf_pos = s.buf_pos }) in
      if target_tid == two
      then record s { screen = d.copy_window target_tid s.screen }
      else record saved {
        kbd_owner = target_tid;
        buf_pos = (terminal saved target_tid).buf_pos % 2 ^ 8;
        layers = set (set (set s.layers target_tid 0) two 1) three 2;
        viewing_term = target_tid;
        screen = d.arrange target_tid two three (d.copy_window target_tid s.screen);
      }

  -- The cases of `check_and_handle_special_button`.
  unfoldable pub press : Key → Input d.World → Input d.World
  press ctrl_down s = record s { ctrl_flag = true }
  press ctrl_up s = record s { ctrl_flag = false }
  press left_shift_down s = record s { left_shift_flag = true }
  press left_shift_up s = record s { left_shift_flag = false }
  press right_shift_down s = record s { right_shift_flag = true }
  press right_shift_up s = record s { right_shift_flag = false }
  press capslock_down s = record s { capslock_flag = not s.capslock_flag }
  press backspace s =
      if ltb 0 s.buf_pos
      then record s {
        screen = d.nb_putc (terminal s s.viewing_term).tid 8 s.screen;
        buf_pos = s.buf_pos - 1;
      }
      else s
  press alt_down s = record s { alt_flag = true }
  press alt_up s = record s { alt_flag = false }
  press no_effect s = s
  press (function_key i) s = if s.alt_flag then switch_terminal i s else s

  -- A key that puts a character, or clears the screen with Ctrl.
  unfoldable pub type_key : ℕ → Input d.World → Input d.World
  type_key input_code s =
      if leb 2 input_code && leb input_code 58
      then (if s.ctrl_flag && get_or scan_normal input_code 0 == b'l'
          then record s { screen = d.clear s.screen; ctrl_flag = false }
          else (let c = what_to_put input_code s in
              store_char c
                (record s { screen = d.kbd_putc (terminal s s.viewing_term).tid c s.screen })))
      else s

  -- What follows `check_and_handle_special_button`.
  unfoldable pub handle_key : ℕ → Option Key → Input d.World → Input d.World
  handle_key input_code (some key) s = press key s
  handle_key input_code none s = type_key input_code s

  -- On the scan code that the port gives.
  unfoldable pub keyboard_int_handler : ℕ → Input d.World → Input d.World
  keyboard_int_handler input_code s = handle_key input_code (key_of input_code) s

-- The loop from `i` on, with `n` rounds left: the bytes that go to `buf`.
unfoldable pub read_line : List ℕ → ℕ → ℕ → List ℕ
read_line kbd_buf zero i = []
read_line kbd_buf (suc n) i =
    let rest = read_line kbd_buf n (i + 1) in
    if ltb (kbd_buf_size - 1) i
    then []
    else if get_or kbd_buf i 0 == b'\n'
    then get_or kbd_buf i 0 ∷ []
    else get_or kbd_buf i 0 ∷ rest

module _ {W : Type 0} where
  -- What follows the wait for `kbd_buf_ready`: the bytes, whose number is returned. A size that is
  -- not positive is refused before, with -1.
  unfoldable pub read_from_kbd_buf_to_buf : ℕ → Input W → List ℕ × Input W
  read_from_kbd_buf_to_buf nbytes s = (
    read_line (terminal s s.kbd_owner).kbd_buf nbytes 0,
    put_terminal s s.running_term (record (terminal s s.running_term) { kbd_buf_ready = 0 }),
  )
