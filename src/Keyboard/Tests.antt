-- ===== src/Keyboard/Tests.antt =====
-- Keys at a concrete state.
use martian_os.Prelude.{
  ℕ, zero, suc, ◌+◌, ◌<◌, ◌≤◌, ◌≡◌, refl, false, List, [], ◌∷◌, length, replicate, arith,
}
use martian_os.Prelude.Int.{pos, minus_one}
use martian_os.CString.{codes}
use martian_os.Process.System.State.{Terminal}
use martian_os.Keyboard.{
  Display, Input, terminal, put_in_buf, end_line, store_char, what_to_put, press, type_key,
  handle_key, keyboard_int_handler, read_line, read_from_kbd_buf_to_buf,
}
use martian_os.Keyboard.Codes.{key_of, key_at}
use martian_os.Keyboard.Bounds.{IsInput, type_codes, type_codes-IsInput}

-- A screen that counts what is drawn.
abbrev counting_screen : Display
counting_screen = record {
  World = ℕ;
  kbd_putc = λ tid c w. w + 1;
  nb_putc = λ tid c w. w + 1;
  clear = λ w. 0;
  copy_window = λ tid w. w;
  arrange = λ one two three w. w;
}

abbrev empty_terminal : ℕ → ℕ → Terminal
empty_terminal tid next = record {
  tid = tid;
  pid = minus_one;
  kbd_buf = replicate 128 0;
  buf_pos = 0;
  kbd_buf_ready = 0;
  cursor_x = pos 0;
  cursor_y = pos 0;
  vid_mem_buffer = 0;
  vidmap_flag = 0;
  next_term_to_run = next;
}

abbrev idle : Input ℕ
idle = record {
  left_shift_flag = false;
  right_shift_flag = false;
  ctrl_flag = false;
  capslock_flag = false;
  alt_flag = false;
  kbd_owner = 0;
  buf_pos = 0;
  term_arr = empty_terminal 0 1 ∷ empty_terminal 1 2 ∷ empty_terminal 2 0 ∷ [];
  running_term = 0;
  viewing_term = 0;
  layers = 0 ∷ 1 ∷ 2 ∷ [];
  screen = 0;
}

idle-IsInput : IsInput idle
idle-IsInput = record {
  three = refl;
  viewed = omega arith;
  own = refl;
  inside = omega arith;
  buffers = each (λ i. length (terminal idle i).kbd_buf ≡ 128) refl refl refl;
  saved = each (λ i. (terminal idle i).buf_pos ≤ 127) (omega arith) (omega arith) (omega arith);
  tids = each (λ i. (terminal idle i).tid ≡ i) refl refl refl;
}
  where
    each : (P : ℕ → Type 0) → P 0 → P 1 → P 2 → (i : ℕ) → i < 3 → P i
    each P a b c zero h = a
    each P a b c (suc zero) h = b
    each P a b c (suc (suc zero)) h = c
    each P a b c (suc (suc (suc i))) h = absurd (omega arith)

-- Shift down, `l`, shift up, `s`, Enter.
abbrev ls_keys : List ℕ
ls_keys = 0x2A ∷ 0x26 ∷ 0xAA ∷ 0x1F ∷ 0x1C ∷ []

-- The line goes to the buffer of terminal 0, and from there to the program that reads.
line_is_read :
    (read_from_kbd_buf_to_buf 128 (type_codes counting_screen ls_keys idle)).0 ≡ codes "Ls\n"
unfolding type_codes keyboard_int_handler handle_key key_of key_at press type_key what_to_put
    store_char put_in_buf end_line read_from_kbd_buf_to_buf read_line
line_is_read = refl

type_codes-IsInput_example : IsInput (type_codes counting_screen (0x38 ∷ 0x3C ∷ ls_keys) idle)
type_codes-IsInput_example =
    type_codes-IsInput counting_screen (0x38 ∷ 0x3C ∷ ls_keys) idle idle-IsInput
