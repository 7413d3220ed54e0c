-- ===== src/Terminals/Tests.antt =====
-- A machine that starts, and a line that is typed on it.
use martian_os.Prelude.{
  ℕ, ◌≡◌, refl, true, false, List, [], ◌∷◌, ◌++◌, some, length, replicate, take, arith,
}
use martian_os.Prelude.Int.{pos, minus_one}
use martian_os.CString.{codes}
use martian_os.Process.System.State.{Terminal}
use martian_os.Keyboard.{
  Display, Input, terminal, put_in_buf, end_line, store_char, what_to_put, press, type_key,
  handle_key, keyboard_int_handler,
}
use martian_os.Keyboard.Codes.{key_of, key_at}
use martian_os.Keyboard.Bounds.{IsInput}
use martian_os.Terminals.{
  init_terms, terminal_init, keyboard_init, place, clear_terms, terminal_read, terminal_write,
}
use martian_os.Terminals.Start.{each, IsRing, terminal_init-IsInput}
use martian_os.Terminals.Line.{Holds, AllEditing, line_after, edit}
use martian_os.Terminals.Typed.{terminal_read-line_after}

-- A screen that keeps the last character drawn.
abbrev last_char : Display
last_char = record {
  World = ℕ;
  kbd_putc = λ tid c w. c;
  nb_putc = λ tid c w. c;
  clear = λ w. 0;
  copy_window = λ tid w. w;
  arrange = λ one two three w. w;
}

-- Memory before the start.
abbrev unset : Terminal
unset = record {
  tid = 7;
  pid = pos 9;
  kbd_buf = replicate 128 0xFF;
  buf_pos = 200;
  kbd_buf_ready = 1;
  cursor_x = pos 0;
  cursor_y = pos 0;
  vid_mem_buffer = 0;
  vidmap_flag = 1;
  next_term_to_run = 5;
}

abbrev before : Input ℕ
before = record {
  left_shift_flag = true;
  right_shift_flag = false;
  ctrl_flag = true;
  capslock_flag = false;
  alt_flag = true;
  kbd_owner = 2;
  buf_pos = 99;
  term_arr = unset ∷ unset ∷ unset ∷ [];
  running_term = 0;
  viewing_term = 0;
  layers = 0 ∷ 1 ∷ 2 ∷ [];
  screen = 0;
}

terminal_init-IsInput_example :
    IsInput (keyboard_init (terminal_init before)) × IsRing (terminal_init before).term_arr
terminal_init-IsInput_example =
    terminal_init-IsInput before refl
      (each (λ i. length (terminal before i).kbd_buf ≡ 128) refl refl refl) refl

-- After the start the line of terminal 0 is empty.
started-Holds : Holds (keyboard_init (terminal_init before)) []
unfolding keyboard_init terminal_init init_terms place clear_terms
started-Holds = record {
  owner = refl;
  runs = refl;
  slot = omega arith;
  room = refl;
  size = refl;
  fits = omega arith;
  text = refl;
  plain = tt;
  unread = refl;
}

-- Shift down, `l`, shift up, `a`, backspace, `s`.
abbrev some_keys : List ℕ
some_keys = 0x2A ∷ 0x26 ∷ 0xAA ∷ 0x1E ∷ 0x0E ∷ 0x1F ∷ []

some_keys-AllEditing : AllEditing some_keys
unfolding key_of key_at
some_keys-AllEditing = (
  tt,
  ((λ e. omega (arith, e)), (tt, ((λ e. omega (arith, e)), (tt, ((λ e. omega (arith, e)), tt))))),
)

line_of_keys : line_after last_char some_keys (keyboard_init (terminal_init before)) [] ≡ codes "Ls"
unfolding line_after edit keyboard_int_handler handle_key key_of key_at press type_key what_to_put
    store_char put_in_buf end_line keyboard_init terminal_init init_terms place clear_terms
line_of_keys = refl

terminal_read-line_after_example :
    let s = keyboard_init (terminal_init before) in
    let typed = take 128 (line_after last_char some_keys s [] ++ 10 ∷ []) in
    (t : Input ℕ) × (terminal_read last_char true (pos 128) (some_keys ++ 0x1C ∷ 0x9C ∷ []) s
      ≡ some (record { result = pos (length typed); bytes = typed; later = 0x9C ∷ []; state = t }))
terminal_read-line_after_example =
    terminal_read-line_after last_char 128 some_keys (0x9C ∷ [])
      (keyboard_init (terminal_init before)) [] (omega arith) some_keys-AllEditing started-Holds

-- Nothing is written for no bytes.
write_nothing : (terminal_write last_char (some []) (pos 0) before).0 ≡ minus_one
unfolding terminal_write
write_nothing = refl
