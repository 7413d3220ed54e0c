-- ===== src/Keyboard/Bounds.antt =====
-- Whatever is typed, the line buffers are never left.
use martian_os.Prelude.{
  ℕ, ◌<◌, ◌≤◌, ◌≡◌, refl, ap, sym, ◌∙◌, inl, inr, Bool, true, false, ◌&&◌, List, [], ◌∷◌, Option,
  none, some, length, get_or, get_or-set, length-set, ltb, leb, ◌==◌, if◌then◌else◌, Bool-cases,
  arith,
}
use martian_os.Process.System.State.{Terminal, no_terminal}
use martian_os.Keyboard.Codes.{
  Key, ctrl_down, ctrl_up, left_shift_down, left_shift_up, right_shift_down, right_shift_up,
  capslock_down, backspace, alt_down, alt_up, no_effect, function_key, key_of, key_at, case_labels,
  scan_normal,
}
use martian_os.Keyboard.{
  Display, Input, terminal, put_terminal, put_in_buf, end_line, store_char, what_to_put,
  switch_terminal, press, type_key, handle_key, keyboard_int_handler,
}

-- Three terminals with buffers of 128 bytes; the keyboard writes into that of the terminal which is
-- viewed, at a position inside of it.
pub record IsInput {W : Type 0} (s : Input W) : Type 0 where
  pub three : length s.term_arr ≡ 3
  pub viewed : s.viewing_term < 3
  pub own : s.kbd_owner ≡ s.viewing_term
  pub inside : s.buf_pos ≤ 127
  pub buffers : (i : ℕ) → i < 3 → length (terminal s i).kbd_buf ≡ 128
  pub saved : (i : ℕ) → i < 3 → (terminal s i).buf_pos ≤ 127
  pub tids : (i : ℕ) → i < 3 → (terminal s i).tid ≡ i

module _ {W : Type 0} where
  -- A terminal is replaced by one with the same number, a buffer as long, and a position inside.
  put_terminal-IsInput :
      (s : Input W) (i : ℕ) (t : Terminal)
      → IsInput s
      → i < 3
      → length t.kbd_buf ≡ 128
      → t.buf_pos ≤ 127
      → t.tid ≡ i
      → IsInput (put_terminal s i t)
  put_terminal-IsInput s i t v hi hb hp ht = record {
    three = length-set s.term_arr i t ∙ v.three;
    viewed = v.viewed;
    own = v.own;
    inside = v.inside;
    buffers =
        λ j hj. ground (arith, v.buffers j hj, v.three, get_or-set s.term_arr i j t no_terminal);
    saved = λ j hj. ground (arith, v.saved j hj, v.three, get_or-set s.term_arr i j t no_terminal);
    tids = λ j hj. ground (arith, v.tids j hj, v.three, get_or-set s.term_arr i j t no_terminal);
  }

  put_in_buf-IsInput : (c : ℕ) (s : Input W) → IsInput s → IsInput (put_in_buf c s)
  unfolding put_in_buf
  put_in_buf-IsInput c s v =
      let o : s.kbd_owner < 3 = omega (arith, v.own, v.viewed) in
      let t = terminal s s.kbd_owner in
      put_terminal-IsInput s s.kbd_owner _ v o (length-set t.kbd_buf s.buf_pos c ∙ v.buffers _ o)
        (v.saved _ o) (v.tids _ o)

  at_pos : (s : Input W) (n : ℕ) → IsInput s → n ≤ 127 → IsInput (record s { buf_pos = n })
  at_pos s n v h = record {
    three = v.three;
    viewed = v.viewed;
    own = v.own;
    inside = h;
    buffers = v.buffers;
    saved = v.saved;
    tids = v.tids;
  }

  end_line-IsInput : (s : Input W) → IsInput s → IsInput (end_line s)
  unfolding end_line
  end_line-IsInput s v =
      at_pos _ 0
        (put_terminal-IsInput s s.viewing_term _ v v.viewed (v.buffers _ v.viewed)
          (v.saved _ v.viewed) (v.tids _ v.viewed))
        (omega arith)

  buf_pos-put_in_buf : (c : ℕ) (s : Input W) → (put_in_buf c s).buf_pos ≡ s.buf_pos
  unfolding put_in_buf
  buf_pos-put_in_buf c s = refl

  pub store_char-IsInput : (c : ℕ) (s : Input W) → IsInput s → IsInput (store_char c s)
  unfolding store_char
  store_char-IsInput c s v = elim (Bool-cases (leb s.buf_pos 126)) [
    | inl room ↦ elim (Bool-cases (c == b'\n')) [
      | inl enter ↦ rw (room, enter) (end_line-IsInput _ (put_in_buf-IsInput c s v))
      | inr other ↦
          rw (room, other)
            (at_pos _ _ (put_in_buf-IsInput c s v) (ground (arith, buf_pos-put_in_buf c s)))
    ]
    | inr full ↦ elim (Bool-cases (s.buf_pos == 127 && c == b'\n')) [
      | inl enter ↦ rw (full, enter) (end_line-IsInput _ (put_in_buf-IsInput b'\n' s v))
      | inr other ↦ rw (full, other) v
    ]
  ]

  -- The flags and the screen play no part.
  same_buffers :
      (s s' : Input W)
      → IsInput s
      → s'.term_arr ≡ s.term_arr
      → s'.viewing_term ≡ s.viewing_term
      → s'.kbd_owner ≡ s.kbd_owner
      → s'.buf_pos ≤ 127
      → IsInput s'
  same_buffers s s' v t vt o p = record {
    three = ap length t ∙ v.three;
    viewed = rw vt v.viewed;
    own = o ∙ v.own ∙ sym vt;
    inside = p;
    buffers = λ i h. rw t (v.buffers i h);
    saved = λ i h. rw t (v.saved i h);
    tids = λ i h. rw t (v.tids i h);
  }

-- F1 to F3 name terminals that exist.
abbrev InRange : Option Key → Type 0
InRange o = (i : ℕ) → o ≡ some (function_key i) → i < 3

-- The test of it on a key, and on all labels.
in_range : Key → Bool
in_range (function_key i) = ltb i 3
in_range _ = true

all_in_range : List (ℕ × Key) → Bool
all_in_range [] = true
all_in_range ((label, key) ∷ labels) = in_range key && all_in_range labels

in_range-InRange : (k : Key) → in_range k ≡ true → InRange (some k)
unfolding in_range
in_range-InRange k h i e =
    let q : k ≡ function_key i = cc in
    let inside : ltb i 3 ≡ true = ap in_range (sym q) ∙ h in ground arith

none-InRange : InRange none
none-InRange i e = absurd (cc)

key_at-InRange :
    (code : ℕ) (labels : List (ℕ × Key)) → all_in_range labels ≡ true → InRange (key_at code labels)
unfolding key_at all_in_range
key_at-InRange code [] h = none-InRange
key_at-InRange code ((label, key) ∷ labels) h = elim (Bool-cases (code == label)) [
  | inl here ↦ rw here (in_range-InRange key (ground arith))
  | inr away ↦ rw away (key_at-InRange code labels (ground arith))
]

key_of-InRange : (code : ℕ) → InRange (key_of code)
unfolding key_of all_in_range in_range
key_of-InRange code = key_at-InRange code case_labels refl

if_IsInput :
    {W : Type 0} (b : Bool) (x y : Input W) → IsInput x → IsInput y → IsInput (if b then x else y)
if_IsInput true x y hx hy = hx
if_IsInput false x y hx hy = hy

module _ (d : Display) where
  switch_terminal-IsInput :
      (target : ℕ) (s : Input d.World)
      → target < 3
      → IsInput s
      → IsInput (switch_terminal d target s)
  unfolding switch_terminal
  switch_terminal-IsInput target s h v =
      elim (Bool-cases (target == (terminal s s.viewing_term).tid)) [
        | inl here ↦ rw here (same_buffers s _ v refl refl refl v.inside)
        | inr away ↦
            let w =
              put_terminal-IsInput s s.viewing_term
                (record (terminal s s.viewing_term) { buf_pos = s.buf_pos }) v v.viewed
                (v.buffers _ v.viewed) v.inside (v.tids _ v.viewed) in
            rw away (record {
              three = w.three;
              viewed = h;
              own = refl;
              inside = omega (arith, w.saved target h);
              buffers = w.buffers;
              saved = w.saved;
              tids = w.tids;
            })
      ]

  press-IsInput :
      (key : Key) (s : Input d.World) → InRange (some key) → IsInput s → IsInput (press d key s)
  unfolding press
  press-IsInput ctrl_down s r v = same_buffers s _ v refl refl refl v.inside
  press-IsInput ctrl_up s r v = same_buffers s _ v refl refl refl v.inside
  press-IsInput left_shift_down s r v = same_buffers s _ v refl refl refl v.inside
  press-IsInput left_shift_up s r v = same_buffers s _ v refl refl refl v.inside
  press-IsInput right_shift_down s r v = same_buffers s _ v refl refl refl v.inside
  press-IsInput right_shift_up s r v = same_buffers s _ v refl refl refl v.inside
  press-IsInput capslock_down s r v = same_buffers s _ v refl refl refl v.inside
  press-IsInput backspace s r v = elim (Bool-cases (ltb 0 s.buf_pos)) [
    | inl some_chars ↦ rw some_chars (same_buffers s _ v refl refl refl (omega (arith, v.inside)))
    | inr none_left ↦ rw none_left v
  ]
  press-IsInput alt_down s r v = same_buffers s _ v refl refl refl v.inside
  press-IsInput alt_up s r v = same_buffers s _ v refl refl refl v.inside
  press-IsInput no_effect s r v = v
  press-IsInput (function_key i) s r v =
      if_IsInput s.alt_flag _ _ (switch_terminal-IsInput i s (r i refl) v) v

  type_key-IsInput : (code : ℕ) (s : Input d.World) → IsInput s → IsInput (type_key d code s)
  unfolding type_key
  type_key-IsInput code s v = elim (Bool-cases (leb 2 code && leb code 58)) [
    | inl listed ↦ elim (Bool-cases (s.ctrl_flag && get_or scan_normal code 0 == b'l')) [
      | inl clears ↦ rw (listed, clears) (same_buffers s _ v refl refl refl v.inside)
      | inr puts ↦
          rw (listed, puts)
            (store_char-IsInput (what_to_put code s) _ (same_buffers s _ v refl refl refl v.inside))
    ]
    | inr unlisted ↦ rw unlisted v
  ]

  handle_key-IsInput :
      (code : ℕ) (key : Option Key) (s : Input d.World)
      → InRange key
      → IsInput s
      → IsInput (handle_key d code key s)
  unfolding handle_key
  handle_key-IsInput code (some key) s r v = press-IsInput key s r v
  handle_key-IsInput code none s r v = type_key-IsInput code s v

  keyboard_int_handler-IsInput :
      (code : ℕ) (s : Input d.World) → IsInput s → IsInput (keyboard_int_handler d code s)
  unfolding keyboard_int_handler
  keyboard_int_handler-IsInput code s v =
      handle_key-IsInput code (key_of code) s (key_of-InRange code) v

  -- The handler on one scan code after the other.
  unfoldable pub type_codes : List ℕ → Input d.World → Input d.World
  type_codes [] s = s
  type_codes (c ∷ cs) s = type_codes cs (keyboard_int_handler d c s)

  -- Whatever scan codes come in, keys held or released, lines too long, terminals switched half-way
  -- through a line: the keyboard goes on writing inside of the 128 bytes of the viewed terminal.
  pub type_codes-IsInput : (cs : List ℕ) (s : Input d.World) → IsInput s → IsInput (type_codes cs s)
  unfolding type_codes
  type_codes-IsInput [] s v = v
  type_codes-IsInput (c ∷ cs) s v =
      type_codes-IsInput cs (keyboard_int_handler d c s) (keyboard_int_handler-IsInput c s v)
