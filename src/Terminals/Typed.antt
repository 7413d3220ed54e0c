-- ===== src/Terminals/Typed.antt =====
-- From the keys to the program: what a read gives for a line that is typed.
use martian_os.Prelude.{
  ℕ, zero, suc, ◌+◌, ◌≤◌, ◌<◌, ◌≡◌, refl, ap, sym, ◌∙◌, inl, inr, Bool, true, false, ◌&&◌, ◌||◌,
  List, [], ◌∷◌, ◌++◌, Option, some, length, get_or, set, take, drop, leb, ◌==◌, Bool-cases,
  get_or-set_self, length-set, arith,
}
use martian_os.Prelude.Int.{pos}
use martian_os.Process.System.State.{Terminal, no_terminal}
use martian_os.Keyboard.Codes.{key_of, key_at, scan_normal}
use martian_os.Keyboard.{
  Display, Input, terminal, put_in_buf, end_line, store_char, what_to_put, type_key, handle_key,
  keyboard_int_handler, read_line, read_from_kbd_buf_to_buf,
}
use martian_os.Terminals.{Got, wait_line, terminal_read}
use martian_os.Terminals.Line.{
  Holds, NoNewline, AllEditing, edit, line_after, own_terminal, handler-Holds, Holds-same,
}

drop_first :
    (i : ℕ) (b : List ℕ) (x : ℕ) (y : List ℕ)
    → drop i b ≡ x ∷ y
    → (get_or b i 0 ≡ x) × (drop (suc i) b ≡ y)
drop_first zero [] x y e = cc
drop_first zero (c ∷ b) x y e = (cc e, cc e)
drop_first (suc i) [] x y e = cc
drop_first (suc i) (c ∷ b) x y e = drop_first i b x y e

take-nil : (n : ℕ) → take {A = ℕ} n [] ≡ []
take-nil zero = refl
take-nil (suc n) = refl

-- The loop gives the line, up to its newline, or as much as the size asks for.
read_line_at :
    (n i : ℕ) (b l behind : List ℕ)
    → drop i b ≡ l ++ b'\n' ∷ behind
    → NoNewline l
    → i + length l ≤ 127
    → read_line b n i ≡ take n (l ++ b'\n' ∷ [])
unfolding read_line
read_line_at zero i b l behind e plain room = refl
read_line_at (suc n) i b [] behind e plain room =
    let first = drop_first i b b'\n' behind e in ground (arith, first.0, take-nil n)
read_line_at (suc n) i b (c ∷ l) behind e plain room =
    let (first, later) = drop_first i b c (l ++ b'\n' ∷ behind) e in
    let next : suc i ≡ i + 1 = omega arith in
    ground (
      arith,
      first,
      read_line_at n (i + 1) b l behind (ap (λ k. drop k b) (sym next) ∙ later) plain.1
          (omega arith),
    )

set_split : (b : List ℕ) (p c : ℕ) → p < length b → set b p c ≡ take p b ++ c ∷ drop (suc p) b
set_split [] p c h = elim h [ ]
set_split (x ∷ b) zero c h = refl
set_split (x ∷ b) (suc p) c h = ap (◌∷◌ x) (set_split b p c (omega arith))

what_enter : {W : Type 0} (s : Input W) → what_to_put 0x1C s ≡ b'\n'
unfolding what_to_put
what_enter s = elim (Bool-cases (s.left_shift_flag || s.right_shift_flag)) [
  | inl shift ↦ rw shift refl
  | inr normal ↦ rw normal refl
]

store_newline :
    {W : Type 0} (s : Input W)
    → s.buf_pos ≤ 127
    → store_char b'\n' s ≡ end_line (put_in_buf b'\n' s)
unfolding store_char
store_newline s h = elim (Bool-cases (leb s.buf_pos 126)) [
  | inl fits ↦ rw fits refl
  | inr full ↦ let last : (s.buf_pos == 127) ≡ true = ground arith in rw (full, last) refl
]

-- `line ++ "\n"` stands in the buffer.
newline_text :
    {W : Type 0} (s : Input W) (l : List ℕ)
    → Holds s l
    → let b = (terminal s s.kbd_owner).kbd_buf in
      set b s.buf_pos b'\n' ≡ l ++ b'\n' ∷ drop (suc s.buf_pos) b
newline_text s l v =
    let b = (terminal s s.kbd_owner).kbd_buf in
    set_split b s.buf_pos b'\n' (omega (arith, v.room, v.fits))
    ∙ ap (λ x. x ++ b'\n' ∷ drop (suc s.buf_pos) b) v.text

-- The viewed terminal once the line has ended.
ended :
    {W : Type 0} (s : Input W) (l : List ℕ)
    → Holds s l
    → terminal (end_line (put_in_buf b'\n' s)) s.viewing_term ≡ record (terminal s s.kbd_owner) {
      kbd_buf = set (terminal s s.kbd_owner).kbd_buf s.buf_pos b'\n';
      kbd_buf_ready = 1;
    }
unfolding end_line put_in_buf
ended s l v =
    let u = put_in_buf b'\n' s in
    let read_state : Terminal → Terminal = λ t. record t { kbd_buf_ready = 1 } in
    get_or-set_self u.term_arr s.viewing_term _ no_terminal (
      omega (
        arith,
        length-set s.term_arr s.kbd_owner (record (terminal s s.kbd_owner) {
          kbd_buf = set (terminal s s.kbd_owner).kbd_buf s.buf_pos b'\n';
        }),
        v.slot,
      ))
    ∙ ap read_state (ap (λ i. terminal u i) (sym v.owner) ∙ own_terminal b'\n' s l v)

-- What a program finds: the line and its newline, in the buffer that it reads.
record IsReady {W : Type 0} (t : Input W) (l : List ℕ) : Type 0 where
  ready : (terminal t t.running_term).kbd_buf_ready ≡ 1
  behind : List ℕ
  buffer : (terminal t t.kbd_owner).kbd_buf ≡ l ++ b'\n' ∷ behind

end_line-IsReady :
    {W : Type 0} (s : Input W) (l : List ℕ) → Holds s l → IsReady (end_line (put_in_buf b'\n' s)) l
unfolding end_line put_in_buf
end_line-IsReady s l v =
    let e = ended s l v in
    let t = end_line (put_in_buf b'\n' s) in
    record {
      ready = ap (λ i. (terminal t i).kbd_buf_ready) v.runs ∙ ap (λ x. x.kbd_buf_ready) e;
      behind = drop (suc s.buf_pos) (terminal s s.kbd_owner).kbd_buf;
      buffer =
          ap (λ i. (terminal t i).kbd_buf) v.owner ∙ ap (λ x. x.kbd_buf) e ∙ newline_text s l v;
    }

module _ (d : Display) where
  ctrl_enter : (b : Bool) → (b && get_or scan_normal 0x1C 0 == b'l') ≡ false
  ctrl_enter true = refl
  ctrl_enter false = refl

  -- Enter stores the newline and ends the line.
  enter_line :
      (s : Input d.World)
      → s.buf_pos ≤ 127
      → keyboard_int_handler d 0x1C s
        ≡ end_line (
            put_in_buf b'\n'
              (record s { screen = d.kbd_putc (terminal s s.viewing_term).tid b'\n' s.screen }))
  unfolding keyboard_int_handler handle_key key_of key_at type_key
  enter_line s h = rw (ctrl_enter s.ctrl_flag, what_enter s) (store_newline _ h)

  enter-IsReady :
      (s : Input d.World) (l : List ℕ) → Holds s l → IsReady (keyboard_int_handler d 0x1C s) l
  enter-IsReady s l v =
      let drawn = record s { screen = d.kbd_putc (terminal s s.viewing_term).tid b'\n' s.screen } in
      rw (enter_line s v.fits)
        (end_line-IsReady drawn l (Holds-same s drawn l refl refl refl refl refl v))

  -- The wait is over when the line is ready, and not before.
  wait_ready :
      (cs : List ℕ) (t : Input d.World)
      → (terminal t t.running_term).kbd_buf_ready ≡ 1
      → wait_line d cs t ≡ some (cs, t)
  unfolding wait_line
  wait_ready [] t e = rw e refl
  wait_ready (c ∷ cs) t e = rw e refl

  -- The wait goes on over the keys of the line and Enter, and takes nothing of what follows.
  wait_typed :
      (cs later : List ℕ) (s : Input d.World) (l : List ℕ)
      → AllEditing cs
      → Holds s l
      → (t : Input d.World) × (wait_line d (cs ++ 0x1C ∷ later) s ≡ some (later, t))
        × IsReady t (line_after d cs s l)
        × NoNewline (line_after d cs s l)
        × (length (line_after d cs s l) ≤ 127)
  unfolding wait_line line_after
  wait_typed [] later s l keys v =
      let t = keyboard_int_handler d 0x1C s in
      let r = enter-IsReady s l v in
      (t, rw v.unread (wait_ready later t r.ready), r, v.plain, omega (arith, v.size, v.fits))
  wait_typed (c ∷ cs) later s l keys v =
      let (t, e, ready, plain, room) =
        wait_typed cs later (keyboard_int_handler d c s) (edit c (key_of c) s l) keys.1
          (handler-Holds d c s l keys.0 v) in
      (t, rw v.unread e, ready, plain, room)

  read_ready :
      (n : ℕ) (t : Input d.World) (l : List ℕ)
      → IsReady t l
      → NoNewline l
      → length l ≤ 127
      → (read_from_kbd_buf_to_buf n t).0 ≡ take n (l ++ b'\n' ∷ [])
  unfolding read_from_kbd_buf_to_buf
  read_ready n t l r plain room =
      read_line_at n 0 (terminal t t.kbd_owner).kbd_buf l r.behind r.buffer plain
        (omega (arith, room))

  -- A program on the viewed terminal asks for up to `n` bytes, with `n` > 0 and a line `l` of the
  -- terminal that is begun and not yet read. For all scan codes `cs` of keys that neither switch the
  -- terminal nor are Enter, with shift, control, caps lock and backspace in any order, followed by
  -- Enter and by what comes in later: the read returns, it takes exactly `cs` and Enter, and it gives
  -- the first `n` bytes of the line that an editor without buffer or limit of memory but 127
  -- characters has after `cs`, ended by a newline; the result is their number.
  pub terminal_read-line_after :
      (n : ℕ) (cs later : List ℕ) (s : Input d.World) (l : List ℕ)
      → 0 < n
      → AllEditing cs
      → Holds s l
      → let typed = take n (line_after d cs s l ++ b'\n' ∷ []) in
        (t : Input d.World) × (terminal_read d true (pos n) (cs ++ 0x1C ∷ later) s
          ≡ some (record { result = pos (length typed); bytes = typed; later = later; state = t }))
  unfolding terminal_read
  terminal_read-line_after n cs later s l some_size keys v =
      let (t, e, ready, plain, room) = wait_typed cs later s l keys v in
      let read = read_ready n t (line_after d cs s l) ready plain room in
      let size : (n == 0) ≡ false = ground arith in
      let given : List ℕ → Option (Got d) = λ b. some (record {
        result = pos (length b);
        bytes = b;
        later = later;
        state = (read_from_kbd_buf_to_buf n t).1;
      }) in
      ((read_from_kbd_buf_to_buf n t).1, rw (size, e) (ap given read))
