-- ===== src/Terminals/Line.antt =====
-- The line that is being typed, as a text with no buffer: a key appends a character or takes the last
-- one away.
use martian_os.Prelude.{
  ℕ, zero, suc, ◌+◌, ◌-◌, ◌%◌, ◌^◌, ◌≤◌, ◌<◌, ◌≡◌, ◌≢◌, refl, ap, sym, ◌∙◌, inl, inr, Bool, true,
  false, not, ◌&&◌, ◌||◌, List, [], ◌∷◌, ◌++◌, Option, none, some, length, get_or, set, take, ltb,
  leb, ◌==◌, if◌then◌else◌, Bool-cases, get_or-set_self, length-set, length-append, take-set, arith,
}
use martian_os.Prelude.Small.{all_below, all_below_sound}
use martian_os.Process.System.State.{no_terminal}
use martian_os.Keyboard.Codes.{
  Key, ctrl_down, ctrl_up, left_shift_down, left_shift_up, right_shift_down, right_shift_up,
  capslock_down, backspace, alt_down, alt_up, no_effect, function_key, key_of, scan_normal,
  scan_shifted, is_letter,
}
use martian_os.Keyboard.{
  Display, Input, terminal, put_in_buf, store_char, what_to_put, press, type_key, handle_key,
  keyboard_int_handler,
}

abbrev pub drop_last : List ℕ → List ℕ
drop_last [] = []
drop_last (c ∷ []) = []
drop_last (c ∷ c' ∷ l) = c ∷ drop_last (c' ∷ l)

-- A line has at most 127 characters.
abbrev pub append_char : ℕ → List ℕ → List ℕ
append_char c l = if ltb (length l) 127 then l ++ c ∷ [] else l

module _ {W : Type 0} where
  -- What a scan code does to the line, with the keys that are held.
  unfoldable pub edit : ℕ → Option Key → Input W → List ℕ → List ℕ
  edit code (some backspace) s l = drop_last l
  edit code (some key) s l = l
  edit code none s l =
      if leb 2 code && leb code 58
      then (if s.ctrl_flag && get_or scan_normal code 0 == b'l'
          then l
          else append_char (what_to_put code s) l)
      else l

module _ (d : Display) where
  -- The line after scan codes.
  unfoldable pub line_after : List ℕ → Input d.World → List ℕ → List ℕ
  line_after [] s l = l
  line_after (c ∷ cs) s l = line_after cs (keyboard_int_handler d c s) (edit c (key_of c) s l)

-- A key that neither switches the terminal nor ends the line.
abbrev pub IsEditing : ℕ → Option Key → Type 0
IsEditing code (some (function_key i)) = ⊥
IsEditing code (some _) = Unit
IsEditing code none = code ≢ 0x1C

abbrev pub AllEditing : List ℕ → Type 0
AllEditing [] = Unit
AllEditing (c ∷ cs) = IsEditing c (key_of c) × AllEditing cs

abbrev pub NoNewline : List ℕ → Type 0
NoNewline [] = Unit
NoNewline (c ∷ l) = (c ≢ b'\n') × NoNewline l

-- The buffer of the viewed terminal, on which the running program waits, holds the line `l`.
pub record Holds {W : Type 0} (s : Input W) (l : List ℕ) : Type 0 where
  pub owner : s.kbd_owner ≡ s.viewing_term
  pub runs : s.running_term ≡ s.viewing_term
  pub slot : s.viewing_term < length s.term_arr
  pub room : length (terminal s s.kbd_owner).kbd_buf ≡ 128
  pub size : s.buf_pos ≡ length l
  pub fits : s.buf_pos ≤ 127
  pub text : take s.buf_pos (terminal s s.kbd_owner).kbd_buf ≡ l
  pub plain : NoNewline l
  pub unread : (terminal s s.running_term).kbd_buf_ready ≡ 0

NoNewline-append : (l : List ℕ) (c : ℕ) → NoNewline l → c ≢ b'\n' → NoNewline (l ++ c ∷ [])
NoNewline-append [] c h n = (n, tt)
NoNewline-append (x ∷ l) c h n = (h.0, NoNewline-append l c h.1 n)

NoNewline-drop_last : (l : List ℕ) → NoNewline l → NoNewline (drop_last l)
NoNewline-drop_last [] h = tt
NoNewline-drop_last (c ∷ []) h = tt
NoNewline-drop_last (c ∷ c' ∷ l) h = (h.0, NoNewline-drop_last (c' ∷ l) h.1)

length-drop_last : (l : List ℕ) → length (drop_last l) ≡ length l - 1
length-drop_last [] = refl
length-drop_last (c ∷ []) = omega arith
length-drop_last (c ∷ c' ∷ l) = omega (arith, length-drop_last (c' ∷ l))

take-pred : (p : ℕ) (b : List ℕ) → p < length b → take p b ≡ drop_last (take (suc p) b)
take-pred p [] h = elim h [ ]
take-pred zero (x ∷ b) h = refl
take-pred (suc p) (x ∷ []) h = absurd (omega arith)
take-pred (suc p) (x ∷ y ∷ b) h = ap (◌∷◌ x) (take-pred p (y ∷ b) (omega arith))

-- Of the keys with a character only Enter gives a newline.
abbrev newline_test : ℕ → Bool
newline_test c =
    c == 0x1C || (not (get_or scan_normal c 0 == b'\n') && not (get_or scan_shifted c 0 == b'\n'))

newline_table : all_below 59 newline_test ≡ true
unfolding all_below
newline_table = refl

pub what_to_put_ne :
    {W : Type 0} (c : ℕ) (s : Input W) → c ≢ 0x1C → c < 59 → what_to_put c s ≢ b'\n'
unfolding what_to_put
what_to_put_ne c s n h =
    ground (arith, all_below_sound 59 newline_test c newline_table h, is_letter c)

module _ {W : Type 0} where
  -- The byte of the line's next place is written.
  pub own_terminal :
      (c : ℕ) (s : Input W) (l : List ℕ)
      → Holds s l
      → terminal (put_in_buf c s) s.kbd_owner ≡ record (terminal s s.kbd_owner) {
        kbd_buf = set (terminal s s.kbd_owner).kbd_buf s.buf_pos c;
      }
  unfolding put_in_buf
  own_terminal c s l v =
      get_or-set_self s.term_arr s.kbd_owner _ no_terminal (omega (arith, v.slot, v.owner))

  put_in_buf-Holds :
      (c : ℕ) (s : Input W) (l : List ℕ)
      → Holds s l
      → c ≢ b'\n'
      → s.buf_pos ≤ 126
      → Holds (record (put_in_buf c s) { buf_pos = (s.buf_pos + 1) % 2 ^ 8 }) (l ++ c ∷ [])
  unfolding put_in_buf
  put_in_buf-Holds c s l v n fits =
      let same : s.running_term ≡ s.kbd_owner = v.runs ∙ sym v.owner in
      let own = own_terminal c s l v in
      let next : (s.buf_pos + 1) % 2 ^ 8 ≡ suc s.buf_pos = omega arith in
      record {
        owner = v.owner;
        runs = v.runs;
        slot = omega (
          arith,
          length-set s.term_arr s.kbd_owner (record (terminal s s.kbd_owner) {
            kbd_buf = set (terminal s s.kbd_owner).kbd_buf s.buf_pos c;
          }),
          v.slot,
        );
        room = ap (λ t. length t.kbd_buf) own ∙ length-set _ s.buf_pos c ∙ v.room;
        size = omega (arith, v.size, length-append l (c ∷ []));
        fits = omega arith;
        text =
            rw (next, own)
              (take-set s.buf_pos (terminal s s.kbd_owner).kbd_buf c (omega (arith, v.room))
                ∙ ap (λ x. x ++ c ∷ []) v.text);
        plain = NoNewline-append l c v.plain n;
        unread =
            ap (λ i. (terminal (put_in_buf c s) i).kbd_buf_ready) same
            ∙ ap (λ t. t.kbd_buf_ready) own
            ∙ ap (λ i. (terminal s i).kbd_buf_ready) (sym same)
            ∙ v.unread;
      }

  -- A character other than a newline goes to the end of the line, while there is room.
  store_char-Holds :
      (c : ℕ) (s : Input W) (l : List ℕ)
      → Holds s l
      → c ≢ b'\n'
      → Holds (store_char c s) (append_char c l)
  unfolding store_char put_in_buf
  store_char-Holds c s l v n =
      let other : (c == b'\n') ≡ false = ground arith in
      elim (Bool-cases (leb s.buf_pos 126)) [
        | inl fits ↦
            let short : ltb (length l) 127 ≡ true = ground (arith, v.size) in
            rw (fits, other, short) (put_in_buf-Holds c s l v n (ground arith))
        | inr full ↦
            let long : ltb (length l) 127 ≡ false = ground (arith, v.size) in
            let last : (s.buf_pos == 127) ≡ true = ground arith in rw (full, last, other, long) v
      ]

  -- Whatever is drawn, and whichever keys are held, the line is the same.
  pub Holds-same :
      (s t : Input W) (l : List ℕ)
      → t.kbd_owner ≡ s.kbd_owner
      → t.viewing_term ≡ s.viewing_term
      → t.running_term ≡ s.running_term
      → t.term_arr ≡ s.term_arr
      → t.buf_pos ≡ s.buf_pos
      → Holds s l
      → Holds t l
  Holds-same s t l o w r a p v = record {
    owner = o ∙ v.owner ∙ sym w;
    runs = r ∙ v.runs ∙ sym w;
    slot = rw (w, a) v.slot;
    room = rw (o, a) v.room;
    size = p ∙ v.size;
    fits = rw p v.fits;
    text = rw (p, o, a) v.text;
    plain = v.plain;
    unread = rw (r, a) v.unread;
  }

  backspace-Holds :
      (s t : Input W) (l : List ℕ)
      → t.kbd_owner ≡ s.kbd_owner
      → t.viewing_term ≡ s.viewing_term
      → t.running_term ≡ s.running_term
      → t.term_arr ≡ s.term_arr
      → t.buf_pos ≡ s.buf_pos - 1
      → 0 < s.buf_pos
      → Holds s l
      → Holds t (drop_last l)
  backspace-Holds s t l o w r a p some_char v =
      let whole : suc (s.buf_pos - 1) ≡ s.buf_pos = omega arith in
      record {
        owner = o ∙ v.owner ∙ sym w;
        runs = r ∙ v.runs ∙ sym w;
        slot = rw (w, a) v.slot;
        room = rw (o, a) v.room;
        size = omega (arith, p, v.size, length-drop_last l);
        fits = omega (arith, p, v.fits);
        text =
            rw (p, o, a)
              (take-pred (s.buf_pos - 1) (terminal s s.kbd_owner).kbd_buf
                  (omega (arith, v.room, v.fits))
                ∙ ap (λ n. drop_last (take n (terminal s s.kbd_owner).kbd_buf)) whole
                ∙ ap drop_last v.text);
        plain = NoNewline-drop_last l v.plain;
        unread = rw (r, a) v.unread;
      }

module _ (d : Display) where
  press-Holds :
      (code : ℕ) (key : Key) (s : Input d.World) (l : List ℕ)
      → IsEditing code (some key)
      → Holds s l
      → Holds (press d key s) (edit code (some key) s l)
  unfolding press edit
  press-Holds code ctrl_down s l h v = Holds-same s _ l refl refl refl refl refl v
  press-Holds code ctrl_up s l h v = Holds-same s _ l refl refl refl refl refl v
  press-Holds code left_shift_down s l h v = Holds-same s _ l refl refl refl refl refl v
  press-Holds code left_shift_up s l h v = Holds-same s _ l refl refl refl refl refl v
  press-Holds code right_shift_down s l h v = Holds-same s _ l refl refl refl refl refl v
  press-Holds code right_shift_up s l h v = Holds-same s _ l refl refl refl refl refl v
  press-Holds code capslock_down s l h v = Holds-same s _ l refl refl refl refl refl v
  press-Holds code backspace s l h v = elim (Bool-cases (ltb 0 s.buf_pos)) [
    | inl some_char ↦ rw some_char (backspace-Holds s _ l refl refl refl refl refl (ground arith) v)
    | inr empty ↦ rw empty (rw (empty_line s l v (ground arith)) v)
  ]
    where
      empty_line : (s : Input d.World) (l : List ℕ) → Holds s l → s.buf_pos ≡ 0 → drop_last l ≡ l
      empty_line s [] v h = refl
      empty_line s (c ∷ l) v h = absurd (omega (arith, v.size))
  press-Holds code alt_down s l h v = Holds-same s _ l refl refl refl refl refl v
  press-Holds code alt_up s l h v = Holds-same s _ l refl refl refl refl refl v
  press-Holds code no_effect s l h v = v
  press-Holds code (function_key i) s l h v = elim h [ ]

  type_key-Holds :
      (code : ℕ) (s : Input d.World) (l : List ℕ)
      → code ≢ 0x1C
      → Holds s l
      → Holds (type_key d code s) (edit code none s l)
  unfolding type_key edit
  type_key-Holds code s l h v = elim (Bool-cases (leb 2 code && leb code 58)) [
    | inr outside ↦ rw outside v
    | inl inside ↦ elim (Bool-cases (s.ctrl_flag && get_or scan_normal code 0 == b'l')) [
      | inl clears ↦ rw (inside, clears) (Holds-same s _ l refl refl refl refl refl v)
      | inr types ↦
          rw (inside, types)
            (store_char-Holds (what_to_put code s) _ l (Holds-same s _ l refl refl refl refl refl v)
              (what_to_put_ne code s h (ground arith)))
    ]
  ]

  pub handler-Holds :
      (code : ℕ) (s : Input d.World) (l : List ℕ)
      → IsEditing code (key_of code)
      → Holds s l
      → Holds (keyboard_int_handler d code s) (edit code (key_of code) s l)
  unfolding keyboard_int_handler handle_key
  handler-Holds code s l h v =
      (elim (key_of code)
          as (λ k. IsEditing code k → Holds (handle_key d code k s) (edit code k s l)) [
            | some key ↦ λ e. press-Holds code key s l e v
            | none ↦ λ e. type_key-Holds code s l e v
          ])
        h
