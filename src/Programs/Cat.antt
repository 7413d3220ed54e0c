-- ===== src/Programs/Cat.antt =====
-- cat prints a file.
use mathlib.Core.List.{append_assoc}
use martian_os.Prelude.{
  ℕ, suc, ◌<◌, ◌≡◌, refl, ap, sym, ◌∙◌, false, List, [], ◌∷◌, ◌++◌, some, length, take, drop, arith,
}
use martian_os.Prelude.Int.{ℤ, pos, minus_one, eqb_ℤ}
use martian_os.CString.{strlen}
use martian_os.Programs.{Calls, put_front, fdputs, cat_loop, cat}
use martian_os.Programs.Files.{Console, concat, take-append}

pub pos_ne_zero : (n : ℕ) → 0 < n → eqb_ℤ (pos n) (pos 0) ≡ false
pos_ne_zero n h = ground arith

module _ (c : Calls) (fd : ℤ) (k : Console c 1024 fd) where
  open k use {screen, Left}

  cat_loop_screen :
      (ps : List (List ℕ)) (buf : List ℕ) (w : c.World)
      → Left w ps
      → (w' : c.World) × (cat_loop c (suc (length ps)) fd buf w ≡ some (0, w'))
        × (screen w' ≡ screen w ++ (concat ps ++ b'\n' ∷ []))
  unfolding cat_loop fdputs strlen
  cat_loop_screen [] buf w e =
      let s = k.stop w e in
      let new = k.put (b'\n' ∷ []) (c.read fd 1024 w).2 [] (omega arith) s.1 in
      (
        (c.write (pos 1) (b'\n' ∷ []) (c.read fd 1024 w).2).1,
        rw s.0 refl,
        new.1 ∙ ap (λ x. x ++ b'\n' ∷ []) s.2,
      )
  cat_loop_screen (p ∷ ps) buf w e =
      let g = k.give w p ps e in
      let got = c.read fd 1024 w in
      let all : take (length p) (put_front got.1 buf) ≡ p =
        ap (λ x. take (length p) (x ++ drop (length x) buf)) g.1 ∙ take-append p _ in
      let new = k.put p got.2 ps g.4 g.2 in
      let w1 = (c.write (pos 1) p got.2).1 in
      let (w', e', text) = cat_loop_screen ps (put_front got.1 buf) w1 new.2 in
      (
        w',
        rw (g.0, pos_ne_zero (length p) g.4, all, new.0) e',
        text
            ∙ ap (λ x. x ++ (concat ps ++ b'\n' ∷ [])) (new.1 ∙ ap (λ x. x ++ p) g.3)
            ∙ append_assoc (screen w) p (concat ps ++ b'\n' ∷ [])
            ∙ ap (λ x. screen w ++ x) (sym (append_assoc p (concat ps) (b'\n' ∷ []))),
      )

  -- Where the arguments are there and name a file that opens as `fd`, from which reads of 1024 bytes
  -- give the pieces `ps`, and the screen takes what is written: with a round for each piece and one
  -- more, cat ends with 0, and has put the pieces on the screen, in their order and one behind the
  -- other, and a newline.
  pub cat-concat :
      (ps : List (List ℕ)) (buf : List ℕ) (w : c.World)
      → let args = c.getargs 1024 w in
        let opened = c.open_file (put_front args.1 buf) args.2 in
        args.0 ≡ pos 0
        → opened.0 ≡ fd
        → eqb_ℤ fd minus_one ≡ false
        → Left opened.1 ps
        → (w' : c.World) × (cat c (suc (length ps)) buf w ≡ some (0, w'))
          × (screen w' ≡ screen opened.1 ++ (concat ps ++ b'\n' ∷ []))
  unfolding cat
  cat-concat ps buf w given same good e =
      let args = c.getargs 1024 w in
      let opened = c.open_file (put_front args.1 buf) args.2 in
      let (w', done, text) = cat_loop_screen ps (put_front args.1 buf) opened.1 e in
      (w', rw (given, same, good) done, text)
