-- ===== src/Programs/Shell.antt =====
-- The shell runs the commands that are typed.
use mathlib.Core.List.{append_assoc, append-nil}
use martian_os.Prelude.{
  ℕ, suc, ◌+◌, ◌-◌, ◌≤◌, ◌≡◌, ◌≢◌, refl, ap, sym, ◌∙◌, true, false, Bool, Bool-cases, inl, inr, not,
  List, [], ◌∷◌, ◌++◌, some, length, get_or, set, take, drop, ltb, ◌==◌, if◌then◌else◌, arith,
}
use martian_os.Prelude.Int.{ℤ, pos, minus_one, eqb_ℤ}
use martian_os.CString.{codes, strlen}
use martian_os.Programs.{Calls, put_front, fdputs, strcmp, cut_line, report, shell_loop, shell}
use martian_os.Programs.Files.{take-append}

-- The lines that are still to be typed, and the commands that were given to execute, up to their
-- NULs. A read from descriptor 0 gives the next line, of at most 127 characters, with its newline.
-- `Quiet` holds of the commands, of the ones that execute is given, whose program, if there is one,
-- reads no line and starts no other program.
pub record Typing (c : Calls) : Type 1 where
  pub typed : c.World → List (List ℕ)
  pub executed : c.World → List (List ℕ)
  pub Quiet : List ℕ → Type 0
  pub give :
      (w : c.World) (l : List ℕ) (ls : List (List ℕ))
      → typed w ≡ l ∷ ls
      → length l ≤ 127
      → let r = c.read (pos 0) 1023 w in
        (r.0 ≡ pos (length l + 1))
        × (r.1 ≡ l ++ b'\n' ∷ [])
        × (typed r.2 ≡ ls)
        × (executed r.2 ≡ executed w)
  pub run :
      (s : List ℕ) (w : c.World)
      → Quiet (take (strlen s) s)
      → let w' = (c.execute s w).1 in
        (typed w' ≡ typed w) × (executed w' ≡ executed w ++ take (strlen s) s ∷ [])
  pub keep :
      (bs : List ℕ) (w : c.World)
      → let w' = (c.write (pos 1) bs w).1 in (typed w' ≡ typed w) × (executed w' ≡ executed w)

-- Lines of at most 127 characters that hold no NUL, are not `exit`, and are quiet or empty.
pub data AreCommands (Quiet : List ℕ → Type 0) : List (List ℕ) → Type 0 where
  no_command : AreCommands Quiet []
  empty : (ls : List (List ℕ)) → AreCommands Quiet ls → AreCommands Quiet ([] ∷ ls)
  command :
      (x : ℕ) (l : List ℕ) (ls : List (List ℕ))
      → strlen (x ∷ l) ≡ length (x ∷ l)
      → length (x ∷ l) ≤ 127
      → x ∷ l ≢ codes "exit"
      → Quiet (x ∷ l)
      → AreCommands Quiet ls
      → AreCommands Quiet ((x ∷ l) ∷ ls)

-- The lines that are not empty.
abbrev pub not_empty : List (List ℕ) → List (List ℕ)
not_empty [] = []
not_empty ([] ∷ ls) = not_empty ls
not_empty ((x ∷ l) ∷ ls) = (x ∷ l) ∷ not_empty ls

-- On a text that ends with a NUL, only the same text makes strcmp 0.
strcmp-zero :
    (p q r : List ℕ)
    → strlen p ≡ length p
    → strlen q ≡ length q
    → eqb_ℤ (strcmp (p ++ 0 ∷ r) q) (pos 0) ≡ true
    → p ≡ q
unfolding strcmp strlen
strcmp-zero [] [] r hp hq e = refl
strcmp-zero [] (y ∷ q) r hp hq e = ground arith
strcmp-zero (x ∷ p) [] r hp hq e = ground arith
strcmp-zero (x ∷ p) (y ∷ q) r hp hq e = ground (arith, strcmp-zero p q r)

-- The line in the buffer, and the place of its newline.
at_newline : (l r : List ℕ) (a : ℕ) → get_or ((l ++ a ∷ []) ++ r) (length l) 0 ≡ a
at_newline [] r a = refl
at_newline (x ∷ l) r a = at_newline l r a

cut_there : (l r : List ℕ) (a b : ℕ) → set ((l ++ a ∷ []) ++ r) (length l) b ≡ l ++ b ∷ r
cut_there [] r a b = refl
cut_there (x ∷ l) r a b = ap (◌∷◌ x) (cut_there l r a b)

strlen-line : (l r : List ℕ) → strlen l ≡ length l → strlen (l ++ 0 ∷ r) ≡ length l
unfolding strlen
strlen-line [] r e = refl
strlen-line (x ∷ l) r e = ground (arith, strlen-line l r)

cut_line_lem : (l r : List ℕ) → cut_line (pos (length l + 1)) ((l ++ b'\n' ∷ []) ++ r) ≡ l ++ 0 ∷ r
unfolding cut_line
cut_line_lem l r =
    let some_read : ltb 0 (length l + 1) ≡ true = ground arith in
    let last : length l + 1 - 1 ≡ length l = omega arith in
    rw (some_read, last, at_newline l r b'\n') (cut_there l r b'\n' 0)

strcmp-exit : (r : List ℕ) → eqb_ℤ (strcmp (codes "exit" ++ 0 ∷ r) (codes "exit")) (pos 0) ≡ true
unfolding strcmp
strcmp-exit r = refl

not_exit :
    (l r : List ℕ)
    → strlen l ≡ length l
    → l ≢ codes "exit"
    → eqb_ℤ (strcmp (l ++ 0 ∷ r) (codes "exit")) (pos 0) ≡ false
unfolding strlen
not_exit l r ht hx = elim (Bool-cases (eqb_ℤ (strcmp (l ++ 0 ∷ r) (codes "exit")) (pos 0))) [
  | inl e ↦ absurd (hx (strcmp-zero l (codes "exit") r ht refl e))
  | inr e ↦ e
]

empty_line : (r : List ℕ) → eqb_ℤ (strcmp (0 ∷ r) (codes "exit")) (pos 0) ≡ false
unfolding strcmp
empty_line r = refl

not_nul : (x : ℕ) (l : List ℕ) → strlen (x ∷ l) ≡ length (x ∷ l) → (x == 0) ≡ false
unfolding strlen
not_nul x l e = ground arith

module _ (c : Calls) (k : Typing c) where
  open k use {typed, executed, Quiet}

  -- Two states with the same lines to come and the same commands behind them.
  abbrev Alike : c.World → c.World → Type 0
  Alike w w' = (typed w' ≡ typed w) × (executed w' ≡ executed w)

  fdputs-Alike : (s : List ℕ) (w : c.World) → Alike w (fdputs c (pos 1) s w)
  unfolding fdputs
  fdputs-Alike s w = k.keep (take (strlen s) s) w

  either-Alike : (b : Bool) (w x y : c.World) → Alike w x → Alike w y → Alike w (if b then x else y)
  either-Alike true w x y hx hy = hx
  either-Alike false w x y hx hy = hy

  report-Alike : (rval : ℤ) (w : c.World) → Alike w (report c rval w)
  unfolding report
  report-Alike rval w =
      let said = λ (s : List ℕ). fdputs-Alike s w in
      either-Alike (eqb_ℤ rval minus_one) w _ _ (said (codes "no such command\n")) (
        either-Alike (eqb_ℤ rval (pos 256)) w _ _ (said (codes "program terminated by exception\n"))
          (either-Alike (not (eqb_ℤ rval (pos 0))) w _ _
            (said (codes "program terminated abnormally\n")) (refl, refl)))

  -- A read of the shell, behind its prompt.
  shell_read :
      (l : List ℕ) (ls : List (List ℕ)) (w : c.World) (buf : List ℕ)
      → typed w ≡ l ∷ ls
      → length l ≤ 127
      → let got = c.read (pos 0) 1023 (fdputs c (pos 1) (codes "391OS> ") w) in
        (r : List ℕ) × (eqb_ℤ got.0 minus_one ≡ false)
        × (cut_line got.0 (put_front got.1 buf) ≡ l ++ 0 ∷ r)
        × (typed got.2 ≡ ls)
        × (executed got.2 ≡ executed w)
  shell_read l ls w buf e h =
      let p = fdputs-Alike (codes "391OS> ") w in
      let g = k.give (fdputs c (pos 1) (codes "391OS> ") w) l ls (p.0 ∙ e) h in
      let r = drop (length (l ++ b'\n' ∷ [])) buf in
      (r, rw g.0 refl, rw (g.0, g.1) (cut_line_lem l r), g.2, g.3 ∙ p.1)

  shell_loop_ends :
      (ls : List (List ℕ)) (rest : List (List ℕ)) (buf : List ℕ) (w : c.World)
      → typed w ≡ ls ++ codes "exit" ∷ rest
      → AreCommands Quiet ls
      → (w' : c.World) × (shell_loop c (suc (length ls)) buf w ≡ some (0, w'))
        × (executed w' ≡ executed w ++ not_empty ls)
        × (typed w' ≡ rest)
  unfolding shell_loop
  shell_loop_ends [] rest buf w e h =
      let g = shell_read (codes "exit") rest w buf e (omega arith) in
      (
        (c.read (pos 0) 1023 (fdputs c (pos 1) (codes "391OS> ") w)).2,
        rw (g.1, g.2, strcmp-exit g.0) refl,
        g.4 ∙ sym (append-nil (executed w)),
        g.3,
      )
  shell_loop_ends ([] ∷ ls) rest buf w e (empty _ h) =
      let g = shell_read [] (ls ++ codes "exit" ∷ rest) w buf e (omega arith) in
      let got = c.read (pos 0) 1023 (fdputs c (pos 1) (codes "391OS> ") w) in
      let (w', done, ran, left) = shell_loop_ends ls rest (0 ∷ g.0) got.2 g.3 h in
      (w', rw (g.1, g.2, empty_line g.0) done, ran ∙ ap (λ x. x ++ not_empty ls) g.4, left)
  shell_loop_ends ((x ∷ l) ∷ ls) rest buf w e (command _ _ _ ht hl hx quiet h) =
      let g = shell_read (x ∷ l) (ls ++ codes "exit" ∷ rest) w buf e hl in
      let got = c.read (pos 0) 1023 (fdputs c (pos 1) (codes "391OS> ") w) in
      let line = x ∷ l ++ 0 ∷ g.0 in
      let ran = c.execute line got.2 in
      let cut : take (strlen line) line ≡ x ∷ l =
        ap (λ n. take n line) (strlen-line (x ∷ l) g.0 ht) ∙ take-append (x ∷ l) (0 ∷ g.0) in
      let k' = k.run line got.2 (rw cut quiet) in
      let said = report-Alike ran.0 ran.1 in
      let (w', done, all, left) =
        shell_loop_ends ls rest line (report c ran.0 ran.1) (said.0 ∙ k'.0 ∙ g.3) h in
      (
        w',
        rw (g.1, g.2, not_exit (x ∷ l) g.0 ht hx, not_nul x l ht) done,
        all
            ∙ ap (λ y. y ++ not_empty ls) (said.1 ∙ k'.1)
            ∙ append_assoc (executed got.2) (take (strlen line) line ∷ []) (not_empty ls)
            ∙ rw (g.4, strlen-line (x ∷ l) g.0 ht)
                (ap (λ y. executed w ++ y ∷ not_empty ls) (take-append (x ∷ l) (0 ∷ g.0))),
        left,
      )

  -- For lines that are typed, then `exit`, where the programs that they start read no line themselves:
  -- with a round for each line and one more, the shell ends with 0 and with what is behind `exit`
  -- still to be read, and it has given just the lines that are not empty to execute, each without
  -- its newline, in their order.
  pub shell-not_empty :
      (ls : List (List ℕ)) (rest : List (List ℕ)) (buf : List ℕ) (w : c.World)
      → typed w ≡ ls ++ codes "exit" ∷ rest
      → AreCommands Quiet ls
      → (w' : c.World) × (shell c (suc (length ls)) buf w ≡ some (0, w'))
        × (executed w' ≡ executed w ++ not_empty ls)
        × (typed w' ≡ rest)
  unfolding shell
  shell-not_empty ls rest buf w e h =
      let p = fdputs-Alike (codes "Starting 391 Shell\n") w in
      let (w', done, ran, left) = shell_loop_ends ls rest buf _ (p.0 ∙ e) h in
      (w', done, ran ∙ ap (λ y. y ++ not_empty ls) p.1, left)
