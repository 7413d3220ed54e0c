-- ===== src/Programs.antt =====
-- Programs under mp3_Final/syscalls: ece391cat.c, ece391ls.c and ece391shell.c, and what
-- they use of ece391support.c. The calls of the kernel are an interface.
pub mod Files
pub mod Boot
pub mod Cat
pub mod Ls
pub mod Shell
pub mod Tests
use martian_os.Prelude.{
  ℕ, zero, suc, ◌+◌, ◌≡◌, not, List, [], ◌∷◌, ◌++◌, Option, none, some, length, get_or, set, take,
  drop, ltb, ◌&&◌, ◌-◌, ◌==◌, if◌then◌else◌,
}
use martian_os.Prelude.Int.{ℤ, pos, negsuc, minus_one, pos_part, eqb_ℤ, sub_ℕ}
use martian_os.CString.{codes, strlen}

-- The calls, each with its result first; `getargs` and `read` also give the bytes that they put
-- into the buffer, from its beginning on. `World` is the state of the kernel.
pub record Calls : Type 1 where
  pub World : Type 0
  pub getargs : ℕ → World → ℤ × List ℕ × World
  pub open_file : List ℕ → World → ℤ × World
  pub read : ℤ → ℕ → World → ℤ × List ℕ × World
  pub write : ℤ → List ℕ → World → ℤ × World
  pub execute : List ℕ → World → ℤ × World

-- The buffer after bytes were put into its front.
abbrev pub put_front : List ℕ → List ℕ → List ℕ
put_front bytes buf = bytes ++ drop (length bytes) buf

-- `ece391_strcmp`: a read just behind the list gives the NUL.
pub strcmp : List ℕ → List ℕ → ℤ
strcmp [] s2 = sub_ℕ 0 (get_or s2 0 0)
strcmp (x ∷ s1) s2 =
    let rest = strcmp s1 (drop 1 s2) in
    if not (x == get_or s2 0 0) then sub_ℕ x (get_or s2 0 0) else if x == 0 then pos 0 else rest

-- The buffer of the shell after a read that gave `cnt`: the newline at its end, or what is behind
-- it, becomes a NUL.
pub cut_line : ℤ → List ℕ → List ℕ
cut_line (pos cnt) buf =
    if ltb 0 cnt && (b'\n' == get_or buf (cnt - 1) 0) then set buf (cnt - 1) 0 else set buf cnt 0
cut_line (negsuc n) buf = buf

module _ (c : Calls) where
  -- `ece391_fdputs`, which ignores the result.
  pub fdputs : ℤ → List ℕ → c.World → c.World
  fdputs fd s w = (c.write fd (take (strlen s) s) w).1

  -- The loop of ece391cat.c on fuel: the result of `main`. `none` is a loop that has not ended.
  pub cat_loop : ℕ → ℤ → List ℕ → c.World → Option (ℕ × c.World)
  cat_loop zero fd buf w = none
  cat_loop (suc fuel) fd buf w =
      let got = c.read fd 1024 w in
      let buf' = put_front got.1 buf in
      let wrote = c.write (pos 1) (take (pos_part got.0) buf') got.2 in
      let rest = cat_loop fuel fd buf' wrote.1 in
      if eqb_ℤ got.0 (pos 0)
      then some (0, fdputs (pos 1) (codes "\n") got.2)
      else if eqb_ℤ got.0 minus_one
      then some (3, fdputs (pos 1) (codes "file read failed\n") got.2)
      else if eqb_ℤ wrote.0 minus_one
      then some (3, wrote.1)
      else rest

  -- `main` of ece391cat.c, with the buffer as it finds it.
  pub cat : ℕ → List ℕ → c.World → Option (ℕ × c.World)
  cat fuel buf w =
      let args = c.getargs 1024 w in
      let buf' = put_front args.1 buf in
      let fd = c.open_file buf' args.2 in
      if not (eqb_ℤ args.0 (pos 0))
      then some (3, fdputs (pos 1) (codes "could not read arguments\n") args.2)
      else if eqb_ℤ fd.0 minus_one
      then some (2, fdputs (pos 1) (codes "file not found\n") fd.1)
      else cat_loop fuel fd.0 buf' fd.1

  -- The loop of ece391ls.c on fuel.
  pub ls_loop : ℕ → ℤ → List ℕ → c.World → Option (ℕ × c.World)
  ls_loop zero fd buf w = none
  ls_loop (suc fuel) fd buf w =
      let got = c.read fd 32 w in
      let buf' = set (put_front got.1 buf) (pos_part got.0) b'\n' in
      let wrote = c.write (pos 1) (take (pos_part got.0 + 1) buf') got.2 in
      let rest = ls_loop fuel fd buf' wrote.1 in
      if eqb_ℤ got.0 (pos 0)
      then some (0, got.2)
      else if eqb_ℤ got.0 minus_one
      then some (3, fdputs (pos 1) (codes "directory entry read failed\n") got.2)
      else if eqb_ℤ wrote.0 minus_one
      then some (3, wrote.1)
      else rest

  -- `main` of ece391ls.c.
  pub ls : ℕ → List ℕ → c.World → Option (ℕ × c.World)
  ls fuel buf w =
      let fd = c.open_file (codes ".") w in
      if eqb_ℤ fd.0 minus_one
      then some (2, fdputs (pos 1) (codes "directory open failed\n") fd.1)
      else ls_loop fuel fd.0 buf fd.1

  -- What the shell prints of the result of a program.
  pub report : ℤ → c.World → c.World
  report rval w =
      if eqb_ℤ rval minus_one
      then fdputs (pos 1) (codes "no such command\n") w
      else if eqb_ℤ rval (pos 256)
      then fdputs (pos 1) (codes "program terminated by exception\n") w
      else if not (eqb_ℤ rval (pos 0))
      then fdputs (pos 1) (codes "program terminated abnormally\n") w
      else w

  -- The loop of ece391shell.c on fuel, with the buffer as it finds it.
  pub shell_loop : ℕ → List ℕ → c.World → Option (ℕ × c.World)
  shell_loop zero buf w = none
  shell_loop (suc fuel) buf w =
      let got = c.read (pos 0) 1023 (fdputs (pos 1) (codes "391OS> ") w) in
      let buf' = cut_line got.0 (put_front got.1 buf) in
      let ran = c.execute buf' got.2 in
      let skip = shell_loop fuel buf' got.2 in
      let next = shell_loop fuel buf' (report ran.0 ran.1) in
      if eqb_ℤ got.0 minus_one
      then some (3, fdputs (pos 1) (codes "read from keyboard failed\n") got.2)
      else if eqb_ℤ (strcmp buf' (codes "exit")) (pos 0)
      then some (0, got.2)
      else if get_or buf' 0 0 == 0
      then skip
      else next

  -- `main` of ece391shell.c.
  pub shell : ℕ → List ℕ → c.World → Option (ℕ × c.World)
  shell fuel buf w = shell_loop fuel buf (fdputs (pos 1) (codes "Starting 391 Shell\n") w)
