-- ===== src/Programs/Tests.antt =====
-- cat and ls on a kernel with an open file of the boot module, and the shell on a small one.
use martian_os.Prelude.{
  ◌/◌, ℕ, suc, ◌<◌, ◌≡◌, refl, List, [], ◌∷◌, ◌++◌, some, length, replicate, take, ◌+◌, arith,
}
use martian_os.Prelude.Int.{ℤ, pos, minus_one}
use martian_os.CString.{codes, strlen}
use martian_os.Fs.{inode_length, block_size, regular_file_ops, in_use}
use martian_os.Fs.Read.{file_bytes, GoodBlocks}
use martian_os.Fs.Read.Result.{Fits}
use martian_os.Fs.Tests.{small_image, good_blocks}
use martian_os.Prelude.Machine.{ones32}
use martian_os.Programs.{Calls, cat, shell}
use martian_os.Programs.Files.{concat}
use martian_os.Programs.Boot.{Boot, boot_kernel, boot_console, PiecesFrom, pieces_of}
use martian_os.Programs.Cat.{cat-concat}
use martian_os.Programs.Shell.{Typing, AreCommands, no_command, empty, command, shell-not_empty}

-- A file of 5000 bytes, open on descriptor 2, at its start.
abbrev at_start : Boot
at_start = record {
  shown = codes "> ";
  fp = record { op_ptr = regular_file_ops; inode = 0; file_pos = 0; flags = in_use };
}

small_image-Fits : Fits small_image
small_image-Fits = omega arith

small_room : (n : ℕ) → n < 2000 → inode_length small_image 0 + n < ones32
unfolding inode_length
small_room n h = omega arith

all_good : GoodBlocks small_image 0 0 (inode_length small_image 0 / block_size + 1)
unfolding inode_length
all_good = good_blocks

cut_at :
    (n : ℕ)
    → 0 < n
    → n < 2000
    → (ps : List (List ℕ)) × PiecesFrom small_image n 0 0 ps
      × (concat ps ≡ file_bytes small_image 0 0 5000)
unfolding inode_length
cut_at n some_size small =
    pieces_of small_image 0 n small_image-Fits (omega arith) some_size (small_room n small) all_good
      5001 5000 0 refl (omega arith)

cat-concat_example :
    (w' : Boot) × (cat
        (boot_kernel small_image (codes "file"))
        (suc (length (cut_at 1024 (omega arith) (omega arith)).0))
        (replicate 1024 0)
        at_start
      ≡ some (0, w'))
    × (w'.shown ≡ codes "> " ++ (concat (cut_at 1024 (omega arith) (omega arith)).0 ++ b'\n' ∷ []))
cat-concat_example =
    cat-concat (boot_kernel small_image (codes "file")) (pos 2)
      (boot_console small_image 0 1024 small_image-Fits (omega arith) (omega arith)
        (small_room 1024 (omega arith)) all_good (codes "file"))
      (cut_at 1024 (omega arith) (omega arith)).0 (replicate 1024 0) at_start refl refl refl
      (refl, (cut_at 1024 (omega arith) (omega arith)).1)

-- A kernel for the shell: the lines to come, and the commands that were executed.
record Session : Type 0 where
  lines_left : List (List ℕ)
  commands : List (List ℕ)

next_line : List (List ℕ) → Session → ℤ × List ℕ × Session
next_line [] w = (minus_one, [], w)
next_line (l ∷ more) w = (pos (length l + 1), l ++ b'\n' ∷ [], record w { lines_left = more })

abbrev shell_kernel : Calls
shell_kernel = record {
  World = Session;
  getargs = λ n w. (minus_one, [], w);
  open_file = λ name w. (minus_one, w);
  read = λ fd n w. next_line w.lines_left w;
  write = λ fd bs w. (pos (length bs), w);
  execute = λ s w. (pos 0, record w { commands = w.commands ++ take (strlen s) s ∷ [] });
}

give_line :
    (w : Session) (all : List (List ℕ)) (l : List ℕ) (more : List (List ℕ))
    → all ≡ l ∷ more
    → let r = next_line all w in
      (r.0 ≡ pos (length l + 1))
      × (r.1 ≡ l ++ b'\n' ∷ [])
      × (r.2.lines_left ≡ more)
      × (r.2.commands ≡ w.commands)
unfolding next_line
give_line w [] l more e = cc
give_line w (x ∷ all) l more e = ground arith

abbrev shell_typing : Typing shell_kernel
shell_typing = record {
  typed = λ w. w.lines_left;
  executed = λ w. w.commands;
  give = λ w l more e h. give_line w w.lines_left l more e;
  Quiet = λ l. Unit;
  run = λ s w q. (refl, refl);
  keep = λ bs w. (refl, refl);
}

abbrev session : Session
session = record {
  lines_left = codes "ls" ∷ [] ∷ codes "cat frame0.txt" ∷ codes "exit" ∷ codes "ls" ∷ [];
  commands = [];
}

-- Every command is quiet: no program reads a line on this kernel.
three_commands : AreCommands (λ l. Unit) (codes "ls" ∷ [] ∷ codes "cat frame0.txt" ∷ [])
unfolding strlen
three_commands =
    command _ _ _ refl (omega arith) (λ e. cc) tt
      (empty _ (command _ _ _ refl (omega arith) (λ e. cc) tt no_command))

shell-not_empty_example :
    (w' : Session) × (shell shell_kernel 4 (replicate 1024 0) session ≡ some (0, w'))
    × (w'.commands ≡ codes "ls" ∷ codes "cat frame0.txt" ∷ [])
    × (w'.lines_left ≡ codes "ls" ∷ [])
shell-not_empty_example =
    shell-not_empty shell_kernel shell_typing (codes "ls" ∷ [] ∷ codes "cat frame0.txt" ∷ [])
      (codes "ls" ∷ []) (replicate 1024 0) session refl three_commands
