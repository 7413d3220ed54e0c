-- ===== src/Directory/Tests.antt =====
-- A boot block with a directory and a program.
use martian_os.Prelude.{
  ℕ, zero, suc, ◌<◌, ◌≤◌, ◌≡◌, refl, true, false, List, [], ◌∷◌, ◌++◌, get_or, replicate, arith,
}
use martian_os.Prelude.Int.{pos}
use martian_os.CString.{codes, strlen, strncmp}
use martian_os.CString.Compare.{text}
use martian_os.Fs.{FileEntry, dir_ops, in_use}
use martian_os.Directory.{BootBlock, zero_entry, has_name, look_up_boot}
use martian_os.Directory.Names.{look_up_boot-first}

abbrev boot : BootBlock
boot = record {
  num_dir_entries = 2;
  files =
      record { filename = codes "." ++ replicate 31 0; kind = 1; nr_inode = 0 }
      ∷ record { filename = codes "shell" ++ replicate 27 0; kind = 2; nr_inode = 5 }
      ∷ [];
}

abbrev open_dir : FileEntry
open_dir = record { op_ptr = dir_ops; inode = 0; file_pos = 1; flags = in_use }

abbrev shell : List ℕ
shell = codes "shell"

short : strlen shell ≤ 32
unfolding strlen
short = omega arith

found : has_name shell (get_or boot.files 1 zero_entry) ≡ true
unfolding strncmp
found = refl

not_dot : (j : ℕ) → j < 1 → has_name shell (get_or boot.files j zero_entry) ≡ false
unfolding strncmp
not_dot zero h = refl
not_dot (suc j) h = absurd (omega arith)

look_up_boot-first_example :
    let e = get_or boot.files 1 zero_entry in
    let r = look_up_boot boot shell zero_entry in
    (r.0 ≡ pos 0)
    × (text 32 r.1.filename ≡ text 32 e.filename)
    × (r.1.kind ≡ e.kind)
    × (r.1.nr_inode ≡ e.nr_inode)
look_up_boot-first_example =
    look_up_boot-first boot shell zero_entry 1 short (omega arith) found not_dot refl
