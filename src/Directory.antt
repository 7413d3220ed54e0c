-- ===== src/Directory.antt =====
-- fs.c, the names: the entries of the boot block, the look-up of a name in PSV and then in them,
-- and how files and directories are opened and a directory is read. PSV_folder_open and
-- PSV_file_open of PSV.c have the bodies of dir_open and file_open.
pub mod Names
pub mod Tests
use martian_os.Prelude.{
  ℕ, zero, suc, ◌+◌, ◌-◌, Bool, true, false, not, List, [], ◌∷◌, ◌++◌, get_or, take, drop, length,
  replicate, ltb, leb, ◌==◌, if◌then◌else◌,
}
use martian_os.Prelude.Int.{ℤ, pos, negsuc, minus_one, eqb_ℤ, pos_part}
use martian_os.CString.{codes, strlen, strncpy, strncmp}
use martian_os.Fs.{FileEntry, OpTable, oerror, in_use, dir_ops, regular_file_ops}
use martian_os.Process.Types.{psv_folder, psv_file}
use martian_os.Psv.Types.{name_len_lim}
use martian_os.Psv.Volume.{Layout, Volume, zero_name}
use martian_os.Psv.Path.{}
use martian_os.Psv.Walk.{get_filename_from_path}
use martian_os.Psv.Terms.{self_of}
use martian_os.Psv.Content.{put_bytes}
use martian_os.Psv.Read.{get_inode_idx_by_path}

-- `dentry_t`, less its padding.
pub record DirEntry : Type 0 where
  pub filename : List ℕ
  pub kind : ℕ
  pub nr_inode : ℕ

-- `FILENAME_MAX_CHAR`
abbrev pub filename_max_char : ℕ
filename_max_char = 32

abbrev pub zero_entry : DirEntry
zero_entry = record { filename = replicate filename_max_char 0; kind = 0; nr_inode = 0 }

-- What `fs_init` copies of the boot block.
pub record BootBlock : Type 0 where
  pub num_dir_entries : ℕ
  pub files : List DirEntry

-- The result, and what `dentry` points to.
pub read_dentry_by_index : BootBlock → ℕ → DirEntry → ℤ × DirEntry
read_dentry_by_index boot index dentry =
    let e = get_or boot.files index zero_entry in
    if leb boot.num_dir_entries index then (minus_one, dentry) else (
      pos 0,
      record {
        filename = strncpy dentry.filename e.filename filename_max_char;
        kind = e.kind;
        nr_inode = e.nr_inode;
      },
    )

-- `!strncmp(boot_block.files[i].filename, fname, FILENAME_MAX_CHAR)`
abbrev pub has_name : List ℕ → DirEntry → Bool
has_name fname e = eqb_ℤ (strncmp e.filename fname filename_max_char) (pos 0)

-- The loop over the entries from index `i` on, with `n` rounds left.
pub look_up : BootBlock → List ℕ → DirEntry → ℕ → ℕ → ℤ × DirEntry
look_up boot fname dentry zero i = (minus_one, dentry)
look_up boot fname dentry (suc n) i =
    let rest = look_up boot fname dentry n (i + 1) in
    if has_name fname (get_or boot.files i zero_entry)
    then (pos 0, (read_dentry_by_index boot i dentry).1)
    else rest

-- The search in the boot block.
pub look_up_boot : BootBlock → List ℕ → DirEntry → ℤ × DirEntry
look_up_boot boot fname dentry =
    if ltb 32 (strlen fname)
    then (minus_one, dentry)
    else look_up boot fname dentry boot.num_dir_entries 0

-- The name that stands for the current folder of PSV.
abbrev pub magic : List ℕ
magic = codes "PSV_current_folder:.//"

-- What a PSV file gives. `before` as for `last_name`; `filename` is a local array.
pub file_dentry : List ℕ → List ℕ → List ℕ → ℕ → DirEntry
file_dentry before filename fname idx = record {
  filename = strncpy zero_name (get_filename_from_path before filename fname) name_len_lim;
  kind = psv_file;
  nr_inode = idx;
}

module _ (l : Layout) where
  -- What follows the look-up in PSV: its index, if it gave one, or the boot block.
  pub look_up_next :
      BootBlock
      → List ℕ
      → List ℕ
      → List ℕ
      → DirEntry
      → ℤ × Volume l.Sector
      → ℤ × DirEntry × Volume l.Sector
  look_up_next boot before filename fname dentry (pos idx, v) =
      (pos 0, file_dentry before filename fname idx, v)
  look_up_next boot before filename fname dentry (negsuc n, v) =
      ((look_up_boot boot fname dentry).0, (look_up_boot boot fname dentry).1, v)

  pub read_dentry_by_name :
      BootBlock
      → List ℕ
      → List ℕ
      → List ℕ
      → DirEntry
      → Volume l.Sector
      → ℤ × DirEntry × Volume l.Sector
  read_dentry_by_name boot before filename fname dentry v =
      if eqb_ℤ (strncmp fname magic name_len_lim) (pos 0)
      then (pos 0, record zero_entry { nr_inode = self_of v.current_folder; kind = psv_folder }, v)
      else look_up_next boot before filename fname dentry (get_inode_idx_by_path l before fname v)

-- The entry that an open call returns; on failure the other fields are what was there.
pub open_with : OpTable → FileEntry → ℤ → DirEntry → FileEntry
open_with ops stale state dentry =
    if eqb_ℤ state minus_one
    then record stale { flags = oerror }
    else record { op_ptr = ops; inode = dentry.nr_inode; file_pos = 0; flags = in_use }

module _ (l : Layout) where
  pub file_open :
      BootBlock
      → List ℕ
      → List ℕ
      → FileEntry
      → List ℕ
      → DirEntry
      → Volume l.Sector
      → FileEntry × Volume l.Sector
  file_open boot before filename stale fname dentry v =
      let r = read_dentry_by_name l boot before filename fname dentry v in
      (open_with regular_file_ops stale r.0 r.1, r.2)

  pub dir_open :
      BootBlock
      → List ℕ
      → List ℕ
      → FileEntry
      → List ℕ
      → DirEntry
      → Volume l.Sector
      → FileEntry × Volume l.Sector
  dir_open boot before filename stale fname dentry v =
      let r = read_dentry_by_name l boot before filename fname dentry v in
      (open_with dir_ops stale r.0 r.1, r.2)

-- The loop that copies the name up to its NUL, from index `i` on with `n` rounds left: the bytes.
pub name_bytes : List ℕ → ℕ → ℕ → List ℕ
name_bytes name zero i = []
name_bytes name (suc n) i =
    let rest = name_bytes name n (i + 1) in
    if get_or name i 0 == 0 then [] else get_or name i 0 ∷ rest

-- `memset(buf, '\0', 33)`, and the name in front.
abbrev pub filled : List ℕ → List ℕ → List ℕ
filled buf name = put_bytes (put_bytes buf 0 (replicate 33 0)) 0 name

-- The result, the buffer and the open directory. `dentry` is a local variable.
pub dir_read : BootBlock → DirEntry → FileEntry → List ℕ → ℕ × List ℕ × FileEntry
dir_read boot dentry fp buf =
    let name =
      name_bytes (read_dentry_by_index boot fp.file_pos dentry).1.filename filename_max_char 0 in
    if leb boot.num_dir_entries fp.file_pos
    then (0, buf, fp)
    else (length name, filled buf name, record fp { file_pos = fp.file_pos + 1 })
