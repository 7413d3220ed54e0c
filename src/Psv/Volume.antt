-- ===== src/Psv/Volume.antt =====
-- helper.c, "Disk I/O API", and the variables of PSV.c: the super block and the current folder in
-- memory, and the sectors on the disk. How a structure lies in sectors is the compiler's matter, and
-- the interface `Layout`; harddisk.c moves whole sectors.
pub mod Shape
pub mod Setup
pub mod Mount
pub mod Tests
use martian_os.Prelude.{
  ℕ, ◌+◌, ◌/◌, List, [], ◌∷◌, get_or, length, take, drop, ◌++◌, replicate, ltb, ◌&&◌, ◌%◌, ◌^◌,
  ◌==◌, if◌then◌else◌,
}
use martian_os.Prelude.Int.{ℤ, pos, eqb_ℤ}
use martian_os.CString.{codes, strncpy}
use martian_os.Word.{zeros, one_shl}
use martian_os.Process.Types.{update}
use martian_os.Psv.Types.{
  SType, folder, file, db, FolderTerm, FileTerm, FolderNode, FileNode, SuperBlock, name_len_lim,
  fterm_num_lim, iterm_num_lim, fnode_num_lim, inode_num_lim, db_num_lim, psv_start_lba, fnode_offs,
  inode_offs, db_offs,
}
use martian_os.Psv.Bitmap.{is_free}
use martian_os.Psv.Location.{idx2lba}

-- `SECTOR_SIZE`
abbrev pub sector_size : ℕ
sector_size = 512

-- The bytes that the compiler lays a structure out in, cut into sectors, and the structure that the
-- bytes of sectors make.
pub record Layout : Type 1 where
  pub Sector : Type 0
  pub put_sb : SuperBlock → Sector
  pub get_sb : Sector → SuperBlock
  pub put_fnode : FolderNode → Sector × Sector
  pub get_fnode : Sector → Sector → FolderNode
  pub put_inode : FileNode → Sector
  pub get_inode : Sector → FileNode
  pub put_block : List ℕ → Sector
  pub get_block : Sector → List ℕ

-- `super_block`, `current_folder` and the disk. `current_file` is never used.
pub record Volume (Sector : Type 0) : Type 0 where
  pub super_block : SuperBlock
  pub current_folder : FolderNode
  pub disk : ℕ → Sector

-- `SUCCESS` and `FAIL`
abbrev pub success : ℕ
success = 1

abbrev pub fail : ℕ
fail = 0

-- What memory of zeros is as a structure.
abbrev pub zero_name : List ℕ
zero_name = replicate name_len_lim 0

abbrev pub zero_fterm : FolderTerm
zero_fterm = record { used = 0; foldername = zero_name; fnode_idx = 0 }

abbrev pub zero_iterm : FileTerm
zero_iterm = record { used = 0; filename = zero_name; inode_idx = 0 }

abbrev pub zero_fnode : FolderNode
zero_fnode = record {
  foldername = zero_name;
  num_fterm = pos 0;
  num_iterm = pos 0;
  fterms = replicate fterm_num_lim zero_fterm;
  iterms = replicate iterm_num_lim zero_iterm;
}

abbrev pub zero_inode : FileNode
zero_inode = record { len = 0; data_blocks = replicate 126 0 }

abbrev pub zero_sb : SuperBlock
zero_sb = record {
  name = zero_name;
  total_fnode = 0;
  used_fnode = 0;
  total_inode = 0;
  used_inode = 0;
  total_db = 0;
  used_db = 0;
  fnode_offset = 0;
  inode_offset = 0;
  db_offset = 0;
  fnode_map = zeros 32;
  inode_map = replicate 2 (zeros 32);
  db_map = replicate 64 (zeros 32);
  root = zero_fterm;
}

-- `inode.len / (SECTOR_SIZE * DB_BLKSIZE)`
abbrev pub get_num_db : FileNode → ℕ
get_num_db inode = inode.len / sector_size

module _ (l : Layout) where
  open l use {
    Sector, put_sb, get_sb, put_fnode, get_fnode, put_inode, get_inode, put_block, get_block,
  }

  pub read_sb : Volume Sector → Volume Sector
  read_sb v = record v { super_block = get_sb (v.disk psv_start_lba) }

  unfoldable pub write_sb : Volume Sector → Volume Sector
  write_sb v = record v { disk = update v.disk psv_start_lba (put_sb v.super_block) }

  -- The node that `fnode_p` points to afterwards, from what it is before.
  unfoldable pub read_fnode : FolderNode → ℕ → Volume Sector → FolderNode
  read_fnode fnode idx v =
      let lba = idx2lba (pos idx) folder in
      if is_free v.super_block folder idx then fnode else get_fnode (v.disk lba) (v.disk (lba + 1))

  unfoldable pub write_fnode : FolderNode → ℕ → Volume Sector → Volume Sector
  write_fnode fnode idx v =
      let lba = idx2lba (pos idx) folder in
      record v {
        disk = update (update v.disk lba (put_fnode fnode).0) (lba + 1) (put_fnode fnode).1;
      }

  unfoldable pub read_inode : FileNode → ℕ → Volume Sector → FileNode
  read_inode inode idx v =
      if is_free v.super_block file idx then inode else get_inode (v.disk (idx2lba (pos idx) file))

  unfoldable pub write_inode : FileNode → ℕ → Volume Sector → Volume Sector
  write_inode inode idx v = record v {
    disk = update v.disk (idx2lba (pos idx) file) (put_inode inode);
  }

  unfoldable pub read_db : List ℕ → ℕ → Volume Sector → List ℕ
  read_db block idx v =
      if is_free v.super_block db idx then block else get_block (v.disk (idx2lba (pos idx) db))

  unfoldable pub write_db : List ℕ → ℕ → Volume Sector → Volume Sector
  write_db block idx v = record v { disk = update v.disk (idx2lba (pos idx) db) (put_block block) }

  -- `read_fnode(&current_folder, idx)`
  unfoldable pub enter : ℕ → Volume Sector → Volume Sector
  enter idx v = record v { current_folder = read_fnode v.current_folder idx v }

  -- The count of sectors, 2177, goes through eight bits: 129 sectors are written. The buffer has
  -- one sector of zeros; `behind` is what stands behind it on the stack.
  pub flush_space : (ℕ → Sector) → Volume Sector → Volume Sector
  flush_space behind v = record v { disk = λ a. flushed behind a (v.disk a) }
    where
      flushed : (ℕ → Sector) → ℕ → Sector → Sector
      flushed behind a old =
          if a == psv_start_lba
          then put_block (replicate sector_size 0)
          else if ltb psv_start_lba a && ltb a (psv_start_lba + 2177 % 2 ^ 8)
          then behind a
          else old
