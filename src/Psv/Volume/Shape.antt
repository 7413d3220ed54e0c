-- ===== src/Psv/Volume/Shape.antt =====
-- The shape of the structures of PSV.h, and what the compiler's layout promises for them.
use martian_os.Prelude.{ℕ, ◌^◌, ◌<◌, ◌≡◌, List, length, get_or}
use martian_os.Prelude.Int.{pos}
use martian_os.CString.Compare.{AreBytes}
use martian_os.Psv.Types.{
  FolderTerm, FileTerm, FolderNode, FileNode, SuperBlock, HasMaps, name_len_lim, fterm_num_lim,
  iterm_num_lim,
}
use martian_os.Psv.Volume.{Layout, zero_fterm, zero_iterm, sector_size}

-- 32 bytes.
pub record IsName (n : List ℕ) : Type 0 where
  pub long : length n ≡ name_len_lim
  pub bytes : AreBytes n

-- A number that an `int32_t` holds.
abbrev pub Fits32 : ℕ → Type 0
Fits32 n = n < 2 ^ 31

pub record IsFterm (t : FolderTerm) : Type 0 where
  pub used_byte : t.used < 128
  pub name : IsName t.foldername
  pub idx : Fits32 t.fnode_idx

pub record IsIterm (t : FileTerm) : Type 0 where
  pub used_int : Fits32 t.used
  pub name : IsName t.filename
  pub idx : Fits32 t.inode_idx

pub record IsFnode (f : FolderNode) : Type 0 where
  pub name : IsName f.foldername
  pub fterm_count : (n : ℕ) × (f.num_fterm ≡ pos n) × Fits32 n
  pub iterm_count : (n : ℕ) × (f.num_iterm ≡ pos n) × Fits32 n
  pub fterm_slots : length f.fterms ≡ fterm_num_lim
  pub iterm_slots : length f.iterms ≡ iterm_num_lim
  pub fterm_shapes : (i : ℕ) → IsFterm (get_or f.fterms i zero_fterm)
  pub iterm_shapes : (i : ℕ) → IsIterm (get_or f.iterms i zero_iterm)

pub record IsInode (f : FileNode) : Type 0 where
  pub len_int : Fits32 f.len
  pub slots : length f.data_blocks ≡ 126
  pub blocks : (i : ℕ) → Fits32 (get_or f.data_blocks i 0)

pub record IsSb (sb : SuperBlock) : Type 0 where
  pub label : IsName sb.name
  pub maps : HasMaps sb
  pub fnodes : Fits32 sb.total_fnode × Fits32 sb.used_fnode
  pub inodes : Fits32 sb.total_inode × Fits32 sb.used_inode
  pub dbs : Fits32 sb.total_db × Fits32 sb.used_db
  pub offsets : Fits32 sb.fnode_offset × Fits32 sb.inode_offset × Fits32 sb.db_offset
  pub root_shape : IsFterm sb.root

-- A structure that is copied to the disk and back is the same.
pub record Encodes (l : Layout) : Type 1 where
  pub sb_back : (sb : SuperBlock) → IsSb sb → l.get_sb (l.put_sb sb) ≡ sb
  pub fnode_back :
      (f : FolderNode) → IsFnode f → l.get_fnode (l.put_fnode f).0 (l.put_fnode f).1 ≡ f
  pub inode_back : (f : FileNode) → IsInode f → l.get_inode (l.put_inode f) ≡ f
  pub block_back :
      (b : List ℕ) → length b ≡ sector_size → AreBytes b → l.get_block (l.put_block b) ≡ b
