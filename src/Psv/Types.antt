-- ===== src/Psv/Types.antt =====
-- PSV.h: the limits and the super block. `rev`, the padding of the structures, is left out.
use martian_os.Prelude.{ℕ, ◌<◌, ◌≡◌, List, [], length, get_or}
use martian_os.Prelude.Int.{ℤ}
use martian_os.Word.{Word}

abbrev pub name_len_lim : ℕ
name_len_lim = 32

abbrev pub fterm_num_lim : ℕ
fterm_num_lim = 8

abbrev pub iterm_num_lim : ℕ
iterm_num_lim = 16

abbrev pub fnode_num_lim : ℕ
fnode_num_lim = 32

abbrev pub inode_num_lim : ℕ
inode_num_lim = 64

abbrev pub db_num_lim : ℕ
db_num_lim = 2048

abbrev pub psv_start_lba : ℕ
psv_start_lba = 1000

abbrev pub fnode_offs : ℕ
fnode_offs = 1

abbrev pub inode_offs : ℕ
inode_offs = 65

abbrev pub db_offs : ℕ
db_offs = 129

-- `SType`, the three kinds of nodes.
pub data SType : Type 0 where
  folder file db : SType

-- How many nodes of each kind there are.
abbrev pub num_lim : SType → ℕ
num_lim folder = fnode_num_lim
num_lim file = inode_num_lim
num_lim db = db_num_lim

-- A 32-byte name, with a NUL behind it where it is shorter.
abbrev pub Name : Type 0
Name = List ℕ

pub record FolderTerm : Type 0 where
  pub used : ℕ
  pub foldername : Name
  pub fnode_idx : ℕ

pub record FileTerm : Type 0 where
  pub used : ℕ
  pub filename : Name
  pub inode_idx : ℕ

pub record FolderNode : Type 0 where
  pub foldername : Name
  pub num_fterm : ℤ
  pub num_iterm : ℤ
  pub fterms : List FolderTerm
  pub iterms : List FileTerm

pub record FileNode : Type 0 where
  pub len : ℕ
  pub data_blocks : List ℕ

pub record SuperBlock : Type 0 where
  pub name : Name
  pub total_fnode : ℕ
  pub used_fnode : ℕ
  pub total_inode : ℕ
  pub used_inode : ℕ
  pub total_db : ℕ
  pub used_db : ℕ
  pub fnode_offset : ℕ
  pub inode_offset : ℕ
  pub db_offset : ℕ
  pub fnode_map : Word
  pub inode_map : List Word
  pub db_map : List Word
  pub root : FolderTerm

-- The maps have the sizes that PSV.h declares: one word, 2 and 64 words of 32 bits.
pub record HasMaps (sb : SuperBlock) : Type 0 where
  pub fnodes : length sb.fnode_map ≡ 32
  pub inode_words : length sb.inode_map ≡ 2
  pub inodes : (i : ℕ) → i < 2 → length (get_or sb.inode_map i []) ≡ 32
  pub db_words : length sb.db_map ≡ 64
  pub dbs : (i : ℕ) → i < 64 → length (get_or sb.db_map i []) ≡ 32
