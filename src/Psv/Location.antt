-- ===== src/Psv/Location.antt =====
-- helper.c, idx2LBA: the sector at which a node stands on the disk.
pub mod Disjoint
pub mod Tests
use martian_os.Prelude.{ℕ, ◌+◌, ◌-◌, ◌*◌, ltb, if◌then◌else◌}
use martian_os.Prelude.Int.{ℤ, pos, negsuc}
use martian_os.Psv.Types.{
  SType, folder, file, db, psv_start_lba, fnode_offs, inode_offs, db_offs, fnode_num_lim,
}

-- The sector that an index out of range is sent to, in front of the super block.
abbrev pub bad_lba : ℕ
bad_lba = psv_start_lba - 1

-- The three kinds are checked against the same limit, as in the source. The result is never
-- negative.
unfoldable pub idx2lba : ℤ → SType → ℕ
idx2lba (negsuc n) t = bad_lba
idx2lba (pos idx) folder =
    if ltb fnode_num_lim idx then bad_lba else idx * 2 + psv_start_lba + fnode_offs
idx2lba (pos idx) file = if ltb fnode_num_lim idx then bad_lba else idx + psv_start_lba + inode_offs
idx2lba (pos idx) db = if ltb fnode_num_lim idx then bad_lba else idx + psv_start_lba + db_offs
