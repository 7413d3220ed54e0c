-- ===== src/Psv/Location/Disjoint.antt =====
-- Which nodes share a sector, and which do not.
use martian_os.Prelude.{ℕ, ◌+◌, ◌*◌, ◌≤◌, ◌<◌, ◌≡◌, ◌⊎◌, ◌&&◌, ◌==◌, false, arith}
use martian_os.Prelude.Int.{pos}
use martian_os.Psv.Types.{
  SType, folder, file, db, psv_start_lba, fnode_num_lim, inode_num_lim, db_num_lim,
}
use martian_os.Psv.Location.{idx2lba}
use martian_os.Psv.Bitmap.Laws.{same}

-- How many sectors a node takes.
abbrev pub blk_size : SType → ℕ
blk_size folder = 2
blk_size file = 1
blk_size db = 1

-- The sectors of the file system: the super block, and `TOTAL_SECTORS` in all.
abbrev total_sectors : ℕ
total_sectors = 1 + fnode_num_lim * 2 + inode_num_lim + db_num_lim

-- The sectors of the nodes below index 32 lie behind the super block and inside the file system,
-- and those of two different ones, of one kind or of two, never overlap.
pub idx2lba-disjoint :
    (t u : SType) (i j : ℕ)
    → i < 32
    → j < 32
    → (same t u && i == j) ≡ false
    → let a = idx2lba (pos i) t in
      let b = idx2lba (pos j) u in
      (psv_start_lba < a)
      × (a + blk_size t ≤ psv_start_lba + total_sectors)
      × ((a + blk_size t ≤ b) ⊎ (b + blk_size u ≤ a))
unfolding idx2lba
idx2lba-disjoint folder folder i j hi hj e = ground arith
idx2lba-disjoint folder file i j hi hj e = ground arith
idx2lba-disjoint folder db i j hi hj e = ground arith
idx2lba-disjoint file folder i j hi hj e = ground arith
idx2lba-disjoint file file i j hi hj e = ground arith
idx2lba-disjoint file db i j hi hj e = ground arith
idx2lba-disjoint db folder i j hi hj e = ground arith
idx2lba-disjoint db file i j hi hj e = ground arith
idx2lba-disjoint db db i j hi hj e = ground arith

-- Every file node and every data block above index 32 is sent to the one sector in front of the
-- super block, although the bitmaps hand out file nodes up to 63 and data blocks up to 2047: any
-- two of them share that sector.
pub idx2lba-collides :
    (t u : SType) (i j : ℕ)
    → 32 < i
    → 32 < j
    → (idx2lba (pos i) t ≡ idx2lba (pos j) u) × (idx2lba (pos i) t < psv_start_lba)
unfolding idx2lba
idx2lba-collides folder folder i j hi hj = ground arith
idx2lba-collides folder file i j hi hj = ground arith
idx2lba-collides folder db i j hi hj = ground arith
idx2lba-collides file folder i j hi hj = ground arith
idx2lba-collides file file i j hi hj = ground arith
idx2lba-collides file db i j hi hj = ground arith
idx2lba-collides db folder i j hi hj = ground arith
idx2lba-collides db file i j hi hj = ground arith
idx2lba-collides db db i j hi hj = ground arith
