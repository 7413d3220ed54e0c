-- ===== src/Psv/Content.antt =====
-- PSV.c: the contents of files in data blocks. `none` stands for a run that uses a variable which
-- was never set, or that leaves the arrays it works on.
pub mod Frees
pub mod OneBlock
pub mod RoundTrip
pub mod Tests
use martian_os.Prelude.{
  ℕ, zero, suc, ◌+◌, ◌-◌, ◌*◌, ◌/◌, ◌%◌, ◌^◌, Bool, true, false, not, ◌&&◌, ◌||◌, Option, none,
  some, List, [], ◌∷◌, ◌++◌, get_elem?, get_or, set, take, drop, length, replicate, ltb, leb, ◌==◌,
  if◌then◌else◌, ◌>>=◌,
}
use martian_os.Prelude.Int.{ℤ, pos, negsuc, minus_one, sub_ℕ, eqb_ℤ, ltb_ℤ, pos_part}
use martian_os.Psv.Types.{FolderNode, FileNode, SuperBlock, file, db, inode_num_lim, name_len_lim}
use martian_os.Psv.Bitmap.{get_free_bit, clear_bitmap, is_free}
use martian_os.Psv.Volume.{
  Layout, Volume, zero_inode, get_num_db, read_inode, write_inode, read_db, write_db, write_sb,
  sector_size, success, fail, zero_iterm, zero_name,
}
use martian_os.CString.{strncpy}
use martian_os.Psv.Path.{split_path}
use martian_os.Psv.Walk.{goin_sp, last_name, parent_path}
use martian_os.Psv.Terms.{delete_iterm}
use martian_os.Psv.Folders.{with_sb}

-- `memcpy(buf + pos, src, ...)` of all of `src`.
unfoldable pub put_bytes : List ℕ → ℕ → List ℕ → List ℕ
put_bytes buf at src = take at buf ++ (src ++ drop (at + length src) buf)

-- `n` bytes of `buf`, and zeros up to the end of the block.
abbrev pub padded_block : ℕ → List ℕ → List ℕ
padded_block n buf = take n buf ++ replicate (sector_size - n) 0

-- `inode_idx >= INODE_NUM_LIM || inode_idx < 0`
abbrev pub bad_inode : ℤ → Bool
bad_inode idx = not (ltb_ℤ idx (pos inode_num_lim)) || ltb_ℤ idx (pos 0)

module _ (l : Layout) where
  open l use {Sector}

  -- The node that a local variable holds after `read_inode`: none where nothing was read.
  abbrev pub local_inode : ℕ → Volume Sector → Option FileNode
  local_inode idx v =
      if is_free v.super_block file idx then none else some (read_inode l zero_inode idx v)

  pub delete_db : ℕ → Volume Sector → Volume Sector
  delete_db idx v0 =
      let v = write_db l (replicate sector_size 0) idx v0 in
      write_sb l (with_sb l (clear_bitmap (pos idx) db v.super_block).1 v)

  -- `for (i = 0; i < get_num_db(inode); i++)`, from index `i` on with `n` rounds left.
  pub delete_dbs : FileNode → ℕ → ℕ → Volume Sector → Option (Volume Sector)
  delete_dbs inode zero i v = some v
  delete_dbs inode (suc n) i v = do
    idx ← get_elem? inode.data_blocks i
    delete_dbs inode n (i + 1) (delete_db idx v)

  -- One round of the loop over the blocks, with the free node that was found: the node with its table of
  -- blocks, and the volume. `buf` stands still.
  pub write_block :
      List ℕ → ℕ → ℕ → ℕ → ℕ → FileNode → Volume Sector → Option (FileNode × Volume Sector)
  write_block buf end_idx end_offs i new_idx inode v =
      let block = (if i == end_idx then padded_block end_offs buf else take sector_size buf) in
      if ltb i (length inode.data_blocks)
      then some (
        record inode { data_blocks = set inode.data_blocks i new_idx },
        write_db l block new_idx v,
      )
      else none

  -- A round from what `get_free_bit` gave, with the later rounds as a function.
  pub next_block :
      List ℕ
      → ℕ
      → ℕ
      → ℕ
      → FileNode
      → Volume Sector
      → (FileNode → Volume Sector → Option (Bool × FileNode × Volume Sector))
      → ℤ × SuperBlock
      → Option (Bool × FileNode × Volume Sector)
  next_block buf end_idx end_offs i inode v later (negsuc k, sb) = some (false, inode, v)
  next_block buf end_idx end_offs i inode v later (pos new_idx, sb) = do
    (g, w) ← write_block buf end_idx end_offs i new_idx inode (with_sb l sb v)
    later g w

  -- The loop from index `i` on, with `n` rounds left: whether a block was free each time, the node
  -- and the volume.
  pub write_blocks :
      List ℕ → ℕ → ℕ → ℕ → ℕ → FileNode → Volume Sector → Option (Bool × FileNode × Volume Sector)
  write_blocks buf end_idx end_offs zero i inode v = some (true, inode, v)
  write_blocks buf end_idx end_offs (suc n) i inode v =
      next_block buf end_idx end_offs i inode v
        (λ g w. write_blocks buf end_idx end_offs n (i + 1) g w) (get_free_bit db v.super_block)

  pub finish_write : ℕ → ℕ → Bool × FileNode × Volume Sector → Option (ℤ × Volume Sector)
  finish_write idx len (false, g, w) = some (minus_one, w)
  finish_write idx len (true, g, w) = some (pos len, write_inode l g idx (write_sb l w))

  -- What follows the deletion of the old blocks, for `len` bytes.
  pub write_new : List ℕ → ℕ → ℕ → FileNode → Volume Sector → Option (ℤ × Volume Sector)
  write_new buf idx len inode0 v =
      let inode = record inode0 { len = len } in
      let end_idx = (len - 1) / sector_size in
      if len == 0 then some (pos 0, write_inode l inode idx v) else do
        r ← write_blocks buf end_idx (len - end_idx * sector_size) (end_idx + 1) 0 inode v
        finish_write idx len r

  -- A length out of bounds is reported, and the run goes on. Of a negative one nothing is said.
  pub write_content : ℤ → List ℕ → ℤ → Volume Sector → Option (ℤ × Volume Sector)
  write_content inode_idx buf (negsuc k) v =
      if bad_inode inode_idx then some (minus_one, v) else none
  write_content inode_idx buf (pos len) v = if bad_inode inode_idx then some (minus_one, v) else do
    inode ← local_inode (pos_part inode_idx) v
    w ← delete_dbs inode (get_num_db inode) 0 v
    write_new buf (pos_part inode_idx) len inode w

  -- What follows the deletion of the term.
  pub drop_file : ℤ × FolderNode × Volume Sector → Option (ℕ × FolderNode × Volume Sector)
  drop_file (negsuc n, g, v) = some (fail, g, v)
  drop_file (pos i, g, v) = do
    let idx = (get_or g.iterms i zero_iterm).inode_idx
    inode ← local_inode idx v
    w ← delete_dbs inode (get_num_db inode) 0 v
    some (success, g, write_sb l (with_sb l (clear_bitmap (pos idx) file w.super_block).1 w))

  -- The state, the node that `fnode_p` points to, and the volume.
  pub delete_file : FolderNode → List ℕ → Volume Sector → Option (ℕ × FolderNode × Volume Sector)
  delete_file f name v = drop_file (delete_iterm l f name v)

  -- The current folder is not changed back.
  pub psv_delete_file : List ℕ → Volume Sector → Option (ℕ × Volume Sector)
  psv_delete_file path v =
      let p = split_path path in
      let name = strncpy zero_name (last_name [] p) name_len_lim in
      let r = goin_sp l (parent_path p) v in
      if not (ltb_ℤ (pos 0) p.num) then some (fail, v) else if r.0 == fail then some r else do
        (state, g, w) ← delete_file r.1.current_folder name r.1
        some (state, record w { current_folder = g })
