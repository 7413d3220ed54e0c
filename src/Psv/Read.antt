-- ===== src/Psv/Read.antt =====
-- PSV.c: how contents and folders are read, and the calls on an open file. `none` as in `Content`.
pub mod Listing
pub mod Stream
pub mod Tests
use martian_os.Prelude.{
  ℕ, zero, suc, ◌+◌, ◌-◌, ◌*◌, ◌/◌, ◌%◌, ◌^◌, Bool, true, false, not, ◌&&◌, ◌||◌, Option, none,
  some, List, [], ◌∷◌, ◌++◌, get_or, take, drop, min, replicate, ltb, leb, ◌==◌, if◌then◌else◌,
  ◌>>=◌,
}
use martian_os.Prelude.Int.{ℤ, pos, negsuc, minus_one, sub_ℕ, eqb_ℤ, ltb_ℤ, pos_part, neg_part}
use martian_os.CString.{strncpy}
use martian_os.Fs.{FileEntry}
use martian_os.Psv.Types.{FolderNode, FileNode, folder, name_len_lim, fterm_num_lim, iterm_num_lim}
use martian_os.Psv.Bitmap.{is_free}
use martian_os.Psv.Volume.{
  Layout, Volume, zero_name, zero_fnode, zero_fterm, zero_iterm, read_fnode, read_db, enter,
  sector_size, success, fail,
}
use martian_os.Psv.Path.{PathT, split_path}
use martian_os.Psv.Walk.{goin_sp, last_name, parent_path}
use martian_os.Psv.Terms.{self_of, is_file, clear_at}
use martian_os.Psv.Content.{put_bytes, bad_inode, local_inode, write_content}

-- Of an `int32_t` sum, the cases that stay within its bounds.
abbrev pub sum_fits : ℕ → ℕ → Bool
sum_fits a b = ltb (a + b) (2 ^ 31)

-- The number that an `int32_t` of this bit pattern stands for, and a sum on 32 bits.
abbrev pub signed32 : ℕ → ℤ
signed32 n = if ltb n (2 ^ 31) then pos n else negsuc (2 ^ 32 - 1 - n)

abbrev pub add_signed32 : ℕ → ℤ → ℕ
add_signed32 n k = (n + pos_part k + (2 ^ 32 - neg_part k)) % 2 ^ 32

-- A loop of `PSV_folder_read` over a table from index `i` on, with `n` rounds left: the name in the
-- first used term, if there is one, and how many terms it looked at.
module _ {A : Type 0} where
  pub next_at : (A → Bool) → (A → List ℕ) → A → List A → ℕ → ℕ → Option (List ℕ) × ℕ
  next_at used name d ts zero i = (none, 0)
  next_at used name d ts (suc n) i =
      let rest = next_at used name d ts n (i + 1) in
      if used (get_or ts i d) then (some (name (get_or ts i d)), 1) else (rest.0, suc rest.1)

abbrev pub next_folder : FolderNode → ℕ → Option (List ℕ) × ℕ
next_folder f idx =
    next_at (λ t. t.used == 1) (λ t. t.foldername) zero_fterm f.fterms (fterm_num_lim - idx) idx

abbrev pub next_file : FolderNode → ℕ → Option (List ℕ) × ℕ
next_file f i =
    next_at (λ t. t.used == 1) (λ t. t.filename) zero_iterm f.iterms (iterm_num_lim - i) i

-- What the second loop does behind the first.
abbrev pub after_folders : ℕ → Option (List ℕ) × ℕ → Option (List ℕ) × ℕ → Option (List ℕ) × ℕ
after_folders idx (some name, k) b = (some name, idx + k)
after_folders idx (none, k) b = (b.0, idx + k + b.1)

-- From position `idx` on, the folders first: the name found, and the position behind it.
pub next_name : FolderNode → ℕ → Option (List ℕ) × ℕ
next_name f idx =
    let c = next_file f (idx - fterm_num_lim) in
    if ltb idx fterm_num_lim
    then after_folders idx (next_folder f idx) (next_file f 0)
    else (c.0, idx + c.1)

-- The name goes to the cleared buffer.
pub folder_entry : List ℕ → FileEntry → Option (List ℕ) × ℕ → ℤ × List ℕ × FileEntry
folder_entry buf fp (some name, at) =
    (pos name_len_lim, strncpy buf name name_len_lim, record fp { file_pos = at })
folder_entry buf fp (none, at) = (pos 0, buf, record fp { file_pos = at })

-- A read in the local node.
pub read_in : FileEntry → List ℕ → Option FolderNode → Option (ℤ × List ℕ × FileEntry)
read_in fp buf none = none
read_in fp buf (some f) = some (
    if ltb_ℤ (signed32 fp.file_pos) (pos 0)
    then (minus_one, buf, fp)
    else if leb (fterm_num_lim + iterm_num_lim) fp.file_pos
    then (pos 0, buf, fp)
    else folder_entry (put_bytes buf 0 (replicate (name_len_lim + 1) 0)) fp
        (next_name f fp.file_pos))

module _ (l : Layout) where
  open l use {Sector}

  -- The loop over the whole blocks from index `i` on, with `n` rounds left: each goes straight to
  -- `buf`, from `at` on. A block that is not marked leaves `buf` as it is.
  pub read_whole : FileNode → ℕ → ℕ → List ℕ → ℕ → Volume Sector → List ℕ
  read_whole inode zero i buf at v = buf
  read_whole inode (suc n) i buf at v =
      let block = read_db l (take sector_size (drop at buf)) (get_or inode.data_blocks i 0) v in
      read_whole inode n (i + 1) (put_bytes buf at block) (at + sector_size) v

  -- From the byte at `offset` up to the one in front of `end_pos`. `buf_db` is what the local block
  -- holds, at first whatever is on the stack. Index 126 of the table is its padding, a zero.
  unfoldable pub read_span : FileNode → ℕ → ℕ → List ℕ → List ℕ → Volume Sector → List ℕ
  read_span inode offset end_pos buf buf_db v =
      let start_idx = offset / sector_size in
      let start_offs = offset - start_idx * sector_size in
      let end_idx = end_pos / sector_size in
      let end_offs = end_pos - end_idx * sector_size in
      let first = read_db l buf_db (get_or inode.data_blocks start_idx 0) v in
      let head = put_bytes buf 0 (take (sector_size - start_offs) (drop start_offs first)) in
      let whole =
        read_whole inode (end_idx - (start_idx + 1)) (start_idx + 1) head (sector_size - start_offs)
          v in
      let last = read_db l first (get_or inode.data_blocks end_idx 0) v in
      let at = sector_size - start_offs + (end_idx - (start_idx + 1)) * sector_size in
      if end_idx == start_idx
      then put_bytes buf 0 (take (end_offs - start_offs) (drop start_offs first))
      else put_bytes whole at (take end_offs last)

  -- The result and the buffer. The result is `end_offs - offset`.
  unfoldable pub read_node : FileNode → ℕ → ℕ → List ℕ → List ℕ → Volume Sector → ℤ × List ℕ
  read_node inode offset length buf buf_db v =
      let end_pos = min inode.len (offset + length) in
      if leb inode.len offset then (pos 0, buf) else (
        sub_ℕ (end_pos - end_pos / sector_size * sector_size) offset,
        read_span inode offset end_pos buf buf_db v,
      )

  unfoldable pub read_content : ℤ → ℤ → List ℕ → ℤ → List ℕ → Volume Sector → Option (ℤ × List ℕ)
  read_content inode_idx offset buf length buf_db v =
      if ltb_ℤ offset (pos 0) || not (ltb_ℤ (pos 0) length)
      then some (minus_one, buf)
      else if bad_inode inode_idx
      then some (minus_one, buf)
      else do
        inode ← local_inode l (pos_part inode_idx) v
        (if sum_fits (pos_part offset) (pos_part length)
            then some (read_node inode (pos_part offset) (pos_part length) buf buf_db v)
            else none)

  -- The loop over the file terms from index `i` on, with `n` rounds left: the last one counts.
  pub find_inode : List ℕ → FolderNode → ℕ → ℕ → ℤ → ℤ
  find_inode name f zero i found = found
  find_inode name f (suc n) i found =
      let t = get_or f.iterms i zero_iterm in
      find_inode name f n (i + 1) (if is_file name t then pos t.inode_idx else found)

  -- The result and the volume; of `before` see `last_name`.
  pub get_inode_idx_by_path : List ℕ → List ℕ → Volume Sector → ℤ × Volume Sector
  get_inode_idx_by_path before path v =
      let p = split_path path in
      let name = strncpy zero_name (last_name before p) name_len_lim in
      let r = goin_sp l (parent_path p) v in
      if ltb_ℤ p.num (pos 0) then (minus_one, v) else if r.0 == fail then (minus_one, r.1) else (
        find_inode name r.1.current_folder iterm_num_lim 0 minus_one,
        enter l (self_of v.current_folder) r.1,
      )

  -- What the local node is after `read_fnode`: none where nothing was read.
  abbrev pub local_fnode : ℕ → Volume Sector → Option FolderNode
  local_fnode idx v =
      if is_free v.super_block folder idx then none else some (read_fnode l zero_fnode idx v)

  -- The result, the buffer of 33 bytes or more, and the open file.
  pub psv_folder_read : FileEntry → List ℕ → Volume Sector → Option (ℤ × List ℕ × FileEntry)
  psv_folder_read fp buf v = read_in fp buf (local_fnode fp.inode v)

  pub psv_file_read :
      FileEntry → List ℕ → ℕ → List ℕ → Volume Sector → Option (ℤ × List ℕ × FileEntry)
  psv_file_read fp buf length buf_db v = do
    (nbytes, out) ←
        read_content (signed32 fp.inode) (signed32 fp.file_pos) buf (signed32 length) buf_db v
    some (
        if eqb_ℤ nbytes minus_one
        then (minus_one, out, fp)
        else (nbytes, out, record fp { file_pos = add_signed32 fp.file_pos nbytes }))

  -- Beside the result it gives what goes to the screen: the first `length` bytes.
  pub psv_file_write :
      FileEntry → List ℕ → ℕ → Volume Sector → Option (ℤ × List ℕ × FileEntry × Volume Sector)
  psv_file_write fp buf length v = do
    (nbytes, w) ← write_content l (signed32 fp.inode) buf (signed32 length) v
    some (
        if eqb_ℤ nbytes minus_one
        then (minus_one, take length buf, fp, w)
        else (nbytes, take length buf, record fp { file_pos = add_signed32 fp.file_pos nbytes }, w))
