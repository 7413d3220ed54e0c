-- ===== src/Fs.antt =====
-- mp3_Final/student-distrib/fs.c: the read-only file system of the boot module. Its image stands in
-- memory, a boot block, then the inodes, then the data blocks, in blocks of 4096 bytes.
pub mod Read
pub mod Tests
use martian_os.Prelude.{
  ℕ, zero, suc, ◌+◌, ◌-◌, ◌*◌, ◌/◌, ◌%◌, ◌^◌, Bool, true, false, List, [], ◌∷◌, ◌++◌, leb, ltb,
  ◌==◌, not, if◌then◌else◌,
}
use martian_os.Prelude.Machine.{add32, sub32, mul32, ones32}

abbrev pub block_size : ℕ
block_size = 4096

abbrev pub max_files : ℕ
max_files = 63

-- The memory that holds the image, byte by byte, and what `fs_init` read from the boot block.
pub record Image : Type 0 where
  pub mem : ℕ → ℕ
  pub inode_start : ℕ
  pub data_block_start : ℕ
  pub num_data_blocks : ℕ

-- A `uint32_t` in memory.
abbrev pub load32 : (ℕ → ℕ) → ℕ → ℕ
load32 mem a = mem a + mem (a + 1) * 2 ^ 8 + mem (a + 2) * 2 ^ 16 + mem (a + 3) * 2 ^ 24

-- `inode * BLOCK_SIZE + inode_start`
abbrev pub inode_addr : Image → ℕ → ℕ
inode_addr s inode = add32 (mul32 inode block_size) s.inode_start

-- `inode_struct->length`
unfoldable pub inode_length : Image → ℕ → ℕ
inode_length s inode = load32 s.mem (inode_addr s inode)

-- `inode_struct->inodes[j]`
unfoldable pub inode_block : Image → ℕ → ℕ → ℕ
inode_block s inode j = load32 s.mem (inode_addr s inode + 4 + 4 * j)

-- `inode_struct->inodes[j] * BLOCK_SIZE + data_block_start`
abbrev pub data_blk_ptr : Image → ℕ → ℕ → ℕ
data_blk_ptr s inode j = add32 (mul32 (inode_block s inode j) block_size) s.data_block_start

-- The bytes that `memcpy` takes from address `a`.
unfoldable pub slice : (ℕ → ℕ) → ℕ → ℕ → List ℕ
slice mem a zero = []
slice mem a (suc n) = mem a ∷ slice mem (a + 1) n

-- The loop over `j` that looks for a bad data block number, with `n` rounds left.
unfoldable pub has_bad_block : Image → ℕ → ℕ → ℕ → Bool
has_bad_block s inode zero j = false
has_bad_block s inode (suc n) j =
    let rest = has_bad_block s inode n (j + 1) in
    if leb s.num_data_blocks (inode_block s inode j) then true else rest

-- The loop over the whole blocks in the middle, with `n` rounds left.
unfoldable pub copy_blocks : Image → ℕ → ℕ → ℕ → List ℕ
copy_blocks s inode zero i = []
copy_blocks s inode (suc n) i =
    slice s.mem (data_blk_ptr s inode i) block_size ++ copy_blocks s inode n (i + 1)

-- What the calls of `memcpy` put into `buf`, in order, for the bytes from `offset` up to `end`.
unfoldable pub copy_range : Image → ℕ → ℕ → ℕ → List ℕ
copy_range s inode offset end =
    let start_blk_idx = offset / block_size in
    let start_off = offset - offset / block_size * block_size in
    let end_blk_idx = end / block_size in
    let end_off = end - end / block_size * block_size in
    (if not (end_blk_idx == start_blk_idx)
      then slice s.mem (data_blk_ptr s inode start_blk_idx + start_off) (block_size - start_off)
      else slice s.mem (data_blk_ptr s inode start_blk_idx + start_off) (sub32 end_off start_off))
    ++ (copy_blocks s inode (end_blk_idx - (start_blk_idx + 1)) (start_blk_idx + 1)
        ++ (if not (start_blk_idx == end_blk_idx)
            then slice s.mem (data_blk_ptr s inode end_blk_idx) end_off
            else []))

-- The result, as a bit pattern, and the bytes that go to `buf`, in order.
unfoldable pub read_data : Image → ℕ → ℕ → ℕ → ℕ × List ℕ
read_data s inode offset length =
    if leb max_files inode
    then (ones32, [])
    else if leb (inode_length s inode) offset
    then (0, [])
    else (let size = inode_length s inode in
        let end = (if leb size (add32 offset length) then size else add32 offset length) in
        let start_blk_idx = offset / block_size in
        let end_blk_idx = end / block_size in
        if has_bad_block s inode (end_blk_idx + 1 - start_blk_idx) start_blk_idx
        then (ones32, [])
        else (sub32 end offset, copy_range s inode offset end))

-- The operation tables that an `op_ptr` points to, which `fs_init` and `PSV_mount` fill.
pub data OpTable : Type 0 where
  stdin_ops stdout_ops rtc_ops dir_ops regular_file_ops psv_folder_ops psv_file_ops : OpTable

-- OERROR, IN_USE and FREE.
pub data Flags : Type 0 where
  oerror in_use free : Flags

-- `file_entry`
pub record FileEntry : Type 0 where
  pub op_ptr : OpTable
  pub inode : ℕ
  pub file_pos : ℕ
  pub flags : Flags

-- The result, the bytes that go to `buf`, and the entry afterwards.
pub file_read : Image → FileEntry → ℕ → ℕ × List ℕ × FileEntry
file_read s fp length =
    let (res, bytes) = read_data s fp.inode fp.file_pos length in
    if not (res == ones32)
    then (res, bytes, record fp { file_pos = add32 fp.file_pos res })
    else (ones32, bytes, fp)
