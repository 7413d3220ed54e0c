-- ===== src/Fs/Read/Result.antt =====
-- read_data and file_read as a whole: what they return, and which bytes.
use martian_os.Prelude.{
  ℕ, ◌+◌, ◌-◌, ◌*◌, ◌/◌, ◌^◌, ◌<◌, ◌≤◌, ◌≡◌, refl, ap, false, [], ◌++◌, leb, ◌==◌, if◌then◌else◌,
  arith, min,
}
use martian_os.Prelude.Machine.{add32, sub32, ones32}
use martian_os.Fs.{
  Image, FileEntry, block_size, max_files, inode_length, inode_block, read_data, file_read,
}
use martian_os.Fs.Read.{
  file_bytes, file_bytes-append, GoodBlocks, has_bad_block_good, has_bad_block_bad, copy_range_lem,
}

-- Where the data blocks end in the address space.
abbrev pub Fits : Image → Type 0
Fits s = s.data_block_start + s.num_data_blocks * block_size ≤ 2 ^ 32

request_end :
    (size offset length : ℕ)
    → offset + length < 2 ^ 32
    → (if leb size (add32 offset length) then size else add32 offset length)
      ≡ min size (offset + length)
request_end size offset length h = ground arith

-- Reading from inside a file, with a length that does not wrap `offset + length`, returns the
-- number of bytes up to the end of the file or of the request, whichever comes first, and copies
-- exactly those bytes of the file, if every block number up to that of the last position is good.
pub read_data_lem :
    (s : Image) (inode offset length : ℕ)
    → Fits s
    → inode < max_files
    → offset < inode_length s inode
    → offset + length < 2 ^ 32
    → GoodBlocks s inode
        (offset / block_size)
        (min (inode_length s inode) (offset + length) / block_size + 1)
    → let end = min (inode_length s inode) (offset + length) in
      read_data s inode offset length ≡ (end - offset, file_bytes s inode offset (end - offset))
unfolding read_data
read_data_lem s inode offset length fits hi ho hl g =
    let size = inode_length s inode in
    let end = min size (offset + length) in
    let low : leb max_files inode ≡ false = ground arith in
    let inside : leb size offset ≡ false = ground arith in
    let good =
      has_bad_block_good s inode (end / block_size + 1 - offset / block_size) (offset / block_size)
        (end / block_size + 1) (omega arith) g in
    let count : sub32 end offset ≡ end - offset = omega arith in
    rw (low, inside, request_end size offset length hl, good, count)
      (ap (λ bytes. (end - offset, bytes)) (copy_range_lem s inode fits offset end (omega arith) g))

-- If a block number in the range of positions that is asked for is bad, up to the block of the last
-- position, `read_data` fails with -1 and copies nothing.
pub read_data-bad_block :
    (s : Image) (inode offset length j : ℕ)
    → inode < max_files
    → offset < inode_length s inode
    → offset + length < 2 ^ 32
    → offset / block_size ≤ j
    → j ≤ min (inode_length s inode) (offset + length) / block_size
    → s.num_data_blocks ≤ inode_block s inode j
    → read_data s inode offset length ≡ (ones32, [])
unfolding read_data
read_data-bad_block s inode offset length j hi ho hl lo up bad =
    let size = inode_length s inode in
    let end = min size (offset + length) in
    let low : leb max_files inode ≡ false = ground arith in
    let inside : leb size offset ≡ false = ground arith in
    let found =
      has_bad_block_bad s inode (end / block_size + 1 - offset / block_size) (offset / block_size) j
        lo (omega arith) bad in
    rw (low, inside, request_end size offset length hl, found) refl

-- The bug: the last position of a request is taken for the last byte, so for a file of whole blocks
-- the loop also tests the block number behind the file's last one. If that entry, which the file
-- does not use, is out of range, reading the file to its end fails, whatever the file's own block
-- numbers are.
pub read_data-whole_blocks :
    (s : Image) (inode k offset : ℕ)
    → inode < max_files
    → inode_length s inode ≡ k * block_size
    → offset < k * block_size
    → k * block_size < 2 ^ 32
    → s.num_data_blocks ≤ inode_block s inode k
    → read_data s inode offset (k * block_size - offset) ≡ (ones32, [])
read_data-whole_blocks s inode k offset hi size ho hk bad =
    read_data-bad_block s inode offset (k * block_size - offset) k hi (omega arith) (omega arith)
      (omega arith) (omega arith) bad

-- Reading `n` bytes that the file still has.
file_read_lem :
    (s : Image) (fp : FileEntry) (n : ℕ)
    → Fits s
    → fp.inode < max_files
    → fp.file_pos < inode_length s fp.inode
    → fp.file_pos + n ≤ inode_length s fp.inode
    → inode_length s fp.inode < ones32
    → GoodBlocks s fp.inode (fp.file_pos / block_size) ((fp.file_pos + n) / block_size + 1)
    → file_read s fp n
      ≡ (n, file_bytes s fp.inode fp.file_pos n, record fp { file_pos = fp.file_pos + n })
unfolding file_read
file_read_lem s fp n fits hi ho hn hs g =
    let end = min (inode_length s fp.inode) (fp.file_pos + n) in
    let e : end ≡ fp.file_pos + n = omega arith in
    let d : fp.file_pos + n - fp.file_pos ≡ n = omega arith in
    let ok : (n == ones32) ≡ false = ground arith in
    let pos : add32 fp.file_pos n ≡ fp.file_pos + n = omega arith in
    let whole = read_data_lem s fp.inode fp.file_pos n fits hi ho (omega arith) (rw e g) in
    rw (whole, e, d, ok, pos) refl

-- Two reads in a row, of `n` and of `m` bytes that the file still has, give the bytes that one read
-- of `n + m` gives, and leave the file position where that one leaves it.
pub file_read-append :
    (s : Image) (fp : FileEntry) (n m : ℕ)
    → Fits s
    → fp.inode < max_files
    → fp.file_pos + n < inode_length s fp.inode
    → fp.file_pos + n + m ≤ inode_length s fp.inode
    → inode_length s fp.inode < ones32
    → GoodBlocks s fp.inode (fp.file_pos / block_size) ((fp.file_pos + n + m) / block_size + 1)
    → let (r, first, mid) = file_read s fp n in
      let (r', second, last) = file_read s mid m in
      file_read s fp (n + m) ≡ (r + r', first ++ second, last)
file_read-append s fp n m fits hi hn hm hs g =
    let mid : FileEntry = record fp { file_pos = fp.file_pos + n } in
    rw
      (
        file_read_lem s fp n fits hi (omega arith) (omega arith) hs
            (λ j lo up. g j lo (omega arith)),
        file_read_lem s mid m fits hi hn hm hs (λ j lo up. g j (omega arith) up),
        file_read_lem s fp (n + m) fits hi (omega arith) (omega arith) hs
            (λ j lo up. g j lo (omega arith)),
        file_bytes-append s fp.inode n m (n + m) fp.file_pos (fp.file_pos + n) refl refl,
      )
      (ap
        (λ p. (
          n + m,
          file_bytes s fp.inode fp.file_pos n ++ file_bytes s fp.inode (fp.file_pos + n) m,
          record fp { file_pos = p },
        ))
        (omega arith))
