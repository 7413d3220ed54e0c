-- ===== src/Fs/Tests.antt =====
-- Runs of fs.c on a small image, and the theorems at concrete inputs.
use martian_os.Prelude.{List, some, ℕ, zero, suc, ◌≡◌, refl, [], ◌∷◌, ◌==◌, if◌then◌else◌, arith}
use martian_os.Prelude.Machine.{ones32}
use martian_os.Fs.{
  Image, FileEntry, regular_file_ops, in_use, inode_length, inode_block, slice, has_bad_block,
  copy_blocks, copy_range, read_data,
}
use martian_os.Fs.Read.{file_bytes, GoodBlocks}
use martian_os.Fs.Read.Pieces.{read_pieces, read_pieces-file_bytes}
use martian_os.Programs.Files.{concat}
use martian_os.Fs.Read.Result.{read_data_lem, read_data-bad_block}

-- Inode 0 at address 0: 5000 bytes in blocks 0 and 1, which start at 8192. Inode 1 at 4096: 4096
-- bytes in block 0, with 9, which is no block, behind it.
abbrev pub small_mem : ℕ → ℕ
small_mem a =
    if a == 0
    then 136
    else if a == 1
    then 19
    else if a == 8
    then 1
    else if a == 4097
    then 16
    else if a == 4104
    then 9
    else if a == 12287
    then 77
    else if a == 12288
    then 88
    else 0

abbrev pub small_image : Image
small_image = record {
  mem = small_mem;
  inode_start = 0;
  data_block_start = 8192;
  num_data_blocks = 2;
}

-- Four bytes across the border of the two blocks.
read_across : read_data small_image 0 4094 4 ≡ (4, 0 ∷ 77 ∷ 88 ∷ 0 ∷ [])
unfolding read_data inode_length inode_block has_bad_block copy_range copy_blocks slice
read_across = refl

read_behind_end : read_data small_image 0 5000 4 ≡ (0, [])
unfolding read_data inode_length
read_behind_end = refl

pub good_blocks : GoodBlocks small_image 0 0 2
unfolding inode_block
good_blocks zero lo hi = omega arith
good_blocks (suc zero) lo hi = omega arith
good_blocks (suc (suc j)) lo hi = absurd (omega arith)

read_data_lem_example : read_data small_image 0 4094 4 ≡ (4, file_bytes small_image 0 4094 4)
unfolding inode_length
read_data_lem_example =
    read_data_lem small_image 0 4094 4 (omega arith) (omega arith) (omega arith) (omega arith)
      good_blocks

read_data-bad_block_example : read_data small_image 1 4000 96 ≡ (ones32, [])
unfolding inode_length inode_block
read_data-bad_block_example =
    read_data-bad_block small_image 1 4000 96 1 (omega arith) (omega arith) (omega arith)
      (omega arith) (omega arith) (omega arith)

abbrev small_entry : FileEntry
small_entry = record { op_ptr = regular_file_ops; inode = 0; file_pos = 4090; flags = in_use }

read_pieces-file_bytes_example :
    (ps : List (List ℕ)) × (read_pieces 911 small_image small_entry 4 ≡ some ps)
    × (concat ps ≡ file_bytes small_image 0 4090 910)
unfolding inode_length
read_pieces-file_bytes_example =
    read_pieces-file_bytes 911 small_image small_entry 4 910 (omega arith) (omega arith)
      (omega arith) (omega arith) good_blocks refl (omega arith)
