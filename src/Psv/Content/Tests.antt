-- ===== src/Psv/Content/Tests.antt =====
-- A file that is written and read.
use martian_os.Prelude.{ℕ, ◌<◌, ◌≡◌, ◌^◌, refl, true, false, List, [], take, replicate, some, arith}
use martian_os.Prelude.Int.{pos}
use martian_os.CString.{codes}
use martian_os.CString.Bytes.{are_bytes-AreBytes}
use martian_os.Psv.Types.{SuperBlock, file, db}
use martian_os.Psv.Bitmap.{is_free, get_bitmap, set_bitmap}
use martian_os.Psv.Bitmap.Sizes.{set_bitmap-HasMaps}
use martian_os.Psv.Volume.{Volume, zero_fnode, zero_inode}
use martian_os.Psv.Volume.Shape.{IsInode}
use martian_os.Psv.Volume.Setup.{setup_sb}
use martian_os.Psv.Volume.Mount.{setup_sb-IsSb, replicate-each}
use martian_os.Psv.Volume.Tests.{Slot, inode_slot, slots, slots-Encodes}
use martian_os.Psv.Content.{write_content, put_bytes}
use martian_os.Psv.Content.RoundTrip.{write_content-read_content}
use martian_os.Psv.Read.{read_content}

abbrev file_sb : SuperBlock
file_sb = (set_bitmap (pos 0) file setup_sb).1

abbrev file_volume : ℕ → Volume Slot
file_volume n = record {
  super_block = file_sb;
  current_folder = zero_fnode;
  disk = λ a. inode_slot (record zero_inode { len = n });
}

file_marked : is_free file_sb file 0 ≡ false
unfolding setup_sb get_bitmap set_bitmap
file_marked = refl

block_free : is_free file_sb db 0 ≡ true
unfolding setup_sb get_bitmap set_bitmap
block_free = refl

file_shape : IsInode zero_inode
file_shape = record {
  len_int = omega arith;
  slots = refl;
  blocks = replicate-each (λ n. n < 2 ^ 31) 126 0 (omega arith);
}

abbrev hello : List ℕ
hello = codes "hello"

write_content-read_content_example :
    (v1 : Volume Slot) × (write_content slots (pos 0) hello (pos 5) (file_volume 0)
      ≡ some (pos 5, v1))
    × (read_content slots (pos 0) (pos 0) (replicate 9 0) (pos 9) [] v1
        ≡ some (pos 5, put_bytes (replicate 9 0) 0 (take 5 hello)))
write_content-read_content_example =
    write_content-read_content slots hello (replicate 9 0) [] 0 5 0 9 (file_volume 0) slots-Encodes
      (set_bitmap-HasMaps (pos 0) file setup_sb setup_sb-IsSb.maps) (omega arith) file_marked
      file_shape (omega arith) (omega arith) block_free (omega arith) (omega arith) (omega arith)
      (are_bytes-AreBytes hello refl) (omega arith) (omega arith)
