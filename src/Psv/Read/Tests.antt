-- ===== src/Psv/Read/Tests.antt =====
-- A root folder that is read.
use martian_os.Prelude.{ℕ, ◌≡◌, refl, false, List, some, map, replicate, arith}
use martian_os.CString.Compare.{text}
use martian_os.Fs.{FileEntry, psv_folder_ops, in_use}
use martian_os.Psv.Types.{folder}
use martian_os.Psv.Bitmap.{is_free, get_bitmap}
use martian_os.Psv.Volume.{Volume, zero_fnode, read_fnode}
use martian_os.Psv.Volume.Setup.{setup_sb, setup_root}
use martian_os.Psv.Volume.Tests.{Slot, fnode_slot, slots}
use martian_os.Psv.Read.Listing.{names_from}
use martian_os.Psv.Read.Stream.{read_all, psv_folder_read-lists}

abbrev root_volume : Volume Slot
root_volume = record {
  super_block = setup_sb;
  current_folder = setup_root;
  disk = λ a. fnode_slot setup_root;
}

abbrev open_root : FileEntry
open_root = record { op_ptr = psv_folder_ops; inode = 0; file_pos = 0; flags = in_use }

root_marked : is_free setup_sb folder 0 ≡ false
unfolding setup_sb get_bitmap
root_marked = refl

root_read : read_fnode slots zero_fnode 0 root_volume ≡ setup_root
unfolding read_fnode setup_sb get_bitmap
root_read = refl

psv_folder_read-lists_example :
    (outs : List (List ℕ)) × (read_all slots 25 open_root (replicate 33 0) root_volume ≡ some outs)
    × (map (text 32) outs ≡ map (text 32) (names_from setup_root 0))
unfolding setup_root
psv_folder_read-lists_example =
    psv_folder_read-lists slots 25 open_root (replicate 33 0) root_volume setup_root root_marked
      root_read refl refl (omega arith) (omega arith)
