-- ===== src/Psv/Remove/Tests.antt =====
-- A folder in the root folder that is made and deleted.
use martian_os.Prelude.{◌<◌, ◌≡◌, refl, suc, false, some, arith}
use martian_os.CString.{strncmp}
use martian_os.CString.Bytes.{are_bytes-AreBytes}
use martian_os.Psv.Types.{FolderNode, folder}
use martian_os.Psv.Bitmap.{is_free, get_bitmap}
use martian_os.Psv.Volume.{Volume, success}
use martian_os.Psv.Volume.Setup.{setup_sb, setup_root, root_term}
use martian_os.Psv.Volume.Mount.{setup_sb-IsSb, setup_root-IsFnode}
use martian_os.Psv.Volume.Tests.{Slot, slots, slots-Encodes}
use martian_os.Psv.Terms.{self_of}
use martian_os.Psv.Folders.{create_folder}
use martian_os.Psv.Folders.Tests.{fresh_volume, home, made}
use martian_os.Psv.Remove.{is_dots, delete_folder}
use martian_os.Psv.Remove.Undo.{create_folder-delete_folder}

no_dots : is_dots home ≡ false
unfolding strncmp
no_dots = refl

root_self : self_of setup_root < 32
unfolding setup_root root_term
root_self = omega arith

root_marked : is_free setup_sb folder (self_of setup_root) ≡ false
unfolding setup_root root_term setup_sb get_bitmap
root_marked = refl

create_folder-delete_folder_example :
    (h : FolderNode) × (w : Volume Slot) × (delete_folder slots
        (suc 0)
        (create_folder slots setup_root home fresh_volume).1
        home
        (create_folder slots setup_root home fresh_volume).2
      ≡ some (success, h, w))
    × (is_free w.super_block folder 1 ≡ is_free setup_sb folder 1)
create_folder-delete_folder_example =
    create_folder-delete_folder slots setup_root home fresh_volume 0 1 folder slots-Encodes
      setup_sb-IsSb.maps setup_root-IsFnode (are_bytes-AreBytes home refl) no_dots root_self
      root_marked (omega arith) made
