-- ===== src/Psv/Folders/Tests.antt =====
-- A folder in the root folder.
use martian_os.Prelude.{ℕ, ◌<◌, ◌≡◌, refl, true, false, List, some, get_or}
use martian_os.CString.{codes, strncpy, strncmp}
use martian_os.CString.Bytes.{are_bytes-AreBytes}
use martian_os.Psv.Types.{FolderNode, folder}
use martian_os.Psv.Bitmap.{is_free, get_free_bit}
use martian_os.Psv.Volume.{Volume, zero_fterm, success}
use martian_os.Psv.Volume.Setup.{setup_sb, setup_root, root_term}
use martian_os.Psv.Volume.Mount.{setup_sb-IsSb, setup_root-IsFnode}
use martian_os.Psv.Volume.Tests.{Slot, rest, slots, slots-Encodes}
use martian_os.Psv.Walk.{is_folder, goin_part}
use martian_os.Psv.Terms.{
  gen_fterm, insert_fterm, put_node, add_fterm, fill_fterm, any_at, first_at,
}
use martian_os.Psv.Folders.{create_folder, folder_on, add_folder}
use martian_os.Psv.Folders.Fresh.{IsFresh}
use martian_os.Psv.Folders.Into.{create_folder-goin_part}

abbrev pub fresh_volume : Volume Slot
fresh_volume = record { super_block = setup_sb; current_folder = setup_root; disk = λ a. rest }

abbrev pub home : List ℕ
home = codes "home"

pub made : (create_folder slots setup_root home fresh_volume).0 ≡ success
unfolding create_folder folder_on add_folder insert_fterm put_node add_fterm fill_fterm gen_fterm
    any_at first_at setup_root setup_sb get_free_bit root_term strncpy strncmp
made = refl

not_self : is_folder home (get_or setup_root.fterms 0 zero_fterm) ≡ false
unfolding setup_root root_term strncpy strncmp
not_self = refl

not_parent : is_folder home (get_or setup_root.fterms 1 zero_fterm) ≡ false
unfolding setup_root root_term strncpy strncmp
not_parent = refl

create_folder-goin_part_example :
    (idx : ℕ) × (g : FolderNode) × (idx < 32)
    × (is_free setup_sb folder idx ≡ true)
    × (let w = record (create_folder slots setup_root home fresh_volume).2 {
      current_folder = (create_folder slots setup_root home fresh_volume).1;
    } in
        goin_part slots home w ≡ some (record w { current_folder = g }))
    × IsFresh home idx (get_or setup_root.fterms 0 zero_fterm) g
create_folder-goin_part_example =
    create_folder-goin_part slots setup_root home fresh_volume slots-Encodes setup_sb-IsSb.maps
      setup_root-IsFnode (are_bytes-AreBytes home refl) not_self not_parent made
