-- ===== src/Psv/Volume/Tests.antt =====
-- A layout whose sectors remember what was put in them, for tests.
use martian_os.Prelude.{ℕ, ◌≡◌, refl, List, []}
use martian_os.Psv.Types.{FolderNode, FileNode, SuperBlock}
use martian_os.Psv.Volume.{Layout, Volume, zero_sb, zero_fnode, zero_inode}
use martian_os.Psv.Volume.Shape.{Encodes}
use martian_os.Psv.Volume.Setup.{setup_sb, setup_root, psv_setup, psv_mount}
use martian_os.Psv.Volume.Mount.{psv_mount-psv_setup}

-- A sector, by what it holds; a folder's second sector is `rest`.
pub data Slot : Type 0 where
  sb_slot : SuperBlock → Slot
  fnode_slot : FolderNode → Slot
  rest : Slot
  inode_slot : FileNode → Slot
  block_slot : List ℕ → Slot

abbrev pub slot_sb : Slot → SuperBlock
slot_sb (sb_slot s) = s
slot_sb _ = zero_sb

abbrev pub slot_fnode : Slot → Slot → FolderNode
slot_fnode (fnode_slot f) _ = f
slot_fnode _ _ = zero_fnode

abbrev pub slot_inode : Slot → FileNode
slot_inode (inode_slot f) = f
slot_inode _ = zero_inode

abbrev pub slot_block : Slot → List ℕ
slot_block (block_slot b) = b
slot_block _ = []

abbrev pub slots : Layout
slots = record {
  Sector = Slot;
  put_sb = sb_slot;
  get_sb = slot_sb;
  put_fnode = λ f. (fnode_slot f, rest);
  get_fnode = slot_fnode;
  put_inode = inode_slot;
  get_inode = slot_inode;
  put_block = block_slot;
  get_block = slot_block;
}

pub slots-Encodes : Encodes slots
slots-Encodes = record {
  sb_back = λ s h. refl;
  fnode_back = λ f h. refl;
  inode_back = λ f h. refl;
  block_back = λ b h k. refl;
}

abbrev pub blank : Volume Slot
blank = record { super_block = zero_sb; current_folder = zero_fnode; disk = λ a. rest }

psv_mount-psv_setup_example :
    ((psv_mount slots (psv_setup slots (λ a. block_slot []) blank)).super_block ≡ setup_sb)
    × ((psv_mount slots (psv_setup slots (λ a. block_slot []) blank)).current_folder ≡ setup_root)
psv_mount-psv_setup_example = psv_mount-psv_setup slots (λ a. block_slot []) blank slots-Encodes
