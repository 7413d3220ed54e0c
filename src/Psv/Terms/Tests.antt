-- ===== src/Psv/Terms/Tests.antt =====
-- A term that is deleted from the root folder.
use martian_os.Prelude.{ℕ, ◌≡◌, refl, List, set, arith}
use martian_os.Prelude.Int.{pos}
use martian_os.CString.{codes, strncpy, strncmp}
use martian_os.CString.Bytes.{are_bytes-AreBytes}
use martian_os.Psv.Types.{FolderNode}
use martian_os.Psv.Volume.{zero_fterm}
use martian_os.Psv.Volume.Shape.{IsFnode, IsFterm}
use martian_os.Psv.Volume.Setup.{setup_root, root_term}
use martian_os.Psv.Volume.Mount.{setup_root-IsFnode, set-each}
use martian_os.Psv.Volume.Tests.{slots, blank}
use martian_os.Psv.Terms.{gen_fterm, delete_fterm, clear_at, drop_node}
use martian_os.Psv.Folders.Create.{gen_fterm-IsFterm}

abbrev home : List ℕ
home = codes "home"

-- The root folder with one folder in it.
abbrev with_home : FolderNode
with_home = record setup_root {
  num_fterm = pos 2;
  fterms = set setup_root.fterms 2 (gen_fterm home 1);
}

with_home-IsFnode : IsFnode with_home
unfolding setup_root
with_home-IsFnode = record {
  name = setup_root-IsFnode.name;
  fterm_count = (2, refl, omega arith);
  iterm_count = (0, refl, omega arith);
  fterm_slots = refl;
  iterm_slots = refl;
  fterm_shapes =
      set-each IsFterm setup_root.fterms 2 (gen_fterm home 1) zero_fterm
        (gen_fterm-IsFterm home 1 (are_bytes-AreBytes home refl) (omega arith))
        setup_root-IsFnode.fterm_shapes;
  iterm_shapes = setup_root-IsFnode.iterm_shapes;
}

home_found : (delete_fterm slots with_home home blank).0 ≡ pos 2
unfolding delete_fterm drop_node clear_at setup_root root_term gen_fterm strncpy strncmp
home_found = refl
