-- ===== src/Psv/Folders/Into.antt =====
-- A folder that is made, and the way into it.
use martian_os.Prelude.{
  ℕ, ◌+◌, ◌<◌, ◌≡◌, ap, ◌∙◌, inl, inr, true, false, some, List, get_or, set, get_or-set, ◌==◌,
  step_some, arith,
}
use martian_os.Prelude.Int.{pos}
use martian_os.CString.Compare.{AreBytes}
use martian_os.Psv.Types.{FolderTerm, FolderNode, SuperBlock, HasMaps, folder, fterm_num_lim}
use martian_os.Psv.Bitmap.{is_free}
use martian_os.Psv.Location.{idx2lba}
use martian_os.Psv.Volume.{
  Layout, Volume, zero_fterm, read_fnode, write_fnode, write_sb, enter, success,
}
use martian_os.Psv.Volume.Shape.{IsFnode, Encodes}
use martian_os.Psv.Walk.{is_folder, find_folder, goin_part}
use martian_os.Psv.Terms.{gen_fterm, gen_fnode, self_of}
use martian_os.Psv.Folders.{with_sb, create_folder}
use martian_os.Psv.Folders.Create.{gen_fnode-IsFnode}
use martian_os.Psv.Folders.Fresh.{IsFresh, gen_fnode-IsFresh}
use martian_os.Psv.Folders.Made.{
  MadeOn, parent_with, volume_with, Created, create_folder-Created, new_found,
}

-- A node that was written is read.
read_written :
    (l : Layout) (f g : FolderNode) (idx : ℕ) (v : Volume l.Sector)
    → Encodes l
    → IsFnode g
    → is_free v.super_block folder idx ≡ false
    → read_fnode l f idx (write_fnode l g idx v) ≡ g
unfolding read_fnode write_fnode
read_written l f g idx v enc shape m =
    let lba = idx2lba (pos idx) folder in
    let t1 : (lba == lba) ≡ true = ground arith in
    let t2 : (lba + 1 == lba) ≡ false = ground arith in
    let t3 : (lba + 1 == lba + 1) ≡ true = ground arith in
    rw (m, t2, t1, t3) (enc.fnode_back g shape)

pub goin_part-found :
    (l : Layout) (name : List ℕ) (v : Volume l.Sector) (t : FolderTerm) (f : FolderNode)
    → find_folder v.current_folder.fterms name fterm_num_lim 0 ≡ some t
    → read_fnode l v.current_folder t.fnode_idx v ≡ f
    → goin_part l name v ≡ some (record v { current_folder = f })
unfolding goin_part enter
goin_part-found l name v t f e r =
    step_some (find_folder v.current_folder.fterms name fterm_num_lim 0) t
      (λ t. some (enter l t.fnode_idx v)) e
    ∙ ap (λ g. some (record v { current_folder = g })) r

-- Into the new folder.
go_new :
    (l : Layout) (f : FolderNode) (name : List ℕ) (v : Volume l.Sector) (idx k : ℕ)
    (sb : SuperBlock)
    → Encodes l
    → MadeOn l f name v idx k sb
    → IsFnode f
    → AreBytes name
    → is_folder name (get_or f.fterms 0 zero_fterm) ≡ false
    → is_folder name (get_or f.fterms 1 zero_fterm) ≡ false
    → let g = parent_with f name idx k in
      let w = volume_with l g name idx sb v in
      goin_part l name (record w { current_folder = g })
      ≡ some (record w { current_folder = gen_fnode name idx (get_or f.fterms 0 zero_fterm) })
unfolding volume_with gen_fterm parent_with write_sb write_fnode
go_new l f name v idx k sb enc new shape hn no0 no1 =
    let g = parent_with f name idx k in
    let w = volume_with l g name idx sb v in
    let found = new_found l f name v idx k sb new shape hn no0 no1 in
    let p = get_or f.fterms 0 zero_fterm in
    let first : get_or (set f.fterms k (gen_fterm name idx)) 0 zero_fterm ≡ p = ground (
      arith,
      get_or-set f.fterms k 0 (gen_fterm name idx) zero_fterm
          (omega (arith, shape.fterm_slots, new.slot_hi)),
      new.slot_lo,
    ) in
    let node =
      gen_fnode-IsFnode name idx p hn (omega (arith, new.in_range)) (shape.fterm_shapes 0) in
    goin_part-found l name (record w { current_folder = g }) (gen_fterm name idx)
      (gen_fnode name idx p) found
      (ap
          (λ q. read_fnode l g idx (
            write_fnode l (gen_fnode name idx q) idx
              (record (write_sb l (write_fnode l g (self_of g) (with_sb l sb v))) {
                current_folder = g;
              })))
          first
        ∙ read_written l g (gen_fnode name idx p) idx
            (record (write_sb l (write_fnode l g (self_of g) (with_sb l sb v))) {
              current_folder = g;
            })
            enc node new.now_taken)

-- When `create_folder` succeeds, going into the name from the folder as the call leaves it succeeds,
-- and leads to an empty folder: its node `idx` is one of the 32 that was free before, and the
-- folder has the name, that node under "." and the node of the folder it was made in under "..", and no other
-- folder and no file. The first two terms of the parent do not answer to the name, which is made of
-- bytes; the parent is well-formed, the maps have the declared sizes, and the layout copies structures to
-- the disk and back.
pub create_folder-goin_part :
    (l : Layout) (f : FolderNode) (name : List ℕ) (v : Volume l.Sector)
    → Encodes l
    → HasMaps v.super_block
    → IsFnode f
    → AreBytes name
    → is_folder name (get_or f.fterms 0 zero_fterm) ≡ false
    → is_folder name (get_or f.fterms 1 zero_fterm) ≡ false
    → (create_folder l f name v).0 ≡ success
    → (idx : ℕ) × (g : FolderNode) × (idx < 32)
      × (is_free v.super_block folder idx ≡ true)
      × (let w = record (create_folder l f name v).2 {
        current_folder = (create_folder l f name v).1;
      } in
          goin_part l name w ≡ some (record w { current_folder = g }))
      × IsFresh name idx (get_or f.fterms 0 zero_fterm) g
unfolding Created
create_folder-goin_part l f name v enc maps shape hn no0 no1 ok =
    elim (create_folder-Created l f name v maps) [
      | inl e ↦ absurd (ground (arith, e, ok))
      | inr (idx, k, sb, new, e1, e2) ↦ (
        idx,
        gen_fnode name idx (get_or f.fterms 0 zero_fterm),
        new.in_range,
        new.was_free,
        rw (e1, e2) (go_new l f name v idx k sb enc new shape hn no0 no1),
        gen_fnode-IsFresh name idx (get_or f.fterms 0 zero_fterm) (shape.fterm_shapes 0),
      )
    ]
