-- ===== src/Psv/Remove/Empty.antt =====
-- The deletion of a folder that was just made, step by step.
use martian_os.Prelude.{
  ℕ, ◌+◌, ◌<◌, ◌≡◌, ◌≢◌, refl, ap, ◌∙◌, true, false, Option, some, List, get_or, set, get_or-set,
  ◌==◌, ◌>>=◌, step_some, arith,
}
use martian_os.Prelude.Int.{pos, minus_one}
use martian_os.CString.Compare.{AreBytes}
use martian_os.Psv.Types.{FolderTerm, FolderNode, SuperBlock, folder}
use martian_os.Psv.Bitmap.{is_free}
use martian_os.Psv.Location.{idx2lba}
use martian_os.Psv.Volume.{Layout, Volume, zero_fterm, read_fnode, write_fnode, success}
use martian_os.Psv.Volume.Shape.{IsFnode, Encodes}
use martian_os.Psv.Walk.{is_folder}
use martian_os.Psv.Terms.{clear_fterms, free_folder_term, gen_fterm, gen_fnode, sub_num, sub_idx}
use martian_os.Psv.Terms.Laws.{clear_at_only}
use martian_os.Psv.Folders.Made.{MadeOn, parent_with, own_name, sub_name_differs}
use martian_os.Psv.Content.{delete_file}
use martian_os.Psv.Read.{local_fnode}
use martian_os.Psv.Remove.{
  file_name, folder_name, delete_each, clear_folder, parent_after, drop_tree, drop_folder,
}

-- The two sectors of one node are not those of another.
nodes_apart :
    (s idx : ℕ)
    → s < 32
    → idx < 32
    → s ≢ idx
    → let a = idx2lba (pos s) folder in
      let b = idx2lba (pos idx) folder in (a ≢ b) × (a + 1 ≢ b) × (a ≢ b + 1)
unfolding idx2lba
nodes_apart s idx hs hi ne = ground arith

-- Another node that is written does not change one that stands elsewhere.
pub read_past :
    (l : Layout) (x h g : FolderNode) (s idx : ℕ) (u : Volume l.Sector)
    → Encodes l
    → IsFnode g
    → s < 32
    → idx < 32
    → s ≢ idx
    → is_free u.super_block folder idx ≡ false
    → read_fnode l x idx (write_fnode l h s (write_fnode l g idx u)) ≡ g
unfolding read_fnode write_fnode
read_past l x h g s idx u enc shape hs hi ne m =
    let a = idx2lba (pos s) folder in
    let b = idx2lba (pos idx) folder in
    let (n1, n2, n3) = nodes_apart s idx hs hi ne in
    let t1 : (a == b) ≡ false = ground arith in
    let t2 : (a + 1 == b) ≡ false = ground arith in
    let t3 : (a == b + 1) ≡ false = ground arith in
    let t4 : (a + 1 == b + 1) ≡ false = ground arith in
    let t5 : (b == b) ≡ true = ground arith in
    let t6 : (b + 1 == b) ≡ false = ground arith in
    let t7 : (b + 1 == b + 1) ≡ true = ground arith in
    rw (m, t1, t2, t3, t4, t6, t5, t7) (enc.fnode_back g shape)

-- No term of a new folder asks for a deletion.
new_files :
    (l : Layout) (name : List ℕ) (idx : ℕ) (p : FolderTerm) (v : Volume l.Sector)
    → delete_each l (delete_file l) file_name 16 0 (gen_fnode name idx p) v
      ≡ some (success, gen_fnode name idx p, v)
unfolding delete_each gen_fnode
new_files l name idx p v = refl

new_folders :
    (l : Layout)
    (delete : FolderNode → List ℕ → Volume l.Sector → Option (ℕ × FolderNode × Volume l.Sector))
    (name : List ℕ) (idx : ℕ) (p : FolderTerm) (v : Volume l.Sector)
    → delete_each l delete folder_name sub_num sub_idx (gen_fnode name idx p) v
      ≡ some (success, gen_fnode name idx p, v)
unfolding delete_each gen_fnode
new_folders l delete name idx p v = refl

-- The table of the parent when the new term is deleted again.
pub cleared_table :
    (l : Layout) (f : FolderNode) (name : List ℕ) (v : Volume l.Sector) (idx k : ℕ)
    (sb : SuperBlock)
    → MadeOn l f name v idx k sb
    → IsFnode f
    → AreBytes name
    → let ts = (parent_with f name idx k).fterms in
      clear_fterms name (parent_with f name idx k)
      ≡ (pos k, set ts k (free_folder_term (get_or ts k zero_fterm)))
unfolding parent_with
cleared_table l f name v idx k sb new shape hn =
    let t = gen_fterm name idx in
    let ts = set f.fterms k t in
    let at = λ (j : ℕ).
      get_or-set f.fterms k j t zero_fterm (omega (arith, shape.fterm_slots, new.slot_hi)) in
    let here : get_or ts k zero_fterm ≡ t = ground (arith, at k) in
    clear_at_only (is_folder name) free_folder_term zero_fterm sub_num sub_idx minus_one ts k
      new.slot_lo (omega (arith, new.slot_hi)) (ap (is_folder name) here ∙ own_name name idx hn)
      (λ j lo hi ne.
        let there : get_or ts j zero_fterm ≡ get_or f.fterms j zero_fterm = ground (arith, at j) in
        ap (is_folder name) there
        ∙ sub_name_differs l f name v idx k sb new shape hn j lo (omega arith))

-- The new folder has nothing in it to delete.
drop_tree-new :
    (l : Layout)
    (delete : FolderNode → List ℕ → Volume l.Sector → Option (ℕ × FolderNode × Volume l.Sector))
    (h : FolderNode) (name : List ℕ) (idx : ℕ) (p : FolderTerm) (v : Volume l.Sector)
    → drop_tree l delete h idx v (gen_fnode name idx p)
      ≡ clear_folder l h idx (gen_fnode name idx p) v
unfolding drop_tree
drop_tree-new l delete h name idx p v =
    ap
      (parent_after l h (λ d w.
        parent_after l h (clear_folder l h idx)
          (delete_each l delete folder_name sub_num sub_idx d w)))
      (new_files l name idx p v)
    ∙ ap (parent_after l h (clear_folder l h idx)) (new_folders l delete name idx p v)

pub drop_folder-new :
    (l : Layout)
    (delete : FolderNode → List ℕ → Volume l.Sector → Option (ℕ × FolderNode × Volume l.Sector))
    (h : FolderNode) (name : List ℕ) (idx k : ℕ) (p : FolderTerm) (v : Volume l.Sector)
    → (get_or h.fterms k zero_fterm).fnode_idx ≡ idx
    → local_fnode l idx v ≡ some (gen_fnode name idx p)
    → drop_folder l delete (pos k, h, v) ≡ clear_folder l h idx (gen_fnode name idx p) v
unfolding drop_folder
drop_folder-new l delete h name idx k p v e loc =
    ap (λ i. local_fnode l i v >>= drop_tree l delete h i v) e
    ∙ step_some (local_fnode l idx v) (gen_fnode name idx p) (drop_tree l delete h idx v) loc
    ∙ drop_tree-new l delete h name idx p v
