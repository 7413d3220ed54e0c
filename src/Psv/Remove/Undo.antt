-- ===== src/Psv/Remove/Undo.antt =====
-- A folder that is made and deleted again.
use martian_os.Prelude.{
  ℕ, suc, ◌<◌, ◌≡◌, ◌≢◌, refl, sym, ap, ◌∙◌, inl, inr, true, false, Bool-cases, some, List, get_or,
  set, get_or-set, length-set, length, ◌==◌, ◌&&◌, arith,
}
use martian_os.Prelude.Int.{pos}
use martian_os.CString.Compare.{AreBytes}
use martian_os.Psv.Types.{
  SType, FolderTerm, FolderNode, SuperBlock, HasMaps, folder, file, db, num_lim,
}
use martian_os.Psv.Bitmap.{is_free, clear_bitmap}
use martian_os.Psv.Bitmap.Laws.{same}
use martian_os.Psv.Bitmap.Free.{clear_bitmap-Marks}
use martian_os.Psv.Volume.{Layout, Volume, zero_fterm, zero_fnode, write_fnode, write_sb, success}
use martian_os.Psv.Volume.Shape.{IsFterm, IsFnode, Encodes}
use martian_os.Psv.Volume.Mount.{set-each}
use martian_os.Psv.Terms.{
  free_folder_term, without_fterm, drop_node, delete_fterm, gen_fterm, gen_fnode, self_of,
}
use martian_os.Psv.Terms.Laws.{get_or-set_ne}
use martian_os.Psv.Folders.{with_sb, create_folder}
use martian_os.Psv.Folders.Create.{gen_fterm-IsFterm, gen_fnode-IsFnode}
use martian_os.Psv.Folders.Made.{MadeOn, parent_with, volume_with, Created, create_folder-Created}
use martian_os.Psv.Read.{local_fnode}
use martian_os.Psv.Remove.{is_dots, clear_folder, drop_folder, delete_folder}
use martian_os.Psv.Remove.Empty.{read_past, cleared_table, drop_folder-new}

-- The parent and the volume behind the deletion of the term.
unfoldable parent_without : FolderNode → List ℕ → ℕ → ℕ → FolderNode
parent_without f name idx k =
    let g = parent_with f name idx k in
    without_fterm g (set g.fterms k (free_folder_term (get_or g.fterms k zero_fterm)))

unfoldable volume_without :
    (l : Layout) → FolderNode → List ℕ → ℕ → ℕ → SuperBlock → Volume l.Sector → Volume l.Sector
volume_without l f name idx k sb v =
    let h = parent_without f name idx k in
    write_fnode l h (self_of h) (volume_with l (parent_with f name idx k) name idx sb v)

true_not_false : true ≡ false → ⊥
true_not_false e = cc

module _ (l : Layout) (f : FolderNode) (name : List ℕ) (v : Volume l.Sector) (idx k : ℕ)
    (sb : SuperBlock) (new : MadeOn l f name v idx k sb) (shape : IsFnode f)
    (hn : AreBytes name) where
  delete_fterm-new :
      delete_fterm l
        (parent_with f name idx k)
        name
        (volume_with l (parent_with f name idx k) name idx sb v)
      ≡ (pos k, parent_without f name idx k, volume_without l f name idx k sb v)
  unfolding delete_fterm drop_node parent_without volume_without
  delete_fterm-new =
      let g = parent_with f name idx k in
      ap (λ r. drop_node l g r.0 (without_fterm g r.1) (volume_with l g name idx sb v))
        (cleared_table l f name v idx k sb new shape hn)

  freed_idx : (get_or (parent_without f name idx k).fterms k zero_fterm).fnode_idx ≡ idx
  unfolding parent_without parent_with gen_fterm
  freed_idx =
      let t = gen_fterm name idx in
      let ts = set f.fterms k t in
      let inside : k < length f.fterms = omega (arith, shape.fterm_slots, new.slot_hi) in
      let a =
        get_or-set ts k k (free_folder_term (get_or ts k zero_fterm)) zero_fterm
          (omega (arith, length-set f.fterms k t)) in
      let b = get_or-set f.fterms k k t zero_fterm inside in
      let a1 : get_or (set ts k (free_folder_term (get_or ts k zero_fterm))) k zero_fterm
          ≡ free_folder_term (get_or ts k zero_fterm) =
        ground (arith, a) in
      let b1 : get_or ts k zero_fterm ≡ t = ground (arith, b) in
      ap (λ (u : FolderTerm). u.fnode_idx) a1 ∙ ap (λ (u : FolderTerm). u.fnode_idx) b1

  -- The parent keeps its own term.
  own_idx : self_of (parent_without f name idx k) ≡ self_of f
  unfolding parent_without parent_with
  own_idx =
      let t = gen_fterm name idx in
      let ts = set f.fterms k t in
      let ne : k ≢ 0 = λ e. omega (arith, new.slot_lo, e) in
      ap (λ (u : FolderTerm). u.fnode_idx)
        (get_or-set_ne ts k 0 (free_folder_term (get_or ts k zero_fterm)) zero_fterm ne
          ∙ get_or-set_ne f.fterms k 0 t zero_fterm ne)

  parent_shape : IsFterm (get_or (parent_with f name idx k).fterms 0 zero_fterm)
  unfolding parent_with
  parent_shape =
      set-each IsFterm f.fterms k (gen_fterm name idx) zero_fterm
        (gen_fterm-IsFterm name idx hn (omega (arith, new.in_range))) shape.fterm_shapes 0

  new_node_read :
      Encodes l
      → self_of f < 32
      → self_of f ≢ idx
      → local_fnode l idx (volume_without l f name idx k sb v)
        ≡ some (gen_fnode name idx (get_or (parent_with f name idx k).fterms 0 zero_fterm))
  unfolding volume_without volume_with write_fnode write_sb
  new_node_read enc hs ne =
      let g = parent_with f name idx k in
      let h = parent_without f name idx k in
      let node =
        gen_fnode-IsFnode name idx (get_or g.fterms 0 zero_fterm) hn (omega (arith, new.in_range))
          parent_shape in
      let u = write_sb l (write_fnode l g (self_of g) (with_sb l sb v)) in
      rw new.now_taken (
        ap some (
          read_past l zero_fnode h (gen_fnode name idx (get_or g.fterms 0 zero_fterm)) (self_of h)
            idx u enc node (omega (arith, own_idx, hs)) new.in_range (λ e. ne (sym own_idx ∙ e))
            new.now_taken))

  was_free_there :
      (t : SType) (j : ℕ) → (same folder t && idx == j) ≡ true → is_free v.super_block t j ≡ true
  was_free_there folder j e =
      let p : idx ≡ j = ground arith in ap (is_free v.super_block folder) (sym p) ∙ new.was_free
  was_free_there file j e = absurd (cc)
  was_free_there db j e = absurd (cc)

  -- Clearing the bit undoes what finding it did.
  bits_back :
      (t : SType) (j : ℕ)
      → j < num_lim t
      → is_free (clear_bitmap (pos idx) folder sb).1 t j ≡ is_free v.super_block t j
  bits_back t j hj =
      let c = (clear_bitmap-Marks sb folder idx new.maps new.in_range).1 t j hj in
      let m = new.marks t j hj in
      elim (Bool-cases (same folder t && idx == j)) [
        | inl e ↦ c ∙ rw e (sym (was_free_there t j e))
        | inr e ↦ c ∙ rw e (m ∙ rw e refl)
      ]

  kept_sb : (volume_without l f name idx k sb v).super_block ≡ sb
  unfolding volume_without volume_with write_fnode write_sb
  kept_sb = refl

  delete_new :
      (n : ℕ)
      → Encodes l
      → is_dots name ≡ false
      → self_of f < 32
      → self_of f ≢ idx
      → delete_folder l
          (suc n)
          (parent_with f name idx k)
          name
          (volume_with l (parent_with f name idx k) name idx sb v)
        ≡ some (
          success,
          parent_without f name idx k,
          write_sb l
              (with_sb l (clear_bitmap (pos idx) folder sb).1 (volume_without l f name idx k sb v)),
        )
  unfolding delete_folder clear_folder
  delete_new n enc dots hs ne =
      let deeper =
        λ (d : FolderNode) (sub : List ℕ) (w : Volume l.Sector). delete_folder l n d sub w in
      rw dots (
        ap (drop_folder l deeper) delete_fterm-new
        ∙ drop_folder-new l deeper (parent_without f name idx k) name idx k
            (get_or (parent_with f name idx k).fterms 0 zero_fterm)
            (volume_without l f name idx k sb v) freed_idx (new_node_read enc hs ne)
        ∙ ap
            (λ s. some (
              success,
              parent_without f name idx k,
              write_sb l (
                  with_sb l (clear_bitmap (pos idx) folder s).1
                    (volume_without l f name idx k sb v)),
            ))
            kept_sb)

-- A folder that `create_folder` made can be deleted at once: `delete_folder` on its name, in the
-- parent as the creation leaves it, succeeds with fuel for one level, and then every node of every
-- kind is free or marked as it was before the creation. The name is of bytes and neither "." nor
-- "..", the parent is well-formed and stands on a marked folder node, the maps have the declared sizes,
-- and the layout copies structures to the disk and back.
pub create_folder-delete_folder :
    (l : Layout) (f : FolderNode) (name : List ℕ) (v : Volume l.Sector) (n j : ℕ) (t : SType)
    → Encodes l
    → HasMaps v.super_block
    → IsFnode f
    → AreBytes name
    → is_dots name ≡ false
    → self_of f < 32
    → is_free v.super_block folder (self_of f) ≡ false
    → j < num_lim t
    → (create_folder l f name v).0 ≡ success
    → (h : FolderNode) × (w : Volume l.Sector) × (delete_folder l
          (suc n)
          (create_folder l f name v).1
          name
          (create_folder l f name v).2
        ≡ some (success, h, w))
      × (is_free w.super_block t j ≡ is_free v.super_block t j)
unfolding Created write_sb
create_folder-delete_folder l f name v n j t enc maps shape hn dots hs marked hj ok =
    elim (create_folder-Created l f name v maps) [
      | inl e ↦ absurd (ground (arith, e, ok))
      | inr (idx, k, sb, new, e1, e2) ↦
          let ne : self_of f ≢ idx = λ p.
            true_not_false (sym (ap (is_free v.super_block folder) p ∙ new.was_free) ∙ marked) in
          (
            parent_without f name idx k,
            write_sb l (
                with_sb l (clear_bitmap (pos idx) folder sb).1
                  (volume_without l f name idx k sb v)),
            rw (e1, e2) (delete_new l f name v idx k sb new shape hn n enc dots hs ne),
            bits_back l f name v idx k sb new shape hn t j hj,
          )
    ]
