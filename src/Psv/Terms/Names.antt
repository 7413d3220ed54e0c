-- ===== src/Psv/Terms/Names.antt =====
-- The names that a folder refuses.
use martian_os.Prelude.{ℕ, zero, suc, ◌≡◌, refl, ap, ◌∙◌, inl, inr, true, List, get_or, arith}
use martian_os.Prelude.Int.{ℤ, pos, negsuc, minus_one, eqb_ℤ}
use martian_os.CString.{strncpy, strncmp}
use martian_os.CString.Compare.{AreBytes}
use martian_os.CString.Bytes.{strncpy-AreBytes, zeros-AreBytes}
use martian_os.Psv.Types.{FolderTerm, FolderNode, name_len_lim}
use martian_os.Psv.Volume.{Layout, Volume, zero_name, zero_fterm, fail}
use martian_os.Psv.Volume.Shape.{IsFnode}
use martian_os.Psv.Walk.{is_folder}
use martian_os.Psv.Terms.{
  any_at, clear_fterms, free_folder_term, same_folder, gen_fterm, add_fterm, insert_fterm, put_node,
  delete_fterm, drop_node, without_fterm, sub_num, sub_idx,
}
use martian_os.Psv.Terms.Laws.{any_at-true, clear_at-names, clear_at-found}
use martian_os.Psv.Terms.Search.{strncmp_copy}

drop_node_result :
    (l : Layout) (f g : FolderNode) (idx : ℤ) (v : Volume l.Sector) (k : ℕ)
    → (drop_node l f idx g v).0 ≡ pos k
    → (idx ≡ pos k) × ((drop_node l f idx g v).1 ≡ g)
unfolding drop_node
drop_node_result l f g (pos i) v k e = (e, refl)
drop_node_result l f g (negsuc zero) v k e = absurd (cc)
drop_node_result l f g (negsuc (suc n)) v k e = absurd (ground arith)

-- The name that was deleted still stands in the table.
deleted_name :
    (f : FolderNode) (name : List ℕ) (k : ℕ)
    → IsFnode f
    → AreBytes name
    → (clear_fterms name f).0 ≡ pos k
    → any_at
        (same_folder (strncpy zero_name name name_len_lim))
        zero_fterm
        (clear_fterms name f).1
        sub_num
        sub_idx
      ≡ true
deleted_name f name k shape hn e =
    elim (clear_at-found (λ (t : FolderTerm). t.foldername)
      (λ a. eqb_ℤ (strncmp a name name_len_lim) (pos 0)) (is_folder name) free_folder_term
      zero_fterm sub_num sub_idx minus_one f.fterms (λ t. refl) (λ t h. ground arith)) [
        | inl r ↦ absurd (cc)
        | inr (j, r, lo, hi, z) ↦
            let same =
              clear_at-names (λ (t : FolderTerm). t.foldername) (is_folder name) free_folder_term
                zero_fterm sub_num sub_idx minus_one f.fterms j (λ t. refl) in
            let copy =
              strncmp_copy (get_or f.fterms j zero_fterm).foldername name
                (shape.fterm_shapes j).name.bytes hn
                (strncpy-AreBytes zero_name name name_len_lim (zeros-AreBytes 32) hn) in
            any_at-true (same_folder (strncpy zero_name name name_len_lim)) zero_fterm
              (clear_fterms name f).1 sub_num sub_idx j
              (ap
                  (λ a.
                    eqb_ℤ (strncmp a (strncpy zero_name name name_len_lim) name_len_lim) (pos 0))
                  same
                ∙ copy
                ∙ z)
              lo hi
      ]

-- A folder that was deleted cannot be made again: after `delete_fterm` found a term of a name and
-- freed it, `insert_fterm` refuses every new term of that name, and nothing changes. The check for
-- names that are there reads the terms that are not used, too. The folder is well-formed, and the name
-- is of bytes.
pub delete_fterm-insert_fterm :
    (l : Layout) (f : FolderNode) (name : List ℕ) (idx k : ℕ) (v w : Volume l.Sector)
    → IsFnode f
    → AreBytes name
    → (delete_fterm l f name v).0 ≡ pos k
    → insert_fterm l (delete_fterm l f name v).1 (gen_fterm name idx) w
      ≡ (fail, (delete_fterm l f name v).1, w)
unfolding insert_fterm put_node add_fterm gen_fterm delete_fterm
delete_fterm-insert_fterm l f name idx k v w shape hn e =
    let r =
      drop_node_result l f (without_fterm f (clear_fterms name f).1) (clear_fterms name f).0 v k
        e in
    let full = deleted_name f name k shape hn r.0 in rw (r.1, full) refl
