-- ===== src/Psv/Folders.antt =====
-- PSV.c: how folders and files are made.
pub mod Create
pub mod Made
pub mod Fresh
pub mod Into
pub mod Tests
use martian_os.Prelude.{
  ℕ, zero, suc, ◌+◌, ◌-◌, Bool, true, false, not, Option, none, some, List, [], ◌∷◌, get_or, ◌==◌,
  if◌then◌else◌,
}
use martian_os.Prelude.Int.{ℤ, pos, negsuc, eqb_ℤ, ltb_ℤ}
use martian_os.CString.{strncpy}
use martian_os.Psv.Types.{
  FolderTerm, FolderNode, SuperBlock, folder, file, name_len_lim, fterm_num_lim, iterm_num_lim,
}
use martian_os.Psv.Bitmap.{get_free_bit, clear_bitmap}
use martian_os.Psv.Volume.{
  Layout, Volume, zero_name, zero_fterm, write_sb, write_fnode, write_inode, enter, success, fail,
}
use martian_os.Psv.Path.{PathT, split_path}
use martian_os.Psv.Walk.{goin_sp, last_name, parent_path}
use martian_os.Psv.Terms.{
  self_idx, self_of, gen_fterm, gen_iterm, gen_inode, gen_fnode, insert_fterm, insert_iterm,
}

-- `fnode_p->num_fterm >= FTERM_NUM_LIM`
abbrev pub full_fterms : FolderNode → Bool
full_fterms f = not (ltb_ℤ f.num_fterm (pos fterm_num_lim))

abbrev pub full_iterms : FolderNode → Bool
full_iterms f = not (ltb_ℤ f.num_iterm (pos iterm_num_lim))

module _ (l : Layout) where
  open l use {Sector}

  abbrev pub with_sb : SuperBlock → Volume Sector → Volume Sector
  with_sb sb v = record v { super_block = sb }

  -- What follows the choice of a free node: the term goes in, and the new node to the disk. The
  -- bit is cleared again where the term does not go in.
  pub add_folder : FolderNode → List ℕ → ℕ → Volume Sector → ℕ × FolderNode × Volume Sector
  add_folder f name idx v =
      let r = insert_fterm l f (gen_fterm name idx) v in
      let g = r.1 in
      let w = r.2 in
      if r.0 == fail
      then (fail, g, with_sb (clear_bitmap (pos idx) folder w.super_block).1 w)
      else (
        success,
        g,
        write_fnode l (gen_fnode name idx (get_or g.fterms self_idx zero_fterm)) idx (write_sb l w),
      )

  -- The new folder on the node that `get_free_bit` found, if it found one.
  pub folder_on :
      FolderNode → List ℕ → Volume Sector → ℤ × SuperBlock → ℕ × FolderNode × Volume Sector
  folder_on f name v (negsuc n, sb) = (fail, f, v)
  folder_on f name v (pos idx, sb) = add_folder f name idx (with_sb sb v)

  pub create_folder : FolderNode → List ℕ → Volume Sector → ℕ × FolderNode × Volume Sector
  create_folder f name v =
      if full_fterms f then (fail, f, v) else folder_on f name v (get_free_bit folder v.super_block)

  pub add_file : FolderNode → List ℕ → ℕ → Volume Sector → ℕ × FolderNode × Volume Sector
  add_file f name idx v =
      let r = insert_iterm l f (gen_iterm name idx) v in
      let w = r.2 in
      if r.0 == fail
      then (fail, r.1, with_sb (clear_bitmap (pos idx) file w.super_block).1 w)
      else (success, r.1, write_inode l gen_inode idx (write_sb l w))

  pub file_on :
      FolderNode → List ℕ → Volume Sector → ℤ × SuperBlock → ℕ × FolderNode × Volume Sector
  file_on f name v (negsuc n, sb) = (fail, f, v)
  file_on f name v (pos idx, sb) = add_file f name idx (with_sb sb v)

  pub create_file : FolderNode → List ℕ → Volume Sector → ℕ × FolderNode × Volume Sector
  create_file f name v =
      if full_iterms f then (fail, f, v) else file_on f name v (get_free_bit file v.super_block)

  -- The call with `&current_folder`, and the way back to the folder that was current before.
  abbrev pub back_from : ℕ → ℕ × FolderNode × Volume Sector → ℕ × Volume Sector
  back_from origin r = let w = record r.2 { current_folder = r.1 } in (r.0, enter l origin w)

  pub psv_create_folder : List ℕ → Volume Sector → ℕ × Volume Sector
  psv_create_folder path v =
      let p = split_path path in
      let name = strncpy zero_name (last_name [] p) name_len_lim in
      let r = goin_sp l (parent_path p) v in
      if not (ltb_ℤ (pos 0) p.num)
      then (fail, v)
      else if r.0 == fail
      then r
      else back_from (self_of v.current_folder) (create_folder r.1.current_folder name r.1)

  -- Of a path with no part `names[-1]` is the name; `before` as for `last_name`.
  pub psv_create_file : List ℕ → List ℕ → Volume Sector → ℕ × Volume Sector
  psv_create_file before path v =
      let p = split_path path in
      let name = strncpy zero_name (last_name before p) name_len_lim in
      let r = goin_sp l (parent_path p) v in
      if ltb_ℤ p.num (pos 0)
      then (fail, v)
      else if r.0 == fail
      then r
      else back_from (self_of v.current_folder) (create_file r.1.current_folder name r.1)
