-- ===== src/Psv/Remove.antt =====
-- PSV.c: delete_folder and PSV_delete_folder. `none` as in `Content`, and where the fuel, one for
-- each level of folders, ends.
pub mod Empty
pub mod Undo
pub mod Tests
use martian_os.Prelude.{
  ℕ, zero, suc, ◌+◌, Bool, not, ◌||◌, Option, none, some, List, [], get_or, ◌==◌, if◌then◌else◌,
  ◌>>=◌,
}
use martian_os.Prelude.Int.{ℤ, pos, negsuc, eqb_ℤ, ltb_ℤ}
use martian_os.CString.{codes, strncpy, strncmp}
use martian_os.Psv.Types.{FolderNode, folder, name_len_lim, iterm_num_lim}
use martian_os.Psv.Bitmap.{clear_bitmap}
use martian_os.Psv.Volume.{
  Layout, Volume, zero_name, zero_fterm, zero_iterm, write_sb, enter, success, fail,
}
use martian_os.Psv.Path.{split_path}
use martian_os.Psv.Walk.{goin_sp, last_name, parent_path}
use martian_os.Psv.Terms.{self_of, delete_fterm, sub_num, sub_idx}
use martian_os.Psv.Folders.{with_sb}
use martian_os.Psv.Content.{delete_file}
use martian_os.Psv.Read.{local_fnode}

-- `!strncmp(name, ".", NAME_LEN_LIM) || !strncmp(name, "..", NAME_LEN_LIM)`
abbrev pub is_dots : List ℕ → Bool
is_dots name =
    eqb_ℤ (strncmp name (codes ".") name_len_lim) (pos 0)
    || eqb_ℤ (strncmp name (codes "..") name_len_lim) (pos 0)

-- The name in a file term or a folder term that is used.
abbrev pub file_name : FolderNode → ℕ → Option (List ℕ)
file_name d i =
    let t = get_or d.iterms i zero_iterm in if t.used == 1 then some t.filename else none

abbrev pub folder_name : FolderNode → ℕ → Option (List ℕ)
folder_name d i =
    let t = get_or d.fterms i zero_fterm in if t.used == 1 then some t.foldername else none

module _ (l : Layout) where
  open l use {Sector}

  abbrev pub Result : Type 0
  Result = Option (ℕ × FolderNode × Volume Sector)

  -- A deletion inside of the loops ends them when it fails.
  abbrev pub unless_failed :
      (FolderNode → Volume Sector → Result) → ℕ × FolderNode × Volume Sector → Result
  unless_failed later (zero, d, v) = some (fail, d, v)
  unless_failed later (suc n, d, v) = later d v

  -- What a term asks for: nothing, or the deletion of its name.
  abbrev pub maybe_delete :
      (FolderNode → List ℕ → Volume Sector → Result)
      → FolderNode
      → Volume Sector
      → Option (List ℕ)
      → Result
  maybe_delete delete d v none = some (success, d, v)
  maybe_delete delete d v (some name) = delete d name v

  -- The loops over the terms of the folder to delete, from index `i` on with `n` rounds left.
  pub delete_each :
      (FolderNode → List ℕ → Volume Sector → Result)
      → (FolderNode → ℕ → Option (List ℕ))
      → ℕ
      → ℕ
      → FolderNode
      → Volume Sector
      → Result
  delete_each delete name zero i d v = some (success, d, v)
  delete_each delete name (suc n) i d v =
      maybe_delete delete d v (name d i)
      >>= unless_failed (λ d' w. delete_each delete name n (i + 1) d' w)

  -- The last steps, when both loops are done.
  pub clear_folder : FolderNode → ℕ → FolderNode → Volume Sector → Result
  clear_folder g idx d v =
      some (success, g, write_sb l (with_sb l (clear_bitmap (pos idx) folder v.super_block).1 v))

  -- Where a loop failed, the parent is left as it was then.
  abbrev pub parent_after : FolderNode → (FolderNode → Volume Sector → Result) → Result → Result
  parent_after g later none = none
  parent_after g later (some (zero, d, v)) = some (fail, g, v)
  parent_after g later (some (suc n, d, v)) = later d v

  -- Both loops over the folder that was read, and the last steps.
  pub drop_tree :
      (FolderNode → List ℕ → Volume Sector → Result)
      → FolderNode
      → ℕ
      → Volume Sector
      → FolderNode
      → Result
  drop_tree delete g idx v del =
      parent_after g
        (λ d w.
          parent_after g (clear_folder g idx) (delete_each delete folder_name sub_num sub_idx d w))
        (delete_each (delete_file l) file_name iterm_num_lim 0 del v)

  -- What follows the deletion of the term, with the deletion of a subfolder as a function.
  pub drop_folder :
      (FolderNode → List ℕ → Volume Sector → Result) → ℤ × FolderNode × Volume Sector → Result
  drop_folder delete (negsuc n, g, v) = some (fail, g, v)
  drop_folder delete (pos i, g, v) =
      let idx = (get_or g.fterms i zero_fterm).fnode_idx in
      local_fnode l idx v >>= drop_tree delete g idx v

  pub delete_folder : ℕ → FolderNode → List ℕ → Volume Sector → Result
  delete_folder zero f name v = none
  delete_folder (suc n) f name v =
      let rest = drop_folder (λ d sub w. delete_folder n d sub w) (delete_fterm l f name v) in
      if is_dots name then some (fail, f, v) else rest

  pub psv_delete_folder : ℕ → List ℕ → Volume Sector → Option (ℕ × Volume Sector)
  psv_delete_folder fuel path v =
      let p = split_path path in
      let name = strncpy zero_name (last_name [] p) name_len_lim in
      let r = goin_sp l (parent_path p) v in
      if not (ltb_ℤ (pos 0) p.num) then some (fail, v) else if r.0 == fail then some r else do
        (state, g, w) ← delete_folder fuel r.1.current_folder name r.1
        some (
            if state == fail
            then (fail, record w { current_folder = g })
            else (state, enter l (self_of v.current_folder) (record w { current_folder = g })))
