-- ===== src/Psv/Walk.antt =====
-- helper.c, "Path": how the current folder follows a path.
pub mod Parts
pub mod Tests
use martian_os.Prelude.{
  ℕ, zero, suc, ◌+◌, ◌-◌, Bool, ◌&&◌, Option, none, some, List, [], ◌∷◌, ◌++◌, get_or, ◌==◌,
  if◌then◌else◌, ◌>>=◌,
}
use martian_os.Prelude.Int.{pos, sub_ℕ, eqb_ℤ, pos_part}
use martian_os.CString.{strncpy, strncmp}
use martian_os.Psv.Types.{FolderTerm, name_len_lim, fterm_num_lim}
use martian_os.Psv.Volume.{Layout, Volume, zero_fterm, enter, success, fail}
use martian_os.Psv.Path.{PathT, name_at, split_path}

-- `fterm.used == 1 && !strncmp(fterm.foldername, name, NAME_LEN_LIM)`
abbrev pub is_folder : List ℕ → FolderTerm → Bool
is_folder name t = t.used == 1 && eqb_ℤ (strncmp t.foldername name name_len_lim) (pos 0)

-- The loop over the terms from index `j` on, with `n` rounds left: the term at which it breaks.
unfoldable pub find_folder : List FolderTerm → List ℕ → ℕ → ℕ → Option FolderTerm
find_folder terms name zero j = none
find_folder terms name (suc n) j =
    let rest = find_folder terms name n (j + 1) in
    if is_folder name (get_or terms j zero_fterm) then some (get_or terms j zero_fterm) else rest

-- `path_sp.num--`
abbrev pub parent_path : PathT → PathT
parent_path p = record p { num = sub_ℕ (pos_part p.num) 1 }

-- `path_sp.names[path_sp.num - 1]`. With no part it is what stands in front of the names: `before`
-- is the 24 bytes in front of the structure, and `num` and `abs` follow them.
pub last_name : List ℕ → PathT → List ℕ
last_name before p =
    if eqb_ℤ p.num (pos 0)
    then before ++ (0 ∷ 0 ∷ 0 ∷ 0 ∷ p.abs ∷ 0 ∷ 0 ∷ 0 ∷ [])
    else name_at p.names (pos_part p.num - 1)

pub get_filename_from_path : List ℕ → List ℕ → List ℕ → List ℕ
get_filename_from_path before filename path =
    strncpy filename (last_name before (split_path path)) name_len_lim

module _ (l : Layout) where
  open l use {Sector}

  -- One part of the path: the folder of that name, if it is there.
  unfoldable pub goin_part : List ℕ → Volume Sector → Option (Volume Sector)
  goin_part name v = do
    t ← find_folder v.current_folder.fterms name fterm_num_lim 0
    some (enter l t.fnode_idx v)

  -- What follows a part, with the later parts as a function.
  abbrev pub go_on :
      Volume Sector
      → (Volume Sector → ℕ × Volume Sector)
      → Option (Volume Sector)
      → ℕ × Volume Sector
  go_on v later none = (fail, v)
  go_on v later (some w) = later w

  -- The loop over the parts from index `i` on, with `n` rounds left.
  pub goin_from : List ℕ → ℕ → ℕ → Volume Sector → ℕ × Volume Sector
  goin_from names zero i v = (success, v)
  goin_from names (suc n) i v =
      go_on v (λ w. goin_from names n (i + 1) w) (goin_part (name_at names i) v)

  pub goin_sp : PathT → Volume Sector → ℕ × Volume Sector
  goin_sp p v = goin_from p.names (pos_part p.num) 0 (if p.abs == 0 then v else enter l 0 v)

  pub goin : List ℕ → Volume Sector → ℕ × Volume Sector
  goin path v = goin_sp (split_path path) v
