-- ===== src/Psv/Path.antt =====
-- helper.c, "Path": the paths of the PSV volume, cut at the slashes. A pointer into a string is the
-- list from there on.
pub mod Flat
pub mod Scan
pub mod Split
pub mod Join
pub mod Bounds
pub mod Tests
use martian_os.Prelude.{
  length, ℕ, zero, suc, ◌+◌, ◌-◌, ◌*◌, Bool, true, false, ◌&&◌, List, [], ◌∷◌, ◌++◌, get_or, take,
  drop, replicate, ltb, ◌==◌, if◌then◌else◌,
}
use martian_os.Prelude.Int.{ℤ, pos, negsuc, eqb_ℤ, ltb_ℤ, pos_part}
use martian_os.CString.{strlen, strncpy, strncmp}
use martian_os.Psv.Types.{FolderTerm, FolderNode, name_len_lim, fnode_num_lim, fterm_num_lim}
use martian_os.Psv.Volume.{Layout, Volume, zero_fterm, enter, success, fail}

-- `path_t`. `names` is the table of 32 names of 32 bytes, as the 1024 bytes it stands in.
pub record PathT : Type 0 where
  pub num : ℤ
  pub abs : ℕ
  pub names : List ℕ

-- `path_sp.names[k]`
abbrev pub name_at : List ℕ → ℕ → List ℕ
name_at names k = drop (name_len_lim * k) names

pub is_abs : List ℕ → ℕ
is_abs path = if get_or path 0 0 == b'/' then 1 else 0

-- The memory from a name on, with what is behind the table as far as `n` bytes go.
abbrev pub room_for : ℕ → List ℕ → List ℕ
room_for n t = t ++ replicate (n - length t) 0

-- `strncpy(path_sp.names[path_sp.num], src, n); path_sp.num++;`. The copy does not stop at the end
-- of the name or of the table: `names` is longer than 1024 bytes where it has run over the table.
pub new_part : PathT → List ℕ → ℕ → PathT
new_part p src n =
    let k = pos_part p.num in
    record p {
      names = take (name_len_lim * k) p.names ++ strncpy (room_for n (name_at p.names k)) src n;
      num = pos (k + 1);
    }

-- The loop from index `i` on, with `n` rounds left; `beg` is `cur + 1`.
pub split_from : List ℕ → ℕ → ℕ → ℕ → PathT → PathT
split_from path zero i beg p = p
split_from path (suc n) i beg p =
    let after_slash = split_from path n (i + 1) (i + 1) (new_part p (drop beg path) (i - beg)) in
    let after_last = split_from path n (i + 1) (i + 1) (new_part p (drop beg path) (i + 1 - beg)) in
    let rest = split_from path n (i + 1) beg p in
    if get_or path i 0 == b'/'
    then (if i == beg then p else if ltb (pos_part p.num) fnode_num_lim then after_slash else p)
    else if i == strlen path - 1
    then (if ltb (pos_part p.num) fnode_num_lim then after_last else p)
    else rest

abbrev pub zero_path : ℕ → PathT
zero_path a = record { num = pos 0; abs = a; names = replicate 1024 0 }

pub split_path : List ℕ → PathT
split_path path =
    if is_abs path == 1
    then split_from (drop 1 path) (strlen (drop 1 path)) 0 0 (zero_path 1)
    else split_from path (strlen path) 0 0 (zero_path 0)
