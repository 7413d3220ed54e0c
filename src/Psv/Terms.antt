-- ===== src/Psv/Terms.antt =====
-- PSV.c: the terms of a folder, which name its folders and its files, and the calls that make,
-- insert and delete them. A pointer to a folder node is the node before the call and after it.
pub mod Laws
pub mod Search
pub mod Names
pub mod Tests
use martian_os.Prelude.{
  ℕ, zero, suc, ◌+◌, ◌-◌, ◌*◌, Bool, true, false, ◌&&◌, Option, none, some, List, [], ◌∷◌, ◌++◌,
  get_or, set, replicate, ◌==◌, leb, if◌then◌else◌,
}
use martian_os.Prelude.Int.{ℤ, pos, negsuc, minus_one, sub_ℕ, eqb_ℤ, pos_part, neg_part}
use martian_os.CString.{codes, strncpy, strncmp}
use martian_os.Psv.Types.{
  FolderTerm, FileTerm, FolderNode, FileNode, folder, file, name_len_lim, fterm_num_lim,
  iterm_num_lim,
}
use martian_os.Psv.Volume.{
  Layout, Volume, zero_name, zero_fterm, zero_iterm, zero_fnode, zero_inode, write_fnode, success,
  fail,
}
use martian_os.Psv.Walk.{is_folder}

-- `SELF_IDX`, `PARENT_IDX` and `SUB_IDX`
abbrev pub self_idx : ℕ
self_idx = 0

abbrev pub parent_idx : ℕ
parent_idx = 1

abbrev pub sub_idx : ℕ
sub_idx = 2

unfoldable pub gen_fterm : List ℕ → ℕ → FolderTerm
gen_fterm name idx = record {
  used = 1;
  foldername = strncpy zero_name name name_len_lim;
  fnode_idx = idx;
}

pub gen_iterm : List ℕ → ℕ → FileTerm
gen_iterm name idx = record {
  used = 1;
  filename = strncpy zero_name name name_len_lim;
  inode_idx = idx;
}

pub gen_inode : FileNode
gen_inode = record zero_inode { len = 0 }

unfoldable pub gen_fnode : List ℕ → ℕ → FolderTerm → FolderNode
unfolding gen_fterm
gen_fnode name idx parent =
    let parent_t = record parent {
      foldername = strncpy parent.foldername (codes "..") name_len_lim;
    } in
    record zero_fnode {
      foldername = strncpy zero_name name name_len_lim;
      num_fterm = pos 2;
      num_iterm = pos 0;
      fterms = set (set zero_fnode.fterms self_idx (gen_fterm (codes ".") idx)) parent_idx parent_t;
    }

-- `fnode_p->fterms[SELF_IDX].fnode_idx`
abbrev pub self_of : FolderNode → ℕ
self_of f = (get_or f.fterms self_idx zero_fterm).fnode_idx

-- `n + 1` and `n - 1` of a count.
abbrev pub inc : ℤ → ℤ
inc n = sub_ℕ (pos_part n + 1) (neg_part n)

abbrev pub dec : ℤ → ℤ
dec n = sub_ℕ (pos_part n) (neg_part n + 1)

-- The loops over a table from index `i` on, with `n` rounds left: whether an element passes a test,
-- the first index of one that does, and the last one.
module _ {A : Type 0} where
  unfoldable pub any_at : (A → Bool) → A → List A → ℕ → ℕ → Bool
  any_at f d ts zero i = false
  any_at f d ts (suc n) i =
      let rest = any_at f d ts n (i + 1) in if f (get_or ts i d) then true else rest

  unfoldable pub first_at : (A → Bool) → A → List A → ℕ → ℕ → ℤ
  first_at f d ts zero i = minus_one
  first_at f d ts (suc n) i =
      let rest = first_at f d ts n (i + 1) in if f (get_or ts i d) then pos i else rest

  -- The loop of the deletions: each element that passes is changed, and the last index is kept.
  pub clear_at : (A → Bool) → (A → A) → A → ℕ → ℕ → ℤ → List A → ℤ × List A
  clear_at f g d zero i idx ts = (idx, ts)
  clear_at f g d (suc n) i idx ts =
      let found = f (get_or ts i d) in
      clear_at f g d n (i + 1) (if found then pos i else idx)
        (if found then set ts i (g (get_or ts i d)) else ts)

-- `0 == strncmp(fterms[i].foldername, name, NAME_LEN_LIM)`, used or not.
abbrev pub same_folder : List ℕ → FolderTerm → Bool
same_folder name t = eqb_ℤ (strncmp t.foldername name name_len_lim) (pos 0)

abbrev pub same_file : List ℕ → FileTerm → Bool
same_file name t = eqb_ℤ (strncmp t.filename name name_len_lim) (pos 0)

-- `iterm.used == 1 && !strncmp(iterm.filename, name, NAME_LEN_LIM)`
abbrev pub is_file : List ℕ → FileTerm → Bool
is_file name t = t.used == 1 && same_file name t

abbrev pub free_fterm : FolderTerm → Bool
free_fterm t = t.used == 0

abbrev pub free_iterm : FileTerm → Bool
free_iterm t = t.used == 0

-- The terms that `insert_fterm` looks at, from `SUB_IDX` on.
abbrev pub sub_num : ℕ
sub_num = fterm_num_lim - sub_idx

-- The node with a new term at the free index that was found, if one was found.
unfoldable pub fill_fterm : FolderNode → FolderTerm → ℤ → Option FolderNode
fill_fterm f t (negsuc n) = none
fill_fterm f t (pos i) = some (record f { fterms = set f.fterms i t; num_fterm = inc f.num_fterm })

pub fill_iterm : FolderNode → FileTerm → ℤ → Option FolderNode
fill_iterm f t (negsuc n) = none
fill_iterm f t (pos i) = some (record f { iterms = set f.iterms i t; num_iterm = inc f.num_iterm })

-- The node with a new term, where the checks let it in.
unfoldable pub add_fterm : FolderNode → FolderTerm → Option FolderNode
add_fterm f t =
    if any_at (same_folder t.foldername) zero_fterm f.fterms sub_num sub_idx
    then none
    else fill_fterm f t (first_at free_fterm zero_fterm f.fterms sub_num sub_idx)

pub add_iterm : FolderNode → FileTerm → Option FolderNode
add_iterm f t =
    if any_at (same_file t.filename) zero_iterm f.iterms iterm_num_lim 0
    then none
    else fill_iterm f t (first_at free_iterm zero_iterm f.iterms iterm_num_lim 0)

abbrev pub free_folder_term : FolderTerm → FolderTerm
free_folder_term t = record t { used = 0 }

abbrev pub free_file_term : FileTerm → FileTerm
free_file_term t = record t { used = 0 }

-- The index that the loop of `delete_fterm` finds, and the table it leaves.
abbrev pub clear_fterms : List ℕ → FolderNode → ℤ × List FolderTerm
clear_fterms name f =
    clear_at (is_folder name) free_folder_term zero_fterm sub_num sub_idx minus_one f.fterms

abbrev pub clear_iterms : List ℕ → FolderNode → ℤ × List FileTerm
clear_iterms name f =
    clear_at (is_file name) free_file_term zero_iterm iterm_num_lim 0 minus_one f.iterms

-- The node after the loops of the deletions.
abbrev pub without_fterm : FolderNode → List FolderTerm → FolderNode
without_fterm f ts = record f { fterms = ts; num_fterm = dec f.num_fterm }

abbrev pub without_iterm : FolderNode → List FileTerm → FolderNode
without_iterm f ts = record f { iterms = ts; num_iterm = dec f.num_iterm }

module _ (l : Layout) where
  open l use {Sector}

  -- What an insertion returns: the state, the node that `fnode_p` points to, and the volume.
  unfoldable pub put_node :
      FolderNode → Option FolderNode → Volume Sector → ℕ × FolderNode × Volume Sector
  put_node f none v = (fail, f, v)
  put_node f (some g) v = (success, g, write_fnode l g (self_of g) v)

  unfoldable pub insert_fterm :
      FolderNode → FolderTerm → Volume Sector → ℕ × FolderNode × Volume Sector
  insert_fterm f t v = put_node f (add_fterm f t) v

  pub insert_iterm : FolderNode → FileTerm → Volume Sector → ℕ × FolderNode × Volume Sector
  insert_iterm f t v = put_node f (add_iterm f t) v

  -- What a deletion returns, from the index that was found and the node without the term.
  unfoldable pub drop_node :
      FolderNode → ℤ → FolderNode → Volume Sector → ℤ × FolderNode × Volume Sector
  drop_node f idx g v =
      if eqb_ℤ idx minus_one then (minus_one, f, v) else (idx, g, write_fnode l g (self_of g) v)

  unfoldable pub delete_fterm : FolderNode → List ℕ → Volume Sector → ℤ × FolderNode × Volume Sector
  delete_fterm f name v =
      drop_node f (clear_fterms name f).0 (without_fterm f (clear_fterms name f).1) v

  pub delete_iterm : FolderNode → List ℕ → Volume Sector → ℤ × FolderNode × Volume Sector
  delete_iterm f name v =
      drop_node f (clear_iterms name f).0 (without_iterm f (clear_iterms name f).1) v
