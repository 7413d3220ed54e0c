-- ===== src/Psv/Folders/Create.antt =====
-- The shapes of new terms and nodes.
use martian_os.Prelude.{ℕ, refl, List, set, arith}
use martian_os.CString.{codes, strncpy}
use martian_os.CString.Compare.{AreBytes}
use martian_os.CString.Bytes.{are_bytes-AreBytes}
use martian_os.Psv.Types.{FolderTerm, name_len_lim, fterm_num_lim}
use martian_os.Psv.Volume.{zero_name, zero_fterm, zero_fnode, zero_iterm}
use martian_os.Psv.Volume.Shape.{IsFterm, IsIterm, IsFnode, Fits32}
use martian_os.Psv.Volume.Mount.{
  strncpy-IsName, zero_name-IsName, set-each, replicate-each, zero_fterm-IsFterm,
  zero_iterm-IsIterm,
}
use martian_os.Psv.Terms.{gen_fterm, gen_fnode}

-- The shapes of a new term and of a new node.
pub gen_fterm-IsFterm :
    (name : List ℕ) (idx : ℕ) → AreBytes name → Fits32 idx → IsFterm (gen_fterm name idx)
unfolding gen_fterm
gen_fterm-IsFterm name idx h k = record {
  used_byte = omega arith;
  name = strncpy-IsName zero_name name zero_name-IsName h;
  idx = k;
}

-- The term of the parent under the name "..".
parent_term-IsFterm :
    (t : FolderTerm)
    → IsFterm t
    → IsFterm (record t { foldername = strncpy t.foldername (codes "..") name_len_lim })
parent_term-IsFterm t h = record {
  used_byte = h.used_byte;
  name = strncpy-IsName t.foldername (codes "..") h.name (are_bytes-AreBytes (codes "..") refl);
  idx = h.idx;
}

pub gen_fnode-IsFnode :
    (name : List ℕ) (idx : ℕ) (parent : FolderTerm)
    → AreBytes name
    → Fits32 idx
    → IsFterm parent
    → IsFnode (gen_fnode name idx parent)
unfolding gen_fnode
gen_fnode-IsFnode name idx parent h k p = record {
  name = strncpy-IsName zero_name name zero_name-IsName h;
  fterm_count = (2, refl, omega arith);
  iterm_count = (0, refl, omega arith);
  fterm_slots = refl;
  iterm_slots = refl;
  fterm_shapes =
      set-each IsFterm (set zero_fnode.fterms 0 (gen_fterm (codes ".") idx)) 1
        (record parent { foldername = strncpy parent.foldername (codes "..") name_len_lim })
        zero_fterm (parent_term-IsFterm parent p)
        (set-each IsFterm zero_fnode.fterms 0 (gen_fterm (codes ".") idx) zero_fterm
          (gen_fterm-IsFterm (codes ".") idx (are_bytes-AreBytes (codes ".") refl) k)
          (replicate-each IsFterm fterm_num_lim zero_fterm zero_fterm-IsFterm));
  iterm_shapes = replicate-each IsIterm 16 zero_iterm zero_iterm-IsIterm;
}
