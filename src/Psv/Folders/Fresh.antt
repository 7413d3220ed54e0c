-- ===== src/Psv/Folders/Fresh.antt =====
-- What a folder that was just made holds.
use martian_os.Prelude.{ℕ, zero, suc, ◌≤◌, ◌≡◌, refl, get_or, List, replicate, arith}
use martian_os.Prelude.Int.{pos}
use martian_os.CString.{codes}
use martian_os.CString.Compare.{text, text_from}
use martian_os.CString.Copy.{strncpy_lem}
use martian_os.Psv.Types.{FolderTerm, FolderNode}
use martian_os.Psv.Volume.{zero_name, zero_fterm, zero_iterm}
use martian_os.Psv.Volume.Shape.{IsFterm}
use martian_os.Psv.Terms.{gen_fnode, gen_fterm}

-- A folder under `name` on node `idx`: it names itself "." and the folder of the term `parent` "..",
-- and has no other folder and no file.
pub record IsFresh (name : List ℕ) (idx : ℕ) (parent : FolderTerm) (g : FolderNode) : Type 0 where
  pub named : text 32 g.foldername ≡ text 32 name
  pub folders : g.num_fterm ≡ pos 2
  pub files : g.num_iterm ≡ pos 0
  pub self_used : (get_or g.fterms 0 zero_fterm).used ≡ 1
  pub self_name : text 32 (get_or g.fterms 0 zero_fterm).foldername ≡ codes "."
  pub self_node : (get_or g.fterms 0 zero_fterm).fnode_idx ≡ idx
  pub up_used : (get_or g.fterms 1 zero_fterm).used ≡ parent.used
  pub up_name : text 32 (get_or g.fterms 1 zero_fterm).foldername ≡ codes ".."
  pub up_node : (get_or g.fterms 1 zero_fterm).fnode_idx ≡ parent.fnode_idx
  pub no_folder : (j : ℕ) → 2 ≤ j → (get_or g.fterms j zero_fterm).used ≡ 0
  pub no_file : (j : ℕ) → (get_or g.iterms j zero_iterm).used ≡ 0

no_folders : (n j : ℕ) → (get_or (replicate n zero_fterm) j zero_fterm).used ≡ 0
no_folders zero j = refl
no_folders (suc n) zero = refl
no_folders (suc n) (suc j) = no_folders n j

no_files : (n j : ℕ) → (get_or (replicate n zero_iterm) j zero_iterm).used ≡ 0
no_files zero j = refl
no_files (suc n) zero = refl
no_files (suc n) (suc j) = no_files n j

no_other :
    (name : List ℕ) (idx : ℕ) (parent : FolderTerm) (j : ℕ)
    → 2 ≤ j
    → (get_or (gen_fnode name idx parent).fterms j zero_fterm).used ≡ 0
unfolding gen_fnode gen_fterm
no_other name idx parent zero lo = absurd (omega arith)
no_other name idx parent (suc zero) lo = absurd (omega arith)
no_other name idx parent (suc (suc j)) lo = no_folders 6 j

pub gen_fnode-IsFresh :
    (name : List ℕ) (idx : ℕ) (parent : FolderTerm)
    → IsFterm parent
    → IsFresh name idx parent (gen_fnode name idx parent)
unfolding gen_fnode gen_fterm text_from
gen_fnode-IsFresh name idx parent h = record {
  named = (strncpy_lem zero_name name 32 (omega arith)).0;
  folders = refl;
  files = refl;
  self_used = refl;
  self_name = (strncpy_lem zero_name (codes ".") 32 (omega arith)).0;
  self_node = refl;
  up_used = refl;
  up_name = (strncpy_lem parent.foldername (codes "..") 32 (omega (arith, h.name.long))).0;
  up_node = refl;
  no_folder = λ j lo. no_other name idx parent j lo;
  no_file = no_files 16;
}
