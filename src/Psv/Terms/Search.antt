-- ===== src/Psv/Terms/Search.antt =====
-- The search for a folder by its name.
use martian_os.Prelude.{
  ℕ, zero, suc, ◌+◌, ◌<◌, ◌≤◌, ◌≡◌, ◌↔◌, sym, ap, ◌∙◌, inl, inr, true, false, Bool-cases, some,
  List, get_or, ◌==◌, arith,
}
use martian_os.Prelude.Int.{ℤ, pos, eqb_ℤ}
use martian_os.CString.{strncpy, strncmp}
use martian_os.CString.Compare.{AreBytes, strncmp-zero_iff}
use martian_os.CString.Copy.{strncpy_lem}
use martian_os.Psv.Types.{FolderTerm}
use martian_os.Psv.Volume.{zero_name, zero_fterm}
use martian_os.Psv.Walk.{is_folder, find_folder}

-- The first folder that passes is found.
pub find_folder-first :
    (ts : List FolderTerm) (name : List ℕ) (n i k : ℕ)
    → i ≤ k
    → k < i + n
    → is_folder name (get_or ts k zero_fterm) ≡ true
    → ((j : ℕ) → i ≤ j → j < k → is_folder name (get_or ts j zero_fterm) ≡ false)
    → find_folder ts name n i ≡ some (get_or ts k zero_fterm)
unfolding find_folder
find_folder-first ts name zero i k lo hi e h = absurd (omega arith)
find_folder-first ts name (suc n) i k lo hi e h = elim (Bool-cases (i == k)) [
  | inl here ↦
      let p : i ≡ k = ground arith in
      rw (ap (λ j. is_folder name (get_or ts j zero_fterm)) p ∙ e)
        (ap (λ j. some (get_or ts j zero_fterm)) p)
  | inr away ↦ rw (h i (omega arith) (ground arith)) (
      find_folder-first ts name n (i + 1) k (ground arith) (omega arith) e
        (λ j a b. h j (omega arith) b))
]

eqb_iff : (x y : ℤ) → (x ≡ pos 0) ↔ (y ≡ pos 0) → eqb_ℤ x (pos 0) ≡ eqb_ℤ y (pos 0)
eqb_iff x y i = ground (arith, i.0, i.1)

-- A copy of a name compares as the name does.
strncmp_copy_iff :
    (a name : List ℕ)
    → AreBytes a
    → AreBytes name
    → AreBytes (strncpy zero_name name 32)
    → (strncmp a (strncpy zero_name name 32) 32 ≡ pos 0) ↔ (strncmp a name 32 ≡ pos 0)
strncmp_copy_iff a name ha hn hc =
    let same = (strncpy_lem zero_name name 32 (omega arith)).0 in
    let x = strncmp-zero_iff a (strncpy zero_name name 32) 32 ha hc in
    let y = strncmp-zero_iff a name 32 ha hn in
    (λ e. y.1 (x.0 e ∙ same), λ e. x.1 (y.0 e ∙ sym same))

pub strncmp_copy :
    (a name : List ℕ)
    → AreBytes a
    → AreBytes name
    → AreBytes (strncpy zero_name name 32)
    → eqb_ℤ (strncmp a (strncpy zero_name name 32) 32) (pos 0) ≡ eqb_ℤ (strncmp a name 32) (pos 0)
strncmp_copy a name ha hn hc =
    let i = strncmp_copy_iff a name ha hn hc in
    eqb_iff (strncmp a (strncpy zero_name name 32) 32) (strncmp a name 32) i
