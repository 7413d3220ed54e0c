-- ===== src/Psv/Folders/Made.antt =====
-- What the success of create_folder is made of.
use martian_os.Prelude.{
  ℕ, zero, suc, ◌<◌, ◌≤◌, ◌≡◌, refl, sym, ap, ◌∙◌, ◌⊎◌, inl, inr, Bool, true, false, Bool-cases,
  none, some, List, get_or, set, get_or-set, ◌==◌, ◌&&◌, arith,
}
use martian_os.Prelude.Int.{ℤ, pos, eqb_ℤ}
use mathlib.Core.Path.{subst}
use martian_os.CString.{strncpy, strncmp}
use martian_os.CString.Compare.{AreBytes, strncmp-zero_iff}
use martian_os.CString.Copy.{strncpy_lem}
use martian_os.CString.Bytes.{strncpy-AreBytes, zeros-AreBytes}
use martian_os.Psv.Types.{
  FolderTerm, FolderNode, SuperBlock, HasMaps, folder, name_len_lim, fterm_num_lim,
}
use martian_os.Psv.Bitmap.{is_free, get_free_bit}
use martian_os.Psv.Bitmap.Free.{Marks, get_free_bit-Allocates}
use martian_os.Psv.Volume.{Layout, Volume, zero_name, zero_fterm, write_fnode, write_sb, fail}
use martian_os.Psv.Volume.Shape.{IsFnode}
use martian_os.Psv.Walk.{is_folder, find_folder}
use martian_os.Psv.Terms.{
  any_at, free_fterm, same_folder, fill_fterm, gen_fterm, gen_fnode, add_fterm, insert_fterm,
  put_node, self_idx, self_of, inc, sub_num, sub_idx,
}
use martian_os.Psv.Terms.Laws.{any_at-false, first_at_cases}
use martian_os.Psv.Terms.Search.{find_folder-first, strncmp_copy}
use martian_os.Psv.Folders.{with_sb, add_folder, folder_on, create_folder, full_fterms}

-- What the success of `create_folder` is made of.
pub record MadeOn (l : Layout) (f : FolderNode) (name : List ℕ) (v : Volume l.Sector) (idx k : ℕ)
    (sb : SuperBlock) : Type 0 where
  pub found : get_free_bit folder v.super_block ≡ (pos idx, sb)
  pub in_range : idx < 32
  pub was_free : is_free v.super_block folder idx ≡ true
  pub now_taken : is_free sb folder idx ≡ false
  pub marks : Marks v.super_block sb folder idx false
  pub maps : HasMaps sb
  pub slot_lo : 2 ≤ k
  pub slot_hi : k < 8
  pub fresh :
      any_at (same_folder (gen_fterm name idx).foldername) zero_fterm f.fterms sub_num sub_idx
      ≡ false

-- The parent with the new term, and the volume after the call.
unfoldable pub parent_with : FolderNode → List ℕ → ℕ → ℕ → FolderNode
parent_with f name idx k = record f {
  fterms = set f.fterms k (gen_fterm name idx);
  num_fterm = inc f.num_fterm;
}

unfoldable pub volume_with :
    (l : Layout) → FolderNode → List ℕ → ℕ → SuperBlock → Volume l.Sector → Volume l.Sector
volume_with l g name idx sb v =
    write_fnode l (gen_fnode name idx (get_or g.fterms self_idx zero_fterm)) idx
      (write_sb l (write_fnode l g (self_of g) (with_sb l sb v)))

-- The term goes in, or the folder refuses it.
add_fterm_cases :
    (f : FolderNode) (t : FolderTerm)
    → (add_fterm f t ≡ none)
      ⊎ ((k : ℕ) × (add_fterm f t
            ≡ some (record f { fterms = set f.fterms k t; num_fterm = inc f.num_fterm }))
          × (2 ≤ k)
          × (k < 8)
          × (any_at (same_folder t.foldername) zero_fterm f.fterms sub_num sub_idx ≡ false))
unfolding add_fterm fill_fterm
add_fterm_cases f t =
    elim (Bool-cases (any_at (same_folder t.foldername) zero_fterm f.fterms sub_num sub_idx)) [
      | inl e ↦ inl (rw e refl)
      | inr e ↦ elim (first_at_cases free_fterm zero_fterm f.fterms sub_num sub_idx) [
        | inl m ↦ inl (rw e (ap (fill_fterm f t) m))
        | inr (k, m, lo, hi, p) ↦ inr (k, rw e (ap (fill_fterm f t) m), lo, hi, e)
      ]
    ]

unfoldable pub Created :
    (l : Layout) → FolderNode → List ℕ → Volume l.Sector → ℕ × FolderNode × Volume l.Sector → Type 0
Created l f name v r =
    (r.0 ≡ fail)
    ⊎ ((idx : ℕ) × (k : ℕ) × (sb : SuperBlock) × MadeOn l f name v idx k sb
        × (r.1 ≡ parent_with f name idx k)
        × (r.2 ≡ volume_with l (parent_with f name idx k) name idx sb v))

add_folder-Created :
    (l : Layout) (f : FolderNode) (name : List ℕ) (v : Volume l.Sector) (idx : ℕ) (sb : SuperBlock)
    → get_free_bit folder v.super_block ≡ (pos idx, sb)
    → idx < 32
    → is_free v.super_block folder idx ≡ true
    → is_free sb folder idx ≡ false
    → Marks v.super_block sb folder idx false
    → HasMaps sb
    → Created l f name v (add_folder l f name idx (with_sb l sb v))
unfolding add_folder insert_fterm Created put_node parent_with volume_with
add_folder-Created l f name v idx sb found range was now marks maps =
    elim (add_fterm_cases f (gen_fterm name idx)) [
      | inl e ↦ inl (rw e refl)
      | inr (k, e, lo, hi, fresh) ↦ inr (
        idx,
        k,
        sb,
        record {
          found = found;
          in_range = range;
          was_free = was;
          now_taken = now;
          marks = marks;
          maps = maps;
          slot_lo = lo;
          slot_hi = hi;
          fresh = fresh;
        },
        rw e refl,
        rw e refl,
      )
    ]

pub create_folder-Created :
    (l : Layout) (f : FolderNode) (name : List ℕ) (v : Volume l.Sector)
    → HasMaps v.super_block
    → Created l f name v (create_folder l f name v)
unfolding create_folder folder_on Created
create_folder-Created l f name v w = elim (Bool-cases (full_fterms f)) [
  | inl full ↦ inl (rw full refl)
  | inr room ↦ rw room (elim (get_free_bit-Allocates folder v.super_block w) [
    | inl (e, same_sb, taken) ↦
        inl (ap (λ (z : ℤ). (folder_on l f name v (z, (get_free_bit folder v.super_block).1)).0) e)
    | inr (idx, e, hi, was, taken, m, maps) ↦
        let sb = (get_free_bit folder v.super_block).1 in
        let found : get_free_bit folder v.super_block ≡ (pos idx, sb) = ap (λ (z : ℤ). (z, sb)) e in
        let now = m folder idx hi in
        subst (Created l f name v) (sym (ap (folder_on l f name v) found))
          (add_folder-Created l f name v idx sb found hi was (ground (arith, now)) m maps)
  ])
]

and_false : (a b : Bool) → b ≡ false → (a && b) ≡ false
and_false true b e = e
and_false false b e = refl

pub own_name :
    (name : List ℕ) (idx : ℕ) → AreBytes name → is_folder name (gen_fterm name idx) ≡ true
unfolding gen_fterm
own_name name idx hn =
    let copy = strncpy_lem zero_name name 32 (omega arith) in
    let bytes = strncpy-AreBytes zero_name name 32 (zeros-AreBytes 32) hn in
    let e = (strncmp-zero_iff (strncpy zero_name name 32) name 32 bytes hn).1 copy.0 in rw e refl

-- Every term from the first subfolder on that the check let pass has another name.
pub sub_name_differs :
    (l : Layout) (f : FolderNode) (name : List ℕ) (v : Volume l.Sector) (idx k : ℕ)
    (sb : SuperBlock)
    → MadeOn l f name v idx k sb
    → IsFnode f
    → AreBytes name
    → (j : ℕ) → 2 ≤ j
    → j < 8
    → is_folder name (get_or f.fterms j zero_fterm) ≡ false
unfolding gen_fterm
sub_name_differs l f name v idx k sb new shape hn j lo h =
    let t = get_or f.fterms j zero_fterm in
    let copy =
      strncmp_copy t.foldername name (shape.fterm_shapes j).name.bytes hn
        (strncpy-AreBytes zero_name name 32 (zeros-AreBytes 32) hn) in
    let differs =
      any_at-false (same_folder (strncpy zero_name name name_len_lim)) zero_fterm f.fterms sub_num
        sub_idx j new.fresh lo (omega arith) in
    and_false (t.used == 1) (eqb_ℤ (strncmp t.foldername name 32) (pos 0)) (sym copy ∙ differs)

other_name :
    (l : Layout) (f : FolderNode) (name : List ℕ) (v : Volume l.Sector) (idx k : ℕ)
    (sb : SuperBlock)
    → MadeOn l f name v idx k sb
    → IsFnode f
    → AreBytes name
    → is_folder name (get_or f.fterms 0 zero_fterm) ≡ false
    → is_folder name (get_or f.fterms 1 zero_fterm) ≡ false
    → (j : ℕ) → j < 8
    → is_folder name (get_or f.fterms j zero_fterm) ≡ false
other_name l f name v idx k sb new shape hn no0 no1 zero h = no0
other_name l f name v idx k sb new shape hn no0 no1 (suc zero) h = no1
other_name l f name v idx k sb new shape hn no0 no1 (suc (suc j)) h =
    sub_name_differs l f name v idx k sb new shape hn (suc (suc j)) (omega arith) h

-- The new term is the only one in its table that its name finds.
pub new_found :
    (l : Layout) (f : FolderNode) (name : List ℕ) (v : Volume l.Sector) (idx k : ℕ)
    (sb : SuperBlock)
    → MadeOn l f name v idx k sb
    → IsFnode f
    → AreBytes name
    → is_folder name (get_or f.fterms 0 zero_fterm) ≡ false
    → is_folder name (get_or f.fterms 1 zero_fterm) ≡ false
    → find_folder (parent_with f name idx k).fterms name fterm_num_lim 0 ≡ some (gen_fterm name idx)
unfolding parent_with
new_found l f name v idx k sb new shape hn no0 no1 =
    let t = gen_fterm name idx in
    let at = λ (j : ℕ).
      get_or-set f.fterms k j t zero_fterm (omega (arith, shape.fterm_slots, new.slot_hi)) in
    let here : get_or (set f.fterms k t) k zero_fterm ≡ t = ground (arith, at k) in
    find_folder-first (set f.fterms k t) name fterm_num_lim 0 k (omega arith)
      (omega (arith, new.slot_hi)) (ap (is_folder name) here ∙ own_name name idx hn)
      (λ j lo hi.
        let there : get_or (set f.fterms k t) j zero_fterm ≡ get_or f.fterms j zero_fterm =
          ground (arith, at j) in
        ap (is_folder name) there
        ∙ other_name l f name v idx k sb new shape hn no0 no1 j (omega (arith, new.slot_hi)))
    ∙ ap some here
