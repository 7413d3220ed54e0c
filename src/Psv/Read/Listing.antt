-- ===== src/Psv/Read/Listing.antt =====
-- Reading a folder name by name, against the list of the names in it.
use martian_os.Prelude.{
  ℕ, zero, suc, ◌+◌, ◌-◌, ◌<◌, ◌≤◌, ◌≡◌, refl, sym, ap, ◌∙◌, ◌⊎◌, inl, inr, Bool, Bool-cases,
  Option, none, some, List, [], ◌∷◌, ◌++◌, length, get_or, drop, ltb, ◌==◌, if◌then◌else◌, arith,
}
use martian_os.Psv.Types.{FolderTerm, FileTerm, FolderNode, fterm_num_lim}
use martian_os.Psv.Volume.{zero_fterm, zero_iterm}
use martian_os.Psv.Read.{next_at, next_name, next_folder, next_file, after_folders}

module _ {A : Type 0} where
  -- The names in the used terms, in order.
  abbrev pub names_of : (A → Bool) → (A → List ℕ) → List A → List (List ℕ)
  names_of used name [] = []
  names_of used name (t ∷ ts) =
      if used t then name t ∷ names_of used name ts else names_of used name ts

  -- What the loop finds from index `i` on: nothing, where no name is left, or the first name that is
  -- left, and the names behind it are those from the index behind it on.
  NextOf : (A → Bool) → (A → List ℕ) → List A → ℕ → ℕ → Option (List ℕ) × ℕ → Type 0
  NextOf used name ts n i r =
      ((r ≡ (none, n)) × (names_of used name (drop i ts) ≡ []))
      ⊎ ((x : List ℕ) × (k : ℕ) × (r ≡ (some x, k))
          × (k ≤ n)
          × (0 < k)
          × (names_of used name (drop i ts) ≡ x ∷ names_of used name (drop (i + k) ts)))

  drop-cons :
      (ts : List A) (i n : ℕ) (d : A)
      → length ts ≡ i + suc n
      → drop i ts ≡ get_or ts i d ∷ drop (i + 1) ts
  drop-cons [] i n d h = absurd (omega arith)
  drop-cons (t ∷ ts) zero n d h = refl
  drop-cons (t ∷ ts) (suc i) n d h =
      let e : suc i + 1 ≡ suc (i + 1) = omega arith in rw e (drop-cons ts i n d (omega arith))

  -- One more term that is not used stands in front.
  miss :
      (used : A → Bool) (name : A → List ℕ) (ts : List A) (n i : ℕ) (r : Option (List ℕ) × ℕ)
      → NextOf used name ts n (i + 1) r
      → names_of used name (drop i ts) ≡ names_of used name (drop (i + 1) ts)
      → NextOf used name ts (suc n) i (r.0, suc r.1)
  unfolding NextOf
  miss used name ts n i r (inl (e, z)) c = inl (rw e refl, c ∙ z)
  miss used name ts n i r (inr (x, k, e, k1, k0, z)) c =
      let s : i + 1 + k ≡ i + suc k = omega arith in
      inr (
        x,
        suc k,
        rw e refl,
        omega arith,
        omega arith,
        c ∙ z ∙ ap (λ j. x ∷ names_of used name (drop j ts)) s,
      )

  drop_past : (ts : List A) (i : ℕ) → length ts ≤ i → drop i ts ≡ []
  drop_past [] zero h = refl
  drop_past [] (suc i) h = refl
  drop_past (t ∷ ts) zero h = absurd (omega arith)
  drop_past (t ∷ ts) (suc i) h = drop_past ts i (omega arith)

  next_at-NextOf :
      (used : A → Bool) (name : A → List ℕ) (d : A) (ts : List A) (n i : ℕ)
      → length ts ≡ i + n
      → NextOf used name ts n i (next_at used name d ts n i)
  unfolding next_at NextOf
  next_at-NextOf used name d ts zero i h =
      inl (refl, ap (names_of used name) (drop_past ts i (omega arith)))
  next_at-NextOf used name d ts (suc n) i h =
      let c = ap (names_of used name) (drop-cons ts i n d h) in
      let ih = next_at-NextOf used name d ts n (i + 1) (omega arith) in
      elim (Bool-cases (used (get_or ts i d))) [
        | inl e ↦
            rw e (inr (name (get_or ts i d), 1, refl, omega arith, omega arith, c ∙ rw e refl))
        | inr e ↦ rw e (miss used name ts n i (next_at used name d ts n (i + 1)) ih (c ∙ rw e refl))
      ]

abbrev pub used_folder : FolderTerm → Bool
used_folder t = t.used == 1

abbrev pub used_file : FileTerm → Bool
used_file t = t.used == 1

-- The names from position `idx` on: those of the folders, then those of the files.
abbrev pub names_from : FolderNode → ℕ → List (List ℕ)
names_from f idx =
    names_of used_folder (λ t. t.foldername) (drop idx f.fterms)
    ++ names_of used_file (λ t. t.filename) (drop (idx - fterm_num_lim) f.iterms)

-- A read at a position gives nothing where no name is left; else it gives the first name that is
-- left, and behind the new position are the others.
unfoldable pub Advances : FolderNode → ℕ → Option (List ℕ) × ℕ → Type 0
Advances f idx r =
    ((r ≡ (none, 24)) × (names_from f idx ≡ []))
    ⊎ ((x : List ℕ) × (j : ℕ) × (r ≡ (some x, j))
        × (idx < j)
        × (j ≤ 24)
        × (names_from f idx ≡ x ∷ names_from f j))

-- The files from their index `i` on, at position `at`.
files_advance :
    (f : FolderNode) (at i idx : ℕ) (r : Option (List ℕ) × ℕ)
    → length f.fterms ≡ 8
    → length f.iterms ≡ 16
    → at ≡ 8 + i
    → i ≤ 16
    → idx ≤ at
    → names_from f idx ≡ names_of used_file (λ t. t.filename) (drop i f.iterms)
    → NextOf used_file (λ t. t.filename) f.iterms (16 - i) i r
    → Advances f idx (r.0, at + r.1)
unfolding Advances NextOf
files_advance f at i idx r hf hi ha h16 h c (inl (e, z)) =
    let s : at + (16 - i) ≡ 24 = omega arith in inl (rw (e, s) refl, c ∙ z)
files_advance f at i idx r hf hi ha h16 h c (inr (x, k, e, k1, k0, z)) =
    let none_left : drop (at + k) f.fterms ≡ [] = drop_past f.fterms (at + k) (omega arith) in
    let s : at + k - 8 ≡ i + k = omega arith in
    let rest : names_from f (at + k)
        ≡ names_of used_file (λ t. t.filename) (drop (i + k) f.iterms) =
      rw (none_left, s) refl in
    inr (x, at + k, rw e refl, omega arith, omega arith, c ∙ z ∙ ap (◌∷◌ x) (sym rest))

folders_advance :
    (f : FolderNode) (idx : ℕ) (a b : Option (List ℕ) × ℕ)
    → length f.fterms ≡ 8
    → length f.iterms ≡ 16
    → idx < 8
    → NextOf used_folder (λ t. t.foldername) f.fterms (8 - idx) idx a
    → NextOf used_file (λ t. t.filename) f.iterms 16 0 b
    → Advances f idx (after_folders idx a b)
unfolding Advances NextOf
folders_advance f idx a b hf hi h (inl (e, z)) nb =
    let s : idx + (8 - idx) ≡ 8 = omega arith in
    let i0 : idx - 8 ≡ 0 = omega arith in
    let here : names_from f idx ≡ names_of used_file (λ t. t.filename) f.iterms = rw (z, i0) refl in
    rw (e, s) (files_advance f 8 0 idx b hf hi refl (omega arith) (omega arith) here nb)
folders_advance f idx a b hf hi h (inr (x, k, e, k1, k0, z)) nb =
    let s : idx - 8 ≡ idx + k - 8 = omega arith in
    rw e (inr (x, idx + k, refl, omega arith, omega arith, rw (z, s) refl))

pub next_name-Advances :
    (f : FolderNode) (idx : ℕ)
    → length f.fterms ≡ 8
    → length f.iterms ≡ 16
    → idx ≤ 24
    → Advances f idx (next_name f idx)
unfolding next_name
next_name-Advances f idx hf hi h = elim (Bool-cases (ltb idx 8)) [
  | inl e ↦ rw e (
      folders_advance f idx (next_folder f idx) (next_file f 0) hf hi (ground arith)
        (next_at-NextOf used_folder (λ t. t.foldername) zero_fterm f.fterms (8 - idx) idx
          (ground arith))
        (next_at-NextOf used_file (λ t. t.filename) zero_iterm f.iterms 16 0 (omega arith)))
  | inr e ↦
      let past : drop idx f.fterms ≡ [] = drop_past f.fterms idx (ground arith) in
      let here : names_from f idx ≡ names_of used_file (λ t. t.filename) (drop (idx - 8) f.iterms) =
        rw past refl in
      rw e (
        files_advance f idx (idx - 8) idx (next_file f (idx - 8)) hf hi (ground arith) (omega arith)
          (omega arith) here
          (next_at-NextOf used_file (λ t. t.filename) zero_iterm f.iterms (16 - (idx - 8)) (idx - 8)
            (omega arith)))
]

pub names_from_end :
    (f : FolderNode) → length f.fterms ≡ 8 → length f.iterms ≡ 16 → names_from f 24 ≡ []
names_from_end f hf hi =
    let a : drop 24 f.fterms ≡ [] = drop_past f.fterms 24 (omega arith) in
    let b : drop 16 f.iterms ≡ [] = drop_past f.iterms 16 (omega arith) in rw (a, b) refl
