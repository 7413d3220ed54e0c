-- ===== src/Psv/Walk/Parts.antt =====
-- goin against a walk over the parts of the path.
use martian_os.Prelude.{
  Bool-cases, inl, inr, ◌⊎◌, ℕ, zero, suc, ◌+◌, ◌-◌, ◌*◌, ◌<◌, ◌≤◌, ◌≡◌, refl, sym, ap, ◌∙◌, Bool,
  true, false, none, some, List, [], ◌∷◌, ◌++◌, get_or, drop, length, length-append,
  length-replicate, leb→le, ◌==◌, if◌then◌else◌, ◌>>=◌, arith,
}
use mathlib.Core.List.{append_assoc}
use martian_os.CString.{strncmp, strncmp_from}
use martian_os.Psv.Types.{FolderTerm}
use martian_os.Psv.Volume.{Layout, Volume, zero_fterm, enter, success, fail}
use martian_os.Psv.Path.{name_at}
use martian_os.Psv.Path.Flat.{nuls, flat, is_part, are_parts, parts_path}
use martian_os.Psv.Path.Scan.{drop-add}
use martian_os.Psv.Path.Split.{path_text, join_slash, are_parts-append}
use martian_os.Psv.Path.Join.{split_path-join}
use martian_os.Psv.Walk.{is_folder, find_folder, goin_part, go_on, goin_from, goin_sp, goin}

-- A folder has no term of that name; or its first one is at `j`.
abbrev pub NoFolder : List ℕ → List FolderTerm → Type 0
NoFolder c ts = (j : ℕ) → j < 8 → is_folder c (get_or ts j zero_fterm) ≡ false

abbrev pub FolderAt : List ℕ → ℕ → List FolderTerm → Type 0
FolderAt c j ts =
    (j < 8)
    × (is_folder c (get_or ts j zero_fterm) ≡ true)
    × ((i : ℕ) → i < j → is_folder c (get_or ts i zero_fterm) ≡ false)

-- One folder after the other: `Walks l cs v (r, w)` states that the walk over the parts `cs` from the
-- volume `v` ends with the result `r` and the volume `w`. It ends with a success behind the last
-- part, and with a failure, and in the folder that it has come to, at the first part that is not
-- there.
pub data Walks (l : Layout) : List (List ℕ) → Volume l.Sector → ℕ × Volume l.Sector → Type 0 where
  arrived : (v : Volume l.Sector) → Walks l [] v (success, v)
  missing :
      (c : List ℕ) (cs : List (List ℕ)) (v : Volume l.Sector)
      → NoFolder c v.current_folder.fterms
      → Walks l (c ∷ cs) v (fail, v)
  inside :
      (c : List ℕ) (cs : List (List ℕ)) (v : Volume l.Sector) (j : ℕ) (end : ℕ × Volume l.Sector)
      → FolderAt c j v.current_folder.fterms
      → Walks l cs (enter l (get_or v.current_folder.fterms j zero_fterm).fnode_idx v) end
      → Walks l (c ∷ cs) v end

-- A name in its place in the table reads as the part does.
get_or-padded :
    (c r : List ℕ) (m j : ℕ) → j < length c + m → get_or (c ++ (nuls m ++ r)) j 0 ≡ get_or c j 0
get_or-padded [] r zero j h = absurd (omega arith)
get_or-padded [] r (suc m) zero h = refl
get_or-padded [] r (suc m) (suc j) h = get_or-padded [] r m j (omega arith)
get_or-padded (x ∷ c) r m zero h = refl
get_or-padded (x ∷ c) r m (suc j) h = get_or-padded c r m j (omega arith)

strncmp_from_same :
    (s a b : List ℕ) (n i : ℕ)
    → ((j : ℕ) → j < i + n → get_or a j 0 ≡ get_or b j 0)
    → strncmp_from s a n i ≡ strncmp_from s b n i
unfolding strncmp_from
strncmp_from_same s a b zero i h = refl
strncmp_from_same s a b (suc n) i h =
    let ih = strncmp_from_same s a b n (i + 1) (λ j k. h j (omega arith)) in
    rw (h i (omega arith), ih) refl

find_folder_same :
    (ts : List FolderTerm) (a b : List ℕ) (n j : ℕ)
    → ((s : List ℕ) → strncmp s a 32 ≡ strncmp s b 32)
    → find_folder ts a n j ≡ find_folder ts b n j
unfolding find_folder
find_folder_same ts a b zero j h = refl
find_folder_same ts a b (suc n) j h =
    rw (h (get_or ts j zero_fterm).foldername, find_folder_same ts a b n (j + 1) h) refl

goin_part_same :
    (l : Layout) (c r : List ℕ) (v : Volume l.Sector)
    → length c ≤ 32
    → goin_part l ((c ++ nuls (32 - length c)) ++ r) v ≡ goin_part l c v
unfolding goin_part strncmp
goin_part_same l c r v h =
    let a : List ℕ = (c ++ nuls (32 - length c)) ++ r in
    let bytes = λ (j : ℕ) (k : j < 0 + 32).
      ap (λ (t : List ℕ). get_or t j 0) (append_assoc c (nuls (32 - length c)) r)
      ∙ get_or-padded c r (32 - length c) j (omega arith) in
    ap (λ o. o >>= λ (t : FolderTerm). some (enter l t.fnode_idx v))
      (find_folder_same v.current_folder.fterms a c 8 0 (λ s. strncmp_from_same s a c 32 0 bytes))

first_away :
    (ts : List FolderTerm) (c : List ℕ) (k j : ℕ)
    → is_folder c (get_or ts j zero_fterm) ≡ false
    → ((i : ℕ) → j + 1 ≤ i → i < k → is_folder c (get_or ts i zero_fterm) ≡ false)
    → (i : ℕ) → j ≤ i
    → i < k
    → is_folder c (get_or ts i zero_fterm) ≡ false
first_away ts c k j away unlike i lo hi = elim (Bool-cases (i == j)) [
  | inl e ↦ let same : i ≡ j = ground arith in rw same away
  | inr e ↦ unlike i (ground arith) hi
]

-- What the loop over the terms finds.
find_folder-first :
    (ts : List FolderTerm) (c : List ℕ) (n j : ℕ)
    → ((find_folder ts c n j ≡ none)
        × ((i : ℕ) → j ≤ i → i < j + n → is_folder c (get_or ts i zero_fterm) ≡ false))
      ⊎ ((k : ℕ) × (j ≤ k)
          × (k < j + n)
          × (find_folder ts c n j ≡ some (get_or ts k zero_fterm))
          × (is_folder c (get_or ts k zero_fterm) ≡ true)
          × ((i : ℕ) → j ≤ i → i < k → is_folder c (get_or ts i zero_fterm) ≡ false))
unfolding find_folder
find_folder-first ts c zero j = inl (refl, λ i lo hi. absurd (omega arith))
find_folder-first ts c (suc n) j = elim (Bool-cases (is_folder c (get_or ts j zero_fterm))) [
  | inl here ↦
      inr (j, omega arith, omega arith, rw here refl, here, λ i lo hi. absurd (omega arith))
  | inr away ↦ elim (find_folder-first ts c n (j + 1)) [
    | inl (e, unlike) ↦
        inl (rw away e, λ i lo hi. first_away ts c (j + 1 + n) j away unlike i lo (omega arith))
    | inr (k, lo, hi, e, named, unlike) ↦
        inr (k, omega arith, omega arith, rw away e, named, first_away ts c k j away unlike)
  ]
]

-- A part of the walk and of the loop.
goin_part-Walks :
    (l : Layout) (c : List ℕ) (cs : List (List ℕ)) (v : Volume l.Sector)
    (f : Volume l.Sector → ℕ × Volume l.Sector)
    → ((w : Volume l.Sector) → Walks l cs w (f w))
    → Walks l (c ∷ cs) v (go_on l v f (goin_part l c v))
unfolding goin_part
goin_part-Walks l c cs v f h = elim (find_folder-first v.current_folder.fterms c 8 0) [
  | inl (e, unlike) ↦ rw e (missing c cs v (λ j hi. unlike j (omega arith) (omega arith)))
  | inr (k, lo, hi, e, named, unlike) ↦
      rw e (inside c cs v k _ (omega arith, named, λ i b. unlike i (omega arith) b) (h _))
]

-- Where the walk starts.
start :
    (l : Layout) (absolute : Bool) (f : Volume l.Sector → ℕ × Volume l.Sector) (v : Volume l.Sector)
    → f (if (if absolute then 1 else 0) == 0 then v else enter l 0 v)
      ≡ f (if absolute then enter l 0 v else v)
start l true f v = refl
start l false f v = refl

-- The loop over the table goes part by part.
goin_from-Walks :
    (l : Layout) (names z : List ℕ) (cs : List (List ℕ)) (i : ℕ) (v : Volume l.Sector)
    → are_parts cs ≡ true
    → drop (32 * i) names ≡ flat cs ++ z
    → Walks l cs v (goin_from l names (length cs) i v)
unfolding goin_from
goin_from-Walks l names z [] i v h d = arrived v
goin_from-Walks l names z (c ∷ cs) i v h d =
    let pad : List ℕ = c ++ nuls (32 - length c) in
    let short : length c ≤ 32 = leb→le (length c) 32 (ground arith) in
    let d1 : drop (32 * i) names ≡ pad ++ (flat cs ++ z) = d ∙ append_assoc pad (flat cs) z in
    let first : goin_part l (name_at names i) v ≡ goin_part l c v =
      ap (λ (t : List ℕ). goin_part l t v) d1 ∙ goin_part_same l c (flat cs ++ z) v short in
    let step : 32 * i + length pad ≡ 32 * (i + 1) =
      omega (
        arith,
        length-append c (nuls (32 - length c)),
        length-replicate {A = ℕ} (32 - length c) 0,
      ) in
    let d2 : drop (32 * (i + 1)) names ≡ flat cs ++ z =
      sym (ap (λ k. drop k names) step) ∙ drop-add (32 * i) names pad (flat cs ++ z) d1 in
    rw first (
      goin_part-Walks l c cs v (λ w. goin_from l names (length cs) (i + 1) w)
        (λ w. goin_from-Walks l names z cs (i + 1) w (ground arith) d2))

-- Where a path is put together from parts, going into it ends as the walk over the parts does: at
-- each part it enters the first term of that name of the folder that it has come to, and it stops
-- with a failure, in that folder, at the first part that is not there. An absolute path starts at
-- the root. The path has 1 to 32 parts of 1 to 32 characters.
pub goin-Walks :
    (l : Layout) (absolute : Bool) (cs : List (List ℕ)) (c : List ℕ) (v : Volume l.Sector)
    → are_parts cs ≡ true
    → is_part c ≡ true
    → length cs < 32
    → Walks l
        (cs ++ (c ∷ []))
        (if absolute then enter l 0 v else v)
        (goin l (path_text absolute (join_slash cs ++ c)) v)
unfolding goin goin_sp
goin-Walks l absolute cs c v h hc k =
    let es : List (List ℕ) = cs ++ (c ∷ []) in
    let a : ℕ = if absolute then 1 else 0 in
    let p = (split_path-join absolute cs c h hc k).0 in
    let hes = are_parts-append cs (c ∷ []) h (ground arith) in
    let f = λ (u : Volume l.Sector). goin_from l (parts_path a es).names (length es) 0 u in
    rw (p, start l absolute f v)
      (goin_from-Walks l (parts_path a es).names (nuls (32 * (32 - length es))) es 0
        (if absolute then enter l 0 v else v) hes refl)
