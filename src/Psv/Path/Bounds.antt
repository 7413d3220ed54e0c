-- ===== src/Psv/Path/Bounds.antt =====
-- The bounds that split_path keeps, whatever the path.
use martian_os.Prelude.{
  ◌≢◌, ap, sym, ◌∙◌, inl, inr, Bool-cases, ℕ, zero, suc, ◌+◌, ◌-◌, ◌*◌, ◌<◌, ◌≤◌, ◌≡◌, refl, Bool,
  true, false, List, get_or, take, drop, length, length-append, length-take, length-drop,
  length-replicate, ltb, ◌==◌, if◌then◌else◌, arith,
}
use martian_os.Prelude.Int.{pos, pos_part}
use martian_os.CString.{strlen, strncpy}
use martian_os.CString.Copy.{length-strncpy}
use martian_os.Psv.Path.Flat.{room_for-same}
use martian_os.Psv.Path.{PathT, room_for, new_part, split_from, split_path, is_abs, zero_path}

-- At most 32 parts, in a table of 1024 bytes.
pub IsPath : PathT → Type 0
IsPath p = (k : ℕ) × (p.num ≡ pos k) × (k ≤ 32) × (length p.names ≡ 1024)

-- No 33 characters in a row are without a slash.
abbrev pub HasShortParts : List ℕ → Type 0
HasShortParts path =
    (i : ℕ) → i + 32 < strlen path → (j : ℕ) × (i ≤ j) × (j ≤ i + 32) × (get_or path j 0 ≡ b'/')

-- The path behind the slash that an absolute one starts with.
abbrev pub body : List ℕ → List ℕ
body path = if is_abs path == 1 then drop 1 path else path

-- Where a part that starts at `beg` has come to `i`.
NoSlash : List ℕ → ℕ → ℕ → Type 0
NoSlash path beg i = (j : ℕ) → beg ≤ j → j < i → get_or path j 0 ≢ b'/'

part_short :
    (path : List ℕ) (beg i : ℕ)
    → HasShortParts path
    → i ≤ strlen path
    → NoSlash path beg i
    → i - beg ≤ 32
unfolding NoSlash
part_short path beg i short hi plain = elim (Bool-cases (ltb (beg + 32) i)) [
  | inl long ↦
      let (j, lo, up, slash) = short beg (ground arith) in absurd (plain j lo (ground arith) slash)
  | inr e ↦ ground arith
]

NoSlash-next :
    (path : List ℕ) (beg i : ℕ)
    → NoSlash path beg i
    → (get_or path i 0 == b'/') ≡ false
    → NoSlash path beg (i + 1)
unfolding NoSlash
NoSlash-next path beg i plain here j lo hi e = elim (Bool-cases (j == i)) [
  | inl same ↦
      let q : j ≡ i = ground arith in absurd (ground (arith, ap (λ k. get_or path k 0) (sym q) ∙ e))
  | inr other ↦ plain j lo (ground arith) e
]

NoSlash-empty : (path : List ℕ) (i : ℕ) → NoSlash path i i
unfolding NoSlash
NoSlash-empty path i j lo hi e = omega arith

new_part-IsPath :
    (p : PathT) (src : List ℕ) (n : ℕ)
    → IsPath p
    → n ≤ 32
    → ltb (pos_part p.num) 32 ≡ true
    → IsPath (new_part p src n)
unfolding new_part IsPath
new_part-IsPath p src n (k, e, h, w) fits t =
    let a : ℕ = 32 * pos_part p.num in
    let small : pos_part p.num < 32 = ground (arith, t) in
    let room : room_for n (drop a p.names) ≡ drop a p.names =
      room_for-same n (drop a p.names) (omega (arith, length-drop a p.names, w, small, fits)) in
    (
      pos_part p.num + 1,
      refl,
      omega arith,
      rw room (
          omega (
            arith,
            length-append (take a p.names) (strncpy (drop a p.names) src n),
            length-take a p.names,
            length-strncpy (drop a p.names) src n,
            length-drop a p.names,
            w,
          )),
    )

if_IsPath :
    (b : Bool) (p q : PathT)
    → (b ≡ true → IsPath p)
    → (b ≡ false → IsPath q)
    → IsPath (if b then p else q)
if_IsPath true p q hp hq = hp refl
if_IsPath false p q hp hq = hq refl

split_from-IsPath :
    (path : List ℕ) (n i beg : ℕ) (p : PathT)
    → HasShortParts path
    → i + n ≤ strlen path
    → NoSlash path beg i
    → IsPath p
    → IsPath (split_from path n i beg p)
unfolding split_from
split_from-IsPath path zero i beg p short hi plain h = h
split_from-IsPath path (suc n) i beg p short hi plain h =
    let slash = λ (t : ltb (pos_part p.num) 32 ≡ true).
      split_from-IsPath path n (i + 1) (i + 1) (new_part p (drop beg path) (i - beg)) short
        (omega arith) (NoSlash-empty path (i + 1))
        (new_part-IsPath p (drop beg path) (i - beg) h
          (part_short path beg i short (omega arith) plain) t) in
    let last = λ (here : (get_or path i 0 == b'/') ≡ false) (t : ltb (pos_part p.num) 32 ≡ true).
      split_from-IsPath path n (i + 1) (i + 1) (new_part p (drop beg path) (i + 1 - beg)) short
        (omega arith) (NoSlash-empty path (i + 1))
        (new_part-IsPath p (drop beg path) (i + 1 - beg) h
          (part_short path beg (i + 1) short (omega arith) (NoSlash-next path beg i plain here))
          t) in
    if_IsPath (get_or path i 0 == b'/') _ _
      (λ e.
        if_IsPath (i == beg) _ _ (λ e'. h)
          (λ e'. if_IsPath (ltb (pos_part p.num) 32) _ _ slash (λ e''. h)))
      (λ here.
        if_IsPath (i == strlen path - 1) _ _
          (λ e. if_IsPath (ltb (pos_part p.num) 32) _ _ (last here) (λ e''. h))
          (λ e.
            split_from-IsPath path n (i + 1) beg p short (omega arith)
              (NoSlash-next path beg i plain here) h))

zero_path-IsPath : (a : ℕ) → IsPath (zero_path a)
unfolding IsPath
zero_path-IsPath a = (0, refl, omega arith, length-replicate {A = ℕ} 1024 0)

-- Of a path without 33 characters in a row that hold no slash, with any number of parts, `split_path`
-- gives 0 to 32 parts, and never writes behind the 1024 bytes of the table of names.
pub split_path-IsPath :
    (path : List ℕ)
    → HasShortParts (body path)
    → (k : ℕ) × ((split_path path).num ≡ pos k) × (k ≤ 32) × (length (split_path path).names ≡ 1024)
unfolding split_path IsPath
split_path-IsPath path short = elim (Bool-cases (is_abs path == 1)) [
  | inl e ↦ rw e (
      split_from-IsPath (drop 1 path) (strlen (drop 1 path)) 0 0 (zero_path 1) (rw e at short)
        (omega arith) (NoSlash-empty (drop 1 path) 0) (zero_path-IsPath 1))
  | inr e ↦ rw e (
      split_from-IsPath path (strlen path) 0 0 (zero_path 0) (rw e at short) (omega arith)
        (NoSlash-empty path 0) (zero_path-IsPath 0))
]
