-- ===== src/Psv/Path/Flat.antt =====
-- The parts of a path, and the table of names that they fill.
use martian_os.Prelude.{
  leb→le, length-drop, ℕ, zero, suc, ◌+◌, ◌-◌, ◌*◌, ◌<◌, ◌≤◌, ◌≡◌, refl, sym, ap, ◌∙◌, Bool, true,
  ◌&&◌, not, List, [], ◌∷◌, ◌++◌, length, take, drop, replicate, leb, ◌==◌, leb→le, length-append,
  length-replicate, arith,
}
use mathlib.Core.List.{append_assoc, append-nil}
use martian_os.Prelude.Int.{pos}
use martian_os.CString.{strncpy}
use martian_os.CString.Fill.{no_nul, strncpy_run}
use martian_os.Psv.Path.{PathT, new_part, room_for}

-- A part of a path: one to 32 characters, none of them NUL or a slash.
abbrev pub plain : List ℕ → Bool
plain [] = true
plain (x ∷ c) = not (x == 0) && (not (x == b'/') && plain c)

abbrev pub is_part : List ℕ → Bool
is_part c = plain c && (leb 1 (length c) && leb (length c) 32)

abbrev pub are_parts : List (List ℕ) → Bool
are_parts [] = true
are_parts (c ∷ cs) = is_part c && are_parts cs

abbrev pub nuls : ℕ → List ℕ
nuls n = replicate n 0

-- The parts as they stand in the table, each filled up with NULs.
abbrev pub flat : List (List ℕ) → List ℕ
flat [] = []
flat (c ∷ cs) = (c ++ nuls (32 - length c)) ++ flat cs

-- What a path with the given parts is cut into.
abbrev pub parts_path : ℕ → List (List ℕ) → PathT
parts_path a cs = record {
  num = pos (length cs);
  abs = a;
  names = flat cs ++ nuls (32 * (32 - length cs));
}

pub length-flat : (cs : List (List ℕ)) → are_parts cs ≡ true → length (flat cs) ≡ 32 * length cs
length-flat [] h = refl
length-flat (c ∷ cs) h = omega (
  arith,
  length-append (c ++ nuls (32 - length c)) (flat cs),
  length-append c (nuls (32 - length c)),
  length-replicate {A = ℕ} (32 - length c) 0,
  length-flat cs (ground arith),
  leb→le (length c) 32 (ground arith),
)

take-length : (xs ys : List ℕ) → take (length xs) (xs ++ ys) ≡ xs
take-length [] ys = refl
take-length (x ∷ xs) ys = ap (◌∷◌ x) (take-length xs ys)

drop-length : (xs ys : List ℕ) → drop (length xs) (xs ++ ys) ≡ ys
drop-length [] ys = refl
drop-length (x ∷ xs) ys = drop-length xs ys

nuls-add : (n m : ℕ) → nuls (n + m) ≡ nuls n ++ nuls m
nuls-add zero m = let e : zero + m ≡ m = omega arith in ap nuls e
nuls-add (suc n) m =
    let e : suc n + m ≡ suc (n + m) = omega arith in ap nuls e ∙ ap (◌∷◌ 0) (nuls-add n m)

pub plain-no_nul : (c : List ℕ) → plain c ≡ true → no_nul c ≡ true
plain-no_nul [] h = refl
plain-no_nul (x ∷ c) h = ground (arith, plain-no_nul c)

flat-append : (cs ds : List (List ℕ)) → flat (cs ++ ds) ≡ flat cs ++ flat ds
flat-append [] ds = refl
flat-append (c ∷ cs) ds =
    ap (◌++◌ (c ++ nuls (32 - length c))) (flat-append cs ds)
    ∙ sym (append_assoc (c ++ nuls (32 - length c)) (flat cs) (flat ds))

-- The zeros of the free names, with those of the first free name cut at the length of a part.
free_names :
    (a k : ℕ)
    → a ≤ 32
    → k < 32
    → nuls (32 * (32 - k)) ≡ nuls a ++ (nuls (32 - a) ++ nuls (32 * (32 - (k + 1))))
free_names a k ha hk =
    let e : 32 * (32 - k) ≡ a + ((32 - a) + 32 * (32 - (k + 1))) = omega arith in
    ap nuls e
    ∙ nuls-add a ((32 - a) + 32 * (32 - (k + 1)))
    ∙ ap (◌++◌ (nuls a)) (nuls-add (32 - a) (32 * (32 - (k + 1))))

-- What the free names are after the copy.
new_name :
    (c t : List ℕ) (k : ℕ)
    → is_part c ≡ true
    → k < 32
    → strncpy (nuls (32 * (32 - k))) (c ++ t) (length c)
      ≡ c ++ (nuls (32 - length c) ++ nuls (32 * (32 - (k + 1))))
new_name c t k hc hk =
    ap (λ z. strncpy z (c ++ t) (length c))
      (free_names (length c) k (leb→le (length c) 32 (ground arith)) hk)
    ∙ strncpy_run c t (nuls (length c)) (nuls (32 - length c) ++ nuls (32 * (32 - (k + 1))))
        (plain-no_nul c (ground arith)) (length-replicate (length c) 0)

-- The table after one more part, cut and put together as `new_part` does.
new_names :
    (cs : List (List ℕ)) (c t : List ℕ)
    → are_parts cs ≡ true
    → is_part c ≡ true
    → length cs < 32
    → take (32 * length cs) (flat cs ++ nuls (32 * (32 - length cs)))
        ++ strncpy
            (drop (32 * length cs) (flat cs ++ nuls (32 * (32 - length cs))))
            (c ++ t)
            (length c)
      ≡ flat (cs ++ (c ∷ [])) ++ nuls (32 * (32 - (length cs + 1)))
new_names cs c t hcs hc hk =
    let free = nuls (32 * (32 - (length cs + 1))) in
    rw
      (
        sym (length-flat cs hcs),
        take-length (flat cs) (nuls (32 * (32 - length cs))),
        drop-length (flat cs) (nuls (32 * (32 - length cs))),
        new_name c t (length cs) hc hk,
        flat-append cs (c ∷ []),
        append_assoc (flat cs) ((c ++ nuls (32 - length c)) ++ []) free,
        append-nil (c ++ nuls (32 - length c)),
        append_assoc c (nuls (32 - length c)) free,
      )
      refl

-- Within the table the copy is into the table alone.
pub room_for-same : (n : ℕ) (t : List ℕ) → n ≤ length t → room_for n t ≡ t
room_for-same n t h = let e : n - length t ≡ 0 = omega arith in rw e (append-nil t)

-- A new part is put behind the parts that are there.
pub new_part-parts_path :
    (a : ℕ) (cs : List (List ℕ)) (c t : List ℕ)
    → are_parts cs ≡ true
    → is_part c ≡ true
    → length cs < 32
    → new_part (parts_path a cs) (c ++ t) (length c) ≡ parts_path a (cs ++ (c ∷ []))
unfolding new_part
new_part-parts_path a cs c t hcs hc hk =
    let names : List ℕ = flat cs ++ nuls (32 * (32 - length cs)) in
    let k : ℕ = 32 * length cs in
    let short : length c ≤ 32 = leb→le (length c) 32 (ground arith) in
    let room : room_for (length c) (drop k names) ≡ drop k names =
      room_for-same (length c) (drop k names) (
        omega (
          arith,
          length-drop k names,
          length-append (flat cs) (nuls (32 * (32 - length cs))),
          length-replicate {A = ℕ} (32 * (32 - length cs)) 0,
          length-flat cs hcs,
          short,
          hk,
        )) in
    rw (length-append cs (c ∷ []), room, new_names cs c t hcs hc hk) refl
