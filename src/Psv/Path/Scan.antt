-- ===== src/Psv/Path/Scan.antt =====
-- The rounds of split_path over the characters of one part.
use martian_os.Prelude.{
  ℕ, zero, suc, ◌+◌, ◌-◌, ◌<◌, ◌≤◌, ◌≡◌, ◌≢◌, refl, sym, ap, ◌∙◌, true, false, List, [], ◌∷◌, ◌++◌,
  length, get_or, get_or-drop, drop, ltb, ◌==◌, leb→le, arith,
}
use martian_os.Prelude.Int.{pos_part}
use martian_os.CString.{strlen}
use martian_os.Psv.Path.{PathT, new_part, split_from}
use martian_os.Psv.Path.Flat.{plain, is_part}

pub drop-suc : (i : ℕ) (xs : List ℕ) → drop (i + 1) xs ≡ drop 1 (drop i xs)
drop-suc zero xs = refl
drop-suc (suc i) [] = let e : suc i + 1 ≡ suc (i + 1) = omega arith in rw e refl
drop-suc (suc i) (x ∷ xs) = let e : suc i + 1 ≡ suc (i + 1) = omega arith in rw e (drop-suc i xs)

pub drop-add : (i : ℕ) (xs s u : List ℕ) → drop i xs ≡ s ++ u → drop (i + length s) xs ≡ u
drop-add i xs [] u d = let e : i + 0 ≡ i = omega arith in rw e d
drop-add i xs (x ∷ s) u d =
    let e : i + suc (length s) ≡ i + 1 + length s = omega arith in
    rw e (drop-add (i + 1) xs s u (drop-suc i xs ∙ ap (drop 1) d))

pub first_of : (i x : ℕ) (xs r : List ℕ) → drop i xs ≡ x ∷ r → get_or xs i 0 ≡ x
first_of i x xs r d =
    let e : i + 0 ≡ i = omega arith in
    sym (ap (λ k. get_or xs k 0) e)
    ∙ sym (get_or-drop i 0 xs 0)
    ∙ ap (λ (l : List ℕ). get_or l 0 0) d

-- One round at a character that is neither a slash nor the last one.
step_plain :
    (path : List ℕ) (n i beg : ℕ) (p : PathT)
    → get_or path i 0 ≢ b'/'
    → i + 1 < strlen path
    → split_from path (suc n) i beg p ≡ split_from path n (i + 1) beg p
unfolding split_from
step_plain path n i beg p h l =
    let t : (get_or path i 0 == b'/') ≡ false = ground arith in
    let u : (i == strlen path - 1) ≡ false = ground arith in rw (t, u) refl

-- One round at the last character, which is no slash.
step_last :
    (path : List ℕ) (i beg : ℕ) (p : PathT)
    → get_or path i 0 ≢ b'/'
    → i + 1 ≡ strlen path
    → pos_part p.num < 32
    → split_from path 1 i beg p ≡ new_part p (drop beg path) (i + 1 - beg)
unfolding split_from
step_last path i beg p h l k =
    let t : (get_or path i 0 == b'/') ≡ false = ground arith in
    let u : (i == strlen path - 1) ≡ true = ground arith in
    let v : ltb (pos_part p.num) 32 ≡ true = ground arith in rw (t, u, v) refl

-- The characters of a part are passed over, as long as one more character follows.
scan :
    (path b r : List ℕ) (n m i beg : ℕ) (p : PathT)
    → plain b ≡ true
    → drop i path ≡ b ++ r
    → i + length b < strlen path
    → n ≡ length b + m
    → split_from path n i beg p ≡ split_from path m (i + length b) beg p
scan path [] r n m i beg p hb d l e =
    let z : i + 0 ≡ i = omega arith in let y : n ≡ m = omega arith in cc
scan path (x ∷ b) r zero m i beg p hb d l e = absurd (omega arith)
scan path (x ∷ b) r (suc n) m i beg p hb d l e =
    let d1 : drop (i + 1) path ≡ b ++ r = drop-suc i path ∙ ap (drop 1) d in
    let ih : split_from path n (i + 1) beg p ≡ split_from path m (i + 1 + length b) beg p =
      scan path b r n m (i + 1) beg p (ground arith) d1 (omega arith) (omega arith) in
    let x0 : get_or path i 0 ≡ x = first_of i x path (b ++ r) d in
    let s : i + 1 + length b ≡ i + length (x ∷ b) = omega arith in
    step_plain path n i beg p (ground arith) (omega arith)
    ∙ ih
    ∙ ap (λ j. split_from path m j beg p) s

-- The last part, which no slash follows.
pub scan_last :
    (path b : List ℕ) (n i beg : ℕ) (p : PathT)
    → plain b ≡ true
    → drop i path ≡ b
    → n ≡ length b
    → 0 < n
    → strlen path ≡ i + n
    → pos_part p.num < 32
    → split_from path n i beg p ≡ new_part p (drop beg path) (i + n - beg)
scan_last path [] n i beg p hb d e h l k = absurd (omega arith)
scan_last path (x ∷ b) zero i beg p hb d e h l k = absurd (omega arith)
scan_last path (x ∷ []) (suc zero) i beg p hb d e h l k =
    let x0 : get_or path i 0 ≡ x = first_of i x path [] d in
    step_last path i beg p (ground arith) (omega arith) k
scan_last path (x ∷ []) (suc (suc n)) i beg p hb d e h l k = absurd (omega arith)
scan_last path (x ∷ y ∷ b) (suc n) i beg p hb d e h l k =
    let d1 : drop (i + 1) path ≡ y ∷ b = drop-suc i path ∙ ap (drop 1) d in
    let hb1 : plain (y ∷ b) ≡ true = ground arith in
    let ih : split_from path n (i + 1) beg p ≡ new_part p (drop beg path) (i + 1 + n - beg) =
      scan_last path (y ∷ b) n (i + 1) beg p hb1 d1 (omega arith) (omega arith) (omega arith) k in
    let x0 : get_or path i 0 ≡ x = first_of i x path (y ∷ b) d in
    let e1 : i + 1 + n - beg ≡ i + suc n - beg = omega arith in
    step_plain path n i beg p (ground arith) (omega arith) ∙ ih ∙ ap (new_part p (drop beg path)) e1

pub one_part :
    (path c u : List ℕ) (n m beg : ℕ) (p : PathT)
    → is_part c ≡ true
    → drop beg path ≡ c ++ (b'/' ∷ u)
    → strlen path ≡ beg + n
    → n ≡ length c + suc m
    → pos_part p.num < 32
    → split_from path n beg beg p
      ≡ split_from path m
          (beg + length c + 1)
          (beg + length c + 1)
          (new_part p (c ++ (b'/' ∷ u)) (length c))
unfolding split_from
one_part path c u n m beg p hc d l e k =
    let s : split_from path n beg beg p ≡ split_from path (suc m) (beg + length c) beg p =
      scan path c (b'/' ∷ u) n (suc m) beg beg p (ground arith) d (omega arith) e in
    let x0 : get_or path (beg + length c) 0 ≡ b'/' =
      first_of (beg + length c) b'/' path u (drop-add beg path c (b'/' ∷ u) d) in
    let len : 1 ≤ length c = leb→le 1 (length c) (ground arith) in
    let far : beg + length c ≢ beg = λ e. omega arith in
    let cut : beg + length c - beg ≡ length c = omega arith in s ∙ rw (x0, cut, d) (ground arith)
