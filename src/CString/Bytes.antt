-- ===== src/CString/Bytes.antt =====
-- strncpy keeps bytes bytes.
use martian_os.Prelude.{
  ℕ, zero, suc, ◌+◌, ◌<◌, ◌≡◌, Bool, true, false, ◌&&◌, List, [], ◌∷◌, ◌++◌, take, get_or, set, ltb,
  replicate, if◌then◌else◌, arith,
}
use martian_os.CString.{strncpy, copy_from, fill_zero}
use martian_os.CString.Compare.{AreBytes}

-- Every element is a byte, as a test.
abbrev pub are_bytes : List ℕ → Bool
are_bytes [] = true
are_bytes (c ∷ s) = ltb c 256 && are_bytes s

pub are_bytes-AreBytes : (s : List ℕ) → are_bytes s ≡ true → AreBytes s
are_bytes-AreBytes [] h i = omega arith
are_bytes-AreBytes (c ∷ s) h zero = ground arith
are_bytes-AreBytes (c ∷ s) h (suc i) = ground (arith, are_bytes-AreBytes s (ground arith) i)

pub set-AreBytes : (s : List ℕ) (k c : ℕ) → AreBytes s → c < 256 → AreBytes (set s k c)
set-AreBytes [] k c h hc i = omega arith
set-AreBytes (d ∷ s) zero c h hc zero = hc
set-AreBytes (d ∷ s) zero c h hc (suc i) = h (suc i)
set-AreBytes (d ∷ s) (suc k) c h hc zero = h 0
set-AreBytes (d ∷ s) (suc k) c h hc (suc i) = set-AreBytes s k c (λ j. h (suc j)) hc i

pub zeros-AreBytes : (n : ℕ) → AreBytes (replicate n 0)
zeros-AreBytes zero i = omega arith
zeros-AreBytes (suc n) zero = omega arith
zeros-AreBytes (suc n) (suc i) = zeros-AreBytes n i

fill_zero-AreBytes : (s : List ℕ) (n i : ℕ) → AreBytes s → AreBytes (fill_zero s n i)
unfolding fill_zero
fill_zero-AreBytes s zero i h = h
fill_zero-AreBytes s (suc n) i h =
    fill_zero-AreBytes (set s i 0) n (i + 1) (set-AreBytes s i 0 h (omega arith))

if_AreBytes : (b : Bool) (s t : List ℕ) → AreBytes s → AreBytes t → AreBytes (if b then s else t)
if_AreBytes true s t hs ht = hs
if_AreBytes false s t hs ht = ht

copy_from-AreBytes :
    (dest src : List ℕ) (n i : ℕ) → AreBytes dest → AreBytes src → AreBytes (copy_from dest src n i)
unfolding copy_from
copy_from-AreBytes dest src zero i hd hs = hd
copy_from-AreBytes dest src (suc n) i hd hs =
    if_AreBytes _ _ _
      (copy_from-AreBytes (set dest i (get_or src i 0)) src n (i + 1)
        (set-AreBytes dest i (get_or src i 0) hd (hs i)) hs)
      (fill_zero-AreBytes dest (suc n) i hd)

pub strncpy-AreBytes :
    (dest src : List ℕ) (n : ℕ) → AreBytes dest → AreBytes src → AreBytes (strncpy dest src n)
unfolding strncpy
strncpy-AreBytes dest src n = copy_from-AreBytes dest src n 0

pub append-AreBytes : (s t : List ℕ) → AreBytes s → AreBytes t → AreBytes (s ++ t)
append-AreBytes [] t h k i = k i
append-AreBytes (c ∷ s) t h k zero = h 0
append-AreBytes (c ∷ s) t h k (suc i) = append-AreBytes s t (λ j. h (suc j)) k i

pub take-AreBytes : (n : ℕ) (s : List ℕ) → AreBytes s → AreBytes (take n s)
take-AreBytes zero s h i = omega arith
take-AreBytes (suc n) [] h i = omega arith
take-AreBytes (suc n) (c ∷ s) h zero = h 0
take-AreBytes (suc n) (c ∷ s) h (suc i) = take-AreBytes n s (λ j. h (suc j)) i
