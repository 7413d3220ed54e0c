-- ===== src/Word/Laws.antt =====
-- Bit by bit, what the operations on words do.
use martian_os.Prelude.{
  ℕ, zero, suc, ◌<◌, ◌≡◌, refl, ap, ◌∙◌, true, false, not, ◌&&◌, ◌||◌, [], ◌∷◌, ◌++◌, drop,
  replicate, length, length-replicate, ◌==◌, if◌then◌else◌, arith,
}
use martian_os.Word.{Word, test_bit, zeros, one_shl, or_word, and_word, not_word, asr, sign_bit}

pub test_bit-zeros : (n i : ℕ) → test_bit (zeros n) i ≡ false
test_bit-zeros zero i = refl
test_bit-zeros (suc n) zero = refl
test_bit-zeros (suc n) (suc i) = test_bit-zeros n i

pub length-one_shl : (n k : ℕ) → length (one_shl n k) ≡ n
length-one_shl zero k = refl
length-one_shl (suc n) zero = ap suc (length-replicate n false)
length-one_shl (suc n) (suc k) = ap suc (length-one_shl n k)

-- `1 << k` has bit `k` alone.
pub test_bit-one_shl : (n k i : ℕ) → k < n → test_bit (one_shl n k) i ≡ (k == i)
test_bit-one_shl zero k i h = elim h [ ]
test_bit-one_shl (suc n) zero zero h = refl
test_bit-one_shl (suc n) zero (suc i) h = ground (arith, test_bit-zeros n i)
test_bit-one_shl (suc n) (suc k) zero h = ground arith
test_bit-one_shl (suc n) (suc k) (suc i) h = ground (arith, test_bit-one_shl n k i)

pub length-or_word : (a b : Word) → length (or_word a b) ≡ length a
length-or_word [] b = refl
length-or_word (x ∷ a) [] = refl
length-or_word (x ∷ a) (y ∷ b) = ap suc (length-or_word a b)

pub length-and_word : (a b : Word) → length (and_word a b) ≡ length a
length-and_word [] b = refl
length-and_word (x ∷ a) [] = ap suc (length-and_word a [])
length-and_word (x ∷ a) (y ∷ b) = ap suc (length-and_word a b)

pub test_bit-or_word :
    (a b : Word) (i : ℕ)
    → length a ≡ length b
    → test_bit (or_word a b) i ≡ (test_bit a i || test_bit b i)
test_bit-or_word [] [] i h = refl
test_bit-or_word [] (y ∷ b) i h = absurd (omega arith)
test_bit-or_word (x ∷ a) [] i h = absurd (omega arith)
test_bit-or_word (x ∷ a) (y ∷ b) zero h = refl
test_bit-or_word (x ∷ a) (y ∷ b) (suc i) h = test_bit-or_word a b i (omega arith)

pub test_bit-and_word :
    (a b : Word) (i : ℕ) → test_bit (and_word a b) i ≡ (test_bit a i && test_bit b i)
test_bit-and_word [] b i = refl
test_bit-and_word (x ∷ a) [] zero = ground arith
test_bit-and_word (x ∷ a) [] (suc i) = test_bit-and_word a [] i
test_bit-and_word (x ∷ a) (y ∷ b) zero = refl
test_bit-and_word (x ∷ a) (y ∷ b) (suc i) = test_bit-and_word a b i

pub test_bit-not_word :
    (a : Word) (i : ℕ) → i < length a → test_bit (not_word a) i ≡ not (test_bit a i)
test_bit-not_word [] i h = elim h [ ]
test_bit-not_word (x ∷ a) zero h = refl
test_bit-not_word (x ∷ a) (suc i) h = test_bit-not_word a i (omega arith)

-- `w |= 1 << k` sets bit `k` and no other.
pub test_bit-set :
    (w : Word) (n k i : ℕ)
    → length w ≡ n
    → k < n
    → test_bit (or_word w (one_shl n k)) i ≡ (if k == i then true else test_bit w i)
test_bit-set w n k i e h =
    ground (arith, test_bit-or_word w (one_shl n k) i, length-one_shl n k, test_bit-one_shl n k i)

-- A bit that is set stands within the width.
pub test_bit-beyond : (w : Word) (i : ℕ) → length w < suc i → test_bit w i ≡ false
test_bit-beyond [] i h = refl
test_bit-beyond (x ∷ w) zero h = absurd (omega arith)
test_bit-beyond (x ∷ w) (suc i) h = test_bit-beyond w i (omega arith)

-- `w &= ~(1 << k)` clears bit `k` and no other.
pub test_bit-clear :
    (w : Word) (n k i : ℕ)
    → length w ≡ n
    → k < n
    → test_bit (and_word w (not_word (one_shl n k))) i ≡ (if k == i then false else test_bit w i)
test_bit-clear w n k i e h = ground (
  arith,
  test_bit-and_word w (not_word (one_shl n k)) i,
  test_bit-not_word (one_shl n k) i,
  length-one_shl n k,
  test_bit-one_shl n k i,
  test_bit-beyond w i,
)

test_bit-append : (a b : Word) → 0 < length a → test_bit (a ++ b) 0 ≡ test_bit a 0
test_bit-append [] b h = elim h [ ]
test_bit-append (x ∷ a) b h = refl

test_bit-drop : (k : ℕ) (w : Word) → test_bit (drop k w) 0 ≡ test_bit w k
test_bit-drop zero w = refl
test_bit-drop (suc k) [] = refl
test_bit-drop (suc k) (x ∷ w) = test_bit-drop k w

drop-pos : (k : ℕ) (w : Word) → k < length w → 0 < length (drop k w)
drop-pos zero w h = h
drop-pos (suc k) [] h = elim h [ ]
drop-pos (suc k) (x ∷ w) h = drop-pos k w (omega arith)

-- Shifting right by `k` brings bit `k` to the lowest place.
pub test_bit-asr : (w : Word) (k : ℕ) → k < length w → test_bit (asr w k) 0 ≡ test_bit w k
test_bit-asr w k h =
    test_bit-append (drop k w) (replicate k (sign_bit w)) (drop-pos k w h) ∙ test_bit-drop k w
