-- ===== src/Psv/Bitmap/Free.antt =====
-- get_free_bit: the node that it finds, and what it leaves.
use martian_os.Prelude.{
  ℕ, zero, suc, ◌+◌, ◌≤◌, ◌<◌, ◌≡◌, refl, ◌⊎◌, inl, inr, Bool, true, false, ◌&&◌, ◌==◌,
  if◌then◌else◌, Bool-cases, arith,
}
use martian_os.Prelude.Int.{ℤ, pos, minus_one}
use martian_os.Psv.Types.{SType, folder, file, db, SuperBlock, HasMaps, num_lim}
use martian_os.Psv.Bitmap.{
  is_free, first_free, find_free_bit, get_free_bit, set_bitmap, clear_bitmap, inc_used,
}
use martian_os.Psv.Bitmap.Laws.{
  marked, same, is_free-marked, marked-set_bitmap, marked-clear_bitmap,
}
use martian_os.Psv.Bitmap.Sizes.{set_bitmap-HasMaps, clear_bitmap-HasMaps, inc_used-HasMaps}

-- No node from `i` on and below `k` is free.
abbrev pub Taken : SuperBlock → SType → ℕ → ℕ → Type 0
Taken sb t i k = (j : ℕ) → i ≤ j → j < k → is_free sb t j ≡ false

Taken-cons :
    (sb : SuperBlock) (t : SType) (i k : ℕ)
    → is_free sb t i ≡ false
    → Taken sb t (i + 1) k
    → Taken sb t i k
Taken-cons sb t i k e h j lo hi = elim (Bool-cases (i == j)) [
  | inl same_j ↦ let e' : i ≡ j = ground arith in rw (← e') e
  | inr other ↦ h j (ground arith) hi
]

-- What the search from `i` below `k` returns: the least free node, or -1.
abbrev pub Finds : SuperBlock → SType → ℕ → ℕ → ℤ → Type 0
Finds sb t i k r =
    ((r ≡ minus_one) × Taken sb t i k)
    ⊎ ((m : ℕ) × (r ≡ pos m) × (i ≤ m) × (m < k) × (is_free sb t m ≡ true) × Taken sb t i m)

first_free-Finds :
    (sb : SuperBlock) (t : SType) (n i k : ℕ) → i + n ≡ k → Finds sb t i k (first_free sb t n i)
unfolding first_free
first_free-Finds sb t zero i k e = inl (refl, λ j lo hi. absurd (omega arith))
first_free-Finds sb t (suc n) i k e = elim (Bool-cases (is_free sb t i)) [
  | inl h ↦ inr (i, rw h, omega arith, omega arith, h, λ j lo hi. absurd (omega arith))
  | inr h ↦ rw h (elim (first_free-Finds sb t n (i + 1) k (omega arith)) [
    | inl (r, taken) ↦ inl (r, Taken-cons sb t i k h taken)
    | inr (m, r, lo, hi, free, taken) ↦
        inr (m, r, omega arith, hi, free, Taken-cons sb t i m h taken)
  ])
]

pub find_free_bit-Finds :
    (sb : SuperBlock) (t : SType) → Finds sb t 0 (num_lim t) (find_free_bit t sb)
unfolding find_free_bit
find_free_bit-Finds sb folder = first_free-Finds sb folder 32 0 32 refl
find_free_bit-Finds sb file = first_free-Finds sb file 64 0 64 refl
find_free_bit-Finds sb db = first_free-Finds sb db 2048 0 2048 refl

-- Only the mark of node `k` of kind `t` differs, and it is as `b` says.
abbrev pub Marks : SuperBlock → SuperBlock → SType → ℕ → Bool → Type 0
Marks sb sb' t k b =
    (u : SType) (j : ℕ)
    → j < num_lim u
    → is_free sb' u j ≡ (if same t u && k == j then b else is_free sb u j)

-- A node that is marked is no longer free, and no other node changes.
pub set_bitmap-Marks :
    (sb : SuperBlock) (t : SType) (k : ℕ)
    → HasMaps sb
    → k < num_lim t
    → ((set_bitmap (pos k) t sb).0 ≡ pos 0) × Marks sb (set_bitmap (pos k) t sb).1 t k false
set_bitmap-Marks sb t k w h = (
  (marked-set_bitmap sb t t k k w h).0,
  λ u j hj. ground (
    arith,
    is_free-marked sb u j w hj,
    is_free-marked (set_bitmap (pos k) t sb).1 u j (set_bitmap-HasMaps (pos k) t sb w) hj,
    marked-set_bitmap sb t u k j w h,
  ),
)

-- A node whose mark is cleared is free, and no other node changes.
pub clear_bitmap-Marks :
    (sb : SuperBlock) (t : SType) (k : ℕ)
    → HasMaps sb
    → k < num_lim t
    → ((clear_bitmap (pos k) t sb).0 ≡ pos 0) × Marks sb (clear_bitmap (pos k) t sb).1 t k true
clear_bitmap-Marks sb t k w h = (
  (marked-clear_bitmap sb t t k k w h).0,
  λ u j hj. ground (
    arith,
    is_free-marked sb u j w hj,
    is_free-marked (clear_bitmap (pos k) t sb).1 u j (clear_bitmap-HasMaps (pos k) t sb w) hj,
    marked-clear_bitmap sb t u k j w h,
  ),
)

pub marked-inc_used :
    (sb : SuperBlock) (t u : SType) (j : ℕ) → marked (inc_used t sb) u j ≡ marked sb u j
unfolding inc_used
marked-inc_used sb folder folder j = ground arith
marked-inc_used sb folder file j = ground arith
marked-inc_used sb folder db j = ground arith
marked-inc_used sb file folder j = ground arith
marked-inc_used sb file file j = ground arith
marked-inc_used sb file db j = ground arith
marked-inc_used sb db folder j = ground arith
marked-inc_used sb db file j = ground arith
marked-inc_used sb db db j = ground arith

inc_used-Marks :
    (sb sb' : SuperBlock) (t : SType) (k : ℕ) (b : Bool)
    → HasMaps sb'
    → Marks sb sb' t k b
    → Marks sb (inc_used t sb') t k b
inc_used-Marks sb sb' t k b w m u j hj = ground (
  arith,
  m u j hj,
  is_free-marked sb' u j w hj,
  is_free-marked (inc_used t sb') u j (inc_used-HasMaps t sb' w) hj,
  marked-inc_used sb' t u j,
)

-- `get_free_bit` hands out the least free node and marks it alone, or, with every node of the kind
-- taken, returns -1 and leaves the super block as it was.
abbrev pub Allocates : SuperBlock → SType → ℤ × SuperBlock → Type 0
Allocates sb t (r, sb') =
    ((r ≡ minus_one) × (sb' ≡ sb) × Taken sb t 0 (num_lim t))
    ⊎ ((k : ℕ) × (r ≡ pos k)
        × (k < num_lim t)
        × (is_free sb t k ≡ true)
        × Taken sb t 0 k
        × Marks sb sb' t k false
        × HasMaps sb')

-- On a super block with maps of the declared sizes, `get_free_bit` either finds every node of the
-- kind taken, returns -1 and changes nothing, or returns the least free node, and then that node
-- is marked, no other node of any kind changes and the maps keep their sizes.
pub get_free_bit-Allocates :
    (t : SType) (sb : SuperBlock) → HasMaps sb → Allocates sb t (get_free_bit t sb)
unfolding get_free_bit
get_free_bit-Allocates t sb w = elim (find_free_bit-Finds sb t) [
  | inl (e, taken) ↦ rw e (inl (refl, refl, taken))
  | inr (k, e, lo, hi, free, taken) ↦ rw e (
      inr (
        k,
        refl,
        hi,
        free,
        taken,
        inc_used-Marks sb (set_bitmap (pos k) t sb).1 t k false (set_bitmap-HasMaps (pos k) t sb w)
            (set_bitmap-Marks sb t k w hi).1,
        inc_used-HasMaps t (set_bitmap (pos k) t sb).1 (set_bitmap-HasMaps (pos k) t sb w),
      ))
]
