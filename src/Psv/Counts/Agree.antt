-- ===== src/Psv/Counts/Agree.antt =====
-- When the counters agree with the bitmaps, and which operations keep them so.
use martian_os.Prelude.{
  ℕ, zero, suc, ◌+◌, ◌<◌, ◌≤◌, ◌≡◌, refl, ap, ◌∙◌, Bool, true, false, ◌==◌, ltb, if◌then◌else◌,
  Bool-cases, inl, inr, arith,
}
use martian_os.Prelude.Int.{pos}
use martian_os.Psv.Types.{SType, folder, file, db, SuperBlock, HasMaps, num_lim}
use martian_os.Psv.Bitmap.{get_free_bit, set_bitmap, clear_bitmap, inc_used}
use martian_os.Psv.Bitmap.Laws.{
  marked, same, is_free-marked, marked-set_bitmap, marked-clear_bitmap,
}
use martian_os.Psv.Bitmap.Free.{find_free_bit-Finds, marked-inc_used}
use martian_os.Psv.Counts.{used_of}

-- How many of the first `n` numbers pass a test.
unfoldable pub count : (ℕ → Bool) → ℕ → ℕ
count f zero = 0
count f (suc n) = count f n + (if f n then 1 else 0)

-- The counter of the kind is the number of its marked nodes.
abbrev pub Agrees : SuperBlock → SType → Type 0
Agrees sb t = used_of sb t ≡ count (marked sb t) (num_lim t)

-- One more number passes.
count-mark :
    (f g : ℕ → Bool) (k n : ℕ)
    → ((j : ℕ) → g j ≡ (if k == j then true else f j))
    → f k ≡ false
    → count g n ≡ count f n + (if ltb k n then 1 else 0)
unfolding count
count-mark f g k zero h e = ground arith
count-mark f g k (suc n) h e = elim (Bool-cases (k == n)) [
  | inl here ↦ let n' : k ≡ n = ground arith in ground (arith, count-mark f g k n h e, h n, ap f n')
  | inr away ↦ ground (arith, count-mark f g k n h e, h n)
]

count_eq : (f g : ℕ → Bool) (n : ℕ) → ((j : ℕ) → g j ≡ f j) → count g n ≡ count f n
unfolding count
count_eq f g zero h = refl
count_eq f g (suc n) h = ground (arith, count_eq f g n h, h n)

count-le : (f : ℕ → Bool) (n : ℕ) → count f n ≤ n
unfolding count
count-le f zero = omega arith
count-le f (suc n) = ground (arith, count-le f n)

count-lt : (f : ℕ → Bool) (k n : ℕ) → f k ≡ false → k < n → count f n < n
unfolding count
count-lt f k zero e h = elim h [ ]
count-lt f k (suc n) e h = elim (Bool-cases (k == n)) [
  | inl here ↦ let n' : k ≡ n = ground arith in ground (arith, count-le f n, ap f n')
  | inr away ↦ ground (arith, count-lt f k n e)
]

used_of-set_bitmap :
    (sb : SuperBlock) (t u : SType) (k : ℕ) → used_of (set_bitmap (pos k) t sb).1 u ≡ used_of sb u
unfolding set_bitmap
used_of-set_bitmap sb folder folder k = ground arith
used_of-set_bitmap sb folder file k = ground arith
used_of-set_bitmap sb folder db k = ground arith
used_of-set_bitmap sb file folder k = ground arith
used_of-set_bitmap sb file file k = ground arith
used_of-set_bitmap sb file db k = ground arith
used_of-set_bitmap sb db folder k = ground arith
used_of-set_bitmap sb db file k = ground arith
used_of-set_bitmap sb db db k = ground arith

used_of-clear_bitmap :
    (sb : SuperBlock) (t u : SType) (k : ℕ) → used_of (clear_bitmap (pos k) t sb).1 u ≡ used_of sb u
unfolding clear_bitmap
used_of-clear_bitmap sb folder folder k = ground arith
used_of-clear_bitmap sb folder file k = ground arith
used_of-clear_bitmap sb folder db k = ground arith
used_of-clear_bitmap sb file folder k = ground arith
used_of-clear_bitmap sb file file k = ground arith
used_of-clear_bitmap sb file db k = ground arith
used_of-clear_bitmap sb db folder k = ground arith
used_of-clear_bitmap sb db file k = ground arith
used_of-clear_bitmap sb db db k = ground arith

used_of-inc_used :
    (sb : SuperBlock) (t u : SType)
    → used_of sb t < num_lim t
    → used_of (inc_used t sb) u ≡ used_of sb u + (if same t u then 1 else 0)
unfolding inc_used
used_of-inc_used sb folder folder h = ground arith
used_of-inc_used sb folder file h = ground arith
used_of-inc_used sb folder db h = ground arith
used_of-inc_used sb file folder h = ground arith
used_of-inc_used sb file file h = ground arith
used_of-inc_used sb file db h = ground arith
used_of-inc_used sb db folder h = ground arith
used_of-inc_used sb db file h = ground arith
used_of-inc_used sb db db h = ground arith

num_lim-same : (t u : SType) (k : ℕ) → same t u ≡ true → k < num_lim t → k < num_lim u
num_lim-same folder folder k e h = h
num_lim-same folder file k e h = cc
num_lim-same folder db k e h = cc
num_lim-same file folder k e h = cc
num_lim-same file file k e h = h
num_lim-same file db k e h = cc
num_lim-same db folder k e h = cc
num_lim-same db file k e h = cc
num_lim-same db db k e h = h

marked-same :
    (sb : SuperBlock) (t u : SType) (k : ℕ) → same t u ≡ true → marked sb u k ≡ marked sb t k
marked-same sb folder folder k e = refl
marked-same sb folder file k e = cc
marked-same sb folder db k e = cc
marked-same sb file folder k e = cc
marked-same sb file file k e = refl
marked-same sb file db k e = cc
marked-same sb db folder k e = cc
marked-same sb db file k e = cc
marked-same sb db db k e = refl

-- The number of marked nodes after an unmarked one is marked.
count-set_bitmap :
    (sb : SuperBlock) (t u : SType) (k : ℕ)
    → HasMaps sb
    → k < num_lim t
    → marked sb t k ≡ false
    → count (marked (set_bitmap (pos k) t sb).1 u) (num_lim u)
      ≡ count (marked sb u) (num_lim u) + (if same t u then 1 else 0)
count-set_bitmap sb t u k w h e = elim (Bool-cases (same t u)) [
  | inl s ↦ ground (
    arith,
    count-mark (marked sb u) (marked (set_bitmap (pos k) t sb).1 u) k (num_lim u)
        (λ j. ground (arith, marked-set_bitmap sb t u k j w h)) (marked-same sb t u k s ∙ e),
    num_lim-same t u k s h,
  )
  | inr s ↦ ground (
    arith,
    count_eq (marked sb u) (marked (set_bitmap (pos k) t sb).1 u) (num_lim u)
        (λ j. ground (arith, marked-set_bitmap sb t u k j w h)),
  )
]

-- `get_free_bit` keeps the counter of every kind equal to the number of marked nodes of that kind.
pub get_free_bit-Agrees :
    (t : SType) (sb : SuperBlock)
    → HasMaps sb
    → ((u : SType) → Agrees sb u)
    → (u : SType) → Agrees (get_free_bit t sb).1 u
unfolding get_free_bit
get_free_bit-Agrees t sb w agree u = elim (find_free_bit-Finds sb t) [
  | inl (e, taken) ↦ rw e (agree u)
  | inr (k, e, lo, hi, free, taken) ↦
      let unmarked : marked sb t k ≡ false = ground (arith, is_free-marked sb t k w hi) in
      let room = count-lt (marked sb t) k (num_lim t) unmarked hi in
      let sb' = (set_bitmap (pos k) t sb).1 in
      rw e (
        omega (
          arith,
          agree u,
          used_of-inc_used sb' t u (omega (arith, room, agree t, used_of-set_bitmap sb t t k)),
          used_of-set_bitmap sb t u k,
          count-set_bitmap sb t u k w hi unmarked,
          count_eq (marked sb' u) (marked (inc_used t sb') u) (num_lim u)
              (λ j. marked-inc_used sb' t u j),
        ))
]

same_self : (t : SType) → same t t ≡ true
same_self folder = refl
same_self file = refl
same_self db = refl

cleared :
    (t : SType) (k : ℕ) (sb : SuperBlock)
    → HasMaps sb
    → k < num_lim t
    → marked (clear_bitmap (pos k) t sb).1 t k ≡ false
cleared t k sb w h = ground (arith, marked-clear_bitmap sb t t k k w h, same_self t)

restored :
    (t : SType) (k j : ℕ) (sb : SuperBlock)
    → HasMaps sb
    → k < num_lim t
    → marked sb t k ≡ true
    → marked sb t j ≡ (if k == j then true else marked (clear_bitmap (pos k) t sb).1 t j)
restored t k j sb w h e = elim (Bool-cases (k == j)) [
  | inl here ↦ let n : k ≡ j = ground arith in rw (here, ← n) e
  | inr away ↦ ground (arith, marked-clear_bitmap sb t t k j w h)
]

-- The bug: the functions that delete call `clear_bitmap` and never `dec_used`. From a state that
-- agrees, clearing the mark of a used node leaves its counter one above the number of marked nodes.
pub clear_bitmap-overcounts :
    (t : SType) (k : ℕ) (sb : SuperBlock)
    → HasMaps sb
    → k < num_lim t
    → marked sb t k ≡ true
    → Agrees sb t
    → let sb' = (clear_bitmap (pos k) t sb).1 in
      used_of sb' t ≡ count (marked sb' t) (num_lim t) + 1
clear_bitmap-overcounts t k sb w h e agree = ground (
  arith,
  agree,
  used_of-clear_bitmap sb t t k,
  num_lim-same t t k,
  same_self t,
  count-mark (marked (clear_bitmap (pos k) t sb).1 t) (marked sb t) k (num_lim t)
      (λ j. restored t k j sb w h e) (cleared t k sb w h),
)
