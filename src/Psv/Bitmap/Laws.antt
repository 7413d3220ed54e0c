-- ===== src/Psv/Bitmap/Laws.antt =====
-- A write to a bitmap changes the node that it names, and no other node of any kind.
use martian_os.Prelude.{
  ℕ, ◌/◌, ◌%◌, ◌<◌, ◌≡◌, Bool, true, false, not, ◌&&◌, List, [], length, get_or, get_or-set,
  length-set, ◌==◌, if◌then◌else◌, arith,
}
use martian_os.Prelude.Int.{pos, eqb_ℤ}
use martian_os.Word.{Word, test_bit, one_shl, or_word, and_word, not_word, asr, rem_two}
use martian_os.Word.Laws.{
  test_bit-set, test_bit-clear, test_bit-asr, length-or_word, length-and_word,
}
use martian_os.Psv.Types.{SType, folder, file, db, SuperBlock, HasMaps, num_lim}
use martian_os.Psv.Bitmap.{get_bitmap, set_bitmap, clear_bitmap, is_free, or_bit, and_not_bit}

rem_two-zero : (w : Word) → eqb_ℤ (pos 0) (rem_two w) ≡ not (test_bit w 0)
rem_two-zero w = ground arith

free_word :
    (w : Word) (k : ℕ) → k < length w → eqb_ℤ (pos 0) (rem_two (asr w k)) ≡ not (test_bit w k)
free_word w k h = ground (arith, rem_two-zero (asr w k), test_bit-asr w k h)

-- Bit `i` of an array of words.
abbrev pub bit_in : List Word → ℕ → Bool
bit_in maps i = test_bit (get_or maps (i / 32) []) (i % 32)

-- Every word of the array has 32 bits.
abbrev pub AreWords : List Word → Type 0
AreWords maps = (i : ℕ) → i < length maps → length (get_or maps i []) ≡ 32

bit_in-or_bit :
    (maps : List Word) (k i : ℕ)
    → AreWords maps
    → k / 32 < length maps
    → bit_in (or_bit maps k) i ≡ (if k == i then true else bit_in maps i)
bit_in-or_bit maps k i ws h = ground (
  arith,
  get_or-set maps (k / 32) (i / 32) (or_word (get_or maps (k / 32) []) (one_shl 32 (k % 32))) [] h,
  test_bit-set (get_or maps (k / 32) []) 32 (k % 32) (i % 32) (ws (k / 32) h) (omega arith),
)

bit_in-and_not_bit :
    (maps : List Word) (k i : ℕ)
    → AreWords maps
    → k / 32 < length maps
    → bit_in (and_not_bit maps k) i ≡ (if k == i then false else bit_in maps i)
bit_in-and_not_bit maps k i ws h = ground (
  arith,
  get_or-set maps (k / 32) (i / 32)
      (and_word (get_or maps (k / 32) []) (not_word (one_shl 32 (k % 32)))) [] h,
  test_bit-clear (get_or maps (k / 32) []) 32 (k % 32) (i % 32) (ws (k / 32) h) (omega arith),
)

pub length-or_bit : (maps : List Word) (k : ℕ) → length (or_bit maps k) ≡ length maps
length-or_bit maps k =
    length-set maps (k / 32) (or_word (get_or maps (k / 32) []) (one_shl 32 (k % 32)))

pub length-and_not_bit : (maps : List Word) (k : ℕ) → length (and_not_bit maps k) ≡ length maps
length-and_not_bit maps k =
    length-set maps (k / 32) (and_word (get_or maps (k / 32) []) (not_word (one_shl 32 (k % 32))))

pub or_bit-AreWords :
    (maps : List Word) (k : ℕ) → AreWords maps → k / 32 < length maps → AreWords (or_bit maps k)
or_bit-AreWords maps k ws h i hi = ground (
  arith,
  length-or_bit maps k,
  ws i,
  ws (k / 32) h,
  get_or-set maps (k / 32) i (or_word (get_or maps (k / 32) []) (one_shl 32 (k % 32))) [] h,
  length-or_word (get_or maps (k / 32) []) (one_shl 32 (k % 32)),
)

pub and_not_bit-AreWords :
    (maps : List Word) (k : ℕ)
    → AreWords maps
    → k / 32 < length maps
    → AreWords (and_not_bit maps k)
and_not_bit-AreWords maps k ws h i hi = ground (
  arith,
  length-and_not_bit maps k,
  ws i,
  ws (k / 32) h,
  get_or-set maps (k / 32) i (and_word (get_or maps (k / 32) []) (not_word (one_shl 32 (k % 32))))
      [] h,
  length-and_word (get_or maps (k / 32) []) (not_word (one_shl 32 (k % 32))),
)

pub words_of : {sb : SuperBlock} → HasMaps sb → AreWords sb.inode_map × AreWords sb.db_map
words_of w = (λ i h. w.inodes i (omega arith), λ i h. w.dbs i (omega arith))

-- The mark of a node, read off its bitmap.
abbrev pub marked : SuperBlock → SType → ℕ → Bool
marked sb folder j = test_bit sb.fnode_map j
marked sb file j = bit_in sb.inode_map j
marked sb db j = bit_in sb.db_map j

-- What `0 == get_bitmap(...)` tells.
pub is_free-marked :
    (sb : SuperBlock) (t : SType) (j : ℕ)
    → HasMaps sb
    → j < num_lim t
    → is_free sb t j ≡ not (marked sb t j)
unfolding get_bitmap
is_free-marked sb folder j w h =
    let e : j % 32 ≡ j = omega arith in
    ground (arith, free_word sb.fnode_map (j % 32) (omega arith), e)
is_free-marked sb file j w h = ground (
  arith,
  free_word (get_or sb.inode_map (j / 32) []) (j % 32)
      (omega (arith, w.inodes (j / 32) (omega arith))),
)
is_free-marked sb db j w h = ground (
  arith,
  free_word (get_or sb.db_map (j / 32) []) (j % 32) (omega (arith, w.dbs (j / 32) (omega arith))),
)

abbrev pub same : SType → SType → Bool
same folder folder = true
same file file = true
same db db = true
same _ _ = false

pub marked-set_bitmap :
    (sb : SuperBlock) (t u : SType) (idx j : ℕ)
    → HasMaps sb
    → idx < num_lim t
    → ((set_bitmap (pos idx) t sb).0 ≡ pos 0)
      × (marked (set_bitmap (pos idx) t sb).1 u j
          ≡ (if same t u && idx == j then true else marked sb u j))
unfolding set_bitmap
marked-set_bitmap sb folder folder idx j w h =
    ground (arith, test_bit-set sb.fnode_map 32 idx j w.fnodes)
marked-set_bitmap sb folder file idx j w h = ground arith
marked-set_bitmap sb folder db idx j w h = ground arith
marked-set_bitmap sb file folder idx j w h = ground arith
marked-set_bitmap sb file file idx j w h =
    ground (arith, bit_in-or_bit sb.inode_map idx j (words_of w).0 (omega (arith, w.inode_words)))
marked-set_bitmap sb file db idx j w h = ground arith
marked-set_bitmap sb db folder idx j w h = ground arith
marked-set_bitmap sb db file idx j w h = ground arith
marked-set_bitmap sb db db idx j w h =
    ground (arith, bit_in-or_bit sb.db_map idx j (words_of w).1 (omega (arith, w.db_words)))

pub marked-clear_bitmap :
    (sb : SuperBlock) (t u : SType) (idx j : ℕ)
    → HasMaps sb
    → idx < num_lim t
    → ((clear_bitmap (pos idx) t sb).0 ≡ pos 0)
      × (marked (clear_bitmap (pos idx) t sb).1 u j
          ≡ (if same t u && idx == j then false else marked sb u j))
unfolding clear_bitmap
marked-clear_bitmap sb folder folder idx j w h =
    ground (arith, test_bit-clear sb.fnode_map 32 idx j w.fnodes)
marked-clear_bitmap sb folder file idx j w h = ground arith
marked-clear_bitmap sb folder db idx j w h = ground arith
marked-clear_bitmap sb file folder idx j w h = ground arith
marked-clear_bitmap sb file file idx j w h =
    ground
      (arith, bit_in-and_not_bit sb.inode_map idx j (words_of w).0 (omega (arith, w.inode_words)))
marked-clear_bitmap sb file db idx j w h = ground arith
marked-clear_bitmap sb db folder idx j w h = ground arith
marked-clear_bitmap sb db file idx j w h = ground arith
marked-clear_bitmap sb db db idx j w h =
    ground (arith, bit_in-and_not_bit sb.db_map idx j (words_of w).1 (omega (arith, w.db_words)))
