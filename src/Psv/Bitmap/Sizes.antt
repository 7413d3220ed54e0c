-- ===== src/Psv/Bitmap/Sizes.antt =====
-- No operation on the bitmaps changes their sizes.
use martian_os.Prelude.{ℕ, ◌≡◌, List, length, leb, Bool-cases, inl, inr, arith, ◌∙◌}
use martian_os.Prelude.Int.{ℤ, pos, negsuc}
use martian_os.Word.{Word, one_shl, not_word}
use martian_os.Word.Laws.{length-or_word, length-and_word}
use martian_os.Psv.Types.{
  SType, folder, file, db, SuperBlock, HasMaps, fnode_num_lim, inode_num_lim, db_num_lim,
}
use martian_os.Psv.Bitmap.{set_bitmap, clear_bitmap, inc_used}
use martian_os.Psv.Bitmap.Laws.{
  words_of, length-or_bit, length-and_not_bit, or_bit-AreWords, and_not_bit-AreWords, AreWords,
}

with_fnodes :
    {sb : SuperBlock} (m : Word)
    → HasMaps sb
    → length m ≡ 32
    → HasMaps (record sb { fnode_map = m })
with_fnodes m w h = record {
  fnodes = h;
  inode_words = w.inode_words;
  inodes = w.inodes;
  db_words = w.db_words;
  dbs = w.dbs;
}

with_inodes :
    {sb : SuperBlock} (m : List Word)
    → HasMaps sb
    → length m ≡ 2
    → AreWords m
    → HasMaps (record sb { inode_map = m })
with_inodes m w h ws = record {
  fnodes = w.fnodes;
  inode_words = h;
  inodes = λ i hi. ws i (omega arith);
  db_words = w.db_words;
  dbs = w.dbs;
}

with_dbs :
    {sb : SuperBlock} (m : List Word)
    → HasMaps sb
    → length m ≡ 64
    → AreWords m
    → HasMaps (record sb { db_map = m })
with_dbs m w h ws = record {
  fnodes = w.fnodes;
  inode_words = w.inode_words;
  inodes = w.inodes;
  db_words = h;
  dbs = λ i hi. ws i (omega arith);
}

pub set_bitmap-HasMaps :
    (idx : ℤ) (t : SType) (sb : SuperBlock) → HasMaps sb → HasMaps (set_bitmap idx t sb).1
unfolding set_bitmap
set_bitmap-HasMaps (negsuc n) folder sb w = w
set_bitmap-HasMaps (negsuc n) file sb w = w
set_bitmap-HasMaps (negsuc n) db sb w = w
set_bitmap-HasMaps (pos k) folder sb w = elim (Bool-cases (leb fnode_num_lim k)) [
  | inl e ↦ rw e w
  | inr e ↦ rw e (with_fnodes _ w (length-or_word sb.fnode_map (one_shl 32 k) ∙ w.fnodes))
]
set_bitmap-HasMaps (pos k) file sb w = elim (Bool-cases (leb inode_num_lim k)) [
  | inl e ↦ rw e w
  | inr e ↦ rw e (
      with_inodes _ w (length-or_bit sb.inode_map k ∙ w.inode_words)
        (or_bit-AreWords sb.inode_map k (words_of w).0 (ground (arith, w.inode_words))))
]
set_bitmap-HasMaps (pos k) db sb w = elim (Bool-cases (leb db_num_lim k)) [
  | inl e ↦ rw e w
  | inr e ↦ rw e (
      with_dbs _ w (length-or_bit sb.db_map k ∙ w.db_words)
        (or_bit-AreWords sb.db_map k (words_of w).1 (ground (arith, w.db_words))))
]

pub clear_bitmap-HasMaps :
    (idx : ℤ) (t : SType) (sb : SuperBlock) → HasMaps sb → HasMaps (clear_bitmap idx t sb).1
unfolding clear_bitmap
clear_bitmap-HasMaps (negsuc n) folder sb w = w
clear_bitmap-HasMaps (negsuc n) file sb w = w
clear_bitmap-HasMaps (negsuc n) db sb w = w
clear_bitmap-HasMaps (pos k) folder sb w = elim (Bool-cases (leb fnode_num_lim k)) [
  | inl e ↦ rw e w
  | inr e ↦
      rw e (with_fnodes _ w (length-and_word sb.fnode_map (not_word (one_shl 32 k)) ∙ w.fnodes))
]
clear_bitmap-HasMaps (pos k) file sb w = elim (Bool-cases (leb inode_num_lim k)) [
  | inl e ↦ rw e w
  | inr e ↦ rw e (
      with_inodes _ w (length-and_not_bit sb.inode_map k ∙ w.inode_words)
        (and_not_bit-AreWords sb.inode_map k (words_of w).0 (ground (arith, w.inode_words))))
]
clear_bitmap-HasMaps (pos k) db sb w = elim (Bool-cases (leb db_num_lim k)) [
  | inl e ↦ rw e w
  | inr e ↦ rw e (
      with_dbs _ w (length-and_not_bit sb.db_map k ∙ w.db_words)
        (and_not_bit-AreWords sb.db_map k (words_of w).1 (ground (arith, w.db_words))))
]

with_counts :
    {sb : SuperBlock} (a b c : ℕ)
    → HasMaps sb
    → HasMaps (record sb { used_fnode = a; used_inode = b; used_db = c })
with_counts a b c w = record {
  fnodes = w.fnodes;
  inode_words = w.inode_words;
  inodes = w.inodes;
  db_words = w.db_words;
  dbs = w.dbs;
}

pub inc_used-HasMaps : (t : SType) (sb : SuperBlock) → HasMaps sb → HasMaps (inc_used t sb)
unfolding inc_used
inc_used-HasMaps folder sb w = elim (Bool-cases (leb fnode_num_lim sb.used_fnode)) [
  | inl e ↦ rw e w
  | inr e ↦ rw e (with_counts _ _ _ w)
]
inc_used-HasMaps file sb w = elim (Bool-cases (leb inode_num_lim sb.used_inode)) [
  | inl e ↦ rw e w
  | inr e ↦ rw e (with_counts _ _ _ w)
]
inc_used-HasMaps db sb w = elim (Bool-cases (leb db_num_lim sb.used_db)) [
  | inl e ↦ rw e w
  | inr e ↦ rw e (with_counts _ _ _ w)
]
