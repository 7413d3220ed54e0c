-- ===== src/Psv/Bitmap.antt =====
-- helper.c: the bitmaps of the super block, and how a free node is found in them.
pub mod Laws
pub mod Sizes
pub mod Free
pub mod Tests
use martian_os.Prelude.{
  ℕ, zero, suc, ◌+◌, ◌/◌, ◌%◌, Bool, true, false, List, [], ◌∷◌, get_or, set, ltb, leb, ◌==◌,
  if◌then◌else◌,
}
use martian_os.Prelude.Int.{ℤ, pos, negsuc, minus_one, eqb_ℤ}
use martian_os.Word.{Word, one_shl, or_word, and_word, not_word, asr, rem_two}
use martian_os.Psv.Types.{
  SType, folder, file, db, SuperBlock, fnode_num_lim, inode_num_lim, db_num_lim, num_lim,
}

-- Which node is looked up is never negative here: the callers pass loop counters and stored indices.
unfoldable pub get_bitmap : ℕ → SType → SuperBlock → ℤ
get_bitmap idx folder sb = rem_two (asr sb.fnode_map (idx % 32))
get_bitmap idx file sb = rem_two (asr (get_or sb.inode_map (idx / 32) []) (idx % 32))
get_bitmap idx db sb = rem_two (asr (get_or sb.db_map (idx / 32) []) (idx % 32))

-- `map[idx / 32] |= 1 << idx % 32`
abbrev pub or_bit : List Word → ℕ → List Word
or_bit maps idx = set maps (idx / 32) (or_word (get_or maps (idx / 32) []) (one_shl 32 (idx % 32)))

-- `map[idx / 32] &= ~(1 << idx % 32)`
abbrev pub and_not_bit : List Word → ℕ → List Word
and_not_bit maps idx =
    set maps (idx / 32) (and_word (get_or maps (idx / 32) []) (not_word (one_shl 32 (idx % 32))))

pub set_fm : ℤ → SuperBlock → ℤ × SuperBlock
set_fm (negsuc n) sb = (minus_one, sb)
set_fm (pos idx) sb =
    if leb fnode_num_lim idx
    then (minus_one, sb)
    else (pos 0, record sb { fnode_map = or_word sb.fnode_map (one_shl 32 idx) })

pub clear_fm : ℤ → SuperBlock → ℤ × SuperBlock
clear_fm (negsuc n) sb = (minus_one, sb)
clear_fm (pos idx) sb =
    if leb fnode_num_lim idx
    then (minus_one, sb)
    else (pos 0, record sb { fnode_map = and_word sb.fnode_map (not_word (one_shl 32 idx)) })

pub set_im : ℤ → SuperBlock → ℤ × SuperBlock
set_im (negsuc n) sb = (minus_one, sb)
set_im (pos idx) sb =
    if leb inode_num_lim idx
    then (minus_one, sb)
    else (pos 0, record sb { inode_map = or_bit sb.inode_map idx })

pub clear_im : ℤ → SuperBlock → ℤ × SuperBlock
clear_im (negsuc n) sb = (minus_one, sb)
clear_im (pos idx) sb =
    if leb inode_num_lim idx
    then (minus_one, sb)
    else (pos 0, record sb { inode_map = and_not_bit sb.inode_map idx })

pub set_dm : ℤ → SuperBlock → ℤ × SuperBlock
set_dm (negsuc n) sb = (minus_one, sb)
set_dm (pos idx) sb =
    if leb db_num_lim idx
    then (minus_one, sb)
    else (pos 0, record sb { db_map = or_bit sb.db_map idx })

pub clear_dm : ℤ → SuperBlock → ℤ × SuperBlock
clear_dm (negsuc n) sb = (minus_one, sb)
clear_dm (pos idx) sb =
    if leb db_num_lim idx
    then (minus_one, sb)
    else (pos 0, record sb { db_map = and_not_bit sb.db_map idx })

unfoldable pub set_bitmap : ℤ → SType → SuperBlock → ℤ × SuperBlock
unfolding set_fm set_im set_dm
set_bitmap idx folder sb = set_fm idx sb
set_bitmap idx file sb = set_im idx sb
set_bitmap idx db sb = set_dm idx sb

unfoldable pub clear_bitmap : ℤ → SType → SuperBlock → ℤ × SuperBlock
unfolding clear_fm clear_im clear_dm
clear_bitmap idx folder sb = clear_fm idx sb
clear_bitmap idx file sb = clear_im idx sb
clear_bitmap idx db sb = clear_dm idx sb

unfoldable pub inc_used : SType → SuperBlock → SuperBlock
inc_used folder sb =
    if leb fnode_num_lim sb.used_fnode then sb else record sb { used_fnode = sb.used_fnode + 1 }
inc_used file sb =
    if leb inode_num_lim sb.used_inode then sb else record sb { used_inode = sb.used_inode + 1 }
inc_used db sb = if leb db_num_lim sb.used_db then sb else record sb { used_db = sb.used_db + 1 }

-- `0 == get_bitmap(idx, type)`, the test of the search loops.
abbrev pub is_free : SuperBlock → SType → ℕ → Bool
is_free sb t idx = eqb_ℤ (pos 0) (get_bitmap idx t sb)

-- The loop `for (i = ...; i < limit; i++)` of the three searches, with `n` rounds left.
pub first_free : SuperBlock → SType → ℕ → ℕ → ℤ
first_free sb t zero i = minus_one
first_free sb t (suc n) i =
    let rest = first_free sb t n (i + 1) in if is_free sb t i then pos i else rest

pub get_free_bit_fm : SuperBlock → ℤ
get_free_bit_fm sb = first_free sb folder fnode_num_lim 0

pub get_free_bit_im : SuperBlock → ℤ
get_free_bit_im sb = first_free sb file inode_num_lim 0

pub get_free_bit_dm : SuperBlock → ℤ
get_free_bit_dm sb = first_free sb db db_num_lim 0

pub find_free_bit : SType → SuperBlock → ℤ
unfolding get_free_bit_fm get_free_bit_im get_free_bit_dm
find_free_bit folder sb = get_free_bit_fm sb
find_free_bit file sb = get_free_bit_im sb
find_free_bit db sb = get_free_bit_dm sb

-- The node that is found is marked and counted.
unfoldable pub get_free_bit : SType → SuperBlock → ℤ × SuperBlock
unfolding find_free_bit first_free set_bitmap inc_used get_bitmap
get_free_bit t sb =
    let idx = find_free_bit t sb in
    if eqb_ℤ idx minus_one then (idx, sb) else (idx, inc_used t (set_bitmap idx t sb).1)
