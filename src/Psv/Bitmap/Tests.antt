-- ===== src/Psv/Bitmap/Tests.antt =====
-- Runs of the bitmap functions, and the theorems at concrete inputs.
use martian_os.Prelude.{ℕ, zero, suc, ◌<◌, ◌≡◌, refl, [], ◌∷◌, length, get_or, replicate, arith}
use martian_os.Prelude.Int.{pos, minus_one}
use martian_os.Word.{zeros, one_shl}
use martian_os.Psv.Types.{folder, file, SuperBlock, HasMaps}
use martian_os.Psv.Bitmap.{set_bitmap, get_bitmap, get_free_bit}
use martian_os.Psv.Bitmap.Free.{Allocates, get_free_bit-Allocates}

-- The super block that `PSV_setup` writes: only the root folder is in use.
abbrev pub fresh_sb : SuperBlock
fresh_sb = record {
  name = [];
  total_fnode = 32;
  used_fnode = 1;
  total_inode = 64;
  used_inode = 0;
  total_db = 2048;
  used_db = 0;
  fnode_offset = 1;
  inode_offset = 65;
  db_offset = 129;
  fnode_map = one_shl 32 0;
  inode_map = replicate 2 (zeros 32);
  db_map = replicate 64 (zeros 32);
  root = record { used = 1; foldername = b'/' ∷ []; fnode_idx = 0 };
}

replicate_word : (n i : ℕ) → i < n → length (get_or (replicate n (zeros 32)) i []) ≡ 32
replicate_word zero i h = elim h [ ]
replicate_word (suc n) zero h = refl
replicate_word (suc n) (suc i) h = replicate_word n i (omega arith)

pub fresh_sb-HasMaps : HasMaps fresh_sb
fresh_sb-HasMaps = record {
  fnodes = refl;
  inode_words = refl;
  inodes = λ i h. replicate_word 2 i h;
  db_words = refl;
  dbs = λ i h. replicate_word 64 i h;
}

first_folder : (get_free_bit folder fresh_sb).0 ≡ pos 1
unfolding get_free_bit
first_folder = refl

first_file_then_second : (get_free_bit file (get_free_bit file fresh_sb).1).0 ≡ pos 1
unfolding get_free_bit
first_file_then_second = refl

-- The top bit reads as -1, since the map is signed.
top_bit : get_bitmap 31 folder (set_bitmap (pos 31) folder fresh_sb).1 ≡ minus_one
unfolding get_bitmap set_bitmap
top_bit = refl

out_of_range : (set_bitmap (pos 32) folder fresh_sb).0 ≡ minus_one
unfolding set_bitmap
out_of_range = refl

get_free_bit-Allocates_example : Allocates fresh_sb file (get_free_bit file fresh_sb)
get_free_bit-Allocates_example = get_free_bit-Allocates file fresh_sb fresh_sb-HasMaps
