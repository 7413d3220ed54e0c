-- ===== src/Fs/Read/Pieces.antt =====
-- A file that is read in pieces, as the programs read it.
use mathlib.Core.Option
use martian_os.Prelude.{
  length, ℕ, zero, suc, ◌+◌, ◌-◌, ◌/◌, ◌<◌, ◌≡◌, refl, ap, sym, ◌∙◌, true, false, Option, none,
  some, List, [], ◌∷◌, ◌++◌, min, leb, ◌==◌, if◌then◌else◌, arith,
}
use martian_os.Prelude.Machine.{ones32, add32}
use martian_os.Fs.{Image, FileEntry, inode_length, block_size, max_files, read_data, file_read}
use martian_os.Fs.Read.{file_bytes, file_bytes-append, GoodBlocks}
use martian_os.Fs.Read.Result.{Fits, read_data_lem}
use martian_os.Programs.Files.{concat}

-- What reads of `n` bytes give, one after the other, up to the one that returns 0, on fuel. `none` is
-- a sequence of reads that has not come to its end.
pub read_pieces : ℕ → Image → FileEntry → ℕ → Option (List (List ℕ))
read_pieces zero s fp n = none
read_pieces (suc fuel) s fp n =
    let got = file_read s fp n in
    let rest = read_pieces fuel s got.2 n in
    if got.0 == 0 then some [] else Option.map (λ ps. got.1 ∷ ps) rest

-- A read of up to `n` bytes gives what is there, and moves on by as much.
pub file_read_part :
    (s : Image) (fp : FileEntry) (n k : ℕ)
    → Fits s
    → fp.inode < max_files
    → fp.file_pos < inode_length s fp.inode
    → inode_length s fp.inode + n < ones32
    → GoodBlocks s fp.inode 0 (inode_length s fp.inode / block_size + 1)
    → min (inode_length s fp.inode) (fp.file_pos + n) - fp.file_pos ≡ k
    → file_read s fp n
      ≡ (k, file_bytes s fp.inode fp.file_pos k, record fp { file_pos = fp.file_pos + k })
unfolding file_read
file_read_part s fp n k fits hi ho hn g e =
    let ok : (k == ones32) ≡ false = ground arith in
    let pos : add32 fp.file_pos k ≡ fp.file_pos + k = omega arith in
    let whole =
      read_data_lem s fp.inode fp.file_pos n fits hi ho (omega arith)
        (λ j lo up. g j (omega arith) (omega arith)) in
    rw (whole, e, ok, pos) refl

-- At its end a read gives nothing.
pub file_read_end :
    (s : Image) (fp : FileEntry) (n : ℕ)
    → fp.inode < max_files
    → fp.file_pos ≡ inode_length s fp.inode
    → fp.file_pos < ones32
    → file_read s fp n ≡ (0, [], fp)
unfolding file_read read_data
file_read_end s fp n hi e small =
    let low : leb max_files fp.inode ≡ false = ground arith in
    let behind : leb (inode_length s fp.inode) fp.file_pos ≡ true = ground arith in
    let stay : add32 fp.file_pos 0 ≡ fp.file_pos = omega arith in rw (low, behind, stay) refl

-- Reads of any positive size, from a position in the file or at its end, end within as many as
-- there are bytes left and one more, and what they give, one behind the other, is the rest of the
-- file; every block number of the file must be good.
pub read_pieces-file_bytes :
    (fuel : ℕ) (s : Image) (fp : FileEntry) (n m : ℕ)
    → Fits s
    → fp.inode < max_files
    → 0 < n
    → inode_length s fp.inode + n < ones32
    → GoodBlocks s fp.inode 0 (inode_length s fp.inode / block_size + 1)
    → fp.file_pos + m ≡ inode_length s fp.inode
    → m < fuel
    → (ps : List (List ℕ)) × (read_pieces fuel s fp n ≡ some ps)
      × (concat ps ≡ file_bytes s fp.inode fp.file_pos m)
unfolding read_pieces file_bytes
read_pieces-file_bytes zero s fp n m fits hi some_size hn g all enough = absurd (omega arith)
read_pieces-file_bytes (suc fuel) s fp n zero fits hi some_size hn g all enough =
    ([], rw (file_read_end s fp n hi (omega (arith, all)) (omega (arith, all))) refl, refl)
read_pieces-file_bytes (suc fuel) s fp n (suc m) fits hi some_size hn g all enough =
    let k = min (suc m) n in
    let e : min (inode_length s fp.inode) (fp.file_pos + n) - fp.file_pos ≡ k =
      omega (arith, all) in
    let got = file_read_part s fp n k fits hi (omega (arith, all)) hn g e in
    let more : (k == 0) ≡ false = ground arith in
    let (ps, done, later) =
      read_pieces-file_bytes fuel s (record fp { file_pos = fp.file_pos + k }) n (suc m - k) fits hi
        some_size hn g (omega (arith, all)) (omega arith) in
    (
      file_bytes s fp.inode fp.file_pos k ∷ ps,
      rw (got, more, done) refl,
      ap (λ x. file_bytes s fp.inode fp.file_pos k ++ x) later
          ∙ sym (
              file_bytes-append s fp.inode k (suc m - k) (suc m) fp.file_pos (fp.file_pos + k)
                (omega arith) refl),
    )

pub length-file_bytes : (s : Image) (ino k a : ℕ) → length (file_bytes s ino a k) ≡ k
unfolding file_bytes
length-file_bytes s ino zero a = refl
length-file_bytes s ino (suc k) a = ap suc (length-file_bytes s ino k (a + 1))
