-- ===== src/Fs/Read.antt =====
-- The bytes that read_data copies for a range of a file, against the file as its inode describes it.
pub mod Result
pub mod Pieces
use martian_os.Prelude.{
  ℕ, zero, suc, ◌+◌, ◌-◌, ◌*◌, ◌/◌, ◌%◌, ◌^◌, ◌<◌, ◌≤◌, ◌≡◌, refl, ap, sym, ◌∙◌, ◌⊎◌, inl, inr,
  Bool, true, false, not, List, [], ◌∷◌, ◌++◌, leb, ltb, ◌==◌, if◌then◌else◌, Bool-cases, arith,
  min,
}
use mathlib.Core.Path.{ap₂}
use native.Mathlib.Nat.{add-zero}
use mathlib.Core.List.{append_assoc, append-nil}
use martian_os.Prelude.Machine.{add32, sub32, mul32, ones32}
use martian_os.Fs.{
  Image, block_size, max_files, inode_length, inode_block, data_blk_ptr, slice, has_bad_block,
  copy_blocks, copy_range, read_data,
}

-- Byte `p` of a file: byte `p % 4096` of the data block that its inode names at `p / 4096`.
pub file_byte : Image → ℕ → ℕ → ℕ
file_byte s inode p =
    s.mem (s.data_block_start + inode_block s inode (p / block_size) * block_size + p % block_size)

file_byte_at :
    (s : Image) (inode p j off : ℕ)
    → p / block_size ≡ j
    → p % block_size ≡ off
    → file_byte s inode p ≡ s.mem (s.data_block_start + inode_block s inode j * block_size + off)
unfolding file_byte
file_byte_at s inode p j off e f =
    ap₂ (λ a b. s.mem (s.data_block_start + inode_block s inode a * block_size + b)) e f

-- The `n` bytes of a file from `p` on.
unfoldable pub file_bytes : Image → ℕ → ℕ → ℕ → List ℕ
file_bytes s inode p zero = []
file_bytes s inode p (suc n) = file_byte s inode p ∷ file_bytes s inode (p + 1) n

pub file_bytes-append :
    (s : Image) (inode n m k p q : ℕ)
    → n + m ≡ k
    → p + n ≡ q
    → file_bytes s inode p k ≡ file_bytes s inode p n ++ file_bytes s inode q m
unfolding file_bytes
file_bytes-append s inode zero m k p q e f =
    let e' : k ≡ m = omega arith in let f' : q ≡ p = omega arith in rw (e', f')
file_bytes-append s inode (suc n) m zero p q e f = absurd (omega arith)
file_bytes-append s inode (suc n) m (suc k) p q e f =
    ap (◌∷◌ (file_byte s inode p))
      (file_bytes-append s inode n m k (p + 1) q (omega arith) (omega arith))

slice_eq :
    (s : Image) (inode n a p : ℕ)
    → ((i : ℕ) → i < n → s.mem (a + i) ≡ file_byte s inode (p + i))
    → slice s.mem a n ≡ file_bytes s inode p n
unfolding slice file_bytes
slice_eq s inode zero a p h = refl
slice_eq s inode (suc n) a p h = ap₂ ◌∷◌ first (slice_eq s inode n (a + 1) (p + 1) shifted)
  where
    first : s.mem a ≡ file_byte s inode p
    first = rw (add-zero, add-zero) at (h 0 (omega arith))

    shifted : (i : ℕ) → i < n → s.mem (a + 1 + i) ≡ file_byte s inode (p + 1 + i)
    shifted i hi =
        let e : a + 1 + i ≡ a + (i + 1) = omega arith in
        let f : p + 1 + i ≡ p + (i + 1) = omega arith in rw (e, f) (h (i + 1) (omega arith))

-- No block number of the file from `i` on and below `k` is out of range.
abbrev pub GoodBlocks : Image → ℕ → ℕ → ℕ → Type 0
GoodBlocks s inode i k = (j : ℕ) → i ≤ j → j < k → inode_block s inode j < s.num_data_blocks

pub has_bad_block_good :
    (s : Image) (inode n i k : ℕ)
    → i + n ≡ k
    → GoodBlocks s inode i k
    → has_bad_block s inode n i ≡ false
unfolding has_bad_block
has_bad_block_good s inode zero i k e g = refl
has_bad_block_good s inode (suc n) i k e g = ground (
  arith,
  g i (omega arith) (omega arith),
  has_bad_block_good s inode n (i + 1) k (omega arith) (λ j lo hi. g j (omega arith) hi),
)

pub has_bad_block_bad :
    (s : Image) (inode n i j : ℕ)
    → i ≤ j
    → j < i + n
    → s.num_data_blocks ≤ inode_block s inode j
    → has_bad_block s inode n i ≡ true
unfolding has_bad_block
has_bad_block_bad s inode zero i j lo hi bad = absurd (omega arith)
has_bad_block_bad s inode (suc n) i j lo hi bad = elim (Bool-cases (i == j)) [
  | inl here ↦ let e : i ≡ j = ground arith in rw e (ground arith)
  | inr away ↦
      ground (arith, has_bad_block_bad s inode n (i + 1) j (ground arith) (omega arith) bad)
]

module _ (s : Image) (inode : ℕ)
    (fits : s.data_block_start + s.num_data_blocks * block_size ≤ 2 ^ 32) where
  -- Bytes within one block.
  slice_block :
      (j off n p : ℕ)
      → inode_block s inode j < s.num_data_blocks
      → off + n ≤ block_size
      → j * block_size + off ≡ p
      → slice s.mem (data_blk_ptr s inode j + off) n ≡ file_bytes s inode p n
  slice_block j off n p h fit e = slice_eq s inode n (data_blk_ptr s inode j + off) p λ i hi.
      let blk : (p + i) / block_size ≡ j = omega arith in
      let rem : (p + i) % block_size ≡ off + i = omega arith in
      let addr : data_blk_ptr s inode j + off + i
          ≡ s.data_block_start + inode_block s inode j * block_size + (off + i) =
        omega arith in
      ap s.mem addr ∙ sym (file_byte_at s inode (p + i) j (off + i) blk rem)

  copy_blocks_lem :
      (n i p : ℕ)
      → GoodBlocks s inode i (i + n)
      → i * block_size ≡ p
      → copy_blocks s inode n i ≡ file_bytes s inode p (n * block_size)
  unfolding copy_blocks
  copy_blocks_lem zero i p g e = unfold file_bytes in refl
  copy_blocks_lem (suc n) i p g e =
      let addr : data_blk_ptr s inode i ≡ data_blk_ptr s inode i + 0 = omega arith in
      rw addr (
        ap₂ ◌++◌
          (slice_block i 0 block_size p (g i (omega arith) (omega arith)) (omega arith)
            (omega arith))
          (copy_blocks_lem n (i + 1) (p + block_size) (λ j lo hi. g j (omega arith) (omega arith))
            (omega arith))
        ∙ sym (
            file_bytes-append s inode block_size (n * block_size) (suc n * block_size) p
              (p + block_size) (omega arith) refl))

  within_one :
      (offset end : ℕ)
      → offset ≤ end
      → end / block_size ≡ offset / block_size
      → GoodBlocks s inode (offset / block_size) (end / block_size + 1)
      → slice s.mem
          (data_blk_ptr s inode (offset / block_size) + (offset - offset / block_size * block_size))
          (sub32 (end - end / block_size * block_size) (offset - offset / block_size * block_size))
        ≡ file_bytes s inode offset (end - offset)
  within_one offset end le same g =
      let n : sub32 (end - end / block_size * block_size)
            (offset - offset / block_size * block_size)
          ≡ end - offset =
        omega arith in
      rw n (
        slice_block (offset / block_size) (offset - offset / block_size * block_size) (end - offset)
          offset (g (offset / block_size) (omega arith) (omega arith)) (omega arith) (omega arith))

  across_blocks :
      (offset end : ℕ)
      → offset / block_size < end / block_size
      → GoodBlocks s inode (offset / block_size) (end / block_size + 1)
      → slice s.mem
            (data_blk_ptr s inode (offset / block_size)
              + (offset - offset / block_size * block_size))
            (block_size - (offset - offset / block_size * block_size))
          ++ (copy_blocks s inode
                (end / block_size - (offset / block_size + 1))
                (offset / block_size + 1)
              ++ slice s.mem
                  (data_blk_ptr s inode (end / block_size))
                  (end - end / block_size * block_size))
        ≡ file_bytes s inode offset (end - offset)
  across_blocks offset end lt g =
      let i = offset / block_size in
      let k = end / block_size in
      let n = (k - (i + 1)) * block_size in
      let addr : data_blk_ptr s inode k ≡ data_blk_ptr s inode k + 0 = omega arith in
      rw addr (
        ap₂ ◌++◌
          (slice_block i (offset - i * block_size) (block_size - (offset - i * block_size)) offset
            (g i (omega arith) (omega arith)) (omega arith) (omega arith))
          (ap₂ ◌++◌
              (copy_blocks_lem (k - (i + 1)) (i + 1) ((i + 1) * block_size)
                (λ j lo hi. g j (omega arith) (omega arith)) refl)
              (slice_block k 0 (end - k * block_size) (k * block_size)
                (g k (omega arith) (omega arith)) (omega arith) (omega arith))
            ∙ sym (
                file_bytes-append s inode n (end - k * block_size) (end - (i + 1) * block_size)
                  ((i + 1) * block_size) (k * block_size) (omega arith) (omega arith)))
        ∙ sym (
            file_bytes-append s inode (block_size - (offset - i * block_size))
              (end - (i + 1) * block_size) (end - offset) offset ((i + 1) * block_size)
              (omega arith) (omega arith)))

  pub copy_range_lem :
      (offset end : ℕ)
      → offset ≤ end
      → GoodBlocks s inode (offset / block_size) (end / block_size + 1)
      → copy_range s inode offset end ≡ file_bytes s inode offset (end - offset)
  unfolding copy_range
  copy_range_lem offset end le g = elim (Bool-cases (end / block_size == offset / block_size)) [
    | inl same ↦
        let same' : (offset / block_size == end / block_size) ≡ true = ground arith in
        let none : end / block_size - (offset / block_size + 1) ≡ 0 = ground arith in
        rw (same, same', none)
          (unfold copy_blocks in (append-nil _ ∙ within_one offset end le (ground arith) g))
    | inr other ↦
        let other' : (offset / block_size == end / block_size) ≡ false = ground arith in
        rw (other, other') (across_blocks offset end (ground arith) g)
  ]
