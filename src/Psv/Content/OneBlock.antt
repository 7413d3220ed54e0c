-- ===== src/Psv/Content/OneBlock.antt =====
-- One block that is written for a file, and read.
use martian_os.Prelude.{
  ℕ, zero, suc, ◌+◌, ◌-◌, ◌*◌, ◌/◌, ◌^◌, ◌<◌, ◌≤◌, ◌≡◌, ◌≢◌, refl, ap, ◌∙◌, true, false, Bool-cases,
  inl, inr, some, List, [], ◌∷◌, ◌++◌, get_or, set, take, length, length-set, length-append,
  length-take, length-replicate, replicate, min, leb, ltb, ◌==◌, ◌>>=◌, step_some, arith,
}
use martian_os.Prelude.Int.{pos}
use martian_os.CString.Compare.{AreBytes}
use martian_os.CString.Bytes.{append-AreBytes, take-AreBytes, zeros-AreBytes}
use martian_os.Psv.Types.{FileNode, SuperBlock, file, db, psv_start_lba}
use martian_os.Psv.Bitmap.{is_free, get_free_bit}
use martian_os.Psv.Location.{idx2lba}
use martian_os.Psv.Volume.{Layout, Volume, read_inode, write_inode, read_db, write_db, write_sb}
use martian_os.Psv.Volume.Shape.{IsInode, Encodes}
use martian_os.Psv.Volume.Mount.{set-each}
use martian_os.Psv.Folders.{with_sb}
use martian_os.Psv.Content.{
  padded_block, local_inode, write_block, next_block, write_blocks, finish_write, write_new,
  put_bytes,
}
use martian_os.Psv.Read.{read_node, read_span}

unfoldable pub one_block : ℕ → ℕ → FileNode → FileNode
one_block len k inode = record inode { len = len; data_blocks = set inode.data_blocks 0 k }

module _ (l : Layout) where
  -- What the volume is after a single block went to node `k` and the file node to `idx`.
  pub after_write : List ℕ → ℕ → ℕ → ℕ → FileNode → SuperBlock → Volume l.Sector → Volume l.Sector
  after_write buf len k idx inode sb w =
      write_inode l inode idx (write_sb l (write_db l (padded_block len buf) k (with_sb l sb w)))

  unfoldable block_volume : List ℕ → ℕ → ℕ → SuperBlock → Volume l.Sector → Volume l.Sector
  block_volume buf len k sb w = write_db l (padded_block len buf) k (with_sb l sb w)

  write_block_one :
      (buf : List ℕ) (len k : ℕ) (inode : FileNode) (sb : SuperBlock) (w : Volume l.Sector)
      → 0 < length inode.data_blocks
      → write_block l buf 0 len 0 k inode (with_sb l sb w)
        ≡ some
            (record inode { data_blocks = set inode.data_blocks 0 k }, block_volume buf len k sb w)
  unfolding write_block block_volume
  write_block_one buf len k inode sb w h =
      let b : ltb 0 (length inode.data_blocks) ≡ true = ground arith in rw b refl

  write_blocks_one :
      (buf : List ℕ) (len k : ℕ) (inode : FileNode) (sb : SuperBlock) (w : Volume l.Sector)
      → 0 < length inode.data_blocks
      → get_free_bit db w.super_block ≡ (pos k, sb)
      → write_blocks l buf 0 len 1 0 inode w
        ≡ some (
          true,
          record inode { data_blocks = set inode.data_blocks 0 k },
          block_volume buf len k sb w,
        )
  unfolding write_blocks next_block
  write_blocks_one buf len k inode sb w h e =
      let later = λ (g : FileNode) (u : Volume l.Sector). some (true, g, u) in
      ap (next_block l buf 0 len 0 inode w later) e
      ∙ step_some (write_block l buf 0 len 0 k inode (with_sb l sb w))
          (record inode { data_blocks = set inode.data_blocks 0 k }, block_volume buf len k sb w)
          (λ (g, u). later g u) (write_block_one buf len k inode sb w h)

  pub write_new_one :
      (buf : List ℕ) (idx len k : ℕ) (inode : FileNode) (sb : SuperBlock) (w : Volume l.Sector)
      → 0 < len
      → len ≤ 512
      → 0 < length inode.data_blocks
      → get_free_bit db w.super_block ≡ (pos k, sb)
      → write_new l buf idx len inode w
        ≡ some (pos len, after_write buf len k idx (one_block len k inode) sb w)
  unfolding write_new finish_write after_write one_block block_volume
  write_new_one buf idx len k inode sb w h0 h1 hb e =
      let z : (len == 0) ≡ false = ground arith in
      let q : (len - 1) / 512 ≡ 0 = omega arith in
      let o : len - 0 * 512 ≡ len = omega arith in
      let r = write_blocks_one buf len k (record inode { len = len }) sb w hb e in
      rw (z, q, o) (ap (λ p. p >>= finish_write l idx len) r)

-- The sectors of a data block and of a file node up to index 32.
apart :
    (idx k : ℕ)
    → idx ≤ 32
    → (idx2lba (pos k) db ≢ psv_start_lba) × (idx2lba (pos idx) file ≢ idx2lba (pos k) db)
unfolding idx2lba
apart idx k h = elim (Bool-cases (ltb 32 k)) [
  | inl e ↦ let f : ltb 32 idx ≡ false = ground arith in rw (e, f) (ground arith, ground arith)
  | inr e ↦ let f : ltb 32 idx ≡ false = ground arith in rw (e, f) (ground arith, ground arith)
]

pub padded-IsBlock :
    (len : ℕ) (buf : List ℕ)
    → len ≤ 512
    → len ≤ length buf
    → AreBytes buf
    → (length (padded_block len buf) ≡ 512) × AreBytes (padded_block len buf)
padded-IsBlock len buf h k b = (
  omega (
    arith,
    length-append (take len buf) (replicate (512 - len) 0),
    length-take len buf,
    length-replicate {A = ℕ} (512 - len) 0,
  ),
  append-AreBytes (take len buf) (replicate (512 - len) 0) (take-AreBytes len buf b)
      (zeros-AreBytes (512 - len)),
)

module _ (l : Layout) (enc : Encodes l) where
  pub read_block_back :
      (buf tmp : List ℕ) (len k idx : ℕ) (g : FileNode) (sb : SuperBlock) (w : Volume l.Sector)
      → idx ≤ 32
      → is_free sb db k ≡ false
      → (length (padded_block len buf) ≡ 512) × AreBytes (padded_block len buf)
      → read_db l tmp k (after_write l buf len k idx g sb w) ≡ padded_block len buf
  unfolding after_write read_db write_db write_sb write_inode
  read_block_back buf tmp len k idx g sb w h m (b, c) =
      let (a1, a2) = apart idx k h in
      let t1 : (psv_start_lba == idx2lba (pos k) db) ≡ false = ground arith in
      let t2 : (idx2lba (pos idx) file == idx2lba (pos k) db) ≡ false = ground arith in
      let t3 : (idx2lba (pos k) db == idx2lba (pos k) db) ≡ true = ground arith in
      rw (m, t2, t1, t3) (enc.block_back (padded_block len buf) b c)

  pub local_inode_back :
      (buf : List ℕ) (len k idx : ℕ) (g : FileNode) (sb : SuperBlock) (w : Volume l.Sector)
      → is_free sb file idx ≡ false
      → IsInode g
      → local_inode l idx (after_write l buf len k idx g sb w) ≡ some g
  unfolding after_write read_inode write_inode write_sb write_db
  local_inode_back buf len k idx g sb w m c =
      let t : (idx2lba (pos idx) file == idx2lba (pos idx) file) ≡ true = ground arith in
      rw (m, t) (ap some (enc.inode_back g c))

take-padded :
    (e len : ℕ) (buf z : List ℕ)
    → e ≤ len
    → len ≤ length buf
    → take e (take len buf ++ z) ≡ take e buf
take-padded zero len buf z h k = refl
take-padded (suc e) zero buf z h k = absurd (omega arith)
take-padded (suc e) (suc len) [] z h k = absurd (omega arith)
take-padded (suc e) (suc len) (x ∷ buf) z h k =
    ap (◌∷◌ x) (take-padded e len buf z (omega arith) (omega arith))

module _ (l : Layout) where
  -- A read of a node with less than one block.
  pub read_node_one :
      (g : FileNode) (buf out tmp : List ℕ) (n : ℕ) (v : Volume l.Sector)
      → 0 < g.len
      → g.len < 512
      → 0 < n
      → g.len ≤ length buf
      → read_db l tmp (get_or g.data_blocks 0 0) v ≡ padded_block g.len buf
      → read_node l g 0 n out tmp v ≡ (pos (min g.len n), put_bytes out 0 (take (min g.len n) buf))
  unfolding read_node read_span
  read_node_one g buf out tmp n v h0 h1 hn hb e =
      let end : ℕ = min g.len n in
      let t : leb g.len 0 ≡ false = ground arith in
      let m : min g.len (0 + n) ≡ end = omega arith in
      let q : end / 512 ≡ 0 = omega arith in
      let y : end - 0 ≡ end = omega arith in
      let s : leb 0 end ≡ true = ground arith in
      let p : take end (padded_block g.len buf) ≡ take end buf =
        take-padded end g.len buf (replicate (512 - g.len) 0) (omega arith) hb in
      rw (t, m, q, e, y, y, s, p) refl

-- The old node with the length and the first block of the new content.
pub one_block-IsInode :
    (len k : ℕ) (inode : FileNode)
    → IsInode inode
    → len < 2 ^ 31
    → k < 2048
    → IsInode (one_block len k inode)
unfolding one_block
one_block-IsInode len k inode i h hk = record {
  len_int = h;
  slots = length-set inode.data_blocks 0 k ∙ i.slots;
  blocks = set-each (λ n. n < 2 ^ 31) inode.data_blocks 0 k 0 (omega arith) i.blocks;
}
