-- ===== src/Psv/Content/RoundTrip.antt =====
-- A content of less than one block that is written and read.
use martian_os.Prelude.{
  ℕ, ◌+◌, ◌-◌, ◌*◌, ◌/◌, ◌^◌, ◌<◌, ◌≤◌, ◌≡◌, refl, ap, ◌∙◌, true, false, not, Bool-cases, inl, inr,
  Option, none, some, List, get_or, set, take, length, get_or-set, min, leb, ltb, if◌then◌else◌,
  ◌>>=◌, arith,
}
use martian_os.Prelude.Int.{ℤ, pos}
use martian_os.CString.Compare.{AreBytes}
use martian_os.Psv.Types.{FileNode, SuperBlock, HasMaps, file, db}
use martian_os.Psv.Bitmap.{is_free, get_free_bit}
use martian_os.Psv.Bitmap.Free.{get_free_bit-Allocates}
use martian_os.Psv.Location.{idx2lba}
use martian_os.Psv.Volume.{Layout, Volume, get_num_db, read_inode, read_db}
use martian_os.Psv.Volume.Shape.{IsInode, Encodes}
use martian_os.Psv.Content.{local_inode, delete_dbs, write_new, write_content, put_bytes, bad_inode}
use martian_os.Psv.Content.Frees.{delete_dbs-Frees}
use martian_os.Psv.Read.{read_node, read_span, read_content}
use martian_os.Psv.Content.OneBlock.{
  after_write, one_block, write_new_one, read_block_back, local_inode_back, read_node_one,
  one_block-IsInode, padded-IsBlock,
}

-- A file node with a mark has a node that a local variable takes.
local_inode_marked :
    (l : Layout) (idx : ℕ) (v : Volume l.Sector)
    → is_free v.super_block file idx ≡ false
    → local_inode l idx v ≡ some (l.get_inode (v.disk (idx2lba (pos idx) file)))
unfolding read_inode
local_inode_marked l idx v m = rw m refl

content_written :
    (l : Layout) (buf : List ℕ) (idx len k : ℕ) (sb : SuperBlock) (v w : Volume l.Sector)
    (g : FileNode)
    → idx < 64
    → local_inode l idx v ≡ some g
    → delete_dbs l g (get_num_db g) 0 v ≡ some w
    → write_new l buf idx len g w
      ≡ some (pos len, after_write l buf len k idx (one_block len k g) sb w)
    → write_content l (pos idx) buf (pos len) v
      ≡ some (pos len, after_write l buf len k idx (one_block len k g) sb w)
unfolding write_content
content_written l buf idx len k sb v w g hi a b c =
    let t : bad_inode (pos idx) ≡ false = ground arith in
    rw t (
      ap (λ p. p >>= λ i. delete_dbs l i (get_num_db i) 0 v >>= λ u. write_new l buf idx len i u) a
      ∙ ap (λ p. p >>= λ u. write_new l buf idx len g u) b
      ∙ c)

content_read :
    (l : Layout) (out tmp : List ℕ) (idx n : ℕ) (v : Volume l.Sector) (g : FileNode)
    → idx < 64
    → 0 < n
    → n < 2 ^ 31
    → local_inode l idx v ≡ some g
    → read_content l (pos idx) (pos 0) out (pos n) tmp v ≡ some (read_node l g 0 n out tmp v)
unfolding read_content
content_read l out tmp idx n v g hi h0 h1 a =
    let t : bad_inode (pos idx) ≡ false = ground arith in
    let t1 : not (ltb 0 (n + 0)) ≡ false = ground arith in
    let t2 : ltb (0 + n) (2 ^ 31) ≡ true = ground arith in
    rw (t1, t)
      (ap
          (λ p.
            p >>= λ i. if ltb (0 + n) (2 ^ 31) then some (read_node l i 0 n out tmp v) else none)
          a
        ∙ rw t2 refl)

read_node-whole_blocks :
    (l : Layout) (g : FileNode) (out tmp : List ℕ) (n m : ℕ) (v : Volume l.Sector)
    → min g.len n ≡ 512 * m
    → (out1 : List ℕ) × (read_node l g 0 n out tmp v ≡ (pos 0, out1))
unfolding read_node
read_node-whole_blocks l g out tmp n m v e = elim (Bool-cases (leb g.len 0)) [
  | inl empty ↦ (out, rw empty refl)
  | inr more ↦
      let z : min g.len (0 + n) - min g.len (0 + n) / 512 * 512 ≡ 0 = omega (arith, e) in
      (read_span l g 0 (min g.len (0 + n)) out tmp v, rw (more, z) refl)
]

-- What a write of less than one block does, and what the reads behind it give.
ReadsBack : (l : Layout) → List ℕ → ℕ → ℕ → Option (ℤ × Volume l.Sector) → Type 0
ReadsBack l buf idx len r =
    (v : Volume l.Sector) × (r ≡ some (pos len, v))
    × ((out tmp : List ℕ) (n : ℕ)
        → 0 < n
        → n < 2 ^ 31
        → read_content l (pos idx) (pos 0) out (pos n) tmp v
          ≡ some (pos (min len n), put_bytes out 0 (take (min len n) buf)))

-- From the node that was found free on.
one_block-ReadsBack :
    (l : Layout) (buf : List ℕ) (idx len k : ℕ) (g : FileNode) (sb : SuperBlock)
    (w : Volume l.Sector) (r : Option (ℤ × Volume l.Sector))
    → Encodes l
    → idx ≤ 32
    → 0 < len
    → len < 512
    → len ≤ length buf
    → AreBytes buf
    → IsInode g
    → k < 2048
    → is_free sb db k ≡ false
    → is_free sb file idx ≡ false
    → r ≡ some (pos len, after_write l buf len k idx (one_block len k g) sb w)
    → ReadsBack l buf idx len r
unfolding ReadsBack one_block
one_block-ReadsBack l buf idx len k g sb w r enc hi h0 h1 hb bytes shape hk mk mf e =
    let g1 = one_block len k g in
    let v1 = after_write l buf len k idx g1 sb w in
    let local =
      local_inode_back l enc buf len k idx g1 sb w mf
        (one_block-IsInode len k g shape (omega arith) hk) in
    let first : get_or (set g.data_blocks 0 k) 0 0 ≡ k =
      get_or-set g.data_blocks 0 0 k 0 (omega (arith, shape.slots)) ∙ refl in
    let block = λ (tmp : List ℕ).
      read_block_back l enc buf tmp len k idx g1 sb w hi mk
        (padded-IsBlock len buf (omega arith) hb bytes) in
    (
      v1,
      e,
      λ out tmp n n0 n1.
          content_read l out tmp idx n v1 g1 (omega arith) n0 n1 local
          ∙ ap some (
              read_node_one l g1 buf out tmp n v1 h0 h1 n0 hb
                (ap (λ j. read_db l tmp j v1) first ∙ block tmp)),
    )

-- A node is found where one is free.
found_free :
    (sb : SuperBlock) (idx j : ℕ)
    → HasMaps sb
    → idx < 64
    → j < 2048
    → is_free sb db j ≡ true
    → (k : ℕ) × (sb1 : SuperBlock) × (get_free_bit db sb ≡ (pos k, sb1))
      × (k < 2048)
      × (is_free sb1 db k ≡ false)
      × (is_free sb1 file idx ≡ is_free sb file idx)
found_free sb idx j w hi hj free = elim (get_free_bit-Allocates db sb w) [
  | inl (e, same_sb, taken) ↦ absurd (let t = taken j (omega arith) hj in ground (arith, t))
  | inr (k, e, hk, was, taken, m, maps) ↦
      let sb1 = (get_free_bit db sb).1 in
      let mk = m db k hk in
      let mi = m file idx hi in
      (k, sb1, ap (λ (z : ℤ). (z, sb1)) e, hk, ground (arith, mk), ground (arith, mi))
]

-- Writing a content of 1 to 511 bytes to a file and reading from its start gives the content back:
-- the write returns the length, and a read of `n` bytes then returns the smaller of `n` and the
-- length and puts that many bytes of the content at the start of its buffer, and no more. It holds
-- for a buffer of bytes with at least the length, for maps of the declared sizes, for a marked file
-- node up to index 32 that is well-formed on the disk with at most 64512 bytes, with a free data block
-- left, for 0 < n < 2^31, and for a layout that copies structures to the disk and back.
pub write_content-read_content :
    (l : Layout) (buf out tmp : List ℕ) (idx len j n : ℕ) (v : Volume l.Sector)
    → Encodes l
    → HasMaps v.super_block
    → idx ≤ 32
    → is_free v.super_block file idx ≡ false
    → IsInode (l.get_inode (v.disk (idx2lba (pos idx) file)))
    → (l.get_inode (v.disk (idx2lba (pos idx) file))).len ≤ 64512
    → j < 2048
    → is_free v.super_block db j ≡ true
    → 0 < len
    → len < 512
    → len ≤ length buf
    → AreBytes buf
    → 0 < n
    → n < 2 ^ 31
    → (v1 : Volume l.Sector) × (write_content l (pos idx) buf (pos len) v ≡ some (pos len, v1))
      × (read_content l (pos idx) (pos 0) out (pos n) tmp v1
          ≡ some (pos (min len n), put_bytes out 0 (take (min len n) buf)))
unfolding ReadsBack
write_content-read_content l buf out tmp idx len j n v enc maps hi mark shape small hj free h0 h1 hb
      bytes n0 n1 =
    let g = l.get_inode (v.disk (idx2lba (pos idx) file)) in
    let a = local_inode_marked l idx v mark in
    let (w, b, f) = delete_dbs-Frees l g (get_num_db g) 0 v maps (omega (arith, shape.slots)) in
    let (k, sb1, fb, hk, mk, mf) =
      found_free w.super_block idx j f.sizes (omega arith) hj (f.blocks j hj free) in
    let c =
      write_new_one l buf idx len k g sb1 w h0 (omega arith) (omega (arith, shape.slots)) fb in
    let (v1, wrote, reads) =
      one_block-ReadsBack l buf idx len k g sb1 w (write_content l (pos idx) buf (pos len) v) enc hi
        h0 h1 hb bytes shape hk mk (mf ∙ f.files idx (omega arith) ∙ mark)
        (content_written l buf idx len k sb1 v w g (omega arith) a b c) in
    (v1, wrote, reads out tmp n n0 n1)

-- Where the bytes read from the start end with a block, the result is 0, although the bytes are put
-- in the buffer: the result is the offset in the last block, less the offset of the read. The file
-- node is marked and below 64, and 0 < n < 2^31.
pub read_content-whole_blocks :
    (l : Layout) (out tmp : List ℕ) (idx n m : ℕ) (v : Volume l.Sector)
    → idx < 64
    → 0 < n
    → n < 2 ^ 31
    → is_free v.super_block file idx ≡ false
    → min (l.get_inode (v.disk (idx2lba (pos idx) file))).len n ≡ 512 * m
    → (out1 : List ℕ) × (read_content l (pos idx) (pos 0) out (pos n) tmp v ≡ some (pos 0, out1))
read_content-whole_blocks l out tmp idx n m v hi h0 h1 mark e =
    let g = l.get_inode (v.disk (idx2lba (pos idx) file)) in
    let (out1, r) = read_node-whole_blocks l g out tmp n m v e in
    (out1, content_read l out tmp idx n v g hi h0 h1 (local_inode_marked l idx v mark) ∙ ap some r)
