-- ===== src/Psv/Content/Frees.antt =====
-- What the deletion of data blocks does to the maps.
use martian_os.Prelude.{
  ℕ, zero, suc, ◌+◌, ◌<◌, ◌≤◌, ◌≡◌, refl, ◌∙◌, true, Bool-cases, inl, inr, some, List, [], ◌∷◌,
  get_elem?, length, leb, arith,
}
use martian_os.Prelude.Int.{pos}
use martian_os.Psv.Types.{FileNode, SuperBlock, HasMaps, file, db, db_num_lim, inode_num_lim}
use martian_os.Psv.Bitmap.{is_free, clear_bitmap}
use martian_os.Psv.Bitmap.Free.{clear_bitmap-Marks}
use martian_os.Psv.Bitmap.Sizes.{clear_bitmap-HasMaps}
use martian_os.Psv.Volume.{Layout, Volume, write_db, write_sb}
use martian_os.Psv.Content.{delete_db, delete_dbs}

-- The maps keep their sizes, the file nodes keep their marks, and a free data block stays free.
pub record Frees (sb sb' : SuperBlock) : Type 0 where
  pub sizes : HasMaps sb'
  pub files : (j : ℕ) → j < inode_num_lim → is_free sb' file j ≡ is_free sb file j
  pub blocks : (j : ℕ) → j < db_num_lim → is_free sb db j ≡ true → is_free sb' db j ≡ true

Frees-refl : (sb : SuperBlock) → HasMaps sb → Frees sb sb
Frees-refl sb w = record { sizes = w; files = λ j h. refl; blocks = λ j h e. e }

Frees-trans : {a b c : SuperBlock} → Frees a b → Frees b c → Frees a c
Frees-trans f g = record {
  sizes = g.sizes;
  files = λ j h. g.files j h ∙ f.files j h;
  blocks = λ j h e. g.blocks j h (f.blocks j h e);
}

-- Past the last data block nothing is cleared.
clear_past :
    (k : ℕ) (sb : SuperBlock) → leb db_num_lim k ≡ true → (clear_bitmap (pos k) db sb).1 ≡ sb
unfolding clear_bitmap
clear_past k sb h = rw h refl

clear_bitmap-Frees :
    (k : ℕ) (sb : SuperBlock) → HasMaps sb → Frees sb (clear_bitmap (pos k) db sb).1
clear_bitmap-Frees k sb w = elim (Bool-cases (leb db_num_lim k)) [
  | inl e ↦ rw (clear_past k sb e) (Frees-refl sb w)
  | inr e ↦
      let m = (clear_bitmap-Marks sb db k w (ground arith)).1 in
      record {
        sizes = clear_bitmap-HasMaps (pos k) db sb w;
        files = λ j h. m file j h;
        blocks = λ j h f. ground (arith, m db j h);
      }
]

module _ (l : Layout) where
  delete_db-Frees :
      (k : ℕ) (v : Volume l.Sector)
      → HasMaps v.super_block
      → Frees v.super_block (delete_db l k v).super_block
  unfolding delete_db write_db write_sb
  delete_db-Frees k v w = clear_bitmap-Frees k v.super_block w

  get_elem?-there : (xs : List ℕ) (i : ℕ) → i < length xs → (x : ℕ) × (get_elem? xs i ≡ some x)
  get_elem?-there [] i h = absurd (omega arith)
  get_elem?-there (x ∷ xs) zero h = (x, refl)
  get_elem?-there (x ∷ xs) (suc i) h = get_elem?-there xs i (omega arith)

  -- The deletion of blocks that the table names comes to its end.
  pub delete_dbs-Frees :
      (inode : FileNode) (n i : ℕ) (v : Volume l.Sector)
      → HasMaps v.super_block
      → i + n ≤ length inode.data_blocks
      → (w : Volume l.Sector) × (delete_dbs l inode n i v ≡ some w)
        × Frees v.super_block w.super_block
  unfolding delete_dbs
  delete_dbs-Frees inode zero i v m h = (v, refl, Frees-refl v.super_block m)
  delete_dbs-Frees inode (suc n) i v m h =
      let (idx, e) = get_elem?-there inode.data_blocks i (omega arith) in
      let f = delete_db-Frees idx v m in
      let (w, r, g) = delete_dbs-Frees inode n (i + 1) (delete_db l idx v) f.sizes (omega arith) in
      (w, rw e r, Frees-trans f g)
