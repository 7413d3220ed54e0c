-- ===== src/Psv/Volume/Setup.antt =====
-- PSV.c, PSV_setup and PSV_mount.
use martian_os.Prelude.{ℕ, List, set}
use martian_os.Prelude.Int.{pos}
use martian_os.CString.{codes, strncpy}
use martian_os.Word.{one_shl}
use martian_os.Process.Types.{update}
use martian_os.Psv.Types.{
  SuperBlock, FolderTerm, FolderNode, name_len_lim, fnode_num_lim, inode_num_lim, db_num_lim,
  psv_start_lba, fnode_offs, inode_offs, db_offs,
}
use martian_os.Psv.Volume.{
  Layout, Volume, zero_name, zero_sb, zero_fnode, flush_space, read_sb, write_fnode, enter,
}

-- The term of the root folder, under a name.
unfoldable pub root_term : List ℕ → FolderTerm
root_term name = record {
  used = 1;
  foldername = strncpy zero_name name name_len_lim;
  fnode_idx = 0;
}

unfoldable pub setup_sb : SuperBlock
setup_sb = record zero_sb {
  name = strncpy zero_name (codes "Perseverance") name_len_lim;
  total_fnode = fnode_num_lim;
  total_inode = inode_num_lim;
  total_db = db_num_lim;
  fnode_offset = fnode_offs;
  inode_offset = inode_offs;
  db_offset = db_offs;
  root = root_term (codes "/");
  fnode_map = one_shl 32 0;
  used_fnode = 1;
}

unfoldable pub setup_root : FolderNode
setup_root = record zero_fnode {
  foldername = strncpy zero_name (codes "/") name_len_lim;
  num_fterm = pos 1;
  num_iterm = pos 0;
  fterms = set zero_fnode.fterms 0 (root_term (codes "."));
}

module _ (l : Layout) where
  open l use {Sector, put_sb}

  -- `behind` as for `flush_space`.
  unfoldable pub psv_setup : (ℕ → Sector) → Volume Sector → Volume Sector
  psv_setup behind v0 =
      let v = flush_space l behind v0 in
      write_fnode l setup_root 0 (record v { disk = update v.disk psv_start_lba (put_sb setup_sb) })

  -- The operation tables that it fills are those of `OpTable`.
  unfoldable pub psv_mount : Volume Sector → Volume Sector
  psv_mount v = enter l 0 (read_sb l v)
