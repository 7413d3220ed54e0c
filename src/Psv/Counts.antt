-- ===== src/Psv/Counts.antt =====
-- helper.c: the counters of used nodes, beside the bitmaps that mark them. dec_used is defined
-- there, and no function calls it.
pub mod Agree
pub mod Tests
use martian_os.Prelude.{ℕ, zero, suc, ◌+◌, ◌-◌, Bool, true, false, leb, if◌then◌else◌}
use martian_os.Psv.Types.{SType, folder, file, db, SuperBlock}
use martian_os.Psv.Bitmap.Laws.{marked}

dec_folder : SuperBlock → SuperBlock
dec_folder sb = if leb sb.used_fnode 0 then sb else record sb { used_fnode = sb.used_fnode - 1 }

dec_file : SuperBlock → SuperBlock
dec_file sb = if leb sb.used_inode 0 then sb else record sb { used_inode = sb.used_inode - 1 }

dec_db : SuperBlock → SuperBlock
dec_db sb = if leb sb.used_db 0 then sb else record sb { used_db = sb.used_db - 1 }

-- The cases `FILE` and `DB` have no `break`: `FILE` falls through to `DB`.
pub dec_used : SType → SuperBlock → SuperBlock
unfolding dec_folder dec_file dec_db
dec_used folder sb = dec_folder sb
dec_used file sb = dec_db (dec_file sb)
dec_used db sb = dec_db sb

-- The counter of a kind.
abbrev pub used_of : SuperBlock → SType → ℕ
used_of sb folder = sb.used_fnode
used_of sb file = sb.used_inode
used_of sb db = sb.used_db
