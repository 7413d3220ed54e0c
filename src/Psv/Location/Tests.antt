-- ===== src/Psv/Location/Tests.antt =====
-- Where some nodes stand, and the theorems at concrete inputs.
use martian_os.Prelude.{◌+◌, ◌≤◌, ◌<◌, ◌≡◌, ◌⊎◌, refl, arith}
use martian_os.Prelude.Int.{pos}
use martian_os.Psv.Types.{folder, file}
use martian_os.Psv.Location.{idx2lba}
use martian_os.Psv.Location.Disjoint.{idx2lba-disjoint}

root_lba : idx2lba (pos 0) folder ≡ 1001
unfolding idx2lba
root_lba = refl

last_good_file : idx2lba (pos 32) file ≡ 1097
unfolding idx2lba
last_good_file = refl

idx2lba-disjoint_example :
    (1000 < idx2lba (pos 31) folder)
    × (idx2lba (pos 31) folder + 2 ≤ 3177)
    × ((idx2lba (pos 31) folder + 2 ≤ idx2lba (pos 0) file)
        ⊎ (idx2lba (pos 0) file + 1 ≤ idx2lba (pos 31) folder))
idx2lba-disjoint_example = idx2lba-disjoint folder file 31 0 (omega arith) (omega arith) refl
