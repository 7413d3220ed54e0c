-- ===== src/Psv/Counts/Tests.antt =====
-- Runs of the counters, and the theorems at concrete inputs.
use martian_os.Prelude.{refl}
use martian_os.Psv.Types.{SType, folder, file, db}
use martian_os.Psv.Bitmap.{get_free_bit}
use martian_os.Psv.Bitmap.Tests.{fresh_sb, fresh_sb-HasMaps}
use martian_os.Psv.Counts.Agree.{Agrees, count, get_free_bit-Agrees}

fresh_sb-Agrees : (u : SType) → Agrees fresh_sb u
unfolding count
fresh_sb-Agrees folder = refl
fresh_sb-Agrees file = refl
fresh_sb-Agrees db = refl

get_free_bit-Agrees_example : Agrees (get_free_bit file fresh_sb).1 file
get_free_bit-Agrees_example =
    get_free_bit-Agrees file fresh_sb fresh_sb-HasMaps fresh_sb-Agrees file
