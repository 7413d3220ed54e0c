-- ===== src/Pic/Tests.antt =====
-- Masks at a concrete state.
use martian_os.Prelude.{◌≡◌, refl, true, [], ◌∷◌, replicate}
use martian_os.Pic.{Pic, send_eoi}
use martian_os.Pic.Masks.{IsPic}

-- What i8259_init leaves in the controllers.
abbrev all_masked : Pic
all_masked = record {
  master_data = replicate 8 true;
  slave_data = replicate 8 true;
  master_mask = replicate 8 true;
  slave_mask = replicate 8 true;
  commands = [];
}

all_masked-IsPic : IsPic all_masked
all_masked-IsPic = record { master_bits = refl; slave_bits = refl }

-- The clock's interrupt is acknowledged to both controllers.
clock_eoi : (send_eoi 8 all_masked).commands ≡ (0x20, 0x62) ∷ (0xA0, 0x60) ∷ []
unfolding send_eoi
clock_eoi = refl
