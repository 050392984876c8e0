-- ===== src/Can/Data/Tests.antt =====
-- Runs and instances for pkg/can_smbus/src/core/cs_data.h.
use rmm_2023_pre.Common.{ℕ, ◌≡◌, refl, List, [], ◌∷◌}
use rmm_2023_pre.Can.Data.{get_size, little_endian, create_int16, create_buff3}

abbrev garbage : List ℕ
garbage = 0xaa ∷ 0xbb ∷ 0xcc ∷ 0xdd ∷ []

two-bytes : (create_int16 0x1234 garbage).bytes ≡ 0x34 ∷ 0x12 ∷ 0xcc ∷ 0xdd ∷ []
unfolding create_int16 little_endian
two-bytes = refl

size-three : get_size (create_buff3 (1 ∷ 2 ∷ 3 ∷ []) garbage) ≡ 3
unfolding get_size create_buff3
size-three = refl
