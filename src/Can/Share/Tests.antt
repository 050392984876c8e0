-- ===== src/Can/Share/Tests.antt =====
-- Runs and instances for pkg/can_smbus/src/core/cs_reg_share.c.
use rmm_2023_pre.Common.{◌≡◌, false, [], ◌∷◌, replicate, ltb, length, take, if◌then◌else◌}
use rmm_2023_pre.Can.Share.{CallbackArg, get, assignments, callback}
use rmm_2023_pre.Can.Share.Buffers.{after, get_between}

abbrev fresh : CallbackArg
fresh = record { is_revers = false; len = λ i. 0; buff = λ i. replicate 4 0 }

-- After two of the three assignments.
get_between_example :
    (get (after 2 fresh 2 (7 ∷ 8 ∷ 0 ∷ 0 ∷ [])) ≡ (
      if ltb 2 (length (assignments fresh 2 (7 ∷ 8 ∷ 0 ∷ 0 ∷ [])))
      then get fresh
      else record { type = 2; bytes = take 4 (7 ∷ 8 ∷ 0 ∷ 0 ∷ []) }))
    × (after (length (assignments fresh 2 (7 ∷ 8 ∷ 0 ∷ 0 ∷ []))) fresh 2 (7 ∷ 8 ∷ 0 ∷ 0 ∷ [])
        ≡ callback fresh 2 (7 ∷ 8 ∷ 0 ∷ 0 ∷ []))
get_between_example = get_between fresh 2 (7 ∷ 8 ∷ 0 ∷ 0 ∷ []) 2
