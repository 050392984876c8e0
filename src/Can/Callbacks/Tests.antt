-- ===== src/Can/Callbacks/Tests.antt =====
-- Runs and instances for the callback lists of pkg/can_smbus/src/core/io/cs_rx.c.
use rmm_2023_pre.Common.{◌≡◌, refl, true, false, [], ◌∷◌}
use rmm_2023_pre.Can.Callbacks.{Callback, is_callback, list_close}
use rmm_2023_pre.Can.Callbacks.Close.{contains, others, list_close_lem}

abbrev one : Callback
one = record { func = 0x100; args = 1 }

abbrev two : Callback
two = record { func = 0x100; args = 2 }

close-middle : list_close (two ∷ one ∷ two ∷ []) one ≡ (two ∷ two ∷ [], true)
unfolding list_close
close-middle = refl

close-missing : list_close (two ∷ []) one ≡ (two ∷ [], false)
unfolding list_close
close-missing = refl

list_close_lem_example :
    ((list_close (one ∷ two ∷ one ∷ []) one).0 ≡ others one (one ∷ two ∷ one ∷ []))
    × ((list_close (one ∷ two ∷ one ∷ []) one).1 ≡ contains one (one ∷ two ∷ one ∷ []))
unfolding is_callback
list_close_lem_example = list_close_lem one (one ∷ two ∷ one ∷ []) (refl, (refl, tt))
