-- ===== src/Can/Callbacks/Close/Last.antt =====
-- A callback that is last in a list of pkg/can_smbus/src/core/io/cs_rx.c, and nowhere else.
use rmm_2023_pre.Common.{◌≡◌, false, List, [], ◌∷◌, ◌++◌, arith}
use rmm_2023_pre.Can.Callbacks.{Callback, is_callback}
use rmm_2023_pre.Can.Callbacks.Close.{contains, others, NoRepeat}

pub NoRepeat-last :
    (cb : Callback) (xs : List Callback) → contains cb xs ≡ false → NoRepeat cb (xs ++ (cb ∷ []))
unfolding contains
NoRepeat-last cb [] h = tt
NoRepeat-last cb (x ∷ []) h = (ground arith, tt)
NoRepeat-last cb (x ∷ y ∷ ys) h = (ground arith, NoRepeat-last cb (y ∷ ys) (ground arith))

pub others-last :
    (cb : Callback) (xs : List Callback) → contains cb xs ≡ false → others cb (xs ++ (cb ∷ [])) ≡ xs
unfolding contains others is_callback
others-last cb [] h = ground arith
others-last cb (x ∷ xs) h = ground (arith, others-last cb xs)
