-- ===== src/Can/Share/Buffers.antt =====
-- What a reader of pkg/can_smbus/src/core/cs_reg_share.c sees, at any point of the callback.
use rmm_2023_pre.Common.{
  ℕ, zero, suc, ◌≡◌, refl, List, [], take, ltb, if◌then◌else◌, Bool-cases, inl, inr, false, arith,
  length,
}
use rmm_2023_pre.Can.Share.{
  CallbackArg, get, write_len, write_buff, turn_over, assignments, run, callback,
}

-- The buffers after the first `k` assignments of the callback.
abbrev pub after : ℕ → CallbackArg → ℕ → List ℕ → CallbackArg
after k arg len bytes = run (take k (assignments arg len bytes)) arg

get-after :
    (arg : CallbackArg) (len : ℕ) (bytes : List ℕ)
    → (get (after 1 arg len bytes) ≡ get arg)
      × (get (after 2 arg len bytes) ≡ get arg)
      × (get (callback arg len bytes) ≡ record { type = len; bytes = take 4 bytes })
unfolding get write_len write_buff turn_over assignments callback
get-after arg len bytes = elim (Bool-cases arg.is_revers) [
  | inl e ↦ rw e (refl, refl, refl)
  | inr e ↦ rw e (refl, refl, refl)
]

no_more : (k : ℕ) (arg : CallbackArg) → run (take k []) arg ≡ arg
no_more zero arg = refl
no_more (suc k) arg = refl

-- A reader that comes after any number of the assignments of the callback gets the data from before
-- it as long as one of them is left, and the new data whole when none is; after all of them the
-- object is as the callback leaves it.
pub get_between :
    (arg : CallbackArg) (len : ℕ) (bytes : List ℕ) (k : ℕ)
    → let count = length (assignments arg len bytes) in
      (get (after k arg len bytes)
        ≡ (if ltb k count then get arg else record { type = len; bytes = take 4 bytes }))
      × (after count arg len bytes ≡ callback arg len bytes)
unfolding assignments callback
get_between arg len bytes zero = (refl, refl)
get_between arg len bytes (suc zero) = ((get-after arg len bytes).0, refl)
get_between arg len bytes (suc (suc zero)) = ((get-after arg len bytes).1, refl)
get_between arg len bytes (suc (suc (suc k))) =
    (rw (past k, no_more k _) (get-after arg len bytes).2, refl)
  where
    past : (k : ℕ) → ltb (suc (suc (suc k))) 3 ≡ false
    past k = ground arith
