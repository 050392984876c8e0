-- ===== src/Can/Acks/Tests.antt =====
-- Runs and instances for pkg/can_smbus/src/core/cs_send_ack.c and cs_request.c.
use rmm_2023_pre.Common.{ℕ, ◌<◌, ◌≡◌, refl, true, false, none, [], ◌∷◌, arith, ◌==◌}
use rmm_2023_pre.Can.Types.{user}
use rmm_2023_pre.Can.Types.Registers.{writeack, get_kind, get_channel}
use rmm_2023_pre.Can.Callbacks.{Callback}
use rmm_2023_pre.Can.Callbacks.Close.{contains}
use rmm_2023_pre.Can.Rx.{Rx, Slot, req_ack, reg_ack, device_info_get}
use rmm_2023_pre.Can.Rx.Listeners.{listeners, listeners-initializer}
use rmm_2023_pre.Can.Tx.{Tx}
use rmm_2023_pre.Can.Tx
use rmm_2023_pre.Can.Rx
use rmm_2023_pre.Can.Data.{Data}
use rmm_2023_pre.Can.Acks.{Wait, is_hit, SendAck, send, request_ack, sum_loop}
use rmm_2023_pre.Can.Acks.Turns.{sent_arg, send_one, repeat, send-hit, send-miss}
use rmm_2023_pre.Can.Acks.Answer.{answer_hits, request_ack-listeners}

abbrev gyro : SendAck
gyro = record {
  gw_id = 1;
  id = 0x042;
  reg = 3;
  channel = user;
  arg = record { reg = 3; len = 0; hash = 0 };
}

-- Two bytes.
abbrev two : Data
two = record { type = 2; bytes = 200 ∷ 100 ∷ 0 ∷ 0 ∷ [] }

abbrev cb : Callback
cb = record { func = 0x100; args = 1 }

sum-wraps : sum_loop (200 ∷ 100 ∷ []) 0 ≡ 44
unfolding sum_loop
sum-wraps = refl

-- Nothing comes, but the third wait is woken.
abbrev third : ℕ → Wait
third k = record { acks = []; woken = k == 2 }

abbrev never : ℕ → Wait
never k = record { acks = []; woken = false }

third-quiet : (k : ℕ) → k < 2 → is_hit (sent_arg gyro two) (third k) ≡ false
unfolding is_hit
third-quiet k h = ground arith

third-hit : is_hit (sent_arg gyro two) (third 2) ≡ true
unfolding is_hit
third-hit = refl

never-quiet : (k : ℕ) → k < 5 → is_hit (sent_arg gyro two) (never k) ≡ false
unfolding is_hit
never-quiet k h = refl

send-hit_example :
    send gyro Tx.initializer two third
    ≡ (record gyro { arg = sent_arg gyro two }, repeat 3 (send_one gyro two) Tx.initializer, true)
send-hit_example = send-hit gyro Tx.initializer two third 2 (omega arith) third-quiet third-hit

send-miss_example :
    send gyro Tx.initializer two never
    ≡ (record gyro { arg = sent_arg gyro two }, repeat 5 (send_one gyro two) Tx.initializer, false)
send-miss_example = send-miss gyro Tx.initializer two never never-quiet

abbrev answered : Wait
answered = record {
  acks = (4, 1 ∷ 2 ∷ []) ∷ (2, get_channel user (get_kind writeack 3) ∷ 44 ∷ 0 ∷ 0 ∷ []) ∷ [];
  woken = false;
}

answer_hits_example : is_hit (record { reg = 3; len = 2; hash = 44 }) answered ≡ true
answer_hits_example =
    answer_hits (record { reg = 3; len = 2; hash = 44 }) answered writeack user (0 ∷ 0 ∷ [])
      ((4, 1 ∷ 2 ∷ []) ∷ []) [] (omega arith) refl

none-bound : (s : Slot) → contains cb (listeners Rx.initializer 1 0x042 s) ≡ false
unfolding contains
none-bound s = rw (listeners-initializer 1 0x042 s) refl

request_ack-listeners_example :
    let after = (request_ack Rx.initializer Tx.initializer 1 0x042 3 1 (0 ∷ []) user cb never).0 in
    (listeners after 1 0x042 (req_ack user) ≡ listeners Rx.initializer 1 0x042 (req_ack user))
    × (after.brc_callbacks ≡ Rx.initializer.brc_callbacks)
    × (device_info_get Rx.initializer 1 0x042 ≡ none → device_info_get after 1 0x042 ≡ none)
request_ack-listeners_example =
    request_ack-listeners Rx.initializer Tx.initializer 1 0x042 3 1 (0 ∷ []) user cb never 1 0x042
      (req_ack user) (none-bound (req_ack user)) tt
