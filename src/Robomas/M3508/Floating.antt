-- ===== src/Robomas/M3508/Floating.antt =====
-- pkg/robomas/src/c/rm_m3508.c: the functions on `float`, for any floating-point arithmetic.
use rmm_2023_pre.Common.{ℕ, Bool, Option, none, some, List, if◌then◌else◌, get_elem?}
use rmm_2023_pre.Common.Int.{ℤ, pos, negsuc, to_word, of_word}
use rmm_2023_pre.Robomas.Frames.{
  CoefFrame, coef_bytes, AdvancedCoefFrame, advanced_coef_bytes, new_bytes, pitch_bytes,
}
use rmm_2023_pre.Robomas.M3508.{
  Floats, Robomas, Address, Outcome, refused, is_motor, mot_id_of, send_to, reading, exchange,
  is_coef_ack, is_advanced_coef_ack,
}

module _ (fl : Floats) where
  open fl use {
    Float, Double, of_int, lt, mul, div, to_int16, to_uint32, widen, narrow, of_int_double,
    mul_double, div_double, to_int64,
  }

  -- The limits are +20 and -20, or +10 and -10.
  pub clamp_current : ℤ → ℤ → Float → Float
  clamp_current high low current =
      if lt (of_int high) current
      then of_int high
      else if lt current (of_int low)
      then of_int low
      else current

  unfoldable pub set_current_as_m3508 : Robomas → ℕ → ℤ → Float → Outcome
  unfolding send_to
  set_current_as_m3508 r gw_id number current =
      if is_motor r gw_id number
      then send_to r.rpm_send_addr gw_id (
          new_bytes (record {
            mot_id = mot_id_of number;
            power_mode = 1;
            value = to_int16 (
                mul (clamp_current (pos 20) (negsuc 19) current)
                  (div (of_int (pos 16384)) (of_int (pos 20))));
            mot_type = 0;
          }))
      else refused

  unfoldable pub set_current_as_m2006 : Robomas → ℕ → ℤ → Float → Outcome
  unfolding send_to
  set_current_as_m2006 r gw_id number current =
      if is_motor r gw_id number
      then send_to r.rpm_send_addr gw_id (
          new_bytes (record {
            mot_id = mot_id_of number;
            power_mode = 1;
            value = to_int16 (
                mul (clamp_current (pos 10) (negsuc 9) current)
                  (div (of_int (pos 10000)) (of_int (pos 10))));
            mot_type = 1;
          }))
      else refused

  unfoldable pub set_pitch_as_m3508 : Robomas → ℕ → ℤ → Float → Float → Outcome
  unfolding send_to
  set_pitch_as_m3508 r gw_id number base_cur target_rote =
      let roate =
        mul_double (div_double (of_int_double (pos 3591)) (of_int_double (pos 187)))
          (widen target_rote) in
      if is_motor r gw_id number
      then send_to r.rpm_send_addr gw_id (
          pitch_bytes (record {
            mot_id = mot_id_of number;
            base_power = to_int16 (
                mul (clamp_current (pos 20) (negsuc 19) base_cur)
                  (div (of_int (pos 16384)) (of_int (pos 20))));
            target_rota = to_int64 (mul_double roate (of_int_double (pos 1000)));
          }))
      else refused

  unfoldable pub get_real_current_as_m3508 : Robomas → ℕ → ℤ → Option Float
  unfolding reading
  get_real_current_as_m3508 =
      reading (λ s. mul (of_int (of_word 16 s.cur)) (div (of_int (pos 20)) (of_int (pos 16384))))
        (of_int (pos 0))

  unfoldable pub get_order_current_as_m3508 : Robomas → ℕ → ℤ → Option Float
  unfolding reading
  get_order_current_as_m3508 =
      reading
        (λ s. mul (of_int (of_word 16 s.set_cur)) (div (of_int (pos 20)) (of_int (pos 16384))))
        (of_int (pos 0))

  unfoldable pub get_real_current_as_m2006 : Robomas → ℕ → ℤ → Option Float
  unfolding reading
  get_real_current_as_m2006 =
      reading (λ s. mul (of_int (of_word 16 s.cur)) (div (of_int (pos 10)) (of_int (pos 10000))))
        (of_int (pos 0))

  unfoldable pub get_order_current_as_m2006 : Robomas → ℕ → ℤ → Option Float
  unfolding reading
  get_order_current_as_m2006 =
      reading
        (λ s. mul (of_int (of_word 16 s.set_cur)) (div (of_int (pos 10)) (of_int (pos 10000))))
        (of_int (pos 0))

  unfoldable pub get_theta : Robomas → ℕ → ℤ → Option Float
  unfolding reading
  get_theta =
      reading
        (λ s. narrow (
          mul_double (div_double (of_int_double (of_word 64 s.rota)) (of_int_double (pos 1000)))
            (div_double (of_int_double (pos 187)) (of_int_double (pos 3591)))))
        (of_int (pos 0))

  pub coef_frame : ℤ → Float → Float → Float → CoefFrame
  coef_frame number p i d = record {
    mot_id = mot_id_of number;
    p = to_uint32 (mul p (of_int (pos 10000)));
    i = to_uint32 (mul i (of_int (pos 10000)));
    d = to_uint32 (mul d (of_int (pos 10000)));
  }

  pub advanced_coef_frame : ℤ → Float → Float → Float → Bool → AdvancedCoefFrame
  advanced_coef_frame number p i d inverse = record {
    mot_id = mot_id_of number;
    p = to_uint32 (mul p (of_int (pos 10000)));
    i = to_uint32 (mul i (of_int (pos 10000)));
    d = to_uint32 (mul d (of_int (pos 10000)));
    inverse = if inverse then to_word 8 (negsuc 0) else 1;
  }

  -- The number of the gateway and that of the motor are not tested: the outer `none` is an address
  -- past the array. Then come what is sent, to whom, how often, and whether it was answered; the
  -- inner `none` is that the fuel ran out.
  unfoldable pub set_coef :
      ℕ
      → Robomas
      → ℕ
      → ℤ
      → Float
      → Float
      → Float
      → (ℕ → Option (List ℕ))
      → Option (Address × List ℕ × Option (ℕ × Bool))
  unfolding coef_frame
  set_coef fuel r gw_id number p i d reply =
      let frame = coef_frame number p i d in
      elim (get_elem? r.conf_send_addr gw_id) [
        | none ↦ none
        | some a ↦ some (a, coef_bytes frame, exchange (is_coef_ack frame) 1 fuel 0 reply)
      ]

  unfoldable pub set_advanced_coef :
      ℕ
      → Robomas
      → ℕ
      → ℤ
      → Float
      → Float
      → Float
      → Bool
      → (ℕ → Option (List ℕ))
      → Option (Address × List ℕ × Option (ℕ × Bool))
  unfolding advanced_coef_frame
  set_advanced_coef fuel r gw_id number p i d inverse reply =
      let frame = advanced_coef_frame number p i d inverse in
      elim (get_elem? r.conf_send_addr gw_id) [
        | none ↦ none
        | some a ↦
            some
              (a, advanced_coef_bytes frame, exchange (is_advanced_coef_ack frame) 3 fuel 0 reply)
      ]
