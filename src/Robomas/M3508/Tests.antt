-- ===== src/Robomas/M3508/Tests.antt =====
-- Two gateways of motors, for pkg/robomas/src/c/rm_m3508.c. The floats of the instances are integers,
-- and an address is the last digit of its text.
use rmm_2023_pre.Common.{
  ◌⊎◌, ℕ, ◌*◌, ◌/◌, ◌≡◌, ◌↔◌, refl, arith, Bool, true, Option, none, some, List, [], ◌∷◌, replicate,
  take, get_or,
}
use rmm_2023_pre.Common.Int.{ℤ, pos, negsuc, pos_part, ltb_ℤ, to_word}
use rmm_2023_pre.Robomas.Frames.{CoefFrame, coef_bytes, advanced_coef_bytes, SensData}
use rmm_2023_pre.Robomas.Frames.RoundTrip.{AllBytes, CoefFits}
use rmm_2023_pre.Robomas.M3508.{
  Floats, Address, Robomas, blank_sens, set_rpm_as_m3508, set_rpm_as_m2006, set_rpm_sync_as_m3508,
  is_coef_ack, is_advanced_coef_ack,
}
use rmm_2023_pre.Robomas.M3508.Floating.{
  set_current_as_m3508, set_current_as_m2006, set_pitch_as_m3508, coef_frame, advanced_coef_frame,
  set_coef, set_advanced_coef,
}
use rmm_2023_pre.Robomas.M3508.Sensors.{IsReady}
use rmm_2023_pre.Robomas.M3508.Commands.{SpeedOrder, set_rpm_lem}
use rmm_2023_pre.Robomas.M3508.Guards.{IsMotor, Obeys, Blank, guards_lem}
use rmm_2023_pre.Robomas.M3508.Exchange.{Ends, is_coef_ack_lem, set_coef_lem}

abbrev whole_floats : Floats
whole_floats = record {
  Float = ℤ;
  Double = ℤ;
  of_int = λ n. n;
  lt = ltb_ℤ;
  mul = λ a b. pos (pos_part a * pos_part b);
  div = λ a b. pos (pos_part a / pos_part b);
  to_int16 = to_word 16;
  to_uint32 = to_word 32;
  widen = λ n. n;
  narrow = λ n. n;
  of_int_double = λ n. n;
  mul_double = λ a b. pos (pos_part a * pos_part b);
  div_double = λ a b. pos (pos_part a / pos_part b);
  to_int64 = to_word 64;
}

abbrev address : ℕ → Address
address k = record { sin_port = 20520; s_addr = k }

abbrev addresses : List Address
addresses = address 0 ∷ address 1 ∷ address 2 ∷ address 3 ∷ []

abbrev row : List SensData
row = replicate 8 blank_sens

abbrev two_gateways : Robomas
two_gateways = record {
  gw_count = 2;
  rpm_send_addr = addresses;
  conf_send_addr = addresses;
  sensors = row ∷ row ∷ row ∷ row ∷ [];
  is_safety = true;
}

two_gateways-IsReady : IsReady two_gateways
two_gateways-IsReady = record {
  gateways = omega arith;
  power = refl;
  conf = refl;
  sensors = refl;
  rows = (refl, (refl, (refl, (refl, tt))));
}

-- A speed below the limit of the one motor, and on the limit of the other.
set_rpm_lem_example :
    SpeedOrder two_gateways 1 7 0 10000
      (negsuc 11999)
      (set_rpm_as_m3508 two_gateways 1 (pos 8) (negsuc 11999))
    × SpeedOrder two_gateways 1 7 1 22000
        (negsuc 11999)
        (set_rpm_as_m2006 two_gateways 1 (pos 8) (negsuc 11999))
set_rpm_lem_example =
    set_rpm_lem two_gateways 1 7 (negsuc 11999) two_gateways-IsReady (omega arith) (omega arith)

-- Motors 8 and 9: the order to both is refused.
guards_lem_example :
    Obeys two_gateways 1
      (IsMotor two_gateways 1 (pos 8))
      (set_rpm_as_m3508 two_gateways 1 (pos 8) (pos 5))
    × Obeys two_gateways 1
        (IsMotor two_gateways 1 (pos 8))
        (set_rpm_as_m2006 two_gateways 1 (pos 8) (pos 5))
    × Obeys two_gateways 1
        (IsMotor two_gateways 1 (pos 8) × IsMotor two_gateways 1 (pos 9))
        (set_rpm_sync_as_m3508 two_gateways 1 (pos 8) (pos 9) (pos 5))
    × Obeys two_gateways 1
        (IsMotor two_gateways 1 (pos 8))
        (set_current_as_m3508 whole_floats two_gateways 1 (pos 8) (pos 3))
    × Obeys two_gateways 1
        (IsMotor two_gateways 1 (pos 8))
        (set_current_as_m2006 whole_floats two_gateways 1 (pos 8) (pos 3))
    × Obeys two_gateways 1
        (IsMotor two_gateways 1 (pos 8))
        (set_pitch_as_m3508 whole_floats two_gateways 1 (pos 8) (pos 3) (pos 4))
    × (IsMotor two_gateways 1 (pos 8) ⊎ Blank whole_floats two_gateways 1 (pos 8))
guards_lem_example =
    guards_lem whole_floats two_gateways 1 (pos 8) (pos 9) (pos 5) (pos 3) (pos 4)
      two_gateways-IsReady

abbrev last_digit : List ℕ → ℕ
last_digit text = get_or text 10 0

abbrev datagram : List ℕ
datagram = replicate 120 3

abbrev conf : CoefFrame
conf = record { mot_id = 2; p = 15000; i = 10; d = 0 }

conf-CoefFits : CoefFits conf
conf-CoefFits = record { mot_id = omega arith; p = omega arith; i = omega arith; d = omega arith }

ones-AllBytes : AllBytes (replicate 13 1)
ones-AllBytes = omega arith

is_coef_ack_lem_example :
    (is_coef_ack conf (some (replicate 13 1)) ≡ true) ↔ (take 13 (replicate 13 1) ≡ coef_bytes conf)
is_coef_ack_lem_example = is_coef_ack_lem conf (replicate 13 1) conf-CoefFits ones-AllBytes

-- Nobody answers.
abbrev silence : ℕ → Option (List ℕ)
silence k = none

abbrev asked : List ℕ
asked = coef_bytes (coef_frame whole_floats (pos 3) (pos 1) (pos 2) (pos 0))

abbrev advanced_asked : List ℕ
advanced_asked =
    advanced_coef_bytes (advanced_coef_frame whole_floats (pos 3) (pos 1) (pos 2) (pos 0) true)

set_coef_lem_example :
    ((k : ℕ) × (b : Bool) × (set_coef whole_floats 5 two_gateways 1
          (pos 3)
          (pos 1)
          (pos 2)
          (pos 0)
          silence
        ≡ some (address 1, asked, some (k, b)))
      × Ends
          (is_coef_ack (coef_frame whole_floats (pos 3) (pos 1) (pos 2) (pos 0)))
          1
          0
          silence
          k
          b)
    × ((k : ℕ) × (b : Bool) × (set_advanced_coef whole_floats 5 two_gateways 1
            (pos 3)
            (pos 1)
            (pos 2)
            (pos 0)
            true
            silence
          ≡ some (address 1, advanced_asked, some (k, b)))
        × Ends
            (is_advanced_coef_ack
              (advanced_coef_frame whole_floats (pos 3) (pos 1) (pos 2) (pos 0) true))
            3
            0
            silence
            k
            b)
set_coef_lem_example =
    set_coef_lem whole_floats 5 two_gateways 1 (pos 3) (pos 1) (pos 2) (pos 0) true silence
      (address 1) (omega arith) refl
