-- ===== src/Robomas/M3508/Commands.antt =====
-- rm_m3508.c: the speed that an order carries.
use rmm_2023_pre.Common.{
  ℕ, suc, ◌-◌, ◌%◌, ◌^◌, ◌≤◌, ◌<◌, ◌≡◌, ◌⊎◌, refl, ap, subst, ◌∙◌, sym, arith, some, List, length,
  get_elem?,
}
use rmm_2023_pre.Common.Int.{ℤ, pos, negsuc, ◌≤ℤ◌, to_word, of_word, of_word-to_word}
use rmm_2023_pre.Robomas.Frames.{word_at, new_bytes, le_bytes, le_word}
use rmm_2023_pre.Robomas.Frames.RoundTrip.{le_word-le_bytes_two}
use rmm_2023_pre.Robomas.M3508.{
  Robomas, Address, Outcome, sent, send_to, clamp_rpm, set_rpm_as_m3508, set_rpm_as_m2006,
}
use rmm_2023_pre.Robomas.M3508.Sensors.{IsReady, is_motor_pos, get_elem?-some}

-- The speed that an order carries: the one asked for, or the nearest that is allowed.
pub record Carries (limit : ℕ) (rpm speed : ℤ) : Type 0 where
  pub within : (negsuc (limit - 1) ≤ℤ speed) × (speed ≤ℤ pos limit)
  pub nearest :
      ((negsuc (limit - 1) ≤ℤ rpm) × (rpm ≤ℤ pos limit) × (speed ≡ rpm))
      ⊎ ((pos limit ≤ℤ rpm) × (speed ≡ pos limit))
      ⊎ ((rpm ≤ℤ negsuc (limit - 1)) × (speed ≡ negsuc (limit - 1)))

clamp_rpm-Carries : (limit : ℕ) (rpm : ℤ) → 0 < limit → Carries limit rpm (clamp_rpm limit rpm)
unfolding clamp_rpm
clamp_rpm-Carries limit (pos n) h = ground arith
clamp_rpm-Carries limit (negsuc n) h = ground arith

to_word_lt : (s : ℤ) → to_word 16 s < 2 ^ 16
to_word_lt (pos n) = omega arith
to_word_lt (negsuc n) = omega arith

-- A datagram of five bytes to the gateway: the motor, a speed, its type.
abbrev pub SpeedOrder : Robomas → ℕ → ℕ → ℕ → ℕ → ℤ → Outcome → Type 0
SpeedOrder r gw_id k mot_type limit rpm o =
    (a : Address) × (bytes : List ℕ) × (o ≡ sent a bytes)
    × (get_elem? r.rpm_send_addr gw_id ≡ some a)
    × (length bytes ≡ 5)
    × (get_elem? bytes 0 ≡ some k)
    × (get_elem? bytes 1 ≡ some 0)
    × (get_elem? bytes 4 ≡ some mot_type)
    × Carries limit rpm (of_word 16 (word_at 2 2 bytes))

value_Carries :
    (limit : ℕ) (rpm : ℤ) (m p t : ℕ)
    → 0 < limit
    → limit ≤ 32767
    → Carries limit rpm (
        of_word 16 (
          word_at 2 2 (
            new_bytes (record {
              mot_id = m;
              power_mode = p;
              value = to_word 16 (clamp_rpm limit rpm);
              mot_type = t;
            }))))
unfolding new_bytes word_at le_bytes
value_Carries limit rpm m p t h l =
    let carried = clamp_rpm-Carries limit rpm h in
    let speed = clamp_rpm limit rpm in
    let read : of_word 16 (le_word (le_bytes 2 (to_word 16 speed))) ≡ speed =
      ap (of_word 16) (le_word-le_bytes_two (to_word 16 speed) (to_word_lt speed))
      ∙ of_word-to_word speed (omega (arith, carried.within)) in
    subst (Carries limit rpm) (sym read) carried

new_order :
    (r : Robomas) (gw_id k limit t : ℕ) (rpm : ℤ) (o : Outcome)
    → IsReady r
    → gw_id < r.gw_count
    → k < 8
    → 0 < limit
    → limit ≤ 32767
    → ((a : Address)
        → get_elem? r.rpm_send_addr gw_id ≡ some a
        → o
          ≡ sent a (
              new_bytes (record {
                mot_id = k;
                power_mode = 0;
                value = to_word 16 (clamp_rpm limit rpm);
                mot_type = t;
              })))
    → SpeedOrder r gw_id k t limit rpm o
unfolding new_bytes le_bytes
new_order r gw_id k limit t rpm o v g l h m f =
    let (a, there) = get_elem?-some r.rpm_send_addr gw_id (omega (arith, v.gateways, v.power)) in
    (
      a,
      new_bytes (record {
        mot_id = k;
        power_mode = 0;
        value = to_word 16 (clamp_rpm limit rpm);
        mot_type = t;
      }),
      f a there,
      there,
      refl,
      refl,
      refl,
      refl,
      value_Carries limit rpm k 0 t h m,
    )

-- An order of a speed to a motor of a gateway in use, of either type, is one datagram of five bytes
-- to that gateway, which names the motor and its type and carries the speed if it is within the
-- limit of the type, and else the nearest limit.
pub set_rpm_lem :
    (r : Robomas) (gw_id k : ℕ) (rpm : ℤ)
    → IsReady r
    → gw_id < r.gw_count
    → k < 8
    → SpeedOrder r gw_id k 0 10000 rpm (set_rpm_as_m3508 r gw_id (pos (suc k)) rpm)
      × SpeedOrder r gw_id k 1 22000 rpm (set_rpm_as_m2006 r gw_id (pos (suc k)) rpm)
unfolding set_rpm_as_m3508 set_rpm_as_m2006 send_to
set_rpm_lem r gw_id k rpm v g l =
    let id : k % 2 ^ 8 ≡ k = omega arith in
    (
      new_order r gw_id k 10000 0 rpm (set_rpm_as_m3508 r gw_id (pos (suc k)) rpm) v g l
          (omega arith) (omega arith)
          (λ a there. rw (set_rpm_as_m3508, is_motor_pos r gw_id k g l, send_to, there, id)),
      new_order r gw_id k 22000 1 rpm (set_rpm_as_m2006 r gw_id (pos (suc k)) rpm) v g l
          (omega arith) (omega arith)
          (λ a there. rw (set_rpm_as_m2006, is_motor_pos r gw_id k g l, send_to, there, id)),
    )
