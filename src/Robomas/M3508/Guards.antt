-- ===== src/Robomas/M3508/Guards.antt =====
-- rm_m3508.c: which orders are refused, and what the getters give of a motor that is not there.
use rmm_2023_pre.Common.{
  ℕ, zero, suc, ◌<◌, ◌≡◌, ◌↔◌, ◌⊎◌, refl, arith, Bool, ◌&&◌, if◌then◌else◌, ltb, true, false,
  Bool-cases, inl, inr, some, List, get_elem?,
}
use rmm_2023_pre.Common.Int.{ℤ, pos, negsuc, ◌≤ℤ◌}
use rmm_2023_pre.Robomas.M3508.{
  Floats, Robomas, Address, Outcome, refused, sent, send_to, is_motor, is_number, set_rpm_as_m3508,
  set_rpm_as_m2006, set_rpm_sync_as_m3508, get_rpm, is_wakeup, reading,
}
use rmm_2023_pre.Robomas.M3508.Floating.{
  set_current_as_m3508, set_current_as_m2006, set_pitch_as_m3508, get_theta,
  get_real_current_as_m3508, get_order_current_as_m3508, get_real_current_as_m2006,
  get_order_current_as_m2006,
}
use rmm_2023_pre.Robomas.M3508.Sensors.{IsReady, get_elem?-some}

-- The numbers of the motors are 1 to 8, those of the gateways start at 0.
abbrev pub IsMotor : Robomas → ℕ → ℤ → Type 0
IsMotor r gw_id number = (gw_id < r.gw_count) × (pos 1 ≤ℤ number) × (number ≤ℤ pos 8)

is_motor_iff :
    (r : Robomas) (gw_id : ℕ) (number : ℤ)
    → (is_motor r gw_id number ≡ true) ↔ IsMotor r gw_id number
unfolding is_motor
is_motor_iff r gw_id (pos zero) = ground arith
is_motor_iff r gw_id (pos (suc n)) = ground arith
is_motor_iff r gw_id (negsuc n) = ground arith

-- An order that is refused when its numbers are wrong, and else sent to its gateway.
abbrev pub Obeys : Robomas → ℕ → Type 0 → Outcome → Type 0
Obeys r gw_id P o =
    ((o ≡ refused) × ¬ P)
    ⊎ (P
        × ((a : Address) × (bytes : List ℕ) × (o ≡ sent a bytes)
            × (get_elem? r.rpm_send_addr gw_id ≡ some a)))

send_to_there :
    (addrs : List Address) (gw_id : ℕ) (bytes : List ℕ) (a : Address)
    → get_elem? addrs gw_id ≡ some a
    → send_to addrs gw_id bytes ≡ sent a bytes
unfolding send_to
send_to_there addrs gw_id bytes a e = rw (send_to, e)

send_to-Obeys :
    (r : Robomas) (gw_id : ℕ) (P : Type 0) (b : Bool) (bytes : List ℕ)
    → IsReady r
    → (b ≡ true → P × (gw_id < r.gw_count))
    → (b ≡ false → ¬ P)
    → Obeys r gw_id P (if b then send_to r.rpm_send_addr gw_id bytes else refused)
unfolding send_to
send_to-Obeys r gw_id P true bytes v f g =
    let (p, l) = f refl in
    let (a, there) = get_elem?-some r.rpm_send_addr gw_id (omega (arith, v.gateways, v.power)) in
    inr (p, (a, bytes, send_to_there r.rpm_send_addr gw_id bytes a there, there))
send_to-Obeys r gw_id P false bytes v f g = inl (refl, g refl)

clash : (b : Bool) → b ≡ true → b ≡ false → ⊥
clash b e f = cc

two_motors :
    (r : Robomas) (gw_id : ℕ) (number1 number2 : ℤ)
    → (is_motor r gw_id number1 && is_number number2 ≡ true)
      ↔ ((is_motor r gw_id number1 ≡ true) × (is_motor r gw_id number2 ≡ true))
unfolding is_motor
two_motors r gw_id number1 number2 =
    split (ltb gw_id r.gw_count) (is_number number1) (is_number number2)
  where
    split : (a b c : Bool) → ((a && b) && c ≡ true) ↔ ((a && b ≡ true) × (a && c ≡ true))
    split a b c = ground arith

-- An order to one motor.
one-Obeys :
    (r : Robomas) (gw_id : ℕ) (number : ℤ) (bytes : List ℕ)
    → IsReady r
    → Obeys r gw_id
        (IsMotor r gw_id number)
        (if is_motor r gw_id number then send_to r.rpm_send_addr gw_id bytes else refused)
one-Obeys r gw_id number bytes v =
    let iff = is_motor_iff r gw_id number in
    send_to-Obeys r gw_id (IsMotor r gw_id number) (is_motor r gw_id number) bytes v
      (λ e. (iff.0 e, (iff.0 e).0)) (λ e h. absurd (clash (is_motor r gw_id number) (iff.1 h) e))

two-Obeys :
    (r : Robomas) (gw_id : ℕ) (number1 number2 : ℤ) (bytes : List ℕ)
    → IsReady r
    → Obeys r gw_id (IsMotor r gw_id number1 × IsMotor r gw_id number2) (
        if is_motor r gw_id number1 && is_number number2
        then send_to r.rpm_send_addr gw_id bytes
        else refused)
two-Obeys r gw_id number1 number2 bytes v =
    let i1 = is_motor_iff r gw_id number1 in
    let i2 = is_motor_iff r gw_id number2 in
    send_to-Obeys r gw_id (IsMotor r gw_id number1 × IsMotor r gw_id number2)
      (is_motor r gw_id number1 && is_number number2) bytes v
      (λ e.
        let (e1, e2) = (two_motors r gw_id number1 number2).0 e in
        ((i1.0 e1, i2.0 e2), (i1.0 e1).0))
      (λ e h. absurd (clash _ ((two_motors r gw_id number1 number2).1 (i1.1 h.0, i2.1 h.1)) e))

-- What the getters give of a motor that is not there.
abbrev pub Blank : (fl : Floats) → Robomas → ℕ → ℤ → Type 0
Blank fl r gw_id number =
    (get_rpm r gw_id number ≡ some (pos 0))
    × (is_wakeup r gw_id number ≡ some false)
    × (get_theta fl r gw_id number ≡ some (fl.of_int (pos 0)))
    × (get_real_current_as_m3508 fl r gw_id number ≡ some (fl.of_int (pos 0)))
    × (get_order_current_as_m3508 fl r gw_id number ≡ some (fl.of_int (pos 0)))
    × (get_real_current_as_m2006 fl r gw_id number ≡ some (fl.of_int (pos 0)))
    × (get_order_current_as_m2006 fl r gw_id number ≡ some (fl.of_int (pos 0)))

refused-Blank :
    (fl : Floats) (r : Robomas) (gw_id : ℕ) (number : ℤ)
    → is_motor r gw_id number ≡ false
    → Blank fl r gw_id number
unfolding get_rpm is_wakeup get_theta get_real_current_as_m3508 get_order_current_as_m3508
    get_real_current_as_m2006 get_order_current_as_m2006 reading
refused-Blank fl r gw_id number e = (rw e, rw e, rw e, rw e, rw e, rw e, rw e)

-- Each of the six orders is refused exactly when the gateway is not in use or the number is not 1
-- to 8, of both motors for the order to two, and is else sent to the address of the gateway without
-- a fault; and unless there is such a motor all seven getters give 0, or not awake. The object is
-- one that was set up.
pub guards_lem :
    (fl : Floats) (r : Robomas) (gw_id : ℕ) (number other rpm : ℤ) (x y : fl.Float)
    → IsReady r
    → Obeys r gw_id (IsMotor r gw_id number) (set_rpm_as_m3508 r gw_id number rpm)
      × Obeys r gw_id (IsMotor r gw_id number) (set_rpm_as_m2006 r gw_id number rpm)
      × Obeys r gw_id
          (IsMotor r gw_id number × IsMotor r gw_id other)
          (set_rpm_sync_as_m3508 r gw_id number other rpm)
      × Obeys r gw_id (IsMotor r gw_id number) (set_current_as_m3508 fl r gw_id number x)
      × Obeys r gw_id (IsMotor r gw_id number) (set_current_as_m2006 fl r gw_id number x)
      × Obeys r gw_id (IsMotor r gw_id number) (set_pitch_as_m3508 fl r gw_id number x y)
      × (IsMotor r gw_id number ⊎ Blank fl r gw_id number)
unfolding set_rpm_as_m3508 set_rpm_as_m2006 set_rpm_sync_as_m3508 set_current_as_m3508
    set_current_as_m2006 set_pitch_as_m3508
guards_lem fl r gw_id number other rpm x y v = (
  one-Obeys r gw_id number _ v,
  one-Obeys r gw_id number _ v,
  two-Obeys r gw_id number other _ v,
  one-Obeys r gw_id number _ v,
  one-Obeys r gw_id number _ v,
  one-Obeys r gw_id number _ v,
  elim (Bool-cases (is_motor r gw_id number)) [
    | inl e ↦ inl ((is_motor_iff r gw_id number).0 e)
    | inr e ↦ inr (refused-Blank fl r gw_id number e)
  ],
)
