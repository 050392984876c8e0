-- ===== src/Robomas/M3508.antt =====
-- pkg/robomas/src/c/rm_m3508.c: up to four gateways of eight motors each. The floating-point types and
-- `inet_addr`, `htons` are parameters; what the sockets send is a result, what they receive an
-- argument.
pub mod Commands
pub mod Guards
pub mod Floating
pub mod Sensors
pub mod Exchange
pub mod Safety
mod Tests
use rmm_2023_pre.Common.{
  ℕ, zero, suc, ◌+◌, ◌-◌, Bool, true, false, ◌&&◌, not, Option, none, some, List, [], ◌∷◌, ◌++◌,
  ltb, leb, ◌==◌, if◌then◌else◌, length, get_elem?, get_or, set, take, replicate, ◌/◌, ◌%◌, ◌<◌,
}
use rmm_2023_pre.Common.Int.{ℤ, pos, negsuc, ltb_ℤ, leb_ℤ, to_word, of_word}
use rmm_2023_pre.Robomas.Frames.{
  CoefFrame, coef_bytes, read_coef, AdvancedCoefFrame, advanced_coef_bytes, read_advanced_coef,
  RpmSyncFrame, rpm_sync_bytes, NewFrame, new_bytes, PitchFrame, pitch_bytes, SensData,
  read_sens_array,
}

-- `float` and `double`: the conversions give the words of what C converts to.
pub record Floats : Type 1 where
  pub Float : Type 0
  pub Double : Type 0
  pub of_int : ℤ → Float
  pub lt : Float → Float → Bool
  pub mul : Float → Float → Float
  pub div : Float → Float → Float
  pub to_int16 : Float → ℕ
  pub to_uint32 : Float → ℕ
  pub widen : Float → Double
  pub narrow : Double → Float
  pub of_int_double : ℤ → Double
  pub mul_double : Double → Double → Double
  pub div_double : Double → Double → Double
  pub to_int64 : Double → ℕ

-- `struct sockaddr_in`, of the internet.
pub record Address : Type 0 where
  pub sin_port : ℕ
  pub s_addr : ℕ

-- `struct Robomas_motor_info_t`, without the sockets and the locks.
pub record Robomas : Type 0 where
  pub gw_count : ℕ
  pub rpm_send_addr : List Address
  pub conf_send_addr : List Address
  pub sensors : List (List SensData)
  pub is_safety : Bool

-- What a command does: it logs an error, reads past an array, or sends a datagram.
pub data Outcome : Type 0 where
  refused : Outcome
  fault : Outcome
  sent : Address → List ℕ → Outcome

abbrev pub blank_sens : SensData
blank_sens = record { rpm = 0; cur = 0; set_cur = 0; rota = 0; status = 0 }

abbrev pub recv_port : ℕ
recv_port = 20522

abbrev pub power_send_port : ℕ
power_send_port = 20520

abbrev pub conf_send_port : ℕ
conf_send_port = 20521

-- A number below 1000 in decimal, as `%d` prints it.
pub decimal : ℕ → List ℕ
decimal n =
    if ltb n 10
    then (b'0' + n) ∷ []
    else if ltb n 100
    then (b'0' + n / 10) ∷ (b'0' + n % 10) ∷ []
    else (b'0' + n / 100) ∷ (b'0' + n / 10 % 10) ∷ (b'0' + n % 10) ∷ []

pub create_ip : ℕ → List ℕ
unfolding decimal
create_ip gw_i = b'1' ∷ b'7' ∷ b'2' ∷ b'.' ∷ b'2' ∷ b'2' ∷ b'.' ∷ b'4' ∷ b'.' ∷ decimal (11 + gw_i)

-- `gw_id < gw_count && 0 < number && number <= 8`.
pub is_number : ℤ → Bool
is_number number = ltb_ℤ (pos 0) number && leb_ℤ number (pos 8)

pub is_motor : Robomas → ℕ → ℤ → Bool
unfolding is_number
is_motor r gw_id number = ltb gw_id r.gw_count && is_number number

-- `number - 1`, in 32 bits.
abbrev pub pred_int : ℤ → ℤ
pred_int (pos zero) = negsuc 0
pred_int (pos (suc n)) = pos n
pred_int (negsuc n) = negsuc (suc n)

-- `frame.mot_id = number - 1`.
abbrev pub mot_id_of : ℤ → ℕ
mot_id_of number = to_word 8 (pred_int number)

pub clamp_rpm : ℕ → ℤ → ℤ
clamp_rpm limit rpm =
    if ltb_ℤ (pos limit) rpm
    then pos limit
    else if ltb_ℤ rpm (negsuc (limit - 1))
    then negsuc (limit - 1)
    else rpm

-- `sendto` to an address of the state's.
pub send_to : List Address → ℕ → List ℕ → Outcome
send_to addrs gw_id bytes = elim (get_elem? addrs gw_id) [ none ↦ fault | some a ↦ sent a bytes ]

pub set_rpm_as_m3508 : Robomas → ℕ → ℤ → ℤ → Outcome
unfolding send_to
set_rpm_as_m3508 r gw_id number rpm =
    if is_motor r gw_id number
    then send_to r.rpm_send_addr gw_id (
        new_bytes (record {
          mot_id = mot_id_of number;
          power_mode = 0;
          value = to_word 16 (clamp_rpm 10000 rpm);
          mot_type = 0;
        }))
    else refused

pub set_rpm_sync_as_m3508 : Robomas → ℕ → ℤ → ℤ → ℤ → Outcome
unfolding send_to
set_rpm_sync_as_m3508 r gw_id number1 number2 rpm =
    if is_motor r gw_id number1 && is_number number2
    then send_to r.rpm_send_addr gw_id (
        rpm_sync_bytes (record {
          mot_id1 = mot_id_of number1;
          mot_id2 = mot_id_of number2;
          rpm = to_word 16 (clamp_rpm 10000 rpm);
        }))
    else refused

pub set_rpm_as_m2006 : Robomas → ℕ → ℤ → ℤ → Outcome
unfolding send_to
set_rpm_as_m2006 r gw_id number rpm =
    if is_motor r gw_id number
    then send_to r.rpm_send_addr gw_id (
        new_bytes (record {
          mot_id = mot_id_of number;
          power_mode = 0;
          value = to_word 16 (clamp_rpm 22000 rpm);
          mot_type = 1;
        }))
    else refused

pub safety_on : Robomas → Robomas
safety_on r = record r { is_safety = true }

pub safety_off : Robomas → Robomas
safety_off r = record r { is_safety = false }

-- What a getter returns: `none` is a read past an array.
pub reading : {R : Type 0} → (SensData → R) → R → Robomas → ℕ → ℤ → Option R
reading f zero_value r gw_id number =
    if is_motor r gw_id number
    then elim (get_elem? r.sensors gw_id) [
      | none ↦ none
      | some row ↦ elim (get_elem? row (mot_id_of number)) [ none ↦ none | some s ↦ some (f s) ]
    ]
    else some zero_value

pub get_rpm : Robomas → ℕ → ℤ → Option ℤ
unfolding reading
get_rpm = reading (λ s. of_word 16 s.rpm) (pos 0)

pub is_wakeup : Robomas → ℕ → ℤ → Option Bool
unfolding reading
is_wakeup = reading (λ s. not (s.status == 0)) false

-- The first gateway with an address, from `gw_i` on.
pub find_gateway : (ℕ → ℕ) → ℕ → ℕ → ℕ → Option ℕ
find_gateway gw_ips zero gw_i from = none
find_gateway gw_ips (suc left) gw_i from =
    let rest = find_gateway gw_ips left (suc gw_i) from in
    if gw_ips gw_i == from then some gw_i else rest

-- One round of `RMM3508_setCoef` and of `RMM3508_setAdvancedCoef` per turn: how often they have sent,
-- and whether they were answered. `reply` gives what `recvfrom` returns after each failure.
pub exchange : (Option (List ℕ) → Bool) → ℕ → ℕ → ℕ → (ℕ → Option (List ℕ)) → Option (ℕ × Bool)
exchange is_ack limit zero error_count reply = none
exchange is_ack limit (suc fuel) error_count reply =
    let again = exchange is_ack limit fuel (suc error_count) reply in
    if is_ack (reply error_count)
    then some (suc error_count, true)
    else if ltb limit error_count
    then some (suc error_count, false)
    else again

abbrev pub differs : ℕ → ℕ → ℕ
differs a b = if a == b then 0 else 1

-- `recvfrom` cuts a datagram to the size of the frame.
pub is_coef_ack : CoefFrame → Option (List ℕ) → Bool
is_coef_ack conf none = false
is_coef_ack conf (some datagram) =
    let received = take 13 datagram in
    let ack = read_coef received in
    (length received == 13)
    && (differs ack.mot_id conf.mot_id
          + differs ack.p conf.p
          + differs ack.i conf.i
          + differs ack.d conf.d
        == 0)

pub is_advanced_coef_ack : AdvancedCoefFrame → Option (List ℕ) → Bool
is_advanced_coef_ack conf none = false
is_advanced_coef_ack conf (some datagram) =
    let received = take 14 datagram in
    let ack = read_advanced_coef received in
    (length received == 14)
    && (differs ack.mot_id conf.mot_id
          + differs ack.p conf.p
          + differs ack.i conf.i
          + differs ack.d conf.d
          + differs ack.inverse conf.inverse
        == 0)

-- The loop over the eight motors of a gateway.
pub clear_sensors : ℕ → List SensData → List SensData
clear_sensors zero row = row
clear_sensors (suc n) row = clear_sensors n (set row 0 blank_sens)

module _ (inet_addr : List ℕ → ℕ) (htons : ℕ → ℕ) where
  pub power_address : ℕ → Address
  unfolding create_ip
  power_address gw_i = record {
    sin_port = htons power_send_port;
    s_addr = inet_addr (create_ip gw_i);
  }

  pub conf_address : ℕ → Address
  unfolding create_ip
  conf_address gw_i = record {
    sin_port = htons conf_send_port;
    s_addr = inet_addr (create_ip gw_i);
  }

  -- One gateway, and the loop over them.
  pub init_gateway : ℕ → Robomas → Robomas
  init_gateway gw_i r = record r {
    rpm_send_addr = set r.rpm_send_addr gw_i (power_address gw_i);
    conf_send_addr = set r.conf_send_addr gw_i (conf_address gw_i);
    sensors = set r.sensors gw_i (clear_sensors 8 (get_or r.sensors gw_i []));
  }

  pub init_gateways : ℕ → ℕ → Robomas → Robomas
  init_gateways zero gw_i r = r
  init_gateways (suc left) gw_i r = init_gateways left (suc gw_i) (init_gateway gw_i r)

  -- `RMM3508_init`: more than four gateways are written past the arrays.
  pub init : Robomas → ℕ → Option Robomas
  init r gw_count =
      if leb gw_count 4
      then some (record (init_gateways gw_count 0 (record r { gw_count = gw_count })) {
        is_safety = true;
      })
      else none

  pub safety_sends : ℕ → ℕ → List ℕ → List (Address × List ℕ)
  safety_sends zero gw_i bytes = []
  safety_sends (suc left) gw_i bytes =
      (conf_address gw_i, bytes) ∷ safety_sends left (suc gw_i) bytes

  -- One turn of `RMM3508_safetyThread`.
  pub safety_turn : Robomas → List (Address × List ℕ)
  safety_turn r =
      let safety = if r.is_safety then 1 else 0 in safety_sends r.gw_count 0 (safety ∷ [])

module _ (inet_addr : List ℕ → ℕ) where
  -- One turn of `RMM3508_sensThread`, with the sender's address.
  pub on_datagram : Robomas → ℕ → List ℕ → Robomas
  unfolding find_gateway create_ip
  on_datagram r from datagram =
      let received = take 128 datagram in
      if length received == 120
      then elim (find_gateway (λ i. inet_addr (create_ip i)) r.gw_count 0 from) [
        | none ↦ r
        | some gw_i ↦ record r { sensors = set r.sensors gw_i (read_sens_array 8 received) }
      ]
      else r
