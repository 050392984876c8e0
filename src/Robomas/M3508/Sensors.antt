-- ===== src/Robomas/M3508/Sensors.antt =====
-- rm_m3508.c: the arrays of the state, and the sensors that a datagram of a gateway sets.
use rmm_2023_pre.Common.{
  ℕ, zero, suc, ◌+◌, ◌≤◌, ◌<◌, ◌≡◌, ◌⊎◌, ◌≢◌, refl, ap, ◌∙◌, arith, Bool, true, false, Bool-cases,
  inl, inr, ◌==◌, if◌then◌else◌, Option, none, some, List, [], ◌∷◌, length, get_elem?, get_or, set,
  take, drop, length-set, get_elem?-set_ne, length-take,
}
use rmm_2023_pre.Common.Int.{ℤ, pos, negsuc}
use rmm_2023_pre.Robomas.Frames.{SensData, read_sens_array, sens_size}
use rmm_2023_pre.Robomas.M3508.{
  Robomas, blank_sens, is_motor, mot_id_of, reading, create_ip, find_gateway, clear_sensors,
  on_datagram,
}

abbrev pub RowsOf : ℕ → List (List SensData) → Type 0
RowsOf n [] = Unit
RowsOf n (row ∷ rows) = (length row ≡ n) × RowsOf n rows

-- The arrays are whole, and no more gateways are in use than they hold.
pub record IsReady (r : Robomas) : Type 0 where
  pub gateways : r.gw_count ≤ 4
  pub power : length r.rpm_send_addr ≡ 4
  pub conf : length r.conf_send_addr ≡ 4
  pub sensors : length r.sensors ≡ 4
  pub rows : RowsOf 8 r.sensors

pub RowsOf-set :
    (n : ℕ) (rows : List (List SensData)) (i : ℕ) (row : List SensData)
    → RowsOf n rows
    → length row ≡ n
    → RowsOf n (set rows i row)
RowsOf-set n [] i row h l = tt
RowsOf-set n (x ∷ rows) zero row h l = (l, h.1)
RowsOf-set n (x ∷ rows) (suc i) row h l = (h.0, RowsOf-set n rows i row h.1 l)

pub RowsOf-get_or :
    (n : ℕ) (rows : List (List SensData)) (i : ℕ)
    → RowsOf n rows
    → i < length rows
    → length (get_or rows i []) ≡ n
RowsOf-get_or n [] i h l = absurd (omega arith)
RowsOf-get_or n (x ∷ rows) zero h l = h.0
RowsOf-get_or n (x ∷ rows) (suc i) h l = RowsOf-get_or n rows i h.1 (omega arith)

RowsOf-get_elem? :
    (n : ℕ) (rows : List (List SensData)) (i : ℕ)
    → RowsOf n rows
    → i < length rows
    → (row : List SensData) × (get_elem? rows i ≡ some row) × (length row ≡ n)
RowsOf-get_elem? n [] i h l = absurd (omega arith)
RowsOf-get_elem? n (x ∷ rows) zero h l = (x, refl, h.0)
RowsOf-get_elem? n (x ∷ rows) (suc i) h l = RowsOf-get_elem? n rows i h.1 (omega arith)

pub get_elem?-some {ℓ} :
    {A : Type ℓ} (l : List A) (i : ℕ) → i < length l → (a : A) × (get_elem? l i ≡ some a)
get_elem?-some [] i h = absurd (omega arith)
get_elem?-some (x ∷ l) zero h = (x, refl)
get_elem?-some (x ∷ l) (suc i) h = get_elem?-some l i (omega arith)

pub length-clear_sensors : (n : ℕ) (row : List SensData) → length (clear_sensors n row) ≡ length row
unfolding clear_sensors
length-clear_sensors zero row = refl
length-clear_sensors (suc n) row =
    length-clear_sensors n (set row 0 blank_sens) ∙ length-set row 0 blank_sens

-- Only the first motor is cleared.
pub clear_sensors_rest :
    (n k : ℕ) (row : List SensData)
    → get_elem? (clear_sensors n row) (suc k) ≡ get_elem? row (suc k)
unfolding clear_sensors
clear_sensors_rest zero k row = refl
clear_sensors_rest (suc n) k row =
    clear_sensors_rest n k (set row 0 blank_sens) ∙ get_elem?-set_ne row blank_sens (λ e. cc e)

pub is_motor_inv :
    (r : Robomas) (gw_id : ℕ) (number : ℤ)
    → is_motor r gw_id number ≡ true
    → (gw_id < r.gw_count) × (mot_id_of number < 8)
unfolding is_motor
is_motor_inv r gw_id (pos zero) h = ground arith
is_motor_inv r gw_id (pos (suc n)) h = ground arith
is_motor_inv r gw_id (negsuc n) h = ground arith

-- With whole arrays no getter reads past one.
pub reading_total :
    {R : Type 0} (f : SensData → R) (z : R) (r : Robomas) (gw_id : ℕ) (number : ℤ)
    → IsReady r
    → (v : R) × (reading f z r gw_id number ≡ some v)
unfolding reading
reading_total f z r gw_id number h = elim (Bool-cases (is_motor r gw_id number)) [
  | inl e ↦
      let (g, m) = is_motor_inv r gw_id number e in
      let (row, there, size) =
        RowsOf-get_elem? 8 r.sensors gw_id h.rows (omega (arith, h.gateways, h.sensors)) in
      let (s, at_place) = get_elem?-some row (mot_id_of number) (omega arith) in
      (f s, rw (e, there, at_place))
  | inr e ↦ (z, rw e)
]

length-read_sens_array : (n : ℕ) (bytes : List ℕ) → length (read_sens_array n bytes) ≡ n
unfolding read_sens_array
length-read_sens_array zero bytes = refl
length-read_sens_array (suc n) bytes = ap suc (length-read_sens_array n (drop sens_size bytes))

eq_test_of_ne : (m n : ℕ) → m ≢ n → (m == n) ≡ false
eq_test_of_ne m n h = ground arith

not_whole :
    (datagram : List ℕ) → length datagram ≢ 120 → (length (take 128 datagram) == 120) ≡ false
not_whole datagram h = eq_test_of_ne _ _ (λ e. omega (arith, length-take 128 datagram))

find_gateway-none :
    (gw_ips : ℕ → ℕ) (left i from : ℕ)
    → ((j : ℕ) → j < left → gw_ips (i + j) ≢ from)
    → find_gateway gw_ips left i from ≡ none
unfolding find_gateway
find_gateway-none gw_ips zero i from h = refl
find_gateway-none gw_ips (suc left) i from h =
    let miss : gw_ips i ≢ from = λ q. h 0 (omega arith) (ap gw_ips (omega arith) ∙ q) in
    let rest : find_gateway gw_ips left (suc i) from ≡ none =
      find_gateway-none gw_ips left (suc i) from
        (λ j l q. h (suc j) (omega arith) (ap gw_ips (omega arith) ∙ q)) in
    ground (arith, rest, miss)

find_gateway_unknown :
    (gw_ips : ℕ → ℕ) (left from : ℕ)
    → ((j : ℕ) → j < left → gw_ips j ≢ from)
    → find_gateway gw_ips left 0 from ≡ none
find_gateway_unknown gw_ips left from h =
    find_gateway-none gw_ips left 0 from
      (λ j l q. let e : j ≡ 0 + j = omega arith in h j l (ap gw_ips e ∙ q))

pub is_motor_pos :
    (r : Robomas) (gw k : ℕ) → gw < r.gw_count → k < 8 → is_motor r gw (pos (suc k)) ≡ true
unfolding is_motor
is_motor_pos r gw k h l = ground arith

module _ (inet_addr : List ℕ → ℕ) where
  -- What is not the datagram of a known gateway changes nothing.
  pub on_datagram-miss :
      (r : Robomas) (from : ℕ) (datagram : List ℕ)
      → (length datagram ≢ 120) ⊎ ((j : ℕ) → j < r.gw_count → inet_addr (create_ip j) ≢ from)
      → on_datagram inet_addr r from datagram ≡ r
  unfolding on_datagram
  on_datagram-miss r from datagram (inl h) =
      let other : (length (take 128 datagram) == 120) ≡ false = not_whole datagram h in
      rw (on_datagram, other)
  on_datagram-miss r from datagram (inr h) =
      let unknown = find_gateway_unknown (λ i. inet_addr (create_ip i)) r.gw_count from h in
      elim (Bool-cases (length (take 128 datagram) == 120)) [
        | inl e ↦ rw (on_datagram, e, unknown)
        | inr e ↦ rw (on_datagram, e)
      ]

  pub on_datagram-IsReady :
      (r : Robomas) (from : ℕ) (datagram : List ℕ)
      → IsReady r
      → IsReady (on_datagram inet_addr r from datagram)
  unfolding on_datagram
  on_datagram-IsReady r from datagram v =
      go (find_gateway (λ i. inet_addr (create_ip i)) r.gw_count 0 from)
        (length (take 128 datagram) == 120)
    where
      go :
          (o : Option ℕ) (b : Bool)
          → IsReady (
              if b
              then elim o [
                | none ↦ r
                | some gw_i ↦ record r {
                  sensors = set r.sensors gw_i (read_sens_array 8 (take 128 datagram));
                }
              ]
              else r)
      go o false = v
      go none true = v
      go (some gw_i) true = record {
        gateways = v.gateways;
        power = v.power;
        conf = v.conf;
        sensors = length-set r.sensors gw_i (read_sens_array 8 (take 128 datagram)) ∙ v.sensors;
        rows =
            RowsOf-set 8 r.sensors gw_i (read_sens_array 8 (take 128 datagram)) v.rows
              (length-read_sens_array 8 (take 128 datagram));
      }
