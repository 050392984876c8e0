-- ===== src/Robomas/M3508/Safety.antt =====
-- rm_m3508.c: what a new state holds, and what the safety thread sends.
use mathlib.Core.Option.{some-injective}
use rmm_2023_pre.Common.{
  ℕ, zero, suc, ◌+◌, ◌≤◌, ◌<◌, ◌≡◌, ◌≢◌, refl, ap, ◌∙◌, subst, dec_lt, Bool-cases, inl, inr, leb→le,
  arith, true, leb, some, List, [], ◌∷◌, length, get_elem?, get_or, length-set, get_elem?-set_self,
  get_elem?-set_ne,
}
use rmm_2023_pre.Robomas.M3508.{
  Robomas, clear_sensors, init_gateway, init_gateways, init, power_address, conf_address,
  safety_sends, safety_turn, safety_on, safety_off,
}
use rmm_2023_pre.Robomas.M3508.Sensors.{IsReady, RowsOf-set, RowsOf-get_or, length-clear_sensors}

module _ (inet_addr : List ℕ → ℕ) (htons : ℕ → ℕ) where
  safety_sends_place :
      (left i k : ℕ) (bytes : List ℕ)
      → k < left
      → get_elem? (safety_sends inet_addr htons left i bytes) k
        ≡ some (conf_address inet_addr htons (i + k), bytes)
  unfolding safety_sends
  safety_sends_place zero i k bytes h = absurd (omega arith)
  safety_sends_place (suc left) i zero bytes h =
      let e : i ≡ i + 0 = omega arith in ap (λ n. some (conf_address inet_addr htons n, bytes)) e
  safety_sends_place (suc left) i (suc k) bytes h =
      let e : suc i + k ≡ i + suc k = omega arith in
      safety_sends_place left (suc i) k bytes (omega arith)
      ∙ ap (λ n. some (conf_address inet_addr htons n, bytes)) e

  length-safety_sends :
      (left i : ℕ) (bytes : List ℕ) → length (safety_sends inet_addr htons left i bytes) ≡ left
  unfolding safety_sends
  length-safety_sends zero i bytes = refl
  length-safety_sends (suc left) i bytes = ap suc (length-safety_sends left (suc i) bytes)

  -- Each turn tells every gateway the last order.
  pub safety_turn_lem :
      (r : Robomas) (k : ℕ)
      → k < r.gw_count
      → (length (safety_turn inet_addr htons (safety_on r)) ≡ r.gw_count)
        × (length (safety_turn inet_addr htons (safety_off r)) ≡ r.gw_count)
        × (get_elem? (safety_turn inet_addr htons (safety_on r)) k
            ≡ some (conf_address inet_addr htons k, 1 ∷ []))
        × (get_elem? (safety_turn inet_addr htons (safety_off r)) k
            ≡ some (conf_address inet_addr htons k, 0 ∷ []))
  unfolding safety_turn safety_on safety_off
  safety_turn_lem r k h =
      let e : 0 + k ≡ k = omega arith in
      (
        length-safety_sends r.gw_count 0 (1 ∷ []),
        length-safety_sends r.gw_count 0 (0 ∷ []),
        safety_sends_place r.gw_count 0 k (1 ∷ []) h
            ∙ ap (λ n. some (conf_address inet_addr htons n, 1 ∷ [])) e,
        safety_sends_place r.gw_count 0 k (0 ∷ []) h
            ∙ ap (λ n. some (conf_address inet_addr htons n, 0 ∷ [])) e,
      )

  -- The addresses of one gateway.
  abbrev Addressed : ℕ → Robomas → Type 0
  Addressed k r =
      (get_elem? r.rpm_send_addr k ≡ some (power_address inet_addr htons k))
      × (get_elem? r.conf_send_addr k ≡ some (conf_address inet_addr htons k))

  init_gateway-IsReady :
      (i : ℕ) (r : Robomas) → IsReady r → i < 4 → IsReady (init_gateway inet_addr htons i r)
  unfolding init_gateway
  init_gateway-IsReady i r v h = record {
    gateways = v.gateways;
    power = length-set r.rpm_send_addr i (power_address inet_addr htons i) ∙ v.power;
    conf = length-set r.conf_send_addr i (conf_address inet_addr htons i) ∙ v.conf;
    sensors = length-set r.sensors i (clear_sensors 8 (get_or r.sensors i [])) ∙ v.sensors;
    rows = RowsOf-set 8 r.sensors i (clear_sensors 8 (get_or r.sensors i [])) v.rows (
        length-clear_sensors 8 (get_or r.sensors i [])
        ∙ RowsOf-get_or 8 r.sensors i v.rows (omega (arith, v.sensors)));
  }

  init_gateway-Addressed :
      (i : ℕ) (r : Robomas) → IsReady r → i < 4 → Addressed i (init_gateway inet_addr htons i r)
  unfolding init_gateway
  init_gateway-Addressed i r v h = (
    get_elem?-set_self r.rpm_send_addr i (power_address inet_addr htons i) (omega (arith, v.power)),
    get_elem?-set_self r.conf_send_addr i (conf_address inet_addr htons i) (omega (arith, v.conf)),
  )

  init_gateway_keeps :
      (i k : ℕ) (r : Robomas)
      → i ≢ k
      → Addressed k r
      → Addressed k (init_gateway inet_addr htons i r)
  unfolding init_gateway
  init_gateway_keeps i k r ne h = (
    get_elem?-set_ne r.rpm_send_addr (power_address inet_addr htons i) ne ∙ h.0,
    get_elem?-set_ne r.conf_send_addr (conf_address inet_addr htons i) ne ∙ h.1,
  )

  init_gateways-IsReady :
      (left i : ℕ) (r : Robomas)
      → IsReady r
      → i + left ≤ 4
      → IsReady (init_gateways inet_addr htons left i r)
  unfolding init_gateways
  init_gateways-IsReady zero i r v h = v
  init_gateways-IsReady (suc left) i r v h =
      init_gateways-IsReady left (suc i) (init_gateway inet_addr htons i r)
        (init_gateway-IsReady i r v (omega arith)) (omega arith)

  init_gateways_keeps :
      (left i k : ℕ) (r : Robomas)
      → k < i
      → Addressed k r
      → Addressed k (init_gateways inet_addr htons left i r)
  unfolding init_gateways
  init_gateways_keeps zero i k r h a = a
  init_gateways_keeps (suc left) i k r h a =
      init_gateways_keeps left (suc i) k (init_gateway inet_addr htons i r) (omega arith)
        (init_gateway_keeps i k r (omega arith) a)

  init_gateways-Addressed :
      (left i k : ℕ) (r : Robomas)
      → IsReady r
      → i + left ≤ 4
      → i ≤ k
      → k < i + left
      → Addressed k (init_gateways inet_addr htons left i r)
  unfolding init_gateways
  init_gateways-Addressed zero i k r v h l m = absurd (omega arith)
  init_gateways-Addressed (suc left) i k r v h l m = elim (dec_lt i k) [
    | yes p ↦
        init_gateways-Addressed left (suc i) k (init_gateway inet_addr htons i r)
          (init_gateway-IsReady i r v (omega arith)) (omega arith) p (omega arith)
    | no p ↦ init_gateways_keeps left (suc i) k (init_gateway inet_addr htons i r) (omega arith) (
        subst (λ n. Addressed n (init_gateway inet_addr htons i r)) (omega arith)
          (init_gateway-Addressed i r v (omega arith)))
  ]

  init_gateways-gw_count :
      (left i : ℕ) (r : Robomas) → (init_gateways inet_addr htons left i r).gw_count ≡ r.gw_count
  unfolding init_gateways init_gateway
  init_gateways-gw_count zero i r = refl
  init_gateways-gw_count (suc left) i r =
      init_gateways-gw_count left (suc i) (init_gateway inet_addr htons i r)

  -- After `RMM3508_init` the arrays are whole, and every gateway has its addresses.
  pub init_lem :
      (r r' : Robomas) (gw_count k : ℕ)
      → IsReady r
      → init inet_addr htons r gw_count ≡ some r'
      → k < gw_count
      → IsReady r' × (r'.gw_count ≡ gw_count) × (r'.is_safety ≡ true) × Addressed k r'
  unfolding init
  init_lem r r' gw_count k v e l = elim (Bool-cases (leb gw_count 4)) [
    | inl h ↦
        let start : Robomas = record r { gw_count = gw_count } in
        let few : gw_count ≤ 4 = leb→le gw_count 4 h in
        let begun : IsReady start = record {
          gateways = few;
          power = v.power;
          conf = v.conf;
          sensors = v.sensors;
          rows = v.rows;
        } in
        let done = init_gateways inet_addr htons gw_count 0 start in
        let whole = init_gateways-IsReady gw_count 0 start begun (omega arith) in
        subst (λ q. IsReady q × (q.gw_count ≡ gw_count) × (q.is_safety ≡ true) × Addressed k q)
          (some-injective (record done { is_safety = true }) r' (rw h at e))
          (
            record {
              gateways = whole.gateways;
              power = whole.power;
              conf = whole.conf;
              sensors = whole.sensors;
              rows = whole.rows;
            },
            init_gateways-gw_count gw_count 0 start,
            refl,
            init_gateways-Addressed gw_count 0 k start begun (omega arith) (omega arith)
                (omega arith),
          )
    | inr h ↦ cc (rw h at e)
  ]
