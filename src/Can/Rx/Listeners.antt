-- ===== src/Can/Rx/Listeners.antt =====
-- Who is registered in pkg/can_smbus/src/core/io/cs_rx.c: what the functions that bind and close do
-- to each list, the devices that come and go with them included.
use rmm_2023_pre.Common.{
  ℕ, ◌<◌, ◌≡◌, refl, inl, inr, Bool, true, false, List, [], ◌∷◌, ◌++◌, Option, none, some, ◌&&◌,
  ◌==◌, if◌then◌else◌, arith, Bool-cases, Option-cases,
}
use rmm_2023_pre.Common.Bits.{mask4}
use rmm_2023_pre.Can.Callbacks.{Callback, list_add}
use rmm_2023_pre.Can.Rx.{
  Rx, DeviceInfo, initializer, blank_info, arg_checker, driver_index, device_index, device_info_get,
  device_info_create, Slot, reg, reg_ack, req_ack, channel_eq, slot_list, set_slot, bind_slot,
}

-- For an identifier of 16 bits, the indices that pass the guard are within the arrays
-- `devs[4][31][16]` and `regs[2][16]`.
pub arg_checker_bounds :
    (gw_id id r : ℕ)
    → id < 65536
    → arg_checker gw_id id r ≡ true
    → (gw_id < 4) × (driver_index id < 31) × (device_index id < 16) × (r < 16)
arg_checker_bounds gw_id id r h e = ground (arith, mask4 id h)

abbrev pub slot_eq : Slot → Slot → Bool
slot_eq (reg c r) (reg c' r') = channel_eq c c' && r == r'
slot_eq (reg_ack c) (reg_ack c') = channel_eq c c'
slot_eq (req_ack c) (req_ack c') = channel_eq c c'
slot_eq _ _ = false

pub slot_list-set_slot :
    (s s' : Slot) (list : List Callback) (info : DeviceInfo)
    → slot_list s' (set_slot s list info) ≡ (if slot_eq s s' then list else slot_list s' info)
slot_list-set_slot (reg c r) (reg c' r') list info = refl
slot_list-set_slot (reg_ack c) (reg_ack c') list info = refl
slot_list-set_slot (req_ack c) (req_ack c') list info = refl
slot_list-set_slot (reg c r) (reg_ack c') list info = refl
slot_list-set_slot (reg c r) (req_ack c') list info = refl
slot_list-set_slot (reg_ack c) (reg c' r') list info = refl
slot_list-set_slot (reg_ack c) (req_ack c') list info = refl
slot_list-set_slot (req_ack c) (reg c' r') list info = refl
slot_list-set_slot (req_ack c) (reg_ack c') list info = refl

-- The callbacks of a slot of a device; a device that is not there has none.
abbrev pub of_info : Option DeviceInfo → Slot → List Callback
of_info none s = []
of_info (some info) s = slot_list s info

unfoldable pub listeners : Rx → ℕ → ℕ → Slot → List Callback
listeners rx gw_id id s = of_info (device_info_get rx gw_id id) s

pub listeners-initializer : (gw_id id : ℕ) (s : Slot) → listeners initializer gw_id id s ≡ []
unfolding listeners initializer device_info_get
listeners-initializer gw_id id s = refl

-- A slot that the arrays have.
abbrev pub InRange : Slot → Type 0
InRange (reg c r) = r < 16
InRange (reg_ack c) = Unit
InRange (req_ack c) = Unit

-- The two pairs name one entry of `devs`.
abbrev pub same_device : ℕ → ℕ → ℕ → ℕ → Bool
same_device gw_id id gw' id' =
    gw' == gw_id && (driver_index id' == driver_index id && device_index id' == device_index id)

pub same_device_get :
    (rx : Rx) (gw_id id gw' id' : ℕ)
    → same_device gw_id id gw' id' ≡ true
    → device_info_get rx gw' id' ≡ device_info_get rx gw_id id
unfolding device_info_get
same_device_get rx gw_id id gw' id' h =
    let e : (gw' ≡ gw_id)
        × (driver_index id' ≡ driver_index id)
        × (device_index id' ≡ device_index id) =
      split (driver_index id') (driver_index id) (device_index id') (device_index id) h in
    let p : rx.devs gw' (driver_index id') (device_index id')
        ≡ rx.devs gw_id (driver_index id) (device_index id) =
      cc (e.0, e.1, e.2) in
    p
  where
    split :
        (a b c d : ℕ)
        → gw' == gw_id && (a == b && c == d) ≡ true
        → (gw' ≡ gw_id) × (a ≡ b) × (c ≡ d)
    split a b c d h = ground arith

-- The device that `bind` writes to.
abbrev pub info_or_blank : Option DeviceInfo → DeviceInfo
info_or_blank none = blank_info
info_or_blank (some info) = info

slot_list-blank : (s : Slot) → slot_list s blank_info ≡ []
slot_list-blank (reg c r) = refl
slot_list-blank (reg_ack c) = refl
slot_list-blank (req_ack c) = refl

of_info_or_blank : (o : Option DeviceInfo) (s : Slot) → slot_list s (info_or_blank o) ≡ of_info o s
of_info_or_blank none s = slot_list-blank s
of_info_or_blank (some info) s = refl

pub get-bind_slot :
    (rx : Rx) (gw_id id : ℕ) (s : Slot) (cb : Callback) (gw' id' : ℕ)
    → device_info_get (bind_slot rx gw_id id s cb) gw' id' ≡ (
        if same_device gw_id id gw' id'
        then (let info = info_or_blank (device_info_get rx gw_id id) in
            some (set_slot s (list_add (slot_list s info) cb) info))
        else device_info_get rx gw' id')
unfolding bind_slot device_info_get device_info_create
get-bind_slot rx gw_id id s cb gw' id' = ground arith

-- Binding appends the callback to the one list that is named, and changes no other.
pub listeners-bind_slot :
    (rx : Rx) (gw_id id : ℕ) (s : Slot) (cb : Callback) (gw' id' : ℕ) (s' : Slot)
    → listeners (bind_slot rx gw_id id s cb) gw' id' s' ≡ (
        if same_device gw_id id gw' id' && slot_eq s s'
        then listeners rx gw_id id s ++ (cb ∷ [])
        else listeners rx gw' id' s')
unfolding listeners list_add
listeners-bind_slot rx gw_id id s cb gw' id' s' =
    let info = info_or_blank (device_info_get rx gw_id id) in
    rw (get-bind_slot rx gw_id id s cb gw' id') (elim (Bool-cases (same_device gw_id id gw' id')) [
      | inl m ↦ rw (
        m,
        slot_list-set_slot s s' (slot_list s info ++ (cb ∷ [])) info,
        of_info_or_blank (device_info_get rx gw_id id) s,
        of_info_or_blank (device_info_get rx gw_id id) s',
        same_device_get rx gw_id id gw' id' m,
      )
      | inr m ↦ rw m
    ])

-- The lists of the broadcasts are not touched.
pub brc_callbacks-bind_slot :
    (rx : Rx) (gw_id id : ℕ) (s : Slot) (cb : Callback)
    → (bind_slot rx gw_id id s cb).brc_callbacks ≡ rx.brc_callbacks
unfolding bind_slot device_info_create
brc_callbacks-bind_slot rx gw_id id s cb =
    elim (Option-cases (rx.devs gw_id (driver_index id) (device_index id))) [
      | inl n ↦ rw (bind_slot, device_info_create, n) refl
      | inr (info, e) ↦ rw (bind_slot, device_info_create, e) refl
    ]
