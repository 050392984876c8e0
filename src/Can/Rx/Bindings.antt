-- ===== src/Can/Rx/Bindings.antt =====
-- Registrations of pkg/can_smbus/src/core/io/cs_rx.c of every kind, one after another.
use rmm_2023_pre.Common.{
  ℕ, ◌+◌, ◌/◌, ◌%◌, ◌<◌, ◌≡◌, refl, sym, ap, ◌∙◌, Bool, true, false, Bool-cases, inl, inr, List, [],
  ◌∷◌, ◌++◌, ◌&&◌, ◌==◌, if◌then◌else◌, arith,
}
use mathlib.Core.List.{append_assoc, append-nil}
use rmm_2023_pre.Common.Bits.{mask4, mask10}
use rmm_2023_pre.Can.Types.{RegChannel, get_number_id, get_number_reg}
use rmm_2023_pre.Can.Callbacks.{Callback, Call, list_call}
use rmm_2023_pre.Can.Rx.{
  Rx, initializer, arg_checker, driver_index, device_index, Slot, reg, reg_ack, req_ack, channel_eq,
  bind_slot, bind_reg, bind_reg_ack, bind_req_ack, bind_brc,
}
use rmm_2023_pre.Can.Rx.Receive.{receive_frame}
use rmm_2023_pre.Can.Rx.Listeners.{
  listeners, same_device, slot_eq, listeners-initializer, listeners-bind_slot,
}
use rmm_2023_pre.Can.Rx.Undo.{listeners_same}
use rmm_2023_pre.Can.Rx.Dispatch.{IsDevice, IsDevice-arg_checker, write_frame, receive_write}

-- A call of one of the four functions that bind.
pub data Binding : Type 0 where
  at_reg : ℕ → ℕ → ℕ → RegChannel → Callback → Binding
  at_reg_ack at_req_ack : ℕ → ℕ → RegChannel → Callback → Binding
  at_brc : ℕ → ℕ → Callback → Binding

unfoldable pub bind : Rx → Binding → Rx
bind rx (at_reg gw_id id r c cb) = bind_reg rx gw_id id r cb c
bind rx (at_reg_ack gw_id id c cb) = bind_reg_ack rx gw_id id cb c
bind rx (at_req_ack gw_id id c cb) = bind_req_ack rx gw_id id cb c
bind rx (at_brc gw_id r cb) = bind_brc rx gw_id r cb

unfoldable pub bind_all : Rx → List Binding → Rx
bind_all rx [] = rx
bind_all rx (b ∷ bs) = bind_all (bind rx b) bs

-- The callbacks that were bound to one register, the first one first.
unfoldable pub bound_to : ℕ → ℕ → ℕ → RegChannel → List Binding → List Callback
bound_to gw_id id r c [] = []
bound_to gw_id id r c (at_reg gw' id' r' c' cb ∷ bs) =
    let rest = bound_to gw_id id r c bs in
    if gw_id == gw' && (id == id' && (channel_eq c' c && r' == r)) then cb ∷ rest else rest
bound_to gw_id id r c (at_reg_ack gw' id' c' cb ∷ bs) = bound_to gw_id id r c bs
bound_to gw_id id r c (at_req_ack gw' id' c' cb ∷ bs) = bound_to gw_id id r c bs
bound_to gw_id id r c (at_brc gw' r' cb ∷ bs) = bound_to gw_id id r c bs

-- What each of them is called with.
unfoldable pub calls_to : List Callback → ℕ → ℕ → ℕ → List ℕ → List Call
calls_to [] id r len bytes = []
calls_to (cb ∷ cbs) id r len bytes =
    record { to = cb; id = id; reg = r; len = len; bytes = bytes } ∷ calls_to cbs id r len bytes

-- Identifiers of at most 12 bits, which the test of the arguments reads whole.
abbrev pub AreIds : List Binding → Type 0
AreIds [] = Unit
AreIds (at_reg gw' id' r' c' cb ∷ bs) = (id' < 0x1000) × AreIds bs
AreIds (at_reg_ack gw' id' c' cb ∷ bs) = AreIds bs
AreIds (at_req_ack gw' id' c' cb ∷ bs) = AreIds bs
AreIds (at_brc gw' r' cb ∷ bs) = AreIds bs

list_call-calls_to :
    (cbs : List Callback) (id r len : ℕ) (bytes : List ℕ)
    → id < 1024
    → r < 16
    → list_call cbs id r len bytes ≡ calls_to cbs id r len bytes
unfolding list_call calls_to
list_call-calls_to [] id r len bytes h k = refl
list_call-calls_to (cb ∷ cbs) id r len bytes h k =
    let i : get_number_id id ≡ id = omega (arith, mask10 id (omega arith)) in
    let n : get_number_reg r ≡ r = omega (arith, mask4 r (omega arith)) in
    rw (i, n, list_call-calls_to cbs id r len bytes h k) refl

-- Two addresses of a device agree as they are, and as the arrays see them.
parts :
    (id : ℕ) → id < 0x1000 → (driver_index id ≡ (id / 16 + 255) % 256) × (device_index id ≡ id % 16)
parts id h = ground (arith, mask4 id (omega arith))

same_place :
    (a b : ℕ)
    → a < 0x1000
    → b < 0x1000
    → ((a / 16 + 255) % 256 == (b / 16 + 255) % 256 && a % 16 == b % 16) ≡ (a == b)
same_place a b h k = ground arith

same_index :
    (gw_id id gw' id' : ℕ)
    → id < 0x1000
    → id' < 0x1000
    → same_device gw_id id gw' id' ≡ (gw' == gw_id && id' == id)
same_index gw_id id gw' id' h k =
    rw ((parts id h).0, (parts id h).1, (parts id' k).0, (parts id' k).1, same_place id' id k h)

-- A registration for a register adds its callback where the address agrees.
add_first :
    (b : Bool) (l rest : List Callback) (cb : Callback)
    → (if b then l ++ (cb ∷ []) else l) ++ rest ≡ l ++ (if b then cb ∷ rest else rest)
add_first true l rest cb = append_assoc l (cb ∷ []) rest
add_first false l rest cb = refl

same_test :
    (rx : Rx) (gw_id id r : ℕ) (c : RegChannel) (gw' id' r' : ℕ) (c' : RegChannel) (cb : Callback)
    → same_device gw' id' gw_id id ≡ (gw_id == gw' && id == id')
    → (if same_device gw' id' gw_id id && slot_eq (reg c' r') (reg c r)
        then listeners rx gw' id' (reg c' r') ++ (cb ∷ [])
        else listeners rx gw_id id (reg c r))
      ≡ (if gw_id == gw' && (id == id' && (channel_eq c' c && r' == r))
          then listeners rx gw_id id (reg c r) ++ (cb ∷ [])
          else listeners rx gw_id id (reg c r))
same_test rx gw_id id r c gw' id' r' c' cb e =
    elim (Bool-cases (same_device gw' id' gw_id id && slot_eq (reg c' r') (reg c r))) [
      | inl m ↦
          rw (m, sym (shuffle (gw_id == gw') (id == id') (channel_eq c' c && r' == r)), sym e, m)
            (ap (λ l. l ++ (cb ∷ [])) (listeners_same rx gw' id' gw_id id (reg c' r') (reg c r) m))
      | inr m ↦
          rw (m, sym (shuffle (gw_id == gw') (id == id') (channel_eq c' c && r' == r)), sym e, m)
            refl
    ]
  where
    shuffle : (a b c : Bool) → ((a && b) && c) ≡ (a && (b && c))
    shuffle true b c = refl
    shuffle false b c = refl

-- What the test of the arguments turns away is no address of a device.
unchecked :
    (gw_id id r : ℕ) (c : RegChannel) (gw' id' r' : ℕ) (c' : RegChannel)
    → gw_id < 4
    → IsDevice id
    → r < 16
    → arg_checker gw' id' r' ≡ false
    → (gw_id == gw' && (id == id' && (channel_eq c' c && r' == r))) ≡ false
unchecked gw_id id r c gw' id' r' c' g h k e =
    elim (Bool-cases (gw_id == gw' && (id == id' && (channel_eq c' c && r' == r)))) [
      | inl m ↦
          let same = parts_of (channel_eq c' c) m in
          let checked : arg_checker gw' id' r' ≡ true =
            IsDevice-arg_checker gw' id' r' (omega (arith, same.0))
              (omega (arith, same.1), omega (arith, same.1)) (omega (arith, same.2)) in
          absurd (clash (arg_checker gw' id' r') checked e)
      | inr m ↦ m
    ]
  where
    clash : (b : Bool) → b ≡ true → b ≡ false → ⊥
    clash b e f = cc

    parts_of :
        (b : Bool)
        → gw_id == gw' && (id == id' && (b && r' == r)) ≡ true
        → (gw_id ≡ gw') × (id ≡ id') × (r' ≡ r)
    parts_of b m = ground arith

listeners-bind_reg :
    (rx : Rx) (gw_id id r : ℕ) (c : RegChannel) (gw' id' r' : ℕ) (c' : RegChannel) (cb : Callback)
    → gw_id < 4
    → IsDevice id
    → r < 16
    → id' < 0x1000
    → listeners (bind_reg rx gw' id' r' cb c') gw_id id (reg c r) ≡ (
        if gw_id == gw' && (id == id' && (channel_eq c' c && r' == r))
        then listeners rx gw_id id (reg c r) ++ (cb ∷ [])
        else listeners rx gw_id id (reg c r))
unfolding bind_reg
listeners-bind_reg rx gw_id id r c gw' id' r' c' cb g h k l =
    elim (Bool-cases (arg_checker gw' id' r')) [
      | inl e ↦ rw e (
          listeners-bind_slot rx gw' id' (reg c' r') cb gw_id id (reg c r)
          ∙ same_test rx gw_id id r c gw' id' r' c' cb
              (same_index gw' id' gw_id id l (omega arith)))
      | inr e ↦ rw (e, unchecked gw_id id r c gw' id' r' c' g h k e) refl
    ]

bind_other :
    (rx : Rx) (gw_id id r : ℕ) (c : RegChannel) (gw' id' : ℕ) (s : Slot) (cb : Callback) (b : Bool)
    → slot_eq s (reg c r) ≡ false
    → listeners (if b then bind_slot rx gw' id' s cb else rx) gw_id id (reg c r)
      ≡ listeners rx gw_id id (reg c r)
bind_other rx gw_id id r c gw' id' s cb true e =
    listeners-bind_slot rx gw' id' s cb gw_id id (reg c r)
    ∙ rw (e, and_false (same_device gw' id' gw_id id)) refl
  where
    and_false : (a : Bool) → a && false ≡ false
    and_false true = refl
    and_false false = refl
bind_other rx gw_id id r c gw' id' s cb false e = refl

-- No broadcast is ever bound: 0x201 is no identifier of a device.
pub bind_brc-none : (rx : Rx) (gw_id r : ℕ) (cb : Callback) → bind_brc rx gw_id r cb ≡ rx
unfolding bind_brc
bind_brc-none rx gw_id r cb = rw (closed gw_id r) refl
  where
    closed : (gw_id r : ℕ) → arg_checker gw_id 0x201 r ≡ false
    closed gw_id r = ground arith

listeners-bind_all :
    (bs : List Binding) (rx : Rx) (gw_id id r : ℕ) (c : RegChannel)
    → gw_id < 4
    → IsDevice id
    → r < 16
    → AreIds bs
    → listeners (bind_all rx bs) gw_id id (reg c r)
      ≡ listeners rx gw_id id (reg c r) ++ bound_to gw_id id r c bs
unfolding bind_all bound_to bind bind_reg_ack bind_req_ack
listeners-bind_all [] rx gw_id id r c g h k d = sym (append-nil (listeners rx gw_id id (reg c r)))
listeners-bind_all (at_reg gw' id' r' c' cb ∷ bs) rx gw_id id r c g h k d =
    listeners-bind_all bs (bind rx (at_reg gw' id' r' c' cb)) gw_id id r c g h k d.1
    ∙ ap (λ l. l ++ bound_to gw_id id r c bs)
        (listeners-bind_reg rx gw_id id r c gw' id' r' c' cb g h k d.0)
    ∙ add_first (gw_id == gw' && (id == id' && (channel_eq c' c && r' == r)))
        (listeners rx gw_id id (reg c r)) (bound_to gw_id id r c bs) cb
listeners-bind_all (at_reg_ack gw' id' c' cb ∷ bs) rx gw_id id r c g h k d =
    listeners-bind_all bs (bind rx (at_reg_ack gw' id' c' cb)) gw_id id r c g h k d
    ∙ ap (λ l. l ++ bound_to gw_id id r c bs)
        (bind_other rx gw_id id r c gw' id' (reg_ack c') cb (arg_checker gw' id' 0) refl)
listeners-bind_all (at_req_ack gw' id' c' cb ∷ bs) rx gw_id id r c g h k d =
    listeners-bind_all bs (bind rx (at_req_ack gw' id' c' cb)) gw_id id r c g h k d
    ∙ ap (λ l. l ++ bound_to gw_id id r c bs)
        (bind_other rx gw_id id r c gw' id' (req_ack c') cb (arg_checker gw' id' 0) refl)
listeners-bind_all (at_brc gw' r' cb ∷ bs) rx gw_id id r c g h k d =
    listeners-bind_all bs (bind rx (at_brc gw' r' cb)) gw_id id r c g h k d
    ∙ ap (λ u. listeners u gw_id id (reg c r) ++ bound_to gw_id id r c bs)
        (bind_brc-none rx gw' r' cb)

-- From the state that `CSRx_initializer` leaves, after any calls of the four functions that bind, a
-- write from a device to a register below 16 of a gateway below 4 calls the callbacks that were
-- bound to that gateway, identifier, register and channel, in the order of their binding and no
-- others, each with the identifier, the register, the length and the bytes, if no register was
-- bound for an identifier of more than 12 bits.
pub receive-bind_all :
    (bs : List Binding) (gw_id id r len : ℕ) (bytes : List ℕ) (c : RegChannel)
    → gw_id < 4
    → IsDevice id
    → r < 16
    → AreIds bs
    → receive_frame (bind_all initializer bs) gw_id (write_frame id r c len bytes)
      ≡ calls_to (bound_to gw_id id r c bs) id r len bytes
receive-bind_all bs gw_id id r len bytes c g h k d =
    receive_write (bind_all initializer bs) gw_id id r len bytes c g h k
    ∙ ap (λ l. list_call l id r len bytes)
        (listeners-bind_all bs initializer gw_id id r c g h k d
          ∙ ap (λ l. l ++ bound_to gw_id id r c bs) (listeners-initializer gw_id id (reg c r)))
    ∙ list_call-calls_to (bound_to gw_id id r c bs) id r len bytes (omega arith) k
