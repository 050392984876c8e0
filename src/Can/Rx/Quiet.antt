-- ===== src/Can/Rx/Quiet.antt =====
-- A callback of pkg/can_smbus/src/core/io/cs_rx.c that is in no list is never called, and a broadcast's
-- never gets into one.
use rmm_2023_pre.Common.{
  ℕ, ◌≡◌, refl, sym, subst, ap, ◌∙◌, Bool, true, false, Bool-cases, inl, inr, some, Option-cases,
  List, [], ◌∷◌, ◌++◌, ◌&&◌, ◌||◌, if◌then◌else◌, arith, ltb, get_or,
}
use rmm_2023_pre.Can.Types.{
  Frame, RegChannel, system, user, get_number_id, get_number_reg, is_driv_id, is_write_reg,
  is_sys_reg, is_ack_reg, is_brc_reg, is_writeack_reg, is_requestack_reg,
}
use rmm_2023_pre.Can.Callbacks.{Callback, Call, is_callback, list_call}
use rmm_2023_pre.Can.Callbacks.Close.{contains}
use rmm_2023_pre.Can.Rx.{
  Rx, DeviceInfo, initializer, arg_checker, device_info_get, Slot, reg, reg_ack, req_ack, slot_list,
  bind_slot, bind_reg, bind_reg_ack, bind_req_ack,
}
use rmm_2023_pre.Can.Rx.Receive.{receive_frame, reg_callback, ack_callback, brc_callback}
use rmm_2023_pre.Can.Rx.Listeners.{
  listeners, of_info, same_device, slot_eq, listeners-initializer, listeners-bind_slot,
  brc_callbacks-bind_slot,
}
use rmm_2023_pre.Can.Rx.Bindings.{
  Binding, at_reg, at_reg_ack, at_req_ack, at_brc, bind, bind_all, bind_brc-none,
}

pub record IsQuiet (cb : Callback) (rx : Rx) : Type 0 where
  pub lists : (gw_id id : ℕ) (s : Slot) → contains cb (listeners rx gw_id id s) ≡ false
  pub broadcasts : (gw_id r : ℕ) → rx.brc_callbacks gw_id r ≡ []

-- None of the calls is to the callback.
abbrev pub IsSilent : Callback → List Call → Type 0
IsSilent cb [] = Unit
IsSilent cb (call ∷ calls) = (is_callback call.to cb ≡ false) × IsSilent cb calls

list_call-IsSilent :
    (cb : Callback) (l : List Callback) (id r len : ℕ) (bytes : List ℕ)
    → contains cb l ≡ false
    → IsSilent cb (list_call l id r len bytes)
unfolding list_call contains
list_call-IsSilent cb [] id r len bytes h = tt
list_call-IsSilent cb (x ∷ xs) id r len bytes h =
    let (a, b) = split (is_callback x cb) (contains cb xs) h in
    (a, list_call-IsSilent cb xs id r len bytes b)
  where
    split : (a b : Bool) → a || b ≡ false → (a ≡ false) × (b ≡ false)
    split a b e = ground arith

either :
    (cb : Callback) (b : Bool) (xs ys : List Call)
    → IsSilent cb xs
    → IsSilent cb ys
    → IsSilent cb (if b then xs else ys)
either cb true xs ys h k = h
either cb false xs ys h k = k

-- The lists of a device that is there.
of_device :
    (cb : Callback) (rx : Rx) (gw_id id : ℕ) (info : DeviceInfo) (s : Slot)
    → IsQuiet cb rx
    → device_info_get rx gw_id id ≡ some info
    → contains cb (slot_list s info) ≡ false
unfolding listeners
of_device cb rx gw_id id info s q e =
    ap (λ o. contains cb (of_info o s)) (sym e) ∙ q.lists gw_id id s

device-IsSilent :
    (cb : Callback) (rx : Rx) (gw_id id : ℕ) (info : DeviceInfo) (r len : ℕ) (bytes : List ℕ)
    → IsQuiet cb rx
    → device_info_get rx gw_id id ≡ some info
    → (s : Slot) → IsSilent cb (list_call (slot_list s info) id r len bytes)
device-IsSilent cb rx gw_id id info r len bytes q e s =
    list_call-IsSilent cb (slot_list s info) id r len bytes (of_device cb rx gw_id id info s q e)

reg_callback-IsSilent :
    (cb : Callback) (rx : Rx) (gw_id id r len : ℕ) (bytes : List ℕ) (c : RegChannel)
    → IsQuiet cb rx
    → IsSilent cb (reg_callback rx gw_id id r len bytes c)
unfolding reg_callback
reg_callback-IsSilent cb rx gw_id id r len bytes c q =
    either cb (arg_checker gw_id id r) _ []
      (elim (Option-cases (device_info_get rx gw_id id)) [
        | inl n ↦ rw n tt
        | inr (info, e) ↦ rw e (device-IsSilent cb rx gw_id id info r len bytes q e (reg c r))
      ])
      tt

ack_callback-IsSilent :
    (cb : Callback) (rx : Rx) (gw_id id r len : ℕ) (bytes : List ℕ)
    → IsQuiet cb rx
    → IsSilent cb (ack_callback rx gw_id id r len bytes)
unfolding ack_callback
ack_callback-IsSilent cb rx gw_id id r len bytes q =
    either cb (arg_checker gw_id id r && ltb 1 len) _ []
      (elim (Option-cases (device_info_get rx gw_id id)) [
        | inl n ↦ rw n tt
        | inr (info, e) ↦
            let silent = device-IsSilent cb rx gw_id id info r len bytes q e in
            let first = get_or bytes 0 0 in
            rw e (
              either cb (is_writeack_reg first) _ _
                (either cb (is_sys_reg first) _ _ (silent (reg_ack system)) (silent (reg_ack user)))
                (either cb (is_requestack_reg first) _ []
                  (either cb (is_sys_reg first) _ _ (silent (req_ack system))
                    (silent (req_ack user)))
                  tt))
      ])
      tt

brc_callback-IsSilent :
    (cb : Callback) (rx : Rx) (gw_id id r len : ℕ) (bytes : List ℕ)
    → IsQuiet cb rx
    → IsSilent cb (brc_callback rx gw_id id r len bytes)
unfolding brc_callback list_call
brc_callback-IsSilent cb rx gw_id id r len bytes q =
    either cb (arg_checker gw_id id r) _ [] (rw (q.broadcasts gw_id r) tt) tt

-- Whatever frame comes, the callback is not called.
pub receive_frame-IsSilent :
    (cb : Callback) (rx : Rx) (gw_id : ℕ) (f : Frame)
    → IsQuiet cb rx
    → IsSilent cb (receive_frame rx gw_id f)
unfolding receive_frame
receive_frame-IsSilent cb rx gw_id f q =
    let id = get_number_id f.id in
    let r = get_number_reg f.reg in
    either cb (is_driv_id f.id) _ []
      (either cb (is_write_reg f.reg) _ _
        (either cb (is_sys_reg f.reg) _ _
          (reg_callback-IsSilent cb rx gw_id id r f.len f.bytes system q)
          (reg_callback-IsSilent cb rx gw_id id r f.len f.bytes user q))
        (either cb (is_ack_reg f.reg) _ _ (ack_callback-IsSilent cb rx gw_id id r f.len f.bytes q) (
          either cb (is_brc_reg f.reg) _ [] (brc_callback-IsSilent cb rx gw_id id r f.len f.bytes q)
            tt)))
      tt

-- No register or acknowledgement is bound to the callback; broadcasts may be.
abbrev pub ForBroadcasts : Callback → List Binding → Type 0
ForBroadcasts cb [] = Unit
ForBroadcasts cb (at_reg gw_id id r c x ∷ bs) = (is_callback x cb ≡ false) × ForBroadcasts cb bs
ForBroadcasts cb (at_reg_ack gw_id id c x ∷ bs) = (is_callback x cb ≡ false) × ForBroadcasts cb bs
ForBroadcasts cb (at_req_ack gw_id id c x ∷ bs) = (is_callback x cb ≡ false) × ForBroadcasts cb bs
ForBroadcasts cb (at_brc gw_id r x ∷ bs) = ForBroadcasts cb bs

contains-append :
    (cb x : Callback) (l : List Callback)
    → contains cb l ≡ false
    → is_callback x cb ≡ false
    → contains cb (l ++ (x ∷ [])) ≡ false
unfolding contains
contains-append cb x [] h k = rw k refl
contains-append cb x (y ∷ ys) h k = ground (arith, contains-append cb x ys)

bind_slot-IsQuiet :
    (cb x : Callback) (rx : Rx) (gw_id id : ℕ) (s : Slot)
    → IsQuiet cb rx
    → is_callback x cb ≡ false
    → IsQuiet cb (bind_slot rx gw_id id s x)
bind_slot-IsQuiet cb x rx gw_id id s q h = record {
  lists = λ gw' id' s'.
      ap (contains cb) (listeners-bind_slot rx gw_id id s x gw' id' s')
      ∙ elim (Bool-cases (same_device gw_id id gw' id' && slot_eq s s')) [
        | inl m ↦ rw m (contains-append cb x (listeners rx gw_id id s) (q.lists gw_id id s) h)
        | inr m ↦ rw m (q.lists gw' id' s')
      ];
  broadcasts =
      λ gw' r. ap (λ f. f gw' r) (brc_callbacks-bind_slot rx gw_id id s x) ∙ q.broadcasts gw' r;
}

checked-IsQuiet :
    (cb x : Callback) (rx : Rx) (gw_id id : ℕ) (s : Slot) (b : Bool)
    → IsQuiet cb rx
    → is_callback x cb ≡ false
    → IsQuiet cb (if b then bind_slot rx gw_id id s x else rx)
checked-IsQuiet cb x rx gw_id id s true q h = bind_slot-IsQuiet cb x rx gw_id id s q h
checked-IsQuiet cb x rx gw_id id s false q h = q

pub bind_all-IsQuiet :
    (cb : Callback) (bs : List Binding) (rx : Rx)
    → IsQuiet cb rx
    → ForBroadcasts cb bs
    → IsQuiet cb (bind_all rx bs)
unfolding bind_all bind bind_reg bind_reg_ack bind_req_ack
bind_all-IsQuiet cb [] rx q h = q
bind_all-IsQuiet cb (at_reg gw_id id r c x ∷ bs) rx q h =
    bind_all-IsQuiet cb bs _
      (checked-IsQuiet cb x rx gw_id id (reg c r) (arg_checker gw_id id r) q h.0) h.1
bind_all-IsQuiet cb (at_reg_ack gw_id id c x ∷ bs) rx q h =
    bind_all-IsQuiet cb bs _
      (checked-IsQuiet cb x rx gw_id id (reg_ack c) (arg_checker gw_id id 0) q h.0) h.1
bind_all-IsQuiet cb (at_req_ack gw_id id c x ∷ bs) rx q h =
    bind_all-IsQuiet cb bs _
      (checked-IsQuiet cb x rx gw_id id (req_ack c) (arg_checker gw_id id 0) q h.0) h.1
bind_all-IsQuiet cb (at_brc gw_id r x ∷ bs) rx q h =
    bind_all-IsQuiet cb bs _ (subst (IsQuiet cb) (sym (bind_brc-none rx gw_id r x)) q) h

pub initializer-IsQuiet : (cb : Callback) → IsQuiet cb initializer
unfolding initializer contains
initializer-IsQuiet cb = record {
  lists = λ gw_id id s. ap (contains cb) (listeners-initializer gw_id id s);
  broadcasts = λ gw_id r. refl;
}
