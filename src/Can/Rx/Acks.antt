-- ===== src/Can/Rx/Acks.antt =====
-- The acknowledgements and the broadcasts that pkg/can_smbus/src/core/io/cs_rx.c hands out.
use rmm_2023_pre.Common.{
  ℕ, ◌<◌, ◌≡◌, refl, ◌∙◌, inl, inr, Bool, true, false, not, List, ◌∷◌, ◌&&◌, ltb, arith,
  Option-cases,
}
use rmm_2023_pre.Common.Bits.{every_below, every_below_sound}
use rmm_2023_pre.Can.Types.{
  Frame, RegChannel, system, user, get_driv_id, is_sys_reg, is_writeack_reg, is_requestack_reg,
  get_ack_reg,
}
use rmm_2023_pre.Can.Types.Registers.{
  Kind, writeack, requestack, get_kind, get_channel, built_register,
}
use rmm_2023_pre.Can.Callbacks.{list_call}
use rmm_2023_pre.Can.Rx.{Rx, arg_checker, device_info_get, channel_eq, reg_ack, req_ack}
use rmm_2023_pre.Can.Rx.Receive.{ack_callback, receive_frame}
use rmm_2023_pre.Can.Rx.Listeners.{listeners}
use rmm_2023_pre.Can.Rx.Dispatch.{IsDevice, IsDevice-arg_checker, driv_id, channel_sys}

exclusive_table : every_below 256 (λ r. not (is_writeack_reg r && is_requestack_reg r)) ≡ true
unfolding every_below
exclusive_table = refl

-- The frame of a device that acknowledges the register `r` of the host, whose first byte tells which.
abbrev pub ack_frame : ℕ → Kind → RegChannel → ℕ → ℕ → List ℕ → Frame
ack_frame id kind c r len rest = record {
  id = get_driv_id id;
  reg = get_ack_reg 0;
  len = len;
  bytes = get_channel c (get_kind kind r) ∷ rest;
}

exclude : (a b : Bool) → not (a && b) ≡ true → b ≡ true → a ≡ false
exclude a b e f = ground arith

writeack_listeners :
    (rx : Rx) (gw_id id len first : ℕ) (rest : List ℕ) (c : RegChannel)
    → arg_checker gw_id id 0 ≡ true
    → ltb 1 len ≡ true
    → is_writeack_reg first ≡ true
    → is_sys_reg first ≡ channel_eq system c
    → ack_callback rx gw_id id 0 len (first ∷ rest)
      ≡ list_call (listeners rx gw_id id (reg_ack c)) id 0 len (first ∷ rest)
unfolding ack_callback listeners list_call
writeack_listeners rx gw_id id len first rest system a l w s =
    rw (a, l)
      (elim (Option-cases (device_info_get rx gw_id id)) [
        | inl n ↦ rw n
        | inr (info, e) ↦ rw (e, w, s)
      ])
writeack_listeners rx gw_id id len first rest user a l w s =
    rw (a, l)
      (elim (Option-cases (device_info_get rx gw_id id)) [
        | inl n ↦ rw n
        | inr (info, e) ↦ rw (e, w, s)
      ])

requestack_listeners :
    (rx : Rx) (gw_id id len first : ℕ) (rest : List ℕ) (c : RegChannel)
    → arg_checker gw_id id 0 ≡ true
    → ltb 1 len ≡ true
    → is_writeack_reg first ≡ false
    → is_requestack_reg first ≡ true
    → is_sys_reg first ≡ channel_eq system c
    → ack_callback rx gw_id id 0 len (first ∷ rest)
      ≡ list_call (listeners rx gw_id id (req_ack c)) id 0 len (first ∷ rest)
unfolding ack_callback listeners list_call
requestack_listeners rx gw_id id len first rest system a l v w s =
    rw (a, l)
      (elim (Option-cases (device_info_get rx gw_id id)) [
        | inl n ↦ rw n
        | inr (info, e) ↦ rw (e, v, w, s)
      ])
requestack_listeners rx gw_id id len first rest user a l v w s =
    rw (a, l)
      (elim (Option-cases (device_info_get rx gw_id id)) [
        | inl n ↦ rw n
        | inr (info, e) ↦ rw (e, v, w, s)
      ])

module _ (rx : Rx) (gw_id id r len : ℕ) (rest : List ℕ) (c : RegChannel) (g : gw_id < 4)
    (h : IsDevice id) (k : r < 16) where
  receive_ack_frame :
      (kind : Kind)
      → receive_frame rx gw_id (ack_frame id kind c r len rest)
        ≡ ack_callback rx gw_id id 0 len (get_channel c (get_kind kind r) ∷ rest)
  unfolding receive_frame
  receive_ack_frame kind = let d = driv_id id (omega arith) in rw (d.0, d.1)

  -- An acknowledgement of at least two bytes, from a device on a gateway below 4, whose first byte
  -- is a register below 16 of the kind `writeack` or `requestack`, calls the callbacks that are
  -- bound to acknowledgements of that kind on its channel, whatever the register's number.
  pub receive_acks :
      1 < len
      → (receive_frame rx gw_id (ack_frame id writeack c r len rest)
          ≡ list_call
              (listeners rx gw_id id (reg_ack c))
              id
              0
              len
              (get_channel c (get_kind writeack r) ∷ rest))
        × (receive_frame rx gw_id (ack_frame id requestack c r len rest)
            ≡ list_call
                (listeners rx gw_id id (req_ack c))
                id
                0
                len
                (get_channel c (get_kind requestack r) ∷ rest))
  receive_acks l =
      let w = built_register writeack c r (omega arith) in
      let q = built_register requestack c r (omega arith) in
      let a = IsDevice-arg_checker gw_id id 0 g h (omega arith) in
      let l' : ltb 1 len ≡ true = ground arith in
      let first = get_channel c (get_kind requestack r) in
      let only = every_below_sound 256 _ first exclusive_table q.3 in
      let v : is_writeack_reg first ≡ false =
        exclude (is_writeack_reg first) (is_requestack_reg first) only q.0 in
      (
        receive_ack_frame writeack
            ∙ writeack_listeners rx gw_id id len _ rest c a l' w.0 (channel_sys c _ w.3 w.1),
        receive_ack_frame requestack
            ∙ requestack_listeners rx gw_id id len _ rest c a l' v q.0 (channel_sys c _ q.3 q.1),
      )
