-- ===== src/Can/Arp/Answers.antt =====
-- What pkg/can_smbus/src/core/cs_arp.c collects: nothing, since its callback is never bound.
use rmm_2023_pre.Common.{
  ℕ, zero, suc, dec_lt, ◌+◌, ◌≤◌, ◌≡◌, refl, ap, sym, subst, List, [], ◌∷◌, none, some, ◌==◌,
  if◌then◌else◌, take, arith,
}
use rmm_2023_pre.Std.Buffer
use rmm_2023_pre.Std.Buffer.{Buffer}
use rmm_2023_pre.Std.Buffer.Refine.{items, IsValid}
use rmm_2023_pre.Std.Buffer.Edits.{room_of}
use rmm_2023_pre.Std.Buffer.Ends.{remove_all_lem}
use rmm_2023_pre.Can.Types.{Frame, arp, brc_code}
use rmm_2023_pre.Can.Callbacks.{Callback, Call}
use rmm_2023_pre.Can.Rx.{Rx, initializer}
use rmm_2023_pre.Can.Rx.Receive.{receive_frame}
use rmm_2023_pre.Can.Rx.Bindings.{Binding, bind_all, bind_brc-none}
use rmm_2023_pre.Can.Rx.Quiet.{
  IsQuiet, IsSilent, ForBroadcasts, receive_frame-IsSilent, bind_all-IsQuiet, initializer-IsQuiet,
}
use rmm_2023_pre.Can.Tx.{Tx, high, send_brc}
use rmm_2023_pre.Can.Arp.{ArpData, Arp, create, deliver, arrive, ask, execute, copy_out}

module _ (junk : ℕ → ArpData) where
  deliver_none :
      (cb : Callback) (list : Buffer ArpData) (calls : List Call)
      → IsSilent cb calls
      → deliver junk cb list calls ≡ some list
  unfolding deliver
  deliver_none cb list [] h = refl
  deliver_none cb list (call ∷ calls) h = rw h.0 (deliver_none cb list calls h.1)

  arrive_none :
      (rx : Rx) (cb : Callback) (list : Buffer ArpData) (frames : List (ℕ × Frame))
      → IsQuiet cb rx
      → arrive junk rx cb list frames ≡ some list
  unfolding arrive
  arrive_none rx cb list [] q = refl
  arrive_none rx cb list (f ∷ rest) q =
      rw
        (
          arrive,
          deliver_none cb list (receive_frame rx f.0 f.1) (receive_frame-IsSilent cb rx f.0 f.1 q),
        )
        (arrive_none rx cb list rest q)

  ask_none :
      (n i : ℕ) (rx : Rx) (cb : Callback) (tx : Tx) (obj : Arp) (buff : List ℕ)
      (frames : ℕ → List (ℕ × Frame))
      → IsQuiet cb rx
      → (tx' : Tx) × (ask junk rx cb tx obj buff frames n i ≡ some (tx', obj))
  unfolding ask
  ask_none zero i rx cb tx obj buff frames q = (tx, refl)
  ask_none (suc n) i rx cb tx obj buff frames q =
      let (tx', e) =
        ask_none n (i + 1) rx cb (send_brc tx obj.gw_id (brc_code arp) 0 buff high) obj buff frames
          q in
      (tx', rw (ask, arrive_none rx cb obj.list (frames i) q) e)

  execute_of :
      (rx : Rx) (cb : Callback) (tx tx' : Tx) (obj : Arp) (buff : List ℕ)
      (frames : ℕ → List (ℕ × Frame)) (fresh : Buffer ArpData)
      → Buffer.remove_all junk obj.list ≡ some fresh
      → ask junk rx cb tx (record obj { list = fresh }) buff frames 4 0
        ≡ some (tx', record obj { list = fresh })
      → execute junk rx cb tx obj buff frames ≡ some (tx', record obj { list = fresh })
  unfolding execute
  execute_of rx cb tx tx' obj buff frames fresh e f = rw (execute, e) f

  create_rx : (rx : Rx) (gw_id : ℕ) (cb : Callback) → (create junk rx gw_id cb).1 ≡ rx
  unfolding create
  create_rx rx gw_id cb = bind_brc-none rx gw_id 0 cb

  -- After `CSArp_create`, `CSArp_execute` leaves the list of a valid object valid and empty,
  -- whatever frames come in its four waits from whichever gateways: `CSRx_bindBrc` never binds,
  -- since it tests the identifier 0x201 as one of a device. The functions that bind may have been
  -- called before, but not for a register or an acknowledgement with the callback of the object.
  pub execute_lem :
      (bs : List Binding) (gw_id : ℕ) (cb : Callback) (tx : Tx) (obj : Arp) (buff : List ℕ)
      (frames : ℕ → List (ℕ × Frame))
      → ForBroadcasts cb bs
      → IsValid obj.list
      → let rx = (create junk (bind_all initializer bs) gw_id cb).1 in
        (tx' : Tx) × (list : Buffer ArpData) × (execute junk rx cb tx obj buff frames
          ≡ some (tx', record obj { list = list }))
        × IsValid list
        × (items list ≡ [])
  execute_lem bs gw_id cb tx obj buff frames h v =
      let rx = bind_all initializer bs in
      let q : IsQuiet cb (create junk rx gw_id cb).1 =
        subst (IsQuiet cb) (sym (create_rx rx gw_id cb))
          (bind_all-IsQuiet cb bs initializer (initializer-IsQuiet cb) h) in
      let (fresh, e, w, z) = remove_all_lem junk obj.list v in
      let (tx', f) =
        ask_none 4 0 (create junk rx gw_id cb).1 cb tx (record obj { list = fresh }) buff frames
          q in
      (
        tx',
        fresh,
        execute_of (create junk rx gw_id cb).1 cb tx tx' obj buff frames fresh e f,
        w,
        ap (λ n. take n fresh.cells) z,
      )

-- If the caller's array has no more items than a valid list, `CSArp_getList` copies the list out if
-- it has exactly as many, and runs over the array if it has fewer.
pub copy_out_lem :
    (list : Buffer ArpData) (list_size : ℕ)
    → IsValid list
    → list_size ≤ list.data_count
    → copy_out list list_size
      ≡ (if list_size == list.data_count then some (items list, list_size) else none)
unfolding copy_out
copy_out_lem list list_size v h = elim (dec_lt list_size list.data_count) [
  | yes l ↦ ground (arith, room_of list v)
  | no l ↦ let same : list_size ≡ list.data_count = omega arith in ground (arith, room_of list v)
]
