-- ===== src/Can/Arp.antt =====
-- pkg/can_smbus/src/core/cs_arp.c: the devices that answer on a gateway. The frames that come in each
-- of the four waits, from any gateway, are an argument; what they reach of the object is what
-- cs_rx.c calls of its callback. `none` is an access out of bounds.
pub mod Answers
mod Tests
use rmm_2023_pre.Common.{
  ℕ, zero, suc, ◌+◌, Bool, List, [], ◌∷◌, ◌++◌, Option, none, some, ltb, leb, ◌&&◌, ◌==◌,
  if◌then◌else◌, length, take, bit_and, get_or,
}
use rmm_2023_pre.Std.Buffer
use rmm_2023_pre.Std.Buffer.{Buffer}
use rmm_2023_pre.Can.Types.{Frame, arp, brc_code}
use rmm_2023_pre.Can.Callbacks.{Callback, Call, is_callback}
use rmm_2023_pre.Can.Rx.{Rx, bind_brc, close_brc}
use rmm_2023_pre.Can.Rx.Receive.{receive_frame}
use rmm_2023_pre.Can.Tx.{Tx, high, send_brc}

-- `struct CSArp_data_t`, of four bytes.
pub record ArpData : Type 0 where
  pub id : ℕ
  pub is_started : Bool

-- `struct CSArp_info_t`; the list of its `arg`, without the lock.
pub record Arp : Type 0 where
  pub gw_id : ℕ
  pub list : Buffer ArpData

-- What the callback makes of a call: the identifier and a bit of the first byte.
abbrev pub data_of : Call → ArpData
data_of call = record { id = call.id; is_started = bit_and (get_or call.bytes 0 0) 0x01 == 1 }

-- The copy at the end of `CSArp_getList`, into the caller's array of `list_size` items.
pub copy_out : Buffer ArpData → ℕ → Option (List ArpData × ℕ)
copy_out list list_size =
    let size = if ltb list_size list.data_count then list.data_count else list_size in
    if leb size list_size && leb size (length list.cells)
    then some (take size list.cells, size)
    else none

module _ (junk : ℕ → ArpData) where
  pub create : Rx → ℕ → Callback → Arp × Rx
  create rx gw_id cb =
      (record { gw_id = gw_id; list = Buffer.create junk 4 }, bind_brc rx gw_id 0 cb)

  pub close : Rx → Arp → Callback → Rx
  close rx obj cb = close_brc rx obj.gw_id 0 cb

  pub callback : Buffer ArpData → Call → Option (Buffer ArpData)
  callback list call = Buffer.add junk list (data_of call)

  -- The calls that a frame makes, of which those to `cb` are to this object.
  pub deliver : Callback → Buffer ArpData → List Call → Option (Buffer ArpData)
  unfolding callback
  deliver cb list [] = some list
  deliver cb list (call ∷ calls) =
      if is_callback call.to cb
      then elim (callback list call) [ none ↦ none | some list' ↦ deliver cb list' calls ]
      else deliver cb list calls

  -- The frames of one wait, in order, each with its gateway.
  pub arrive : Rx → Callback → Buffer ArpData → List (ℕ × Frame) → Option (Buffer ArpData)
  unfolding deliver receive_frame
  arrive rx cb list [] = some list
  arrive rx cb list (f ∷ rest) = elim (deliver cb list (receive_frame rx f.0 f.1)) [
    | none ↦ none
    | some list' ↦ arrive rx cb list' rest
  ]

  -- `n` rounds of `CSArp_execute`, from round `i` on: ask, and wait for answers.
  pub ask : Rx → Callback → Tx → Arp → List ℕ → (ℕ → List (ℕ × Frame)) → ℕ → ℕ → Option (Tx × Arp)
  unfolding arrive
  ask rx cb tx obj buff frames zero i = some (tx, obj)
  ask rx cb tx obj buff frames (suc n) i =
      let tx' = send_brc tx obj.gw_id (brc_code arp) 0 buff high in
      elim (arrive rx cb obj.list (frames i)) [
        | none ↦ none
        | some list ↦ ask rx cb tx' (record obj { list = list }) buff frames n (i + 1)
      ]

  -- `buff` is what the stack held.
  pub execute : Rx → Callback → Tx → Arp → List ℕ → (ℕ → List (ℕ × Frame)) → Option (Tx × Arp)
  unfolding ask
  execute rx cb tx obj buff frames = elim (Buffer.remove_all junk obj.list) [
    | none ↦ none
    | some list ↦ ask rx cb tx (record obj { list = list }) buff frames 4 0
  ]

  pub get_list :
      Rx
      → Callback
      → Tx
      → Arp
      → List ℕ
      → (ℕ → List (ℕ × Frame))
      → ℕ
      → Option (Tx × Arp × List ArpData × ℕ)
  unfolding execute copy_out
  get_list rx cb tx obj buff frames list_size = elim (execute rx cb tx obj buff frames) [
    | none ↦ none
    | some r ↦ elim (copy_out r.1.list list_size) [
      | none ↦ none
      | some out ↦ some (r.0, r.1, out.0, out.1)
    ]
  ]
