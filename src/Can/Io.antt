-- ===== src/Can/Io.antt =====
-- pkg/can_smbus/src/core/io/cs_io.c: packs of frames as datagrams of 34 bytes. The socket is outside:
-- a datagram comes in as the address of its sender and its bytes, and goes out as bytes. `inet_addr`
-- of the C library is a parameter.
pub mod RoundTrip
pub mod Sequence
mod Tests
use Prim.Native.String.{String}
use rmm_2023_pre.Common.{
  ℕ, zero, suc, ◌+◌, ◌*◌, ◌/◌, ◌%◌, ◌^◌, Bool, true, false, List, [], ◌∷◌, ◌++◌, Option, none, some,
  ◌||◌, ◌==◌, if◌then◌else◌, length, get_or, set, drop, replicate,
}
use rmm_2023_pre.Can.Types.{Frame}

-- `struct CSIo_dataPack_t`; `data_count` is the length of `frames`.
pub record DataPack : Type 0 where
  pub gw_id : ℕ
  pub frames : List Frame

-- The part of `struct CSIo_info_t` that changes, by gateway: the number of the next datagram, and the
-- numbers of the last four that were taken.
pub record Io : Type 0 where
  pub send_sequence : ℕ → ℕ
  pub recv_next_map_index : ℕ → ℕ
  pub recv_sequence_map : ℕ → List ℕ

pub initializer : Io
initializer = record {
  send_sequence = λ gw. 0;
  recv_next_map_index = λ gw. 0;
  recv_sequence_map = λ gw. replicate 4 255;
}

-- `str_ips`; the arrays of addresses hold these, converted.
abbrev pub str_ips : ℕ → String
str_ips zero = "172.22.4.11"
str_ips (suc zero) = "172.22.4.12"
str_ips (suc (suc zero)) = "172.22.4.13"
str_ips (suc (suc (suc gw))) = "172.22.4.14"

-- `struct CSIo_dataFrame_t`, packed: the identifier in little-endian order.
abbrev pub encode_frame : Frame → List ℕ
encode_frame f = f.id % 256 ∷ f.id / 256 ∷ f.reg ∷ f.len ∷ f.bytes

pub encode_frames : List Frame → List ℕ
encode_frames [] = []
encode_frames (f ∷ fs) = encode_frame f ++ encode_frames fs

-- `struct CSIo_ethFrame_t`. What the loop does not write stays as the stack had it.
pub encode : ℕ → List Frame → List ℕ → List ℕ
unfolding encode_frames
encode sequence fs stack =
    sequence ∷ length fs ∷ (encode_frames fs ++ drop (2 + 8 * length fs) stack)

-- `stack` is what `eth_frame` held: 34 bytes.
pub send : Io → DataPack → List ℕ → List ℕ × Io
send io pack stack = (
  encode (io.send_sequence pack.gw_id) pack.frames stack,
  record io {
    send_sequence = λ gw.
        if gw == pack.gw_id then (io.send_sequence pack.gw_id + 1) % 2 ^ 8 else io.send_sequence gw;
  },
)

-- The loop that copies `n` frames out of a datagram. `none`: it runs over the four that the datagram
-- and `data_pack->data` have.
pub decode_frames : ℕ → List ℕ → Option (List Frame)
decode_frames zero bytes = some []
decode_frames (suc n) (a ∷ b ∷ reg ∷ len ∷ d0 ∷ d1 ∷ d2 ∷ d3 ∷ rest) = elim (decode_frames n rest) [
  | none ↦ none
  | some fs ↦
      some (record { id = a + b * 256; reg = reg; len = len; bytes = d0 ∷ d1 ∷ d2 ∷ d3 ∷ [] } ∷ fs)
]
decode_frames (suc n) bytes = none

pub is_known : ℕ → List ℕ → Bool
is_known sequence [] = false
is_known sequence (s ∷ ss) = s == sequence || is_known sequence ss

-- What `CSIo_read` returns, with the pack where it is true; `overrun` is an access out of bounds.
pub data Received : Type 0 where
  ignored overrun : Received
  received : DataPack → Received

abbrev pub write_at : (ℕ → ℕ) → ℕ → ℕ → ℕ → ℕ
write_at f gw v gw' = if gw' == gw then v else f gw'

pub remember : Io → ℕ → ℕ → Io
remember io gw sequence = record io {
  recv_sequence_map = λ gw'.
      if gw' == gw
      then set (io.recv_sequence_map gw) (io.recv_next_map_index gw % 4) sequence
      else io.recv_sequence_map gw';
  recv_next_map_index =
      write_at io.recv_next_map_index gw ((io.recv_next_map_index gw + 1) % 2 ^ 8);
}

-- The body of the loop for the gateway whose address it is.
pub accept : Io → ℕ → List ℕ → Received × Io
unfolding is_known remember decode_frames
accept io gw [] = (overrun, io)
accept io gw (sequence ∷ []) = (overrun, io)
accept io gw (sequence ∷ data_count ∷ body) =
    if is_known sequence (io.recv_sequence_map gw)
    then (ignored, io)
    else elim (decode_frames data_count body) [
      | none ↦ (overrun, io)
      | some fs ↦ (received (record { gw_id = gw; frames = fs }), remember io gw sequence)
    ]

module _ (inet_addr : String → ℕ) where
  -- The first gateway, from `gw` on, whose address this is.
  pub find_gateway : ℕ → ℕ → ℕ → Option ℕ
  find_gateway zero gw address = none
  find_gateway (suc n) gw address =
      let rest = find_gateway n (gw + 1) address in
      if inet_addr (str_ips gw) == address then some gw else rest

  pub read : Io → ℕ → List ℕ → Received × Io
  unfolding accept find_gateway
  read io address datagram =
      if length datagram == 34
      then elim (find_gateway 4 0 address) [
        | none ↦ (ignored, io)
        | some gw ↦ accept io gw datagram
      ]
      else (ignored, io)
