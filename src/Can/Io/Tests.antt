-- ===== src/Can/Io/Tests.antt =====
-- Runs and instances for pkg/can_smbus/src/core/io/cs_io.c.
use Prim.Native.String.{String}
use rmm_2023_pre.Common.{
  ℕ, ◌+◌, ◌<◌, ◌≡◌, refl, false, List, [], ◌∷◌, ◌↔◌, replicate, arith, inl, inr, zero, suc, some,
}
use rmm_2023_pre.Can.Types.{Frame}
use rmm_2023_pre.Can.Io.{
  DataPack, Io, find_gateway, initializer, str_ips, send, read, accept, received, overrun, ignored,
  remember, is_known,
}
use rmm_2023_pre.Can.Io.RoundTrip.{Apart, read-send, overrun_iff}
use rmm_2023_pre.Can.Io.Sequence.{HasTable, last_four_known}
use Prim.Native.String.{char_at}
use Prim.Native.Char.{code}

-- The last digit of an address stands for it.
abbrev last_digit : String → ℕ
last_digit s = code (char_at s 10)

digit_of : (gw : ℕ) → gw < 4 → last_digit (str_ips gw) ≡ 49 + gw
digit_of zero h = refl
digit_of (suc zero) h = refl
digit_of (suc (suc zero)) h = refl
digit_of (suc (suc (suc zero))) h = refl
digit_of (suc (suc (suc (suc n)))) h = absurd (omega arith)

last_digit-Apart : Apart last_digit
last_digit-Apart i j h k e = omega (arith, digit_of i h, digit_of j k, e)

abbrev two_frames : List Frame
two_frames =
    record { id = 0x142; reg = 3; len = 2; bytes = 7 ∷ 8 ∷ 0 ∷ 0 ∷ [] }
    ∷ record { id = 0x143; reg = 1; len = 0; bytes = 0 ∷ 0 ∷ 0 ∷ 0 ∷ [] }
    ∷ []

abbrev two_pack : DataPack
two_pack = record { gw_id = 2; frames = two_frames }

table-fresh : (gw : ℕ) → HasTable initializer gw
unfolding initializer
table-fresh gw = (refl, omega arith)

zero-unknown : (gw : ℕ) → is_known 0 (initializer.recv_sequence_map gw) ≡ false
unfolding is_known initializer
zero-unknown gw = refl

zero-sends : (gw : ℕ) → initializer.send_sequence gw ≡ 0
unfolding initializer
zero-sends gw = refl

read-send_example :
    read last_digit initializer
      (last_digit (str_ips 2))
      (send initializer two_pack (replicate 34 0)).0
    ≡ (received two_pack, remember initializer 2 (initializer.send_sequence 2))
unfolding initializer
read-send_example =
    read-send last_digit initializer initializer two_pack (replicate 34 0) last_digit-Apart
      (omega arith) (omega arith) (omega arith) refl (zero-unknown 2)

overrun_iff_example : ((accept initializer 1 (0 ∷ 5 ∷ replicate 32 0)).0 ≡ overrun) ↔ (4 < 5)
overrun_iff_example = overrun_iff initializer 1 0 5 (replicate 32 0) refl (zero-unknown 1)

abbrev address_1 : ℕ
address_1 = last_digit (str_ips 1)

abbrev empty_pack : DataPack
empty_pack = record { gw_id = 1; frames = [] }

gateway_1 : find_gateway last_digit 4 0 address_1 ≡ some 1
unfolding find_gateway
gateway_1 = refl

-- Empty datagrams of the numbers 10 to 13.
abbrev empty_datagram : ℕ → List ℕ
empty_datagram s = s ∷ 0 ∷ replicate 32 0

abbrev io_1 : Io
io_1 = remember initializer 1 10

abbrev io_2 : Io
io_2 = remember io_1 1 11

abbrev io_3 : Io
io_3 = remember io_2 1 12

abbrev io_4 : Io
io_4 = remember io_3 1 13

read_1 : read last_digit initializer address_1 (empty_datagram 10) ≡ (received empty_pack, io_1)
unfolding read accept initializer
read_1 = refl

read_2 : read last_digit io_1 address_1 (empty_datagram 11) ≡ (received empty_pack, io_2)
unfolding read accept initializer
read_2 = refl

read_3 : read last_digit io_2 address_1 (empty_datagram 12) ≡ (received empty_pack, io_3)
unfolding read accept initializer
read_3 = refl

read_4 : read last_digit io_3 address_1 (empty_datagram 13) ≡ (received empty_pack, io_4)
unfolding read accept initializer
read_4 = refl

last_four_known_example : read last_digit io_4 address_1 (11 ∷ 0 ∷ replicate 32 0) ≡ (ignored, io_4)
last_four_known_example =
    last_four_known last_digit initializer io_1 io_2 io_3 io_4 address_1 1 10 11 12 13 11 0 0 0 0 0
      (replicate 32 0) (replicate 32 0) (replicate 32 0) (replicate 32 0) (replicate 32 0)
      empty_pack empty_pack empty_pack empty_pack gateway_1 (table-fresh 1) read_1 read_2 read_3
      read_4 (inr (inl refl))
