-- ===== src/Can/Arp/Tests.antt =====
-- Runs and instances for pkg/can_smbus/src/core/cs_arp.c.
use rmm_2023_pre.Common.{
  ℕ, ◌≡◌, refl, true, false, List, [], ◌∷◌, some, ◌==◌, if◌then◌else◌, replicate, arith,
}
use rmm_2023_pre.Std.Buffer.{Buffer}
use rmm_2023_pre.Std.Buffer.Refine.{items, IsValid}
use rmm_2023_pre.Can.Types.{Frame, user, get_driv_id, get_brc_reg}
use rmm_2023_pre.Can.Callbacks.{Callback, is_callback}
use rmm_2023_pre.Can.Rx.{initializer}
use rmm_2023_pre.Can.Rx.Bindings.{Binding, at_reg, at_brc, bind_all}
use rmm_2023_pre.Can.Rx.Quiet.{ForBroadcasts}
use rmm_2023_pre.Can.Tx
use rmm_2023_pre.Can.Tx.{Tx}
use rmm_2023_pre.Can.Arp.{ArpData, Arp, create, execute}
use rmm_2023_pre.Can.Arp.Answers.{execute_lem}

abbrev old : ArpData
old = record { id = 0x042; is_started = true }

abbrev junk : ℕ → ArpData
junk k = record { id = k; is_started = false }

-- One item in a block of 256.
abbrev one_device : Buffer ArpData
one_device = record {
  one_data_size = 4;
  data_count = 1;
  one_block_count = 256;
  block_count = 1;
  cells = old ∷ replicate 255 (junk 0);
}

one_device-IsValid : IsValid one_device
one_device-IsValid = omega arith

-- A device answers in each wait, and starts in the third.
abbrev gyro_answers : ℕ → List (ℕ × Frame)
gyro_answers i =
    (
      1,
      record {
        id = get_driv_id 0x043;
        reg = get_brc_reg 0;
        len = 1;
        bytes = (if i == 2 then 1 else 0) ∷ 0 ∷ 0 ∷ 0 ∷ [];
      },
    )
    ∷ []

abbrev arp_object : Arp
arp_object = record { gw_id = 1; list = one_device }

abbrev arp_callback : Callback
arp_callback = record { func = 1; args = 2 }

-- Another object for the same gateway, and a register of a user.
abbrev others : List Binding
others =
    at_brc 1 0 (record { func = 1; args = 3 })
    ∷ at_reg 1 0x042 3 user (record { func = 5; args = 6 })
    ∷ []

others-ForBroadcasts : ForBroadcasts arp_callback others
unfolding is_callback
others-ForBroadcasts = (refl, tt)

execute_lem_example :
    let rx = (create junk (bind_all initializer others) 1 arp_callback).1 in
    (tx' : Tx) × (list : Buffer ArpData) × (execute junk rx arp_callback Tx.initializer arp_object
        (0 ∷ 0 ∷ 0 ∷ 0 ∷ [])
        gyro_answers
      ≡ some (tx', record arp_object { list = list }))
    × IsValid list
    × (items list ≡ [])
execute_lem_example =
    execute_lem junk others 1 arp_callback Tx.initializer arp_object (0 ∷ 0 ∷ 0 ∷ 0 ∷ [])
      gyro_answers others-ForBroadcasts one_device-IsValid
