-- ===== src/Process/Table/Tests.antt =====
-- A table of two services, for lib/process_comm/src/pc_table.c.
use rmm_2023_pre.Common.{
  ℕ, ◌+◌, ◌*◌, ◌/◌, ◌%◌, ◌≤◌, ◌≡◌, ◌≢◌, ◌↔◌, refl, arith, false, none, some, List, [], ◌∷◌, ◌++◌,
  length, replicate,
}
use rmm_2023_pre.Process.Table.{
  SockAddr, Table, Instance, init, active_addr, hash_of, is_hit, search_nolock, set_sockaddr,
  deactivate, look_up, get_ip, memcmp_eq,
}
use rmm_2023_pre.Process.Table.Prefixes.{Announced, look_up-set_sockaddr, look_up-prefix}
use rmm_2023_pre.Process.Table.Validity.{IsValid, set_sockaddr-IsValid}
use rmm_2023_pre.Process.Table.Changes.{get_ip-deactivate, set_sockaddr_overruns}

abbrev here : SockAddr
here = record { sin_family = 2; sin_port = 80; s_addr = 0x0100007f }

abbrev old_service : List ℕ
old_service = replicate 64 0xcc

abbrev old_name : List ℕ
old_name = replicate 128 0xdd

abbrev udp : List ℕ
udp = b'u' ∷ b'd' ∷ b'p' ∷ []

abbrev arm_1 : List ℕ
arm_1 = b'a' ∷ b'r' ∷ b'm' ∷ b'1' ∷ []

-- The table with the one service.
abbrev one_service : Table
one_service = record {
  base = 0x9000;
  services =
      record {
        hash = 214;
        service = udp ++ (0 ∷ replicate 60 0xcc);
        name = arm_1 ++ (0 ∷ replicate 123 0xdd);
        addrs = active_addr here ∷ [];
      }
      ∷ [];
}

set_sockaddr_run :
    set_sockaddr (init 0x8000) 0x9000 old_service old_name udp arm_1 here ≡ some one_service
unfolding set_sockaddr init hash_of
set_sockaddr_run = refl

look_up-set_sockaddr_example : Announced one_service udp arm_1 here
look_up-set_sockaddr_example =
    look_up-set_sockaddr (init 0x8000) one_service 0x9000 old_service old_name udp arm_1 here refl
      refl (omega arith) (omega arith) refl set_sockaddr_run

set_sockaddr-IsValid_example : IsValid one_service
unfolding init
set_sockaddr-IsValid_example =
    set_sockaddr-IsValid (init 0x8000) one_service 0x9000 old_service old_name udp arm_1 here refl
      refl (omega arith) (omega arith) empty set_sockaddr_run
  where
    empty : IsValid (init 0x8000)
    empty = tt

abbrev any_address : List ℕ → ℕ → ℕ
any_address text old = 0

abbrev swapped : ℕ → ℕ
swapped port = 256 * (port % 256) + port / 256

none_yet : (q n : List ℕ) → search_nolock (init 0x8000) q n ≡ some none
unfolding search_nolock init
none_yet q n = refl

-- "udp" and "arm1" are found under "u" and "arm".
look_up-prefix_example :
    (p : Instance) × (look_up one_service (b'u' ∷ []) (b'a' ∷ b'r' ∷ b'm' ∷ []) ≡ some (some p))
    × (get_ip any_address swapped one_service 7 (some p) ≡ some here)
look_up-prefix_example =
    look_up-prefix any_address swapped (init 0x8000) one_service 0x9000 7 old_service old_name b'u'
      b'a' [] (b'd' ∷ b'p' ∷ []) (b'r' ∷ b'm' ∷ []) (b'1' ∷ []) here refl refl (omega arith)
      (omega arith) (none_yet udp arm_1) (none_yet (b'u' ∷ []) (b'a' ∷ b'r' ∷ b'm' ∷ []))
      set_sockaddr_run

abbrev withdrawn_service : Table
withdrawn_service = record {
  base = 0x9000;
  services =
      record {
        hash = 214;
        service = udp ++ (0 ∷ replicate 60 0xcc);
        name = arm_1 ++ (0 ∷ replicate 123 0xdd);
        addrs = record { is_active = false; addr = here } ∷ [];
      }
      ∷ [];
}

abbrev at_0 : Instance
at_0 = record { array = 0x9000; place = 0 }

look_up_run : look_up one_service udp arm_1 ≡ some (some at_0)
unfolding look_up hash_of is_hit memcmp_eq
look_up_run = refl

deactivate_run : deactivate one_service udp arm_1 here ≡ some withdrawn_service
unfolding deactivate hash_of is_hit memcmp_eq
deactivate_run = refl

get_ip-deactivate_example :
    (a : SockAddr) × (get_ip any_address swapped withdrawn_service 7 (some at_0) ≡ some a)
    × (a ≢ here)
get_ip-deactivate_example =
    get_ip-deactivate any_address swapped one_service withdrawn_service 7 udp arm_1 here at_0
      set_sockaddr-IsValid_example refl (λ e. omega arith) look_up_run deactivate_run

abbrev long_name : List ℕ
long_name = replicate 128 b'a'

set_sockaddr_overruns_example :
    (set_sockaddr (init 0x8000) 0x9000 old_service old_name udp long_name here ≡ none)
    ↔ (128 ≤ length long_name)
set_sockaddr_overruns_example =
    set_sockaddr_overruns (init 0x8000) 0x9000 old_service old_name udp long_name here refl refl
      (none_yet udp long_name)
