-- ===== src/Process/Table.antt =====
-- lib/process_comm/src/pc_table.c: the table of services by type and name, each with the addresses at
-- which it was announced. A text is its bytes without the final NUL. An access past an array, or
-- through a pointer that no longer points into the table, is a fault: `none`. The two SABuffer are
-- the lists that they hold; a growing buffer may move, so the table keeps the place of its array.
pub mod Texts
pub mod Lookup
pub mod Addresses
pub mod Prefixes
pub mod Validity
pub mod Changes
mod Tests
use rmm_2023_pre.Common.{
  ℕ, suc, ◌+◌, ◌-◌, ◌%◌, ◌^◌, Bool, true, false, ◌&&◌, Option, none, some, List, [], ◌∷◌, ◌++◌, ltb,
  leb, ◌==◌, if◌then◌else◌, length, bytes_eq, get_elem?, get_or, set, take, drop,
}

-- The value of AF_INET on Linux.
abbrev pub af_inet : ℕ
af_inet = 2

-- `struct sockaddr_in`.
pub record SockAddr : Type 0 where
  pub sin_family : ℕ
  pub sin_port : ℕ
  pub s_addr : ℕ

-- `PCTable_addr_t`.
pub record Addr : Type 0 where
  pub is_active : Bool
  pub addr : SockAddr

-- `PCTable_service_t`: the arrays of 64 and 128 bytes are whole, what follows the NUL included.
pub record Service : Type 0 where
  pub hash : ℕ
  pub service : List ℕ
  pub name : List ℕ
  pub addrs : List Addr

-- `PCTable_t`, with the address of the array of services.
pub record Table : Type 0 where
  pub base : ℕ
  pub services : List Service

-- A pointer into the array: its address when the pointer was made, and the place in it.
pub record Instance : Type 0 where
  pub array : ℕ
  pub place : ℕ

pub init : ℕ → Table
init heap = record { base = heap; services = [] }

-- A `char`, which is signed, as a `uint32_t`.
abbrev pub char_word : ℕ → ℕ
char_word c = if ltb c 128 then c else 2 ^ 32 - 256 + c

pub hash_of : List ℕ → List ℕ → ℕ
hash_of service_type name =
    (char_word (get_or service_type 0 0) + char_word (get_or name 0 0)) % 2 ^ 32

-- `memcmp(stored, text, strlen(text)) == 0`.
pub memcmp_eq : List ℕ → List ℕ → Option Bool
memcmp_eq stored text =
    if leb (length text) (length stored)
    then some (bytes_eq (take (length text) stored) text)
    else none

-- The three tests on one service.
pub is_hit : Service → List ℕ → List ℕ → Option Bool
is_hit s service_type name =
    if s.hash == hash_of service_type name
    then elim (memcmp_eq s.service service_type) [
      | none ↦ none
      | some same ↦ if same then memcmp_eq s.name name else some false
    ]
    else some false

-- `PCTable_search_nolock`, from the place `i` on.
pub search_from : ℕ → List Service → List ℕ → List ℕ → Option (Option ℕ)
search_from i [] service_type name = some none
search_from i (s ∷ ss) service_type name = elim (is_hit s service_type name) [
  | none ↦ none
  | some hit ↦ elim hit [ true ↦ some (some i) | false ↦ search_from (suc i) ss service_type name ]
]

pub search_nolock : Table → List ℕ → List ℕ → Option (Option ℕ)
unfolding search_from
search_nolock t = search_from 0 t.services

pub is_same : Addr → SockAddr → Bool
is_same a addr =
    (a.addr.sin_family == af_inet)
    && (a.addr.s_addr == addr.s_addr)
    && (a.addr.sin_port == addr.sin_port)

-- The loop that marks the first equal address, and whether there was one.
pub mark : Bool → SockAddr → List Addr → List Addr × Bool
unfolding is_same
mark active addr [] = ([], false)
mark active addr (a ∷ as_left) =
    let rest = mark active addr as_left in
    if is_same a addr
    then (record a { is_active = active } ∷ as_left, true)
    else (a ∷ rest.0, rest.1)

abbrev pub active_addr : SockAddr → Addr
active_addr addr = record { is_active = true; addr = addr }

-- The addresses of a service after its address was announced.
pub announce : SockAddr → List Addr → List Addr
unfolding mark
announce addr addrs =
    let marked = mark true addr addrs in
    if marked.1 then marked.0 else marked.0 ++ (active_addr addr ∷ [])

-- `memcpy(field, text, len); field[len] = 0` on an array that held `old`.
pub write_text : List ℕ → List ℕ → ℕ → Option (List ℕ)
write_text old text len =
    if ltb len (length old) then some (take len text ++ (0 ∷ drop (suc len) old)) else none

-- The service that is added: `old_service` and `old_name` is what the stack held. A name that is too
-- long is not cut: the error branch sets the length of the type.
pub new_service : List ℕ → List ℕ → List ℕ → List ℕ → SockAddr → Option Service
unfolding write_text
new_service old_service old_name service_type name addr =
    let service_len = if leb 64 (length service_type) then 63 else length service_type in
    let copied_len = if leb 128 (length name) then 127 else service_len in
    elim (write_text old_name name (length name)) [
      | none ↦ none
      | some name_field ↦ elim (write_text old_service service_type copied_len) [
        | none ↦ none
        | some service_field ↦ some (record {
          hash = hash_of service_type name;
          service = service_field;
          name = name_field;
          addrs = active_addr addr ∷ [];
        })
      ]
    ]

-- A change of the addresses of the service at a place.
pub change_addrs : (List Addr → List Addr) → List Service → ℕ → List Service
change_addrs f ss i = elim (get_elem? ss i) [
  | none ↦ ss
  | some s ↦ set ss i (record s { addrs = f s.addrs })
]

-- `heap` is where the array of services is after a service was added.
pub set_sockaddr : Table → ℕ → List ℕ → List ℕ → List ℕ → List ℕ → SockAddr → Option Table
unfolding search_nolock new_service change_addrs announce
set_sockaddr t heap old_service old_name service_type name addr =
    elim (search_nolock t service_type name) [
      | none ↦ none
      | some found ↦ elim found [
        | some i ↦ some (record t { services = change_addrs (announce addr) t.services i })
        | none ↦ elim (new_service old_service old_name service_type name addr) [
          | none ↦ none
          | some s ↦ some (record { base = heap; services = t.services ++ (s ∷ []) })
        ]
      ]
    ]

-- An address that is not found is only logged.
pub deactivate : Table → List ℕ → List ℕ → SockAddr → Option Table
unfolding search_nolock change_addrs mark
deactivate t service_type name addr = elim (search_nolock t service_type name) [
  | none ↦ none
  | some found ↦ elim found [
    | none ↦ some t
    | some i ↦
        some
          (record t { services = change_addrs (λ addrs. (mark false addr addrs).0) t.services i })
  ]
]

-- `PCTable_loockUp`; NULL is the inner `none`.
pub look_up : Table → List ℕ → List ℕ → Option (Option Instance)
unfolding search_nolock
look_up t service_type name = elim (search_nolock t service_type name) [
  | none ↦ none
  | some found ↦ elim found [
    | none ↦ some none
    | some i ↦ some (some (record { array = t.base; place = i }))
  ]
]

-- The first active address.
pub first_active : List Addr → Option SockAddr
first_active [] = none
first_active (a ∷ as_left) = if a.is_active then some a.addr else first_active as_left

-- `inet_pton` and `htons` are the operating system's: the address that a text stands for, given what
-- the memory held, and the bytes of a port turned.
module _ (inet_pton : List ℕ → ℕ → ℕ) (htons : ℕ → ℕ) where
  -- "0.0.0.0"; `old_addr` is what the stack held.
  pub no_address : ℕ → SockAddr
  no_address old_addr = record {
    sin_family = af_inet;
    sin_port = 0;
    s_addr = inet_pton (b'0' ∷ b'.' ∷ b'0' ∷ b'.' ∷ b'0' ∷ b'.' ∷ b'0' ∷ []) old_addr;
  }

  pub get_ip : Table → ℕ → Option Instance → Option SockAddr
  unfolding no_address first_active
  get_ip t old_addr none = some (no_address old_addr)
  get_ip t old_addr (some p) =
      if p.array == t.base
      then elim (get_elem? t.services p.place) [
        | none ↦ none
        | some s ↦ elim (first_active s.addrs) [
          | none ↦ some (no_address old_addr)
          | some addr ↦ some addr
        ]
      ]
      else none

  -- `PCTable_set`.
  pub set_text : Table → ℕ → List ℕ → List ℕ → List ℕ → List ℕ → List ℕ → ℕ → ℕ → Option Table
  unfolding set_sockaddr
  set_text t heap old_service old_name service_type name ip old_addr port =
      set_sockaddr t heap old_service old_name service_type name
        (record { sin_family = af_inet; sin_port = htons port; s_addr = inet_pton ip old_addr })
