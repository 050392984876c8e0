-- ===== src/Process/Table/Prefixes.antt =====
-- pc_table.c: what a look-up finds after an announcement, under the text that was announced and under
-- the first bytes of it.
use mathlib.Core.List.{append_assoc}
use mathlib.Core.Option.{some-injective}
use rmm_2023_pre.Common.{
  ℕ, suc, ◌<◌, ◌≡◌, refl, ap, ◌∙◌, sym, subst, arith, true, Option, none, some, List, [], ◌∷◌, ◌++◌,
  length, get_elem?, drop,
}
use rmm_2023_pre.Process.Table.{
  SockAddr, Addr, Service, Table, Instance, af_inet, is_hit, hash_of, memcmp_eq, search_nolock,
  set_sockaddr, look_up, get_ip, announce, change_addrs, active_addr,
}
use rmm_2023_pre.Process.Table.Texts.{memcmp_eq-append, entry, new_service_fits}
use rmm_2023_pre.Process.Table.Lookup.{
  search_from_append, search_from-change_addrs, search_from_sound, get_elem?-change_addrs,
}
use rmm_2023_pre.Process.Table.Addresses.{is_listed, is_listed-announce, is_listed-new}

is_hit-entry :
    (old_service old_name q x n y : List ℕ) (addr : SockAddr)
    → hash_of (q ++ x) (n ++ y) ≡ hash_of q n
    → is_hit (entry old_service old_name (q ++ x) (n ++ y) addr) q n ≡ some true
unfolding is_hit
is_hit-entry os on q x n y addr h = ground (
  arith,
  reads q x (drop (suc (length (q ++ x))) os),
  reads n y (drop (suc (length (n ++ y))) on),
)
  where
    reads : (a b r : List ℕ) → memcmp_eq ((a ++ b) ++ (0 ∷ r)) a ≡ some true
    reads a b r = rw (append_assoc a b (0 ∷ r)) (memcmp_eq-append a (b ++ (0 ∷ r)))

pub is_hit-entry_self :
    (os on q n : List ℕ) (addr : SockAddr) → is_hit (entry os on q n addr) q n ≡ some true
unfolding is_hit
is_hit-entry_self os on q n addr = ground (
  arith,
  memcmp_eq-append q (0 ∷ drop (suc (length q)) os),
  memcmp_eq-append n (0 ∷ drop (suc (length n)) on),
)

pub get_elem?-append {ℓ} :
    {A : Type ℓ} (l : List A) (a : A) → get_elem? (l ++ (a ∷ [])) (length l) ≡ some a
get_elem?-append [] a = refl
get_elem?-append (b ∷ l) a = get_elem?-append l a

-- An unknown service is added at the end, and is found under every text that its own begins with.
pub set_sockaddr-new :
    (t : Table) (heap : ℕ) (os on q n : List ℕ) (addr : SockAddr)
    → length os ≡ 64
    → length on ≡ 128
    → length q < 64
    → length n < 128
    → search_nolock t q n ≡ some none
    → set_sockaddr t heap os on q n addr
      ≡ some (record { base = heap; services = t.services ++ (entry os on q n addr ∷ []) })
unfolding set_sockaddr hash_of
set_sockaddr-new t heap os on q n addr h k l m e =
    rw (set_sockaddr, e, new_service_fits os on q n addr h k l m)

pub search_nolock-new :
    (t : Table) (heap : ℕ) (s : Service) (q n : List ℕ)
    → search_nolock t q n ≡ some none
    → is_hit s q n ≡ some true
    → search_nolock (record { base = heap; services = t.services ++ (s ∷ []) }) q n
      ≡ some (some (length t.services))
unfolding search_nolock
search_nolock-new t heap s q n h e =
    search_from_append 0 t.services s q n h e ∙ ap (λ k. some (some k)) (omega arith)

pub search_nolock-known :
    (t : Table) (f : List Addr → List Addr) (q n : List ℕ) (i : ℕ)
    → search_nolock (record { base = t.base; services = change_addrs f t.services i }) q n
      ≡ search_nolock t q n
unfolding search_nolock
search_nolock-known t f q n i = search_from-change_addrs f 0 t.services i q n

pub found_new :
    (t : Table) (heap : ℕ) (s : Service) (q n : List ℕ)
    → search_nolock t q n ≡ some none
    → is_hit s q n ≡ some true
    → look_up (record { base = heap; services = t.services ++ (s ∷ []) }) q n
      ≡ some (some (record { array = heap; place = length t.services }))
unfolding look_up
found_new t heap s q n h e = rw (look_up, search_nolock-new t heap s q n h e)

pub set_sockaddr-known :
    (t : Table) (heap : ℕ) (os on q n : List ℕ) (addr : SockAddr) (o : Option ℕ)
    → search_nolock t q n ≡ some o
    → (i : ℕ) → o ≡ some i
    → set_sockaddr t heap os on q n addr
      ≡ some (record { base = t.base; services = change_addrs (announce addr) t.services i })
unfolding set_sockaddr
set_sockaddr-known t heap os on q n addr o e i f = rw (set_sockaddr, e, f)

pub set_sockaddr-fault :
    (t : Table) (heap : ℕ) (os on q n : List ℕ) (addr : SockAddr)
    → search_nolock t q n ≡ none
    → set_sockaddr t heap os on q n addr ≡ none
unfolding set_sockaddr
set_sockaddr-fault t heap os on q n addr e = rw (set_sockaddr, e)

pub found_known :
    (t : Table) (f : List Addr → List Addr) (q n : List ℕ) (i : ℕ)
    → search_nolock t q n ≡ some (some i)
    → look_up (record { base = t.base; services = change_addrs f t.services i }) q n
      ≡ some (some (record { array = t.base; place = i }))
unfolding look_up
found_known t f q n i e = rw (look_up, search_nolock-known t f q n i, e)

pub search_nolock_sound :
    (t : Table) (q n : List ℕ) (i : ℕ)
    → search_nolock t q n ≡ some (some i)
    → (s : Service) × (get_elem? t.services i ≡ some s) × (is_hit s q n ≡ some true)
unfolding search_nolock
search_nolock_sound t q n i e =
    let (k, s, f, there, hit) = search_from_sound 0 t.services q n i e in
    let g : k ≡ i = omega arith in (s, subst (λ z. get_elem? t.services z ≡ some s) g there, hit)

pub look_up_of :
    (t : Table) (q n : List ℕ) (o : Option (Option ℕ))
    → search_nolock t q n ≡ o
    → look_up t q n ≡ (elim o [
      | none ↦ none
      | some found ↦ elim found [
        | none ↦ some none
        | some i ↦ some (some (record { array = t.base; place = i }))
      ]
    ])
unfolding look_up
look_up_of t q n none e = rw (look_up, e)
look_up_of t q n (some none) e = rw (look_up, e)
look_up_of t q n (some (some i)) e = rw (look_up, e)

pub look_up_inv :
    (t : Table) (q n : List ℕ) (p : Instance)
    → look_up t q n ≡ some (some p)
    → (i : ℕ) × (search_nolock t q n ≡ some (some i)) × (p ≡ record { array = t.base; place = i })
look_up_inv t q n p e = go (search_nolock t q n) refl
  where
    go :
        (o : Option (Option ℕ))
        → search_nolock t q n ≡ o
        → (i : ℕ) × (search_nolock t q n ≡ some (some i))
          × (p ≡ record { array = t.base; place = i })
    go none g = cc (e, look_up_of t q n none g)
    go (some none) g = cc (e, look_up_of t q n (some none) g)
    go (some (some i)) g =
        (i, g, some-injective _ _ (some-injective _ _ (sym e ∙ look_up_of t q n (some (some i)) g)))

-- The texts have an instance in the table, and its service has the address, as an active one.
abbrev pub Announced : Table → List ℕ → List ℕ → SockAddr → Type 0
Announced t q n addr =
    (p : Instance) × (s : Service) × (look_up t q n ≡ some (some p))
    × (p.array ≡ t.base)
    × (get_elem? t.services p.place ≡ some s)
    × (is_listed addr s.addrs ≡ true)

-- An address that is announced under a type below 64 and a name below 128 bytes is listed as active
-- for the service that the type and the name are then looked up as, if the table did not fault.
pub look_up-set_sockaddr :
    (t t' : Table) (heap : ℕ) (os on q n : List ℕ) (addr : SockAddr)
    → length os ≡ 64
    → length on ≡ 128
    → length q < 64
    → length n < 128
    → addr.sin_family ≡ af_inet
    → set_sockaddr t heap os on q n addr ≡ some t'
    → Announced t' q n addr
look_up-set_sockaddr t t' heap os on q n addr h k l m f e = go (search_nolock t q n) refl
  where
    added : search_nolock t q n ≡ some none → Announced t' q n addr
    added g =
        subst (λ u. Announced u q n addr)
          (some-injective _ _ (sym (set_sockaddr-new t heap os on q n addr h k l m g) ∙ e))
          (
            record { array = heap; place = length t.services },
            entry os on q n addr,
            found_new t heap (entry os on q n addr) q n g (is_hit-entry_self os on q n addr),
            refl,
            get_elem?-append t.services (entry os on q n addr),
            is_listed-new addr f,
          )

    marked : (i : ℕ) → search_nolock t q n ≡ some (some i) → Announced t' q n addr
    marked i g =
        let (s, there, hit) = search_nolock_sound t q n i g in
        subst (λ u. Announced u q n addr)
          (some-injective _ _
            (sym (set_sockaddr-known t heap os on q n addr (some i) g i refl) ∙ e))
          (
            record { array = t.base; place = i },
            record s { addrs = announce addr s.addrs },
            found_known t (announce addr) q n i g,
            refl,
            get_elem?-change_addrs (announce addr) t.services i s there,
            is_listed-announce addr s.addrs f,
          )

    go : (o : Option (Option ℕ)) → search_nolock t q n ≡ o → Announced t' q n addr
    go none g = cc (e, set_sockaddr-fault t heap os on q n addr g)
    go (some none) g = added g
    go (some (some i)) g = marked i g

get_ip-new :
    (inet_pton : List ℕ → ℕ → ℕ) (htons : ℕ → ℕ) (ss : List Service) (heap old_addr : ℕ)
    (s : Service) (addr : SockAddr)
    → s.addrs ≡ active_addr addr ∷ []
    → get_ip inet_pton htons
        (record { base = heap; services = ss ++ (s ∷ []) })
        old_addr
        (some (record { array = heap; place = length ss }))
      ≡ some addr
unfolding get_ip
get_ip-new inet_pton htons ss heap old_addr s addr e = ground (arith, get_elem?-append ss s)

-- A service that is new in the table is found and resolved under each type and name that are not
-- empty, start its own, and were not found before.
pub look_up-prefix :
    (inet_pton : List ℕ → ℕ → ℕ) (htons : ℕ → ℕ) (t t' : Table) (heap old_addr : ℕ) (os on : List ℕ)
    (c d : ℕ) (q x n y : List ℕ) (addr : SockAddr)
    → length os ≡ 64
    → length on ≡ 128
    → length ((c ∷ q) ++ x) < 64
    → length ((d ∷ n) ++ y) < 128
    → search_nolock t ((c ∷ q) ++ x) ((d ∷ n) ++ y) ≡ some none
    → search_nolock t (c ∷ q) (d ∷ n) ≡ some none
    → set_sockaddr t heap os on ((c ∷ q) ++ x) ((d ∷ n) ++ y) addr ≡ some t'
    → (p : Instance) × (look_up t' (c ∷ q) (d ∷ n) ≡ some (some p))
      × (get_ip inet_pton htons t' old_addr (some p) ≡ some addr)
unfolding hash_of
look_up-prefix inet_pton htons t t' heap old_addr os on c d q x n y addr h k l m g g' e =
    let s = entry os on ((c ∷ q) ++ x) ((d ∷ n) ++ y) addr in
    let p : Instance = record { array = heap; place = length t.services } in
    subst
      (λ u.
        (p : Instance) × (look_up u (c ∷ q) (d ∷ n) ≡ some (some p))
        × (get_ip inet_pton htons u old_addr (some p) ≡ some addr))
      (some-injective _ _
        (sym (set_sockaddr-new t heap os on ((c ∷ q) ++ x) ((d ∷ n) ++ y) addr h k l m g) ∙ e))
      (
        p,
        found_new t heap s (c ∷ q) (d ∷ n) g' (is_hit-entry os on (c ∷ q) x (d ∷ n) y addr refl),
        get_ip-new inet_pton htons t.services heap old_addr s addr refl,
      )
