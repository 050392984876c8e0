-- ===== src/Process/Table/Changes.antt =====
-- pc_table.c: a repeated announcement, a withdrawal, and the accesses that are faults.
use mathlib.Core.Option.{some-injective}
use rmm_2023_pre.Common.{
  ℕ, zero, suc, ◌<◌, ◌≤◌, ◌≡◌, ◌≢◌, ◌↔◌, refl, ap, ◌∙◌, sym, subst, arith, false, Option, none,
  some, List, [], ◌∷◌, ◌++◌, length, get_elem?, dec_lt,
}
use rmm_2023_pre.Process.Table.{
  SockAddr, Addr, Service, Table, Instance, af_inet, search_nolock, set_sockaddr, look_up, get_ip,
  announce, change_addrs, first_active, new_service, deactivate, mark, no_address,
}
use rmm_2023_pre.Process.Table.Texts.{new_service-some, new_service-none, entry}
use rmm_2023_pre.Process.Table.Lookup.{
  get_elem?-change_addrs, change_addrs_last, change_addrs_twice,
}
use rmm_2023_pre.Process.Table.Addresses.{announce-new, announce_again, withdrawn}
use rmm_2023_pre.Process.Table.Prefixes.{
  is_hit-entry_self, search_nolock-new, search_nolock-known, set_sockaddr-new, set_sockaddr-known,
  set_sockaddr-fault, search_nolock_sound, look_up_inv,
}
use rmm_2023_pre.Process.Table.Validity.{IsValid, IsWhole, AllWhole, deactivate-known}

-- To announce the same address again changes nothing.
pub set_sockaddr_again :
    (t t' : Table) (heap heap' : ℕ) (os on os' on' q n : List ℕ) (addr : SockAddr)
    → length os ≡ 64
    → length on ≡ 128
    → length q < 64
    → length n < 128
    → addr.sin_family ≡ af_inet
    → set_sockaddr t heap os on q n addr ≡ some t'
    → set_sockaddr t' heap' os' on' q n addr ≡ some t'
set_sockaddr_again t t' heap heap' os on os' on' q n addr h k l m f e =
    go (search_nolock t q n) refl
  where
    go :
        (o : Option (Option ℕ))
        → search_nolock t q n ≡ o
        → set_sockaddr t' heap' os' on' q n addr ≡ some t'
    go none g = cc (e, set_sockaddr-fault t heap os on q n addr g)
    go (some none) g =
        let u : Table = record {
          base = heap;
          services = t.services ++ (entry os on q n addr ∷ []);
        } in
        subst (λ v. set_sockaddr v heap' os' on' q n addr ≡ some v)
          (some-injective _ _ (sym (set_sockaddr-new t heap os on q n addr h k l m g) ∙ e))
          (set_sockaddr-known u heap' os' on' q n addr (some (length t.services))
              (search_nolock-new t heap (entry os on q n addr) q n g
                (is_hit-entry_self os on q n addr))
              (length t.services) refl
            ∙ ap (λ l. some (record { base = heap; services = l }))
                (change_addrs_last (announce addr) t.services (entry os on q n addr)
                  ∙ ap (λ l. t.services ++ (record (entry os on q n addr) { addrs = l } ∷ []))
                      (announce-new addr f)))
    go (some (some i)) g =
        let u : Table = record {
          base = t.base;
          services = change_addrs (announce addr) t.services i;
        } in
        subst (λ v. set_sockaddr v heap' os' on' q n addr ≡ some v)
          (some-injective _ _
            (sym (set_sockaddr-known t heap os on q n addr (some i) g i refl) ∙ e))
          (set_sockaddr-known u heap' os' on' q n addr (some i)
              (search_nolock-known t (announce addr) q n i ∙ g) i refl
            ∙ ap (λ l. some (record { base = t.base; services = l }))
                (change_addrs_twice (announce addr) t.services i (λ l. announce_again addr l f)))

AllWhole-get_elem? :
    (ss : List Service) (i : ℕ) (s : Service) → AllWhole ss → get_elem? ss i ≡ some s → IsWhole s
AllWhole-get_elem? [] i s h e = cc e
AllWhole-get_elem? (u ∷ ss) zero s h e = subst IsWhole (some-injective _ _ e) h.0
AllWhole-get_elem? (u ∷ ss) (suc i) s h e = AllWhole-get_elem? ss i s h.1 e

module _ (inet_pton : List ℕ → ℕ → ℕ) (htons : ℕ → ℕ) where
  get_ip_place :
      (t : Table) (old_addr i : ℕ) (s : Service) (o : Option SockAddr)
      → get_elem? t.services i ≡ some s
      → first_active s.addrs ≡ o
      → get_ip inet_pton htons t old_addr (some (record { array = t.base; place = i }))
        ≡ some (elim o [ none ↦ no_address inet_pton htons old_addr | some addr ↦ addr ])
  unfolding get_ip
  get_ip_place t old_addr i s none e f = ground (arith, e, f)
  get_ip_place t old_addr i s (some a) e f = ground (arith, e, f)

  after :
      (t : Table) (old_addr i : ℕ) (addr : SockAddr) (l : List Addr) (s : Service)
      → get_elem? t.services i ≡ some s
      → s.addrs ≡ (mark false addr l).0
      → first_active (mark false addr l).0 ≢ some addr
      → addr.sin_port ≢ 0
      → (a : SockAddr) × (get_ip inet_pton htons t old_addr
            (some (record { array = t.base; place = i }))
          ≡ some a)
        × (a ≢ addr)
  unfolding no_address
  after t old_addr i addr l s there e w z = go (first_active s.addrs) refl
    where
      go :
          (o : Option SockAddr)
          → first_active s.addrs ≡ o
          → (a : SockAddr) × (get_ip inet_pton htons t old_addr
                (some (record { array = t.base; place = i }))
              ≡ some a)
            × (a ≢ addr)
      go none g = (
        no_address inet_pton htons old_addr,
        get_ip_place t old_addr i s none there g,
        λ h. z (sym (ap (λ r. r.sin_port) h)),
      )
      go (some a) g = (
        a,
        get_ip_place t old_addr i s (some a) there g,
        λ h. w (ap first_active (sym e) ∙ g ∙ ap some h),
      )

  -- In a valid table, after an address with a port is withdrawn from a service, the service is not
  -- resolved to that address.
  pub get_ip-deactivate :
      (t t' : Table) (old_addr : ℕ) (q n : List ℕ) (addr : SockAddr) (p : Instance)
      → IsValid t
      → addr.sin_family ≡ af_inet
      → addr.sin_port ≢ 0
      → look_up t q n ≡ some (some p)
      → deactivate t q n addr ≡ some t'
      → (a : SockAddr) × (get_ip inet_pton htons t' old_addr (some p) ≡ some a) × (a ≢ addr)
  get_ip-deactivate t t' old_addr q n addr p v f z l e =
      let (i, g, place) = look_up_inv t q n p l in
      let (s, there, hit) = search_nolock_sound t q n i g in
      let u : Table = record {
        base = t.base;
        services = change_addrs (λ x. (mark false addr x).0) t.services i;
      } in
      let (a, gives, differs) =
        after u old_addr i addr s.addrs (record s { addrs = (mark false addr s.addrs).0 })
          (get_elem?-change_addrs (λ x. (mark false addr x).0) t.services i s there) refl
          (withdrawn addr s.addrs f ((AllWhole-get_elem? t.services i s v there).distinct addr))
          z in
      (
        a,
        subst (λ w. get_ip inet_pton htons w old_addr (some p) ≡ some a)
            (some-injective _ _ (sym (deactivate-known t q n addr (some i) g) ∙ e))
            (ap (λ r. get_ip inet_pton htons u old_addr (some r)) place ∙ gives),
        differs,
      )

set_sockaddr-unknown :
    (t : Table) (heap : ℕ) (os on q n : List ℕ) (addr : SockAddr) (o : Option Service)
    → search_nolock t q n ≡ some none
    → new_service os on q n addr ≡ o
    → set_sockaddr t heap os on q n addr ≡ (elim o [
      | none ↦ none
      | some s ↦ some (record { base = heap; services = t.services ++ (s ∷ []) })
    ])
unfolding set_sockaddr
set_sockaddr-unknown t heap os on q n addr none e f = rw (set_sockaddr, e, f)
set_sockaddr-unknown t heap os on q n addr (some s) e f = rw (set_sockaddr, e, f)

-- A service that is not in the table yet overruns its record exactly when its name has 128 bytes or
-- more.
pub set_sockaddr_overruns :
    (t : Table) (heap : ℕ) (os on q n : List ℕ) (addr : SockAddr)
    → length os ≡ 64
    → length on ≡ 128
    → search_nolock t q n ≡ some none
    → (set_sockaddr t heap os on q n addr ≡ none) ↔ (128 ≤ length n)
set_sockaddr_overruns t heap os on q n addr h k e = (
  λ fault. elim (dec_lt (length n) 128) [
    | yes p ↦
        let (s, f) = new_service-some os on q n addr h k p in
        cc (fault, set_sockaddr-unknown t heap os on q n addr (some s) e f)
    | no p ↦ omega arith
  ],
  λ long.
      set_sockaddr-unknown t heap os on q n addr none e (new_service-none os on q n addr k long),
)

stale :
    (inet_pton : List ℕ → ℕ → ℕ) (htons : ℕ → ℕ) (t : Table) (heap old_addr i : ℕ)
    (ss : List Service)
    → heap ≢ t.base
    → get_ip inet_pton htons
        (record { base = heap; services = ss })
        old_addr
        (some (record { array = t.base; place = i }))
      ≡ none
unfolding get_ip
stale inet_pton htons t heap old_addr i ss d = ground arith

-- A pointer does not outlive the next service that moves the array.
pub get_ip_dangles :
    (inet_pton : List ℕ → ℕ → ℕ) (htons : ℕ → ℕ) (t t' : Table) (heap old_addr : ℕ)
    (os on q n q' n' : List ℕ) (addr : SockAddr) (p : Instance)
    → length os ≡ 64
    → length on ≡ 128
    → length q < 64
    → length n < 128
    → look_up t q' n' ≡ some (some p)
    → search_nolock t q n ≡ some none
    → heap ≢ t.base
    → set_sockaddr t heap os on q n addr ≡ some t'
    → get_ip inet_pton htons t' old_addr (some p) ≡ none
get_ip_dangles inet_pton htons t t' heap old_addr os on q n q' n' addr p h k l m g f d e =
    let (i, _, place) = look_up_inv t q' n' p g in
    subst (λ w. get_ip inet_pton htons w old_addr (some p) ≡ none)
      (some-injective _ _ (sym (set_sockaddr-new t heap os on q n addr h k l m f) ∙ e))
      (ap
          (λ r.
            get_ip inet_pton htons
              (record { base = heap; services = t.services ++ (entry os on q n addr ∷ []) })
              old_addr (some r))
          place
        ∙ stale inet_pton htons t heap old_addr i (t.services ++ (entry os on q n addr ∷ [])) d)
