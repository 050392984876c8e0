-- ===== src/Process/Table/Validity.antt =====
-- pc_table.c: the invariant of the table.
use mathlib.Core.Option.{some-injective}
use rmm_2023_pre.Common.{
  ℕ, zero, suc, ◌<◌, ◌≡◌, refl, ◌∙◌, sym, subst, arith, false, Option, none, some, List, [], ◌∷◌,
  ◌++◌, length,
}
use rmm_2023_pre.Process.Table.{
  SockAddr, Addr, Service, Table, search_nolock, set_sockaddr, announce, change_addrs, deactivate,
  mark,
}
use rmm_2023_pre.Process.Table.Texts.{entry, length-write_text}
use rmm_2023_pre.Process.Table.Lookup.{change_addrs_cons}
use rmm_2023_pre.Process.Table.Addresses.{
  IsDistinct, IsDistinct-new, announce-IsDistinct, count-mark,
}
use rmm_2023_pre.Process.Table.Prefixes.{set_sockaddr-new, set_sockaddr-known, set_sockaddr-fault}

-- Whole arrays, and no address twice.
pub record IsWhole (s : Service) : Type 0 where
  pub service : length s.service ≡ 64
  pub name : length s.name ≡ 128
  pub distinct : IsDistinct s.addrs

abbrev pub AllWhole : List Service → Type 0
AllWhole [] = Unit
AllWhole (s ∷ ss) = IsWhole s × AllWhole ss

abbrev pub IsValid : Table → Type 0
IsValid t = AllWhole t.services

AllWhole-append :
    (ss : List Service) (s : Service) → AllWhole ss → IsWhole s → AllWhole (ss ++ (s ∷ []))
AllWhole-append [] s h k = (k, tt)
AllWhole-append (u ∷ ss) s h k = (h.0, AllWhole-append ss s h.1 k)

AllWhole-change_addrs :
    (f : List Addr → List Addr) (ss : List Service) (i : ℕ)
    → ((l : List Addr) → IsDistinct l → IsDistinct (f l))
    → AllWhole ss
    → AllWhole (change_addrs f ss i)
AllWhole-change_addrs f [] i k h = unfold change_addrs in tt
AllWhole-change_addrs f (s ∷ ss) zero k h =
    unfold change_addrs in
    (record { service = h.0.service; name = h.0.name; distinct = k s.addrs h.0.distinct }, h.1)
AllWhole-change_addrs f (s ∷ ss) (suc i) k h =
    rw (change_addrs_cons f s ss i) (h.0, AllWhole-change_addrs f ss i k h.1)

entry-IsWhole :
    (os on q n : List ℕ) (addr : SockAddr)
    → length os ≡ 64
    → length on ≡ 128
    → length q < 64
    → length n < 128
    → IsWhole (entry os on q n addr)
entry-IsWhole os on q n addr h k l m = record {
  service = length-write_text os q (omega arith) ∙ h;
  name = length-write_text on n (omega arith) ∙ k;
  distinct = IsDistinct-new addr;
}

-- Announcing an address keeps the table valid: its texts stay whole arrays of 64 and 128 bytes, and
-- no service gets an address twice, if the type is below 64 and the name below 128 bytes long.
pub set_sockaddr-IsValid :
    (t t' : Table) (heap : ℕ) (os on q n : List ℕ) (addr : SockAddr)
    → length os ≡ 64
    → length on ≡ 128
    → length q < 64
    → length n < 128
    → IsValid t
    → set_sockaddr t heap os on q n addr ≡ some t'
    → IsValid t'
set_sockaddr-IsValid t t' heap os on q n addr h k l m v e = go (search_nolock t q n) refl
  where
    go : (o : Option (Option ℕ)) → search_nolock t q n ≡ o → IsValid t'
    go none g = cc (e, set_sockaddr-fault t heap os on q n addr g)
    go (some none) g =
        subst IsValid
          (some-injective _ _ (sym (set_sockaddr-new t heap os on q n addr h k l m g) ∙ e))
          (AllWhole-append t.services (entry os on q n addr) v
            (entry-IsWhole os on q n addr h k l m))
    go (some (some i)) g =
        subst IsValid
          (some-injective _ _
            (sym (set_sockaddr-known t heap os on q n addr (some i) g i refl) ∙ e))
          (AllWhole-change_addrs (announce addr) t.services i (announce-IsDistinct addr) v)

pub deactivate-known :
    (t : Table) (q n : List ℕ) (addr : SockAddr) (o : Option ℕ)
    → search_nolock t q n ≡ some o
    → deactivate t q n addr
      ≡ some (elim o [
        | none ↦ t
        | some i ↦ record {
          base = t.base;
          services = change_addrs (λ l. (mark false addr l).0) t.services i;
        }
      ])
unfolding deactivate
deactivate-known t q n addr none e = rw (deactivate, e)
deactivate-known t q n addr (some i) e = rw (deactivate, e)

pub deactivate-fault :
    (t : Table) (q n : List ℕ) (addr : SockAddr)
    → search_nolock t q n ≡ none
    → deactivate t q n addr ≡ none
unfolding deactivate
deactivate-fault t q n addr e = rw (deactivate, e)

pub deactivate-IsValid :
    (t t' : Table) (q n : List ℕ) (addr : SockAddr)
    → IsValid t
    → deactivate t q n addr ≡ some t'
    → IsValid t'
deactivate-IsValid t t' q n addr v e = go (search_nolock t q n) refl
  where
    go : (o : Option (Option ℕ)) → search_nolock t q n ≡ o → IsValid t'
    go none g = cc (e, deactivate-fault t q n addr g)
    go (some none) g =
        subst IsValid (some-injective _ _ (sym (deactivate-known t q n addr none g) ∙ e)) v
    go (some (some i)) g =
        subst IsValid (some-injective _ _ (sym (deactivate-known t q n addr (some i) g) ∙ e)) (
          AllWhole-change_addrs (λ l. (mark false addr l).0) t.services i
            (λ l d x. rw (count-mark false addr x l) (d x)) v)
