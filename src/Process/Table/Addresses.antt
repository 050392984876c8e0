-- ===== src/Process/Table/Addresses.antt =====
-- pc_table.c: the addresses of one service, as they are announced and withdrawn.
use rmm_2023_pre.Common.{
  ℕ, ◌+◌, ◌≤◌, ◌≡◌, ◌≢◌, refl, ap, ◌∙◌, sym, arith, Bool, true, false, ◌&&◌, ◌||◌, Bool-cases, some,
  inl, inr, List, [], ◌∷◌, ◌++◌, ltb, if◌then◌else◌,
}
use rmm_2023_pre.Process.Table.{
  SockAddr, Addr, af_inet, is_same, mark, announce, active_addr, first_active,
}

-- How many entries have the address, and whether one that is active has it.
pub count : SockAddr → List Addr → ℕ
unfolding is_same
count x [] = 0
count x (a ∷ l) = (if is_same a x then 1 else 0) + count x l

pub is_listed : SockAddr → List Addr → Bool
unfolding is_same
is_listed x [] = false
is_listed x (a ∷ l) = a.is_active && is_same a x || is_listed x l

-- No address is in the list twice.
abbrev pub IsDistinct : List Addr → Type 0
IsDistinct addrs = (x : SockAddr) → count x addrs ≤ 1

pub is_same_sound :
    (a : Addr) (x : SockAddr)
    → is_same a x ≡ true
    → (a.addr.sin_family ≡ af_inet) × (a.addr.s_addr ≡ x.s_addr) × (a.addr.sin_port ≡ x.sin_port)
unfolding is_same
is_same_sound a x h = ground arith

pub is_same_self :
    (x : SockAddr) (b : Bool)
    → x.sin_family ≡ af_inet
    → is_same (record { is_active = b; addr = x }) x ≡ true
unfolding is_same
is_same_self x b h = ground arith

is_same_mark :
    (a : Addr) (v : Bool) (x : SockAddr)
    → is_same (record { is_active = v; addr = a.addr }) x ≡ is_same a x
unfolding is_same
is_same_mark a v x = refl

pub count-mark : (v : Bool) (x y : SockAddr) (l : List Addr) → count y (mark v x l).0 ≡ count y l
unfolding count mark
count-mark v x y [] = refl
count-mark v x y (a ∷ l) = elim (Bool-cases (is_same a x)) [
  | inl e ↦ rw (e, is_same_mark a v y)
  | inr e ↦ rw e (ap (λ k. (if is_same a y then 1 else 0) + k) (count-mark v x y l))
]

mark_found : (v : Bool) (x : SockAddr) (l : List Addr) → (mark v x l).1 ≡ ltb 0 (count x l)
unfolding count mark
mark_found v x [] = refl
mark_found v x (a ∷ l) = ground (arith, mark_found v x l)

count-append : (x : SockAddr) (l r : List Addr) → count x (l ++ r) ≡ count x l + count x r
unfolding count
count-append x [] r = omega arith
count-append x (a ∷ l) r = omega (arith, count-append x l r)

is_listed-mark :
    (x : SockAddr) (l : List Addr) → (mark true x l).1 ≡ true → is_listed x (mark true x l).0 ≡ true
unfolding is_listed mark
is_listed-mark x [] h = cc
is_listed-mark x (a ∷ l) h = ground (arith, is_listed-mark x l)

is_listed-append :
    (x : SockAddr) (l : List Addr) (a : Addr)
    → a.is_active ≡ true
    → is_same a x ≡ true
    → is_listed x (l ++ (a ∷ [])) ≡ true
unfolding is_listed
is_listed-append x [] a h k = ground arith
is_listed-append x (b ∷ l) a h k = ground (arith, is_listed-append x l a h k)

pub is_listed-new :
    (x : SockAddr) → x.sin_family ≡ af_inet → is_listed x (active_addr x ∷ []) ≡ true
unfolding is_listed
is_listed-new x h = ground (arith, is_same_self x true h)

pub is_listed-announce :
    (x : SockAddr) (l : List Addr) → x.sin_family ≡ af_inet → is_listed x (announce x l) ≡ true
unfolding announce
is_listed-announce x l h = elim (Bool-cases (mark true x l).1) [
  | inl e ↦ rw e (is_listed-mark x l e)
  | inr e ↦ rw e (is_listed-append x (mark true x l).0 (active_addr x) refl (is_same_self x true h))
]

-- To announce an address again changes nothing.
mark_again :
    (x : SockAddr) (l : List Addr)
    → (mark true x l).1 ≡ true
    → mark true x (mark true x l).0 ≡ mark true x l
unfolding mark
mark_again x [] h = cc
mark_again x (a ∷ l) h = elim (Bool-cases (is_same a x)) [
  | inl e ↦ rw (e, is_same_mark a true x, e)
  | inr e ↦ rw e (rw e (rw (mark_again x l (rw e at h))))
]

mark_new :
    (x : SockAddr) (l : List Addr) (a : Addr)
    → (mark true x l).1 ≡ false
    → a.is_active ≡ true
    → is_same a x ≡ true
    → mark true x ((mark true x l).0 ++ (a ∷ [])) ≡ ((mark true x l).0 ++ (a ∷ []), true)
unfolding mark
mark_new x [] a h k m = ground arith
mark_new x (b ∷ l) a h k m = ground (arith, mark_new x l a)

pub announce_again :
    (x : SockAddr) (l : List Addr)
    → x.sin_family ≡ af_inet
    → announce x (announce x l) ≡ announce x l
unfolding announce
announce_again x l h = elim (Bool-cases (mark true x l).1) [
  | inl e ↦ rw e (rw (mark_again x l e, e))
  | inr e ↦ rw e (rw (mark_new x l (active_addr x) e refl (is_same_self x true h)))
]

count_same :
    (x y : SockAddr) (l : List Addr)
    → x.s_addr ≡ y.s_addr
    → x.sin_port ≡ y.sin_port
    → count x l ≡ count y l
unfolding count is_same
count_same x y [] h k = refl
count_same x y (a ∷ l) h k = rw (count_same x y l h k, h, k)

count_added :
    (x y : SockAddr) (l m : List Addr)
    → count y m ≡ count y l
    → count y l ≤ 1
    → ltb 0 (count x l) ≡ false
    → count y (m ++ (active_addr x ∷ [])) ≤ 1
unfolding count
count_added x y l m e h k = ground (
  arith,
  count-append y m (active_addr x ∷ []),
  count_same x y l,
  is_same_sound (active_addr x) y,
)

-- An announcement keeps the addresses distinct.
pub announce-IsDistinct : (x : SockAddr) (l : List Addr) → IsDistinct l → IsDistinct (announce x l)
unfolding announce
announce-IsDistinct x l h y = elim (Bool-cases (mark true x l).1) [
  | inl e ↦ rw e (rw (count-mark true x y l) (h y))
  | inr e ↦ rw e (
      count_added x y l (mark true x l).0 (count-mark true x y l) (h y)
        (sym (mark_found true x l) ∙ e))
]

pub IsDistinct-new : (x : SockAddr) → IsDistinct (active_addr x ∷ [])
unfolding count
IsDistinct-new x y = ground arith

pub announce-new :
    (x : SockAddr) → x.sin_family ≡ af_inet → announce x (active_addr x ∷ []) ≡ active_addr x ∷ []
unfolding announce mark
announce-new x h = ground (arith, is_same_self x true h)

-- An address that was withdrawn is not the first active one.
absent :
    (x : SockAddr) (l : List Addr)
    → x.sin_family ≡ af_inet
    → count x l ≡ 0
    → first_active l ≢ some x
unfolding count first_active
absent x [] h k e = cc
absent x (a ∷ l) h k e = ground (arith, absent x l h, is_same_self a.addr a.is_active)

pub withdrawn :
    (x : SockAddr) (l : List Addr)
    → x.sin_family ≡ af_inet
    → count x l ≤ 1
    → first_active (mark false x l).0 ≢ some x
unfolding count first_active mark
withdrawn x [] h k e = cc
withdrawn x (a ∷ l) h k e = ground (arith, absent x l h, withdrawn x l h)
