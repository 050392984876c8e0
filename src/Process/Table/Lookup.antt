-- ===== src/Process/Table/Lookup.antt =====
-- pc_table.c: the search of the table, where it stops and what leaves it as it was.
use rmm_2023_pre.Common.{
  ℕ, zero, suc, ◌+◌, ◌≡◌, ◌⊎◌, refl, ap, ◌∙◌, sym, arith, Bool, true, false, Option, none, some,
  inl, inr, List, [], ◌∷◌, ◌++◌, length, get_elem?, set,
}
use rmm_2023_pre.Process.Table.{Service, Addr, is_hit, search_from, change_addrs}

pub Hit-cases : (o : Option Bool) → (o ≡ none) ⊎ (o ≡ some true) ⊎ (o ≡ some false)
Hit-cases none = inl refl
Hit-cases (some true) = inr (inl refl)
Hit-cases (some false) = inr (inr refl)

-- One turn of the search, given what the rest of it returns.
abbrev turn : ℕ → Option Bool → Option (Option ℕ) → Option (Option ℕ)
turn i none rest = none
turn i (some true) rest = some (some i)
turn i (some false) rest = rest

search_from_cons :
    (i : ℕ) (s : Service) (ss : List Service) (q n : List ℕ) (o : Option Bool)
    → is_hit s q n ≡ o
    → search_from i (s ∷ ss) q n ≡ turn i o (search_from (suc i) ss q n)
unfolding search_from
search_from_cons i s ss q n none e = rw (search_from, e, turn)
search_from_cons i s ss q n (some true) e = rw (search_from, e, turn)
search_from_cons i s ss q n (some false) e = rw (search_from, e, turn)

pub search_from_append :
    (i : ℕ) (ss : List Service) (s : Service) (q n : List ℕ)
    → search_from i ss q n ≡ some none
    → is_hit s q n ≡ some true
    → search_from i (ss ++ (s ∷ [])) q n ≡ some (some (i + length ss))
search_from_append i [] s q n h e =
    search_from_cons i s [] q n (some true) e ∙ ap (λ k. some (some k)) (omega arith)
search_from_append i (u ∷ ss) s q n h e = elim (Hit-cases (is_hit u q n)) [
  | inl fault ↦ cc (h, search_from_cons i u ss q n none fault)
  | inr (inl hit) ↦ cc (h, search_from_cons i u ss q n (some true) hit)
  | inr (inr miss) ↦
      search_from_cons i u (ss ++ (s ∷ [])) q n (some false) miss
      ∙ search_from_append (suc i) ss s q n
          (sym (search_from_cons i u ss q n (some false) miss) ∙ h) e
      ∙ ap (λ k. some (some k)) (omega arith)
]

-- The search reads neither the addresses nor what follows the place that it returns.
pub is_hit_addrs :
    (s : Service) (addrs : List Addr) (q n : List ℕ)
    → is_hit (record s { addrs = addrs }) q n ≡ is_hit s q n
unfolding is_hit
is_hit_addrs s addrs q n = refl

pub change_addrs_cons :
    (f : List Addr → List Addr) (s : Service) (ss : List Service) (j : ℕ)
    → change_addrs f (s ∷ ss) (suc j) ≡ s ∷ change_addrs f ss j
unfolding change_addrs
change_addrs_cons f s ss j = go (get_elem? ss j) refl
  where
    go :
        (o : Option Service)
        → get_elem? ss j ≡ o
        → (elim o [ none ↦ s ∷ ss | some u ↦ s ∷ set ss j (record u { addrs = f u.addrs }) ])
          ≡ s ∷ (elim o [ none ↦ ss | some u ↦ set ss j (record u { addrs = f u.addrs }) ])
    go none e = refl
    go (some u) e = refl

pub search_from-change_addrs :
    (f : List Addr → List Addr) (i : ℕ) (ss : List Service) (j : ℕ) (q n : List ℕ)
    → search_from i (change_addrs f ss j) q n ≡ search_from i ss q n
search_from-change_addrs f i [] j q n = unfold change_addrs in refl
search_from-change_addrs f i (s ∷ ss) zero q n =
    unfold change_addrs in
    search_from_cons i (record s { addrs = f s.addrs }) ss q n (is_hit s q n)
      (is_hit_addrs s (f s.addrs) q n)
    ∙ sym (search_from_cons i s ss q n (is_hit s q n) refl)
search_from-change_addrs f i (s ∷ ss) (suc j) q n = rw (change_addrs_cons f s ss j) (
    search_from_cons i s (change_addrs f ss j) q n (is_hit s q n) refl
    ∙ ap (turn i (is_hit s q n)) (search_from-change_addrs f (suc i) ss j q n)
    ∙ sym (search_from_cons i s ss q n (is_hit s q n) refl))

-- A place that is found holds a service that is hit.
pub search_from_sound :
    (i : ℕ) (ss : List Service) (q n : List ℕ) (j : ℕ)
    → search_from i ss q n ≡ some (some j)
    → (k : ℕ) × (s : Service) × (j ≡ i + k) × (get_elem? ss k ≡ some s) × (is_hit s q n ≡ some true)
search_from_sound i [] q n j h = unfold search_from in cc h
search_from_sound i (u ∷ ss) q n j h = elim (Hit-cases (is_hit u q n)) [
  | inl fault ↦ cc (h, search_from_cons i u ss q n none fault)
  | inr (inl hit) ↦
      (0, u, ground (arith, h, search_from_cons i u ss q n (some true) hit), refl, hit)
  | inr (inr miss) ↦
      let (k, s, e, at, hit) =
        search_from_sound (suc i) ss q n j
          (sym (search_from_cons i u ss q n (some false) miss) ∙ h) in
      (suc k, s, omega arith, at, hit)
]

pub get_elem?-change_addrs :
    (f : List Addr → List Addr) (ss : List Service) (k : ℕ) (s : Service)
    → get_elem? ss k ≡ some s
    → get_elem? (change_addrs f ss k) k ≡ some (record s { addrs = f s.addrs })
get_elem?-change_addrs f [] k s h = cc
get_elem?-change_addrs f (u ∷ ss) zero s h = unfold change_addrs in ground (arith, h)
get_elem?-change_addrs f (u ∷ ss) (suc k) s h =
    rw (change_addrs_cons f u ss k) (get_elem?-change_addrs f ss k s h)

pub change_addrs_last :
    (f : List Addr → List Addr) (ss : List Service) (s : Service)
    → change_addrs f (ss ++ (s ∷ [])) (length ss) ≡ ss ++ (record s { addrs = f s.addrs } ∷ [])
change_addrs_last f [] s = unfold change_addrs in refl
change_addrs_last f (u ∷ ss) s =
    change_addrs_cons f u (ss ++ (s ∷ [])) (length ss) ∙ ap (λ l. u ∷ l) (change_addrs_last f ss s)

pub change_addrs_twice :
    (f : List Addr → List Addr) (ss : List Service) (i : ℕ)
    → ((l : List Addr) → f (f l) ≡ f l)
    → change_addrs f (change_addrs f ss i) i ≡ change_addrs f ss i
change_addrs_twice f [] i h = unfold change_addrs in refl
change_addrs_twice f (s ∷ ss) zero h =
    unfold change_addrs in ap (λ l. record s { addrs = l } ∷ ss) (h s.addrs)
change_addrs_twice f (s ∷ ss) (suc i) h =
    rw (change_addrs_cons f s ss i) (
      change_addrs_cons f s (change_addrs f ss i) i ∙ ap (λ l. s ∷ l) (change_addrs_twice f ss i h))
