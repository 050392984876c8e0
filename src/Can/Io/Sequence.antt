-- ===== src/Can/Io/Sequence.antt =====
-- The table of the numbers of datagrams in pkg/can_smbus/src/core/io/cs_io.c.
use Prim.Native.String.{String}
use rmm_2023_pre.Common.{
  ℕ, zero, suc, ◌+◌, ◌%◌, ◌^◌, ◌<◌, ◌≡◌, refl, ◌⊎◌, inl, inr, true, some, ap, sym, Bool-cases,
  Option-cases, ◌==◌, List, [], ◌∷◌, length, set, length-set, arith,
}
use rmm_2023_pre.Can.Io.{
  Io, DataPack, Received, is_known, ignored, received, remember, decode_frames, accept,
  find_gateway, read,
}

-- The table of a gateway has four places.
abbrev pub HasTable : Io → ℕ → Type 0
HasTable io gw = (length (io.recv_sequence_map gw) ≡ 4) × (io.recv_next_map_index gw < 2 ^ 8)

pub remember-HasTable :
    (io : Io) (gw s gw' : ℕ) → HasTable io gw → HasTable io gw' → HasTable (remember io gw s) gw'
unfolding remember
remember-HasTable io gw s gw' h k =
    ground (arith, length-set (io.recv_sequence_map gw) (io.recv_next_map_index gw % 4) s)

four_set :
    (a b c d : ℕ)
    → let t = a ∷ b ∷ c ∷ d ∷ [] in
      (is_known a t ≡ true) × (is_known b t ≡ true) × (is_known c t ≡ true) × (is_known d t ≡ true)
unfolding is_known
four_set a b c d = ground arith

abbrev AllKnown : ℕ → ℕ → ℕ → ℕ → List ℕ → Type 0
AllKnown a b c d t =
    (is_known a t ≡ true) × (is_known b t ≡ true) × (is_known c t ≡ true) × (is_known d t ≡ true)

-- Four writes to the four places in turn, from any one on, replace the table.
table_of_four :
    (xs : List ℕ) (i j k l a b c d : ℕ)
    → length xs ≡ 4
    → i < 4
    → j ≡ (i + 1) % 4
    → k ≡ (i + 2) % 4
    → l ≡ (i + 3) % 4
    → AllKnown a b c d (set (set (set (set xs i a) j b) k c) l d)
table_of_four (w ∷ x ∷ y ∷ z ∷ []) zero j k l a b c d h m p q r = rw (p, q, r) (four_set a b c d)
table_of_four (w ∷ x ∷ y ∷ z ∷ []) (suc zero) j k l a b c d h m p q r =
    let t = four_set d a b c in rw (p, q, r) (t.1, t.2, t.3, t.0)
table_of_four (w ∷ x ∷ y ∷ z ∷ []) (suc (suc zero)) j k l a b c d h m p q r =
    let t = four_set c d a b in rw (p, q, r) (t.2, t.3, t.0, t.1)
table_of_four (w ∷ x ∷ y ∷ z ∷ []) (suc (suc (suc zero))) j k l a b c d h m p q r =
    let t = four_set b c d a in rw (p, q, r) (t.3, t.0, t.1, t.2)
table_of_four (w ∷ x ∷ y ∷ z ∷ []) (suc (suc (suc (suc i)))) j k l a b c d h m p q r =
    absurd (omega arith)
table_of_four (w ∷ x ∷ y ∷ z ∷ v ∷ xs) i j k l a b c d h m p q r = absurd (omega arith)
table_of_four (w ∷ x ∷ y ∷ []) i j k l a b c d h m p q r = absurd (omega arith)
table_of_four (w ∷ x ∷ []) i j k l a b c d h m p q r = absurd (omega arith)
table_of_four (w ∷ []) i j k l a b c d h m p q r = absurd (omega arith)
table_of_four [] i j k l a b c d h m p q r = absurd (omega arith)

map-remember :
    (io : Io) (gw s : ℕ)
    → ((remember io gw s).recv_sequence_map gw
        ≡ set (io.recv_sequence_map gw) (io.recv_next_map_index gw % 4) s)
      × ((remember io gw s).recv_next_map_index gw ≡ (io.recv_next_map_index gw + 1) % 2 ^ 8)
unfolding remember
map-remember io gw s = ground arith

four_known :
    (io : Io) (gw a b c d : ℕ)
    → HasTable io gw
    → AllKnown a b c d
        ((remember (remember (remember (remember io gw a) gw b) gw c) gw d).recv_sequence_map gw)
four_known io gw a b c d h =
    let io1 = remember io gw a in
    let io2 = remember io1 gw b in
    let io3 = remember io2 gw c in
    let one = map-remember io gw a in
    let two = map-remember io1 gw b in
    let three = map-remember io2 gw c in
    let i = io.recv_next_map_index gw in
    rw ((map-remember io3 gw d).0, three.0, two.0, one.0)
      (table_of_four (io.recv_sequence_map gw) (i % 4) (io1.recv_next_map_index gw % 4)
        (io2.recv_next_map_index gw % 4) (io3.recv_next_map_index gw % 4) a b c d h.0 (omega arith)
        (omega (arith, one.1)) (omega (arith, one.1, two.1)) (omega (arith, one.1, two.1, three.1)))

-- A datagram with a number that is in the table is ignored.
known_ignored :
    (io : Io) (gw s n : ℕ) (body : List ℕ)
    → is_known s (io.recv_sequence_map gw) ≡ true
    → accept io gw (s ∷ n ∷ body) ≡ (ignored, io)
unfolding accept
known_ignored io gw s n body h = rw (accept, h)

one_of_four :
    (s a b c d : ℕ) (t : List ℕ)
    → (s ≡ a) ⊎ (s ≡ b) ⊎ (s ≡ c) ⊎ (s ≡ d)
    → AllKnown a b c d t
    → is_known s t ≡ true
one_of_four s a b c d t (inl e) k = rw e k.0
one_of_four s a b c d t (inr (inl e)) k = rw e k.1
one_of_four s a b c d t (inr (inr (inl e))) k = rw e k.2
one_of_four s a b c d t (inr (inr (inr e))) k = rw e k.3

-- A datagram that is taken has its number remembered.
accept-received :
    (io io' : Io) (gw s n : ℕ) (body : List ℕ) (p : DataPack)
    → accept io gw (s ∷ n ∷ body) ≡ (received p, io')
    → io' ≡ remember io gw s
unfolding accept
accept-received io io' gw s n body p e = elim (Bool-cases (is_known s (io.recv_sequence_map gw))) [
  | inl k ↦ cc (rw (accept, k) at e)
  | inr k ↦ elim (Option-cases (decode_frames n body)) [
    | inl f ↦ cc (rw (accept, k, f) at e)
    | inr (fs, f) ↦ sym (ap (λ (q : Received × Io). q.1) (rw (accept, k, f) at e))
  ]
]

module _ (inet_addr : String → ℕ) where
  -- What is taken comes from the gateway of the address, and is remembered.
  read-received :
      (io io' : Io) (address gw s n : ℕ) (body : List ℕ) (p : DataPack)
      → find_gateway inet_addr 4 0 address ≡ some gw
      → read inet_addr io address (s ∷ n ∷ body) ≡ (received p, io')
      → io' ≡ remember io gw s
  unfolding read
  read-received io io' address gw s n body p g e = elim (Bool-cases (length (s ∷ n ∷ body) == 34)) [
    | inl l ↦ accept-received io io' gw s n body p (rw (read, l, g) at e)
    | inr l ↦ cc (rw (read, l) at e)
  ]

  -- After four datagrams from the address of a gateway were read one after another and their packs
  -- handed on, a datagram from there with the number of any of them is ignored and leaves the state
  -- as it is, if the gateway's table had its four places and its index fits a byte.
  pub last_four_known :
      (io io1 io2 io3 io4 : Io) (address gw a b c d s na nb nc nd n : ℕ) (xa xb xc xd body : List ℕ)
      (pa pb pc pd : DataPack)
      → find_gateway inet_addr 4 0 address ≡ some gw
      → HasTable io gw
      → read inet_addr io address (a ∷ na ∷ xa) ≡ (received pa, io1)
      → read inet_addr io1 address (b ∷ nb ∷ xb) ≡ (received pb, io2)
      → read inet_addr io2 address (c ∷ nc ∷ xc) ≡ (received pc, io3)
      → read inet_addr io3 address (d ∷ nd ∷ xd) ≡ (received pd, io4)
      → (s ≡ a) ⊎ (s ≡ b) ⊎ (s ≡ c) ⊎ (s ≡ d)
      → read inet_addr io4 address (s ∷ n ∷ body) ≡ (ignored, io4)
  unfolding read
  last_four_known io io1 io2 io3 io4 address gw a b c d s na nb nc nd n xa xb xc xd body pa pb pc pd
        g h e1 e2 e3 e4 m =
      let known : AllKnown a b c d (io4.recv_sequence_map gw) =
        rw
          (
            read-received io3 io4 address gw d nd xd pd g e4,
            read-received io2 io3 address gw c nc xc pc g e3,
            read-received io1 io2 address gw b nb xb pb g e2,
            read-received io io1 address gw a na xa pa g e1,
          )
          (four_known io gw a b c d h) in
      elim (Bool-cases (length (s ∷ n ∷ body) == 34)) [
        | inl l ↦
            rw (read, l, g)
              (known_ignored io4 gw s n body
                (one_of_four s a b c d (io4.recv_sequence_map gw) m known))
        | inr l ↦ rw (read, l) refl
      ]
