-- ===== src/Robomas/M3508/Exchange.antt =====
-- rm_m3508.c: the exchange that sets the coefficients of a motor ends after a bounded number of sends,
-- and an answer counts exactly when it repeats the frame.
use rmm_2023_pre.Common.{
  ℕ, zero, suc, ◌+◌, ◌-◌, ◌≤◌, ◌<◌, ◌≡◌, ◌⊎◌, ap, ◌∙◌, dec_lt, ltb→lt, refl, arith, Bool, true,
  false, Bool-cases, inl, inr, ltb, Option, some, List, take, length, get_elem?, ◌==◌, ◌↔◌, ◌&&◌,
  sym,
}
use rmm_2023_pre.Common.Int.{ℤ}
use rmm_2023_pre.Robomas.Frames.{le_bytes, CoefFrame, coef_bytes, read_coef, advanced_coef_bytes}
use rmm_2023_pre.Robomas.Frames.RoundTrip.{
  AllBytes, AllBytes-take, CoefFits, coef_bytes-read_coef, read_coef-coef_bytes,
}
use rmm_2023_pre.Robomas.M3508.{
  Floats, Robomas, Address, exchange, is_coef_ack, is_advanced_coef_ack, differs,
}
use rmm_2023_pre.Robomas.M3508.Floating.{
  coef_frame, advanced_coef_frame, set_coef, set_advanced_coef,
}

-- How an exchange ends that has failed `n` times: after `k` sends, of which only the last may have
-- been answered, and without an answer only when the limit was passed.
pub record Ends (is_ack : Option (List ℕ) → Bool) (limit n : ℕ) (reply : ℕ → Option (List ℕ))
    (k : ℕ) (b : Bool) : Type 0 where
  pub sends : (n < k) × (k ≤ limit + 2)
  pub last : is_ack (reply (k - 1)) ≡ b
  pub given_up : (b ≡ true) ⊎ (k ≡ limit + 2)
  pub earlier : (j : ℕ) → (j < n) ⊎ (k ≤ j + 1) ⊎ (is_ack (reply j) ≡ false)

Ends-here :
    (is_ack : Option (List ℕ) → Bool) (limit n : ℕ) (reply : ℕ → Option (List ℕ)) (b : Bool)
    → n < limit + 2
    → is_ack (reply n) ≡ b
    → (b ≡ true) ⊎ (limit < n)
    → Ends is_ack limit n reply (suc n) b
Ends-here is_ack limit n reply b h e f = record {
  sends = omega arith;
  last = ap (λ k. is_ack (reply k)) (omega arith) ∙ e;
  given_up = elim f [ inl g ↦ inl g | inr g ↦ inr (omega arith) ];
  earlier = λ j. elim (dec_lt j n) [ yes l ↦ inl l | no l ↦ inr (inl (omega arith)) ];
}

Ends-later :
    (is_ack : Option (List ℕ) → Bool) (limit n : ℕ) (reply : ℕ → Option (List ℕ)) (k : ℕ) (b : Bool)
    → is_ack (reply n) ≡ false
    → Ends is_ack limit (suc n) reply k b
    → Ends is_ack limit n reply k b
Ends-later is_ack limit n reply k b e h = record {
  sends = omega (arith, h.sends);
  last = h.last;
  given_up = h.given_up;
  earlier = λ j. elim (h.earlier j) [
    | inl l ↦ elim (dec_lt j n) [
      | yes m ↦ inl m
      | no m ↦ inr (inr (ap (λ i. is_ack (reply i)) (omega arith) ∙ e))
    ]
    | inr l ↦ inr l
  ];
}

pub exchange-Ends :
    (is_ack : Option (List ℕ) → Bool) (limit fuel n : ℕ) (reply : ℕ → Option (List ℕ))
    → n < limit + 2
    → limit + 2 ≤ fuel + n
    → (k : ℕ) × (b : Bool) × (exchange is_ack limit fuel n reply ≡ some (k, b))
      × Ends is_ack limit n reply k b
unfolding exchange
exchange-Ends is_ack limit zero n reply h l = absurd (omega arith)
exchange-Ends is_ack limit (suc fuel) n reply h l = elim (Bool-cases (is_ack (reply n))) [
  | inl e ↦ (suc n, true, rw e, Ends-here is_ack limit n reply true h e (inl refl))
  | inr e ↦ elim (Bool-cases (ltb limit n)) [
    | inl f ↦
        (suc n, false, rw (e, f), Ends-here is_ack limit n reply false h e (inr (ltb→lt limit n f)))
    | inr f ↦
        let (k, b, g, ends) =
          exchange-Ends is_ack limit fuel (suc n) reply (ground arith) (omega arith) in
        (k, b, rw (e, f, g), Ends-later is_ack limit n reply k b e ends)
  ]
]

coef_ext : (a b : CoefFrame) → a.mot_id ≡ b.mot_id → a.p ≡ b.p → a.i ≡ b.i → a.d ≡ b.d → a ≡ b
coef_ext a b e f g h = ground arith

-- The tests on an answer, as the code makes them.
abbrev coef_test : List ℕ → CoefFrame → CoefFrame → Bool
coef_test received ack conf =
    (length received == 13)
    && (differs ack.mot_id conf.mot_id
          + differs ack.p conf.p
          + differs ack.i conf.i
          + differs ack.d conf.d
        == 0)

coef_test_iff :
    (received : List ℕ) (ack conf : CoefFrame)
    → (coef_test received ack conf ≡ true) ↔ ((length received ≡ 13) × (ack ≡ conf))
coef_test_iff received ack conf = (
  λ e.
      (ground arith, coef_ext ack conf (ground arith) (ground arith) (ground arith) (ground arith)),
  λ h.
      passes received ack conf h.0 (ap (λ f. f.mot_id) h.1) (ap (λ f. f.p) h.1) (ap (λ f. f.i) h.1)
        (ap (λ f. f.d) h.1),
)
  where
    passes :
        (received : List ℕ) (ack conf : CoefFrame)
        → length received ≡ 13
        → ack.mot_id ≡ conf.mot_id
        → ack.p ≡ conf.p
        → ack.i ≡ conf.i
        → ack.d ≡ conf.d
        → coef_test received ack conf ≡ true
    passes received ack conf l e f g h = ground arith

length-coef_bytes : (f : CoefFrame) → length (coef_bytes f) ≡ 13
unfolding coef_bytes le_bytes
length-coef_bytes f = refl

-- Of bytes, a datagram acknowledges a frame of coefficients that fit their fields exactly when its
-- first 13 bytes are the bytes of the frame.
pub is_coef_ack_lem :
    (conf : CoefFrame) (datagram : List ℕ)
    → CoefFits conf
    → AllBytes datagram
    → (is_coef_ack conf (some datagram) ≡ true) ↔ (take 13 datagram ≡ coef_bytes conf)
unfolding is_coef_ack
is_coef_ack_lem conf datagram fits bytes =
    let received = take 13 datagram in
    let test = coef_test_iff received (read_coef received) conf in
    (
      λ e.
          let (size, same) = test.0 e in
          sym (coef_bytes-read_coef received (AllBytes-take 13 datagram bytes) size)
          ∙ ap coef_bytes same,
      λ e.
          test.1
            (ap length e ∙ length-coef_bytes conf, ap read_coef e ∙ read_coef-coef_bytes conf fits),
    )

-- With fuel for three sends, and for five, the exchanges end.
module _ (fl : Floats) where
  -- Setting the coefficients of a motor ends whatever is answered, after at most three sends, and
  -- the advanced ones after at most five: with the first answer that acknowledges the frame, or
  -- with none when that many have failed. Five turns are enough.
  pub set_coef_lem :
      (fuel : ℕ) (r : Robomas) (gw_id : ℕ) (number : ℤ) (p i d : fl.Float) (inverse : Bool)
      (reply : ℕ → Option (List ℕ)) (a : Address)
      → 5 ≤ fuel
      → get_elem? r.conf_send_addr gw_id ≡ some a
      → ((k : ℕ) × (b : Bool) × (set_coef fl fuel r gw_id number p i d reply
            ≡ some (a, coef_bytes (coef_frame fl number p i d), some (k, b)))
          × Ends (is_coef_ack (coef_frame fl number p i d)) 1 0 reply k b)
        × ((k : ℕ) × (b : Bool) × (set_advanced_coef fl fuel r gw_id number p i d inverse reply
              ≡ some (
                a,
                advanced_coef_bytes (advanced_coef_frame fl number p i d inverse),
                some (k, b),
              ))
            × Ends
                (is_advanced_coef_ack (advanced_coef_frame fl number p i d inverse))
                3
                0
                reply
                k
                b)
  unfolding set_coef set_advanced_coef
  set_coef_lem fuel r gw_id number p i d inverse reply a h e =
      let (k, b, f, ends) =
        exchange-Ends (is_coef_ack (coef_frame fl number p i d)) 1 fuel 0 reply (omega arith)
          (omega arith) in
      let (k', b', f', ends') =
        exchange-Ends (is_advanced_coef_ack (advanced_coef_frame fl number p i d inverse)) 3 fuel 0
          reply (omega arith) (omega arith) in
      ((k, b, rw (set_coef, e, f), ends), (k', b', rw (set_advanced_coef, e, f'), ends'))
