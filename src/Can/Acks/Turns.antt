-- ===== src/Can/Acks/Turns.antt =====
-- How often the loop of pkg/can_smbus/src/core/cs_send_ack.c and cs_request.c sends, and what answer
-- ends it.
use rmm_2023_pre.Common.{
  ℕ, zero, suc, ◌+◌, ◌%◌, ◌^◌, ◌≤◌, ◌<◌, ◌≡◌, refl, ap, ◌∙◌, Bool, true, false, List, [], ◌∷◌,
  arith, take,
}
use rmm_2023_pre.Can.Tx.{Tx, normal, send_reg_ack}
use rmm_2023_pre.Can.Data.{Data, get_size}
use rmm_2023_pre.Can.Acks.{CallbackArg, sum_loop, Wait, is_hit, send_loop, SendAck, send}

pub sum : List ℕ → ℕ
sum [] = 0
sum (b ∷ bs) = b + sum bs

pub repeat : ℕ → (Tx → Tx) → Tx → Tx
repeat zero f tx = tx
repeat (suc n) f tx = repeat n f (f tx)

sum_loop_lem : (bs : List ℕ) (h : ℕ) → h < 2 ^ 8 → sum_loop bs h ≡ (h + sum bs) % 2 ^ 8
unfolding sum_loop sum
sum_loop_lem [] h k = omega arith
sum_loop_lem (b ∷ bs) h k = sum_loop_lem bs ((h + b) % 2 ^ 8) (omega arith) ∙ omega arith

-- What the loop does from round `i` on if its first hit is `k` rounds later, and if it has none.
send_loop-hit :
    (send_one : Tx → Tx) (info : CallbackArg) (waits : ℕ → Wait) (n i k : ℕ) (tx : Tx)
    → k < n
    → ((j : ℕ) → i ≤ j → j < i + k → is_hit info (waits j) ≡ false)
    → is_hit info (waits (i + k)) ≡ true
    → send_loop send_one info waits n i tx ≡ (repeat (suc k) send_one tx, true)
unfolding send_loop repeat
send_loop-hit send_one info waits zero i k tx h m e = absurd (omega arith)
send_loop-hit send_one info waits (suc n) i zero tx h m e =
    let now : is_hit info (waits i) ≡ true = ap (λ j. is_hit info (waits j)) (omega arith) ∙ e in
    rw now refl
send_loop-hit send_one info waits (suc n) i (suc k) tx h m e =
    let now : is_hit info (waits i) ≡ false = m i (omega arith) (omega arith) in
    let at : i + 1 + k ≡ i + suc k = omega arith in
    rw now (
      send_loop-hit send_one info waits n (i + 1) k (send_one tx) (omega arith)
        (λ j a b. m j (omega arith) (omega arith)) (ap (λ j. is_hit info (waits j)) at ∙ e))

send_loop-miss :
    (send_one : Tx → Tx) (info : CallbackArg) (waits : ℕ → Wait) (n i : ℕ) (tx : Tx)
    → ((j : ℕ) → i ≤ j → j < i + n → is_hit info (waits j) ≡ false)
    → send_loop send_one info waits n i tx ≡ (repeat n send_one tx, false)
unfolding send_loop repeat
send_loop-miss send_one info waits zero i tx m = refl
send_loop-miss send_one info waits (suc n) i tx m =
    let now : is_hit info (waits i) ≡ false = m i (omega arith) (omega arith) in
    rw now (
      send_loop-miss send_one info waits n (i + 1) (send_one tx)
        (λ j a b. m j (omega arith) (omega arith)))

-- What the callback of an object is given to compare with while its data is sent.
abbrev pub sent_arg : SendAck → Data → CallbackArg
sent_arg obj d = record {
  reg = obj.arg.reg;
  len = get_size d;
  hash = sum (take (get_size d) d.bytes) % 2 ^ 8;
}

abbrev pub send_one : SendAck → Data → Tx → Tx
send_one obj d tx = send_reg_ack tx obj.gw_id obj.id obj.reg (get_size d) d.bytes normal obj.channel

sent_arg_loop :
    (obj : SendAck) (d : Data)
    → record { reg = obj.arg.reg; len = get_size d; hash = sum_loop (take (get_size d) d.bytes) 0 }
      ≡ sent_arg obj d
sent_arg_loop obj d =
    let h : sum_loop (take (get_size d) d.bytes) 0 ≡ sum (take (get_size d) d.bytes) % 2 ^ 8 =
      sum_loop_lem (take (get_size d) d.bytes) 0 (omega arith) ∙ omega arith in
    ap (λ n. record { reg = obj.arg.reg; len = get_size d; hash = n }) h

send_of_loop :
    (obj : SendAck) (tx : Tx) (d : Data) (waits : ℕ → Wait) (r : Tx × Bool)
    → send_loop (send_one obj d) (sent_arg obj d) waits 5 0 tx ≡ r
    → send obj tx d waits ≡ (record obj { arg = sent_arg obj d }, r.0, r.1)
unfolding send
send_of_loop obj tx d waits r e =
    ap
      (λ (a : CallbackArg).
        let l = send_loop (send_one obj d) a waits 5 0 tx in (record obj { arg = a }, l.0, l.1))
      (sent_arg_loop obj d)
    ∙ ap (λ (l : Tx × Bool). (record obj { arg = sent_arg obj d }, l.0, l.1)) e

-- If the first wait that is a hit is one of the five, the frame is sent once for each wait up to
-- it, and `CSSendAck_send` succeeds; the hash that acknowledgements are compared with is the sum of
-- the bytes that are sent, modulo 256.
pub send-hit :
    (obj : SendAck) (tx : Tx) (d : Data) (waits : ℕ → Wait) (k : ℕ)
    → k < 5
    → ((j : ℕ) → j < k → is_hit (sent_arg obj d) (waits j) ≡ false)
    → is_hit (sent_arg obj d) (waits k) ≡ true
    → send obj tx d waits
      ≡ (record obj { arg = sent_arg obj d }, repeat (suc k) (send_one obj d) tx, true)
send-hit obj tx d waits k h m e =
    send_of_loop obj tx d waits (repeat (suc k) (send_one obj d) tx, true)
      (send_loop-hit (send_one obj d) (sent_arg obj d) waits 5 0 k tx h
        (λ j a b. m j (omega (arith, b)))
        (ap (λ j. is_hit (sent_arg obj d) (waits j)) (omega arith) ∙ e))

-- If none of the five waits is a hit, the frame is sent five times and `CSSendAck_send` fails.
pub send-miss :
    (obj : SendAck) (tx : Tx) (d : Data) (waits : ℕ → Wait)
    → ((j : ℕ) → j < 5 → is_hit (sent_arg obj d) (waits j) ≡ false)
    → send obj tx d waits
      ≡ (record obj { arg = sent_arg obj d }, repeat 5 (send_one obj d) tx, false)
send-miss obj tx d waits m =
    send_of_loop obj tx d waits (repeat 5 (send_one obj d) tx, false)
      (send_loop-miss (send_one obj d) (sent_arg obj d) waits 5 0 tx
        (λ j a b. m j (omega (arith, b))))
