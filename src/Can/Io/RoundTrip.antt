-- ===== src/Can/Io/RoundTrip.antt =====
-- The datagrams of pkg/can_smbus/src/core/io/cs_io.c, from one side to the other.
use Prim.Native.String.{String}
use rmm_2023_pre.Common.{
  ℕ, zero, suc, ◌+◌, ◌*◌, ◌/◌, ◌%◌, ◌^◌, ◌≤◌, ◌<◌, ◌≡◌, ◌≢◌, refl, ap, inl, inr, true, false, List,
  [], ◌∷◌, ◌++◌, none, some, ◌==◌, ==_iff, length, drop, arith, dec_lt, ◌↔◌, Bool-cases,
  length-append, length-drop,
}
use mathlib.Core.List.{append_assoc}
use rmm_2023_pre.Can.Types.{Frame}
use rmm_2023_pre.Can.Io.{
  DataPack, Io, encode_frame, encode_frames, encode, send, decode_frames, is_known, overrun,
  received, remember, accept, find_gateway, read, str_ips,
}

-- A frame as a `struct CSType_csFrame_t` holds it.
abbrev pub IsFrame : Frame → Type 0
IsFrame f = (f.id < 2 ^ 16) × (length f.bytes ≡ 4)

abbrev pub AreFrames : List Frame → Type 0
AreFrames [] = Unit
AreFrames (f ∷ fs) = IsFrame f × AreFrames fs

decode_one :
    (n id reg len : ℕ) (bytes rest : List ℕ) (fs : List Frame)
    → id < 2 ^ 16
    → length bytes ≡ 4
    → decode_frames n rest ≡ some fs
    → decode_frames (suc n) ((id % 256 ∷ id / 256 ∷ reg ∷ len ∷ bytes) ++ rest)
      ≡ some (record { id = id; reg = reg; len = len; bytes = bytes } ∷ fs)
unfolding decode_frames
decode_one n id reg len [] rest fs h l e = absurd (omega arith)
decode_one n id reg len (a ∷ []) rest fs h l e = absurd (omega arith)
decode_one n id reg len (a ∷ b ∷ []) rest fs h l e = absurd (omega arith)
decode_one n id reg len (a ∷ b ∷ c ∷ []) rest fs h l e = absurd (omega arith)
decode_one n id reg len (a ∷ b ∷ c ∷ d ∷ []) rest fs h l e =
    let i : id % 256 + id / 256 * 256 ≡ id = omega arith in rw (decode_frames, e, i)
decode_one n id reg len (a ∷ b ∷ c ∷ d ∷ x ∷ xs) rest fs h l e = absurd (omega arith)

pub decode-encode :
    (fs : List Frame) (rest : List ℕ)
    → AreFrames fs
    → decode_frames (length fs) (encode_frames fs ++ rest) ≡ some fs
unfolding encode_frames
decode-encode [] rest h = unfold decode_frames in refl
decode-encode (f ∷ fs) rest h = rw (append_assoc (encode_frame f) (encode_frames fs) rest) (
    decode_one (length fs) f.id f.reg f.len f.bytes (encode_frames fs ++ rest) fs h.0.0 h.0.1
      (decode-encode fs rest h.1))

length-encode_frames : (fs : List Frame) → AreFrames fs → length (encode_frames fs) ≡ 8 * length fs
unfolding encode_frames
length-encode_frames [] h = refl
length-encode_frames (f ∷ fs) h =
    omega (arith, length-append (encode_frame f) (encode_frames fs), length-encode_frames fs h.1)

length-encode :
    (sequence : ℕ) (fs : List Frame) (stack : List ℕ)
    → AreFrames fs
    → length fs ≤ 4
    → length stack ≡ 34
    → length (encode sequence fs stack) ≡ 34
unfolding encode
length-encode sequence fs stack h k l = omega (
  arith,
  length-append (encode_frames fs) (drop (2 + 8 * length fs) stack),
  length-encode_frames fs h,
  length-drop (2 + 8 * length fs) stack,
)

accept-encode :
    (io : Io) (gw sequence : ℕ) (fs : List Frame) (stack : List ℕ)
    → AreFrames fs
    → is_known sequence (io.recv_sequence_map gw) ≡ false
    → accept io gw (encode sequence fs stack)
      ≡ (received (record { gw_id = gw; frames = fs }), remember io gw sequence)
unfolding accept encode
accept-encode io gw sequence fs stack h s =
    rw (s, decode-encode fs (drop (2 + 8 * length fs) stack) h)

module _ (inet_addr : String → ℕ) where
  -- The addresses of the four gateways differ.
  abbrev pub Apart : Type 0
  Apart = (i j : ℕ) → i < 4 → j < 4 → inet_addr (str_ips i) ≡ inet_addr (str_ips j) → i ≡ j

  find_gateway_from :
      Apart
      → (n i gw : ℕ) → i ≤ gw
      → gw < i + n
      → i + n ≤ 4
      → find_gateway inet_addr n i (inet_addr (str_ips gw)) ≡ some gw
  unfolding find_gateway
  find_gateway_from apart zero i gw h k l = absurd (omega arith)
  find_gateway_from apart (suc n) i gw h k l =
      elim (Bool-cases (inet_addr (str_ips i) == inet_addr (str_ips gw))) [
        | inl e ↦ rw (e, apart i gw (omega arith) (omega arith) (ground arith))
        | inr e ↦
            let ne : i ≢ gw = λ p. self i gw p e in
            rw (e, find_gateway_from apart n (i + 1) gw (omega arith) (omega arith) (omega arith))
      ]
    where
      self : (i gw : ℕ) → i ≡ gw → inet_addr (str_ips i) == inet_addr (str_ips gw) ≡ false → ⊥
      self i gw p e = ground (arith, ap (λ k. inet_addr (str_ips k)) p)

  pub find_gateway_lem :
      Apart → (gw : ℕ) → gw < 4 → find_gateway inet_addr 4 0 (inet_addr (str_ips gw)) ≡ some gw
  find_gateway_lem apart gw h =
      find_gateway_from apart 4 0 gw (omega arith) (omega arith) (omega arith)

  -- A pack of at most four frames that one side sends is the pack that the other reads, from the
  -- address of the gateway, and its number is remembered, if the addresses of the gateways differ,
  -- the identifiers fit 16 bits, each frame has four bytes, and its number is not among the last
  -- four.
  pub read-send :
      (io peer : Io) (pack : DataPack) (stack : List ℕ)
      → Apart
      → pack.gw_id < 4
      → AreFrames pack.frames
      → length pack.frames ≤ 4
      → length stack ≡ 34
      → is_known (io.send_sequence pack.gw_id) (peer.recv_sequence_map pack.gw_id) ≡ false
      → read inet_addr peer (inet_addr (str_ips pack.gw_id)) (send io pack stack).0
        ≡ (received pack, remember peer pack.gw_id (io.send_sequence pack.gw_id))
  unfolding read send
  read-send io peer pack stack apart g f k l s =
      let size : length (encode (io.send_sequence pack.gw_id) pack.frames stack) == 34 ≡ true =
        (==_iff _ _).1 (length-encode (io.send_sequence pack.gw_id) pack.frames stack f k l) in
      rw (size, find_gateway_lem apart pack.gw_id g)
        (accept-encode peer pack.gw_id (io.send_sequence pack.gw_id) pack.frames stack f s)

decode_frames_short : (n : ℕ) (bytes : List ℕ) → length bytes < 8 * n → decode_frames n bytes ≡ none
unfolding decode_frames
decode_frames_short zero bytes h = absurd (omega arith)
decode_frames_short (suc n) [] h = refl
decode_frames_short (suc n) (a ∷ []) h = refl
decode_frames_short (suc n) (a ∷ b ∷ []) h = refl
decode_frames_short (suc n) (a ∷ b ∷ c ∷ []) h = refl
decode_frames_short (suc n) (a ∷ b ∷ c ∷ d ∷ []) h = refl
decode_frames_short (suc n) (a ∷ b ∷ c ∷ d ∷ e ∷ []) h = refl
decode_frames_short (suc n) (a ∷ b ∷ c ∷ d ∷ e ∷ f ∷ []) h = refl
decode_frames_short (suc n) (a ∷ b ∷ c ∷ d ∷ e ∷ f ∷ g ∷ []) h = refl
decode_frames_short (suc n) (a ∷ b ∷ c ∷ d ∷ e ∷ f ∷ g ∷ i ∷ rest) h =
    rw (decode_frames, decode_frames_short n rest (omega arith))

decode_frames_long :
    (n : ℕ) (bytes : List ℕ)
    → 8 * n ≤ length bytes
    → (fs : List Frame) × (decode_frames n bytes ≡ some fs)
unfolding decode_frames
decode_frames_long zero bytes h = ([], refl)
decode_frames_long (suc n) [] h = absurd (omega arith)
decode_frames_long (suc n) (a ∷ []) h = absurd (omega arith)
decode_frames_long (suc n) (a ∷ b ∷ []) h = absurd (omega arith)
decode_frames_long (suc n) (a ∷ b ∷ c ∷ []) h = absurd (omega arith)
decode_frames_long (suc n) (a ∷ b ∷ c ∷ d ∷ []) h = absurd (omega arith)
decode_frames_long (suc n) (a ∷ b ∷ c ∷ d ∷ e ∷ []) h = absurd (omega arith)
decode_frames_long (suc n) (a ∷ b ∷ c ∷ d ∷ e ∷ f ∷ []) h = absurd (omega arith)
decode_frames_long (suc n) (a ∷ b ∷ c ∷ d ∷ e ∷ f ∷ g ∷ []) h = absurd (omega arith)
decode_frames_long (suc n) (a ∷ b ∷ c ∷ d ∷ e ∷ f ∷ g ∷ i ∷ rest) h =
    let more = decode_frames_long n rest (omega arith) in
    (
      record { id = a + b * 256; reg = c; len = d; bytes = e ∷ f ∷ g ∷ i ∷ [] } ∷ more.0,
      rw (decode_frames, more.1),
    )

-- A datagram of the right size with a number that is not known is read out of bounds exactly when
-- the count in it is above four: `CSIo_read` does not test the count.
pub overrun_iff :
    (io : Io) (gw sequence data_count : ℕ) (body : List ℕ)
    → length body ≡ 32
    → is_known sequence (io.recv_sequence_map gw) ≡ false
    → ((accept io gw (sequence ∷ data_count ∷ body)).0 ≡ overrun) ↔ (4 < data_count)
unfolding accept
overrun_iff io gw sequence data_count body l s = elim (dec_lt 4 data_count) [
  | yes h ↦ rw (s, decode_frames_short data_count body (omega arith)) (λ e. h, λ p. refl)
  | no h ↦
      let d = decode_frames_long data_count body (omega arith) in
      rw (s, d.1) (λ e. cc, λ p. absurd (h p))
]
