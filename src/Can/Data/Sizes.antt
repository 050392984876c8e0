-- ===== src/Can/Data/Sizes.antt =====
-- Sizes and bytes of the data of pkg/can_smbus/src/core/cs_data.h.
use rmm_2023_pre.Common.{
  ℕ, zero, suc, ◌+◌, ◌*◌, ◌/◌, ◌%◌, ◌^◌, ◌≤◌, ◌<◌, ◌≡◌, refl, ap, ◌∙◌, List, [], ◌∷◌, ◌++◌, length,
  take, drop, arith,
}
use rmm_2023_pre.Can.Data.{
  Data, get_size, little_endian, create_uint32, create_uint16, create_uint8,
}

-- The value of bytes in little-endian order.
pub value_of : List ℕ → ℕ
value_of [] = 0
value_of (b ∷ bs) = b + 256 * value_of bs

length-little_endian : (n v : ℕ) → length (little_endian n v) ≡ n
unfolding little_endian
length-little_endian zero v = refl
length-little_endian (suc n) v = ap suc (length-little_endian n (v / 256))

take-little_endian :
    (n v : ℕ) (rest : List ℕ) → take n (little_endian n v ++ rest) ≡ little_endian n v
unfolding little_endian
take-little_endian zero v rest = refl
take-little_endian (suc n) v rest = ap (λ l. v % 256 ∷ l) (take-little_endian n (v / 256) rest)

unfoldable value_bound : ℕ → ℕ
value_bound zero = 1
value_bound (suc n) = 256 * value_bound n

value_of-little_endian : (n v : ℕ) → v < value_bound n → value_of (little_endian n v) ≡ v
unfolding little_endian value_of value_bound
value_of-little_endian zero v h = omega arith
value_of-little_endian (suc n) v h =
    let ih = value_of-little_endian n (v / 256) (omega arith) in omega (arith, ih)

-- Of a number that is made with a width of 8, 16 or 32 bits, and fits it, as many bytes are sent as
-- it is wide, and their value in little-endian order is the number, whatever the rest of the union
-- holds.
pub create-value :
    (a b c : ℕ) (stack : List ℕ)
    → a < 2 ^ 8
    → b < 2 ^ 16
    → c < 2 ^ 32
    → let sent = λ (d : Data). take (get_size d) d.bytes in
      (value_of (sent (create_uint8 a stack)) ≡ a)
      × (value_of (sent (create_uint16 b stack)) ≡ b)
      × (value_of (sent (create_uint32 c stack)) ≡ c)
unfolding create_uint8 create_uint16 create_uint32 get_size value_bound
create-value a b c stack h k l = (
  ap value_of (take-little_endian 1 a (drop 1 stack)) ∙ value_of-little_endian 1 a (omega arith),
  ap value_of (take-little_endian 2 b (drop 2 stack)) ∙ value_of-little_endian 2 b (omega arith),
  ap value_of (take-little_endian 4 c (drop 4 stack)) ∙ value_of-little_endian 4 c (omega arith),
)

-- Data that a receiver makes of a frame, with the length as its type, is sent again with that length.
pub get_size-length :
    (len : ℕ) (bytes : List ℕ) → len ≤ 4 → get_size (record { type = len; bytes = bytes }) ≡ len
unfolding get_size
get_size-length len bytes h = ground arith
