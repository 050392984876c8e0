-- ===== src/ObjectParser/MsgpackLoader.antt =====
-- lib/object_parser/src/msgpack/op_msgpack_loader.c: what a client reads of the objects that msgpack-c
-- unpacks, which is a parameter. A token points at an object, which no call changes or moves, so it
-- is the object. A text is its size and the bytes that the memory has from its pointer on. A result
-- `none` is SABOOL_FALSE; where a call may read or write out of bounds, that is the outer `none`.
pub mod Integers
pub mod Texts
mod Tests
use rmm_2023_pre.Common.{
  ℕ, zero, suc, ◌-◌, ◌≤◌, Bool, true, false, Option, none, some, List, [], ◌∷◌, ◌++◌, length, take,
  ltb, leb, ◌==◌, ◌&&◌, if◌then◌else◌, bytes_eq, sub_size, not,
}
use rmm_2023_pre.Common.Int.{ℤ, pos, negsuc, to_word, of_word}
use rmm_2023_pre.ObjectParser.Jsmn.{eq_ℤ}
use rmm_2023_pre.ObjectParser.JsonLoader.{ObjectType}

mutual
  -- `msgpack_object`: the union is what its type says. Reals are the bits of a double.
  pub data Object : Type 0 where
    nil : Object
    boolean : ℕ → Object
    positive : ℕ → Object
    negative : ℤ → Object
    float32 : ℕ → Object
    float64 : ℕ → Object
    str : ℕ → List ℕ → Object
    array : Objects → Object
    map : Pairs → Object
    bin : ℕ → List ℕ → Object
    ext : Object

  pub data Objects : Type 0 where
    no_items : Objects
    one_item : Object → Objects → Objects

  pub data Pairs : Type 0 where
    no_pairs : Pairs
    one_pair : Object → Object → Pairs → Pairs

-- MSGPACK_UNPACK_SUCCESS is 2.
pub load : (List ℕ → ℤ × Object) → List ℕ → Bool × Object
load msgpack_unpack stream =
    let (res, root_obj) = msgpack_unpack stream in (eq_ℤ res (pos 2), root_obj)

pub get_root : Object → Object
get_root root_obj = root_obj

pub get_type : Object → ObjectType
get_type (array items) = ObjectType.array
get_type (map pairs) = ObjectType.dictionary
get_type (boolean b) = ObjectType.bool
get_type (float32 x) = ObjectType.real
get_type (float64 x) = ObjectType.real
get_type (positive n) = ObjectType.int
get_type (negative n) = ObjectType.int
get_type (bin size bytes) = ObjectType.bin
get_type (str size bytes) = ObjectType.str
get_type nil = ObjectType.null
get_type ext = ObjectType.null

unfoldable pub count_items : Objects → ℕ
count_items no_items = 0
count_items (one_item x xs) = suc (count_items xs)

unfoldable pub count_pairs : Pairs → ℕ
count_pairs no_pairs = 0
count_pairs (one_pair k v ps) = suc (count_pairs ps)

unfoldable pub item_at : Objects → ℕ → Option Object
item_at no_items i = none
item_at (one_item x xs) zero = some x
item_at (one_item x xs) (suc i) = item_at xs i

unfoldable pub pair_at : Pairs → ℕ → Option (Object × Object)
pair_at no_pairs i = none
pair_at (one_pair k v ps) zero = some (k, v)
pair_at (one_pair k v ps) (suc i) = pair_at ps i

pub dictionary_get_count : Object → Option ℕ
dictionary_get_count (map pairs) = some (count_pairs pairs)
dictionary_get_count token = none

-- `memcmp` on as many bytes as the wanted key has. The pointer of a key that is no text is another
-- member of the union.
pub is_key : Object → List ℕ → Option Bool
is_key (str size bytes) key =
    if leb (length key) (length bytes) then some (bytes_eq (take (length key) bytes) key) else none
is_key other key = none

pub find_key : Pairs → List ℕ → Option (Option Object)
unfolding is_key
find_key no_pairs key = some none
find_key (one_pair k v ps) key =
    let rest = find_key ps key in
    elim (is_key k key) [ none ↦ none | some same ↦ if same then some (some v) else rest ]

pub dictionary_get : Object → List ℕ → Option (Option Object)
unfolding find_key
dictionary_get (map pairs) key = find_key pairs key
dictionary_get token key = some none

-- At most 127 bytes of the key are copied, and a NUL.
pub key_out : Object → Option (List ℕ)
key_out (str size bytes) =
    let key_len = if leb 128 size then 127 else size in
    if leb key_len (length bytes) then some (take key_len bytes ++ (0 ∷ [])) else none
key_out other = none

pub dictionary_get_at_index : Object → ℕ → Option (Option (List ℕ × Object))
unfolding key_out
dictionary_get_at_index (map pairs) dic_index = elim (pair_at pairs dic_index) [
  | none ↦ some none
  | some (k, v) ↦ elim (key_out k) [ none ↦ none | some text ↦ some (some (text, v)) ]
]
dictionary_get_at_index token dic_index = some none

pub array_get_count : Object → Option ℕ
array_get_count (array items) = some (count_items items)
array_get_count token = none

-- The size is read as that of a map, which is at the same place in the union.
pub array_get : Object → ℕ → Option Object
array_get (array items) ar_index = item_at items ar_index
array_get token ar_index = none

pub int_get_signed : Object → Option ℤ
int_get_signed (positive n) = some (of_word 64 n)
int_get_signed (negative n) = some n
int_get_signed token = none

pub int_get_unsigned : Object → Option ℕ
int_get_unsigned (positive n) = some n
int_get_unsigned (negative n) = some (to_word 64 n)
int_get_unsigned token = none

-- The conversion of a double to a float is a parameter.
pub real_get_float : (ℕ → ℕ) → Object → Option ℕ
real_get_float narrow (float32 x) = some (narrow x)
real_get_float narrow (float64 x) = some (narrow x)
real_get_float narrow token = none

pub real_get_double : Object → Option ℕ
real_get_double (float32 x) = some x
real_get_double (float64 x) = some x
real_get_double token = none

pub bool_get : Object → Option Bool
bool_get (boolean b) = some (not (b == 0))
bool_get token = none

pub string_get_len : Object → Option ℕ
string_get_len (str size bytes) = some size
string_get_len token = none

-- What is written to `buff_out`, of `copy_len` bytes, and the length. `copy_len - 1` is of `size_t`.
pub string_get : Object → ℕ → Option (Option (List ℕ × ℕ))
string_get (str size bytes) copy_len =
    let len = if leb copy_len size then sub_size copy_len 1 else size in
    if ltb len copy_len && leb len (length bytes)
    then some (some (take len bytes ++ (0 ∷ []), len))
    else none
string_get token copy_len = some none

-- The bytes that the pointer points at.
pub string_get_raw : Object → Option (List ℕ)
string_get_raw (str size bytes) = some bytes
string_get_raw token = none

pub binary_get_len : Object → Option ℕ
binary_get_len (bin size bytes) = some size
binary_get_len token = none

pub binary_get : Object → ℕ → Option (Option (List ℕ × ℕ))
binary_get (bin size bytes) copy_len =
    let len = if leb copy_len size then copy_len else size in
    if leb len (length bytes) then some (some (take len bytes, len)) else none
binary_get token copy_len = some none

-- The type that is tested is that of a text.
pub binary_get_raw : Object → Option (List ℕ)
binary_get_raw (str size bytes) = some bytes
binary_get_raw token = none
