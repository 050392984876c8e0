-- ===== src/ObjectParser/MsgpackLoader/Texts.antt =====
-- op_msgpack_loader.c: texts as they are copied, and keys as they are found.
use rmm_2023_pre.Common.{
  ℕ, ◌-◌, ◌^◌, ◌≤◌, ◌<◌, ◌≡◌, refl, arith, none, some, List, [], ◌∷◌, ◌++◌, length, length-append,
  take, leb, ltb, ◌&&◌, if◌then◌else◌, sub_size, true, bytes_eq_refl,
}
use rmm_2023_pre.Std.Buffer.Splice.{take-length}
use rmm_2023_pre.ObjectParser.MsgpackLoader.{
  Object, str, map, Pairs, one_pair, string_get, is_key, find_key, dictionary_get,
}

-- The part of a text that fits a room with its NUL.
abbrev pub shown : ℕ → ℕ → ℕ
shown size room = if ltb size room then size else room - 1

chosen :
    (size room : ℕ)
    → 0 < room
    → room < 2 ^ 64
    → (if leb room size then sub_size room 1 else size) ≡ shown size room
chosen size room h k = ground arith

shown_fits :
    (size room l : ℕ)
    → 0 < room
    → size ≤ l
    → (ltb (shown size room) room && leb (shown size room) l) ≡ true
shown_fits size room l h k = ground arith

enough : (key x : List ℕ) → leb (length key) (length (key ++ x)) ≡ true
enough key x = ground (arith, length-append key x)

-- Of a text whose bytes are there, `OPMsgpackLoader_string_get` writes as much as fits a room that
-- is not empty, with its NUL, stays within the room, and tells how many bytes those are.
pub string_get_lem :
    (size room : ℕ) (bytes : List ℕ)
    → 0 < room
    → room < 2 ^ 64
    → size ≤ length bytes
    → string_get (str size bytes) room
      ≡ some (some (take (shown size room) bytes ++ (0 ∷ []), shown size room))
unfolding string_get
string_get_lem size room bytes h k l =
    rw (string_get, chosen size room h k, shown_fits size room (length bytes) h l)

-- The room of no bytes is overrun.
string_get_no_room :
    (size : ℕ) (bytes : List ℕ) → length bytes < 2 ^ 64 - 1 → string_get (str size bytes) 0 ≡ none
unfolding string_get
string_get_no_room size bytes h = ground arith

is_key-prefix : (key x : List ℕ) (size : ℕ) → is_key (str size (key ++ x)) key ≡ some true
unfolding is_key
is_key-prefix key x size =
    rw (enough key x, take-length (length key) key x refl, bytes_eq_refl key) refl

-- A dictionary is read by a part of a key's start, too.
pub dictionary_get-prefix :
    (key x : List ℕ) (size : ℕ) (v : Object) (ps : Pairs)
    → dictionary_get (map (one_pair (str size (key ++ x)) v ps)) key ≡ some (some v)
unfolding dictionary_get find_key
dictionary_get-prefix key x size v ps = rw (dictionary_get, find_key, is_key-prefix key x size) refl
