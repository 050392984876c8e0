-- ===== src/ObjectParser/Jsmn.antt =====
-- lib/object_parser/src/json/jsmn/jsmn_interface.c: values found among the tokens of a text of JSON.
-- The parser jsmn itself, and `atoi`, `atol`, `atof`, are parameters. The outer `none` of a result is
-- a read or write past an array, the inner one a value of another type, or none.
pub mod Trees
pub mod Access
pub mod Keys
pub mod Strings
mod Tests
use rmm_2023_pre.Common.{
  ℕ, zero, suc, ◌+◌, ◌-◌, ◌^◌, Bool, true, false, ◌&&◌, Option, none, some, List, [], ◌∷◌, ◌++◌,
  ltb, leb, ◌==◌, if◌then◌else◌, length, get_elem?, take, drop, sub_size, bytes_eq,
}
use rmm_2023_pre.Common.Int.{ℤ, pos, negsuc, ltb_ℤ, leb_ℤ}

-- `jsmntype_t`.
pub data JsmnType : Type 0 where
  undefined : JsmnType
  object : JsmnType
  array : JsmnType
  string : JsmnType
  int : JsmnType
  double : JsmnType
  false_literal : JsmnType
  true_literal : JsmnType
  key : JsmnType

abbrev pub type_code : JsmnType → ℕ
type_code undefined = 0
type_code object = 1
type_code array = 2
type_code string = 3
type_code int = 4
type_code double = 5
type_code false_literal = 6
type_code true_literal = 7
type_code key = 8

abbrev pub is_type : JsmnType → JsmnType → Bool
is_type a b = type_code a == type_code b

-- `jsmntok_t`, of a text that was parsed; -1 is the parent of the root.
pub record Tok : Type 0 where
  pub type : JsmnType
  pub start : ℕ
  pub end : ℕ
  pub parent : ℤ

-- `struct JsmnInterface_t`: the tokens, and the copy of the text with its NUL.
pub record Jsmn : Type 0 where
  pub tokens : List Tok
  pub js : List ℕ

-- `struct JsmnInterface_token_t`.
pub record Range : Type 0 where
  pub index_start : ℕ
  pub count : ℕ

-- The parser gives a code, negative for an error, and its tokens.
pub parse : (List ℕ → ℤ × List Tok) → List ℕ → Bool × Jsmn
parse jsmn_parse js =
    let (code, tokens) = jsmn_parse js in
    (leb_ℤ (pos 0) code, record { tokens = tokens; js = js ++ (0 ∷ []) })

pub get_root : Jsmn → Range
get_root obj = record { index_start = 0; count = length obj.tokens }

abbrev pub eq_ℤ : ℤ → ℤ → Bool
eq_ℤ a b = leb_ℤ a b && leb_ℤ b a

-- How many tokens come before the first whose parent is at most `parent`.
pub leading : ℤ → List Tok → ℕ
leading parent [] = 0
leading parent (t ∷ ts) =
    let rest = suc (leading parent ts) in if leb_ℤ t.parent parent then 0 else rest

-- `JsmnInterface_searchTokCurRange`: the token and those below it.
pub search_tok_cur_range : Jsmn → ℕ → Option Range
search_tok_cur_range obj index = elim (get_elem? obj.tokens index) [
  | none ↦ none
  | some t ↦
      some (record {
        index_start = index;
        count = suc (leading t.parent (drop (suc index) obj.tokens));
      })
]

unfoldable pub json_type : Jsmn → Range → Option JsmnType
json_type obj token = elim (get_elem? obj.tokens token.index_start) [
  | none ↦ none
  | some t ↦ some t.type
]

-- The tokens of a range, which the loops walk.
abbrev pub window : Jsmn → Range → List Tok
window obj token = take token.count (drop token.index_start obj.tokens)

abbrev pub token_text : Jsmn → Tok → List ℕ
token_text obj t = take (t.end - t.start) (drop t.start obj.js)

-- The loop over a range that stops at the child number `wanted`, and the one that stops at a key.
pub find_child : ℤ → ℕ → ℕ → ℕ → List Tok → Option (ℕ × Tok)
find_child parent wanted count i [] = none
find_child parent wanted count i (t ∷ ts) =
    let other = find_child parent wanted count (suc i) ts in
    let next = find_child parent wanted (suc count) (suc i) ts in
    if eq_ℤ t.parent parent then if count == wanted then some (i, t) else next else other

pub find_key : Jsmn → ℤ → List ℕ → ℕ → List Tok → Option ℕ
find_key obj parent name i [] = none
find_key obj parent name i (t ∷ ts) =
    let next = find_key obj parent name (suc i) ts in
    if eq_ℤ t.parent parent
      && ((length name == t.end - t.start) && bytes_eq (token_text obj t) name)
    then some i
    else next

pub count_children : ℤ → List Tok → ℕ
count_children parent [] = 0
count_children parent (t ∷ ts) = (if eq_ℤ t.parent parent then 1 else 0) + count_children parent ts

-- A range of which a loop reads every token must lie in the array.
abbrev pub is_whole : Jsmn → Range → Bool
is_whole obj token = length (window obj token) == token.count

-- What a loop that found nothing gives.
abbrev pub not_found : {R : Type 0} → Jsmn → Range → Option (Option R)
not_found obj token = if is_whole obj token then some none else none

pub get_dictionary : Jsmn → Range → List ℕ → Option (Option Range)
unfolding json_type
get_dictionary obj token name = elim (json_type obj token) [
  | none ↦ none
  | some type ↦
      if is_type type object
      then elim (find_key obj (pos token.index_start) name token.index_start (window obj token)) [
        | none ↦ not_found obj token
        | some i ↦ elim (search_tok_cur_range obj (suc i)) [
          | none ↦ none
          | some range ↦ some (some range)
        ]
      ]
      else some none
]

-- The key is copied, with no test on the room for it.
pub get_dictionary_at_index : Jsmn → Range → ℕ → Option (Option (List ℕ × Range))
unfolding json_type
get_dictionary_at_index obj token dic_index = elim (json_type obj token) [
  | none ↦ none
  | some type ↦
      if is_type type object
      then elim (find_child (pos token.index_start) dic_index 0 token.index_start
          (window obj token)) [
            | none ↦ not_found obj token
            | some (i, t) ↦ elim (search_tok_cur_range obj (suc i)) [
              | none ↦ none
              | some range ↦ some (some (token_text obj t, range))
            ]
          ]
      else some none
]

-- The two functions that count differ in the type.
pub count_of : JsmnType → Jsmn → Range → Option (Option ℕ)
unfolding json_type
count_of wanted obj token = elim (json_type obj token) [
  | none ↦ none
  | some type ↦
      if is_type type wanted
      then if is_whole obj token
        then some (some (count_children (pos token.index_start) (window obj token)))
        else none
      else some none
]

pub dictionary_count : Jsmn → Range → Option (Option ℕ)
unfolding count_of
dictionary_count = count_of object

pub array_count : Jsmn → Range → Option (Option ℕ)
unfolding count_of
array_count = count_of array

pub get_array : Jsmn → Range → ℕ → Option (Option Range)
unfolding json_type
get_array obj token index = elim (json_type obj token) [
  | none ↦ none
  | some type ↦
      if is_type type array
      then elim (find_child (pos token.index_start) index 0 token.index_start (window obj token)) [
        | none ↦ not_found obj token
        | some (i, t) ↦ elim (search_tok_cur_range obj i) [
          | none ↦ none
          | some range ↦ some (some range)
        ]
      ]
      else some none
]

-- A token alone, of a type: the functions that read a value start so.
pub single : JsmnType → Jsmn → Range → Option (Option Tok)
single wanted obj token =
    if token.count == 1
    then elim (get_elem? obj.tokens token.index_start) [
      | none ↦ none
      | some t ↦ some (if is_type t.type wanted then some t else none)
    ]
    else some none

-- A text of digits is ended by a NUL for the conversion, and put back.
pub parse_as : {R : Type 0} → JsmnType → (List ℕ → R) → Jsmn → Range → Option (Option R)
parse_as wanted convert obj token = elim (single wanted obj token) [
  | none ↦ none
  | some found ↦ some (elim found [ none ↦ none | some t ↦ some (convert (token_text obj t)) ])
]

pub parse_as_int : (List ℕ → ℤ) → Jsmn → Range → Option (Option ℤ)
unfolding parse_as
parse_as_int atoi = parse_as int atoi

pub parse_as_long : (List ℕ → ℤ) → Jsmn → Range → Option (Option ℤ)
unfolding parse_as
parse_as_long atol = parse_as int atol

pub parse_as_double : {Double : Type 0} → (List ℕ → Double) → Jsmn → Range → Option (Option Double)
unfolding parse_as
parse_as_double atof = parse_as double atof

pub parse_as_boolean : Jsmn → Range → Option (Option Bool)
parse_as_boolean obj token =
    if token.count == 1
    then elim (get_elem? obj.tokens token.index_start) [
      | none ↦ none
      | some t ↦ some (
          if is_type t.type true_literal
          then some true
          else if is_type t.type false_literal
          then some false
          else none)
    ]
    else some none

pub string_len : Jsmn → Range → Option (Option ℕ)
string_len obj token = elim (single string obj token) [
  | none ↦ none
  | some found ↦ some (elim found [ none ↦ none | some t ↦ some (t.end - t.start) ])
]

-- `copy_len` is the room of the caller: the bytes, their NUL and the number of bytes. The number is
-- one less than what was chosen, in `size_t` arithmetic.
pub copy_text : Jsmn → Tok → ℕ → Option (Option (List ℕ × ℕ))
copy_text obj t copy_len =
    let len = t.end - t.start in
    let copied = sub_size (if ltb (len + 1) copy_len then len else copy_len) 1 in
    if ltb copied copy_len && leb (t.start + copied) (length obj.js)
    then some (some (take copied (drop t.start obj.js) ++ (0 ∷ []), copied))
    else none

pub parse_as_string : Jsmn → Range → ℕ → Option (Option (List ℕ × ℕ))
unfolding copy_text
parse_as_string obj token copy_len = elim (single string obj token) [
  | none ↦ none
  | some found ↦ elim found [ none ↦ some none | some t ↦ copy_text obj t copy_len ]
]

-- The place of the text in the copy.
pub get_string_raw : Jsmn → Range → Option (Option ℕ)
get_string_raw obj token = elim (single string obj token) [
  | none ↦ none
  | some found ↦ some (elim found [ none ↦ none | some t ↦ some t.start ])
]
