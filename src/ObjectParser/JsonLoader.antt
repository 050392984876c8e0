-- ===== src/ObjectParser/JsonLoader.antt =====
-- lib/object_parser/src/json/op_json_loader.c, with the types of op_type.h: what a client reads of a
-- text of JSON. A token that is handed out is a pointer into a growing buffer, which may move when a
-- token is added; `heap` is where it is afterwards. The outer `none` of a result is a read past an
-- array or through a pointer into memory that was given back, the inner one is SABOOL_FALSE.
pub mod Pointers
pub mod Types
mod Tests
use rmm_2023_pre.Common.{
  ℕ, ◌+◌, Bool, Option, none, some, List, [], ◌∷◌, ◌++◌, ◌==◌, if◌then◌else◌, length, get_elem?,
}
use rmm_2023_pre.Common.Int.{ℤ, to_word}
use rmm_2023_pre.ObjectParser.Jsmn
use rmm_2023_pre.ObjectParser.Jsmn.{Jsmn, Tok, Range, JsmnType, json_type}

-- `OPType_objectType_t`.
pub data ObjectType : Type 0 where
  null : ObjectType
  bool : ObjectType
  int : ObjectType
  real : ObjectType
  str : ObjectType
  array : ObjectType
  dictionary : ObjectType
  bin : ObjectType

abbrev pub object_code : ObjectType → ℕ
object_code null = 0
object_code bool = 1
object_code int = 2
object_code real = 3
object_code str = 4
object_code array = 5
object_code dictionary = 6
object_code bin = 7

-- `struct OPJsonLoader_info_t`, with the address of the buffer of tokens.
pub record Loader : Type 0 where
  pub jsmn_if : Jsmn
  pub base : ℕ
  pub token_buff : List Range

-- `OPType_token_t`.
pub record Token : Type 0 where
  pub buffer : ℕ
  pub place : ℕ

pub deref : Loader → Token → Option Range
deref obj token = if token.buffer == obj.base then get_elem? obj.token_buff token.place else none

pub add_token : Loader → ℕ → Range → Token × Loader
add_token obj heap range = (
  record { buffer = heap; place = length obj.token_buff },
  record { jsmn_if = obj.jsmn_if; base = heap; token_buff = obj.token_buff ++ (range ∷ []) },
)

pub load : (List ℕ → ℤ × List Tok) → ℕ → List ℕ → Bool × Loader
load jsmn_parse heap stream =
    let (is_success, jsmn_if) = Jsmn.parse jsmn_parse stream in
    (is_success, record { jsmn_if = jsmn_if; base = heap; token_buff = [] })

pub get_root : Loader → ℕ → Token × Loader
unfolding add_token
get_root obj heap = add_token obj heap (Jsmn.get_root obj.jsmn_if)

pub type_of : JsmnType → ObjectType
type_of JsmnType.array = array
type_of JsmnType.object = dictionary
type_of JsmnType.true_literal = bool
type_of JsmnType.false_literal = bool
type_of JsmnType.double = real
type_of JsmnType.int = int
type_of JsmnType.string = str
type_of JsmnType.undefined = null
type_of JsmnType.key = null

pub get_type : Loader → Token → Option ObjectType
unfolding deref type_of
get_type obj token = elim (deref obj token) [
  | none ↦ none
  | some range ↦ elim (json_type obj.jsmn_if range) [ none ↦ none | some t ↦ some (type_of t) ]
]

-- The test of the type that every getter starts with.
pub checked {ℓ} :
    {R : Type ℓ} → ObjectType → (Range → Option (Option R)) → Loader → Token → Option (Option R)
unfolding get_type
checked wanted read obj token = elim (get_type obj token) [
  | none ↦ none
  | some type ↦
      if object_code type == object_code wanted
      then elim (deref obj token) [ none ↦ none | some range ↦ read range ]
      else some none
]

-- A token that was found is added to the buffer.
abbrev pub adding : Loader → ℕ → Option (Option Range) → Option (Option (Token × Loader))
adding obj heap none = none
adding obj heap (some none) = some none
adding obj heap (some (some range)) = some (some (add_token obj heap range))

pub dictionary_get_count : Loader → Token → Option (Option ℕ)
unfolding checked
dictionary_get_count obj = checked dictionary (Jsmn.dictionary_count obj.jsmn_if) obj

pub dictionary_get : Loader → ℕ → Token → List ℕ → Option (Option (Token × Loader))
unfolding checked add_token
dictionary_get obj heap token key =
    checked dictionary (λ range. adding obj heap (Jsmn.get_dictionary obj.jsmn_if range key)) obj
      token

-- The key, the token and the loader.
pub dictionary_get_at_index : Loader → ℕ → Token → ℕ → Option (Option (List ℕ × Token × Loader))
unfolding checked add_token
dictionary_get_at_index obj heap token dic_index =
    checked dictionary
      (λ range. elim (Jsmn.get_dictionary_at_index obj.jsmn_if range dic_index) [
        | none ↦ none
        | some found ↦ some (elim found [
          | none ↦ none
          | some (key, out) ↦ let (p, next) = add_token obj heap out in some (key, p, next)
        ])
      ])
      obj token

pub array_get_count : Loader → Token → Option (Option ℕ)
unfolding checked
array_get_count obj = checked array (Jsmn.array_count obj.jsmn_if) obj

pub array_get : Loader → ℕ → Token → ℕ → Option (Option (Token × Loader))
unfolding checked add_token
array_get obj heap token ar_index =
    checked array (λ range. adding obj heap (Jsmn.get_array obj.jsmn_if range ar_index)) obj token

pub int_get_signed : (List ℕ → ℤ) → Loader → Token → Option (Option ℤ)
unfolding checked
int_get_signed atol obj = checked int (Jsmn.parse_as_long atol obj.jsmn_if) obj

-- The number is read as a `long`, too.
pub int_get_unsigned : (List ℕ → ℤ) → Loader → Token → Option (Option ℕ)
unfolding checked
int_get_unsigned atol obj =
    checked int
      (λ range. elim (Jsmn.parse_as_long atol obj.jsmn_if range) [
        | none ↦ none
        | some value ↦ some (elim value [ none ↦ none | some n ↦ some (to_word 64 n) ])
      ])
      obj

module _ {Float Double : Type 0} (atof : List ℕ → Double) (narrow : Double → Float) where
  pub real_get_double : Loader → Token → Option (Option Double)
  unfolding checked
  real_get_double obj = checked real (Jsmn.parse_as_double atof obj.jsmn_if) obj

  pub real_get_float : Loader → Token → Option (Option Float)
  unfolding checked
  real_get_float obj =
      checked real
        (λ range. elim (Jsmn.parse_as_double atof obj.jsmn_if range) [
          | none ↦ none
          | some value ↦ some (elim value [ none ↦ none | some x ↦ some (narrow x) ])
        ])
        obj

pub bool_get : Loader → Token → Option (Option Bool)
unfolding checked
bool_get obj = checked bool (Jsmn.parse_as_boolean obj.jsmn_if) obj

pub string_get_len : Loader → Token → Option (Option ℕ)
unfolding checked
string_get_len obj = checked str (Jsmn.string_len obj.jsmn_if) obj

pub string_get : Loader → Token → ℕ → Option (Option (List ℕ × ℕ))
unfolding checked
string_get obj token copy_len =
    checked str (λ range. Jsmn.parse_as_string obj.jsmn_if range copy_len) obj token

pub string_get_raw : Loader → Token → Option (Option ℕ)
unfolding checked
string_get_raw obj = checked str (Jsmn.get_string_raw obj.jsmn_if) obj
