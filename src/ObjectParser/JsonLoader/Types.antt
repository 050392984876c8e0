-- ===== src/ObjectParser/JsonLoader/Types.antt =====
-- op_json_loader.c: the getters against the tree that a token points at.
use rmm_2023_pre.Common.{ℕ, ◌≡◌, ◌⊎◌, refl, subst, inl, inr, Option, none, some, List}
use rmm_2023_pre.Common.Int.{ℤ}
use rmm_2023_pre.ObjectParser.Jsmn
use rmm_2023_pre.ObjectParser.Jsmn.{JsmnType, Range}
use rmm_2023_pre.ObjectParser.Jsmn.Trees.{Nodes, node, Holds, range_of}
use rmm_2023_pre.ObjectParser.Jsmn.Access.{type_at}
use rmm_2023_pre.ObjectParser.JsonLoader.{
  ObjectType, null, bool, int, real, str, array, dictionary, bin, Loader, Token, deref, type_of,
  get_type, checked, dictionary_get_count, dictionary_get, dictionary_get_at_index, array_get_count,
  array_get, int_get_signed, int_get_unsigned, real_get_double, real_get_float, bool_get,
  string_get_len, string_get, string_get_raw,
}
use rmm_2023_pre.ObjectParser.JsonLoader.Pointers.{other_type}

get_type_of :
    (obj : Loader) (token : Token) (range : Range) (type : JsmnType)
    → deref obj token ≡ some range
    → Jsmn.json_type obj.jsmn_if range ≡ some type
    → get_type obj token ≡ some (type_of type)
unfolding get_type
get_type_of obj token range type e f = rw (get_type, e, f)

-- What a tree is that has an object's type, where that is one.
abbrev Shape : ObjectType → JsmnType → Type 0
Shape null t = Unit
Shape bool t = (t ≡ JsmnType.true_literal) ⊎ (t ≡ JsmnType.false_literal)
Shape int t = t ≡ JsmnType.int
Shape real t = t ≡ JsmnType.double
Shape str t = t ≡ JsmnType.string
Shape array t = t ≡ JsmnType.array
Shape dictionary t = t ≡ JsmnType.object
Shape bin t = ⊥

type_of-Shape : (t : JsmnType) → Shape (type_of t) t
unfolding type_of
type_of-Shape JsmnType.array = refl
type_of-Shape JsmnType.object = refl
type_of-Shape JsmnType.true_literal = inl refl
type_of-Shape JsmnType.false_literal = inr refl
type_of-Shape JsmnType.double = refl
type_of-Shape JsmnType.int = refl
type_of-Shape JsmnType.string = refl
type_of-Shape JsmnType.undefined = tt
type_of-Shape JsmnType.key = tt

-- A getter answers on trees of its shape only.
only_on :
    {R : Type 0}
    → (wanted : ObjectType) → (read : Range → Option (Option R)) → (obj : Loader) → (token : Token)
    → (t : JsmnType) → get_type obj token ≡ some (type_of t)
    → Shape wanted t ⊎ (checked wanted read obj token ≡ some none)
only_on wanted read obj token t e = elim (other_type wanted (type_of t) read obj token e) [
  | inl same ↦ inl (subst (λ w. Shape w t) same (type_of-Shape t))
  | inr refused ↦ inr refused
]

module _ {Float Double : Type 0} (atof : List ℕ → Double) (narrow : Double → Float) where
  -- On a token for a tree of jsmn's tokens, each of the thirteen getters fails without a fault
  -- unless the root of the tree has the type that the getter is for.
  pub getters_refuse :
      (obj : Loader) (token : Token) (i : ℕ) (parent : ℤ) (type : JsmnType) (s e : ℕ) (ns : Nodes)
      (atol : List ℕ → ℤ) (key : List ℕ) (heap k : ℕ)
      → deref obj token ≡ some (range_of i (node type s e ns))
      → Holds obj.jsmn_if i parent (node type s e ns)
      → ((type ≡ JsmnType.int) ⊎ (int_get_signed atol obj token ≡ some none))
        × ((type ≡ JsmnType.int) ⊎ (int_get_unsigned atol obj token ≡ some none))
        × ((type ≡ JsmnType.double) ⊎ (real_get_double atof narrow obj token ≡ some none))
        × ((type ≡ JsmnType.double) ⊎ (real_get_float atof narrow obj token ≡ some none))
        × (((type ≡ JsmnType.true_literal) ⊎ (type ≡ JsmnType.false_literal))
            ⊎ (bool_get obj token ≡ some none))
        × ((type ≡ JsmnType.string) ⊎ (string_get_len obj token ≡ some none))
        × ((type ≡ JsmnType.string) ⊎ (string_get obj token k ≡ some none))
        × ((type ≡ JsmnType.string) ⊎ (string_get_raw obj token ≡ some none))
        × ((type ≡ JsmnType.array) ⊎ (array_get_count obj token ≡ some none))
        × ((type ≡ JsmnType.array) ⊎ (array_get obj heap token k ≡ some none))
        × ((type ≡ JsmnType.object) ⊎ (dictionary_get_count obj token ≡ some none))
        × ((type ≡ JsmnType.object) ⊎ (dictionary_get obj heap token key ≡ some none))
        × ((type ≡ JsmnType.object) ⊎ (dictionary_get_at_index obj heap token k ≡ some none))
  unfolding int_get_signed int_get_unsigned real_get_double real_get_float bool_get string_get_len
      string_get string_get_raw array_get_count array_get dictionary_get_count dictionary_get
      dictionary_get_at_index
  getters_refuse obj token i parent type s e ns atol key heap k d h =
      let t =
        get_type_of obj token (range_of i (node type s e ns)) type d
          (type_at obj.jsmn_if i parent type s e ns h) in
      (
        only_on int _ obj token type t,
        only_on int _ obj token type t,
        only_on real _ obj token type t,
        only_on real _ obj token type t,
        only_on bool _ obj token type t,
        only_on str _ obj token type t,
        only_on str _ obj token type t,
        only_on str _ obj token type t,
        only_on array _ obj token type t,
        only_on array _ obj token type t,
        only_on dictionary _ obj token type t,
        only_on dictionary _ obj token type t,
        only_on dictionary _ obj token type t,
      )
