-- ===== src/ObjectParser/JsonLoader/Tests.antt =====
-- Tokens of a text, for op_json_loader.c.
use rmm_2023_pre.Common.{ℕ, ◌≡◌, ◌⊎◌, refl, none, some, List, [], ◌∷◌, ◌++◌, arith}
use rmm_2023_pre.Common.Int.{ℤ, pos, negsuc}
use rmm_2023_pre.ObjectParser.Jsmn.{Jsmn, Tok, Range}
use rmm_2023_pre.ObjectParser.Jsmn
use rmm_2023_pre.ObjectParser.Jsmn.{JsmnType}
use rmm_2023_pre.ObjectParser.Jsmn.Trees.{Node, node, nil, size, flatten, Holds, range_of}
use rmm_2023_pre.ObjectParser.JsonLoader.{
  Loader, Token, deref, dictionary_get_count, dictionary_get, dictionary_get_at_index,
  array_get_count, array_get, int_get_signed, int_get_unsigned, real_get_double, real_get_float,
  bool_get, string_get_len, string_get, string_get_raw,
}
use rmm_2023_pre.ObjectParser.JsonLoader.Types.{getters_refuse}

-- 7
abbrev seven : Loader
seven = record {
  jsmn_if = record {
    tokens = record { type = Jsmn.int; start = 0; end = 1; parent = negsuc 0 } ∷ [];
    js = b'7' ∷ 0 ∷ [];
  };
  base = 0x5000;
  token_buff = record { index_start = 0; count = 1 } ∷ [];
}

abbrev first : Token
first = record { buffer = 0x5000; place = 0 }

abbrev atol : List ℕ → ℤ
atol text = pos 7

abbrev seven_node : Node
seven_node = node JsmnType.int 0 1 nil

first-deref : deref seven first ≡ some (range_of 0 seven_node)
unfolding deref size
first-deref = refl

seven_tokens : seven.jsmn_if.tokens ≡ flatten seven_node 0 (negsuc 0) ++ []
unfolding flatten
seven_tokens = refl

seven-Holds : Holds seven.jsmn_if 0 (negsuc 0) seven_node
seven-Holds = record {
  front = [];
  rest = [];
  tokens = seven_tokens;
  place = refl;
  stops = tt;
  before = omega arith;
}

abbrev atof : List ℕ → ℕ
atof text = 0

abbrev narrow : ℕ → ℕ
narrow x = x

getters_refuse_example :
    ((JsmnType.int ≡ JsmnType.int) ⊎ (int_get_signed atol seven first ≡ some none))
    × ((JsmnType.int ≡ JsmnType.int) ⊎ (int_get_unsigned atol seven first ≡ some none))
    × ((JsmnType.int ≡ JsmnType.double) ⊎ (real_get_double atof narrow seven first ≡ some none))
    × ((JsmnType.int ≡ JsmnType.double) ⊎ (real_get_float atof narrow seven first ≡ some none))
    × (((JsmnType.int ≡ JsmnType.true_literal) ⊎ (JsmnType.int ≡ JsmnType.false_literal))
        ⊎ (bool_get seven first ≡ some none))
    × ((JsmnType.int ≡ JsmnType.string) ⊎ (string_get_len seven first ≡ some none))
    × ((JsmnType.int ≡ JsmnType.string) ⊎ (string_get seven first 16 ≡ some none))
    × ((JsmnType.int ≡ JsmnType.string) ⊎ (string_get_raw seven first ≡ some none))
    × ((JsmnType.int ≡ JsmnType.array) ⊎ (array_get_count seven first ≡ some none))
    × ((JsmnType.int ≡ JsmnType.array) ⊎ (array_get seven 0x6000 first 16 ≡ some none))
    × ((JsmnType.int ≡ JsmnType.object) ⊎ (dictionary_get_count seven first ≡ some none))
    × ((JsmnType.int ≡ JsmnType.object)
        ⊎ (dictionary_get seven 0x6000 first (b'a' ∷ []) ≡ some none))
    × ((JsmnType.int ≡ JsmnType.object)
        ⊎ (dictionary_get_at_index seven 0x6000 first 16 ≡ some none))
getters_refuse_example =
    getters_refuse atof narrow seven first 0 (negsuc 0) JsmnType.int 0 1 nil atol (b'a' ∷ []) 0x6000
      16 first-deref seven-Holds
