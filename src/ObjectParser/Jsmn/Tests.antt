-- ===== src/ObjectParser/Jsmn/Tests.antt =====
-- The tokens of a text, for jsmn_interface.c.
use rmm_2023_pre.Common.{◌≤◌, ◌≡◌, refl, arith, ◌++◌, none, some, [], ◌∷◌}
use rmm_2023_pre.Common.Int.{pos, negsuc}
use rmm_2023_pre.ObjectParser.Jsmn.{
  array, int, true_literal, string, Tok, Jsmn, Range, get_array, array_count, single,
  parse_as_string, object, key, get_dictionary,
}
use rmm_2023_pre.ObjectParser.Jsmn.Trees.{
  Node, Nodes, node, nil, cons, Holds, range_of, count_nodes, child_at, flatten, size,
}
use rmm_2023_pre.ObjectParser.Jsmn.Keys.{key_at, get_dictionary_found}
use rmm_2023_pre.ObjectParser.Jsmn.Access.{get_array_lem, array_count_lem}

-- [7,[true]]
abbrev inner : Node
inner = node array 3 9 (cons (node true_literal 4 8 nil) nil)

abbrev nodes : Nodes
nodes = cons (node int 1 2 nil) (cons inner nil)

abbrev parsed : Jsmn
parsed = record {
  tokens =
      record { type = array; start = 0; end = 10; parent = negsuc 0 }
      ∷ record { type = int; start = 1; end = 2; parent = pos 0 }
      ∷ record { type = array; start = 3; end = 9; parent = pos 0 }
      ∷ record { type = true_literal; start = 4; end = 8; parent = pos 2 }
      ∷ [];
  js = b'[' ∷ b'7' ∷ b',' ∷ b'[' ∷ b't' ∷ b'r' ∷ b'u' ∷ b'e' ∷ b']' ∷ b']' ∷ 0 ∷ [];
}

root_tokens : parsed.tokens ≡ flatten (node array 0 10 nodes) 0 (negsuc 0) ++ []
unfolding flatten size
root_tokens = refl

root-Holds : Holds parsed 0 (negsuc 0) (node array 0 10 nodes)
root-Holds = record {
  front = [];
  rest = [];
  tokens = root_tokens;
  place = refl;
  stops = tt;
  before = omega arith;
}

-- The second item.
get_array_lem_example :
    (get_array parsed (range_of 0 (node array 0 10 nodes)) 1 ≡ some (some (range_of 2 inner)))
    × Holds parsed 2 (pos 0) inner
unfolding child_at size
get_array_lem_example = get_array_lem parsed 0 (negsuc 0) 0 10 1 2 nodes inner root-Holds child
  where
    child : child_at nodes 1 1 ≡ some (2, inner)
    child = refl

array_count_lem_example :
    (array_count parsed (range_of 0 (node array 0 10 nodes)) ≡ some (some (count_nodes nodes)))
    × (get_array parsed (range_of 0 (node array 0 10 nodes)) 2 ≡ some none)
unfolding count_nodes
array_count_lem_example = array_count_lem parsed 0 (negsuc 0) 0 10 2 nodes root-Holds few
  where
    few : count_nodes nodes ≤ 2
    few = omega arith

-- "abc"
abbrev word : Tok
word = record { type = string; start = 1; end = 4; parent = negsuc 0 }

abbrev text : Jsmn
text = record { tokens = word ∷ []; js = b'"' ∷ b'a' ∷ b'b' ∷ b'c' ∷ b'"' ∷ 0 ∷ [] }

abbrev whole : Range
whole = record { index_start = 0; count = 1 }

parse_as_string_run : parse_as_string text whole 16 ≡ some (some (b'a' ∷ b'b' ∷ 0 ∷ [], 2))
unfolding parse_as_string single
parse_as_string_run = refl

-- {"a":7}
abbrev pair : Nodes
pair = cons (node key 2 3 (cons (node int 5 6 nil) nil)) nil

abbrev dictionary : Jsmn
dictionary = record {
  tokens =
      record { type = object; start = 0; end = 7; parent = negsuc 0 }
      ∷ record { type = key; start = 2; end = 3; parent = pos 0 }
      ∷ record { type = int; start = 5; end = 6; parent = pos 1 }
      ∷ [];
  js = b'{' ∷ b'"' ∷ b'a' ∷ b'"' ∷ b':' ∷ b'7' ∷ b'}' ∷ 0 ∷ [];
}

dictionary_tokens : dictionary.tokens ≡ flatten (node object 0 7 pair) 0 (negsuc 0) ++ []
unfolding flatten size
dictionary_tokens = refl

dictionary-Holds : Holds dictionary 0 (negsuc 0) (node object 0 7 pair)
dictionary-Holds = record {
  front = [];
  rest = [];
  tokens = dictionary_tokens;
  place = refl;
  stops = tt;
  before = omega arith;
}

get_dictionary_found_example :
    (get_dictionary dictionary (range_of 0 (node object 0 7 pair)) (b'a' ∷ [])
      ≡ some (some (range_of 2 (node int 5 6 nil))))
    × Holds dictionary 2 (pos 1) (node int 5 6 nil)
unfolding key_at
get_dictionary_found_example =
    get_dictionary_found dictionary 0 (negsuc 0) 0 7 1 2 3 pair nil key (node int 5 6 nil)
      (b'a' ∷ []) dictionary-Holds refl
