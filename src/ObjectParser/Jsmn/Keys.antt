-- ===== src/ObjectParser/Jsmn/Keys.antt =====
-- jsmn_interface.c: dictionaries in the tokens of a tree. The reference looks for the first child whose
-- text is the key, and what is found is the tree below it.
use rmm_2023_pre.Common.{
  ℕ, suc, ◌+◌, ◌-◌, ◌≤◌, ◌<◌, ◌≡◌, refl, ap, ◌∙◌, arith, Bool, Bool-cases, inl, inr, true, Option,
  none, some, List, [], ◌∷◌, ◌++◌, length, take, drop, bytes_eq, ◌==◌, ==_iff, ◌&&◌, if◌then◌else◌,
}
use rmm_2023_pre.Common.Int.{ℤ, pos, pos_part, neg_part}
use rmm_2023_pre.ObjectParser.Jsmn.{
  JsmnType, object, Tok, Jsmn, Range, search_tok_cur_range, json_type, window, find_key,
  get_dictionary, not_found,
}
use rmm_2023_pre.ObjectParser.Jsmn.Trees.{
  Node, node, Nodes, nil, cons, size, size_all, flatten, flatten_all, child_at, Beneath, Holds,
  range_of, window_of, length-flatten, length-flatten_all, flatten_all-Beneath, eq_ℤ_beneath,
  eq_ℤ_self,
}
use rmm_2023_pre.ObjectParser.Jsmn.Access.{
  type_at, root_not_child, search_tok_cur_range_of, below-Holds,
}

-- The text between two places of the source is a name.
abbrev pub is_named : Jsmn → ℕ → ℕ → List ℕ → Bool
is_named obj s e name = (length name == e - s) && bytes_eq (take (e - s) (drop s obj.js)) name

unfoldable pub key_at : Jsmn → Nodes → ℕ → List ℕ → Option (ℕ × Node)
key_at obj nil i name = none
key_at obj (cons (node type s e ms) ns) i name =
    let rest = key_at obj ns (i + size (node type s e ms)) name in
    if is_named obj s e name then some (i, node type s e ms) else rest

abbrev place_of : Option (ℕ × Node) → Option ℕ
place_of none = none
place_of (some (i, n)) = some i

find_key_skip :
    (obj : Jsmn) (name : List ℕ) (parent i : ℕ) (xs ys : List Tok)
    → Beneath (suc parent) xs
    → find_key obj (pos parent) name i (xs ++ ys)
      ≡ find_key obj (pos parent) name (i + length xs) ys
unfolding find_key
find_key_skip obj name parent i [] ys h =
    let e : i ≡ i + 0 = omega arith in ap (λ k. find_key obj (pos parent) name k ys) e
find_key_skip obj name parent i (x ∷ xs) ys h =
    let e : suc i + length xs ≡ i + suc (length xs) = omega arith in
    rw (eq_ℤ_beneath x.parent parent h.0) (
      find_key_skip obj name parent (suc i) xs ys h.1
      ∙ ap (λ k. find_key obj (pos parent) name k ys) e)

find_key_all :
    (obj : Jsmn) (name : List ℕ) (ns : Nodes) (parent i : ℕ)
    → parent < i
    → find_key obj (pos parent) name i (flatten_all ns i parent) ≡ place_of (key_at obj ns i name)
unfolding find_key flatten flatten_all key_at size
find_key_all obj name nil parent i h = refl
find_key_all obj name (cons (node type s e ms) ns) parent i h =
    elim (Bool-cases (is_named obj s e name)) [
      | inl y ↦ rw (eq_ℤ_self parent, y) refl
      | inr y ↦
          let place : suc i + length (flatten_all ms (suc i) i) ≡ i + suc (size_all ms) =
            omega (arith, length-flatten_all ms (suc i) i) in
          rw (eq_ℤ_self parent, y)
            (find_key_skip obj name parent (suc i) (flatten_all ms (suc i) i)
                (flatten_all ns (i + suc (size_all ms)) parent)
                (flatten_all-Beneath ms (suc i) i (suc parent) (omega arith) h)
              ∙ ap
                  (λ k.
                    find_key obj (pos parent) name k
                      (flatten_all ns (i + suc (size_all ms)) parent))
                  place
              ∙ find_key_all obj name ns parent (i + suc (size_all ms)) (omega arith))
    ]

-- A key that is found is a child.
key_at-child :
    (obj : Jsmn) (name : List ℕ) (ns : Nodes) (i c : ℕ) (n : Node)
    → key_at obj ns i name ≡ some (c, n)
    → (k : ℕ) × (child_at ns i k ≡ some (c, n))
unfolding key_at child_at
key_at-child obj name nil i c n h = cc
key_at-child obj name (cons (node type s e ms) ns) i c n h =
    elim (Bool-cases (is_named obj s e name)) [
      | inl y ↦ (0, rw y at h)
      | inr y ↦
          let (k, f) = key_at-child obj name ns (i + size (node type s e ms)) c n (rw y at h) in
          (suc k, f)
    ]

root_key :
    (obj : Jsmn) (name : List ℕ) (s e i : ℕ) (parent : ℤ) (ns : Nodes)
    → suc (pos_part parent) ≤ i + neg_part parent
    → find_key obj (pos i) name i (flatten (node object s e ns) i parent)
      ≡ place_of (key_at obj ns (suc i) name)
unfolding find_key flatten
root_key obj name s e i parent ns h =
    rw (root_not_child parent i h) (find_key_all obj name ns i (suc i) (omega arith))

found_key :
    (obj : Jsmn) (token r : Range) (name : List ℕ) (c : ℕ) (l : List Tok)
    → json_type obj token ≡ some object
    → window obj token ≡ l
    → find_key obj (pos token.index_start) name token.index_start l ≡ some c
    → search_tok_cur_range obj (suc c) ≡ some r
    → get_dictionary obj token name ≡ some (some r)
unfolding get_dictionary
found_key obj token r name c l e f g h = rw (get_dictionary, e, f, g, h)

missed_key :
    (obj : Jsmn) (token : Range) (name : List ℕ) (l : List Tok)
    → json_type obj token ≡ some object
    → window obj token ≡ l
    → (length l == token.count) ≡ true
    → find_key obj (pos token.index_start) name token.index_start l ≡ none
    → get_dictionary obj token name ≡ some none
unfolding get_dictionary
missed_key obj token name l e f g h = rw (get_dictionary, e, f, h, not_found, f, g)

value-Holds :
    (obj : Jsmn) (c : ℕ) (parent : ℤ) (type : JsmnType) (s e : ℕ) (v : Node) (vs : Nodes)
    → Holds obj c parent (node type s e (cons v vs))
    → Holds obj (suc c) (pos c) v
unfolding child_at
value-Holds obj c parent type s e v vs h =
    below-Holds obj c parent type s e 0 (suc c) (cons v vs) v h refl

-- On tokens that are laid out as a tree, `JsmnInterface_getDictionary` on a dictionary hands out
-- the range of the value below the first key whose text is the one asked for, and that range holds
-- the value's own tree.
pub get_dictionary_found :
    (obj : Jsmn) (i : ℕ) (parent : ℤ) (s e c ks ke : ℕ) (ns vs : Nodes) (type : JsmnType) (v : Node)
    (name : List ℕ)
    → Holds obj i parent (node object s e ns)
    → key_at obj ns (suc i) name ≡ some (c, node type ks ke (cons v vs))
    → (get_dictionary obj (range_of i (node object s e ns)) name ≡ some (some (range_of (suc c) v)))
      × Holds obj (suc c) (pos c) v
get_dictionary_found obj i parent s e c ks ke ns vs type v name h f =
    let n = node object s e ns in
    let (k, child) = key_at-child obj name ns (suc i) c (node type ks ke (cons v vs)) f in
    let key = below-Holds obj i parent object s e k c ns (node type ks ke (cons v vs)) h child in
    let value = value-Holds obj c (pos i) type ks ke v vs key in
    (
      found_key obj (range_of i n) (range_of (suc c) v) name c (flatten n i parent)
          (type_at obj i parent object s e ns h) (window_of obj i parent n h)
          (root_key obj name s e i parent ns h.before ∙ ap place_of f)
          (search_tok_cur_range_of obj (suc c) (pos c) v value),
      value,
    )

-- Where the reference finds no key, nothing is found.
pub get_dictionary_missing :
    (obj : Jsmn) (i : ℕ) (parent : ℤ) (s e : ℕ) (ns : Nodes) (name : List ℕ)
    → Holds obj i parent (node object s e ns)
    → key_at obj ns (suc i) name ≡ none
    → get_dictionary obj (range_of i (node object s e ns)) name ≡ some none
get_dictionary_missing obj i parent s e ns name h f =
    let n = node object s e ns in
    missed_key obj (range_of i n) name (flatten n i parent) (type_at obj i parent object s e ns h)
      (window_of obj i parent n h) ((==_iff _ _).1 (length-flatten n i parent))
      (root_key obj name s e i parent ns h.before ∙ ap place_of f)
