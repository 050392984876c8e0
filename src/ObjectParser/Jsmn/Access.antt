-- ===== src/ObjectParser/Jsmn/Access.antt =====
-- jsmn_interface.c: arrays in the tokens of a tree. What is found is the tree of the item, which can be
-- searched again.
use mathlib.Core.List.{append_assoc}
use mathlib.Core.Option.{some-injective}
use rmm_2023_pre.Common.{
  ℕ, zero, suc, ◌+◌, ◌≤◌, ◌<◌, ◌≡◌, refl, ap, ap₂, ◌∙◌, sym, subst, arith, true, false, none, some,
  List, [], ◌∷◌, ◌++◌, length, get_elem?, drop, length-append, ◌==◌, ==_iff,
}
use rmm_2023_pre.Common.Int.{ℤ, pos, pos_part, neg_part}
use rmm_2023_pre.Std.Buffer.Splice.{drop-length}
use rmm_2023_pre.ObjectParser.Jsmn.{
  JsmnType, array, Tok, Jsmn, Range, eq_ℤ, search_tok_cur_range, json_type, window, find_child,
  get_array, array_count, count_of, count_children, not_found,
}
use rmm_2023_pre.ObjectParser.Jsmn.Trees.{
  Node, node, Nodes, nil, cons, size, flatten, flatten_all, child_at, count_nodes, head_tok, Stops,
  Holds, range_of, window_of, length-flatten, length-flatten_all, leading-Beneath,
  flatten_all-Beneath, find_child_all, find_child-none, count_children_all,
}

get_elem?_front {ℓ} :
    {A : Type ℓ} (front l : List A) (x : A) → get_elem? (front ++ (x ∷ l)) (length front) ≡ some x
get_elem?_front [] l x = refl
get_elem?_front (y ∷ front) l x = get_elem?_front front l x

tok_at :
    (obj : Jsmn) (i : ℕ) (parent : ℤ) (n : Node)
    → Holds obj i parent n
    → get_elem? obj.tokens i ≡ some (head_tok n parent)
unfolding flatten head_tok
tok_at obj i parent (node type s e ms) h =
    ap₂ get_elem? h.tokens (sym h.place)
    ∙ get_elem?_front h.front (flatten_all ms (suc i) i ++ h.rest)
        (head_tok (node type s e ms) parent)

below_at :
    (obj : Jsmn) (i : ℕ) (parent : ℤ) (type : JsmnType) (s e : ℕ) (ms : Nodes)
    (h : Holds obj i parent (node type s e ms))
    → drop (suc i) obj.tokens ≡ flatten_all ms (suc i) i ++ h.rest
unfolding flatten head_tok
below_at obj i parent type s e ms h =
    let x = head_tok (node type s e ms) parent in
    ap (drop (suc i))
      (h.tokens ∙ sym (append_assoc h.front (x ∷ []) (flatten_all ms (suc i) i ++ h.rest)))
    ∙ drop-length (suc i) (h.front ++ (x ∷ [])) (flatten_all ms (suc i) i ++ h.rest)
        (omega (arith, length-append h.front (x ∷ []), h.place))

-- The range of a token is its tree.
pub search_tok_cur_range_of :
    (obj : Jsmn) (i : ℕ) (parent : ℤ) (n : Node)
    → Holds obj i parent n
    → search_tok_cur_range obj i ≡ some (range_of i n)
unfolding size head_tok search_tok_cur_range
search_tok_cur_range_of obj i parent (node type s e ms) h =
    rw
      (
        search_tok_cur_range,
        tok_at obj i parent (node type s e ms) h,
        below_at obj i parent type s e ms h,
      )
      (ap (λ k. some (record { index_start = i; count = suc k }))
        (leading-Beneath parent i (flatten_all ms (suc i) i) h.rest h.before
            (flatten_all-Beneath ms (suc i) i i (omega arith) (omega arith)) h.stops
          ∙ length-flatten_all ms (suc i) i))

Stops-flatten_all :
    (ns : Nodes) (j i : ℕ) (rest : List Tok)
    → Stops (pos i) rest
    → Stops (pos i) (flatten_all ns j i ++ rest)
unfolding flatten flatten_all
Stops-flatten_all nil j i rest h = h
Stops-flatten_all (cons (node type s e ms) ns) j i rest h = omega arith

child-Holds :
    (ns : Nodes) (obj : Jsmn) (i j k c : ℕ) (n : Node) (front rest : List Tok)
    → obj.tokens ≡ front ++ (flatten_all ns j i ++ rest)
    → length front ≡ j
    → i < j
    → Stops (pos i) rest
    → child_at ns j k ≡ some (c, n)
    → Holds obj c (pos i) n
unfolding child_at flatten_all
child-Holds nil obj i j k c n front rest e l h s f = cc
child-Holds (cons m ns) obj i j zero c n front rest e l h s f =
    subst (λ (q : ℕ × Node). Holds obj q.0 (pos i) q.1) (some-injective (j, m) (c, n) f)
      (record {
        front = front;
        rest = flatten_all ns (j + size m) i ++ rest;
        tokens =
            e
            ∙ ap (λ l. front ++ l)
                (append_assoc (flatten m j (pos i)) (flatten_all ns (j + size m) i) rest);
        place = l;
        stops = Stops-flatten_all ns (j + size m) i rest s;
        before = omega arith;
      })
child-Holds (cons m ns) obj i j (suc k) c n front rest e l h s f =
    child-Holds ns obj i (j + size m) k c n (front ++ flatten m j (pos i)) rest
      (e ∙ simp append_assoc)
      (omega (arith, length-append front (flatten m j (pos i)), length-flatten m j (pos i)))
      (omega arith) s f

pub type_at :
    (obj : Jsmn) (i : ℕ) (parent : ℤ) (type : JsmnType) (s e : ℕ) (ns : Nodes)
    → Holds obj i parent (node type s e ns)
    → json_type obj (range_of i (node type s e ns)) ≡ some type
unfolding json_type head_tok
type_at obj i parent type s e ns h = rw (json_type, tok_at obj i parent (node type s e ns) h)

-- A root is no child of its own.
pub root_not_child :
    (parent : ℤ) (i : ℕ) → suc (pos_part parent) ≤ i + neg_part parent → eq_ℤ parent (pos i) ≡ false
root_not_child parent i h = ground arith

root_skip :
    (type : JsmnType) (s e i wanted : ℕ) (parent : ℤ) (ns : Nodes)
    → suc (pos_part parent) ≤ i + neg_part parent
    → find_child (pos i) wanted 0 i (flatten (node type s e ns) i parent)
      ≡ find_child (pos i) wanted 0 (suc i) (flatten_all ns (suc i) i)
unfolding find_child flatten
root_skip type s e i wanted parent ns h = rw (root_not_child parent i h)

root_count :
    (type : JsmnType) (s e i : ℕ) (parent : ℤ) (ns : Nodes)
    → suc (pos_part parent) ≤ i + neg_part parent
    → count_children (pos i) (flatten (node type s e ns) i parent) ≡ count_nodes ns
unfolding count_children flatten
root_count type s e i parent ns h =
    rw (root_not_child parent i h) (omega (arith, count_children_all ns i (suc i) (omega arith)))

found_in :
    (obj : Jsmn) (token r : Range) (index c : ℕ) (l : List Tok) (t : Tok)
    → json_type obj token ≡ some array
    → window obj token ≡ l
    → find_child (pos token.index_start) index 0 token.index_start l ≡ some (c, t)
    → search_tok_cur_range obj c ≡ some r
    → get_array obj token index ≡ some (some r)
unfolding get_array
found_in obj token r index c l t e f g h = rw (get_array, e, f, g, h)

missed_in :
    (obj : Jsmn) (token : Range) (index : ℕ) (l : List Tok)
    → json_type obj token ≡ some array
    → window obj token ≡ l
    → (length l == token.count) ≡ true
    → find_child (pos token.index_start) index 0 token.index_start l ≡ none
    → get_array obj token index ≡ some none
unfolding get_array
missed_in obj token index l e f g h = rw (get_array, e, f, h, not_found, f, g)

counted_in :
    (obj : Jsmn) (token : Range) (l : List Tok)
    → json_type obj token ≡ some array
    → window obj token ≡ l
    → (length l == token.count) ≡ true
    → array_count obj token ≡ some (some (count_children (pos token.index_start) l))
unfolding array_count count_of
counted_in obj token l e f g = rw (array_count, count_of, e, f, g)

Stops-weaken :
    (parent : ℤ) (i : ℕ) (rest : List Tok)
    → suc (pos_part parent) ≤ i + neg_part parent
    → Stops parent rest
    → Stops (pos i) rest
Stops-weaken parent i [] h s = tt
Stops-weaken parent i (t ∷ ts) h s = omega arith

pub below-Holds :
    (obj : Jsmn) (i : ℕ) (parent : ℤ) (type : JsmnType) (s e k c : ℕ) (ns : Nodes) (n : Node)
    → Holds obj i parent (node type s e ns)
    → child_at ns (suc i) k ≡ some (c, n)
    → Holds obj c (pos i) n
unfolding flatten head_tok
below-Holds obj i parent type s e k c ns n h f =
    let x = head_tok (node type s e ns) parent in
    child-Holds ns obj i (suc i) k c n (h.front ++ (x ∷ [])) h.rest
      (h.tokens ∙ sym (append_assoc h.front (x ∷ []) (flatten_all ns (suc i) i ++ h.rest)))
      (omega (arith, length-append h.front (x ∷ []), h.place)) (omega arith)
      (Stops-weaken parent i h.rest h.before h.stops) f

-- On tokens that are laid out as a tree, `JsmnInterface_getArray` on an array hands out the range
-- of the item of that number, and that range holds the item's own tree.
pub get_array_lem :
    (obj : Jsmn) (i : ℕ) (parent : ℤ) (s e k c : ℕ) (ns : Nodes) (n : Node)
    → Holds obj i parent (node array s e ns)
    → child_at ns (suc i) k ≡ some (c, n)
    → (get_array obj (range_of i (node array s e ns)) k ≡ some (some (range_of c n)))
      × Holds obj c (pos i) n
unfolding flatten head_tok
get_array_lem obj i parent s e k c ns n h f =
    let child = below-Holds obj i parent array s e k c ns n h f in
    (
      found_in obj (range_of i (node array s e ns)) (range_of c n) k c
          (flatten (node array s e ns) i parent) (head_tok n (pos i))
          (type_at obj i parent array s e ns h) (window_of obj i parent (node array s e ns) h)
          (root_skip array s e i k parent ns h.before
            ∙ find_child_all ns i (suc i) 0 k k c n (omega arith) (omega arith) f)
          (search_tok_cur_range_of obj c (pos i) n child),
      child,
    )

-- On tokens that are laid out as a tree, `JsmnInterface_arrayCount` gives the number of the items
-- of an array, and from that number on `JsmnInterface_getArray` finds none.
pub array_count_lem :
    (obj : Jsmn) (i : ℕ) (parent : ℤ) (s e k : ℕ) (ns : Nodes)
    → Holds obj i parent (node array s e ns)
    → count_nodes ns ≤ k
    → (array_count obj (range_of i (node array s e ns)) ≡ some (some (count_nodes ns)))
      × (get_array obj (range_of i (node array s e ns)) k ≡ some none)
array_count_lem obj i parent s e k ns h past =
    let n = node array s e ns in
    let whole : (length (flatten n i parent) == size n) ≡ true =
      (==_iff _ _).1 (length-flatten n i parent) in
    (
      counted_in obj (range_of i n) (flatten n i parent) (type_at obj i parent array s e ns h)
            (window_of obj i parent n h) whole
          ∙ ap (λ m. some (some m)) (root_count array s e i parent ns h.before),
      missed_in obj (range_of i n) k (flatten n i parent) (type_at obj i parent array s e ns h)
          (window_of obj i parent n h) whole
          (root_skip array s e i k parent ns h.before
            ∙ find_child-none ns i (suc i) 0 k (omega arith) (omega arith)),
    )
