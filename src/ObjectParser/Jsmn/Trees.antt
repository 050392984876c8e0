-- ===== src/ObjectParser/Jsmn/Trees.antt =====
-- jsmn_interface.c on the tokens of a tree, as jsmn lays them out: each node before those below it,
-- each with the place of its parent. An array has its items below it, an object its keys, and a key
-- its value.
use mathlib.Core.Option.{some-injective}
use rmm_2023_pre.Common.{
  ℕ, zero, suc, ◌+◌, ◌≤◌, ◌<◌, ◌≡◌, ◌≢◌, refl, ap, ap₂, ◌∙◌, arith, true, false, Option, none, some,
  List, [], ◌∷◌, ◌++◌, length, take, drop, length-append, ◌==◌,
}
use rmm_2023_pre.Common.Int.{ℤ, pos, ◌≤ℤ◌, pos_part, neg_part}
use rmm_2023_pre.Std.Buffer.Splice.{take-length, drop-length}
use rmm_2023_pre.ObjectParser.Jsmn.{
  JsmnType, Tok, Jsmn, Range, eq_ℤ, leading, window, find_child, count_children,
}

mutual
  pub data Node : Type 0 where
    node : JsmnType → ℕ → ℕ → Nodes → Node

  pub data Nodes : Type 0 where
    nil : Nodes
    cons : Node → Nodes → Nodes

unfoldable mutual
  pub size : Node → ℕ
  size (node type s e ns) = suc (size_all ns)

  pub size_all : Nodes → ℕ
  size_all nil = 0
  size_all (cons n ns) = size n + size_all ns

-- The tokens of a tree whose root stands at the place `i`, and of the trees below a node.
unfoldable mutual
  pub flatten : Node → ℕ → ℤ → List Tok
  flatten (node type s e ns) i parent =
      record { type = type; start = s; end = e; parent = parent } ∷ flatten_all ns (suc i) i

  pub flatten_all : Nodes → ℕ → ℕ → List Tok
  flatten_all nil i parent = []
  flatten_all (cons n ns) i parent = flatten n i (pos parent) ++ flatten_all ns (i + size n) parent

-- The place and the tree of a child.
unfoldable pub child_at : Nodes → ℕ → ℕ → Option (ℕ × Node)
child_at nil i k = none
child_at (cons n ns) i zero = some (i, n)
child_at (cons n ns) i (suc k) = child_at ns (i + size n) k

unfoldable pub count_nodes : Nodes → ℕ
count_nodes nil = 0
count_nodes (cons n ns) = suc (count_nodes ns)

mutual
  unfolding size size_all flatten flatten_all

  pub length-flatten : (n : Node) (i : ℕ) (parent : ℤ) → length (flatten n i parent) ≡ size n
  length-flatten (node type s e ns) i parent = ap suc (length-flatten_all ns (suc i) i)

  pub length-flatten_all :
      (ns : Nodes) (i parent : ℕ) → length (flatten_all ns i parent) ≡ size_all ns
  length-flatten_all nil i parent = refl
  length-flatten_all (cons n ns) i parent =
      length-append (flatten n i (pos parent)) (flatten_all ns (i + size n) parent)
      ∙ ap₂ (λ a b. a + b) (length-flatten n i (pos parent))
          (length-flatten_all ns (i + size n) parent)

-- No token has a parent before `q`.
abbrev pub Beneath : ℕ → List Tok → Type 0
Beneath q [] = Unit
Beneath q (t ∷ ts) = (pos q ≤ℤ t.parent) × Beneath q ts

Beneath-append : (q : ℕ) (xs ys : List Tok) → Beneath q xs → Beneath q ys → Beneath q (xs ++ ys)
Beneath-append q [] ys h k = k
Beneath-append q (x ∷ xs) ys h k = (h.0, Beneath-append q xs ys h.1 k)

pub flatten_all-Beneath :
    (ns : Nodes) (i parent q : ℕ) → parent < i → q ≤ parent → Beneath q (flatten_all ns i parent)
unfolding flatten flatten_all
flatten_all-Beneath nil i parent q h k = tt
flatten_all-Beneath (cons (node type s e ms) ns) i parent q h k = (
  omega arith,
  Beneath-append q (flatten_all ms (suc i) i) (flatten_all ns (i + size (node type s e ms)) parent)
      (flatten_all-Beneath ms (suc i) i q (omega arith) (omega arith))
      (flatten_all-Beneath ns (i + size (node type s e ms)) parent q (omega arith) k),
)

-- A parent that stands before a node.
abbrev Before : ℤ → ℕ → Type 0
Before parent i = parent ≤ℤ pos i × (suc (pos_part parent) ≤ i + neg_part parent)

-- What follows a tree does not belong to it.
abbrev pub Stops : ℤ → List Tok → Type 0
Stops parent [] = Unit
Stops parent (t ∷ ts) = t.parent ≤ℤ parent

pub leading-Beneath :
    (parent : ℤ) (q : ℕ) (xs ys : List Tok)
    → suc (pos_part parent) ≤ q + neg_part parent
    → Beneath q xs
    → Stops parent ys
    → leading parent (xs ++ ys) ≡ length xs
unfolding leading
leading-Beneath parent q [] [] h b s = refl
leading-Beneath parent q [] (t ∷ ts) h b s = ground arith
leading-Beneath parent q (x ∷ xs) ys h b s = ground (arith, leading-Beneath parent q xs ys h b.1 s)

pub eq_ℤ_beneath : (t : ℤ) (parent : ℕ) → pos (suc parent) ≤ℤ t → eq_ℤ t (pos parent) ≡ false
eq_ℤ_beneath t parent h = ground arith

pub eq_ℤ_self : (parent : ℕ) → eq_ℤ (pos parent) (pos parent) ≡ true
eq_ℤ_self parent = ground arith

ne_test : (a b : ℕ) → a ≢ b → (a == b) ≡ false
ne_test a b h = ground arith

eq_test : (a b : ℕ) → a ≡ b → (a == b) ≡ true
eq_test a b h = ground arith

-- Tokens that are not children are passed over.
pub find_child_skip :
    (parent wanted count i : ℕ) (xs ys : List Tok)
    → Beneath (suc parent) xs
    → find_child (pos parent) wanted count i (xs ++ ys)
      ≡ find_child (pos parent) wanted count (i + length xs) ys
unfolding find_child
find_child_skip parent wanted count i [] ys h =
    let e : i ≡ i + 0 = omega arith in ap (λ k. find_child (pos parent) wanted count k ys) e
find_child_skip parent wanted count i (x ∷ xs) ys h =
    let e : suc i + length xs ≡ i + suc (length xs) = omega arith in
    rw (eq_ℤ_beneath x.parent parent h.0) (
      find_child_skip parent wanted count (suc i) xs ys h.1
      ∙ ap (λ k. find_child (pos parent) wanted count k ys) e)

-- A tree below another child is passed over, and a child is found at its place.
find_child_other :
    (parent wanted count i : ℕ) (n : Node) (ys : List Tok)
    → parent < i
    → count ≢ wanted
    → find_child (pos parent) wanted count i (flatten n i (pos parent) ++ ys)
      ≡ find_child (pos parent) wanted (suc count) (i + size n) ys
unfolding find_child flatten size
find_child_other parent wanted count i (node type s e ms) ys h ne =
    let place : suc i + length (flatten_all ms (suc i) i) ≡ i + suc (size_all ms) =
      omega (arith, length-flatten_all ms (suc i) i) in
    rw (eq_ℤ_self parent, ne_test count wanted ne)
      (find_child_skip parent wanted (suc count) (suc i) (flatten_all ms (suc i) i) ys
          (flatten_all-Beneath ms (suc i) i (suc parent) (omega arith) h)
        ∙ ap (λ k. find_child (pos parent) wanted (suc count) k ys) place)

unfoldable pub head_tok : Node → ℤ → Tok
head_tok (node type s e ms) parent = record { type = type; start = s; end = e; parent = parent }

find_child_here :
    (parent wanted count i : ℕ) (n : Node) (ys : List Tok)
    → count ≡ wanted
    → find_child (pos parent) wanted count i (flatten n i (pos parent) ++ ys)
      ≡ some (i, head_tok n (pos parent))
unfolding find_child flatten head_tok
find_child_here parent wanted count i (node type s e ms) ys h =
    rw (eq_ℤ_self parent, eq_test count wanted h)

pub find_child_all :
    (ns : Nodes) (parent i count wanted k c : ℕ) (n : Node)
    → parent < i
    → wanted ≡ count + k
    → child_at ns i k ≡ some (c, n)
    → find_child (pos parent) wanted count i (flatten_all ns i parent)
      ≡ some (c, head_tok n (pos parent))
unfolding child_at flatten_all
find_child_all nil parent i count wanted k c n h w e = cc
find_child_all (cons m ns) parent i count wanted zero c n h w e =
    find_child_here parent wanted count i m (flatten_all ns (i + size m) parent) (omega arith)
    ∙ ap (λ (q : ℕ × Node). some (q.0, head_tok q.1 (pos parent))) (some-injective (i, m) (c, n) e)
find_child_all (cons m ns) parent i count wanted (suc k) c n h w e =
    find_child_other parent wanted count i m (flatten_all ns (i + size m) parent) h (omega arith)
    ∙ find_child_all ns parent (i + size m) (suc count) wanted k c n (omega arith) (omega arith) e

pub find_child-none :
    (ns : Nodes) (parent i count wanted : ℕ)
    → parent < i
    → count + count_nodes ns ≤ wanted
    → find_child (pos parent) wanted count i (flatten_all ns i parent) ≡ none
unfolding count_nodes flatten_all find_child
find_child-none nil parent i count wanted h w = refl
find_child-none (cons m ns) parent i count wanted h w =
    find_child_other parent wanted count i m (flatten_all ns (i + size m) parent) h (omega arith)
    ∙ find_child-none ns parent (i + size m) (suc count) wanted (omega arith) (omega arith)

count_children_skip :
    (parent : ℕ) (xs ys : List Tok)
    → Beneath (suc parent) xs
    → count_children (pos parent) (xs ++ ys) ≡ count_children (pos parent) ys
unfolding count_children
count_children_skip parent [] ys h = refl
count_children_skip parent (x ∷ xs) ys h =
    rw (eq_ℤ_beneath x.parent parent h.0) (omega (arith, count_children_skip parent xs ys h.1))

pub count_children_all :
    (ns : Nodes) (parent i : ℕ)
    → parent < i
    → count_children (pos parent) (flatten_all ns i parent) ≡ count_nodes ns
unfolding count_children flatten flatten_all count_nodes
count_children_all nil parent i h = refl
count_children_all (cons (node type s e ms) ns) parent i h = rw (eq_ℤ_self parent) (
    omega (
      arith,
      count_children_skip parent (flatten_all ms (suc i) i)
          (flatten_all ns (i + size (node type s e ms)) parent)
          (flatten_all-Beneath ms (suc i) i (suc parent) (omega arith) h),
      count_children_all ns parent (i + size (node type s e ms)) (omega arith),
    ))

-- The tree stands at the place `i` of the tokens, below `parent`.
pub record Holds (obj : Jsmn) (i : ℕ) (parent : ℤ) (n : Node) : Type 0 where
  pub front : List Tok
  pub rest : List Tok
  pub tokens : obj.tokens ≡ front ++ (flatten n i parent ++ rest)
  pub place : length front ≡ i
  pub stops : Stops parent rest
  pub before : suc (pos_part parent) ≤ i + neg_part parent

abbrev pub range_of : ℕ → Node → Range
range_of i n = record { index_start = i; count = size n }

pub window_of :
    (obj : Jsmn) (i : ℕ) (parent : ℤ) (n : Node)
    → Holds obj i parent n
    → window obj (range_of i n) ≡ flatten n i parent
window_of obj i parent n h =
    ap (λ l. take (size n) (drop i l)) h.tokens
    ∙ ap (take (size n)) (drop-length i h.front (flatten n i parent ++ h.rest) h.place)
    ∙ take-length (size n) (flatten n i parent) h.rest (length-flatten n i parent)
