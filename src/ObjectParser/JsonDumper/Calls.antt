-- ===== src/ObjectParser/JsonDumper/Calls.antt =====
-- op_json_dumper.c against the layout: the calls that a client makes for a value write its text.
use mathlib.Core.List.{append_assoc, append-nil}
use rmm_2023_pre.Common.{
  ℕ, zero, suc, ◌+◌, ◌-◌, ◌*◌, ◌≡◌, refl, ap, ◌∙◌, sym, arith, Bool, true, false, Option, none,
  some, List, [], ◌∷◌, ◌++◌, length, length-append, leb, ◌==◌,
}
use rmm_2023_pre.Std.Buffer.Splice.{take-length}
use rmm_2023_pre.ObjectParser.JsonDumper.{
  Dumper, create, add_text, indent, termination, lead, start, dictionary_start, array_start,
  remove_tail, end_at, dictionary_end, array_end, dictionary_set_key, int_set_signed,
  int_set_unsigned, real_set, bool_set, string_set, binary_set, null_set, vars_termination,
}
use rmm_2023_pre.ObjectParser.JsonDumper.Layout.{
  Atom, signed, unsigned, real, boolean, text, binary, null, Value, Items, nil, item, atom,
  dictionary, array, count_items, atom_text, label, tail, value_text, body, more,
}

-- The calls of a client: a list is started with the number of its items, and ended after them.
pub set_atom : Dumper → Atom → Dumper
set_atom obj (signed n) = int_set_signed obj n
set_atom obj (unsigned n) = int_set_unsigned obj n
set_atom obj (real printed) = real_set obj printed
set_atom obj (boolean b) = bool_set obj b
set_atom obj (text string) = string_set obj string
set_atom obj (binary buff) = binary_set obj buff
set_atom obj null = null_set obj

pub set_label : Dumper → Option (List ℕ) → Dumper
set_label obj none = obj
set_label obj (some key) = dictionary_set_key obj key

abbrev and_then : Option Dumper → (Dumper → Option Dumper) → Option Dumper
and_then none f = none
and_then (some obj) f = f obj

mutual
  pub dump_value : Value → Dumper → Option Dumper
  dump_value (atom a) obj = some (set_atom obj a)
  dump_value (dictionary xs) obj =
      and_then (dump_items xs (dictionary_start obj (count_items xs))) dictionary_end
  dump_value (array xs) obj = and_then (dump_items xs (array_start obj (count_items xs))) array_end

  pub dump_items : Items → Dumper → Option Dumper
  dump_items nil obj = some obj
  dump_items (item key v xs) obj =
      and_then (dump_value v (set_label obj key)) (λ next. dump_items xs next)

abbrev at_depth : Bool → ℕ → List ℕ → Dumper
at_depth r d bytes = record { is_readble = r; cur_depth = d; buffer = bytes }

length-indent : (d : ℕ) → length (indent d) ≡ 4 * d
unfolding indent
length-indent zero = refl
length-indent (suc d) = omega (arith, length-indent d)

remove_tail-append : (n : ℕ) (x t : List ℕ) → length t ≡ n → remove_tail n (x ++ t) ≡ some x
unfolding remove_tail
remove_tail-append n x t h =
    let size : length (x ++ t) - n ≡ length x = omega (arith, length-append x t) in
    rw (remove_tail, enough, size, take-length (length x) x t refl)
  where
    enough : leb n (length (x ++ t)) ≡ true
    enough = ground (arith, length-append x t)

written :
    (r : Bool) (d : ℕ) (bytes added : List ℕ)
    → vars_termination (add_text added (at_depth r d bytes))
      ≡ at_depth r d (bytes ++ (added ++ termination r d))
unfolding vars_termination
written r d bytes added = ap (at_depth r d) (append_assoc bytes added (termination r d))

set_atom_lem :
    (r : Bool) (d : ℕ) (bytes : List ℕ) (a : Atom)
    → set_atom (at_depth r d bytes) a ≡ at_depth r d (bytes ++ (atom_text a ++ termination r d))
unfolding set_atom int_set_signed int_set_unsigned real_set bool_set string_set binary_set null_set
    atom_text
set_atom_lem r d bytes (signed n) = written r d bytes (atom_text (signed n))
set_atom_lem r d bytes (unsigned n) = written r d bytes (atom_text (unsigned n))
set_atom_lem r d bytes (real p) = written r d bytes (atom_text (real p))
set_atom_lem r d bytes (boolean b) = written r d bytes (atom_text (boolean b))
set_atom_lem r d bytes (text s) = written r d bytes (atom_text (text s))
set_atom_lem r d bytes (binary s) = written r d bytes (atom_text (binary s))
set_atom_lem r d bytes null = written r d bytes (atom_text null)

termination_size : (d : ℕ) → length (termination true (suc d)) ≡ 2 + 4 * suc d
unfolding termination
termination_size d = omega (arith, length-indent (suc d))

-- What the end of a list removes is what its start or its last item left.
end_at_lem :
    (bracket : ℕ) (r : Bool) (d : ℕ) (x t : List ℕ)
    → length t ≡ length (termination r (suc d))
    → end_at bracket r (suc d) (x ++ t)
      ≡ some (at_depth r d (x ++ (tail r d ++ (bracket ∷ termination r d))))
unfolding end_at vars_termination termination tail
end_at_lem bracket true d x t h =
    let size : length t ≡ 2 + 4 * suc d = h ∙ termination_size d in
    rw (end_at, remove_tail-append (2 + 4 * suc d) x t size)
      (ap (λ l. some (at_depth true d l))
        (append_assoc x (10 ∷ (indent d ++ (bracket ∷ []))) (termination true d)
          ∙ ap (λ l. x ++ (10 ∷ l)) (append_assoc (indent d) (bracket ∷ []) (termination true d))))
end_at_lem bracket false d x t h =
    rw (end_at, remove_tail-append 1 x t h)
      (ap (λ l. some (at_depth false d l)) (append_assoc x (bracket ∷ []) (termination false d)))

start_nil :
    (c : ℕ) (r : Bool) (d : ℕ) (bytes : List ℕ)
    → start c (at_depth r d bytes) 0
      ≡ at_depth r (suc d) (bytes ++ (c ∷ (lead r (suc d) ++ (b' ' ∷ []))))
unfolding start
start_nil c r d bytes = refl

not_empty : (n : ℕ) → (suc n == 0) ≡ false
not_empty n = ground arith

start_item :
    (c : ℕ) (r : Bool) (d : ℕ) (bytes : List ℕ) (n : ℕ)
    → start c (at_depth r d bytes) (suc n) ≡ at_depth r (suc d) (bytes ++ (c ∷ lead r (suc d)))
unfolding start
start_item c r d bytes n =
    rw (start, not_empty n)
      (ap (λ l. at_depth r (suc d) (bytes ++ (c ∷ l))) (append-nil (lead r (suc d))))

lead_size :
    (r : Bool) (d : ℕ) → length (lead r (suc d) ++ (b' ' ∷ [])) ≡ length (termination r (suc d))
unfolding lead termination
lead_size true d = omega (arith, length-append (indent (suc d)) (b' ' ∷ []))
lead_size false d = refl

end_nil :
    (c c' : ℕ) (r : Bool) (d : ℕ) (bytes : List ℕ)
    → end_at c' r (suc d) (bytes ++ (c ∷ (lead r (suc d) ++ (b' ' ∷ []))))
      ≡ some (at_depth r d (bytes ++ (c ∷ ((tail r d ++ (c' ∷ [])) ++ termination r d))))
end_nil c c' r d bytes =
    ap (end_at c' r (suc d)) (sym (append_assoc bytes (c ∷ []) (lead r (suc d) ++ (b' ' ∷ []))))
    ∙ end_at_lem c' r d (bytes ++ (c ∷ [])) (lead r (suc d) ++ (b' ' ∷ [])) (lead_size r d)
    ∙ ap (λ l. some (at_depth r d l)) (simp append_assoc)

end_item :
    (c c' : ℕ) (r : Bool) (d : ℕ) (bytes w : List ℕ)
    → end_at c' r (suc d) ((bytes ++ (c ∷ lead r (suc d))) ++ (w ++ termination r (suc d)))
      ≡ some (
          at_depth r d (
            bytes ++ (c ∷ (((lead r (suc d) ++ w) ++ (tail r d ++ (c' ∷ []))) ++ termination r d))))
end_item c c' r d bytes w =
    ap (end_at c' r (suc d))
      (sym (append_assoc (bytes ++ (c ∷ lead r (suc d))) w (termination r (suc d))))
    ∙ end_at_lem c' r d ((bytes ++ (c ∷ lead r (suc d))) ++ w) (termination r (suc d)) refl
    ∙ ap (λ l. some (at_depth r d l)) (simp append_assoc)

set_label_lem :
    (key : Option (List ℕ)) (r : Bool) (d : ℕ) (bytes : List ℕ)
    → set_label (at_depth r d bytes) key ≡ at_depth r d (bytes ++ label r key)
unfolding set_label label dictionary_set_key
set_label_lem none r d bytes = ap (at_depth r d) (sym (append-nil bytes))
set_label_lem (some key) r d bytes = refl

item_step :
    (key : Option (List ℕ)) (v : Value) (xs : Items) (r : Bool) (d : ℕ) (bytes : List ℕ)
    (next : Dumper)
    → dump_value v (at_depth r d (bytes ++ label r key)) ≡ some next
    → dump_items (item key v xs) (at_depth r d bytes) ≡ dump_items xs next
unfolding dump_items
item_step key v xs r d bytes next e = rw (dump_items, set_label_lem key r d bytes, e)

atom_step :
    (r : Bool) (d : ℕ) (bytes : List ℕ) (a : Atom)
    → dump_value (atom a) (at_depth r d bytes)
      ≡ some (at_depth r d (bytes ++ (atom_text a ++ termination r d)))
unfolding dump_value
atom_step r d bytes a = ap some (set_atom_lem r d bytes a)

dictionary_step :
    (xs : Items) (obj begun filled : Dumper) (o : Option Dumper)
    → dictionary_start obj (count_items xs) ≡ begun
    → dump_items xs begun ≡ some filled
    → dictionary_end filled ≡ o
    → dump_value (dictionary xs) obj ≡ o
unfolding dump_value
dictionary_step xs obj begun filled o e f g = rw (dump_value, e, f) g

array_step :
    (xs : Items) (obj begun filled : Dumper) (o : Option Dumper)
    → array_start obj (count_items xs) ≡ begun
    → dump_items xs begun ≡ some filled
    → array_end filled ≡ o
    → dump_value (array xs) obj ≡ o
unfolding dump_value
array_step xs obj begun filled o e f g = rw (dump_value, e, f) g

-- The items as they stand before the end: each is followed by what the next one needs.
abbrev items_text : Bool → ℕ → Items → List ℕ
items_text r d nil = []
items_text r d (item key v xs) =
    (label r key ++ (value_text r d v ++ more r d xs)) ++ termination r d

mutual
  unfolding dictionary_start array_start dictionary_end array_end dump_items value_text body more
      count_items

  -- The calls for a value write its text, and what ends a value at that depth.
  pub dump_value_at :
      (v : Value) (r : Bool) (d : ℕ) (bytes : List ℕ)
      → dump_value v (at_depth r d bytes)
        ≡ some (at_depth r d (bytes ++ (value_text r d v ++ termination r d)))
  dump_value_at (atom a) r d bytes = atom_step r d bytes a
  dump_value_at (dictionary nil) r d bytes =
      dictionary_step nil (at_depth r d bytes)
        (at_depth r (suc d) (bytes ++ (b'{' ∷ (lead r (suc d) ++ (b' ' ∷ [])))))
        (at_depth r (suc d) (bytes ++ (b'{' ∷ (lead r (suc d) ++ (b' ' ∷ [])))))
        (some (at_depth r d (bytes ++ (value_text r d (dictionary nil) ++ termination r d))))
        (start_nil b'{' r d bytes) refl (end_nil b'{' b'}' r d bytes)
  dump_value_at (dictionary (item key v xs)) r d bytes =
      let w = label r key ++ (value_text r (suc d) v ++ more r (suc d) xs) in
      let begun = bytes ++ (b'{' ∷ lead r (suc d)) in
      dictionary_step (item key v xs) (at_depth r d bytes) (at_depth r (suc d) begun)
        (at_depth r (suc d) (begun ++ (w ++ termination r (suc d))))
        (some (
          at_depth r d (bytes ++ (value_text r d (dictionary (item key v xs)) ++ termination r d))))
        (start_item b'{' r d bytes (count_items xs)) (dump_items_at (item key v xs) r (suc d) begun)
        (end_item b'{' b'}' r d bytes w)
  dump_value_at (array nil) r d bytes =
      array_step nil (at_depth r d bytes)
        (at_depth r (suc d) (bytes ++ (b'[' ∷ (lead r (suc d) ++ (b' ' ∷ [])))))
        (at_depth r (suc d) (bytes ++ (b'[' ∷ (lead r (suc d) ++ (b' ' ∷ [])))))
        (some (at_depth r d (bytes ++ (value_text r d (array nil) ++ termination r d))))
        (start_nil b'[' r d bytes) refl (end_nil b'[' b']' r d bytes)
  dump_value_at (array (item key v xs)) r d bytes =
      let w = label r key ++ (value_text r (suc d) v ++ more r (suc d) xs) in
      let begun = bytes ++ (b'[' ∷ lead r (suc d)) in
      array_step (item key v xs) (at_depth r d bytes) (at_depth r (suc d) begun)
        (at_depth r (suc d) (begun ++ (w ++ termination r (suc d))))
        (some (at_depth r d (bytes ++ (value_text r d (array (item key v xs)) ++ termination r d))))
        (start_item b'[' r d bytes (count_items xs)) (dump_items_at (item key v xs) r (suc d) begun)
        (end_item b'[' b']' r d bytes w)

  pub dump_items_at :
      (xs : Items) (r : Bool) (d : ℕ) (bytes : List ℕ)
      → dump_items xs (at_depth r d bytes) ≡ some (at_depth r d (bytes ++ items_text r d xs))
  dump_items_at nil r d bytes = ap (λ l. some (at_depth r d l)) (sym (append-nil bytes))
  dump_items_at (item key v nil) r d bytes =
      item_step key v nil r d bytes
        (at_depth r d ((bytes ++ label r key) ++ (value_text r d v ++ termination r d)))
        (dump_value_at v r d (bytes ++ label r key))
      ∙ ap (λ l. some (at_depth r d l)) (simp (append_assoc, append-nil))
  dump_items_at (item key v (item key' v' xs)) r d bytes =
      let next = (bytes ++ label r key) ++ (value_text r d v ++ termination r d) in
      item_step key v (item key' v' xs) r d bytes (at_depth r d next)
        (dump_value_at v r d (bytes ++ label r key))
      ∙ dump_items_at (item key' v' xs) r d next
      ∙ ap (λ l. some (at_depth r d l)) (simp append_assoc)

pub dump_value_lem :
    (v : Value) (r : Bool)
    → dump_value v (create r)
      ≡ some (record { is_readble = r; cur_depth = 0; buffer = value_text r 0 v })
unfolding create termination
dump_value_lem v r =
    dump_value_at v r 0 [] ∙ ap (λ l. some (at_depth r 0 l)) (append-nil (value_text r 0 v))
