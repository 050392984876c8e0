-- ===== src/ObjectParser/JsonDumper/Clashes.antt =====
-- op_json_dumper.c: values that are written alike.
use mathlib.Core.List.{append_assoc}
use rmm_2023_pre.Common.{
  ℕ, ◌-◌, ◌^◌, ◌≤◌, ◌<◌, ◌≡◌, ◌∙◌, ap, sym, some, false, none, List, ◌∷◌, ◌++◌, arith,
}
use rmm_2023_pre.Common.Int.{negsuc, of_word}
use rmm_2023_pre.ObjectParser.JsonDumper.{
  Dumper, create, int_set_signed, int_set_unsigned, string_text, lead, termination,
}
use rmm_2023_pre.ObjectParser.JsonDumper.Layout.{
  text, nil, item, atom, array, value_text, body, more, label, atom_text,
}
use rmm_2023_pre.ObjectParser.JsonDumper.Calls.{dump_value, dump_value_lem}

as_signed : (n : ℕ) → 2 ^ 63 ≤ n → n < 2 ^ 64 → of_word 64 n ≡ negsuc (2 ^ 64 - 1 - n)
as_signed n h l = ground arith

-- The upper half of the unsigned numbers is written as negative numbers.
pub int_set_unsigned_large :
    (obj : Dumper) (n : ℕ)
    → 2 ^ 63 ≤ n
    → n < 2 ^ 64
    → int_set_unsigned obj n ≡ int_set_signed obj (negsuc (2 ^ 64 - 1 - n))
unfolding int_set_unsigned int_set_signed
int_set_unsigned_large obj n h l = rw (as_signed n h l)

abbrev one_text : List ℕ → List ℕ → List ℕ
one_text a b = a ++ (b'"' ∷ b',' ∷ b'"' ∷ b)

same_text :
    (a b : List ℕ)
    → value_text false 0 (array (item none (atom (text (one_text a b))) nil))
      ≡ value_text false 0 (array (item none (atom (text a)) (item none (atom (text b)) nil)))
unfolding value_text body more atom_text label string_text lead termination
same_text a b = simp append_assoc

-- A text is not escaped: one that holds a quotation mark is written as two.
pub dump_value_clash :
    (a b : List ℕ)
    → dump_value (array (item none (atom (text (one_text a b))) nil)) (create false)
      ≡ dump_value
          (array (item none (atom (text a)) (item none (atom (text b)) nil)))
          (create false)
dump_value_clash a b =
    dump_value_lem (array (item none (atom (text (one_text a b))) nil)) false
    ∙ ap (λ l. some (record { is_readble = false; cur_depth = 0; buffer = l })) (same_text a b)
    ∙ sym (dump_value_lem (array (item none (atom (text a)) (item none (atom (text b)) nil))) false)
