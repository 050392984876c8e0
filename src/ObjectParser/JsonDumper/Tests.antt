-- ===== src/ObjectParser/JsonDumper/Tests.antt =====
-- A dictionary as it is written, for op_json_dumper.c.
use rmm_2023_pre.Common.{◌≡◌, refl, true, false, none, some, [], ◌∷◌}
use rmm_2023_pre.Common.Int.{negsuc}
use rmm_2023_pre.ObjectParser.JsonDumper.{lead}
use rmm_2023_pre.ObjectParser.JsonDumper.Layout.{
  Value, nil, item, atom, dictionary, array, signed, boolean, null, value_text, label, atom_text,
  tail,
}

-- {"a": -5, "b": [true, null, {}]}
abbrev value : Value
value = dictionary (
    item (some (b'a' ∷ [])) (atom (signed (negsuc 4))) (
      item (some (b'b' ∷ []))
        (array (
          item none (atom (boolean true)) (item none (atom null) (item none (dictionary nil) nil))))
        nil))

value_text_run :
    value_text false 0 (array (item none (atom null) nil))
    ≡ b'[' ∷ b'n' ∷ b'u' ∷ b'l' ∷ b'l' ∷ b']' ∷ []
unfolding value_text lead label atom_text tail
value_text_run = refl
