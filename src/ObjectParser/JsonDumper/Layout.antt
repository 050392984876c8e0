-- ===== src/ObjectParser/JsonDumper/Layout.antt =====
-- The text of JSON of a value, at a depth: the description that op_json_dumper.c is compared with.
use rmm_2023_pre.Common.{ℕ, suc, Bool, true, false, Option, none, some, List, [], ◌∷◌, ◌++◌}
use rmm_2023_pre.Common.Int.{ℤ, of_word}
use rmm_2023_pre.ObjectParser.JsonDumper.{
  indent, termination, lead, key_text, number_text, signed_text, bool_text, string_text, null_text,
  binary_text,
}

-- A value is one that takes one call, or a dictionary or array; the items of a dictionary have keys.
pub data Atom : Type 0 where
  signed : ℤ → Atom
  unsigned : ℕ → Atom
  real : List ℕ → Atom
  boolean : Bool → Atom
  text : List ℕ → Atom
  binary : List ℕ → Atom
  null : Atom

mutual
  pub data Value : Type 0 where
    atom : Atom → Value
    dictionary : Items → Value
    array : Items → Value

  pub data Items : Type 0 where
    nil : Items
    item : Option (List ℕ) → Value → Items → Items

unfoldable pub count_items : Items → ℕ
count_items nil = 0
count_items (item key v xs) = suc (count_items xs)

unfoldable pub atom_text : Atom → List ℕ
atom_text (signed n) = number_text (signed_text n)
atom_text (unsigned n) = number_text (signed_text (of_word 64 n))
atom_text (real printed) = number_text printed
atom_text (boolean b) = bool_text b
atom_text (text string) = string_text string
atom_text (binary buff) = binary_text
atom_text null = null_text

unfoldable pub label : Bool → Option (List ℕ) → List ℕ
label r none = []
label r (some key) = key_text r key

-- Where a list ends: its bracket stands on a line of its own, if the text is to be read.
unfoldable pub tail : Bool → ℕ → List ℕ
tail true depth = 10 ∷ indent depth
tail false depth = []

unfoldable mutual
  pub value_text : Bool → ℕ → Value → List ℕ
  value_text r d (atom a) = atom_text a
  value_text r d (dictionary xs) = b'{' ∷ (body r d xs ++ (tail r d ++ (b'}' ∷ [])))
  value_text r d (array xs) = b'[' ∷ (body r d xs ++ (tail r d ++ (b']' ∷ [])))

  pub body : Bool → ℕ → Items → List ℕ
  body r d nil = []
  body r d (item key v xs) =
      lead r (suc d) ++ (label r key ++ (value_text r (suc d) v ++ more r (suc d) xs))

  -- Each further item, with what stands before it.
  pub more : Bool → ℕ → Items → List ℕ
  more r d nil = []
  more r d (item key v xs) = termination r d ++ (label r key ++ (value_text r d v ++ more r d xs))
