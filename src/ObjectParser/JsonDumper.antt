-- ===== src/ObjectParser/JsonDumper.antt =====
-- lib/object_parser/src/json/op_json_dumper.c: a text of JSON that grows call by call. The SABuffer is
-- the list of its bytes. `none` is a call that the code cannot survive: an end without its start. What
-- `sprintf` prints of a `float` or `double` is its argument.
pub mod Layout
pub mod Calls
pub mod Clashes
mod Tests
use rmm_2023_pre.Common.{
  ℕ, zero, suc, ◌+◌, ◌-◌, ◌*◌, ◌/◌, ◌%◌, Bool, true, false, Option, none, some, List, [], ◌∷◌, ◌++◌,
  ltb, leb, ◌==◌, if◌then◌else◌, length, take,
}
use rmm_2023_pre.Common.Int.{ℤ, pos, negsuc, of_word}

-- `struct OPJsonDumper_info_t`, without the table of the callbacks.
pub record Dumper : Type 0 where
  pub is_readble : Bool
  pub cur_depth : ℕ
  pub buffer : List ℕ

pub create : Bool → Dumper
create is_readble = record { is_readble = is_readble; cur_depth = 0; buffer = [] }

abbrev pub add_text : List ℕ → Dumper → Dumper
add_text text obj = record {
  is_readble = obj.is_readble;
  cur_depth = obj.cur_depth;
  buffer = obj.buffer ++ text;
}

-- The loop that adds four blanks for each level.
pub indent : ℕ → List ℕ
indent zero = []
indent (suc depth) = b' ' ∷ b' ' ∷ b' ' ∷ b' ' ∷ indent depth

pub termination : Bool → ℕ → List ℕ
unfolding indent
termination is_readble zero = []
termination true (suc depth) = b',' ∷ 10 ∷ indent (suc depth)
termination false (suc depth) = b',' ∷ []

pub vars_termination : Dumper → Dumper
vars_termination obj = add_text (termination obj.is_readble obj.cur_depth) obj

-- What is written after a bracket that opens, besides the blank of an empty one.
pub lead : Bool → ℕ → List ℕ
lead true depth = 10 ∷ indent depth
lead false depth = []

-- The two functions that start differ in the bracket.
pub start : ℕ → Dumper → ℕ → Dumper
unfolding lead
start bracket obj count =
    add_text
      (bracket
        ∷ (lead obj.is_readble (suc obj.cur_depth) ++ (if count == 0 then b' ' ∷ [] else [])))
      (record { is_readble = obj.is_readble; cur_depth = suc obj.cur_depth; buffer = obj.buffer })

pub dictionary_start : Dumper → ℕ → Dumper
unfolding start
dictionary_start = start b'{'

pub array_start : Dumper → ℕ → Dumper
unfolding start
array_start = start b'['

-- The last bytes go; there must be as many.
pub remove_tail : ℕ → List ℕ → Option (List ℕ)
remove_tail n bytes = if leb n (length bytes) then some (take (length bytes - n) bytes) else none

-- The two functions that end differ in the bracket.
pub end_at : ℕ → Bool → ℕ → List ℕ → Option Dumper
end_at bracket is_readble zero bytes = none
end_at bracket true (suc depth) bytes = elim (remove_tail (2 + 4 * suc depth) bytes) [
  | none ↦ none
  | some kept ↦ some (
      vars_termination (record {
        is_readble = true;
        cur_depth = depth;
        buffer = kept ++ (10 ∷ (indent depth ++ (bracket ∷ [])));
      }))
]
end_at bracket false (suc depth) bytes = elim (remove_tail 1 bytes) [
  | none ↦ none
  | some kept ↦ some (
      vars_termination
        (record { is_readble = false; cur_depth = depth; buffer = kept ++ (bracket ∷ []) }))
]

pub dictionary_end : Dumper → Option Dumper
unfolding end_at
dictionary_end obj = end_at b'}' obj.is_readble obj.cur_depth obj.buffer

pub array_end : Dumper → Option Dumper
unfolding end_at
array_end obj = end_at b']' obj.is_readble obj.cur_depth obj.buffer

pub key_text : Bool → List ℕ → List ℕ
key_text is_readble key = b'"' ∷ (key ++ (b'"' ∷ b':' ∷ (if is_readble then b' ' ∷ [] else [])))

pub dictionary_set_key : Dumper → List ℕ → Dumper
unfolding key_text
dictionary_set_key obj key = add_text (key_text obj.is_readble key) obj

-- `%lld` of a number; twenty digits are enough for 64 bits.
pub digits : ℕ → ℕ → List ℕ
digits zero n = []
digits (suc left) n =
    let front = digits left (n / 10) in
    if ltb n 10 then (b'0' + n) ∷ [] else front ++ ((b'0' + n % 10) ∷ [])

pub signed_text : ℤ → List ℕ
unfolding digits
signed_text (pos n) = digits 20 n
signed_text (negsuc n) = b'-' ∷ digits 20 (suc n)

abbrev pub null_text : List ℕ
null_text = b'n' ∷ b'u' ∷ b'l' ∷ b'l' ∷ []

-- What the calls that set a number write of what `sprintf` printed.
pub number_text : List ℕ → List ℕ
number_text printed = if ltb 0 (length printed) then printed else null_text

pub int_set_signed : Dumper → ℤ → Dumper
unfolding number_text signed_text vars_termination
int_set_signed obj value = vars_termination (add_text (number_text (signed_text value)) obj)

-- The format is that of signed numbers, so the word is printed as one.
pub int_set_unsigned : Dumper → ℕ → Dumper
unfolding number_text signed_text vars_termination
int_set_unsigned obj value =
    vars_termination (add_text (number_text (signed_text (of_word 64 value))) obj)

pub real_set : Dumper → List ℕ → Dumper
unfolding number_text vars_termination
real_set obj printed = vars_termination (add_text (number_text printed) obj)

pub bool_text : Bool → List ℕ
bool_text true = b't' ∷ b'r' ∷ b'u' ∷ b'e' ∷ []
bool_text false = b'f' ∷ b'a' ∷ b'l' ∷ b's' ∷ b'e' ∷ []

pub bool_set : Dumper → Bool → Dumper
unfolding bool_text vars_termination
bool_set obj value = vars_termination (add_text (bool_text value) obj)

pub string_text : List ℕ → List ℕ
string_text string = b'"' ∷ (string ++ (b'"' ∷ []))

pub string_set : Dumper → List ℕ → Dumper
unfolding string_text vars_termination
string_set obj string = vars_termination (add_text (string_text string) obj)

abbrev pub binary_text : List ℕ
binary_text = b'b' ∷ b'i' ∷ b'n' ∷ b'a' ∷ b'r' ∷ b'y' ∷ []

pub binary_set : Dumper → List ℕ → Dumper
unfolding vars_termination
binary_set obj buff = vars_termination (add_text binary_text obj)

pub null_set : Dumper → Dumper
unfolding vars_termination
null_set obj = vars_termination (add_text null_text obj)

-- A NUL is put last, unless there is one.
pub ends_with_nul : List ℕ → Bool
ends_with_nul [] = false
ends_with_nul (b ∷ []) = b == 0
ends_with_nul (b ∷ (c ∷ bs)) = ends_with_nul (c ∷ bs)

pub dump_ptr : Dumper → List ℕ × Dumper
unfolding ends_with_nul
dump_ptr obj =
    let ended = if ends_with_nul obj.buffer then obj else add_text (0 ∷ []) obj in
    (ended.buffer, ended)

pub dump_length : Dumper → ℕ × Dumper
unfolding ends_with_nul
dump_length obj =
    let ended = if ends_with_nul obj.buffer then obj else add_text (0 ∷ []) obj in
    (length ended.buffer - 1, ended)

-- `OPDumper_dumpRead`: a buffer that is too small gets the first bytes.
pub dump_read : Dumper → ℕ → List ℕ × Dumper
unfolding dump_length dump_ptr
dump_read obj out_len =
    let (dump_len, sized) = dump_length obj in
    let (bytes, ended) = dump_ptr sized in
    (take (if ltb out_len dump_len then out_len else dump_len) bytes, ended)
