-- ===== src/Can/Callbacks.antt =====
-- The callback lists of pkg/can_smbus/src/core/io/cs_rx.c. A list of `count` callbacks in an array
-- of that many cells is a list, and `count` its length.
pub mod Close
mod Tests
use rmm_2023_pre.Common.{
  ℕ, zero, suc, ◌+◌, ◌-◌, Bool, true, false, List, [], ◌∷◌, ◌++◌, map, Option, none, some, ◌&&◌,
  ◌||◌, ◌==◌, ltb, if◌then◌else◌, length, get_elem?, set, take,
}
use rmm_2023_pre.Can.Types.{get_number_id, get_number_reg}

-- `struct CSRx_callbackInfo_t`: the addresses of a function and of its argument.
pub record Callback : Type 0 where
  pub func : ℕ
  pub args : ℕ

-- The test of `CSRx_callbackListClose`.
unfoldable pub is_callback : Callback → Callback → Bool
is_callback c cb = c.func == cb.func && c.args == cb.args

unfoldable pub list_add : List Callback → Callback → List Callback
list_add list cb = list ++ (cb ∷ [])

-- `callbacks[i] = callbacks[i + 1]`, field by field.
pub copy_down : ℕ → List Callback → List Callback
copy_down i list = elim (get_elem? list (i + 1)) [ none ↦ list | some c ↦ set list i c ]

-- The inner loop, `n` rounds of it, and `count--`.
pub push_loop : ℕ → ℕ → List Callback → List Callback
unfolding copy_down
push_loop zero i list = list
push_loop (suc n) i list = push_loop n (i + 1) (copy_down i list)

pub remove_at : ℕ → List Callback → List Callback
unfolding push_loop
remove_at i list = take (length list - 1) (push_loop (length list - (i + 1)) i list)

-- The outer loop from index `i` on. The fuel bounds its rounds: the index grows in each, and the
-- count never does.
pub close_loop : ℕ → Callback → ℕ → List Callback → Bool → List Callback × Bool
close_loop zero cb i list is_hit = (list, is_hit)
close_loop (suc fuel) cb i list is_hit = elim (get_elem? list i) [
  | none ↦ (list, is_hit)
  | some c ↦
      close_loop fuel cb (i + 1) (if is_callback c cb then remove_at i list else list)
        (is_callback c cb || is_hit)
]

pub list_close : List Callback → Callback → List Callback × Bool
unfolding close_loop is_callback remove_at
list_close list cb = close_loop (length list) cb 0 list false

-- What one callback is called with.
pub record Call : Type 0 where
  pub to : Callback
  pub id : ℕ
  pub reg : ℕ
  pub len : ℕ
  pub bytes : List ℕ

unfoldable pub list_call : List Callback → ℕ → ℕ → ℕ → List ℕ → List Call
list_call list id reg len bytes =
    map
      (λ cb. record {
        to = cb;
        id = get_number_id id;
        reg = get_number_reg reg;
        len = len;
        bytes = bytes;
      })
      list
