-- ===== src/ObjectParser/JsonLoader/Pointers.antt =====
-- op_json_loader.c: a getter answers only for its own type, and the tokens that were handed out live
-- until the buffer moves.
use rmm_2023_pre.Common.{
  ℕ, ◌≡◌, ◌≢◌, ◌⊎◌, ==_iff, refl, ap, ◌∙◌, sym, arith, true, false, Bool-cases, inl, inr, Option,
  none, some, ◌==◌, if◌then◌else◌,
}
use rmm_2023_pre.ObjectParser.Jsmn.{Range}
use rmm_2023_pre.ObjectParser.JsonLoader.{
  ObjectType, null, bool, int, real, str, array, dictionary, bin, object_code, Loader, Token, deref,
  add_token, get_type, checked,
}

refused_of {ℓ} :
    {R : Type ℓ}
    → (wanted type : ObjectType) → (read : Range → Option (Option R)) → (obj : Loader)
    → (token : Token) → get_type obj token ≡ some type
    → (object_code type == object_code wanted) ≡ false
    → checked wanted read obj token ≡ some none
unfolding checked
refused_of wanted type read obj token e f = rw (checked, e, f)

type_at : ℕ → ObjectType
type_at n =
    if n == 0
    then null
    else if n == 1
    then bool
    else if n == 2
    then int
    else if n == 3
    then real
    else if n == 4
    then str
    else if n == 5
    then array
    else if n == 6
    then dictionary
    else bin

type_at-object_code : (type : ObjectType) → type_at (object_code type) ≡ type
unfolding type_at
type_at-object_code null = refl
type_at-object_code bool = refl
type_at-object_code int = refl
type_at-object_code real = refl
type_at-object_code str = refl
type_at-object_code array = refl
type_at-object_code dictionary = refl
type_at-object_code bin = refl

same_type :
    (type wanted : ObjectType) → (object_code type == object_code wanted) ≡ true → type ≡ wanted
same_type type wanted h =
    sym (type_at-object_code type)
    ∙ ap type_at ((==_iff (object_code type) (object_code wanted)).0 h)
    ∙ type_at-object_code wanted

pub other_type {ℓ} :
    {R : Type ℓ}
    → (wanted type : ObjectType) → (read : Range → Option (Option R)) → (obj : Loader)
    → (token : Token) → get_type obj token ≡ some type
    → (type ≡ wanted) ⊎ (checked wanted read obj token ≡ some none)
other_type wanted type read obj token e =
    elim (Bool-cases (object_code type == object_code wanted)) [
      | inl h ↦ inl (same_type type wanted h)
      | inr h ↦ inr (refused_of wanted type read obj token e h)
    ]

test_apart : (a b c : ℕ) → (a == b) ≡ true → c ≢ b → (a == c) ≡ false
test_apart a b c h n = ground arith

live_here :
    (obj : Loader) (token : Token) (r : Range)
    → deref obj token ≡ some r
    → (token.buffer == obj.base) ≡ true
unfolding deref
live_here obj token r e = ground arith

-- When a token is added and the buffer of tokens moves, a token that was handed out before, and
-- could be read, cannot be read any more.
pub deref_moved :
    (obj : Loader) (token : Token) (heap : ℕ) (range : Range) (r : Range)
    → deref obj token ≡ some r
    → heap ≢ obj.base
    → deref ((add_token obj heap range).1) token ≡ none
unfolding deref add_token
deref_moved obj token heap range r e h =
    rw (test_apart token.buffer obj.base heap (live_here obj token r e) h)
