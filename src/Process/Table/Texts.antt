-- ===== src/Process/Table/Texts.antt =====
-- pc_table.c: texts in the arrays of a service: what `memcpy` and the final NUL leave, and what `memcmp` over the
-- length of a query reads.
use rmm_2023_pre.Common.{
  ℕ, suc, ◌<◌, ◌≤◌, ◌≡◌, refl, ap, arith, true, none, some, List, [], ◌∷◌, ◌++◌, length, take, drop,
  bytes_eq_refl, length-append, length-drop, lt→ltb, leb, if◌then◌else◌,
}
use rmm_2023_pre.Std.Buffer.Splice.{take-length}
use rmm_2023_pre.Process.Table.{
  memcmp_eq, write_text, hash_of, Service, SockAddr, active_addr, new_service,
}

-- The bytes of a query are compared, and what follows them is not read.
pub memcmp_eq-append : (xs ys : List ℕ) → memcmp_eq (xs ++ ys) xs ≡ some true
unfolding memcmp_eq
memcmp_eq-append xs ys =
    ground (arith, length-append xs ys, take-length (length xs) xs ys refl, bytes_eq_refl xs)

take_all {ℓ} : {A : Type ℓ} (xs : List A) → take (length xs) xs ≡ xs
take_all [] = refl
take_all (x ∷ xs) = ap (λ l. x ∷ l) (take_all xs)

pub write_text_fits :
    (old text : List ℕ)
    → length text < length old
    → write_text old text (length text) ≡ some (text ++ (0 ∷ drop (suc (length text)) old))
unfolding write_text
write_text_fits old text h = rw (lt→ltb _ _ h, take_all text)

pub length-write_text :
    (old text : List ℕ)
    → length text < length old
    → length (text ++ (0 ∷ drop (suc (length text)) old)) ≡ length old
length-write_text old text h = omega (
  arith,
  length-append text (0 ∷ drop (suc (length text)) old),
  length-drop (suc (length text)) old,
)

-- The service that is added when both texts fit.
abbrev pub entry : List ℕ → List ℕ → List ℕ → List ℕ → SockAddr → Service
entry old_service old_name q n addr = record {
  hash = hash_of q n;
  service = q ++ (0 ∷ drop (suc (length q)) old_service);
  name = n ++ (0 ∷ drop (suc (length n)) old_name);
  addrs = active_addr addr ∷ [];
}

pub new_service_fits :
    (old_service old_name q n : List ℕ) (addr : SockAddr)
    → length old_service ≡ 64
    → length old_name ≡ 128
    → length q < 64
    → length n < 128
    → new_service old_service old_name q n addr ≡ some (entry old_service old_name q n addr)
unfolding new_service
new_service_fits old_service old_name q n addr h k l p =
    ground
      (arith, write_text_fits old_name n (omega arith), write_text_fits old_service q (omega arith))

-- A type that is too long is cut, a name is not.
pub new_service-some :
    (old_service old_name q n : List ℕ) (addr : SockAddr)
    → length old_service ≡ 64
    → length old_name ≡ 128
    → length n < 128
    → (s : Service) × (new_service old_service old_name q n addr ≡ some s)
unfolding new_service write_text
new_service-some old_service old_name q n addr h k p =
    let len : ℕ = if leb 64 (length q) then 63 else length q in
    (
      record {
        hash = hash_of q n;
        service = take len q ++ (0 ∷ drop (suc len) old_service);
        name = take (length n) n ++ (0 ∷ drop (suc (length n)) old_name);
        addrs = active_addr addr ∷ [];
      },
      ground arith,
    )

pub new_service-none :
    (old_service old_name q n : List ℕ) (addr : SockAddr)
    → length old_name ≡ 128
    → 128 ≤ length n
    → new_service old_service old_name q n addr ≡ none
unfolding new_service write_text
new_service-none old_service old_name q n addr k p = ground arith
