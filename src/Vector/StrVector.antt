-- ===== src/Vector/StrVector.antt =====
-- src/core/str_vector.c: a vector of strings, as the list of its entries.
pub mod Order
use usp_agent_stomp.Common.{
  ℕ, ◌+◌, ◌≡◌, ◌↔◌, Bool, true, false, ◌&&◌, Option, none, some, List, [], ◌∷◌, ◌++◌, map, arith,
  ltb, ◌==◌, if◌then◌else◌, length, Bytes, str_eq, str_eq_iff,
}
use usp_agent_stomp.Common.Int.{ℤ, pos, sub_ℕ, ◌-ℤ◌}
use usp_agent_stomp.Text.Path.{count_consecutive_digits}

abbrev pub str_vector_init : List Bytes
str_vector_init = []

-- A NULL string is copied as an empty one.
unfoldable pub str_vector_clone : List (Option Bytes) → List Bytes
str_vector_clone [] = []
str_vector_clone (none ∷ src) = [] ∷ str_vector_clone src
str_vector_clone (some str ∷ src) = str ∷ str_vector_clone src

unfoldable pub str_vector_add : List Bytes → Bytes → List Bytes
str_vector_add sv str = sv ++ str ∷ []

unfoldable pub find_loop : List Bytes → Bytes → ℕ → Option ℕ
find_loop [] str i = none
find_loop (s ∷ sv) str i = if str_eq s str then some i else find_loop sv str (i + 1)

-- `none` is INVALID.
unfoldable pub str_vector_find : List Bytes → Bytes → Option ℕ
str_vector_find sv str = find_loop sv str 0

unfoldable pub str_vector_add_if_not_exist : List Bytes → Bytes → List Bytes
unfolding str_vector_add
str_vector_add_if_not_exist sv str = elim (str_vector_find sv str) [
  | some index ↦ sv
  | none ↦ str_vector_add sv str
]

-- The key-value pairs, and the emptied vector.
unfoldable pub str_vector_convert_to_key_value_vector :
    List Bytes → List (Bytes × Option Bytes) × List Bytes
str_vector_convert_to_key_value_vector sv = (map (λ key. (key, none)) sv, [])

compare_loop : List Bytes → List Bytes → Bool
compare_loop [] sv2 = true
compare_loop (s ∷ sv1) [] = false
compare_loop (s ∷ sv1) (t ∷ sv2) = str_eq s t && compare_loop sv1 sv2

unfoldable pub str_vector_compare : List Bytes → List Bytes → Bool
unfolding compare_loop
str_vector_compare sv1 sv2 = length sv1 == length sv2 && compare_loop sv1 sv2

-- (int)c, where `char` is signed, as on the targets that the build files name.
abbrev pub char_int : ℕ → ℤ
char_int c = if ltb c 128 then pos c else sub_ℕ c 256

-- The end of a string is its NUL, of value 0.
unfoldable pub natural_str_cmp : Bytes → Bytes → ℤ
natural_str_cmp [] [] = pos 0
natural_str_cmp [] (c2 ∷ s2) = pos 0 -ℤ char_int c2
natural_str_cmp (c1 ∷ s1) [] = char_int c1
natural_str_cmp (c1 ∷ s1) (c2 ∷ s2) =
    let num_digits_s1 = count_consecutive_digits (c1 ∷ s1) in
    let num_digits_s2 = count_consecutive_digits (c2 ∷ s2) in
    let rest = natural_str_cmp s1 s2 in
    if c1 == c2
    then rest
    else if num_digits_s1 == num_digits_s2
    then char_int c1 -ℤ char_int c2
    else sub_ℕ num_digits_s1 num_digits_s2

-- Two vectors are compared equal exactly if their entries are the same in the same order.
pub str_vector_compare_iff :
    (sv1 sv2 : List Bytes) → (str_vector_compare sv1 sv2 ≡ true) ↔ (sv1 ≡ sv2)
unfolding str_vector_compare
str_vector_compare_iff [] [] = ground arith
str_vector_compare_iff [] (t ∷ sv2) = ground arith
str_vector_compare_iff (s ∷ sv1) [] = ground arith
str_vector_compare_iff (s ∷ sv1) (t ∷ sv2) =
    ground (arith, str_eq_iff s t, str_vector_compare_iff sv1 sv2)
