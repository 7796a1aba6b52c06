-- ===== src/Text/Path.antt =====
-- src/core/text_utils.c: the functions on data model paths.
pub mod Schema
use usp_agent_stomp.Common.{
  ℕ, zero, suc, ◌+◌, ◌-◌, ◌≡◌, refl, Bool, true, false, ◌&&◌, Option, none, some, [], ◌∷◌, ◌++◌,
  ltb, leb, ◌==◌, if◌then◌else◌, take, Bytes, codes, is_numeric, is_alpha_numeric,
}

unfoldable pub count_consecutive_digits : Bytes → ℕ
count_consecutive_digits [] = 0
count_consecutive_digits (c ∷ s) =
    let rest = count_consecutive_digits s in if is_numeric c then suc rest else 0

unfoldable pub is_symbol : Bytes → Bool
is_symbol [] = true
is_symbol (c ∷ buf) = is_alpha_numeric c && is_symbol buf

-- strrchr(path, '.'): the text behind the last dot, and the length of the text up to it.
unfoldable pub last_dot : Bytes → ℕ → Option (ℕ × Bytes)
last_dot [] i = none
last_dot (c ∷ path) i = elim (last_dot path (i + 1)) [
  | some found ↦ some found
  | none ↦ if c == b'.' then some (i + 1, path) else none
]

-- The name returned, and what is written into the buffer of `len` bytes: the path up to the last
-- dot, cut to fit. Without a dot the source returns the (emptied) buffer.
unfoldable pub split_path : Bytes → ℕ → Bytes × Bytes
split_path path len = elim (last_dot path 0) [
  | none ↦ ([], [])
  | some (size, name) ↦ (name, take (if leb size (len - 1) then size else len - 1) path)
]

-- The position behind the `separator_split`-th dot, and the text from there.
unfoldable pub nth_dot : ℕ → Bytes → ℕ → Option (ℕ × Bytes)
nth_dot zero p i = some (i, p)
nth_dot (suc n) [] i = none
nth_dot (suc n) (c ∷ p) i = if c == b'.' then nth_dot n p (i + 1) else nth_dot (suc n) p (i + 1)

unfoldable pub split_path_at_separator : Bytes → ℕ → ℕ → Bytes × Bytes
split_path_at_separator path len zero = split_path path len
split_path_at_separator path len (suc n) = elim (nth_dot (suc n) path 0) [
  | none ↦ split_path path len
  | some (size, p) ↦ (p, take (if leb size (len - 1) then size else len - 1) path)
]

-- The loop of TEXT_UTILS_PathToSchemaForm with `len` bytes left; `in_number` while the digits behind
-- an instance separator are skipped. The source looks at the room left after each write.
unfoldable pub schema_loop : Bytes → ℕ → Bool → Bytes
schema_loop [] len in_number = []
schema_loop (c ∷ path) len in_number =
    let skipped = schema_loop path len true in
    let number = schema_loop path (len - 3) true in
    let plain = schema_loop path (len - 1) false in
    if is_numeric c
    then if in_number then skipped else codes "{i}" ++ (if ltb (len - 3) 4 then [] else number)
    else c ∷ (if ltb (len - 1) 4 then [] else plain)

unfoldable pub path_to_schema_form : Bytes → ℕ → Bytes
path_to_schema_form path len = schema_loop path len false

abbrev pub ends_in_dot : Bytes → Bool
ends_in_dot [] = false
ends_in_dot (c ∷ []) = c == b'.'
ends_in_dot (c ∷ d ∷ path) = ends_in_dot (d ∷ path)

-- The source reads path[len-1], which stands before an empty path; the model takes it for no dot.
unfoldable pub str_dup_with_trailing_dot : Bytes → Bytes
str_dup_with_trailing_dot path = if ends_in_dot path then path else path ++ b'.' ∷ []

schema_runs :
    path_to_schema_form (codes "Value.14.Stuff.6752.Other") 256 ≡ codes "Value.{i}.Stuff.{i}.Other"
unfolding path_to_schema_form schema_loop
schema_runs = refl
