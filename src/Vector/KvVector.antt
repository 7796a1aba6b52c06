-- ===== src/Vector/KvVector.antt =====
-- src/core/kv_vector.c: a vector of key-value pairs, as the list of its entries. A value may be NULL.
pub mod Lookup
pub mod Arguments
use usp_agent_stomp.Common.{
  ℕ, ◌+◌, ◌-◌, Bool, true, false, ◌||◌, Option, none, some, List, [], ◌∷◌, ◌++◌, ltb, if◌then◌else◌,
  length, get_elem?, take, drop, Bytes, str_eq,
}
use usp_agent_stomp.Common.Int.{ℤ, pos, negsuc}
use usp_agent_stomp.Result.{invalid_arguments, invalid_value, Result, ok, err, abort, ◌>>=◌, ◌>>◌}
use usp_agent_stomp.Text.Hex.{string_to_binary}
use usp_agent_stomp.Text.Hex.RoundTrip.{to_hex}
use usp_agent_stomp.Text.Number.{string_to_unsigned, print_unsigned}
use usp_agent_stomp.Text.Path.{path_to_schema_form}
use usp_agent_stomp.Vector.StrVector.{str_vector_find}

abbrev pub KvPair : Type 0
KvPair = Bytes × Option Bytes

unfoldable pub kv_vector_add : List KvPair → Bytes → Option Bytes → List KvPair
kv_vector_add kvv key value = kvv ++ (key, value) ∷ []

-- The vector and whether a value was replaced.
unfoldable pub kv_vector_replace : List KvPair → Bytes → Option Bytes → List KvPair × Bool
kv_vector_replace [] key value = ([], false)
kv_vector_replace ((k, v) ∷ kvv) key value =
    let rest = kv_vector_replace kvv key value in
    if str_eq k key then ((k, value) ∷ kvv, true) else ((k, v) ∷ rest.0, rest.1)

unfoldable pub kv_vector_add_unsigned : List KvPair → Bytes → ℕ → List KvPair
kv_vector_add_unsigned kvv key value = kv_vector_add kvv key (some (print_unsigned value))

unfoldable pub kv_vector_add_hex_number : List KvPair → Bytes → Bytes → List KvPair
kv_vector_add_hex_number kvv key buf = kv_vector_add kvv key (some (to_hex buf))

-- One of the two loops of KV_VECTOR_FindKey, over the entries from index `i`.
unfoldable pub find_key_loop : List KvPair → Bytes → ℕ → Option ℕ
find_key_loop [] key i = none
find_key_loop (pair ∷ kvv) key i =
    let rest = find_key_loop kvv key (i + 1) in if str_eq pair.0 key then some i else rest

-- The hint, where it is in range.
abbrev pub start_of : List KvPair → ℤ → ℕ
start_of kvv (pos start_index) = if ltb (length kvv) start_index then 0 else start_index
start_of kvv (negsuc n) = 0

-- `none` is INVALID. The second loop ends before start_index-1.
unfoldable pub kv_vector_find_key : List KvPair → Bytes → ℤ → Option ℕ
kv_vector_find_key kvv key start_index =
    let start = start_of kvv start_index in
    elim (find_key_loop (drop start kvv) key start) [
      | some i ↦ some i
      | none ↦ find_key_loop (take (start - 1) kvv) key 0
    ]

abbrev value_at : List KvPair → ℕ → Option Bytes
value_at kvv i = elim (get_elem? kvv i) [ none ↦ none | some pair ↦ pair.1 ]

unfoldable pub kv_vector_get : List KvPair → Bytes → Option Bytes → ℤ → Option Bytes
kv_vector_get kvv key default_value start_index = elim (kv_vector_find_key kvv key start_index) [
  | none ↦ default_value
  | some index ↦ value_at kvv index
]

unsigned_of : (Bytes → ℕ × Bytes) → Option Bytes → Result ℕ
unsigned_of strtoul none = abort
unsigned_of strtoul (some str_value) = string_to_unsigned strtoul str_value

unfoldable pub kv_vector_get_unsigned : (Bytes → ℕ × Bytes) → List KvPair → Bytes → ℕ → Result ℕ
unfolding unsigned_of
kv_vector_get_unsigned strtoul kvv key default_value = elim (kv_vector_find_key kvv key (pos 0)) [
  | none ↦ ok default_value
  | some index ↦ unsigned_of strtoul (value_at kvv index)
]

unfoldable pub kv_vector_get_unsigned_within_range :
    (Bytes → ℕ × Bytes) → List KvPair → Bytes → ℕ → ℕ → ℕ → Result ℕ
kv_vector_get_unsigned_within_range strtoul kvv key default_value lower upper = do
  value ← kv_vector_get_unsigned strtoul kvv key default_value
  if ltb value lower || ltb upper value then err invalid_value else ok value

binary_of : Option Bytes → ℕ → Result Bytes
binary_of none len = abort
binary_of (some str_value) len = string_to_binary str_value len

-- The bytes that are copied; their number is the source's *bytes_copied.
unfoldable pub kv_vector_get_hex_number : List KvPair → Bytes → ℕ → Result Bytes
unfolding binary_of
kv_vector_get_hex_number kvv key len = elim (kv_vector_find_key kvv key (pos 0)) [
  | none ↦ ok []
  | some index ↦ binary_of (value_at kvv index) len
]

abbrev max_dm_path : ℕ
max_dm_path = 256

-- The search for duplicates from the entry `i`, the first of the given rest; the last entry is not
-- searched for.
unfoldable pub duplicates_loop : List KvPair → ℕ → List KvPair → Result (Unit {0})
duplicates_loop args i [] = ok tt
duplicates_loop args i (kv ∷ []) = ok tt
duplicates_loop args i (kv ∷ next ∷ rest) =
    let others = duplicates_loop args (i + 1) (next ∷ rest) in
    elim (kv_vector_find_key args kv.0 (pos (i + 1))) [
      | some index ↦ err invalid_arguments
      | none ↦ others
    ]

unfoldable pub schema_check : List KvPair → List Bytes → Result (Unit {0})
schema_check [] expected_schema = ok tt
schema_check (kv ∷ args) expected_schema =
    let others = schema_check args expected_schema in
    elim (str_vector_find expected_schema (path_to_schema_form kv.0 max_dm_path)) [
      | none ↦ err invalid_arguments
      | some index ↦ others
    ]

unfoldable pub kv_vector_validate_arguments : List KvPair → List Bytes → Result (Unit {0})
kv_vector_validate_arguments args expected_schema =
    duplicates_loop args 0 args >> schema_check args expected_schema
