-- ===== src/DataModel/Paths.antt =====
-- src/core/data_model.c: paths of the data model, split into the segments that name nodes and the
-- instance numbers between them, and instance numbers as texts. A `char *` is the list of its bytes
-- up to the NUL, a buffer the list of those that were written.
pub mod Numerals
pub mod Buffer
use usp_agent_stomp.Common.{
  ℕ, zero, suc, ◌+◌, ◌-◌, ◌*◌, Bool, true, false, not, ◌&&◌, ◌||◌, Option, none, some, List, [],
  ◌∷◌, ◌++◌, ltb, ◌==◌, if◌then◌else◌, length, take, drop, Bytes, is_numeric, str_eq,
}
use usp_agent_stomp.Result.{internal_error, Result, ok, err, abort, out_of_fuel, ◌>>=◌}
use usp_agent_stomp.Text.Number.{print_unsigned}
use usp_agent_stomp.DataModel.Instances.{max_dm_instance_order}

abbrev pub max_dm_path : ℕ
max_dm_path = 256

abbrev pub max_path_segments : ℕ
max_path_segments = 32

-- MULTI_SEPARATOR
abbrev pub multi_separator : Bytes
multi_separator = b'{' ∷ b'i' ∷ b'}' ∷ []

-- dm_node_type_t
pub data NodeType : Type 0 where
  object_multi_instance object_single_instance param_constant_value param_num_entries : NodeType
  db_param_read_write db_param_read_only db_param_read_only_auto : NodeType
  db_param_read_write_auto db_param_secure vendor_param_read_only : NodeType
  vendor_param_read_write sync_operation async_operation event : NodeType

-- The number of an enumerator, by which the source compares types.
abbrev pub type_number : NodeType → ℕ
type_number object_multi_instance = 0
type_number object_single_instance = 1
type_number param_constant_value = 2
type_number param_num_entries = 3
type_number db_param_read_write = 4
type_number db_param_read_only = 5
type_number db_param_read_only_auto = 6
type_number db_param_read_write_auto = 7
type_number db_param_secure = 8
type_number vendor_param_read_only = 9
type_number vendor_param_read_write = 10
type_number sync_operation = 11
type_number async_operation = 12
type_number event = 13

abbrev pub same_type : NodeType → NodeType → Bool
same_type a b = type_number a == type_number b

abbrev pub is_multi : NodeType → Bool
is_multi type = type_number type == 0

-- dm_path_segment
pub record PathSegment : Type 0 where
  pub name : Bytes
  pub type : NodeType

-- The bytes up to the next NUL.
unfoldable pub c_string : Bytes → Bytes
c_string [] = []
c_string (c ∷ s) = let rest = c_string s in if c == 0 then [] else c ∷ rest

-- What is written to the buffer, which has room for `n` bytes before its NUL.
unfoldable pub copy_segments : ℕ → Bytes → Bytes
copy_segments zero src = []
copy_segments (suc n) [] = []
copy_segments (suc n) (c ∷ src) = (if c == b'.' then 0 else c) ∷ copy_segments n src

unfoldable pub discard_trailing : Bytes → Bytes
discard_trailing [] = []
discard_trailing (c ∷ []) = if c == 0 then [] else c ∷ []
discard_trailing (c ∷ d ∷ s) = c ∷ discard_trailing (d ∷ s)

-- The bytes that the length returned counts; the length is that of this list.
unfoldable pub strncpy_path_segments : ℕ → Bytes → Bytes
unfolding copy_segments discard_trailing
strncpy_path_segments maxlen src = discard_trailing (copy_segments (maxlen - 1) src)

-- The rounds of ParsePath from a place in the buffer on; `last` says that the byte before was a NUL.
unfoldable pub path_loop :
    (Bytes → ℕ) → Bytes → Bool → List Bytes → List ℕ → Option (List Bytes × List ℕ)
unfolding c_string
path_loop atoi [] last segments numbers = some (segments, numbers)
path_loop atoi (c ∷ s) last segments numbers =
    let next = path_loop atoi s (c == 0) in
    if last && not (c == 0)
    then if is_numeric c
      then if length numbers == max_dm_instance_order
        then none
        else next segments (numbers ++ atoi (c_string (c ∷ s)) ∷ [])
      else if length segments == max_path_segments
      then none
      else next (segments ++ c_string (c ∷ s) ∷ []) numbers
    else next segments numbers

-- The segments and the instance numbers of a path; `none` is -1.
unfoldable pub parse_path : (Bytes → ℕ) → Bytes → Option (List Bytes × List ℕ)
unfolding path_loop
parse_path atoi path = path_loop atoi (strncpy_path_segments max_dm_path path) true [] []

-- segments[num_segments - 1].type = type
abbrev pub set_last_type : NodeType → List PathSegment → List PathSegment
set_last_type type [] = []
set_last_type type (seg ∷ []) = record seg { type = type } ∷ []
set_last_type type (seg ∷ seg' ∷ segments) = seg ∷ set_last_type type (seg' ∷ segments)

-- A path that starts with a separator writes before the array.
abbrev pub multi_last : List PathSegment → Result (List PathSegment)
multi_last [] = abort
multi_last (seg ∷ segments) = ok (set_last_type object_multi_instance (seg ∷ segments))

unfoldable pub schema_path_loop :
    Bytes → Bool → List PathSegment → Result (Option (List PathSegment))
unfolding c_string
schema_path_loop [] last segments = ok (some segments)
schema_path_loop (c ∷ s) last segments =
    let next = schema_path_loop s (c == 0) in
    let name = c_string (c ∷ s) in
    if last && not (c == 0)
    then if str_eq name multi_separator || is_numeric c
      then multi_last segments >>= next
      else if length segments == max_path_segments
      then ok none
      else next (segments ++ record { name = name; type = object_single_instance } ∷ [])
    else next segments

-- The segments of a schema path whose last node has the type; `none` is -1.
unfoldable pub parse_schema_path : NodeType → Bytes → Result (Option (List PathSegment))
unfolding schema_path_loop
parse_schema_path type path = do
  parsed ← schema_path_loop (strncpy_path_segments max_dm_path path) true []
  ok (elim parsed [
    | none ↦ none
    | some segments ↦ some (if is_multi type then segments else set_last_type type segments)
  ])

-- USP_SNPRINTF into a buffer of `size` bytes: what is written, and the number that is returned.
abbrev pub usp_snprintf : ℕ → Bytes → Bytes × ℕ
usp_snprintf size text =
    (take (size - 1) text, if ltb size (length text) then size else length text)

unfoldable pub instance_string_loop : List ℕ → Bytes → ℕ → Bytes → Result Bytes
instance_string_loop [] separator len buf = ok buf
instance_string_loop (n ∷ numbers) separator len buf =
    let (written, count) = usp_snprintf len (separator ++ print_unsigned n) in
    let next = instance_string_loop numbers (b'.' ∷ []) (len - count) (buf ++ written) in
    if count == 0 then abort else next

-- FormInstanceString, for the instance numbers of a structure and a buffer of `len` bytes.
unfoldable pub form_instance_string : List ℕ → ℕ → Result Bytes
unfolding instance_string_loop
form_instance_string numbers len = instance_string_loop numbers [] len []

-- The number behind `value` and what follows it. The sum is not bounded to an `int`.
unfoldable pub parse_instance_integer : ℕ → Bytes → Option (ℕ × Bytes)
parse_instance_integer value [] = some (value, [])
parse_instance_integer value (c ∷ s) =
    let next = parse_instance_integer (value * 10 + (c - b'0')) s in
    if c == b'.' then some (value, s) else if is_numeric c then next else none

-- A seventh number is written behind the array.
unfoldable pub parse_instances_loop : ℕ → Bytes → List ℕ → Result (List ℕ)
unfolding parse_instance_integer
parse_instances_loop fuel [] numbers = ok numbers
parse_instances_loop zero (c ∷ s) numbers = out_of_fuel
parse_instances_loop (suc fuel) (c ∷ s) numbers = elim (parse_instance_integer 0 (c ∷ s)) [
  | none ↦ err internal_error
  | some (value, rest) ↦
      if length numbers == max_dm_instance_order
      then abort
      else parse_instances_loop fuel rest (numbers ++ value ∷ [])
]

unfoldable pub parse_instance_string : Bytes → Result (List ℕ)
unfolding parse_instances_loop
parse_instance_string instances = parse_instances_loop (length instances) instances []

-- A round of DM_PRIV_FormPath_FromDM on what is left of the schema path, the numbers and the buffer.
-- A byte that has no room is not copied and not passed over, so that the loop goes round for ever;
-- a number that fills the buffer leaves the NUL to be written behind it.
unfoldable pub form_path_loop : ℕ → Bytes → List ℕ → ℕ → Bytes → Result Bytes
form_path_loop fuel [] numbers len buf = if len == 0 then abort else ok buf
form_path_loop zero (c ∷ src) numbers len buf = out_of_fuel
form_path_loop (suc fuel) (c ∷ src) numbers len buf =
    if str_eq (take 3 (c ∷ src)) multi_separator
    then elim numbers [
      | [] ↦ abort
      | n ∷ numbers' ↦
          let (written, count) = usp_snprintf len (print_unsigned n) in
          form_path_loop fuel (drop 2 src) numbers' (len - count) (buf ++ written)
    ]
    else elim (ltb 1 len) [
      | true ↦ form_path_loop fuel src numbers (len - 1) (buf ++ c ∷ [])
      | false ↦ form_path_loop fuel (c ∷ src) numbers len buf
    ]
