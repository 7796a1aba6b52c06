-- ===== src/Tests/SchemaRuns.antt =====
-- src/core/data_model.c: the registration of a table with a parameter, and paths to them.
use usp_agent_stomp.Common.{
  ℕ, ◌-◌, ◌≤◌, ◌<◌, ◌≡◌, refl, ◌⊎◌, inl, inr, true, false, none, some, [], ◌∷◌, arith, ◌==◌,
  if◌then◌else◌, length, Bytes, codes, str_eq,
}
use usp_agent_stomp.Result.{ok, Returns}
use usp_agent_stomp.Text.Number.{print_unsigned}
use usp_agent_stomp.DataModel.Access.{data_model_get_path_properties}
use usp_agent_stomp.DataModel.Access.Properties.{IsReported, data_model_get_path_properties_lem}
use usp_agent_stomp.DataModel.Instances.{zeros, Inst, Vectors}
use usp_agent_stomp.DataModel.Paths.{
  object_multi_instance, object_single_instance, vendor_param_read_write, event, PathSegment,
  strncpy_path_segments, parse_path, parse_schema_path, form_instance_string, parse_instance_string,
}
use usp_agent_stomp.DataModel.Paths.Numerals.{numerals, parse-form_instance_string}
use usp_agent_stomp.DataModel.Registry.{
  DmNode, Registry, find_child, find_root, Flags, add_segments, dm_priv_add_schema_path,
  dm_priv_get_node_from_path,
}
use usp_agent_stomp.DataModel.Registry.Adding.{names_of}
use usp_agent_stomp.DataModel.Registry.Lookup.{IsSchemaPath, Registers, dm_priv_add_schema_path_lem}
use usp_agent_stomp.DataModel.Registry.Roots.{roots, roots-IsTree}
use usp_agent_stomp.DataModel.Registry.Tree.{IsRegistered, IsTree}

abbrev table_path : Bytes
table_path = codes "Device.A.{i}"

abbrev segment_device : PathSegment
segment_device = record { name = codes "Device"; type = object_single_instance }

abbrev segment_table : PathSegment
segment_table = record { name = codes "A"; type = object_multi_instance }

abbrev no_flags : Flags
no_flags = record { suppress_pre_existance_err = false; suppress_last_type_check = false }

table-IsSchemaPath :
    IsSchemaPath roots table_path object_multi_instance 1 segment_device (segment_table ∷ [])
unfolding parse_schema_path strncpy_path_segments find_root str_eq
table-IsSchemaPath = record {
  parsed = refl;
  rooted = refl;
  hashed = (λ db. cc, tt);
  fits = (omega arith, tt);
  room = omega arith;
}

dm_priv_add_schema_path_lem_example :
    Returns
      (Registers roots (names_of (segment_device ∷ segment_table ∷ [])))
      (dm_priv_add_schema_path roots table_path object_multi_instance no_flags)
dm_priv_add_schema_path_lem_example =
    dm_priv_add_schema_path_lem roots table_path object_multi_instance no_flags 1 segment_device
      (segment_table ∷ []) roots-IsTree table-IsSchemaPath

-- The table below the root, and a parameter in it.
abbrev pub nodes : ℕ → DmNode
nodes n =
    if n == 4
    then record {
      path = codes "Device.A.{i}.B";
      name = codes "B";
      type = vendor_param_read_write;
      child_nodes = [];
      hash = 0;
      order = 1;
      instance_nodes = 3 ∷ 0 ∷ 0 ∷ 0 ∷ 0 ∷ 0 ∷ [];
      permissions = 0 ∷ 0 ∷ [];
    }
    else if n == 3
    then record {
      path = codes "Device.A.{i}";
      name = codes "A";
      type = object_multi_instance;
      child_nodes = 4 ∷ [];
      hash = 0;
      order = 1;
      instance_nodes = 3 ∷ 0 ∷ 0 ∷ 0 ∷ 0 ∷ 0 ∷ [];
      permissions = 0 ∷ 0 ∷ [];
    }
    else if n == 1
    then record (roots.nodes 1) { child_nodes = 3 ∷ [] }
    else roots.nodes n

abbrev pub with_table : Registry
with_table = record roots { nodes = nodes; num_nodes = 4 }

-- The value of texts of one digit, as atoi gives it.
abbrev pub first_digit : Bytes → ℕ
first_digit [] = 0
first_digit (c ∷ s) = c - b'0'

abbrev pub row : ℕ → Inst
row n = record {
  order = 1;
  instances = n ∷ 0 ∷ 0 ∷ 0 ∷ 0 ∷ 0 ∷ [];
  nodes = 3 ∷ 0 ∷ 0 ∷ 0 ∷ 0 ∷ 0 ∷ [];
}

finds_the_row :
    dm_priv_get_node_from_path with_table first_digit (codes "Device.A.7") ≡ some (3, row 7, true)
unfolding dm_priv_get_node_from_path parse_path strncpy_path_segments str_eq zeros
finds_the_row = refl

finds_the_table :
    (inst : Inst) × (dm_priv_get_node_from_path with_table first_digit (codes "Device.A.")
      ≡ some (3, inst, false))
unfolding dm_priv_get_node_from_path parse_path strncpy_path_segments str_eq zeros
finds_the_table = (_, refl)

registers_the_parameter :
    (reg : Registry) × (dm_priv_add_schema_path with_table (codes "Device.A.{i}.B.") event no_flags
      ≡ ok (reg, none))
unfolding dm_priv_add_schema_path parse_schema_path strncpy_path_segments str_eq add_segments
    find_child
registers_the_parameter = (_, refl)

device-IsRegistered : IsRegistered with_table 1
unfolding zeros
device-IsRegistered = record {
  children = (((omega arith, omega arith), refl), tt);
  few = omega arith;
  counted = refl;
  padded = refl;
  tables = tt;
  older = (omega arith, tt);
  deep = λ d. cc;
  last_table = λ d. absurd (cc);
}

internal-IsRegistered : IsRegistered with_table 2
unfolding zeros
internal-IsRegistered = record {
  children = tt;
  few = omega arith;
  counted = refl;
  padded = refl;
  tables = tt;
  older = tt;
  deep = λ d. cc;
  last_table = λ d. absurd (cc);
}

table-IsRegistered : IsRegistered with_table 3
unfolding zeros
table-IsRegistered = record {
  children = (((omega arith, omega arith), refl), tt);
  few = omega arith;
  counted = refl;
  padded = refl;
  tables = (((omega arith, omega arith), refl), tt);
  older = (omega arith, tt);
  deep = λ d. omega arith;
  last_table = λ d. ([], refl);
}

param-IsRegistered : IsRegistered with_table 4
unfolding zeros
param-IsRegistered = record {
  children = tt;
  few = omega arith;
  counted = refl;
  padded = refl;
  tables = (((omega arith, omega arith), refl), tt);
  older = tt;
  deep = λ d. cc;
  last_table = λ d. absurd (cc);
}

one_of_four : (n : ℕ) → 0 < n → n ≤ 4 → ((n ≡ 1) ⊎ (n ≡ 2)) ⊎ ((n ≡ 3) ⊎ (n ≡ 4))
one_of_four n above below = ground arith

pub with_table-IsTree : IsTree with_table
unfolding zeros
with_table-IsTree = record {
  device_root = omega arith;
  internal_root = omega arith;
  device_top = refl;
  internal_top = refl;
  registered = λ n a. elim (one_of_four n a.0 a.1) [
    | inl low ↦ elim low [ inl e ↦ rw e device-IsRegistered | inr e ↦ rw e internal-IsRegistered ]
    | inr high ↦ elim high [ inl e ↦ rw e table-IsRegistered | inr e ↦ rw e param-IsRegistered ]
  ];
}

-- The one instance of the table has the number 7.
abbrev pub vectors : Vectors
vectors t = if t == 3 then row 7 ∷ [] else []

data_model_get_path_properties_lem_example :
    Returns
      (IsReported with_table vectors none 3 (row 7) true)
      (data_model_get_path_properties with_table first_digit vectors (codes "Device.A.7") none)
data_model_get_path_properties_lem_example =
    data_model_get_path_properties_lem with_table first_digit vectors (codes "Device.A.7") none 3
      (row 7) true with_table-IsTree finds_the_row

two_numbers_fit : length (numerals [] (12 ∷ 345 ∷ [])) < 256
unfolding print_unsigned
two_numbers_fit = omega arith

parse-form_instance_string_example :
    Returns
      (λ text. parse_instance_string text ≡ ok (12 ∷ 345 ∷ []))
      (form_instance_string (12 ∷ 345 ∷ []) 256)
parse-form_instance_string_example =
    parse-form_instance_string (12 ∷ 345 ∷ []) 256 (omega arith) two_numbers_fit
