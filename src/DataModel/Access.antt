-- ===== src/DataModel/Access.antt =====
-- src/core/data_model.c: the operations of the data model that look a path up and read or extend the
-- object instances. A pointer argument that may be NULL is an option; a string is never NULL here.
pub mod Properties
use Prim.Native.Nat.{bit_or}
use usp_agent_stomp.Common.{
  ℕ, ◌+◌, ◌-◌, Bool, true, false, not, ◌&&◌, ◌||◌, Option, none, some, List, [], ltb, ◌==◌,
  if◌then◌else◌, length, get_elem?, take, Bytes,
}
use usp_agent_stomp.Common.Int.{ℤ}
use usp_agent_stomp.Result.{
  UspErr, internal_error, invalid_arguments, invalid_path, not_a_table, object_does_not_exist,
  object_not_creatable, invalid_path_syntax, Result, ok, err, ◌>>=◌, ◌>>◌, assert, guard,
}
use usp_agent_stomp.DataModel.Instances.{
  Inst, Schema, Vectors, dm_inst_vector_add, dm_inst_vector_is_exist,
  dm_inst_vector_get_num_instances, dm_inst_vector_get_instances,
}
use usp_agent_stomp.DataModel.Paths.{
  NodeType, object_multi_instance, object_single_instance, db_param_secure, sync_operation,
  async_operation, event, type_number, is_multi, form_instance_string, parse_instance_string,
  form_path_loop,
}
use usp_agent_stomp.DataModel.Registry.{
  max_trust_roles, DmNode, Registry, is_db_param, find_node_from_hash, parsed_inst,
  dm_priv_get_node_from_path, schema_of,
}

-- combined_role_t
pub record CombinedRole : Type 0 where
  pub inherited : ℕ
  pub assigned : ℕ

-- The permissions of a role that is in range, which INVALID_ROLE is not.
abbrev pub role_permissions : DmNode → ℕ → ℕ
role_permissions node role = elim (get_elem? node.permissions role) [
  | none ↦ 0
  | some permissions ↦ if ltb role max_trust_roles then permissions else 0
]

-- INTERNAL_ROLE is `none`.
unfoldable pub dm_priv_get_permissions : DmNode → Option CombinedRole → ℕ
dm_priv_get_permissions node none = 0xFFFF
dm_priv_get_permissions node (some role) =
    bit_or (role_permissions node role.inherited) (role_permissions node role.assigned)

-- The error and the permissions of a path.
unfoldable pub data_model_get_permissions :
    Registry → (Bytes → ℕ) → Bytes → Option CombinedRole → Option UspErr × ℕ
unfolding dm_priv_get_node_from_path
data_model_get_permissions reg atoi path role = elim (dm_priv_get_node_from_path reg atoi path) [
  | none ↦ (some invalid_path, 0)
  | some (node, inst, q) ↦ (none, dm_priv_get_permissions (reg.nodes node) role)
]

-- The flags that DATA_MODEL_GetPathProperties returns, and the permissions.
pub record PathProperties : Type 0 where
  pub exists_in_schema : Bool
  pub is_object : Bool
  pub is_parameter : Bool
  pub is_operation : Bool
  pub is_event : Bool
  pub is_object_instance : Bool
  pub instance_numbers_exist : Bool
  pub parent_instance_numbers_exist : Bool
  pub is_multi_instance_object : Bool
  pub is_secure_param : Bool
  pub permission_bitmask : ℕ

abbrev pub no_properties : PathProperties
no_properties = record {
  exists_in_schema = false;
  is_object = false;
  is_parameter = false;
  is_operation = false;
  is_event = false;
  is_object_instance = false;
  instance_numbers_exist = false;
  parent_instance_numbers_exist = false;
  is_multi_instance_object = false;
  is_secure_param = false;
  permission_bitmask = 0;
}

-- The switch on the type of the node; a path to a parameter, an operation or an event is qualified.
unfoldable pub type_properties : NodeType → Bool → PathProperties → Result PathProperties
type_properties object_multi_instance q p =
    ok (record p { is_multi_instance_object = true; is_object = true; is_object_instance = q })
type_properties object_single_instance q p =
    ok (record p { is_object = true; is_object_instance = q })
type_properties db_param_secure q p =
    assert q >> ok (record p { is_secure_param = true; is_parameter = true })
type_properties sync_operation q p = assert q >> ok (record p { is_operation = true })
type_properties async_operation q p = assert q >> ok (record p { is_operation = true })
type_properties event q p = assert q >> ok (record p { is_event = true })
type_properties type q p = assert q >> ok (record p { is_parameter = true })

-- inst.order--
abbrev pub parent_inst : Inst → Inst
parent_inst inst = record inst { order = inst.order - 1 }

-- Whether the instances of the parents exist, where those of the path do not.
abbrev pub parents_exist : Schema → Vectors → Inst → Bool → Result Bool
parents_exist schema vs inst q =
    if not q || inst.order == 0
    then ok false
    else if inst.order == 1
    then ok true
    else dm_inst_vector_is_exist schema (parent_inst inst) vs

abbrev pub instance_properties :
    Schema → Vectors → Inst → Bool → PathProperties → Result PathProperties
instance_properties schema vs inst q p = do
  exists ← dm_inst_vector_is_exist schema inst vs
  parents ← elim exists [ true ↦ ok true | false ↦ parents_exist schema vs inst q ]
  ok (record p { instance_numbers_exist = exists; parent_instance_numbers_exist = parents })

unfoldable pub data_model_get_path_properties :
    Registry → (Bytes → ℕ) → Vectors → Bytes → Option CombinedRole → Result PathProperties
unfolding dm_priv_get_node_from_path
data_model_get_path_properties reg atoi vs path role =
    elim (dm_priv_get_node_from_path reg atoi path) [
      | none ↦ ok no_properties
      | some (node, inst, q) ↦
          type_properties (reg.nodes node).type q (record no_properties {
            exists_in_schema = true;
            permission_bitmask = dm_priv_get_permissions (reg.nodes node) role;
          })
          >>= instance_properties (schema_of reg) vs inst q
    ]

-- The schema path, the instance numbers with their count, and whether they exist.
unfoldable pub data_model_split_path :
    Registry → (Bytes → ℕ) → Vectors → Bytes → Result (Bytes × ℕ × List ℕ × Bool)
unfolding dm_priv_get_node_from_path
data_model_split_path reg atoi vs path = elim (dm_priv_get_node_from_path reg atoi path) [
  | none ↦ err invalid_arguments
  | some (node, inst, q) ↦
      dm_inst_vector_is_exist (schema_of reg) inst vs
      >>= (λ exists. ok ((reg.nodes node).path, inst.order, inst.instances, exists))
]

unfoldable pub data_model_inform_instance :
    Registry → (Bytes → ℕ) → Vectors → Bytes → Result Vectors
unfolding dm_priv_get_node_from_path
data_model_inform_instance reg atoi vs path = elim (dm_priv_get_node_from_path reg atoi path) [
  | none ↦ err invalid_path
  | some (node, inst, q) ↦
      guard (q && not (inst.order == 0)) invalid_path >> dm_inst_vector_add (schema_of reg) inst vs
]

-- The instances of a parameter of the database, from its hash and the text of its instance numbers.
unfoldable pub data_model_add_parameter_instances : Registry → Vectors → ℕ → Bytes → Result Vectors
unfolding find_node_from_hash parse_instance_string
data_model_add_parameter_instances reg vs hash instances = elim (find_node_from_hash reg hash) [
  | none ↦ err invalid_path
  | some node ↦ parse_instance_string instances >>= (λ numbers.
      guard (length numbers == (reg.nodes node).order) internal_error
      >> dm_inst_vector_add (schema_of reg) (parsed_inst (reg.nodes node) numbers) vs)
]

-- The node and the parents' instances of a path to a table, where they exist.
abbrev pub checked_table :
    Registry → Vectors → UspErr → Option (ℕ × Inst × Bool) → Result (ℕ × Inst)
checked_table reg vs wrong_node none = err object_does_not_exist
checked_table reg vs wrong_node (some (node, inst, q)) = do
  guard (is_multi (reg.nodes node).type) wrong_node
  guard (not q) invalid_arguments
  exists ← dm_inst_vector_is_exist (schema_of reg) inst vs
  guard exists object_does_not_exist
  ok (node, inst)

unfoldable pub data_model_get_num_instances : Registry → (Bytes → ℕ) → Vectors → Bytes → Result ℕ
unfolding dm_priv_get_node_from_path
data_model_get_num_instances reg atoi vs path =
    checked_table reg vs object_not_creatable (dm_priv_get_node_from_path reg atoi path)
    >>= (λ t. dm_inst_vector_get_num_instances (schema_of reg) t.0 t.1 vs)

unfoldable pub data_model_get_instances : Registry → (Bytes → ℕ) → Vectors → Bytes → Result (List ℤ)
unfolding dm_priv_get_node_from_path
data_model_get_instances reg atoi vs path =
    checked_table reg vs not_a_table (dm_priv_get_node_from_path reg atoi path)
    >>= (λ t. dm_inst_vector_get_instances (schema_of reg) t.0 t.1 vs)

-- IsParam
abbrev pub is_param : NodeType → Bool
is_param type = not (
    (type_number type == 0)
    || (type_number type == 1)
    || (type_number type == 11)
    || (type_number type == 12)
    || (type_number type == 13))

-- One round more than the schema path has bytes is enough where the buffer does not fill up.
unfoldable pub dm_priv_form_path_from_dm : DmNode → List ℕ → ℕ → Result Bytes
unfolding form_path_loop
dm_priv_form_path_from_dm node numbers len =
    form_path_loop (length node.path + 1) node.path numbers len []

-- The hash and the text of the instance numbers of a parameter of the database.
unfoldable pub dm_priv_form_db_from_path : Registry → (Bytes → ℕ) → Bytes → ℕ → Result (ℕ × Bytes)
unfolding dm_priv_get_node_from_path form_instance_string
dm_priv_form_db_from_path reg atoi path len = elim (dm_priv_get_node_from_path reg atoi path) [
  | none ↦ err invalid_path
  | some (n, inst, q) ↦ do
    let node = reg.nodes n
    guard (is_param node.type) invalid_path
    guard (is_db_param node.type) invalid_path_syntax
    assert (not (node.hash == 0))
    instances ← form_instance_string (take inst.order inst.instances) len
    ok (node.hash, instances)
]

-- The path of a parameter of the database; a buffer is `len` bytes long.
unfoldable pub dm_priv_form_path_from_db : Registry → ℕ → Bytes → ℕ → Result Bytes
unfolding find_node_from_hash parse_instance_string dm_priv_form_path_from_dm
dm_priv_form_path_from_db reg hash instances len = elim (find_node_from_hash reg hash) [
  | none ↦ err invalid_path
  | some n ↦ do
    numbers ← parse_instance_string instances
    guard (length numbers == (reg.nodes n).order) internal_error
    dm_priv_form_path_from_dm (reg.nodes n) numbers len
]
