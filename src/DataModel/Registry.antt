-- ===== src/DataModel/Registry.antt =====
-- src/core/data_model.c: the registered nodes of the data model, the registration of schema paths
-- and the look-up of a path. A node is the number at which it stands, counted from 1, and NULL is 0
-- or `none`; the list of its children is the sequence that Dllist.Append shows DLLIST_LinkToTail to
-- keep. The contents of the error messages are left out.
pub mod Tree
pub mod Roots
pub mod Growth
pub mod Adding
pub mod Returning
pub mod Lookup
pub mod Instances
use Prim.Native.Nat.{bit_xor}
use usp_agent_stomp.Common.{
  ℕ, suc, ◌+◌, ◌-◌, ◌*◌, ◌%◌, ◌^◌, Bool, true, false, not, ◌&&◌, ◌||◌, Option, none, some, List, [],
  ◌∷◌, ◌++◌, ltb, ◌==◌, if◌then◌else◌, length, take, Bytes, codes, str_eq,
}
use usp_agent_stomp.Result.{Result, ok, abort, ◌>>=◌, ◌>>◌, assert}
use usp_agent_stomp.DataModel.Instances.{max_dm_instance_order, zeros, Inst, Schema}
use usp_agent_stomp.DataModel.Paths.{
  multi_separator, NodeType, object_single_instance, type_number, same_type, is_multi, PathSegment,
  parse_path, parse_schema_path, max_dm_path,
}

-- kCTrustRole_Max
abbrev pub max_trust_roles : ℕ
max_trust_roles = 2

-- dm_node_t, without what is registered for the node.
pub record DmNode : Type 0 where
  pub path : Bytes
  pub name : Bytes
  pub type : NodeType
  pub child_nodes : List ℕ
  pub hash : ℕ
  pub order : ℕ
  pub instance_nodes : List ℕ
  pub permissions : List ℕ

-- The nodes that are allocated (1 to num_nodes), the roots and the vector of hashes.
pub record Registry : Type 0 where
  pub nodes : ℕ → DmNode
  pub num_nodes : ℕ
  pub root_device_node : ℕ
  pub root_internal_node : ℕ
  pub node_lookup : List (ℕ × ℕ)

-- IsDbParam
abbrev pub is_db_param : NodeType → Bool
is_db_param type =
    (type_number type == 4)
    || (type_number type == 5)
    || (type_number type == 6)
    || (type_number type == 7)
    || (type_number type == 8)

-- A `char` above 127 is negative, and is extended to 32 bits with its sign.
abbrev char_bits : ℕ → ℕ
char_bits c = if ltb c 128 then c else c + 2 ^ 32 - 256

hash_loop : ℕ → Bytes → ℕ
hash_loop hash [] = hash
hash_loop hash (c ∷ s) = hash_loop (bit_xor (hash * 0x1000193 % 2 ^ 32) (char_bits c)) s

-- TEXT_UTILS_CalcHash (src/core/text_utils.c), as the bits of the `int`.
unfoldable pub calc_hash : Bytes → ℕ
unfolding hash_loop
calc_hash s = hash_loop 0x811C9DC5 s

abbrev pub lookup_loop : ℕ → List (ℕ × ℕ) → Option ℕ
lookup_loop hash [] = none
lookup_loop hash ((h, node) ∷ lookup) = if h == hash then some node else lookup_loop hash lookup

unfoldable pub find_node_from_hash : Registry → ℕ → Option ℕ
find_node_from_hash reg hash = lookup_loop hash reg.node_lookup

unfoldable pub find_child : (ℕ → DmNode) → List ℕ → Bytes → Option ℕ
find_child nodes [] name = none
find_child nodes (child ∷ children) name =
    if str_eq (nodes child).name name then some child else find_child nodes children name

unfoldable pub dm_priv_find_matching_child : Registry → ℕ → Bytes → Option ℕ
unfolding find_child
dm_priv_find_matching_child reg parent name =
    find_child reg.nodes (reg.nodes parent).child_nodes name

abbrev pub write_node : (ℕ → DmNode) → ℕ → DmNode → ℕ → DmNode
write_node nodes n node = λ m. if m == n then node else nodes m

abbrev pub new_node : Bytes → NodeType → Bytes → ℕ → DmNode
new_node name type schema_path hash = record {
  path = schema_path;
  name = name;
  type = type;
  child_nodes = [];
  hash = hash;
  order = 0;
  instance_nodes = zeros max_dm_instance_order;
  permissions = zeros max_trust_roles;
}

-- The node takes the next free place.
abbrev pub allocated : Registry → DmNode → List (ℕ × ℕ) → Registry × Option ℕ
allocated reg node lookup = (
  record reg {
    nodes = write_node reg.nodes (suc reg.num_nodes) node;
    num_nodes = suc reg.num_nodes;
    node_lookup = lookup;
  },
  some (suc reg.num_nodes),
)

-- A parameter of the database whose hash is in use is not made; its memory is not freed.
unfoldable pub create_node : Registry → Bytes → NodeType → Bytes → Result (Registry × Option ℕ)
unfolding find_node_from_hash
create_node reg name type schema_path =
    let hash = calc_hash schema_path in
    if is_db_param type
    then assert (not (hash == 0)) >> elim (find_node_from_hash reg hash) [
      | some n ↦ ok (reg, none)
      | none ↦ ok (
          allocated reg (new_node name type schema_path hash)
            (reg.node_lookup ++ (hash, suc reg.num_nodes) ∷ []))
    ]
    else ok (allocated reg (new_node name type schema_path 0) reg.node_lookup)

abbrev pub device_node_name : Bytes
device_node_name = codes "Device"

abbrev pub internal_node_name : Bytes
internal_node_name = codes "Internal"

abbrev pub empty_registry : Registry
empty_registry = record {
  nodes = λ n. new_node [] object_single_instance [] 0;
  num_nodes = 0;
  root_device_node = 0;
  root_internal_node = 0;
  node_lookup = [];
}

-- The start of DATA_MODEL_Init: the two roots.
unfoldable pub create_roots : Result Registry
unfolding create_node
create_roots = do
  device ← create_node empty_registry device_node_name object_single_instance device_node_name
  internal ← create_node device.0 internal_node_name object_single_instance internal_node_name
  ok (record internal.0 {
    root_device_node = device.0.num_nodes;
    root_internal_node = internal.0.num_nodes;
  })

-- The first segment names one of the roots.
unfoldable pub find_root : Registry → Bytes → Option ℕ
find_root reg name =
    if str_eq name (reg.nodes reg.root_device_node).name
    then some reg.root_device_node
    else if str_eq name (reg.nodes reg.root_internal_node).name
    then some reg.root_internal_node
    else none

-- The flags of DM_PRIV_AddSchemaPath.
pub record Flags : Type 0 where
  pub suppress_pre_existance_err : Bool
  pub suppress_last_type_check : Bool

-- inst.nodes[inst.order++] = child, where the node is a table; a seventh is written behind the array.
abbrev pub push_table : NodeType → ℕ → List ℕ → Result (List ℕ)
push_table type child tables =
    if is_multi type
    then if length tables == max_dm_instance_order then abort else ok (tables ++ child ∷ [])
    else ok tables

abbrev pub extended_path : Bytes → PathSegment → Bytes
extended_path schema_path seg =
    schema_path ++ (b'.' ∷ (seg.name ++ (if is_multi seg.type then b'.' ∷ multi_separator else [])))

-- The new child comes last in the list of its parent, and gets its tables and its order.
abbrev pub linked : Registry → ℕ → ℕ → List ℕ → Registry
linked reg parent child tables =
    let p = reg.nodes parent in
    let nodes' =
      write_node reg.nodes parent (record p { child_nodes = p.child_nodes ++ child ∷ [] }) in
    record reg {
      nodes = write_node nodes' child (record (nodes' child) {
        order = length tables;
        instance_nodes = tables ++ zeros (max_dm_instance_order - length tables);
      });
    }

abbrev pub is_last : List PathSegment → Bool
is_last [] = true
is_last (seg ∷ segments) = false

-- An existing child is refused, or its order is checked once its tables are `tables`.
abbrev pub is_refused : Flags → Bool → PathSegment → DmNode → Bool
is_refused flags last seg child =
    (last && not flags.suppress_pre_existance_err)
    || (not (last && flags.suppress_last_type_check) && not (same_type child.type seg.type))

-- The rounds of DM_PRIV_AddSchemaPath: the segments that are left, the node reached, the schema path
-- to it and its tables. A schema path that does not fit its buffer of MAX_DM_PATH bytes is written
-- behind it.
unfoldable pub add_segments :
    Flags → List PathSegment → Registry → ℕ → Bytes → List ℕ → Result (Registry × Option ℕ)
unfolding dm_priv_find_matching_child
add_segments flags [] reg parent schema_path tables = ok (reg, some parent)
add_segments flags (seg ∷ segments) reg parent schema_path tables =
    let schema_path' = extended_path schema_path seg in
    assert (ltb (length schema_path') max_dm_path)
    >> elim (dm_priv_find_matching_child reg parent seg.name) [
      | none ↦ create_node reg seg.name seg.type schema_path' >>= (λ made. elim made.1 [
        | none ↦ ok (made.0, none)
        | some child ↦ push_table seg.type child tables >>= (λ tables'.
            add_segments flags segments (linked made.0 parent child tables') child schema_path'
              tables')
      ])
      | some child ↦ elim (is_refused flags (is_last segments) seg (reg.nodes child)) [
        | true ↦ ok (reg, none)
        | false ↦ push_table seg.type child tables >>= (λ tables'.
            elim ((reg.nodes child).order == length tables') [
              | true ↦ add_segments flags segments reg child schema_path' tables'
              | false ↦ ok (reg, none)
            ])
      ]
    ]

-- From the root that the first segment names.
abbrev pub add_from_root :
    Flags → Registry → Option (List PathSegment) → Result (Registry × Option ℕ)
add_from_root flags reg none = ok (reg, none)
add_from_root flags reg (some []) = ok (reg, none)
add_from_root flags reg (some (seg ∷ segments)) = elim (find_root reg seg.name) [
  | none ↦ ok (reg, none)
  | some root ↦ add_segments flags segments reg root seg.name []
]

-- The node of the path, or NULL; nodes made before an error stay.
unfoldable pub dm_priv_add_schema_path :
    Registry → Bytes → NodeType → Flags → Result (Registry × Option ℕ)
unfolding find_root
dm_priv_add_schema_path reg path type flags =
    parse_schema_path type path >>= add_from_root flags reg

unfoldable pub walk : Registry → ℕ → List Bytes → Option ℕ
unfolding dm_priv_find_matching_child
walk reg parent [] = some parent
walk reg parent (name ∷ names) = elim (dm_priv_find_matching_child reg parent name) [
  | none ↦ none
  | some child ↦ walk reg child names
]

-- Whether the path has the numbers of all tables, where that of the last one may be left out.
abbrev pub qualified : DmNode → ℕ → Option Bool
qualified node order =
    if order == node.order
    then some true
    else if not (is_multi node.type)
    then none
    else if order + 1 == node.order
    then some false
    else none

abbrev pub filled : List ℕ → ℕ → List ℕ
filled entries order = take order entries ++ zeros (max_dm_instance_order - order)

abbrev pub parsed_inst : DmNode → List ℕ → Inst
parsed_inst node numbers = record {
  order = length numbers;
  instances = filled numbers (length numbers);
  nodes = filled node.instance_nodes (length numbers);
}

abbrev pub found : Registry → List ℕ → ℕ → Option (ℕ × Inst × Bool)
found reg numbers node = elim (qualified (reg.nodes node) (length numbers)) [
  | none ↦ none
  | some is_qualified ↦ some (node, parsed_inst (reg.nodes node) numbers, is_qualified)
]

abbrev pub get_from_root : Registry → List Bytes → List ℕ → Option (ℕ × Inst × Bool)
get_from_root reg [] numbers = none
get_from_root reg (name ∷ names) numbers = elim (find_root reg name) [
  | none ↦ none
  | some root ↦ elim (walk reg root names) [ none ↦ none | some node ↦ found reg numbers node ]
]

-- The node, the instances of the path and whether they are qualified, or NULL.
unfoldable pub dm_priv_get_node_from_path :
    Registry → (Bytes → ℕ) → Bytes → Option (ℕ × Inst × Bool)
unfolding find_root walk
dm_priv_get_node_from_path reg atoi path = elim (parse_path atoi path) [
  | none ↦ none
  | some (names, numbers) ↦ get_from_root reg names numbers
]

-- What the instance vectors read of a node.
abbrev pub schema_of : Registry → Schema
schema_of reg n = record {
  is_multi = is_multi (reg.nodes n).type;
  order = (reg.nodes n).order;
  instance_nodes = (reg.nodes n).instance_nodes;
}
