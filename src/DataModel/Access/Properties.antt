-- ===== src/DataModel/Access/Properties.antt =====
-- src/core/data_model.c: DATA_MODEL_GetPathProperties passes its assertions and reports what is there.
use usp_agent_stomp.Common.{
  ℕ, ◌<◌, ◌≡◌, refl, ◌↔◌, ◌⊎◌, inl, inr, Bool, true, false, not, ◌&&◌, ◌||◌, Option, some, arith,
  ◌==◌, ==_iff, Bool-cases, Bytes,
}
use usp_agent_stomp.Result.{ok, ◌>>=◌, Returns, Returns_mono, Returns->>=}
use usp_agent_stomp.DataModel.Access.{
  CombinedRole, dm_priv_get_permissions, PathProperties, no_properties, type_properties,
  parent_inst, parents_exist, instance_properties, data_model_get_path_properties,
}
use usp_agent_stomp.DataModel.Instances.{Inst, Schema, Vectors, top_of, dm_inst_vector_is_exist}
use usp_agent_stomp.DataModel.Instances.Nested.{IsNested}
use usp_agent_stomp.DataModel.Instances.Numbers.{dm_inst_vector_is_exist_lem}
use usp_agent_stomp.DataModel.Instances.Tree.{view, IsTopped}
use usp_agent_stomp.DataModel.Paths.{
  NodeType, object_multi_instance, object_single_instance, param_constant_value, param_num_entries,
  db_param_read_write, db_param_read_only, db_param_read_only_auto, db_param_read_write_auto,
  db_param_secure, vendor_param_read_only, vendor_param_read_write, sync_operation, async_operation,
  event, is_multi,
}
use usp_agent_stomp.DataModel.Registry.{Registry, dm_priv_get_node_from_path, schema_of}
use usp_agent_stomp.DataModel.Registry.Instances.{get_node-IsFound, IsFound-IsTopped}
use usp_agent_stomp.DataModel.Registry.Tree.{IsTree}

-- An object without instance numbers is always there; another one, where the path of an instance that
-- exists starts with its tables and its instance numbers.
abbrev pub ObjectExists : Vectors → Inst → Type 0
ObjectExists vs inst =
    (inst.order ≡ 0)
    ⊎ ((0 < inst.order) × ((x : Inst) × (view vs (top_of inst) x ≡ true) × IsNested inst x))

-- What a Boolean says of an object.
abbrev pub Reports : Vectors → Inst → Bool → Type 0
Reports vs inst b = (b ≡ true) ↔ ObjectExists vs inst

is_exist-top :
    (schema : Schema) (inst : Inst) (vs : Vectors)
    → (inst.order == 0) ≡ true
    → dm_inst_vector_is_exist schema inst vs ≡ ok true
unfolding dm_inst_vector_is_exist
is_exist-top schema inst vs top = rw top

is_exist_lem :
    (schema : Schema) (inst : Inst) (vs : Vectors)
    → (0 < inst.order → IsTopped schema inst)
    → Returns (Reports vs inst) (dm_inst_vector_is_exist schema inst vs)
is_exist_lem schema inst vs topped = elim (Bool-cases (inst.order == 0)) [
  | inl top ↦
      rw (is_exist-top schema inst vs top) (λ e. inl ((==_iff inst.order 0).0 top), λ o. refl)
  | inr deep ↦
      let pos : 0 < inst.order = ground arith in
      Returns_mono
        (λ b. (b ≡ true) ↔ ((x : Inst) × (view vs (top_of inst) x ≡ true) × IsNested inst x))
        (Reports vs inst) _ (dm_inst_vector_is_exist_lem schema inst vs (topped pos))
        (λ b h. (
          λ e. inr (pos, h.0 e),
          λ o. elim o [ inl shallow ↦ absurd (omega arith) | inr (d, w) ↦ h.1 w ],
        ))
]

-- What a path of TR-369 leads to.
pub data Kind : Type 0 where
  an_object a_parameter an_operation an_event : Kind

-- What each type of node stands for.
unfoldable pub kind_of : NodeType → Kind
kind_of object_multi_instance = an_object
kind_of object_single_instance = an_object
kind_of param_constant_value = a_parameter
kind_of param_num_entries = a_parameter
kind_of db_param_read_write = a_parameter
kind_of db_param_read_only = a_parameter
kind_of db_param_read_only_auto = a_parameter
kind_of db_param_read_write_auto = a_parameter
kind_of db_param_secure = a_parameter
kind_of vendor_param_read_only = a_parameter
kind_of vendor_param_read_write = a_parameter
kind_of sync_operation = an_operation
kind_of async_operation = an_operation
kind_of event = an_event

-- The flag of the kind of node that the path leads to is set, and no other flag of a kind; only an
-- object has instances, and only a table or a secure parameter is said to be one.
pub record HasKind (type : NodeType) (is_qualified : Bool) (permission_bitmask : ℕ)
    (p : PathProperties) : Type 0 where
  pub in_schema : p.exists_in_schema ≡ true
  pub object : (p.is_object ≡ true) ↔ (kind_of type ≡ an_object)
  pub parameter : (p.is_parameter ≡ true) ↔ (kind_of type ≡ a_parameter)
  pub operation : (p.is_operation ≡ true) ↔ (kind_of type ≡ an_operation)
  pub of_event : (p.is_event ≡ true) ↔ (kind_of type ≡ an_event)
  pub table : (p.is_multi_instance_object ≡ true) ↔ (type ≡ object_multi_instance)
  pub secure : (p.is_secure_param ≡ true) ↔ (type ≡ db_param_secure)
  pub permissions : p.permission_bitmask ≡ permission_bitmask
  pub instance_of : p.is_object_instance ≡ (p.is_object && is_qualified)

type_properties-HasKind :
    (type : NodeType) (q : Bool) (permission_bitmask : ℕ)
    → (q ≡ false → is_multi type ≡ true)
    → Returns (HasKind type q permission_bitmask) (
        type_properties type q (record no_properties {
          exists_in_schema = true;
          permission_bitmask = permission_bitmask;
        }))
unfolding type_properties kind_of
type_properties-HasKind object_multi_instance q perm h = ground arith
type_properties-HasKind type true perm h = ground arith
type_properties-HasKind type false perm h = ground (arith, h refl)

-- The properties that are reported of a path that is found.
pub record IsReported (reg : Registry) (vs : Vectors) (role : Option CombinedRole) (node : ℕ)
    (inst : Inst) (is_qualified : Bool) (p : PathProperties) : Type 0 where
  pub kind :
      HasKind (reg.nodes node).type is_qualified (dm_priv_get_permissions (reg.nodes node) role) p
  pub numbers : Reports vs inst p.instance_numbers_exist
  pub parents :
      is_qualified ≡ true
      → 0 < inst.order
      → p.parent_instance_numbers_exist ≡ true
        ↔ (p.instance_numbers_exist ≡ true) ⊎ ObjectExists vs (parent_inst inst)

-- What is to be known of the parents of a path with all its instance numbers.
abbrev ParentsReported : Vectors → Inst → Bool → Bool → Type 0
ParentsReported vs inst q b = q ≡ true → 0 < inst.order → Reports vs (parent_inst inst) b

parent-IsTopped :
    (schema : Schema) (inst : Inst)
    → (0 < inst.order → IsTopped schema inst)
    → 0 < (parent_inst inst).order
    → IsTopped schema (parent_inst inst)
parent-IsTopped schema inst topped deep =
    let t = topped (omega arith) in
    record { deep = deep; top_set = t.top_set; is_table = t.is_table }

parents_exist_lem :
    (schema : Schema) (vs : Vectors) (inst : Inst) (q : Bool)
    → (0 < inst.order → IsTopped schema inst)
    → Returns (ParentsReported vs inst q) (parents_exist schema vs inst q)
parents_exist_lem schema vs inst q topped = elim (Bool-cases (not q || inst.order == 0)) [
  | inl skipped ↦ rw skipped (λ qualified deep. ground arith)
  | inr asked ↦ elim (Bool-cases (inst.order == 1)) [
    | inl first ↦ rw (asked, first) (λ qualified deep. (λ e. inl (ground arith), λ o. refl))
    | inr nested ↦
        rw (asked, nested)
          (Returns_mono (Reports vs (parent_inst inst)) (ParentsReported vs inst q) _
            (is_exist_lem schema (parent_inst inst) vs (parent-IsTopped schema inst topped))
            (λ b r qualified deep. r))
  ]
]

module _ (reg : Registry) (vs : Vectors) (role : Option CombinedRole) (node : ℕ) (inst : Inst)
    (q : Bool) (p : PathProperties) (topped : 0 < inst.order → IsTopped (schema_of reg) inst)
    (kind : HasKind (reg.nodes node).type q (dm_priv_get_permissions (reg.nodes node) role) p) where
  with_numbers : Bool → Bool → PathProperties
  with_numbers exists parents = record p {
    instance_numbers_exist = exists;
    parent_instance_numbers_exist = parents;
  }

  with_numbers-HasKind :
      (exists parents : Bool)
      → HasKind
          (reg.nodes node).type
          q
          (dm_priv_get_permissions (reg.nodes node) role)
          (with_numbers exists parents)
  unfolding with_numbers
  with_numbers-HasKind exists parents = record {
    in_schema = kind.in_schema;
    object = kind.object;
    parameter = kind.parameter;
    operation = kind.operation;
    of_event = kind.of_event;
    table = kind.table;
    secure = kind.secure;
    permissions = kind.permissions;
    instance_of = kind.instance_of;
  }

  after_exists :
      (exists : Bool)
      → Reports vs inst exists
      → Returns (IsReported reg vs role node inst q) (
          elim exists [ true ↦ ok true | false ↦ parents_exist (schema_of reg) vs inst q ]
          >>= (λ parents. ok (with_numbers exists parents)))
  unfolding with_numbers
  after_exists true r = record {
    kind = with_numbers-HasKind true true;
    numbers = r;
    parents = λ qualified deep. (λ h. inl refl, λ h. refl);
  }
  after_exists false r =
      Returns->>= (ParentsReported vs inst q) (IsReported reg vs role node inst q) _ _
        (parents_exist_lem (schema_of reg) vs inst q topped)
        (λ parents h. record {
          kind = with_numbers-HasKind false parents;
          numbers = r;
          parents = λ qualified deep. (
            λ e. inr ((h qualified deep).0 e),
            λ o. elim o [ inl absent ↦ cc | inr there ↦ (h qualified deep).1 there ],
          );
        })

  instance_properties_lem :
      Returns (IsReported reg vs role node inst q) (instance_properties (schema_of reg) vs inst q p)
  unfolding with_numbers
  instance_properties_lem =
      Returns->>= (Reports vs inst) (IsReported reg vs role node inst q) _ _
        (is_exist_lem (schema_of reg) inst vs topped) after_exists

-- For a path that is found in a well formed tree of nodes, DATA_MODEL_GetPathProperties passes its
-- assertions and reports the kind of its node, the permissions of the role, whether the object of
-- the path exists, and, where the path has all its instance numbers, whether that object or its
-- parents exist.
pub data_model_get_path_properties_lem :
    (reg : Registry) (atoi : Bytes → ℕ) (vs : Vectors) (path : Bytes) (role : Option CombinedRole)
    (node : ℕ) (inst : Inst) (is_qualified : Bool)
    → IsTree reg
    → dm_priv_get_node_from_path reg atoi path ≡ some (node, inst, is_qualified)
    → Returns
        (IsReported reg vs role node inst is_qualified)
        (data_model_get_path_properties reg atoi vs path role)
unfolding data_model_get_path_properties
data_model_get_path_properties_lem reg atoi vs path role node inst q t h =
    let f = get_node-IsFound reg atoi path node inst q t h in
    rw (h, data_model_get_path_properties)
      (Returns->>= (HasKind (reg.nodes node).type q (dm_priv_get_permissions (reg.nodes node) role))
        (IsReported reg vs role node inst q) _ _
        (type_properties-HasKind (reg.nodes node).type q
          (dm_priv_get_permissions (reg.nodes node) role) (λ u. (f.unqualified u).0))
        (λ p kind.
          instance_properties_lem reg vs role node inst q p (IsFound-IsTopped reg node inst q t f)
            kind))
