-- ===== src/DataModel/Objects.antt =====
-- src/core/data_model.c: DATA_MODEL_AddInstance, and what it shares with DATA_MODEL_DeleteInstance.
-- The number of a new instance, which the source also returns through a pointer, is that of its
-- entry in the journal.
pub mod Deletion
pub mod Finite
pub mod Ending
pub mod Children
pub mod Rows
pub mod Journaled
pub mod Adding
pub mod NewRow
use usp_agent_stomp.Common.{
  ℕ, ◌+◌, ◌-◌, Bool, true, not, ◌||◌, Option, none, some, [], ◌∷◌, ◌++◌, ltb, ◌==◌, if◌then◌else◌,
  length, set, Bytes,
}
use usp_agent_stomp.Result.{
  UspErr, resources_exceeded, request_denied, object_does_not_exist, object_not_creatable, Result,
  ok, abort, ◌>>=◌, ◌>>◌, assert,
}
use usp_agent_stomp.Text.Number.{print_unsigned}
use usp_agent_stomp.DataModel.Access.{parent_inst}
use usp_agent_stomp.DataModel.Instances.{
  Inst, Schema, dm_inst_vector_is_exist, instance_at, dm_inst_vector_get_next_instance,
}
use usp_agent_stomp.DataModel.Paths.{max_dm_path, is_multi}
use usp_agent_stomp.DataModel.Registry.{Registry, dm_priv_get_node_from_path, schema_of}
use usp_agent_stomp.DataModel.Trans.{Dm, Outcome, External, dm_trans_is_within_transaction}
use usp_agent_stomp.DataModel.Trans.Changes.{add_instance_end}

-- A vendor's call-back of a table; NULL is `none`.
abbrev pub VendorCb : Type 0 → Type 0
VendorCb W = Option (Bytes → Inst → Dm W → Outcome W)

-- The call-backs that are registered for the tables, the default values that
-- AddChildParamsDefaultValues writes, and DATABASE_DeleteParameter, which works on SQLite.
pub record TableHooks (W : Type 0) : Type 0 where
  pub validate_add_cb : ℕ → VendorCb W
  pub add_cb : ℕ → VendorCb W
  pub validate_del_cb : ℕ → VendorCb W
  pub del_cb : ℕ → VendorCb W
  pub default_values : Bytes → ℕ → Inst → Dm W → Outcome W
  pub database_delete_parameter : Bytes → ℕ → Bytes → Dm W → Outcome W

abbrev pub call_cb : {W : Type 0} → VendorCb W → Bytes → Inst → Dm W → Outcome W
call_cb none path inst s = ok (none, s)
call_cb (some cb) path inst s = cb path inst s

-- `if (err != USP_ERR_OK) return err;`, and else what follows.
abbrev pub unless_error : {W : Type 0} → Option UspErr × Dm W → (Dm W → Outcome W) → Outcome W
unless_error (some e, s) k = ok (some e, s)
unless_error (none, s) k = k s

abbrev pub call_if :
    {W : Type 0} → Bool → VendorCb W → Bytes → Inst → Dm W → (Dm W → Outcome W) → Outcome W
call_if wanted cb path inst s k =
    (if wanted then call_cb cb path inst s else ok (none, s)) >>= (λ r. unless_error r k)

abbrev pub fail : {W : Type 0} → UspErr → Dm W → Outcome W
fail e s = ok (some e, s)

-- The flags of DATA_MODEL_AddInstance and DATA_MODEL_DeleteInstance.
pub record AddFlags : Type 0 where
  pub check_creatable : Bool
  pub ignore_instance_exists : Bool

pub record DelFlags : Type 0 where
  pub check_deletable : Bool
  pub ignore_no_instance : Bool

-- A trailing dot is taken off. For an empty path the byte before the buffer is read.
abbrev pub strip_dot : Bytes → Result Bytes
strip_dot [] = abort
strip_dot (c ∷ []) = if c == b'.' then ok [] else ok (c ∷ [])
strip_dot (c ∷ d ∷ s) = strip_dot (d ∷ s) >>= (λ rest. ok (c ∷ rest))

-- What stands before the last dot; `none` where strrchr finds none.
abbrev pub before_last_dot : Bytes → Option Bytes
before_last_dot [] = none
before_last_dot (c ∷ s) = elim (before_last_dot s) [
  | some before ↦ some (c ∷ before)
  | none ↦ if c == b'.' then some [] else none
]

-- nodes[order] = node; instances[order] = number; order++
abbrev pub child_inst : Inst → ℕ → ℕ → Inst
child_inst inst node number = record {
  order = inst.order + 1;
  instances = set inst.instances inst.order number;
  nodes = set inst.nodes inst.order node;
}

-- The instance is entered once the call-back of the vendor has made its row. A path that does not
-- fit with its number is ended behind the buffer.
unfoldable pub enter_instance :
    {W : Type 0} → External W → TableHooks W → Schema → Bytes → ℕ → Inst → ℕ → Dm W → Outcome W
enter_instance ext hooks schema path node inst number s =
    let inst' = child_inst inst node number in
    let full = path ++ (b'.' ∷ print_unsigned number) in
    call_if true (hooks.add_cb node) path inst' s (λ s'.
      assert (ltb (length full) max_dm_path)
      >> add_instance_end ext schema (hooks.default_values full node inst') full node inst' s')

-- The new number is given by the caller, or by the table.
abbrev pub enter_numbered :
    {W : Type 0}
    → External W
    → TableHooks W
    → Schema
    → Bytes
    → ℕ
    → Inst
    → Option ℕ
    → Dm W
    → Outcome W
enter_numbered ext hooks schema path node inst (some n) s =
    enter_instance ext hooks schema path node inst n s
enter_numbered ext hooks schema path node inst none s =
    dm_inst_vector_get_next_instance schema node inst s.vectors
    >>= (λ n. enter_instance ext hooks schema path node inst n s)

-- The instances of the parents must exist.
unfoldable pub create_instance :
    {W : Type 0}
    → External W
    → TableHooks W
    → Schema
    → AddFlags
    → Bytes
    → ℕ
    → Inst
    → Option ℕ
    → Dm W
    → Outcome W
create_instance ext hooks schema flags path node inst number s = do
  exists ← dm_inst_vector_is_exist schema inst s.vectors
  if exists
      then call_if flags.check_creatable (hooks.validate_add_cb node) path inst s
          (λ s'. enter_numbered ext hooks schema path node inst number s')
      else fail object_does_not_exist s

-- The caller's number is taken off the path and the instances.
abbrev pub with_number :
    {W : Type 0}
    → External W
    → TableHooks W
    → Schema
    → AddFlags
    → Bytes
    → ℕ
    → Inst
    → Dm W
    → Outcome W
with_number ext hooks schema flags path node inst s = do
  exists ← dm_inst_vector_is_exist schema inst s.vectors
  if exists
      then if flags.ignore_instance_exists then ok (none, s) else fail request_denied s
      else assert (not (inst.order == 0)) >> elim (before_last_dot path) [
        | none ↦ abort
        | some parent_path ↦
            create_instance ext hooks schema flags parent_path node (parent_inst inst)
              (some (instance_at inst (inst.order - 1))) s
      ]

-- `allocates` says that the data model gives the number (`instance` is not NULL).
abbrev pub add_below :
    {W : Type 0}
    → External W
    → TableHooks W
    → Registry
    → AddFlags
    → Bool
    → Bytes
    → Option (ℕ × Inst × Bool)
    → Dm W
    → Outcome W
add_below ext hooks reg flags allocates path none s = fail object_does_not_exist s
add_below ext hooks reg flags allocates path (some (node, inst, q)) s =
    if not (is_multi (reg.nodes node).type) || (if allocates then q else not q)
    then fail object_not_creatable s
    else if allocates
    then create_instance ext hooks (schema_of reg) flags path node inst none s
    else with_number ext hooks (schema_of reg) flags path node inst s

unfoldable pub data_model_add_instance :
    {W : Type 0}
    → External W
    → TableHooks W
    → Registry
    → (Bytes → ℕ)
    → Bytes
    → Bool
    → AddFlags
    → Dm W
    → Outcome W
unfolding create_instance dm_priv_get_node_from_path
data_model_add_instance ext hooks reg atoi path allocates flags s = do
  assert (dm_trans_is_within_transaction s)
  if ltb (length path) max_dm_path
      then strip_dot path >>= (λ internal_path.
        add_below ext hooks reg flags allocates internal_path
          (dm_priv_get_node_from_path reg atoi internal_path) s)
      else fail resources_exceeded s
