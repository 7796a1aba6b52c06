-- ===== src/DataModel/Objects/Deletion.antt =====
-- src/core/data_model.c: DATA_MODEL_DeleteInstance, with the functions that delete what is nested in
-- an object.
use usp_agent_stomp.Common.{
  ℕ, zero, suc, ◌-◌, ◌^◌, Bool, true, false, not, Option, none, some, List, [], ◌∷◌, ◌++◌, ltb,
  ◌==◌, if◌then◌else◌, take, Bytes,
}
use usp_agent_stomp.Common.Int.{ℤ, pos, negsuc}
use usp_agent_stomp.Result.{
  UspErr, internal_error, object_does_not_exist, object_not_creatable, Result, ok, out_of_fuel,
  ◌>>=◌, ◌>>◌, assert, try,
}
use usp_agent_stomp.Text.Number.{print_int}
use usp_agent_stomp.DataModel.Instances.{
  max_dm_instance_order, Inst, Schema, dm_inst_vector_remove, dm_inst_vector_is_exist,
  dm_inst_vector_get_instances,
}
use usp_agent_stomp.DataModel.Objects.{
  TableHooks, unless_error, call_if, fail, DelFlags, child_inst,
}
use usp_agent_stomp.DataModel.Paths.{max_dm_path, type_number, is_multi, form_instance_string}
use usp_agent_stomp.DataModel.Registry.{
  DmNode, Registry, is_db_param, dm_priv_get_node_from_path, schema_of,
}
use usp_agent_stomp.DataModel.Trans.{
  del_op, Dm, Outcome, External, dm_trans_is_within_transaction, dm_trans_add,
}
use usp_agent_stomp.DataModel.Trans.Changes.{delete_child_instance}

-- The bits of an `int`, as an instance number.
abbrev pub int_bits : ℤ → ℕ
int_bits (pos n) = n
int_bits (negsuc n) = 2 ^ 32 - 1 - n

-- The error, what the buffer of the path holds, and the state.
abbrev pub PathOutcome : Type 0 → Type 0
PathOutcome W = Result (Option UspErr × Bytes × Dm W)

-- A function that deletes what is nested in the object of a node. It writes behind the path that it
-- is given, and leaves in the buffer what it wrote last.
abbrev pub DeleteChildren : Type 0 → Type 0
DeleteChildren W = ℕ → Bytes → Inst → Dm W → PathOutcome W

abbrev pub unless_failed :
    {W : Type 0} → Option UspErr × Bytes × Dm W → (Bytes → Dm W → PathOutcome W) → PathOutcome W
unless_failed (some e, buf, s) k = ok (some e, buf, s)
unless_failed (none, buf, s) k = k buf s

-- The rounds of DeleteChildParams_MultiInstanceObject over the instance numbers of the table. The
-- journal gets what is in the buffer once the nested objects are gone.
unfoldable pub rows_loop :
    {W : Type 0}
    → External W
    → Schema
    → DeleteChildren W
    → ℕ
    → Bytes
    → Inst
    → List ℤ
    → Bytes
    → Dm W
    → PathOutcome W
rows_loop ext schema delete_children node path inst [] buf s = ok (none, buf, s)
rows_loop ext schema delete_children node path inst (number ∷ numbers) buf s =
    let row = child_inst inst node (int_bits number) in
    let next = rows_loop ext schema delete_children node path inst numbers in
    delete_children node (path ++ (b'.' ∷ print_int number)) row s >>= (λ r.
      unless_failed r (λ buf' s'. delete_child_instance ext schema buf' node row s' >>= next buf'))

-- A table of more than 128 rows is an error. GetInstances has the assertion on the order too.
unfoldable pub delete_rows :
    {W : Type 0} → External W → Schema → DeleteChildren W → ℕ → Bytes → Inst → Dm W → PathOutcome W
unfolding rows_loop
delete_rows ext schema delete_children node path inst s =
    try (dm_inst_vector_get_instances schema node inst s.vectors)
      (λ numbers.
        assert (ltb inst.order max_dm_instance_order)
        >> rows_loop ext schema delete_children node path inst numbers path s)
      (ok (some internal_error, path, s))

-- DATABASE_DeleteParameter of a parameter of the object.
unfoldable pub delete_parameter :
    {W : Type 0} → TableHooks W → DmNode → Bytes → Inst → Dm W → PathOutcome W
unfolding form_instance_string
delete_parameter hooks child path inst s = do
  instances ← form_instance_string (take inst.order inst.instances) max_dm_path
  r ← hooks.database_delete_parameter path child.hash instances s
  ok (r.0, path, r.1)

-- The switch on the type of a child, and then the later children. What is written behind the path
-- is not cut off at the end of the buffer here.
unfoldable pub children_loop :
    {W : Type 0}
    → External W
    → TableHooks W
    → Registry
    → DeleteChildren W
    → List ℕ
    → Bytes
    → Inst
    → Bytes
    → Dm W
    → PathOutcome W
unfolding delete_rows delete_parameter
children_loop ext hooks reg delete_children [] path inst buf s = ok (none, buf, s)
children_loop ext hooks reg delete_children (child ∷ children) path inst buf s =
    let node = reg.nodes child in
    let child_path = path ++ (b'.' ∷ node.name) in
    let next = children_loop ext hooks reg delete_children children path inst in
    (if is_db_param node.type
      then delete_parameter hooks node child_path inst s
      else if type_number node.type == 1
      then delete_children child child_path inst s
      else if is_multi node.type
      then delete_rows ext (schema_of reg) delete_children child child_path inst s
      else ok (none, buf, s))
    >>= (λ r. unless_failed r next)

-- DeleteChildParams; the fuel bounds the depth of the tree.
unfoldable pub delete_child_params :
    {W : Type 0} → ℕ → External W → TableHooks W → Registry → DeleteChildren W
unfolding children_loop
delete_child_params zero ext hooks reg node path inst s = out_of_fuel
delete_child_params (suc fuel) ext hooks reg node path inst s =
    children_loop ext hooks reg (delete_child_params fuel ext hooks reg)
      (reg.nodes node).child_nodes path inst path s

-- The journal has the deletion before anything is deleted. The path for the nested objects is a
-- copy of 255 bytes at most.
abbrev pub delete_entered :
    {W : Type 0} → External W → TableHooks W → Registry → Bytes → ℕ → Inst → Dm W → Outcome W
delete_entered ext hooks reg path node inst s = do
  s1 ← dm_trans_add ext (schema_of reg) del_op path none false node inst s
  r ←
      delete_child_params (suc reg.num_nodes) ext hooks reg node (take (max_dm_path - 1) path) inst
        s1
  unless_error (r.0, r.2)
      (λ s2.
        dm_inst_vector_remove (schema_of reg) inst s2.vectors
        >>= (λ vs. ok (none, record s2 { vectors = vs })))

abbrev pub delete_found :
    {W : Type 0}
    → External W
    → TableHooks W
    → Registry
    → DelFlags
    → Bytes
    → Option (ℕ × Inst × Bool)
    → Dm W
    → Outcome W
delete_found ext hooks reg flags path none s = fail object_does_not_exist s
delete_found ext hooks reg flags path (some (node, inst, q)) s =
    if not q
    then fail object_not_creatable s
    else dm_inst_vector_is_exist (schema_of reg) inst s.vectors >>= (λ exists.
      if not exists
      then if flags.ignore_no_instance then ok (none, s) else fail object_does_not_exist s
      else if not (is_multi (reg.nodes node).type)
      then fail object_not_creatable s
      else call_if flags.check_deletable (hooks.validate_del_cb node) path inst s (λ s1.
        call_if true (hooks.del_cb node) path inst s1
          (delete_entered ext hooks reg path node inst)))

unfoldable pub data_model_delete_instance :
    {W : Type 0}
    → External W
    → TableHooks W
    → Registry
    → (Bytes → ℕ)
    → Bytes
    → DelFlags
    → Dm W
    → Outcome W
unfolding delete_child_params dm_priv_get_node_from_path
data_model_delete_instance ext hooks reg atoi path flags s =
    assert (dm_trans_is_within_transaction s)
    >> delete_found ext hooks reg flags path (dm_priv_get_node_from_path reg atoi path) s
