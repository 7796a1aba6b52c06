-- ===== src/DataModel/Trans.antt =====
-- src/core/dm_trans.c and the transactions of src/core/database.c: the journal of the operations of
-- a transaction, its commit with the notifications, and its abort. A call-back that is NULL is
-- `none`, an error code `some e` and USP_ERR_OK `none`.
pub mod Commit
pub mod Changes
pub mod Journal
pub mod Accounting
pub mod Within
pub mod Steps
pub mod Rollback
pub mod Ending
pub mod Refused
use usp_agent_stomp.Common.{
  ℕ, zero, suc, ◌-◌, Bool, true, false, not, ◌&&◌, ◌||◌, Option, none, some, List, [], ◌∷◌, ◌++◌,
  leb, ◌==◌, if◌then◌else◌, take,
}
use usp_agent_stomp.Result.{UspErr, internal_error, Result, ok, abort, ◌>>=◌, ◌>>◌, assert}
use usp_agent_stomp.DataModel.Instances.{
  max_dm_instance_order, Inst, Schema, Vectors, zeros, same_first, dm_inst_vector_add,
  dm_inst_vector_remove,
}

-- dm_op_t
pub data DmOp : Type 0 where
  set_op add_op del_op : DmOp

-- dm_req_instances_t
pub record ReqInst : Type 0 where
  pub order : ℕ
  pub instances : List ℕ

-- dm_trans_t
pub record Trans : Type 0 where
  pub op : DmOp
  pub path : List ℕ
  pub value : Option (List ℕ)
  pub node : ℕ
  pub inst : ReqInst

-- The instance vectors, `cur_transaction` and all else that the call-backs see.
pub record Dm (W : Type 0) : Type 0 where
  pub vectors : Vectors
  pub cur_transaction : Option (List Trans)
  pub world : W

abbrev pub Outcome : Type 0 → Type 0
Outcome W = Result (Option UspErr × Dm W)

pub data Sql : Type 0 where
  begin_transaction commit_transaction rollback : Sql

pub data SubNotifyType : Type 0 where
  object_creation object_deletion : SubNotifyType

-- SQLite, the call-backs of the vendor and of the nodes, and the subscriptions that are told.
pub record External (W : Type 0) : Type 0 where
  pub is_data_model_thread : W → Bool
  pub sqlite3_exec : Sql → W → Bool × W
  pub start_trans_cb : Option (W → Option UspErr × W)
  pub commit_trans_cb : Option (W → Option UspErr × W)
  pub abort_trans_cb : Option (W → Option UspErr × W)
  pub notify_set_cb : ℕ → Option (Trans → Dm W → Outcome W)
  pub notify_add_cb : ℕ → Option (Trans → Dm W → Outcome W)
  pub notify_del_cb : ℕ → Option (Trans → Dm W → Outcome W)
  pub notify_object_life_event : SubNotifyType → List ℕ → Dm W → Result (Dm W)
  pub resolve_object_deletion_paths : W → W

abbrev pub with_world : {W : Type 0} → Dm W → Option UspErr × W → Option UspErr × Dm W
with_world s r = (r.0, record s { world = r.1 })

abbrev pub with_transaction : {W : Type 0} → Dm W → Option (List Trans) → Dm W
with_transaction s ops = record s { cur_transaction = ops }

abbrev pub call_hook : {W : Type 0} → Option (W → Option UspErr × W) → Dm W → Option UspErr × Dm W
call_hook none s = (none, s)
call_hook (some hook) s = with_world s (hook s.world)

abbrev pub sql_error : Bool → Option UspErr
sql_error done = if done then none else some internal_error

abbrev pub exec_checked : {W : Type 0} → External W → Sql → Dm W → Option UspErr × Dm W
exec_checked ext sql s =
    if ext.is_data_model_thread s.world
    then (let r = ext.sqlite3_exec sql s.world in with_world s (sql_error r.0, r.1))
    else (some internal_error, s)

abbrev pub database_start_transaction : {W : Type 0} → External W → Dm W → Option UspErr × Dm W
database_start_transaction ext s = exec_checked ext begin_transaction s

abbrev pub database_commit_transaction : {W : Type 0} → External W → Dm W → Option UspErr × Dm W
database_commit_transaction ext s = exec_checked ext commit_transaction s

-- An error of SQLite is ignored here.
abbrev pub database_abort_transaction : {W : Type 0} → External W → Dm W → Option UspErr × Dm W
database_abort_transaction ext s =
    if ext.is_data_model_thread s.world
    then with_world s (none, (ext.sqlite3_exec rollback s.world).1)
    else (some internal_error, s)

unfoldable pub dm_trans_is_within_transaction : {W : Type 0} → Dm W → Bool
dm_trans_is_within_transaction s = elim s.cur_transaction [ none ↦ false | some ops ↦ true ]

-- The instances structure that an undone operation is applied to: that of the journal, with the
-- nodes of the registered node.
unfoldable pub inst_of : Schema → ℕ → ReqInst → Inst
unfolding zeros
inst_of schema node inst =
    let order = (schema node).order in
    record {
      order = inst.order;
      instances = inst.instances;
      nodes = take order (schema node).instance_nodes ++ zeros (max_dm_instance_order - order);
    }

unfoldable pub undo : Schema → Trans → Vectors → Result Vectors
undo schema dt vs = elim dt.op [
  | set_op ↦ ok vs
  | add_op ↦
      assert (not (dt.node == 0))
      >> dm_inst_vector_remove schema (inst_of schema dt.node dt.inst) vs
  | del_op ↦
      assert (not (dt.node == 0)) >> dm_inst_vector_add schema (inst_of schema dt.node dt.inst) vs
]

unfoldable pub undo_loop : Schema → List Trans → Vectors → Result Vectors
undo_loop schema [] vs = ok vs
undo_loop schema (dt ∷ ops) vs = undo schema dt vs >>= undo_loop schema ops

-- The databases are told once the journal is gone.
unfoldable pub abort_databases : {W : Type 0} → External W → Dm W → Option UspErr × Dm W
abort_databases ext s =
    let (e1, s') = call_hook ext.abort_trans_cb s in
    elim e1 [
      | some e ↦ (some e, (database_abort_transaction ext s').1)
      | none ↦ database_abort_transaction ext s'
    ]

unfoldable pub dm_trans_abort : {W : Type 0} → External W → Schema → Dm W → Outcome W
dm_trans_abort ext schema s = elim s.cur_transaction [
  | none ↦ ok (none, s)
  | some ops ↦
      undo_loop schema ops s.vectors
      >>= (λ vs. ok (abort_databases ext (record s { vectors = vs; cur_transaction = none })))
]

-- The error that made the caller abort is returned, not that of the abort.
unfoldable pub aborted : {W : Type 0} → External W → Schema → Dm W → UspErr → Outcome W
aborted ext schema s e = dm_trans_abort ext schema s >>= (λ r. ok (some e, r.1))

-- What follows the call of the vendor's call-back, and what follows that of the database.
abbrev pub vendor_started : {W : Type 0} → External W → Schema → Option UspErr → Dm W → Outcome W
vendor_started ext schema (some e) s = aborted ext schema s e
vendor_started ext schema none s = ok (none, s)

abbrev pub database_started : {W : Type 0} → External W → Schema → Option UspErr → Dm W → Outcome W
database_started ext schema (some e) s = ok (some e, s)
database_started ext schema none s =
    let r = call_hook ext.start_trans_cb s in vendor_started ext schema r.0 r.1

unfoldable pub dm_trans_start : {W : Type 0} → External W → Schema → Dm W → Outcome W
dm_trans_start ext schema s = do
  assert (not (dm_trans_is_within_transaction s))
  let r = database_start_transaction ext (with_transaction s (some []))
  database_started ext schema r.0 r.1

-- A Set is left out where the journal has the addition of an object that it is in.
unfoldable pub is_part_of_add : Schema → Inst → List Trans → Bool
is_part_of_add schema inst [] = false
is_part_of_add schema inst (dt ∷ ops) =
    elim dt.op [ set_op ↦ false | add_op ↦ true | del_op ↦ false ]
      && leb dt.inst.order inst.order
      && same_first dt.inst.order inst.nodes (schema dt.node).instance_nodes
      && same_first dt.inst.order inst.instances dt.inst.instances
    || is_part_of_add schema inst ops

abbrev pub entry : DmOp → List ℕ → Option (List ℕ) → ℕ → Inst → Trans
entry op path value node inst = record {
  op = op;
  path = path;
  value = value;
  node = node;
  inst = record { order = inst.order; instances = inst.instances };
}

abbrev pub resolve_deletions : {W : Type 0} → External W → DmOp → W → W
resolve_deletions ext set_op w = w
resolve_deletions ext add_op w = w
resolve_deletions ext del_op w = ext.resolve_object_deletion_paths w

abbrev pub is_skipped : Schema → DmOp → Inst → List Trans → Bool
is_skipped schema set_op inst ops = is_part_of_add schema inst ops
is_skipped schema add_op inst ops = false
is_skipped schema del_op inst ops = false

-- `is_param` is IsParam(node); a value has its native form beside it.
unfoldable pub dm_trans_add :
    {W : Type 0}
    → External W
    → Schema
    → DmOp
    → List ℕ
    → Option (List ℕ)
    → Bool
    → ℕ
    → Inst
    → Dm W
    → Result (Dm W)
dm_trans_add ext schema op path value is_param node inst s = elim s.cur_transaction [
  | none ↦ abort
  | some ops ↦
      if is_skipped schema op inst ops
      then ok s
      else assert (elim value [ none ↦ true | some v ↦ is_param ])
        >> ok (record s {
          cur_transaction = some (ops ++ entry op path value node inst ∷ []);
          world = resolve_deletions ext op s.world;
        })
]
