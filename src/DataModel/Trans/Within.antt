-- ===== src/DataModel/Trans/Within.antt =====
-- src/core/dm_trans.c, src/core/data_model.c: the changes that are made within a transaction.
use usp_agent_stomp.Common.{ℕ, ◌<◌, ◌≡◌, true, false, Option, none, some, List, []}
use usp_agent_stomp.Result.{UspErr, ok, Ensures}
use usp_agent_stomp.DataModel.Instances.{Inst, Schema, Vectors, top_of, dm_inst_vector_remove}
use usp_agent_stomp.DataModel.Instances.Nested.{IsNested}
use usp_agent_stomp.DataModel.Instances.Tree.{Tree, view, IsTopped, Holds}
use usp_agent_stomp.DataModel.Trans.{
  set_op, del_op, Trans, Dm, Outcome, External, inst_of, dm_trans_add,
}
use usp_agent_stomp.DataModel.Trans.Changes.{add_instance_end, delete_child_instance}
use usp_agent_stomp.DataModel.Trans.Journal.{deletions, Spares}

-- `node` is the registered node of the object of `inst`, which lies below a registered table.
pub record IsNode (schema : Schema) (node : ℕ) (inst : Inst) : Type 0 where
  pub node_set : 0 < node
  pub topped : IsTopped schema inst
  pub same_nodes :
      inst_of schema node (record { order = inst.order; instances = inst.instances }) ≡ inst

-- The default values of the child parameters are written to the database only.
abbrev pub OnlyValues : {W : Type 0} → (Dm W → Outcome W) → Type 0
OnlyValues {W} default_values = (s : Dm W) → Ensures (λ r. Spares s r.1) (default_values s)

-- What a transaction's operations lead to, from its start. An added instance has a number that
-- was not in use before the transaction; a deleted one existed before it; and what is taken from the vectors is
-- noted as deleted at that moment.
pub data Within {W : Type 0} (ext : External W) (schema : Schema) (before : Tree)
    : Dm W → Type 0 where
  started :
      (s : Dm W) → Holds before s.vectors → s.cur_transaction ≡ some [] → Within ext schema before s
  set_done :
      (s s' : Dm W) (path : List ℕ) (value : Option (List ℕ)) (node : ℕ) (inst : Inst)
      → Within ext schema before s
      → dm_trans_add ext schema set_op path value true node inst s ≡ ok s'
      → Within ext schema before s'
  added :
      (s s' : Dm W) (default_values : Dm W → Outcome W) (path : List ℕ) (node : ℕ) (inst : Inst)
      (e : Option UspErr)
      → Within ext schema before s
      → OnlyValues default_values
      → IsNode schema node inst
      → ((x : Inst) → IsNested inst x → before (top_of inst) x ≡ false)
      → add_instance_end ext schema default_values path node inst s ≡ ok (e, s')
      → Within ext schema before s'
  noted :
      (s s' : Dm W) (path : List ℕ) (node : ℕ) (inst : Inst)
      → Within ext schema before s
      → IsNode schema node inst
      → before (top_of inst) inst ≡ true
      → dm_trans_add ext schema del_op path none false node inst s ≡ ok s'
      → Within ext schema before s'
  removed :
      (s : Dm W) (ops : List Trans) (inst : Inst) (vs : Vectors)
      → Within ext schema before s
      → IsTopped schema inst
      → s.cur_transaction ≡ some ops
      → ((x : Inst)
          → IsNested inst x
          → view s.vectors (top_of inst) x ≡ true
          → deletions schema ops (top_of inst) x ≡ true)
      → dm_inst_vector_remove schema inst s.vectors ≡ ok vs
      → Within ext schema before (record s { vectors = vs })
  child_removed :
      (s s' : Dm W) (path : List ℕ) (node : ℕ) (inst : Inst)
      → Within ext schema before s
      → IsNode schema node inst
      → before (top_of inst) inst ≡ true
      → ((x : Inst) → IsNested inst x → view s.vectors (top_of inst) x ≡ true → x ≡ inst)
      → delete_child_instance ext schema path node inst s ≡ ok s'
      → Within ext schema before s'
